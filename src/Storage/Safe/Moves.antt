-- ===== src/Storage/Safe/Moves.antt =====
-- The steps of `moveToTrash` (src/storage/safe-storage.adapter.ts), each with its two outcomes.
use dbdock.Base.{ℕ, ◌≡◌, refl, sym, ap, ◌∙◌, ◌≢◌, ◌⊎◌, inl, inr, Text, Option, none, some}
use dbdock.Base.Effect.{Effect, Result, ok, err, pure, throw}
use dbdock.Base.Triple.{Outcome, Triple, Triple-bind}
use dbdock.Storage.Adapter.{StorageAdapter, IsSpared, IsObjectStore}
use dbdock.Storage.Guard.{Check, record_deletion}
use dbdock.Storage.Safe.{
  SafeState, StorageDeletionEvent, inner, lifted, copy_with, copy_object, ensure, rate_limit, emit,
}

-- The three keys that a soft deletion writes are different, and it spares the new two.
pub record AreApart (key trash sidecar : Text) : Type 0 where
  pub from_trash : key ≢ trash
  pub from_sidecar : key ≢ sidecar
  pub sidecar_apart : trash ≢ sidecar
  pub trash_spared : IsSpared trash key
  pub sidecar_spared : IsSpared sidecar key

module _ (a : StorageAdapter) (os : IsObjectStore a) where
  open a use {Store, Failure, Content, upload, download, list, delete, copy, content}

  Outcome-lifted :
      {A : Type 0} (Q : A → SafeState a → Type 0) (R : SafeState a → Type 0) (s : SafeState a)
      (r : Result Failure A × Store)
      → ((x : A) (t : Store) → r ≡ (ok x, t) → Q x (record s { store = t }))
      → ((e : Failure) (t : Store) → r ≡ (err e, t) → R (record s { store = t }))
      → Outcome Q R (lifted a s r)
  Outcome-lifted Q R s (ok x, t) h k = h x t refl
  Outcome-lifted Q R s (err e, t) h k = k e t refl

  pub Triple-inner :
      {A : Type 0} (P : Store → Type 0) (Q : A → Store → Type 0) (R : Store → Type 0)
      (m : Effect Failure Store A)
      → ((s t : Store) (x : A) → P s → m s ≡ (ok x, t) → Q x t)
      → ((s t : Store) (e : Failure) → P s → m s ≡ (err e, t) → R t)
      → Triple (λ s. P s.store) (inner a m) (λ x s. Q x s.store) (λ s. R s.store)
  unfolding inner
  Triple-inner P Q R m h k = record {
    run = λ s p.
        Outcome-lifted (λ x u. Q x u.store) (λ u. R u.store) s (m s.store)
          (λ x t e. h s.store t x p e) (λ e t q. k s.store t e p q);
  }

  pub stays :
      {A : Type 0} {u : Result Failure A × Store} {k : Text} {c : Content} {s t : Store}
      {r : Result Failure A}
      → u ≡ (r, t)
      → content u.1 k ≡ content s k
      → content s k ≡ some c
      → content t k ≡ some c
  stays {k} e same h = ap (λ r. content r.1 k) (sym e) ∙ same ∙ h

  module _ (key trash sidecar : Text) (c d : Content) where
    abbrev pub AtKey : Store → Type 0
    AtKey s = content s key ≡ some c

    abbrev pub Copied : Store → Type 0
    Copied s = (content s key ≡ some c) × (content s trash ≡ some c)

    abbrev pub Noted : Store → Type 0
    Noted s = (content s key ≡ some c) × (content s trash ≡ some c) × (content s sidecar ≡ some d)

    -- The object is gone from its key, and is in the recycle bin with its sidecar.
    abbrev pub Moved : Store → Type 0
    Moved s = (content s key ≡ none) × (content s trash ≡ some c) × (content s sidecar ≡ some d)

    -- The object is where it was, or in the recycle bin.
    abbrev pub Kept : Store → Type 0
    Kept s = (content s key ≡ some c) ⊎ (content s trash ≡ some c)

    module _ (far : AreApart key trash sidecar) where
      pub Triple-download :
          Triple
            (λ s. AtKey s.store)
            (inner a (download key))
            (λ x s. AtKey s.store × (x ≡ c))
            (λ s. Kept s.store)
      Triple-download =
          Triple-inner AtKey (λ x s. AtKey s × (x ≡ c)) Kept (download key)
            (λ s t x h e. (stays e (os.download_same key key s) h, cc (os.download_ok key s e, h)))
            (λ s t x h e. inl (stays e (os.download_same key key s) h))

      pub Triple-upload :
          (x : Content)
          → Triple
              (λ s. AtKey s.store × (x ≡ c))
              (inner a (upload trash x))
              (λ _ s. Copied s.store)
              (λ s. Kept s.store)
      Triple-upload x =
          Triple-inner (λ s. AtKey s × (x ≡ c)) (λ _ s. Copied s) Kept (upload trash x)
            (λ s t _ h e. (
              stays e (os.upload_other trash key x s far.from_trash) h.0,
              os.upload_ok trash x s e ∙ ap some h.1,
            ))
            (λ s t _ h e. inl (stays e (os.upload_other trash key x s far.from_trash) h.0))

      pub Triple-copy_with :
          (o : Option (Text → Text → Effect Failure Store Unit))
          → a.copy ≡ o
          → Triple
              (λ s. AtKey s.store)
              (copy_with a o key trash)
              (λ _ s. Copied s.store)
              (λ s. Kept s.store)
      unfolding copy_with
      Triple-copy_with none p = Triple-bind _ _ _ Triple-download Triple-upload
      Triple-copy_with (some f) p =
          Triple-inner AtKey (λ _ s. Copied s) Kept (f key trash)
            (λ s t _ h e. (
              stays e (os.copy_other f key trash key s p far.from_trash) h,
              os.copy_ok f key trash s p e ∙ h,
            ))
            (λ s t _ h e. inl (stays e (os.copy_other f key trash key s p far.from_trash) h))

      pub Triple-copy_object :
          Triple
            (λ s. AtKey s.store)
            (copy_object a key trash)
            (λ _ s. Copied s.store)
            (λ s. Kept s.store)
      unfolding copy_object
      Triple-copy_object = Triple-copy_with a.copy refl

      pub Triple-sidecar :
          Triple
            (λ s. Copied s.store)
            (inner a (upload sidecar d))
            (λ _ s. Noted s.store)
            (λ s. Kept s.store)
      Triple-sidecar =
          Triple-inner Copied (λ _ s. Noted s) Kept (upload sidecar d)
            (λ s t _ h e. (
              stays e (os.upload_other sidecar key d s far.from_sidecar) h.0,
              stays e (os.upload_other sidecar trash d s far.sidecar_apart) h.1,
              os.upload_ok sidecar d s e,
            ))
            (λ s t _ h e. inl (stays e (os.upload_other sidecar key d s far.from_sidecar) h.0))

      pub Triple-remove :
          Triple
            (λ s. Noted s.store)
            (inner a (delete key))
            (λ _ s. Moved s.store)
            (λ s. Kept s.store)
      Triple-remove =
          Triple-inner Noted (λ _ s. Moved s) Kept (delete key)
            (λ s t _ h e. (
              os.delete_ok key s e,
              stays e (os.delete_other key trash s far.trash_spared) h.1,
              stays e (os.delete_other key sidecar s far.sidecar_spared) h.2,
            ))
            (λ s t _ h e. inr (stays e (os.delete_other key trash s far.trash_spared) h.1))

      pub Triple-ensure :
          (c : Check)
          → Triple (λ s. AtKey s.store) (ensure a c) (λ _ s. AtKey s.store) (λ s. Kept s.store)
      unfolding ensure pure throw
      Triple-ensure none = record { run = λ s h. h }
      Triple-ensure (some e) = record { run = λ s h. inl h }

      pub Triple-rate_limit :
          (now : ℕ)
          → Triple
              (λ s. AtKey s.store)
              (rate_limit a now)
              (λ _ s. AtKey s.store)
              (λ s. Kept s.store)
      unfolding rate_limit
      Triple-rate_limit now = record {
        run = λ s h.
            (Triple-ensure (record_deletion s.limiter now).0).run
              (record s { limiter = (record_deletion s.limiter now).1 }) h;
      }

      pub Triple-emit :
          (e : StorageDeletionEvent)
          → Triple (λ s. Moved s.store) (emit a e) (λ _ s. Moved s.store) (λ s. Kept s.store)
      unfolding emit
      Triple-emit e = record { run = λ s h. h }
