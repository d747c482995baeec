-- ===== src/Storage/Safe/Frame.antt =====
-- What src/storage/safe-storage.adapter.ts leaves alone in the store.
use dbdock.Base.{ℕ, ◌≡◌, refl, ◌∙◌, ◌≢◌, Text, Bool, true, false, Option, none, some, if◌then◌else◌}
use dbdock.Base.Effect.{Effect, Result, ok, err, continue, rescue, pure, throw, try_catch, ◌>>=◌}
use dbdock.Storage.Adapter.{StorageAdapter, IsSpared, IsObjectStore}
use dbdock.Storage.Guard.{DeletionGuardPolicy, Check, record_deletion}
use dbdock.Storage.Safe.{
  SafeState, SafeError, Safe, StorageDeletionEvent, inner, lifted, copy_with, refused, ensure,
  rate_limit, emit, copy_object, hard_delete, best_effort_hard_delete,
}

module _ (a : StorageAdapter) (os : IsObjectStore a) where
  open a use {Store, Failure, Content, upload, download, list, delete, content}

  -- The action changes nothing that is stored at `j`, whether it returns or throws.
  pub record Leaves {A : Type 0} (j : Text) (m : Safe a A) : Type 0 where
    pub at : (s : SafeState a) → content (m s).1.store j ≡ content s.store j

  module _ {A : Type 0} {j : Text} where
    content-lifted :
        (s : SafeState a) (r : Result Failure A × Store)
        → content (lifted a s r).1.store j ≡ content r.1 j
    content-lifted s (ok x, store) = refl
    content-lifted s (err e, store) = refl

    pub Leaves-pure : (x : A) → Leaves j (pure x)
    unfolding pure
    Leaves-pure x = record { at = λ s. refl }

    pub Leaves-throw : (e : SafeError a) → Leaves {A = A} j (throw e)
    unfolding throw
    Leaves-throw e = record { at = λ s. refl }

    pub Leaves-if :
        (b : Bool) {m n : Safe a A}
        → (b ≡ true → Leaves j m)
        → (b ≡ false → Leaves j n)
        → Leaves j (if b then m else n)
    Leaves-if true p q = p refl
    Leaves-if false p q = q refl

    pub Leaves-inner :
        (m : Effect Failure Store A)
        → ((s : Store) → content (m s).1 j ≡ content s j)
        → Leaves j (inner a m)
    unfolding inner
    Leaves-inner m h = record { at = λ s. content-lifted s (m s.store) ∙ h s.store }

  module _ {A B : Type 0} {j : Text} where
    content-continue :
        (r : Result (SafeError a) A × SafeState a) (f : A → Safe a B)
        → ((x : A) → Leaves j (f x))
        → content (continue r f).1.store j ≡ content r.1.store j
    content-continue (ok x, s) f k = (k x).at s
    content-continue (err e, s) f k = refl

    pub Leaves-bind :
        (m : Safe a A) (f : A → Safe a B)
        → Leaves j m
        → ((x : A) → Leaves j (f x))
        → Leaves j (m >>= f)
    unfolding ◌>>=◌
    Leaves-bind m f h k = record { at = λ s. content-continue (m s) f k ∙ h.at s }

  module _ {A : Type 0} {j : Text} where
    content-rescue :
        (r : Result (SafeError a) A × SafeState a) (f : SafeError a → Safe a A)
        → ((e : SafeError a) → Leaves j (f e))
        → content (rescue r f).1.store j ≡ content r.1.store j
    content-rescue (ok x, s) f k = refl
    content-rescue (err e, s) f k = (k e).at s

    pub Leaves-try_catch :
        (m : Safe a A) (f : SafeError a → Safe a A)
        → Leaves j m
        → ((e : SafeError a) → Leaves j (f e))
        → Leaves j (try_catch m f)
    unfolding try_catch
    Leaves-try_catch m f h k = record { at = λ s. content-rescue (m s) f k ∙ h.at s }

  module _ {j : Text} where
    pub Leaves-ensure : (c : Check) → Leaves j (ensure a c)
    unfolding ensure
    Leaves-ensure none = Leaves-pure tt
    Leaves-ensure (some e) = Leaves-throw (refused e)

    pub Leaves-rate_limit : (now : ℕ) → Leaves j (rate_limit a now)
    unfolding rate_limit
    Leaves-rate_limit now = record {
      at = λ s.
          (Leaves-ensure (record_deletion s.limiter now).0).at
            (record s { limiter = (record_deletion s.limiter now).1 });
    }

    pub Leaves-emit : (e : StorageDeletionEvent) → Leaves j (emit a e)
    unfolding emit
    Leaves-emit e = record { at = λ s. refl }

    pub Leaves-delete : (k : Text) → IsSpared j k → Leaves j (inner a (delete k))
    Leaves-delete k h = Leaves-inner (delete k) (λ s. os.delete_other k j s h)

    pub Leaves-upload : (k : Text) (c : Content) → j ≢ k → Leaves j (inner a (upload k c))
    Leaves-upload k c h = Leaves-inner (upload k c) (λ s. os.upload_other k j c s h)

    pub Leaves-download : (k : Text) → Leaves j (inner a (download k))
    Leaves-download k = Leaves-inner (download k) (os.download_same k j)

    pub Leaves-list : (p : Text) → Leaves j (inner a (list p))
    Leaves-list p = Leaves-inner (list p) (os.list_same p j)

    Leaves-copy_with :
        (o : Option (Text → Text → Effect Failure Store Unit)) (src dst : Text)
        → a.copy ≡ o
        → j ≢ dst
        → Leaves j (copy_with a o src dst)
    unfolding copy_with
    Leaves-copy_with none src dst e h =
        Leaves-bind _ _ (Leaves-download src) (λ c. Leaves-upload dst c h)
    Leaves-copy_with (some f) src dst e h =
        Leaves-inner (f src dst) (λ s. os.copy_other f src dst j s e h)

    pub Leaves-copy_object : (src dst : Text) → j ≢ dst → Leaves j (copy_object a src dst)
    unfolding copy_object
    Leaves-copy_object src dst h = Leaves-copy_with a.copy src dst refl h

    pub ruleset frame_rules = (
      Leaves-pure, Leaves-throw, Leaves-if, Leaves-bind, Leaves-try_catch, Leaves-ensure,
      Leaves-rate_limit, Leaves-emit, Leaves-delete, Leaves-upload, Leaves-download, Leaves-list,
      Leaves-copy_object,
    )

    module _ (policy : DeletionGuardPolicy) where
      pub Leaves-hard_delete : (k : Text) → IsSpared j k → Leaves j (hard_delete a policy k)
      unfolding hard_delete
      Leaves-hard_delete k h = search frame_rules

      pub Leaves-best_effort :
          (k : Text) → IsSpared j k → Leaves j (best_effort_hard_delete a policy k)
      unfolding best_effort_hard_delete
      Leaves-best_effort k h = search (frame_rules, Leaves-hard_delete)
