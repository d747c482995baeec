-- ===== src/Storage/Safe/Restore.antt =====
-- `restoreFromTrash` of src/storage/safe-storage.adapter.ts after a soft deletion.
use dbdock.Base.{
  ◌≡◌, refl, sym, ap, ◌∙◌, ◌≢◌, ◌⊎◌, inl, inr, Text, starts_with, true, false, not, ◌||◌, Option,
  none, some, [], ◌∷◌, length, arith,
}
use dbdock.Base.Effect.{Result, ok, err, rescue, pure, throw, try_catch, ◌>>=◌, ◌>>◌}
use dbdock.Base.Triple.{
  Outcome, Triple, Triple-bind, Triple-pure, Triple-throw, Triple-if, Triple-mono,
}
use dbdock.Storage.Adapter.{StorageAdapter, IsSpared, IsObjectStore}
use dbdock.Storage.Guard.{
  DeletionGuardPolicy, Check, validate_key_structure, is_within_allowed_prefix, outside_hard_delete,
}
use dbdock.Storage.Safe.{
  SafeState, SafeError, MetaJson, TrashMeta, Clock, refused, inner, ensure, trash_key_of,
  hard_delete, best_effort_hard_delete, delete_object, read_trash_meta, original_key_of, restore_to,
  restore_from_trash,
}
use dbdock.Storage.Safe.Frame.{Leaves-hard_delete}
use dbdock.Storage.Safe.Moves.{AreApart, Triple-copy_object, Triple-inner, stays}
use dbdock.Storage.Safe.Recover.{
  sidecar_spared_beside, key_spared, key_spared_beside, trash_spared_beside, keys-AreApart,
  Triple-delete_object, trash, sidecar, note_of,
}

length-eq-zero_of : (s : Text) → s ≢ [] → length s ≢ 0
length-eq-zero_of [] h = absurd (h refl)
length-eq-zero_of (c ∷ s) h = omega arith

module _ (a : StorageAdapter) (os : IsObjectStore a) where
  open a use {Store, Failure, Content, upload, download, list, delete, content}

  module _ (key bin side : Text) (c : Content) (far : AreApart key bin side)
      (whole : IsSpared key bin) (beside : IsSpared key side) (under : IsSpared bin side)
      (policy : DeletionGuardPolicy) where
    abbrev Both : SafeState a → Type 0
    Both s = (content s.store key ≡ some c) × (content s.store bin ≡ some c)

    abbrev Restored : SafeState a → Type 0
    Restored s = (content s.store key ≡ some c) × (content s.store bin ≡ none)

    abbrev Present : SafeState a → Type 0
    Present s = (content s.store key ≡ some c) ⊎ (content s.store bin ≡ some c)

    abbrev Back : SafeState a → Type 0
    Back s = content s.store key ≡ some c

    Triple-check : (o : Check) → Triple Back (ensure a o) (λ _ s. Back s) Present
    unfolding ensure pure throw
    Triple-check none = record { run = λ s h. h }
    Triple-check (some e) = record { run = λ s h. inl h }

    Triple-drop : Triple Back (inner a (delete bin)) (λ _ s. Restored s) Present
    Triple-drop =
        Triple-inner a os (λ s. content s key ≡ some c)
          (λ _ s. (content s key ≡ some c) × (content s bin ≡ none))
          (λ s. (content s key ≡ some c) ⊎ (content s bin ≡ some c)) (delete bin)
          (λ s t _ h e. (stays a os e (os.delete_other bin key s whole) h, os.delete_ok bin s e))
          (λ s t _ h e. inl (stays a os e (os.delete_other bin key s whole) h))

    Triple-hard_delete : Triple Back (hard_delete a policy bin) (λ _ s. Restored s) Present
    unfolding hard_delete
    Triple-hard_delete = Triple-bind _ _ _ (Triple-check (validate_key_structure bin)) (λ _.
        Triple-if
          (not (
            is_within_allowed_prefix bin policy.allowed_prefixes
            || starts_with bin policy.trash_prefix))
          {m = throw (refused outside_hard_delete)} (λ _. Triple-throw _ (λ s h. inl h))
          (λ _. Triple-drop))

    rescued :
        (s : SafeState a) (r : Result (SafeError a) Unit × SafeState a)
        → content r.1.store key ≡ content s.store key
        → content r.1.store bin ≡ content s.store bin
        → Restored s
        → Outcome (λ _ u. Restored u) Present (rescue r (λ _. pure tt))
    unfolding pure
    rescued s (ok x, t) p q h = (p ∙ h.0, q ∙ h.1)
    rescued s (err e, t) p q h = (p ∙ h.0, q ∙ h.1)

    Triple-best_effort :
        Triple Restored (best_effort_hard_delete a policy side) (λ _ s. Restored s) Present
    unfolding best_effort_hard_delete try_catch
    Triple-best_effort = record {
      run = λ s h.
          rescued s (hard_delete a policy side s)
            ((Leaves-hard_delete a os policy side beside).at s)
            ((Leaves-hard_delete a os policy side under).at s) h;
    }

  module _ (policy : DeletionGuardPolicy) (json : MetaJson a) (clock : Clock) (key : Text)
      (reason : Option Text) (c : Content)
      (parses : (m : TrashMeta) → json.decode (json.encode m) ≡ some m) where
    abbrev bin : Text
    bin = trash a os policy json clock key reason c

    abbrev side : Text
    side = sidecar a os policy json clock key reason c

    abbrev noted : Content
    noted = note_of a os policy json clock key reason c

    abbrev meta : TrashMeta
    meta = record { original_key = key; deleted_at = clock.deleted_at; reason = reason }

    abbrev InBin : SafeState a → Type 0
    InBin s = (content s.store bin ≡ some c) × (content s.store side ≡ some noted)

    -- The sidecar is read back, unless the download fails.
    abbrev Read : Option TrashMeta → SafeState a → Type 0
    Read m s = InBin s × ((m ≡ none) ⊎ (m ≡ some meta))

    Triple-body : Triple InBin (inner a (download side)) (λ x s. InBin s × (x ≡ noted)) InBin
    Triple-body =
        Triple-inner a os (λ s. (content s bin ≡ some c) × (content s side ≡ some noted))
          (λ x s. ((content s bin ≡ some c) × (content s side ≡ some noted)) × (x ≡ noted))
          (λ s. (content s bin ≡ some c) × (content s side ≡ some noted)) (download side)
          (λ s t x h e. (
            (
              stays a os e (os.download_same side bin s) h.0,
              stays a os e (os.download_same side side s) h.1,
            ),
            cc (os.download_ok side s e, h.1),
          ))
          (λ s t x h e. (
            stays a os e (os.download_same side bin s) h.0,
            stays a os e (os.download_same side side s) h.1,
          ))

    Triple-parse :
        Triple InBin (do body ← inner a (download side); pure (json.decode body)) Read InBin
    Triple-parse =
        Triple-bind _ _ _ Triple-body
          (λ x. Triple-pure (json.decode x) (λ s h. (h.0, inr (ap json.decode h.1 ∙ parses meta))))

    Outcome-rescue :
        (r : Result (SafeError a) (Option TrashMeta) × SafeState a)
        → Outcome Read InBin r
        → Outcome Read InBin (rescue r (λ _. pure none))
    unfolding pure
    Outcome-rescue (ok x, s) h = h
    Outcome-rescue (err e, s) h = (h, inl refl)

    Triple-read_trash_meta : Triple InBin (read_trash_meta a policy json side) Read InBin
    unfolding read_trash_meta try_catch
    Triple-read_trash_meta = record { run = λ s h. Outcome-rescue _ (Triple-parse.run s h) }

    back-AreApart : starts_with key policy.trash_prefix ≡ false → AreApart bin key side
    back-AreApart out =
        let far = keys-AreApart a os policy json clock key reason c out in
        record {
          from_trash = λ e. far.from_trash (sym e);
          from_sidecar = far.sidecar_apart;
          sidecar_apart = far.from_sidecar;
          trash_spared = key_spared a os policy json clock key reason c out;
          sidecar_spared = sidecar_spared_beside a os policy json clock key reason c;
        }

    abbrev Found : SafeState a → Type 0
    Found s = (content s.store key ≡ some c) ⊎ (content s.store bin ≡ some c)

    abbrev Again : Text → SafeState a → Type 0
    Again k s = (k ≡ key) × (content s.store key ≡ some c) × (content s.store bin ≡ none)

    swap : {A B : Type 0} → A ⊎ B → B ⊎ A
    swap (inl x) = inr x
    swap (inr x) = inl x

    Triple-restore_known :
        starts_with key policy.trash_prefix ≡ false
        → Triple InBin (restore_to a policy json bin (some key)) Again Found
    unfolding restore_to
    Triple-restore_known out =
        let far = keys-AreApart a os policy json clock key reason c out in
        Triple-bind (λ _ s. content s.store key ≡ some c) _ _
          (Triple-mono (λ s h. h.0) (λ x s h. h.1) (λ s h. swap h)
            (Triple-copy_object a os bin key side c noted (back-AreApart out)))
          (λ _.
            Triple-bind _ _ _
              (Triple-hard_delete key bin side c far
                (key_spared a os policy json clock key reason c out)
                (key_spared_beside a os policy json clock key reason c out)
                (trash_spared_beside a os policy json clock key reason c) policy)
              (λ _.
                Triple-bind _ _ _
                  (Triple-best_effort key bin side c far
                    (key_spared a os policy json clock key reason c out)
                    (key_spared_beside a os policy json clock key reason c out)
                    (trash_spared_beside a os policy json clock key reason c) policy)
                  (λ _. Triple-pure key (λ s h. (refl, h.0, h.1)))))

    original_key_of-meta : key ≢ [] → original_key_of (some meta) ≡ some key
    unfolding original_key_of
    original_key_of-meta full = ground (arith, length-eq-zero_of key full)

    Triple-restore_to :
        starts_with key policy.trash_prefix ≡ false
        → key ≢ []
        → (m : Option TrashMeta)
        → Triple (Read m) (restore_to a policy json bin (original_key_of m)) Again Found
    unfolding restore_to throw original_key_of
    Triple-restore_to out full none = record { run = λ s h. inr h.0.0 }
    Triple-restore_to out full (some m) = record {
      run = λ s h. elim h.1 [
        | inl n ↦ cc
        | inr e ↦
            let known : original_key_of (some m) ≡ some key =
              ap original_key_of e ∙ original_key_of-meta full in
            rw known ((Triple-restore_known out).run s h.0)
      ];
    }

    Triple-restore_from_trash :
        starts_with key policy.trash_prefix ≡ false
        → key ≢ []
        → Triple InBin (restore_from_trash a policy json bin) Again Found
    unfolding restore_from_trash
    Triple-restore_from_trash out full =
        Triple-bind Read _ _
          (Triple-mono (λ s h. h) (λ x s h. h) (λ s h. inr h.0) Triple-read_trash_meta)
          (Triple-restore_to out full)

    -- Deleting an object softly and restoring its trash key does not lose its content `c`. If both
    -- calls return, the restore has returned the original key, which holds `c` again, and the
    -- trash key is empty; if either throws, `c` is under the key or under the trash key. It is
    -- assumed that the guard and the recycle bin are on, and that the key is not empty and does not
    -- begin with the recycle bin's prefix.
    pub restore-delete :
        (s : SafeState a)
        → policy.enabled ≡ true
        → policy.recycle_bin ≡ true
        → starts_with key policy.trash_prefix ≡ false
        → key ≢ []
        → content s.store key ≡ some c
        → Outcome
            (λ k s'. (k ≡ key) × (content s'.store key ≡ some c) × (content s'.store bin ≡ none))
            (λ s'. (content s'.store key ≡ some c) ⊎ (content s'.store bin ≡ some c))
            ((do
              delete_object a policy json clock key reason
              restore_from_trash a policy json (trash_key_of a policy clock.moved_at key))
              s)
    restore-delete s on wanted out full h =
        (Triple-bind _ _ _
            (Triple-delete_object a os policy json clock key reason c
              (keys-AreApart a os policy json clock key reason c out) on wanted out)
            (λ _.
              Triple-mono (λ s h. (h.1, h.2)) (λ x s h. h) (λ s h. h)
                (Triple-restore_from_trash out full))).run
          s h
