-- ===== src/Storage/Safe/Recover.antt =====
-- The recycle bin of src/storage/safe-storage.adapter.ts: what is soft-deleted can be found again.
use mathlib.Core.List.{append_assoc}
use dbdock.Base.{
  ℕ, ◌+◌, ◌<◌, refl, sym, [], ◌∷◌, codes, ◌==◌, if◌then◌else◌, ◌≡◌, ap, ◌∙◌, ◌≢◌, ◌⊎◌, Text,
  starts_with, true, false, Option, none, some, ◌++◌, length, length-append, starts_with_append,
  arith,
}
use dbdock.Base.Triple.{Outcome, Triple, Triple-bind, Triple-pure}
use dbdock.Storage.Adapter.{StorageAdapter, IsSpared, object_metadata_suffix, IsObjectStore}
use dbdock.Storage.Guard.{DeletionGuardPolicy}
use dbdock.Storage.Safe.{
  SafeState, MetaJson, Clock, stamp_of, trash_key_of, move_to_trash, soft_branch, delete_object,
  trash_meta_suffix,
}
use dbdock.Storage.Safe.Moves.{
  AreApart, AtKey, Moved, Kept, Triple-copy_object, Triple-sidecar, Triple-remove, Triple-ensure,
  Triple-rate_limit, Triple-emit,
}

longer : (t : Text) → t ≢ t ++ trash_meta_suffix
longer t e = omega (arith, ap length e, length-append {0} t trash_meta_suffix)

-- A key that does not begin with the prefix is no key that does.
outside : (key prefix t : Text) → starts_with key prefix ≡ false → key ≢ prefix ++ t
outside key prefix t h e = cc (h, ap (λ k. starts_with k prefix) e, starts_with_append prefix t)

abbrev slashes : Text → ℕ
slashes [] = 0
slashes (c ∷ s) = (if c == b'/' then 1 else 0) + slashes s

slashes-append : (s t : Text) → slashes (s ++ t) ≡ slashes s + slashes t
slashes-append [] t = omega arith
slashes-append (c ∷ s) t = omega (arith, slashes-append s t)

-- A key with one more folder is no key with a suffix that names none.
folder_lem :
    (t key suffix : Text) → slashes suffix ≡ 0 → slashes key < slashes t → t ≢ key ++ suffix
folder_lem t key suffix none_in more e =
    omega (arith, ap slashes e, slashes-append key suffix, none_in, more)

slashes-folder :
    (prefix stamp key : Text) → slashes key < slashes (prefix ++ (stamp ++ (codes "/" ++ key)))
slashes-folder prefix stamp key = omega (
  arith,
  slashes-append prefix (stamp ++ (codes "/" ++ key)),
  slashes-append stamp (codes "/" ++ key),
)

module _ (a : StorageAdapter) (os : IsObjectStore a) (policy : DeletionGuardPolicy)
    (json : MetaJson a) (clock : Clock) (key : Text) (reason : Option Text) (c : a.Content) where
  abbrev pub trash : Text
  trash = trash_key_of a policy clock.moved_at key

  abbrev pub sidecar : Text
  sidecar = trash ++ trash_meta_suffix

  abbrev pub note_of : a.Content
  note_of =
      json.encode (record { original_key = key; deleted_at = clock.deleted_at; reason = reason })

  pub keys-AreApart : starts_with key policy.trash_prefix ≡ false → AreApart key trash sidecar
  keys-AreApart h =
      let more = slashes-folder policy.trash_prefix (stamp_of clock.moved_at) key in
      record {
        from_trash = outside key policy.trash_prefix _ h;
        from_sidecar = λ e.
            outside key policy.trash_prefix _ h
              (e ∙ append_assoc policy.trash_prefix _ trash_meta_suffix);
        sidecar_apart = longer trash;
        trash_spared = record {
          not_it = λ e. outside key policy.trash_prefix _ h (sym e);
          not_metadata = folder_lem trash key _ refl more;
        };
        sidecar_spared = record {
          not_it = λ e.
              outside key policy.trash_prefix _ h
                (sym e ∙ append_assoc policy.trash_prefix _ trash_meta_suffix);
          not_metadata =
              folder_lem sidecar key _ refl
                (omega (arith, more, slashes-append trash trash_meta_suffix));
        };
      }

  spared_under :
      (k t : Text)
      → k ≡ policy.trash_prefix ++ t
      → starts_with key policy.trash_prefix ≡ false
      → IsSpared key k
  spared_under k t under h = record {
    not_it = λ e. outside key policy.trash_prefix t h (e ∙ under);
    not_metadata = λ e. outside key policy.trash_prefix _ h (
        e
        ∙ ap (λ k. k ++ object_metadata_suffix) under
        ∙ append_assoc policy.trash_prefix t object_metadata_suffix);
  }

  pub key_spared : starts_with key policy.trash_prefix ≡ false → IsSpared key trash
  key_spared h = spared_under trash _ refl h

  pub key_spared_beside : starts_with key policy.trash_prefix ≡ false → IsSpared key sidecar
  key_spared_beside h =
      spared_under sidecar _ (append_assoc policy.trash_prefix _ trash_meta_suffix) h

  pub trash_spared_beside : IsSpared trash sidecar
  trash_spared_beside = record {
    not_it = longer trash;
    not_metadata = λ e. omega (
      arith,
      ap length e,
      length-append {0} sidecar object_metadata_suffix,
      length-append {0} trash trash_meta_suffix,
    );
  }

  pub sidecar_spared_beside : IsSpared sidecar trash
  sidecar_spared_beside = record {
    not_it = λ e. longer trash (sym e);
    not_metadata = λ e. omega (
      arith,
      ap length e,
      length-append {0} trash object_metadata_suffix,
      length-append {0} trash trash_meta_suffix,
    );
  }

  module _ (far : AreApart key trash sidecar) where
    Triple-move_to_trash :
        Triple
          (λ s. AtKey a os key trash sidecar c note_of s.store)
          (move_to_trash a policy json clock key reason)
          (λ t s. Moved a os key trash sidecar c note_of s.store)
          (λ s. Kept a os key trash sidecar c note_of s.store)
    unfolding move_to_trash
    Triple-move_to_trash =
        Triple-bind _ _ _ (Triple-copy_object a os key trash sidecar c note_of far) (λ _.
          Triple-bind _ _ _ (Triple-sidecar a os key trash sidecar c note_of far) (λ _.
            Triple-bind _ _ _ (Triple-remove a os key trash sidecar c note_of far)
              (λ _. Triple-pure trash (λ s h. h))))

    Triple-soft_branch :
        Triple
          (λ s. AtKey a os key trash sidecar c note_of s.store)
          (soft_branch a policy json clock key reason)
          (λ _ s. Moved a os key trash sidecar c note_of s.store)
          (λ s. Kept a os key trash sidecar c note_of s.store)
    unfolding soft_branch
    Triple-soft_branch =
        Triple-bind _ _ _ Triple-move_to_trash
          (λ t. Triple-emit a os key trash sidecar c note_of far _)

    pub Triple-delete_object :
        policy.enabled ≡ true
        → policy.recycle_bin ≡ true
        → starts_with key policy.trash_prefix ≡ false
        → Triple
            (λ s. AtKey a os key trash sidecar c note_of s.store)
            (delete_object a policy json clock key reason)
            (λ _ s. Moved a os key trash sidecar c note_of s.store)
            (λ s. Kept a os key trash sidecar c note_of s.store)
    unfolding delete_object
    Triple-delete_object on bin out =
        simp (on, bin, out)
          (Triple-bind _ _ _ (Triple-ensure a os key trash sidecar c note_of far _) (λ _.
            Triple-bind _ _ _ (Triple-rate_limit a os key trash sidecar c note_of far clock.now)
              (λ _. Triple-soft_branch)))

  -- With the guard and the recycle bin on, `deleteObject` of a key outside the recycle bin that
  -- holds content `c` never loses it. If the call returns, the key is empty, the trash key holds
  -- `c`, and the sidecar holds the metadata; if it throws, at whatever step, `c` is still under the
  -- key or under the trash key.
  pub delete_object-recoverable :
      (s : SafeState a)
      → policy.enabled ≡ true
      → policy.recycle_bin ≡ true
      → starts_with key policy.trash_prefix ≡ false
      → a.content s.store key ≡ some c
      → Outcome
          (λ _ s'.
            (a.content s'.store key ≡ none)
            × (a.content s'.store trash ≡ some c)
            × (a.content s'.store sidecar ≡ some note_of))
          (λ s'. (a.content s'.store key ≡ some c) ⊎ (a.content s'.store trash ≡ some c))
          (delete_object a policy json clock key reason s)
  delete_object-recoverable s on bin out h =
      (Triple-delete_object (keys-AreApart out) on bin out).run s h
