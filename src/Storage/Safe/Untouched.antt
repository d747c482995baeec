-- ===== src/Storage/Safe/Untouched.antt =====
-- Which keys a call of src/storage/safe-storage.adapter.ts leaves alone, on every path.
use mathlib.Core.Option.{get_or}
use dbdock.Base.{
  ℕ, ◌+◌, ◌*◌, ◌<◌, ◌≡◌, refl, ap, ◌∙◌, ◌≢◌, inl, inr, Text, true, false, Option, none, some, List,
  [], ◌∷◌, ◌++◌, ends_with, All, arith, Option-cases,
}
use dbdock.Base.Effect.{Result, ok, err, continue, ◌>>=◌}
use dbdock.Storage.Adapter.{IsSpared, StorageAdapter, StorageObject, IsObjectStore}
use dbdock.Storage.Guard.{GuardError, DeletionGuardPolicy, assert_deletable_key, record_deletion}
use dbdock.Storage.Guard.Keys.{IsObjectKey, IsProtected, assert_deletable_key_iff}
use dbdock.Storage.Safe.{
  SafeState, lifted, MetaJson, Clock, inner, ensure, rate_limit, refused, trash_key_of,
  purge_objects, purge_trash, move_to_trash, hard_branch, soft_branch, delete_object,
  trash_meta_suffix, ms_per_day,
}
use dbdock.Storage.Safe.Frame.{
  Leaves, Leaves-if, frame_rules, Leaves-hard_delete, Leaves-best_effort, Leaves-bind,
}

module _ (a : StorageAdapter) (os : IsObjectStore a) (policy : DeletionGuardPolicy) where
  open a use {Store, Failure, Content, content}

  module _ (json : MetaJson a) (clock : Clock) (j key : Text) (reason : Option Text) where
    Leaves-hard_branch : IsSpared j key → Leaves a os j (hard_branch a policy json key reason)
    unfolding hard_branch
    Leaves-hard_branch h = search (frame_rules)

    Leaves-move_to_trash :
        IsSpared j key
        → j ≢ trash_key_of a policy clock.moved_at key
        → j ≢ trash_key_of a policy clock.moved_at key ++ trash_meta_suffix
        → Leaves a os j (move_to_trash a policy json clock key reason)
    unfolding move_to_trash
    Leaves-move_to_trash h k l = search frame_rules

    Leaves-soft_branch :
        IsSpared j key
        → j ≢ trash_key_of a policy clock.moved_at key
        → j ≢ trash_key_of a policy clock.moved_at key ++ trash_meta_suffix
        → Leaves a os j (soft_branch a policy json clock key reason)
    unfolding soft_branch
    Leaves-soft_branch h k l = search (frame_rules, Leaves-move_to_trash)

    -- `deleteObject(key)` changes nothing stored under any key other than `key`, the key of its
    -- metadata, its trash key and the sidecar of that, whatever the policy, and whether the call
    -- returns or throws.
    pub delete_object-untouched :
        (s : SafeState a)
        → IsSpared j key
        → j ≢ trash_key_of a policy clock.moved_at key
        → j ≢ trash_key_of a policy clock.moved_at key ++ trash_meta_suffix
        → content (delete_object a policy json clock key reason s).1.store j ≡ content s.store j
    unfolding delete_object
    delete_object-untouched s h k l =
        (let frame : Leaves a os j (delete_object a policy json clock key reason) =
              search (frame_rules, Leaves-hard_branch, Leaves-soft_branch) depth 8 in
            frame).at
          s

  -- An object that the purge takes: listed, not a sidecar, and older than the limit.
  pub record IsExpired (now max_age_days : ℕ) (obj : StorageObject) : Type 0 where
    pub not_sidecar : ends_with obj.key trash_meta_suffix ≡ false
    pub old : obj.last_modified + max_age_days * ms_per_day < now

  Leaves-purge_objects :
      (j : Text) (now days purged : ℕ) (objects : List StorageObject)
      → All
          (λ o. IsExpired now days o → IsSpared j o.key × IsSpared j (o.key ++ trash_meta_suffix))
          objects
      → Leaves a os j (purge_objects a policy now days purged objects)
  unfolding purge_objects
  Leaves-purge_objects j now days purged [] h = search frame_rules
  Leaves-purge_objects j now days purged (o ∷ objects) h =
      let rest = Leaves-purge_objects j now days purged objects h.1 in
      let counted = Leaves-purge_objects j now days (purged + 1) objects h.1 in
      Leaves-if a os _ (λ _. rest)
        (λ main.
          Leaves-if a os _ (λ _. rest)
            (λ aged.
              let apart = h.0 (record { not_sidecar = main; old = ground arith }) in
              Leaves-bind a os _ _ (Leaves-hard_delete a os policy o.key apart.0) (λ _.
                Leaves-bind a os _ _ (Leaves-best_effort a os policy _ apart.1) (λ _. counted))))

  content-purge_listed :
      (j : Text) (now days : ℕ) (s : SafeState a) (r : Result Failure (List StorageObject) × Store)
      → content r.1 j ≡ content s.store j
      → ((objects : List StorageObject)
          → r.0 ≡ ok objects
          → All
              (λ o.
                IsExpired now days o → IsSpared j o.key × IsSpared j (o.key ++ trash_meta_suffix))
              objects)
      → content
          (continue (lifted a s r) (λ objects. purge_objects a policy now days 0 objects)).1.store
          j
        ≡ content s.store j
  content-purge_listed j now days s (ok objects, store) e h =
      (Leaves-purge_objects j now days 0 objects (h objects refl)).at (record s { store = store })
      ∙ e
  content-purge_listed j now days s (err f, store) e h = e

  -- A purge changes nothing stored at `j`, if `j` is no expired object of the listing that it reads,
  -- nor the sidecar of one, nor the key of the metadata of either; so too where the purge throws
  -- half-way.
  pub purge_trash-untouched :
      (older_than_days : Option ℕ) (now : ℕ) (j : Text) (s : SafeState a)
      → ((objects : List StorageObject)
          → (a.list policy.trash_prefix s.store).0 ≡ ok objects
          → All
              (λ o.
                IsExpired now (get_or older_than_days policy.trash_retention_days) o
                → IsSpared j o.key × IsSpared j (o.key ++ trash_meta_suffix))
              objects)
      → content (purge_trash a policy older_than_days now s).1.store j ≡ content s.store j
  unfolding purge_trash inner ◌>>=◌
  purge_trash-untouched older_than_days now j s h =
      content-purge_listed j now _ s (a.list policy.trash_prefix s.store)
        (os.list_same policy.trash_prefix j s.store) h

  module _ (json : MetaJson a) (clock : Clock) (key : Text) (reason : Option Text) where
    -- A refused key: the call throws, and the whole state is as it was.
    pub delete_object-refused :
        (s : SafeState a) {e : GuardError}
        → policy.enabled ≡ true
        → assert_deletable_key key policy.allowed_prefixes ≡ some e
        → delete_object a policy json clock key reason s ≡ (err (refused e), s)
    unfolding delete_object ensure ◌>>=◌
    delete_object-refused s on e = rw (on, e)

    tripped :
        (s : SafeState a) {e : GuardError}
        → policy.enabled ≡ true
        → assert_deletable_key key policy.allowed_prefixes ≡ none
        → (record_deletion s.limiter clock.now).0 ≡ some e
        → (delete_object a policy json clock key reason s).1.store ≡ s.store
    unfolding delete_object ensure rate_limit ◌>>=◌
    tripped s on ok_key e = rw (on, ok_key, e)

    -- With the guard on, if a `deleteObject` changes what is stored anywhere, then its key names
    -- one object, lies under an allowed prefix, and the circuit breaker let the call through.
    pub delete_object-guarded :
        (s : SafeState a) (j : Text)
        → policy.enabled ≡ true
        → content (delete_object a policy json clock key reason s).1.store j ≢ content s.store j
        → IsObjectKey key
          × IsProtected key policy.allowed_prefixes
          × ((record_deletion s.limiter clock.now).0 ≡ none)
    delete_object-guarded s j on changed =
        elim (Option-cases (assert_deletable_key key policy.allowed_prefixes)) [
          | inr (e, bad) ↦
              absurd (changed (ap (λ r. content r.1.store j) (delete_object-refused s on bad)))
          | inl fine ↦ elim (Option-cases (record_deletion s.limiter clock.now).0) [
            | inr (e, full) ↦ absurd (changed (ap (λ t. content t j) (tripped s on fine full)))
            | inl room ↦
                let k = (assert_deletable_key_iff key policy.allowed_prefixes).0 fine in
                (k.0, k.1, room)
          ]
        ]
