-- ===== src/Storage/Safe.antt =====
-- src/storage/safe-storage.adapter.ts: deletion behind the guard, the recycle bin, and its purge.
-- The wrapped backend is a parameter. So are the readings of the clock, one argument for each, and
-- the JSON of a sidecar. Log lines are left out. A deletion listener sees the events in `emitted`;
-- what it throws is swallowed, so it does not come back here.
pub mod Frame
pub mod Untouched
pub mod Moves
pub mod Recover
pub mod Restore
pub mod Purge
pub mod Tests
use mathlib.Core.Option.{get_or}
use dbdock.Base.{
  ℕ, ◌+◌, ◌*◌, Text, codes, starts_with, ends_with, Bool, true, false, ◌||◌, not, Option, none,
  some, List, [], ◌∷◌, ◌++◌, map, ltb, ◌==◌, length, if◌then◌else◌,
}
use dbdock.Base.Effect.{Effect, Result, ok, err, pure, throw, try_catch, ◌>>=◌, ◌>>◌}
use dbdock.Storage.Adapter.{StorageAdapter, StorageObject}
use dbdock.Storage.Guard.{
  GuardError, missing_metadata, outside_hard_delete, DeletionGuardPolicy, DeletionRateLimiter,
  validate_key_structure, is_within_allowed_prefix, assert_deletable_key, record_deletion, Check,
}

abbrev pub trash_meta_suffix : Text
trash_meta_suffix = codes ".trashmeta.json"

abbrev pub ms_per_day : ℕ
ms_per_day = 24 * 60 * 60 * 1000

pub record StorageDeletionEvent : Type 0 where
  pub key : Text
  pub soft_deleted : Bool
  pub trash_key : Option Text
  pub reason : Option Text

pub record TrashMeta : Type 0 where
  pub original_key : Text
  pub deleted_at : Text
  pub reason : Option Text

-- `meta?.originalKey ?? null`, and the test `!originalKey`, which an empty key fails too.
pub original_key_of : Option TrashMeta → Option Text
original_key_of none = none
original_key_of (some meta) = if length meta.original_key == 0 then none else some meta.original_key

-- `stamp.replace(/[:.]/g, '-')`
unfoldable pub stamp_of : Text → Text
stamp_of iso = map (λ c. if c == b':' || c == b'.' then b'-' else c) iso

-- The three readings of the clock that one `deleteObject` makes: `Date.now()` for the limiter, and
-- the ISO texts for the trash key and for the sidecar.
pub record Clock : Type 0 where
  pub now : ℕ
  pub moved_at : Text
  pub deleted_at : Text

module _ (a : StorageAdapter) where
  open a use {Store, Failure, Content, upload, download, list, delete, exists, copy}

  pub data SafeError : Type 0 where
    refused : GuardError → SafeError
    failed : Failure → SafeError

  -- The wrapped backend's store, the limiter's state, and the events handed to `emit`.
  pub record SafeState : Type 0 where
    pub store : Store
    pub limiter : DeletionRateLimiter
    pub emitted : List StorageDeletionEvent

  -- `JSON.stringify(meta)` as an upload's body, and `JSON.parse` of a download; `none` is a text
  -- that does not parse.
  pub record MetaJson : Type 0 where
    pub encode : TrashMeta → Content
    pub decode : Content → Option TrashMeta

  abbrev pub Safe : Type 0 → Type 0
  Safe A = Effect SafeError SafeState A

  abbrev pub lifted :
      {A : Type 0} → SafeState → Result Failure A × Store → Result SafeError A × SafeState
  lifted s (ok x, store) = (ok x, record s { store = store })
  lifted s (err e, store) = (err (failed e), record s { store = store })

  -- A call of the wrapped backend.
  pub inner : {A : Type 0} → Effect Failure Store A → Safe A
  inner m s = lifted s (m s.store)

  pub ensure : Check → Safe Unit
  ensure none = pure tt
  ensure (some e) = throw (refused e)

  pub rate_limit : ℕ → Safe Unit
  rate_limit now s =
      let (c, l) = record_deletion s.limiter now in ensure c (record s { limiter = l })

  pub emit : StorageDeletionEvent → Safe Unit
  emit event s = (ok tt, record s { emitted = s.emitted ++ event ∷ [] })

  -- The operations that the wrapper passes on.
  pub upload_stream : Text → Content → Safe Unit
  upload_stream key stream = inner (upload key stream)

  pub download_stream : Text → Safe Content
  download_stream key = inner (download key)

  pub list_objects : Text → Safe (List StorageObject)
  list_objects prefix = inner (list prefix)

  pub object_exists : Text → Safe Bool
  object_exists key = inner (exists key)

  pub copy_with : Option (Text → Text → Effect Failure Store Unit) → Text → Text → Safe Unit
  copy_with (some f) source destination = inner (f source destination)
  copy_with none source destination = do
    stream ← inner (download source)
    inner (upload destination stream)

  -- `copyObject`
  pub copy_object : Text → Text → Safe Unit
  copy_object source destination = copy_with copy source destination

  module _ (policy : DeletionGuardPolicy) where
    abbrev pub trash_key_of : Text → Text → Text
    trash_key_of moved_at key = policy.trash_prefix ++ (stamp_of moved_at ++ (codes "/" ++ key))

    -- `hardDelete`
    pub hard_delete : Text → Safe Unit
    hard_delete key = do
      ensure (validate_key_structure key)
      if not (
            is_within_allowed_prefix key policy.allowed_prefixes
            || starts_with key policy.trash_prefix)
          then throw (refused outside_hard_delete)
          else inner (delete key)

    -- `bestEffortHardDelete`
    pub best_effort_hard_delete : Text → Safe Unit
    best_effort_hard_delete key = try_catch (hard_delete key) (λ _. pure tt)

    -- The loop of `purgeTrash` over the listed objects; `purged` counts.
    pub purge_objects : ℕ → ℕ → ℕ → List StorageObject → Safe ℕ
    purge_objects now max_age_days purged [] = pure purged
    purge_objects now max_age_days purged (obj ∷ objects) =
        let skipped = purge_objects now max_age_days purged objects in
        let counted = purge_objects now max_age_days (purged + 1) objects in
        if ends_with obj.key trash_meta_suffix
        then skipped
        else if not (ltb (obj.last_modified + max_age_days * ms_per_day) now)
        then skipped
        else (do
          hard_delete obj.key
          best_effort_hard_delete (obj.key ++ trash_meta_suffix)
          counted)

    -- `purgeTrash`
    pub purge_trash : Option ℕ → ℕ → Safe ℕ
    purge_trash older_than_days now = do
      objects ← inner (list policy.trash_prefix)
      purge_objects now (get_or older_than_days policy.trash_retention_days) 0 objects

    module _ (json : MetaJson) where
      -- `moveToTrash`
      pub move_to_trash : Clock → Text → Option Text → Safe Text
      move_to_trash clock key reason = do
        let trash_key = trash_key_of clock.moved_at key
        copy_object key trash_key
        inner (
            upload (trash_key ++ trash_meta_suffix) (
              json.encode
                (record { original_key = key; deleted_at = clock.deleted_at; reason = reason })))
        inner (delete key)
        pure trash_key

      pub hard_branch : Text → Option Text → Safe Unit
      hard_branch key reason = do
        inner (delete key)
        emit (record { key = key; soft_deleted = false; trash_key = none; reason = reason })

      pub soft_branch : Clock → Text → Option Text → Safe Unit
      soft_branch clock key reason = do
        trash_key ← move_to_trash clock key reason
        emit
            (record { key = key; soft_deleted = true; trash_key = some trash_key; reason = reason })

      -- `deleteObject`
      pub delete_object : Clock → Text → Option Text → Safe Unit
      delete_object clock key reason =
          if not policy.enabled
          then (do ensure (validate_key_structure key); hard_branch key reason)
          else (do
            ensure (assert_deletable_key key policy.allowed_prefixes)
            rate_limit clock.now
            if policy.recycle_bin
                then (if starts_with key policy.trash_prefix
                    then hard_branch key reason
                    else soft_branch clock key reason)
                else hard_branch key reason)

      -- `readTrashMeta`: `null` where the download fails or the text does not parse.
      pub read_trash_meta : Text → Safe (Option TrashMeta)
      read_trash_meta meta_key =
          try_catch (do body ← inner (download meta_key); pure (json.decode body)) (λ _. pure none)

      pub restore_to : Text → Option Text → Safe Text
      restore_to trash_key none = throw (refused missing_metadata)
      restore_to trash_key (some original_key) = do
        copy_object trash_key original_key
        hard_delete trash_key
        best_effort_hard_delete (trash_key ++ trash_meta_suffix)
        pure original_key

      -- `restoreFromTrash`
      pub restore_from_trash : Text → Safe Text
      restore_from_trash trash_key = do
        meta ← read_trash_meta (trash_key ++ trash_meta_suffix)
        restore_to trash_key (original_key_of meta)
