-- ===== src/Retention/Cli.antt =====
-- src/cli/utils/retention.ts. The storage adapter is a parameter: a listing and a deletion that
-- may fail and change a state. Times are milliseconds since the epoch; `Date.now()` is an argument.
pub mod Marked
pub mod Stats
pub mod Tests
use dbdock.Base.{
  ℕ, zero, suc, ◌+◌, ◌*◌, Text, codes, includes, Bool, true, false, not, Option, none, some, List,
  [], ◌∷◌, ◌++◌, length, filter, ltb, leb, if◌then◌else◌,
}
use dbdock.Base.Effect.{Effect, pure, try_catch, ◌>>=◌, ◌>>◌}
use dbdock.Base.Sort.{sort_by}
use dbdock.Storage.Adapter.{StorageObject}
use dbdock.Retention.Marks.{map_index}

pub record RetentionConfig : Type 0 where
  pub enabled : Bool
  pub max_backups : Option ℕ
  pub max_age_days : Option ℕ
  pub min_backups : Option ℕ
  pub run_after_backup : Option Bool

-- Why a backup is kept or deleted; the numbers are those of the message.
pub data Reason : Type 0 where
  within_minimum exceeds_maximum older_than : ℕ → Reason
  within_policy : Reason

pub record BackupInfo : Type 0 where
  pub key : Text
  pub size : ℕ
  pub last_modified : ℕ
  pub should_delete : Bool
  pub reason : Reason

pub data Provider : Type 0 where
  local cloudinary other : Provider

-- A number that JavaScript takes for true.
abbrev pub truthy : Option ℕ → Option ℕ
truthy none = none
truthy (some zero) = none
truthy (some (suc n)) = some (suc n)

-- `value || fallback`
abbrev pub or_else : Option ℕ → ℕ → ℕ
or_else none fallback = fallback
or_else (some zero) fallback = fallback
or_else (some (suc n)) fallback = suc n

abbrev pub prefix_of : Provider → Text
prefix_of local = codes "backup-"
prefix_of cloudinary = codes "backup-"
prefix_of other = codes "dbdock_backups/backup-"

-- `b.lastModified - a.lastModified <= 0`: the newest first.
abbrev pub newer : StorageObject → StorageObject → Bool
newer x y = leb y.last_modified x.last_modified

-- `config.maxBackups && index >= config.maxBackups`
abbrev pub exceeds : Option ℕ → ℕ → Bool
exceeds none index = false
exceeds (some most) index = leb most index

-- `cutoffDate && backup.lastModified < cutoffDate`
abbrev pub is_older : Option ℕ → ℕ → ℕ → Bool
is_older none now time = false
is_older (some days) now time = ltb (time + days * (24 * 60 * 60 * 1000)) now

abbrev pub amount : Option ℕ → ℕ
amount none = 0
amount (some n) = n

abbrev pub info_of : StorageObject → Bool → Reason → BackupInfo
info_of backup should_delete reason = record {
  key = backup.key;
  size = backup.size;
  last_modified = backup.last_modified;
  should_delete = should_delete;
  reason = reason;
}

-- One round of the `map`.
unfoldable pub judge : RetentionConfig → ℕ → ℕ → StorageObject → BackupInfo
judge config now index backup =
    let min_backups = or_else config.min_backups 5 in
    if ltb index min_backups
    then info_of backup false (within_minimum min_backups)
    else if exceeds (truthy config.max_backups) index
    then info_of backup true (exceeds_maximum (amount config.max_backups))
    else if is_older (truthy config.max_age_days) now backup.last_modified
    then info_of backup true (older_than (amount config.max_age_days))
    else info_of backup false within_policy

-- The backups of a listing, newest first.
unfoldable pub backups_of : List StorageObject → List StorageObject
backups_of objects = sort_by newer (filter (λ o. includes o.key (codes "backup-")) objects)

unfoldable pub judged : RetentionConfig → ℕ → List StorageObject → List BackupInfo
judged config now objects = map_index (judge config now) 0 (backups_of objects)

pub record RetentionStats : Type 0 where
  pub total_backups : ℕ
  pub kept_backups : ℕ
  pub deleted_backups : ℕ
  pub space_reclaimed : ℕ
  -- the keys whose deletion failed
  pub errors : List Text

abbrev pub sizes : List BackupInfo → ℕ
sizes [] = 0
sizes (b ∷ bs) = b.size + sizes bs

module _ (E S : Type 0) (list_objects : Text → Effect E S (List StorageObject))
    (delete_object : Text → Reason → Effect E S Unit) where
  -- `evaluateRetention`
  pub evaluate_retention : RetentionConfig → Provider → ℕ → Effect E S (List BackupInfo)
  evaluate_retention config provider now = do
    objects ← list_objects (prefix_of provider)
    pure (judged config now objects)

  -- One deletion of the loop; a failure is noted, and the loop goes on.
  pub delete_one : BackupInfo → RetentionStats → Effect E S RetentionStats
  delete_one backup stats =
      try_catch
        (do
          delete_object backup.key backup.reason
          pure (record stats {
            deleted_backups = stats.deleted_backups + 1;
            space_reclaimed = stats.space_reclaimed + backup.size;
          }))
        (λ _. pure (record stats { errors = stats.errors ++ backup.key ∷ [] }))

  pub delete_all : List BackupInfo → RetentionStats → Effect E S RetentionStats
  delete_all [] stats = pure stats
  delete_all (backup ∷ backups) stats = do
    stats' ← delete_one backup stats
    delete_all backups stats'

  abbrev pub to_delete : List BackupInfo → List BackupInfo
  to_delete infos = filter (λ b. b.should_delete) infos

  abbrev pub to_keep : List BackupInfo → List BackupInfo
  to_keep infos = filter (λ b. not b.should_delete) infos

  -- `applyRetention`: where the evaluation fails, so does the call.
  pub apply_retention : RetentionConfig → Provider → Bool → ℕ → Effect E S RetentionStats
  apply_retention config provider dry_run now = do
    infos ← evaluate_retention config provider now
    let stats : RetentionStats = record {
      total_backups = length infos;
      kept_backups = length (to_keep infos);
      deleted_backups = 0;
      space_reclaimed = 0;
      errors = [];
    }
    if dry_run
        then pure (record stats {
          deleted_backups = length (to_delete infos);
          space_reclaimed = sizes (to_delete infos);
        })
        else delete_all (to_delete infos) stats

-- `getDefaultRetentionConfig`
abbrev pub get_default_retention_config : RetentionConfig
get_default_retention_config = record {
  enabled = true;
  max_backups = some 100;
  max_age_days = some 30;
  min_backups = some 5;
  run_after_backup = some true;
}
