-- ===== src/Retention/Service.antt =====
-- src/wal/retention.service.ts, with the clean-up of src/wal/wal-archiver.service.ts that it calls.
-- The backup list, the storage adapter, the WAL list and the purge are parameters that may fail.
-- `cutoffDate` is `new Date()` moved back by `setDate`, which is calendar arithmetic of the
-- platform: its time in milliseconds is an argument. Log lines are left out.
pub mod Dates
pub mod Marked
pub mod Cleanup
pub mod Tests
use dbdock.Base.{
  ℕ, ◌+◌, Text, codes, text_eq, Bool, true, false, Option, none, some, List, [], ◌∷◌, ◌++◌, foldl,
  length, all, not, ◌&&◌, filter, ltb, leb, if◌then◌else◌,
}
use dbdock.Base.Effect.{Effect, pure, throw, try_catch, ◌>>=◌, ◌>>◌}
use dbdock.Retention.Marks.{map_index}
use dbdock.Retention.Cli.{truthy, exceeds, or_else}

pub record RetentionPolicy : Type 0 where
  pub backup_retention_days : ℕ
  pub wal_retention_days : ℕ
  pub min_backups_to_keep : ℕ
  pub max_backups_to_keep : Option ℕ

pub data BackupStatus : Type 0 where
  pending in_progress completed failed : BackupStatus

-- A start time is declared a `Date`. Metadata read back by `JSON.parse` has the ISO text in its
-- place. Both name a time in milliseconds, which `new Date(startTime)` finds.
pub data StartTime : Type 0 where
  date iso_text : ℕ → StartTime

abbrev pub ms_of : StartTime → ℕ
ms_of (date ms) = ms
ms_of (iso_text ms) = ms

abbrev pub is_date : StartTime → Bool
is_date (date ms) = true
is_date (iso_text ms) = false

-- The fields of `BackupMetadata` that retention reads.
pub record BackupMetadata : Type 0 where
  pub id : Text
  pub database : Text
  pub status : BackupStatus
  pub start_time : StartTime
  pub size : ℕ
  pub compressed_size : Option ℕ
  pub storage_key : Text

pub data Reason : Type 0 where
  within_minimum exceeds_maximum : Reason
  older_than : ℕ → Reason
  unstated : Reason

pub record BackupRetentionInfo : Type 0 where
  pub id : Text
  pub database : Text
  pub created_at : ℕ
  pub size : ℕ
  pub should_delete : Bool
  pub reason : Reason

-- `getDefaultRetentionPolicy`: `pitrConfig.retentionDays || 30`
abbrev pub get_default_retention_policy : Option ℕ → RetentionPolicy
get_default_retention_policy retention_days = record {
  backup_retention_days = or_else retention_days 30;
  wal_retention_days = or_else retention_days 30;
  min_backups_to_keep = 3;
  max_backups_to_keep = none;
}

abbrev pub info_of : BackupMetadata → Bool → Reason → BackupRetentionInfo
info_of backup should_delete reason = record {
  id = backup.id;
  database = backup.database;
  created_at = ms_of backup.start_time;
  size = or_else backup.compressed_size backup.size;
  should_delete = should_delete;
  reason = reason;
}

-- One round of the `map` in `evaluateBackupRetention`.
pub judge : RetentionPolicy → ℕ → ℕ → BackupMetadata → BackupRetentionInfo
judge policy cutoff index backup =
    if ltb index policy.min_backups_to_keep
    then info_of backup false within_minimum
    else if exceeds (truthy policy.max_backups_to_keep) index
    then info_of backup true exceeds_maximum
    else if ltb (ms_of backup.start_time) cutoff
    then info_of backup true (older_than policy.backup_retention_days)
    else info_of backup false unstated

-- `evaluateBackupRetention`
pub evaluate_backup_retention : List BackupMetadata → RetentionPolicy → ℕ → List BackupRetentionInfo
evaluate_backup_retention backups policy cutoff = map_index (judge policy cutoff) 0 backups

abbrev pub is_completed : BackupMetadata → Bool
is_completed b = elim b.status [ completed ↦ true | _ ↦ false ]

-- `b.startTime.getTime() - a.startTime.getTime() <= 0`, where both are dates.
abbrev pub newer : BackupMetadata → BackupMetadata → Bool
newer x y = leb (ms_of y.start_time) (ms_of x.start_time)

-- The comparison calls `getTime` of both, which a text has not: `none` is the `TypeError`. The
-- engine's sort is stable and compares each element of a longer list; here it inserts.
unfoldable pub insert_dated : BackupMetadata → List BackupMetadata → Option (List BackupMetadata)
insert_dated x [] = some (x ∷ [])
insert_dated x (y ∷ ys) =
    let rest = insert_dated x ys in
    if not (is_date x.start_time && is_date y.start_time)
    then none
    else if newer x y
    then some (x ∷ y ∷ ys)
    else elim rest [ none ↦ none | some sorted ↦ some (y ∷ sorted) ]

unfoldable pub sort_by_date : List BackupMetadata → Option (List BackupMetadata)
sort_by_date [] = some []
sort_by_date (x ∷ xs) = elim (sort_by_date xs) [ none ↦ none | some sorted ↦ insert_dated x sorted ]

-- The completed backups of a list, newest first.
pub completed_backups : List BackupMetadata → Option (List BackupMetadata)
completed_backups backups = sort_by_date (filter is_completed backups)

-- `new Map(backups.map((b) => [b.id, b])).get(id)`: of two with one id, the later.
pub last_with_id : Text → List BackupMetadata → Option BackupMetadata
last_with_id id [] = none
last_with_id id (b ∷ bs) = elim (last_with_id id bs) [
  | some later ↦ some later
  | none ↦ if text_eq b.id id then some b else none
]

pub record Deleted : Type 0 where
  pub count : ℕ
  pub space_saved : ℕ

pub record RetentionReport : Type 0 where
  pub backups : List BackupRetentionInfo
  pub total_backups : ℕ
  pub backups_to_delete : ℕ
  pub space_to_reclaim : ℕ

pub data CleanupError : Type 0 where
  backup_cleanup wal_cleanup trash_purge : CleanupError

pub record CleanupResult : Type 0 where
  pub backups_deleted : ℕ
  pub wal_files_deleted : ℕ
  pub space_saved : ℕ
  pub errors : List CleanupError

abbrev pub metadata_suffix : Text
metadata_suffix = codes ".metadata.json"

pub record WalMetadata : Type 0 where
  pub file_name : Text
  pub archive_time : ℕ
  pub storage_key : Text

module _ (E S : Type 0) (type_error : E) (list_backups : Effect E S (List BackupMetadata))
    (delete_object : Text → Effect E S Unit) (list_wal_files : Effect E S (List WalMetadata))
    (purge_trash : Effect E S ℕ) where
  -- The body of the loop in `cleanupOldBackups`: a backup that is not found is passed over, and a
  -- deletion that fails leaves the counts as they are.
  pub delete_backup : Option BackupMetadata → BackupRetentionInfo → Deleted → Effect E S Deleted
  delete_backup none info so_far = pure so_far
  delete_backup (some backup) info so_far =
      try_catch
        (do
          delete_object backup.storage_key
          delete_object (backup.storage_key ++ metadata_suffix)
          pure (record { count = so_far.count + 1; space_saved = so_far.space_saved + info.size }))
        (λ _. pure so_far)

  pub delete_backups : List BackupMetadata → List BackupRetentionInfo → Deleted → Effect E S Deleted
  delete_backups backups [] so_far = pure so_far
  delete_backups backups (info ∷ infos) so_far = do
    next ← delete_backup (last_with_id info.id backups) info so_far
    delete_backups backups infos next

  abbrev or_type_error : Option (List BackupMetadata) → Effect E S (List BackupMetadata)
  or_type_error none = throw type_error
  or_type_error (some backups) = pure backups

  -- `cleanupOldBackups`
  pub cleanup_old_backups : RetentionPolicy → ℕ → Effect E S Deleted
  cleanup_old_backups policy cutoff = do
    all ← list_backups
    backups ← or_type_error (completed_backups all)
    delete_backups backups
        (filter (λ i. i.should_delete) (evaluate_backup_retention backups policy cutoff))
        (record { count = 0; space_saved = 0 })

  -- `getRetentionReport`
  pub get_retention_report : RetentionPolicy → ℕ → Effect E S RetentionReport
  get_retention_report policy cutoff = do
    all ← list_backups
    backups ← or_type_error (completed_backups all)
    let infos = evaluate_backup_retention backups policy cutoff
    let marked = filter (λ i. i.should_delete) infos
    pure (record {
      backups = infos;
      total_backups = length backups;
      backups_to_delete = length marked;
      space_to_reclaim = foldl (λ sum i. sum + i.size) 0 marked;
    })

  -- The loop of `cleanupOldWalFiles`: a failed deletion ends it.
  pub delete_wal_files : ℕ → List WalMetadata → ℕ → Effect E S ℕ
  delete_wal_files cutoff [] deleted_count = pure deleted_count
  delete_wal_files cutoff (file ∷ files) deleted_count =
      let skipped = delete_wal_files cutoff files deleted_count in
      let counted = delete_wal_files cutoff files (deleted_count + 1) in
      if ltb file.archive_time cutoff
      then (do
        delete_object file.storage_key
        delete_object (file.storage_key ++ metadata_suffix)
        counted)
      else skipped

  -- `cleanupOldWalFiles`
  pub cleanup_old_wal_files : ℕ → Effect E S ℕ
  cleanup_old_wal_files cutoff = do files ← list_wal_files; delete_wal_files cutoff files 0

  abbrev noted : CleanupResult → CleanupError → CleanupResult
  noted r e = record r { errors = r.errors ++ e ∷ [] }

  -- `applyRetentionPolicy`: three steps, each under its own `try`.
  pub apply_retention_policy : RetentionPolicy → ℕ → ℕ → Effect E S CleanupResult
  apply_retention_policy policy cutoff wal_cutoff = do
    let start : CleanupResult = record {
      backups_deleted = 0;
      wal_files_deleted = 0;
      space_saved = 0;
      errors = [];
    }
    first ←
        try_catch
          (do
            d ← cleanup_old_backups policy cutoff
            pure (record start { backups_deleted = d.count; space_saved = 0 + d.space_saved }))
          (λ _. pure (noted start backup_cleanup))
    second ←
        try_catch
          (do n ← cleanup_old_wal_files wal_cutoff; pure (record first { wal_files_deleted = n }))
          (λ _. pure (noted first wal_cleanup))
    try_catch (do purge_trash; pure second) (λ _. pure (noted second trash_purge))
