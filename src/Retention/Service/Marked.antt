-- ===== src/Retention/Service/Marked.antt =====
-- Which backups src/wal/retention.service.ts marks for deletion.
use dbdock.Base.{ℕ, ◌≤◌, ◌<◌, ◌≡◌, true, false, List, arith}
use dbdock.Base.Sort.{sort_by, sort_by-IsSorted}
use dbdock.Retention.Marks.{map_index-IsCut, IsCut}
use dbdock.Retention.Service.{
  RetentionPolicy, BackupMetadata, newer, judge, evaluate_backup_retention,
}

stricter :
    (policy : RetentionPolicy) (cutoff i j : ℕ) (x y : BackupMetadata)
    → i < j
    → newer x y ≡ true
    → (judge policy cutoff i x).should_delete ≡ true
    → (judge policy cutoff j y).should_delete ≡ true
unfolding judge
stricter policy cutoff i j x y lt older h = ground arith

spares :
    (policy : RetentionPolicy) (cutoff i : ℕ) (x : BackupMetadata)
    → (judge policy cutoff i x).should_delete ≡ true
    → policy.min_backups_to_keep ≤ i
unfolding judge
spares policy cutoff i x h = ground arith

newer_total : (x y : BackupMetadata) → newer x y ≡ false → newer y x ≡ true
newer_total x y h = ground arith

newer_trans : (x y z : BackupMetadata) → newer x y ≡ true → newer y z ≡ true → newer x z ≡ true
newer_trans x y z h k = ground arith

-- `evaluateBackupRetention` over backups sorted newest first marks a tail of them: none of the
-- first `minBackupsToKeep` is marked, and behind a marked backup every one is marked.
pub evaluate_backup_retention-IsCut :
    (backups : List BackupMetadata) (policy : RetentionPolicy) (cutoff : ℕ)
    → IsCut
        (λ i. i.should_delete)
        policy.min_backups_to_keep
        0
        (evaluate_backup_retention (sort_by newer backups) policy cutoff)
unfolding evaluate_backup_retention
evaluate_backup_retention-IsCut backups policy cutoff =
    map_index-IsCut newer (judge policy cutoff) (λ i. i.should_delete) policy.min_backups_to_keep
      (stricter policy cutoff) (spares policy cutoff) 0 _
      (sort_by-IsSorted newer newer_total newer_trans backups)
