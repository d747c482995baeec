-- ===== src/Retention/Service/Tests.antt =====
-- src/wal/retention.service.ts at four backups, and at the metadata that JSON gives back.
use dbdock.Base.{ℕ, ◌≡◌, refl, String, Text, codes, none, List, [], ◌∷◌, ◌++◌, arith}
use dbdock.Base.Effect.{Effect, ok, err, ◌>>=◌}
use dbdock.Base.Triple.{Triple}
use dbdock.Base.Sort.{sort_by}
use dbdock.Retention.Marks.{IsCut, map_index}
use dbdock.Retention.Service.{
  sort_by_date, insert_dated, RetentionPolicy, BackupMetadata, StartTime, date, iso_text, completed,
  WalMetadata, newer, judge, last_with_id, delete_backup, delete_backups, completed_backups,
  evaluate_backup_retention, cleanup_old_backups, apply_retention_policy,
}
use dbdock.Retention.Service.Marked.{evaluate_backup_retention-IsCut}
use dbdock.Retention.Service.Cleanup.{
  Reports, cleanup_old_backups-HasText, apply_retention_policy-total,
}

abbrev backup : String → StartTime → BackupMetadata
backup name start = record {
  id = codes name;
  database = codes "app";
  status = completed;
  start_time = start;
  size = 10;
  compressed_size = none;
  storage_key = codes name;
}

abbrev dated : List BackupMetadata
dated = backup "a" (date 100) ∷ backup "b" (date 900) ∷ backup "c" (date 200) ∷ []

abbrev parsed : List BackupMetadata
parsed = backup "a" (iso_text 100) ∷ backup "b" (iso_text 900) ∷ []

abbrev policy : RetentionPolicy
policy = record {
  backup_retention_days = 30;
  wal_retention_days = 30;
  min_backups_to_keep = 1;
  max_backups_to_keep = none;
}

-- The state is the list of keys deleted.
abbrev lister : List BackupMetadata → Effect Unit (List Text) (List BackupMetadata)
lister backups s = (ok backups, s)

abbrev remover : Text → Effect Unit (List Text) Unit
remover key s = (ok tt, s ++ key ∷ [])

abbrev no_files : Effect Unit (List Text) (List WalMetadata)
no_files s = (ok [], s)

abbrev no_purge : Effect Unit (List Text) ℕ
no_purge s = (err tt, s)

cleanup_test :
    (cleanup_old_backups
      (Unit {0})
      (List Text)
      tt
      (lister dated)
      remover
      no_files
      no_purge
      policy
      500
      []).1
    ≡ codes "c" ∷ codes "c.metadata.json" ∷ codes "a" ∷ codes "a.metadata.json" ∷ []
unfolding cleanup_old_backups delete_backups delete_backup last_with_id completed_backups
    evaluate_backup_retention judge map_index sort_by_date insert_dated ◌>>=◌
cleanup_test = refl

evaluate_backup_retention-IsCut_example :
    IsCut (λ i. i.should_delete) 1 0 (evaluate_backup_retention (sort_by newer dated) policy 500)
evaluate_backup_retention-IsCut_example = evaluate_backup_retention-IsCut dated policy 500

cleanup_old_backups-HasText_example :
    cleanup_old_backups
      (Unit {0})
      (List Text)
      tt
      (lister parsed)
      remover
      no_files
      no_purge
      policy
      500
      []
    ≡ (err tt, [])
cleanup_old_backups-HasText_example =
    cleanup_old_backups-HasText (Unit {0}) (List Text) tt (lister parsed) remover no_files no_purge
      policy 500 parsed [] [] refl (omega arith, refl)

apply_retention_policy-total_example :
    Triple
      (λ _. Unit {0})
      (apply_retention_policy
        (Unit {0})
        (List Text)
        tt
        (lister dated)
        remover
        no_files
        no_purge
        policy
        500
        500)
      (λ r _. Reports 3 r)
      (λ _. ⊥)
apply_retention_policy-total_example =
    apply_retention_policy-total (Unit {0}) (List Text) tt (lister dated) remover no_files no_purge
      policy 500 500
