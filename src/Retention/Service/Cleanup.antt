-- ===== src/Retention/Service/Cleanup.antt =====
-- The steps of src/wal/retention.service.ts with their failures.
use dbdock.Retention.Service.Dates.{sort_by_date-text}
use dbdock.Base.{
  ℕ, ◌+◌, ◌≤◌, ◌≡◌, refl, inl, inr, Text, Bool, true, false, Option, none, some, List, [], ◌∷◌,
  ◌++◌, length, length-append, any-append, filter, all, any, arith, Bool-cases,
}
use dbdock.Base.Effect.{Effect, ok, err, ◌>>=◌}
use dbdock.Base.Triple.{Triple, Triple-pure, Triple-bind, Triple-any, Triple-keep, Triple-try_catch}
use dbdock.Retention.Service.{
  RetentionPolicy, BackupMetadata, BackupRetentionInfo, Deleted, CleanupResult, CleanupError,
  backup_cleanup, wal_cleanup, trash_purge, WalMetadata, is_date, is_completed, completed_backups,
  delete_backup, cleanup_old_backups, apply_retention_policy,
}

-- Two or more completed backups, one of them with a start time that is a text.
abbrev pub HasText : List BackupMetadata → Type 0
HasText backups =
    (2 ≤ length (filter is_completed backups))
    × (all (λ b. is_date b.start_time) (filter is_completed backups) ≡ false)

completed_backups-none :
    (backups : List BackupMetadata) → HasText backups → completed_backups backups ≡ none
unfolding completed_backups
completed_backups-none backups h = sort_by_date-text (filter is_completed backups) h.0 h.1

abbrev is_backup : CleanupError → Bool
is_backup e = elim e [ backup_cleanup ↦ true | _ ↦ false ]

abbrev is_wal : CleanupError → Bool
is_wal e = elim e [ wal_cleanup ↦ true | _ ↦ false ]

-- What the errors of a result say of its numbers.
pub record Reports (most : ℕ) (r : CleanupResult) : Type 0 where
  pub few : length r.errors ≤ most
  pub backups : any is_backup r.errors ≡ true → (r.backups_deleted ≡ 0) × (r.space_saved ≡ 0)
  pub wal : any is_wal r.errors ≡ true → r.wal_files_deleted ≡ 0

record AfterBackups (r : CleanupResult) : Type 0 where
  reports : Reports 1 r
  untouched : r.wal_files_deleted ≡ 0
  no_wal : any is_wal r.errors ≡ false

abbrev fresh : CleanupResult
fresh = record { backups_deleted = 0; wal_files_deleted = 0; space_saved = 0; errors = [] }

counted_backups :
    (n m : ℕ) → AfterBackups (record fresh { backups_deleted = n; space_saved = 0 + m })
counted_backups n m = record {
  reports = record { few = omega arith; backups = λ e. cc; wal = λ e. cc };
  untouched = refl;
  no_wal = refl;
}

failed_backups : AfterBackups (record fresh { errors = backup_cleanup ∷ [] })
failed_backups = record {
  reports = record { few = omega arith; backups = λ e. (refl, refl); wal = λ e. cc };
  untouched = refl;
  no_wal = refl;
}

counted_wal :
    (r : CleanupResult) (n : ℕ) → AfterBackups r → Reports 2 (record r { wal_files_deleted = n })
counted_wal r n h = record {
  few = omega (arith, h.reports.few);
  backups = h.reports.backups;
  wal = λ e. cc (e, h.no_wal);
}

-- One more error that is not of the backup step.
noted_error :
    (k : ℕ) (r : CleanupResult) (e : CleanupError)
    → is_backup e ≡ false
    → Reports k r
    → (is_wal e ≡ true → r.wal_files_deleted ≡ 0)
    → Reports (k + 1) (record r { errors = r.errors ++ e ∷ [] })
noted_error k r e other h w = record {
  few = omega (arith, h.few, length-append r.errors (e ∷ []));
  backups = λ q. h.backups (ground (arith, any-append is_backup r.errors (e ∷ [])));
  wal = λ q. elim (Bool-cases (any is_wal r.errors)) [
    | inl p ↦ h.wal p
    | inr p ↦ w (ground (arith, any-append is_wal r.errors (e ∷ [])))
  ];
}

failed_wal :
    (r : CleanupResult)
    → AfterBackups r
    → Reports 2 (record r { errors = r.errors ++ wal_cleanup ∷ [] })
failed_wal r h = noted_error 1 r wal_cleanup refl h.reports (λ _. h.untouched)

done : (r : CleanupResult) → Reports 2 r → Reports 3 r
done r h = record { few = omega (arith, h.few); backups = h.backups; wal = h.wal }

failed_purge :
    (r : CleanupResult)
    → Reports 2 r
    → Reports 3 (record r { errors = r.errors ++ trash_purge ∷ [] })
failed_purge r h = noted_error 2 r trash_purge refl h (λ e. cc)

module _ (E S : Type 0) (type_error : E) (list_backups : Effect E S (List BackupMetadata))
    (delete_object : Text → Effect E S Unit) (list_wal_files : Effect E S (List WalMetadata))
    (purge_trash : Effect E S ℕ) where
  -- Where two or more backups of the list are completed, and the start time of one of these is a
  -- text, as parsed metadata has it, the clean-up throws and has deleted nothing: the state is that
  -- after the listing.
  pub cleanup_old_backups-HasText :
      (policy : RetentionPolicy) (cutoff : ℕ) (backups : List BackupMetadata) (s s' : S)
      → list_backups s ≡ (ok backups, s')
      → HasText backups
      → cleanup_old_backups E S type_error list_backups delete_object list_wal_files purge_trash
          policy cutoff s
        ≡ (err type_error, s')
  unfolding cleanup_old_backups ◌>>=◌
  cleanup_old_backups-HasText policy cutoff backups s s' e h =
      rw (e, completed_backups-none backups h)

  -- The deletions never throw, count at most one for each marked backup, and add the sizes of those
  -- they count.
  delete_backup-bounded :
      (o : Option BackupMetadata) (info : BackupRetentionInfo) (d : Deleted)
      → Triple
          (λ _. Unit {0})
          (delete_backup E S type_error list_backups delete_object list_wal_files purge_trash o info
            d)
          (λ d' _. (d'.count ≤ d.count + 1) × (d'.space_saved ≤ d.space_saved + info.size))
          (λ _. ⊥)
  unfolding delete_backup
  delete_backup-bounded none info d = Triple-pure d (λ s h. omega arith)
  delete_backup-bounded (some b) info d =
      Triple-try_catch (λ _. Unit {0}) _ _
        (Triple-bind (λ _ _. Unit {0}) _ _ (Triple-any _)
          (λ _.
            Triple-bind (λ _ _. Unit {0}) _ _ (Triple-any _)
              (λ _. Triple-pure _ (λ s h. omega arith))))
        (λ e. Triple-pure d (λ s h. omega arith))

  -- `applyRetentionPolicy` never throws, whichever of its three steps fail. It reports at most
  -- three errors; with an error of the backup step no backup and no space is counted, and with one
  -- of the WAL step no WAL file.
  pub apply_retention_policy-total :
      (policy : RetentionPolicy) (cutoff wal_cutoff : ℕ)
      → Triple
          (λ _. Unit {0})
          (apply_retention_policy E S type_error list_backups delete_object list_wal_files
            purge_trash policy cutoff wal_cutoff)
          (λ r _. Reports 3 r)
          (λ _. ⊥)
  unfolding apply_retention_policy
  apply_retention_policy-total policy cutoff wal_cutoff =
      Triple-bind (λ r _. AfterBackups r) _ _
        (Triple-try_catch (λ _. Unit {0}) _ _
          (Triple-bind (λ _ _. Unit {0}) _ _ (Triple-any _)
            (λ d. Triple-pure _ (λ s h. counted_backups d.count d.space_saved)))
          (λ e. Triple-pure _ (λ s h. failed_backups)))
        (λ first.
          Triple-bind {P = λ _. AfterBackups first} (λ r _. Reports 2 r) _ _
            (Triple-try_catch (λ _. AfterBackups first) _ _
              (Triple-bind (λ _ _. AfterBackups first) _ _ (Triple-keep _)
                (λ n. Triple-pure _ (λ s h. counted_wal first n h)))
              (λ e. Triple-pure _ (λ s h. failed_wal first h)))
            (λ second.
              Triple-try_catch (λ _. Reports 2 second) _ _
                (Triple-bind (λ _ _. Reports 2 second) _ _ (Triple-keep _)
                  (λ _. Triple-pure _ (λ s h. done second h)))
                (λ e. Triple-pure _ (λ s h. failed_purge second h))))
