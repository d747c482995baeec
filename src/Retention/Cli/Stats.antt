-- ===== src/Retention/Cli/Stats.antt =====
-- The deletions of src/cli/utils/retention.ts and the statistics that they return.
use dbdock.Base.{
  ℕ, ◌+◌, ◌≡◌, refl, Text, Bool, false, List, [], ◌∷◌, length, filter, length-append,
  length-filter_split, All, arith,
}
use dbdock.Base.Effect.{Effect}
use dbdock.Base.Triple.{
  Triple, Triple-pure, Triple-bind, Triple-any, Triple-if, Triple-try_catch, Triple-mono,
}
use dbdock.Storage.Adapter.{StorageObject}
use dbdock.Retention.Cli.{
  RetentionConfig, Reason, BackupInfo, Provider, RetentionStats, prefix_of, judged,
  evaluate_retention, delete_one, delete_all, to_delete, apply_retention,
}

module _ (E S : Type 0) (list_objects : Text → Effect E S (List StorageObject))
    (delete_object : Text → Reason → Effect E S Unit) where
  -- The numbers after `n` more backups have been handled.
  abbrev Handled : RetentionStats → ℕ → RetentionStats → Type 0
  Handled before n after =
      (after.total_backups ≡ before.total_backups)
      × (after.kept_backups ≡ before.kept_backups)
      × (after.deleted_backups + length after.errors
          ≡ before.deleted_backups + length before.errors + n)

  delete_one-Handled :
      (b : BackupInfo) (stats : RetentionStats)
      → Triple
          (λ _. Unit {0})
          (delete_one E S list_objects delete_object b stats)
          (λ after _. Handled stats 1 after)
          (λ _. ⊥)
  unfolding delete_one
  delete_one-Handled b stats =
      Triple-try_catch (λ _. Unit {0}) _ _
        (Triple-bind (λ _ _. Unit {0}) _ _ (Triple-any _)
          (λ _. Triple-pure _ (λ s h. (refl, refl, omega arith))))
        (λ e.
          Triple-pure _
            (λ s h. (refl, refl, omega (arith, length-append stats.errors (b.key ∷ [])))))

  delete_all-Handled :
      (bs : List BackupInfo) (stats : RetentionStats)
      → Triple
          (λ _. Unit {0})
          (delete_all E S list_objects delete_object bs stats)
          (λ after _. Handled stats (length bs) after)
          (λ _. ⊥)
  unfolding delete_all
  delete_all-Handled [] stats = Triple-pure stats (λ s h. (refl, refl, omega arith))
  delete_all-Handled (b ∷ bs) stats =
      Triple-bind (λ after _. Handled stats 1 after) _ _ (delete_one-Handled b stats)
        (λ mid. record {
          run = λ s h.
              (Triple-mono {P' = λ _. Handled stats 1 mid} (λ _ _. tt) (λ after _ k. omega arith)
                  (λ _ k. k) (delete_all-Handled bs mid)).run
                s h;
        })

  -- A call of `applyRetention` that returns accounts for every backup: the total is the number of
  -- those kept, those deleted and those whose deletion failed, in a dry run too.
  pub apply_retention-total :
      (config : RetentionConfig) (provider : Provider) (dry_run : Bool) (now : ℕ)
      → Triple
          (λ _. Unit {0})
          (apply_retention E S list_objects delete_object config provider dry_run now)
          (λ stats _.
            stats.total_backups ≡ stats.kept_backups + stats.deleted_backups + length stats.errors)
          (λ _. Unit {0})
  unfolding apply_retention
  apply_retention-total config provider dry_run now =
      Triple-bind (λ _ _. Unit {0}) _ _ (Triple-any _)
        (λ infos.
          let split = length-filter_split (λ b. b.should_delete) infos in
          Triple-if dry_run (λ _. Triple-pure _ (λ s h. omega (arith, split)))
            (λ _.
              Triple-mono (λ _ _. tt) (λ stats _ k. omega (arith, split)) (λ _ k. tt)
                (delete_all-Handled (to_delete E S list_objects delete_object infos) _)))

  module _ (P : S → Type 0) where
    -- The action keeps `P`, whether it returns or throws.
    abbrev Keeps : {A : Type 0} → Effect E S A → Type 0
    Keeps m = Triple P m (λ _ s. P s) P

    delete_all-Keeps :
        (bs : List BackupInfo) (stats : RetentionStats)
        → All (λ b. Keeps (delete_object b.key b.reason)) bs
        → Keeps (delete_all E S list_objects delete_object bs stats)
    unfolding delete_all delete_one
    delete_all-Keeps [] stats h = Triple-pure stats (λ s k. k)
    delete_all-Keeps (b ∷ bs) stats h =
        Triple-bind (λ _ s. P s) _ _
          (Triple-try_catch P _ _ (Triple-bind (λ _ s. P s) _ _ h.0 (λ _. Triple-pure _ (λ s k. k)))
            (λ e. Triple-pure _ (λ s k. k)))
          (λ mid. delete_all-Keeps bs mid h.1)

    -- `applyRetention` deletes marked backups only, and none in a dry run: what the listing keeps,
    -- and the deletion of each marked backup of a listing `Listed` keeps, the whole call keeps,
    -- whether it returns or throws; in a dry run the listing alone has to keep it.
    pub apply_retention-Keeps :
        (Listed : List StorageObject → Type 0) (config : RetentionConfig) (provider : Provider)
        (dry_run : Bool) (now : ℕ)
        → Triple P (list_objects (prefix_of provider)) (λ objects s. P s × Listed objects) P
        → (dry_run ≡ false
            → (objects : List StorageObject) → Listed objects
            → All
                (λ b. Keeps (delete_object b.key b.reason))
                (filter (λ b. b.should_delete) (judged config now objects)))
        → Keeps (apply_retention E S list_objects delete_object config provider dry_run now)
    unfolding apply_retention evaluate_retention
    apply_retention-Keeps Listed config provider dry_run now listed h =
        Triple-bind
          (λ infos s.
            P s
            × ((objects : List StorageObject) × Listed objects
                × (infos ≡ judged config now objects)))
          _ _
          (Triple-bind (λ objects s. P s × Listed objects) _ _ listed
            (λ objects. Triple-pure _ (λ s k. (k.0, (objects, k.1, refl)))))
          (λ infos. record {
            run = λ s k.
                let (objects, real, same) = k.1 in
                rw same (
                  (Triple-if dry_run (λ _. Triple-pure _ (λ s k. k))
                      (λ wet. delete_all-Keeps _ _ (h wet objects real))).run
                    s k.0);
          })
