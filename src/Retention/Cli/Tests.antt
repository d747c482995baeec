-- ===== src/Retention/Cli/Tests.antt =====
-- src/cli/utils/retention.ts at a store of seven backups, two of which are old.
use dbdock.Base.{
  ℕ, ◌+◌, ◌≤◌, ◌≡◌, refl, String, Text, codes, text_eq, Bool, true, false, none, some, List, [],
  ◌∷◌, ◌++◌, map, filter, length, All, All-append,
}
use dbdock.Base.Effect.{Effect, ok, ◌>>=◌}
use dbdock.Base.Triple.{Triple}
use dbdock.Base.Sort.{sort_by}
use dbdock.Storage.Adapter.{StorageObject}
use dbdock.Retention.Marks.{IsCut, map_index}
use dbdock.Retention.Cli.{
  RetentionConfig, Reason, local, judge, judged, backups_of, apply_retention, evaluate_retention,
  delete_all, delete_one,
}
use dbdock.Retention.Cli.Marked.{judged-IsCut}
use dbdock.Retention.Cli.Stats.{apply_retention-total, apply_retention-Keeps}

abbrev object : String → ℕ → StorageObject
object name time = record { key = codes name; size = 10; last_modified = time }

abbrev objects : List StorageObject
objects =
    object "backup-a" 100 ∷ object "backup-b" 900 ∷ object "notes" 950 ∷ object "backup-c" 800 ∷ []

abbrev config : RetentionConfig
config = record {
  enabled = true;
  max_backups = some 2;
  max_age_days = none;
  min_backups = some 1;
  run_after_backup = none;
}

judged_test :
    map {B = Text × Bool} (λ b. (b.key, b.should_delete)) (judged config 1000 objects)
    ≡ (codes "backup-b", false) ∷ (codes "backup-c", false) ∷ (codes "backup-a", true) ∷ []
unfolding judged backups_of judge map_index sort_by
judged_test = refl

-- The state is the list of keys deleted; listing returns the objects above.
abbrev lister : Text → Effect Unit (List Text) (List StorageObject)
lister p s = (ok objects, s)

abbrev remover : Text → Reason → Effect Unit (List Text) Unit
remover k r s = (ok tt, s ++ k ∷ [])

apply_test :
    (apply_retention (Unit {0}) (List Text) lister remover config local false 1000 []).1
    ≡ codes "backup-a" ∷ []
unfolding apply_retention evaluate_retention delete_all delete_one judged backups_of judge map_index
    sort_by ◌>>=◌
apply_test = refl

judged-IsCut_example :
    (cut : IsCut (λ b. b.should_delete) 1 0 (judged config 1000 objects)) × All
      (λ k. All (λ g. g.last_modified ≤ k.last_modified) cut.gone)
      cut.kept
judged-IsCut_example = judged-IsCut config 1000 objects

apply_retention-total_example :
    Triple
      (λ _. Unit {0})
      (apply_retention (Unit {0}) (List Text) lister remover config local false 1000)
      (λ stats _.
        stats.total_backups ≡ stats.kept_backups + stats.deleted_backups + length stats.errors)
      (λ _. Unit {0})
apply_retention-total_example =
    apply_retention-total (Unit {0}) (List Text) lister remover config local false 1000

-- The newest backup is not among the keys deleted.
abbrev SparesNewest : List Text → Type 0
SparesNewest s = All (λ k. text_eq k (codes "backup-b") ≡ false) s

marked_spares :
    (os : List StorageObject)
    → os ≡ objects
    → All
        (λ b. Triple SparesNewest (remover b.key b.reason) (λ _ s. SparesNewest s) SparesNewest)
        (filter (λ b. b.should_delete) (judged config 1000 os))
unfolding judged backups_of judge map_index sort_by
marked_spares os same =
    rw same (record { run = λ s h. All-append _ s (codes "backup-a" ∷ []) h (refl, tt) }, tt)

apply_retention-Keeps_example :
    Triple SparesNewest
      (apply_retention (Unit {0}) (List Text) lister remover config local false 1000)
      (λ _ s. SparesNewest s)
      SparesNewest
apply_retention-Keeps_example =
    apply_retention-Keeps (Unit {0}) (List Text) lister remover SparesNewest (λ os. os ≡ objects)
      config local false 1000 (record { run = λ s h. (h, refl) }) (λ _ os. marked_spares os)
