-- ===== src/Changes/Delivery.antt =====
-- src/changes/records.ts: the counts of `syncRecords`.
use dbdock.Changes.Calls.{After, Threw}
use dbdock.Base.{◌⊎◌, ℕ, ◌+◌, ◌≡◌, not, List, filter, length}
use dbdock.Base.Effect.{Effect}
use dbdock.Base.Triple.{Triple}
use dbdock.Changes.Record.{LocalRecord, ChangeError, Machine, Outlet}

abbrev pub unsynced : List LocalRecord → ℕ
unsynced entries = length (filter (λ e. not e.synced) entries)

module _ {E W : Type 0} (outlet : Outlet E W) where
  abbrev Counts : ℕ → Effect (ChangeError E) (Machine W) (ℕ × ℕ) → Type 0
  Counts n m = Triple (λ _. Unit {0}) m (λ r _. r.0 + r.1 ≡ n) (λ _. ⊥)

  -- The call before the loop that threw: the making of the directory, or the reading of the files.
  abbrev pub Unread : Machine W → W → Type 0
  Unread s v =
      Threw (λ w. w ≡ s.world) outlet.ignore_artifacts v
      ⊎ Threw (After (λ w. w ≡ s.world) outlet.ignore_artifacts tt) outlet.read_files v
