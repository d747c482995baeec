-- ===== src/Changes/History/Tests.antt =====
-- src/changes/history.ts at two saved changes, of which the cloud lists one, and one more.
use dbdock.Base.{
  ℕ, String, ◌≡◌, refl, ◌+◌, Text, codes, text_eq, leb, Bool, true, false, none, some, List, [],
  ◌∷◌, map, take, arith, if◌then◌else◌,
}
use dbdock.Base.Effect.{Effect, ok, err, ◌>>=◌}
use dbdock.Base.Sort.{sort_by}
use dbdock.Base.Triple.{Outcome}
use dbdock.Cloud.Dict.{insert, lookup}
use dbdock.Changes.Record.{ChangeRecord, Machine, person, migration, succeeded}
use dbdock.Changes.History.{
  HistoryEntry, ChangeSource, read_history, merge_local, merge_cloud, arrange, find_undo_target,
  search_entries, undo_search_limit,
}
use dbdock.Changes.History.Laws.{Reads, read_history-Reads}
use dbdock.Changes.History.Undo.{IsFound, find_undo_target-IsFound}

abbrev change : String → ℕ → ChangeRecord
change id time = record {
  id = codes id;
  checkpoint_id = codes id;
  occurred_at = time;
  completed_at = none;
  metadata = record {
    actor = codes "ann";
    actor_kind = person;
    context = codes "local";
    kind = migration;
    summary = codes "Run migration command";
    deploy = none;
    session = none;
  };
  status = succeeded;
  checkpoint_storage = codes "local";
  restored_checkpoint_id = none;
}

abbrev machine : Machine ℕ
machine = record {
  world = 0;
  records =
      (codes "a", record { saved = change "a" 10; synced = false })
      ∷ (codes "b", record { saved = change "b" 30; synced = false })
      ∷ [];
}

abbrev source : ChangeSource Unit ℕ
source = record {
  project_id = some "p";
  list_changes = λ p limit w. (ok (change "c" 20 ∷ change "a" 99 ∷ []), w + 1);
}

-- The order of ids by their first unit.
abbrev rank : Text → ℕ
rank [] = 0
rank (c ∷ t) = c

abbrev before : Text → Text → Bool
before s t = leb (rank s) (rank t)

before_total : (s t : Text) → before s t ≡ false → before t s ≡ true
before_total s t h = ground arith

before_trans : (s t u : Text) → before s t ≡ true → before t u ≡ true → before s u ≡ true
before_trans s t u h k = ground arith

read_history-Reads_example :
    Outcome
      (Reads source before before_total before_trans 2 machine)
      (λ _. ⊥)
      (read_history source before 2 machine)
read_history-Reads_example = read_history-Reads source before before_total before_trans 2 machine

abbrev entries : List HistoryEntry
entries =
    record { change = change "b" 30; in_cloud = false }
    ∷ record { change = change "c" 20; in_cloud = true }
    ∷ record { change = change "a" 10; in_cloud = true }
    ∷ []

-- Three changes: that of the local record comes with the time it has here.
history_test :
    arrange before 3 (
      merge_cloud
        (change "c" 20 ∷ change "a" 99 ∷ [])
        (merge_local (map (λ e. e.1) machine.records) []))
    ≡ entries
unfolding arrange merge_cloud merge_local insert lookup sort_by
history_test = refl

-- Only the checkpoint of the third change is on this machine.
abbrev read_checkpoint : Text → Effect Unit ℕ ℕ
read_checkpoint id w = if text_eq id (codes "a") then (ok 7, w + 1) else (err tt, w + 1)

undo_test : (find_undo_target read_checkpoint (λ e. true) entries 0).1 ≡ 3
unfolding find_undo_target search_entries ◌>>=◌
undo_test = refl

find_undo_target-IsFound_example :
    Outcome
      (λ found v.
        IsFound read_checkpoint
          (λ e. true)
          (map (λ e. e.change) (take undo_search_limit entries))
          0
          found.skipped
          found.target
          v)
      (λ _. ⊥)
      (find_undo_target read_checkpoint (λ e. true) entries 0)
find_undo_target-IsFound_example = find_undo_target-IsFound read_checkpoint (λ e. true) entries 0
