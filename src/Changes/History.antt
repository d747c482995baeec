-- ===== src/Changes/History.antt =====
-- src/changes/history.ts: the changes known here and in the cloud, and the search for one to undo.
-- The order of ids, `localeCompare`, is an argument, as is the reading of a checkpoint.
pub mod Merge
pub mod Laws
pub mod Undo
pub mod Tests
use dbdock.Base.{
  ℕ, ltb, ◌==◌, String, str_eq, Text, ◌&&◌, ◌||◌, Bool, true, Option, none, some, List, [], ◌∷◌,
  ◌++◌, map, take, if◌then◌else◌,
}
use dbdock.Base.Sort.{sort_by}
use dbdock.Base.Effect.{Effect, pure, try_catch, ◌>>=◌, ◌>>◌}
use dbdock.Cloud.Dict.{Dict, lookup, insert}
use dbdock.Changes.Record.{ChangeRecord, LocalRecord, ChangeError, Machine, outside}

pub record HistoryEntry : Type 0 where
  pub change : ChangeRecord
  pub in_cloud : Bool

-- Why the cloud's changes are left out.
pub data CloudNote (E : Type 0) : Type 0 where
  not_linked : CloudNote E
  not_read : ChangeError E → CloudNote E

pub record History (E : Type 0) : Type 0 where
  pub entries : List HistoryEntry
  pub cloud_note : Option (CloudNote E)

abbrev pub values : {V : Type 0} → Dict V → List V
values d = map (λ e. e.1) d

-- The map of the local records.
unfoldable pub merge_local : List LocalRecord → Dict HistoryEntry → Dict HistoryEntry
merge_local [] by_id = by_id
merge_local (r ∷ records) by_id =
    merge_local records (insert r.saved.id (record { change = r.saved; in_cloud = r.synced }) by_id)

abbrev pub known_change : Option HistoryEntry → ChangeRecord → ChangeRecord
known_change none r = r
known_change (some e) r = e.change

-- The changes that the cloud lists, put into the map.
unfoldable pub merge_cloud : List ChangeRecord → Dict HistoryEntry → Dict HistoryEntry
merge_cloud [] by_id = by_id
merge_cloud (r ∷ records) by_id =
    merge_cloud records
      (insert r.id (record { change = known_change (lookup r.id by_id) r; in_cloud = true }) by_id)

-- `newestFirst(a, b) <= 0`
abbrev pub newest_first : (Text → Text → Bool) → HistoryEntry → HistoryEntry → Bool
newest_first before a b =
    ltb b.change.occurred_at a.change.occurred_at
    || (a.change.occurred_at == b.change.occurred_at && before b.change.id a.change.id)

-- `[...byId.values()].sort(newestFirst).slice(0, limit)`
unfoldable pub arrange : (Text → Text → Bool) → ℕ → Dict HistoryEntry → List HistoryEntry
arrange before limit by_id = take limit (sort_by (newest_first before) (values by_id))

-- The project, and `requireSession` with `listChanges`.
pub record ChangeSource (E W : Type 0) : Type 0 where
  pub project_id : Option String
  pub list_changes : String → ℕ → Effect E W (List ChangeRecord)

module _ {E W : Type 0} (source : ChangeSource E W) (before : Text → Text → Bool) where
  -- The map with what the cloud lists, or why it is without.
  unfoldable pub with_cloud :
      Option String
      → ℕ
      → Dict HistoryEntry
      → Effect (ChangeError E) (Machine W) (Dict HistoryEntry × Option (CloudNote E))
  with_cloud none limit by_id = pure (by_id, some not_linked)
  with_cloud (some project) limit by_id =
      if str_eq project ""
      then pure (by_id, some not_linked)
      else try_catch
          (do
            records ← outside (source.list_changes project limit)
            pure (merge_cloud records by_id, none))
          (λ e. pure (by_id, some (not_read e)))

  -- `readHistory`
  unfoldable pub read_history : ℕ → Effect (ChangeError E) (Machine W) (History E)
  read_history limit s =
      (do
        merged ← with_cloud source.project_id limit (merge_local (values s.records) [])
        pure (record { entries = arrange before limit merged.0; cloud_note = merged.1 }))
        s

-- How many changes an undo looks at.
abbrev pub undo_search_limit : ℕ
undo_search_limit = 20

-- Why a change was passed over.
pub data SkipReason (E : Type 0) : Type 0 where
  not_on_this_machine : SkipReason E
  unreadable : E → SkipReason E

pub record UndoSearch (E C : Type 0) : Type 0 where
  pub target : Option (ChangeRecord × C)
  pub skipped : List (ChangeRecord × SkipReason E)

module _ {E W C : Type 0} (read_checkpoint : Text → Effect E W C) (is_missing : E → Bool) where
  abbrev pub reason_of : E → SkipReason E
  reason_of e = if is_missing e then not_on_this_machine else unreadable e

  -- The loop, with the changes passed over so far.
  unfoldable pub search_entries :
      List HistoryEntry → List (ChangeRecord × SkipReason E) → Effect E W (UndoSearch E C)
  search_entries [] skipped = pure (record { target = none; skipped = skipped })
  search_entries (entry ∷ entries) skipped =
      try_catch
        (do
          checkpoint ← read_checkpoint entry.change.checkpoint_id
          pure (record { target = some (entry.change, checkpoint); skipped = skipped }))
        (λ e. search_entries entries (skipped ++ (entry.change, reason_of e) ∷ []))

  -- `findUndoTarget`
  unfoldable pub find_undo_target : List HistoryEntry → Effect E W (UndoSearch E C)
  find_undo_target entries = search_entries (take undo_search_limit entries) []
