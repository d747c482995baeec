-- ===== src/Changes/Record.antt =====
-- src/changes/types.ts and src/changes/records.ts: the records of changes, saved on this machine and
-- sent to the cloud. The cloud and the writing of a file are parameters.
use dbdock.Base.{
  ℕ, String, str_eq, Text, Bool, true, false, Option, none, some, List, [], ◌∷◌, map, ◌+◌,
  if◌then◌else◌,
}
use dbdock.Base.Effect.{Effect, Result, ok, err, pure, try_catch, ◌>>=◌, ◌>>◌}
use dbdock.Cloud.Dict.{Dict, insert}

pub data ActorKind : Type 0 where
  person agent : ActorKind

pub data ChangeKind : Type 0 where
  migration sql restore copy : ChangeKind

pub data ChangeStatus : Type 0 where
  running succeeded failed : ChangeStatus

-- What `recordMetadata` gives a record.
pub record Metadata : Type 0 where
  pub actor : Text
  pub actor_kind : ActorKind
  pub context : Text
  pub kind : ChangeKind
  pub summary : Text
  pub deploy : Option Text
  pub session : Option Text

pub record ChangeRecord : Type 0 where
  pub id : Text
  pub checkpoint_id : Text
  pub occurred_at : ℕ
  pub completed_at : Option ℕ
  pub metadata : Metadata
  pub status : ChangeStatus
  pub checkpoint_storage : Text
  pub restored_checkpoint_id : Option Text

pub record LocalRecord : Type 0 where
  pub saved : ChangeRecord
  pub synced : Bool

-- Why a call throws: a fault of a parameter, or one that this part makes.
pub data ChangeError (E : Type 0) : Type 0 where
  fault : E → ChangeError E
  no_schema : ChangeError E
  -- `GuardedChangeError`, with whether the record reached the cloud.
  guarded_change : ChangeRecord → ChangeError E → Bool → ChangeError E

-- The outside world, and the directory of records.
pub record Machine (W : Type 0) : Type 0 where
  pub world : W
  pub records : Dict LocalRecord

module _ {E W : Type 0} where
  abbrev pub carried :
      {A : Type 0} → Machine W → Result E A × W → Result (ChangeError E) A × Machine W
  carried s (ok x, w) = (ok x, record s { world = w })
  carried s (err e, w) = (err (fault e), record s { world = w })

  -- A call of the outside.
  unfoldable pub outside : {A : Type 0} → Effect E W A → Effect (ChangeError E) (Machine W) A
  outside m s = carried s (m s.world)

  unfoldable pub put_record : ChangeRecord → Bool → Effect (ChangeError E) (Machine W) Unit
  put_record r synced s =
      (ok tt, record s { records = insert r.id (record { saved = r; synced = synced }) s.records })

-- What the records need: `ignoreArtifacts`, which makes the directory; the writing of a file, which
-- fails before it replaces the old one; the reading and parsing of all files; and the session with
-- its `ingestChange`.
pub record Outlet (E W : Type 0) : Type 0 where
  pub ignore_artifacts : Effect E W Unit
  pub write_file : Effect E W Unit
  pub read_files : Effect E W Unit
  -- `readProjectConfig(cwd)?.projectId`
  pub project_id : Option String
  pub ingest : String → ChangeRecord → Effect E W Unit

module _ {E W : Type 0} (outlet : Outlet E W) where
  -- `saveRecord`
  unfoldable pub save_record : ChangeRecord → Bool → Effect (ChangeError E) (Machine W) Unit
  save_record r synced = do
    outside outlet.ignore_artifacts
    outside outlet.write_file
    put_record r synced

  unfoldable pub send_to : Option String → ChangeRecord → Effect (ChangeError E) (Machine W) Bool
  send_to none r = pure false
  send_to (some project) r =
      if str_eq project ""
      then pure false
      else try_catch (do outside (outlet.ingest project r); save_record r true; pure true)
          (λ _. pure false)

  -- `sendRecord`: whether the record was sent.
  unfoldable pub send_record : ChangeRecord → Effect (ChangeError E) (Machine W) Bool
  send_record r = send_to outlet.project_id r

  -- A record of a change that still runs is left; another is sent.
  unfoldable pub sync_entry :
      {A : Type 0}
      → ChangeStatus
      → Effect (ChangeError E) (Machine W) Bool
      → Effect (ChangeError E) (Machine W) A
      → Effect (ChangeError E) (Machine W) A
      → Effect (ChangeError E) (Machine W) A
  sync_entry running send delivered left = left
  sync_entry succeeded send delivered left = do sent ← send; if sent then delivered else left
  sync_entry failed send delivered left = do sent ← send; if sent then delivered else left

  -- The loop of `syncRecords` over the local records, with the counts of sent and pending ones.
  unfoldable pub sync_entries :
      List LocalRecord → ℕ → ℕ → Effect (ChangeError E) (Machine W) (ℕ × ℕ)
  sync_entries [] sent pending = pure (sent, pending)
  sync_entries (entry ∷ entries) sent pending =
      let skipped = sync_entries entries sent pending in
      let delivered = sync_entries entries (sent + 1) pending in
      let left = sync_entries entries sent (pending + 1) in
      if entry.synced
      then skipped
      else sync_entry entry.saved.status (send_record entry.saved) delivered left

  -- `syncRecords`
  unfoldable pub sync_records : Effect (ChangeError E) (Machine W) (ℕ × ℕ)
  sync_records = do
    outside outlet.ignore_artifacts
    outside outlet.read_files
    λ s. sync_entries (map (λ e. e.1) s.records) 0 0 s
