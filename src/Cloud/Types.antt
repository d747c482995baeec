-- ===== src/Cloud/Types.antt =====
-- src/cloud/types.ts: the records of the synchronisation. Times are milliseconds since the epoch,
-- where the source keeps their ISO texts. Resource data are opaque values.
use dbdock.Base.{ℕ, String, Text, Option, none, List, []}
use dbdock.Cloud.Dict.{Dict}

pub data ChangeOp : Type 0 where
  upsert delete : ChangeOp

-- `SyncChange`; `cloudId` is set by no code of this part.
pub record SyncChange (Data : Type 0) : Type 0 where
  pub op : ChangeOp
  pub resource : Text
  pub local_id : Text
  pub hash : Option Text
  pub content : Option Data

-- `SyncEvent`, less its free-form metadata, which no code of this part reads.
pub record SyncEvent : Type 0 where
  pub action : Text
  pub resource_type : Option Text

pub record PendingJob (Data : Type 0) : Type 0 where
  pub id : String
  pub idempotency_key : String
  pub base_revision : ℕ
  pub changes : List (SyncChange Data)
  pub events : List SyncEvent
  pub attempts : ℕ
  pub next_attempt_at : ℕ
  pub created_at : ℕ

pub record RemoteState : Type 0 where
  pub revision : ℕ
  pub state_hash : Option Text
  pub resource_hashes : Dict Text

pub record LocalState (Data : Type 0) : Type 0 where
  pub project_id : Option String
  pub revision : ℕ
  pub last_sync : Option ℕ
  pub state_hash : Option Text
  pub resource_hashes : Dict Text
  pub pending : List (PendingJob Data)
  pub deadletter : List (PendingJob Data)
  -- `cache.remoteState`
  pub cached_remote : Option RemoteState

-- `defaultLocalState` of src/cloud/local-state.ts
abbrev pub default_local_state : {Data : Type 0} → Option String → LocalState Data
default_local_state project_id = record {
  project_id = project_id;
  revision = 0;
  last_sync = none;
  state_hash = none;
  resource_hashes = [];
  pending = [];
  deadletter = [];
  cached_remote = none;
}
