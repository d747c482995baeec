-- ===== src/Cloud/Sync/Commands.antt =====
-- src/cloud/sync-engine.ts: `syncStatus`, `syncPush` and `syncPull`. The project file's id, the
-- resources collected from the directory and the random ids are arguments.
use dbdock.Base.{
  ℕ, ◌==◌, String, Bool, true, false, ◌&&◌, Option, none, some, List, [], ◌∷◌, length,
  if◌then◌else◌,
}
use dbdock.Base.Effect.{Effect, ok, pure, try_catch, ◌>>=◌, ◌>>◌}
use dbdock.Cloud.Types.{SyncChange, PendingJob, RemoteState, LocalState}
use dbdock.Cloud.Dict.{Dict}
use dbdock.Cloud.Diff.{SnapshotEntry, diff_snapshot}
use dbdock.Cloud.Queue.{enqueue}
use dbdock.Cloud.Sync.{
  Fault, SyncClient, SyncStatusResult, Disk, DrainResult, Moment, require_project_id, revision_or,
  outside, drain, require_session,
}

pub record SyncPushResult : Type 0 where
  pub noop : Bool
  pub queued : ℕ
  pub drained : DrainResult

pub record SyncPullResult : Type 0 where
  pub up_to_date : Bool
  pub remote_revision : ℕ

abbrev pub is_empty {ℓ} : {A : Type ℓ} → List A → Bool
is_empty [] = true
is_empty (x ∷ xs) = false

abbrev equal_revision : Option ℕ → ℕ → Bool
equal_revision none revision = false
equal_revision (some remote) revision = remote == revision

module _ {Data : Type 0} where
  -- What `syncStatus` reports of a state, given the remote revision where it could be read.
  abbrev pub status_of : LocalState Data → Option ℕ → Bool → SyncStatusResult
  status_of state remote_revision remote_reachable = record {
    local_revision = state.revision;
    remote_revision = remote_revision;
    in_sync = equal_revision remote_revision state.revision && is_empty state.pending;
    pending = length state.pending;
    deadletter = length state.deadletter;
    last_sync = state.last_sync;
    remote_reachable = remote_reachable;
  }

  -- `syncPush` makes a job only where something changed.
  abbrev pub job_of :
      String → String → ℕ → LocalState Data → List (SyncChange Data) → Option (PendingJob Data)
  job_of id idempotency_key now state [] = none
  job_of id idempotency_key now state (change ∷ more) = some (record {
    id = id;
    idempotency_key = idempotency_key;
    base_revision = state.revision;
    changes = change ∷ more;
    events = [];
    attempts = 0;
    next_attempt_at = now;
    created_at = now;
  })

module _ {W Data : Type 0} where
  unfoldable pub read_local_state : Effect Fault (Disk W Data) (LocalState Data)
  read_local_state d = (ok d.saved, d)

  unfoldable pub write_local_state : LocalState Data → Effect Fault (Disk W Data) Unit
  write_local_state state d = (ok tt, record d { saved = state })

  unfoldable pub queue_job :
      LocalState Data → Option (PendingJob Data) → Effect Fault (Disk W Data) ℕ
  queue_job state none = pure 0
  queue_job state (some job) = do write_local_state (enqueue state job); pure 1

  module _ (client : SyncClient W Data) where
    -- `syncStatus`
    unfoldable pub sync_status : Option String → Effect Fault (Disk W Data) SyncStatusResult
    sync_status config = do
      project_id ← require_project_id config
      state ← read_local_state
      token ← outside client.load_session
      if token
          then try_catch
              (do
                remote ← outside (client.get_state project_id)
                pure (status_of state (some (revision_or remote state.revision)) true))
              (λ _. pure (status_of state none false))
          else pure (status_of state none false)

    -- `syncPush`
    unfoldable pub sync_push :
        Option String
        → Bool
        → Dict (SnapshotEntry Data)
        → String
        → String
        → ℕ
        → (ℕ → Moment)
        → Effect Fault (Disk W Data) SyncPushResult
    sync_push config force resources id idempotency_key now at = do
      project_id ← require_project_id config
      state ← read_local_state
      let changes = diff_snapshot state.resource_hashes resources
      queued ← queue_job state (job_of id idempotency_key now state changes)
      drained ← drain client project_id force now at
      pure (record {
        noop = is_empty changes && (drained.attempted == 0);
        queued = queued;
        drained = drained;
      })

    unfoldable pub adopt :
        LocalState Data → ℕ → Option RemoteState → Effect Fault (Disk W Data) SyncPullResult
    adopt state now none = pure (record { up_to_date = true; remote_revision = state.revision })
    adopt state now (some remote) = do
      write_local_state (record state {
        revision = remote.revision;
        state_hash = remote.state_hash;
        resource_hashes = remote.resource_hashes;
        last_sync = some now;
        cached_remote = some remote;
      })
      pure (record { up_to_date = false; remote_revision = remote.revision })

    -- `syncPull`
    unfoldable pub sync_pull : Option String → ℕ → Effect Fault (Disk W Data) SyncPullResult
    sync_pull config now = do
      project_id ← require_project_id config
      require_session client
      state ← read_local_state
      remote ← outside (client.get_state project_id)
      adopt state now remote
