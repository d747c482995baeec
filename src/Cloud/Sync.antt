-- ===== src/Cloud/Sync.antt =====
-- src/cloud/sync-engine.ts: the push, the pull and the loop that drains the queue. The server, the
-- session and the clock are parameters. The state file is a field: its writes do not fail here.
pub mod Commands
pub mod Drain
pub mod Forced
pub mod Steps
pub mod Sent
pub mod Going
pub mod Totals
pub mod Pushes
pub mod Refusal
pub mod Tests
use dbdock.Base.{
  ℕ, ◌+◌, String, str_eq, Text, Bool, true, false, ◌&&◌, not, Option, none, some, List, [], ◌∷◌,
  length, ltb, ◌==◌, if◌then◌else◌,
}
use dbdock.Base.Effect.{Effect, Result, ok, err, pure, throw, ◌>>=◌, ◌>>◌}
use dbdock.Cloud.Types.{SyncChange, SyncEvent, PendingJob, RemoteState, LocalState}
use dbdock.Cloud.Dict.{Dict}
use dbdock.Cloud.Queue.{Draw, due_jobs, mark_acked, mark_failed, default_max_attempts}

-- What a call may throw: `ApiError`, `NetworkError`, `NotAuthenticatedError`, `NoProjectError`,
-- and anything else.
pub data Fault : Type 0 where
  api_error : ℕ → Fault
  network_error not_authenticated no_project other : Fault

-- The answer of `pushSync`, less the number of changes applied, which no code of this part reads.
pub record Applied : Type 0 where
  pub revision : ℕ
  pub state_hash : Text
  pub resource_hashes : Dict Text

pub record SyncPayload (Data : Type 0) : Type 0 where
  pub base_revision : ℕ
  pub client_state_hash : Option Text
  pub changes : List (SyncChange Data)
  pub events : List SyncEvent

-- The calls of src/cloud/api-client.ts and src/cloud/session.ts on an outside world `W`.
pub record SyncClient (W Data : Type 0) : Type 0 where
  -- Whether the session has a token.
  pub load_session : Effect Fault W Bool
  pub get_state : String → Effect Fault W (Option RemoteState)
  -- The last argument is the job's idempotency key.
  pub push_sync : String → SyncPayload Data → String → Effect Fault W Applied

pub record DrainResult : Type 0 where
  pub attempted : ℕ
  pub acked : ℕ
  pub failed : ℕ
  pub deadlettered : ℕ
  pub conflict : Bool
  pub remote_revision : Option ℕ

pub record SyncStatusResult : Type 0 where
  pub local_revision : ℕ
  pub remote_revision : Option ℕ
  pub in_sync : Bool
  pub pending : ℕ
  pub deadletter : ℕ
  pub last_sync : Option ℕ
  pub remote_reachable : Bool

-- The clock and the random draw during one turn of the loop.
pub record Moment : Type 0 where
  pub now : ℕ
  pub random : Draw

-- The end of a turn: the loop goes on, or `break`.
pub data Turn : Type 0 where
  next stop : Turn

-- `requireProjectId`: an empty id counts as none.
pub require_project_id : {W : Type 0} → Option String → Effect Fault W String
require_project_id none = throw no_project
require_project_id (some id) = if str_eq id "" then throw no_project else pure id

abbrev pub revision_or : Option RemoteState → ℕ → ℕ
revision_or none revision = revision
revision_or (some remote) revision = remote.revision

abbrev empty_result : DrainResult
empty_result = record {
  attempted = 0;
  acked = 0;
  failed = 0;
  deadlettered = 0;
  conflict = false;
  remote_revision = none;
}

-- The outside world, and the content of the state file.
pub record Disk (W Data : Type 0) : Type 0 where
  pub world : W
  pub saved : LocalState Data

-- The variables of `drain`.
pub record Loop (W Data : Type 0) : Type 0 where
  pub disk : Disk W Data
  pub state : LocalState Data
  pub known : Option ℕ
  pub result : DrainResult

-- `applyAck`
unfoldable pub apply_ack : {Data : Type 0} → LocalState Data → Applied → ℕ → LocalState Data
apply_ack state applied now = record state {
  revision = applied.revision;
  state_hash = some applied.state_hash;
  resource_hashes = applied.resource_hashes;
  last_sync = some now;
}

module _ {W Data : Type 0} where
  abbrev pub on_disk :
      {A : Type 0} → Disk W Data → Result Fault A × W → Result Fault A × Disk W Data
  on_disk d (r, w) = (r, record d { world = w })

  abbrev pub in_loop :
      {A : Type 0} → Loop W Data → Result Fault A × W → Result Fault A × Loop W Data
  in_loop l (r, w) = (r, record l { disk = record l.disk { world = w } })

  unfoldable pub outside : {A : Type 0} → Effect Fault W A → Effect Fault (Disk W Data) A
  outside m d = on_disk d (m d.world)

  unfoldable pub remote_call : {A : Type 0} → Effect Fault W A → Effect Fault (Loop W Data) A
  remote_call m l = in_loop l (m l.disk.world)

  -- `state = ...; writeLocalState(state)`
  abbrev pub set_state : LocalState Data → Loop W Data → Loop W Data
  set_state s l = record l { state = s; disk = record l.disk { saved = s } }

  abbrev pub set_result : DrainResult → Loop W Data → Loop W Data
  set_result r l = record l { result = r }

  unfoldable pub read_loop : Effect Fault (Loop W Data) (Loop W Data)
  read_loop l = (ok l, l)

  unfoldable pub write_loop : Loop W Data → Effect Fault (Loop W Data) Unit
  write_loop l _ = (ok tt, l)

  -- The `result.conflict = true; break` of both branches.
  unfoldable pub conflicting : Loop W Data → Loop W Data
  conflicting l = set_result (record l.result { conflict = true }) l

  unfoldable pub acknowledge : Moment → PendingJob Data → Applied → Loop W Data → Loop W Data
  acknowledge m job applied l =
      set_result (record l.result { acked = l.result.acked + 1 })
        (record (set_state (mark_acked (apply_ack l.state applied m.now) job.id) l) {
          known = some applied.revision;
        })

  -- The rest of the loop, or none of it after a `break`.
  abbrev pub resume : Turn × Loop W Data → (Loop W Data → Loop W Data) → Loop W Data
  resume (stop, after) more = after
  resume (next, after) more = more after

  module _ (client : SyncClient W Data) where
    -- `knownRemoteRevision`, asked for where it is `null`.
    unfoldable pub learn_revision : String → Option ℕ → Effect Fault (Loop W Data) ℕ
    learn_revision project_id (some revision) = pure revision
    learn_revision project_id none = do
      remote ← remote_call (client.get_state project_id)
      l ← read_loop
      pure (revision_or remote l.state.revision)

    unfoldable pub push_job :
        String → Bool → Moment → PendingJob Data → ℕ → Effect Fault (Loop W Data) Turn
    push_job project_id force m job known = do
      l ← read_loop
      applied ← remote_call (
          client.push_sync project_id
            (record {
              base_revision = if force then known else job.base_revision;
              client_state_hash = l.state.state_hash;
              changes = job.changes;
              events = job.events;
            })
            job.idempotency_key)
      l ← read_loop
      write_loop (acknowledge m job applied l)
      pure next

    -- The body of `try`.
    unfoldable pub try_job :
        String → Bool → Moment → PendingJob Data → Effect Fault (Loop W Data) Turn
    try_job project_id force m job = do
      l ← read_loop
      known ← learn_revision project_id l.known
      l ← read_loop
      write_loop (record l {
        known = some known;
        result = record l.result { remote_revision = some known };
      })
      if not (known == job.base_revision) && not force
          then (do l ← read_loop; write_loop (conflicting l); pure stop)
          else push_job project_id force m job known

    -- The two kinds of failure that mark the job.
    unfoldable pub retry_later : Moment → PendingJob Data → Loop W Data → Loop W Data
    retry_later m job l =
        set_result (record l.result { failed = l.result.failed + 1 })
          (set_state (mark_failed l.state job.id default_max_attempts m.now m.random) l)

    unfoldable pub give_up : Moment → PendingJob Data → Loop W Data → Loop W Data
    give_up m job l =
        let state = mark_failed l.state job.id 1 m.now m.random in
        set_result
          (if ltb (length l.state.deadletter) (length state.deadletter)
            then record l.result { deadlettered = l.result.deadlettered + 1 }
            else record l.result { failed = l.result.failed + 1 })
          (set_state state l)

    -- The body of `catch`.
    unfoldable pub catch_fault : Moment → PendingJob Data → Fault → Loop W Data → Turn × Loop W Data
    catch_fault m job (api_error status) l =
        if status == 409
        then (stop, conflicting (record l { known = none }))
        else (next, give_up m job (record l { known = none }))
    catch_fault m job network_error l = (next, retry_later m job (record l { known = none }))
    catch_fault m job not_authenticated l = (next, give_up m job (record l { known = none }))
    catch_fault m job no_project l = (next, give_up m job (record l { known = none }))
    catch_fault m job other l = (next, give_up m job (record l { known = none }))

    abbrev pub settled :
        Moment → PendingJob Data → Result Fault Turn × Loop W Data → Turn × Loop W Data
    settled m job (ok t, l) = (t, l)
    settled m job (err e, l) = catch_fault m job e l

    abbrev pub count_attempt : Loop W Data → Loop W Data
    count_attempt l = set_result (record l.result { attempted = l.result.attempted + 1 }) l

    -- One turn of the loop.
    unfoldable pub drain_job :
        String → Bool → Moment → PendingJob Data → Loop W Data → Turn × Loop W Data
    drain_job project_id force m job l =
        settled m job (try_job project_id force m job (count_attempt l))

    -- The moments are those of the turns, by their index.
    unfoldable pub drain_jobs :
        String → Bool → (ℕ → Moment) → ℕ → List (PendingJob Data) → Loop W Data → Loop W Data
    drain_jobs project_id force at i [] l = l
    drain_jobs project_id force at i (job ∷ jobs) l =
        resume (drain_job project_id force (at i) job l)
          (λ after. drain_jobs project_id force at (i + 1) jobs after)

    abbrev pub start : Disk W Data → Loop W Data
    start d = record { disk = d; state = d.saved; known = none; result = empty_result }

    -- `requireSession`
    unfoldable pub require_session : Effect Fault (Disk W Data) Unit
    require_session = do
      token ← outside client.load_session
      if token then pure tt else throw not_authenticated

    abbrev pub drained : Loop W Data → Result Fault DrainResult × Disk W Data
    drained l = (ok l.result, l.disk)

    -- `drain`, where `now` is the time at which the due jobs are chosen.
    unfoldable pub drain : String → Bool → ℕ → (ℕ → Moment) → Effect Fault (Disk W Data) DrainResult
    drain project_id force now at = do
      require_session
      λ d. drained (drain_jobs project_id force at 0 (due_jobs d.saved now) (start d))
