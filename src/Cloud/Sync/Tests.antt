-- ===== src/Cloud/Sync/Tests.antt =====
-- src/cloud/sync-engine.ts against a server that takes every push and counts its revision up.
use dbdock.Cloud.Sync.Going.{IsTally}
use dbdock.Cloud.Queue.Jobs.{Conserved}
use dbdock.Cloud.Dict.{Dict}
use dbdock.Cloud.Diff.{SnapshotEntry, diff_snapshot}
use dbdock.Base.{
  Option, ℕ, ◌+◌, ◌≡◌, refl, ◌≢◌, String, true, false, none, some, [], ◌∷◌, codes, arith, map,
}
use dbdock.Base.Effect.{ok, ◌>>=◌}
use dbdock.Base.Triple.{Outcome}
use dbdock.Cloud.Types.{PendingJob, default_local_state}
use dbdock.Cloud.Queue.{due_jobs, mark_acked}
use dbdock.Cloud.Queue.Laws.{IsQueue}
use dbdock.Cloud.Sync.{
  SyncClient, Applied, Disk, Loop, Moment, drain, drain_jobs, drain_job, apply_ack, require_session,
  outside, try_job, push_job, learn_revision, remote_call, read_loop, write_loop, acknowledge,
  conflicting,
}
use dbdock.Cloud.Sync.Forced.{Answers}
use dbdock.Cloud.Sync.Sent.{Sent, drain-Sent}
use dbdock.Cloud.Sync.Drain.{TurnOf, drain_job-TurnOf}
use dbdock.Cloud.Sync.Totals.{drain-IsTally}
use dbdock.Cloud.Sync.Commands.{sync_push, job_of}
use dbdock.Cloud.Sync.Pushes.{Pushed, KeptJobs, sync_push-Pushed}
use dbdock.Cloud.Sync.Refusal.{refusing, acking, drain_jobs-same_base}

abbrev job : String → PendingJob ℕ
job id = record {
  id = id;
  idempotency_key = id;
  base_revision = 4;
  changes = [];
  events = [];
  attempts = 0;
  next_attempt_at = 0;
  created_at = 0;
}

abbrev moment : ℕ → Moment
moment i = record { now = 100; random = record { draw = 1; scale = 2 } }

-- The world is the server's revision.
abbrev applied_at : ℕ → Applied
applied_at revision = record { revision = revision; state_hash = codes "s"; resource_hashes = [] }

abbrev server : SyncClient ℕ ℕ
server = record {
  load_session = λ w. (ok true, w);
  get_state =
      λ p w. (ok (some (record { revision = w; state_hash = none; resource_hashes = [] })), w);
  push_sync = λ p payload key w. (ok (applied_at (w + 1)), w + 1);
}

abbrev disk : Disk ℕ ℕ
disk = record {
  world = 4;
  saved = record (default_local_state none) { pending = job "a" ∷ job "b" ∷ [] };
}

abbrev loop : Loop ℕ ℕ
loop = record {
  disk = disk;
  state = disk.saved;
  known = some 4;
  result = record {
    attempted = 0;
    acked = 0;
    failed = 0;
    deadlettered = 0;
    conflict = false;
    remote_revision = none;
  };
}

-- Of two jobs at one revision the first is sent, and the second is left in the queue.
drain_test :
    map {B = String} (λ j. j.id) (drain server "p" false 50 moment disk).1.saved.pending ≡ "b" ∷ []
unfolding drain require_session outside drain_jobs drain_job try_job push_job learn_revision
    remote_call read_loop write_loop acknowledge conflicting due_jobs mark_acked apply_ack ◌>>=◌
drain_test = refl

drain_job-TurnOf_example :
    TurnOf
      (moment 0)
      (job "a")
      loop
      (drain_job server "p" false (moment 0) (job "a") loop).0
      (drain_job server "p" false (moment 0) (job "a") loop).1
drain_job-TurnOf_example = drain_job-TurnOf server "p" false (moment 0) (job "a") loop

drain-IsTally_example :
    Outcome
      (λ r after.
        IsTally r
        × Conserved disk.saved (due_jobs disk.saved 50) r.acked after.saved
        × IsQueue after.saved.pending)
      (λ after. (after.saved ≡ disk.saved) × ((server.load_session 4).0 ≢ ok true))
      (drain server "p" false 50 moment disk)
drain-IsTally_example = drain-IsTally server "p" false moment 50 disk (refl, (refl, tt))

drain_jobs-same_base_example :
    drain_jobs server "p" false moment 0 (job "a" ∷ job "b" ∷ []) loop
    ≡ refusing 5 (acking (moment 0) (job "a") (applied_at 5) 5 loop)
drain_jobs-same_base_example =
    drain_jobs-same_base server "p" moment 0 (job "a") (job "b") [] loop refl refl refl
      (ground arith)

-- A resource that was not there at the last synchronisation.
abbrev resources : Dict (SnapshotEntry ℕ)
resources = (codes "r", record { hash = codes "h"; content = 7 }) ∷ []

abbrev made : Option (PendingJob ℕ)
made = job_of "c" "key" 50 disk.saved (diff_snapshot disk.saved.resource_hashes resources)

sync_push-Pushed_example :
    Outcome
      (Pushed server "p" false moment 50 disk made)
      (KeptJobs server "p" false moment 50 disk made)
      (sync_push server (some "p") false resources "c" "key" 50 moment disk)
sync_push-Pushed_example =
    sync_push-Pushed server "p" false moment 50 disk resources "c" "key" refl (refl, (refl, tt))
      refl

server-Answers : Answers server
server-Answers = record { session = λ w. refl; state_of = λ w p. tt; push = λ w p payload key. tt }

drain-Sent_example : Outcome (Sent 50 disk "b") (λ _. ⊥) (drain server "p" true 50 moment disk)
drain-Sent_example = drain-Sent server server-Answers "p" moment 50 disk "b"
