-- ===== src/Cloud/Sync/Refusal.antt =====
-- src/cloud/sync-engine.ts: the refusal of a job that was made at another revision than the server's.
use dbdock.Base.{ℕ, ◌+◌, ◌≡◌, refl, ◌≢◌, String, true, false, some, List, ◌∷◌, arith, ◌==◌}
use dbdock.Base.Effect.{ok, ◌>>=◌}
use dbdock.Cloud.Types.{PendingJob, LocalState}
use dbdock.Cloud.Queue.{mark_acked}
use dbdock.Cloud.Sync.{
  SyncClient, SyncPayload, Applied, Loop, Moment, stop, next, drain_job, drain_jobs, try_job,
  learn_revision, read_loop, write_loop, conflicting, push_job, remote_call, acknowledge, apply_ack,
}

module _ {Data : Type 0} where
  -- What a turn sends for its job, where the force is off.
  abbrev pub payload_of : LocalState Data → PendingJob Data → SyncPayload Data
  payload_of state job = record {
    base_revision = job.base_revision;
    client_state_hash = state.state_hash;
    changes = job.changes;
    events = job.events;
  }

module _ {W Data : Type 0} where
  -- A turn that is refused at revision `r`.
  abbrev pub refusing : ℕ → Loop W Data → Loop W Data
  refusing r l = record l {
    result = record l.result {
      attempted = l.result.attempted + 1;
      conflict = true;
      remote_revision = some r;
    };
    known = some r;
  }

  -- A turn that is acknowledged with `applied`, in the world `w`.
  abbrev pub acking : Moment → PendingJob Data → Applied → W → Loop W Data → Loop W Data
  acking m job applied w l = record l {
    disk = record { world = w; saved = mark_acked (apply_ack l.state applied m.now) job.id };
    state = mark_acked (apply_ack l.state applied m.now) job.id;
    known = some applied.revision;
    result = record l.result {
      attempted = l.result.attempted + 1;
      acked = l.result.acked + 1;
      remote_revision = some job.base_revision;
    };
  }

module _ {W Data : Type 0} (client : SyncClient W Data) (project_id : String)
    (at : ℕ → Moment) where
  drain_job-stale :
      (m : Moment) (job : PendingJob Data) (l : Loop W Data) (r : ℕ)
      → l.known ≡ some r
      → (r == job.base_revision) ≡ false
      → drain_job client project_id false m job l ≡ (stop, refusing r l)
  unfolding drain_job try_job learn_revision read_loop write_loop conflicting ◌>>=◌
  drain_job-stale m job l r k h = rw (k, h)

  drain_jobs-stale :
      (i : ℕ) (job : PendingJob Data) (rest : List (PendingJob Data)) (l : Loop W Data) (r : ℕ)
      → l.known ≡ some r
      → (r == job.base_revision) ≡ false
      → drain_jobs client project_id false at i (job ∷ rest) l ≡ refusing r l
  unfolding drain_jobs
  drain_jobs-stale i job rest l r k h = rw (drain_job-stale (at i) job l r k h)

  drain_job-acked :
      (m : Moment) (job : PendingJob Data) (l : Loop W Data) {applied : Applied} {w : W}
      → l.known ≡ some job.base_revision
      → (job.base_revision == job.base_revision) ≡ true
      → client.push_sync project_id (payload_of l.state job) job.idempotency_key l.disk.world
        ≡ (ok applied, w)
      → drain_job client project_id false m job l ≡ (next, acking m job applied w l)
  unfolding drain_job try_job push_job learn_revision remote_call read_loop write_loop acknowledge
      ◌>>=◌
  drain_job-acked m job l k same answer = rw (k, same, answer)

  -- Two jobs made at one revision, the force off: once the server has taken the first and answered
  -- with another revision, the loop refuses the second, reports a conflict, and stops, with the
  -- second job and all after it as they were in the queue.
  pub drain_jobs-same_base :
      (i : ℕ) (job other : PendingJob Data) (rest : List (PendingJob Data)) (l : Loop W Data)
      {applied : Applied} {w : W}
      → l.known ≡ some job.base_revision
      → client.push_sync project_id (payload_of l.state job) job.idempotency_key l.disk.world
        ≡ (ok applied, w)
      → other.base_revision ≡ job.base_revision
      → applied.revision ≢ job.base_revision
      → drain_jobs client project_id false at i (job ∷ other ∷ rest) l
        ≡ refusing applied.revision (acking (at i) job applied w l)
  unfolding drain_jobs
  drain_jobs-same_base i job other rest l {applied} k answer same moved = rw (
    drain_job-acked (at i) job l k (ground arith) answer,
    drain_job-stale (at (i + 1)) other (acking (at i) job applied _ l) applied.revision refl
        (ground arith),
  )
