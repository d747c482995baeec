-- ===== src/Cloud/Queue.antt =====
-- src/cloud/queue.ts. `Math.random()` is a fraction `draw / scale`, with `draw < scale`, which the
-- environment chooses.
pub mod Laws
pub mod Jobs
pub mod Tests
use Prim.Native.Nat.{min}
use dbdock.Base.{
  ℕ, ◌+◌, ◌*◌, ◌/◌, ◌^◌, String, str_eq, not, Option, none, some, List, [], ◌∷◌, ◌++◌, filter,
  find?, leb, if◌then◌else◌,
}
use dbdock.Cloud.Types.{PendingJob, LocalState}

abbrev pub base_backoff_ms : ℕ
base_backoff_ms = 1000

abbrev pub max_backoff_ms : ℕ
max_backoff_ms = 60_000

abbrev pub default_max_attempts : ℕ
default_max_attempts = 8

-- What one call of `Math.random()` gave.
pub record Draw : Type 0 where
  pub draw : ℕ
  pub scale : ℕ

-- `Math.min(BASE_BACKOFF_MS * 2 ** attempts, MAX_BACKOFF_MS)`
unfoldable pub capped : ℕ → ℕ
capped attempts = min (base_backoff_ms * 2 ^ attempts) max_backoff_ms

-- `computeBackoff`: `Math.floor(exp / 2 + Math.random() * (exp / 2))`
unfoldable pub compute_backoff : ℕ → Draw → ℕ
compute_backoff attempts r = (capped attempts * r.scale + capped attempts * r.draw) / (2 * r.scale)

module _ {Data : Type 0} where
  unfoldable pub enqueue : LocalState Data → PendingJob Data → LocalState Data
  enqueue state job = record state { pending = state.pending ++ job ∷ [] }

  -- `dueJobs`
  unfoldable pub due_jobs : LocalState Data → ℕ → List (PendingJob Data)
  due_jobs state now = filter (λ job. leb job.next_attempt_at now) state.pending

  abbrev pub without : String → List (PendingJob Data) → List (PendingJob Data)
  without job_id jobs = filter (λ j. not (str_eq j.id job_id)) jobs

  -- `markAcked`
  unfoldable pub mark_acked : LocalState Data → String → LocalState Data
  mark_acked state job_id = record state { pending = without job_id state.pending }

  unfoldable pub fail_job :
      Option (PendingJob Data) → LocalState Data → String → ℕ → ℕ → Draw → LocalState Data
  fail_job none state job_id max_attempts now r = state
  fail_job (some job) state job_id max_attempts now r =
      let attempts = job.attempts + 1 in
      let pending = without job_id state.pending in
      if leb max_attempts attempts
      then record state {
        pending = pending;
        deadletter = state.deadletter ++ record job { attempts = attempts } ∷ [];
      }
      else record state {
        pending =
            pending
            ++ record job {
              attempts = attempts;
              next_attempt_at = now + compute_backoff attempts r;
            }
              ∷ [];
      }

  -- `markFailed`
  unfoldable pub mark_failed : LocalState Data → String → ℕ → ℕ → Draw → LocalState Data
  unfolding fail_job
  mark_failed state job_id max_attempts now r =
      fail_job (find? (λ j. str_eq j.id job_id) state.pending) state job_id max_attempts now r
