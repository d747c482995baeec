-- ===== src/Cloud/Queue/Tests.antt =====
-- src/cloud/queue.ts at a queue of two jobs.
use dbdock.Base.{List, ◌++◌, ℕ, ◌/◌, ◌≤◌, ◌≡◌, refl, String, none, [], ◌∷◌, map, arith}
use dbdock.Cloud.Types.{PendingJob, LocalState, default_local_state}
use dbdock.Cloud.Queue.{
  Draw, capped, compute_backoff, mark_failed, fail_job, default_max_attempts, max_backoff_ms,
}
use dbdock.Cloud.Queue.Laws.{IsMoved, mark_failed-IsMoved, compute_backoff-bounds}

abbrev pub job : String → ℕ → PendingJob ℕ
job id attempts = record {
  id = id;
  idempotency_key = id;
  base_revision = 4;
  changes = [];
  events = [];
  attempts = attempts;
  next_attempt_at = 0;
  created_at = 0;
}

abbrev pub half : Draw
half = record { draw = 1; scale = 2 }

abbrev queue : LocalState ℕ
queue = record (default_local_state none) { pending = job "a" 2 ∷ job "b" 7 ∷ [] }

backoff_test : compute_backoff 3 half ≡ 6000
unfolding compute_backoff capped
backoff_test = refl

again_test :
    map {B = ℕ × ℕ}
      (λ j. (j.attempts, j.next_attempt_at))
      (mark_failed queue "a" default_max_attempts 100 half).pending
    ≡ (7, 0) ∷ (3, 6100) ∷ []
unfolding mark_failed fail_job compute_backoff capped
again_test = refl

mark_failed-IsMoved_example :
    (j : PendingJob ℕ) × (before : List (PendingJob ℕ)) × (after : List (PendingJob ℕ))
    × (queue.pending ≡ before ++ j ∷ after)
    × (j.id ≡ "b")
    × IsMoved queue "b" default_max_attempts 100 half j before after
        (mark_failed queue "b" default_max_attempts 100 half)
mark_failed-IsMoved_example =
    mark_failed-IsMoved queue "b" default_max_attempts 100 half (refl, (refl, tt)) refl

compute_backoff-bounds_example :
    (capped 3 / 2 ≤ compute_backoff 3 half)
    × (compute_backoff 3 half ≤ capped 3)
    × (compute_backoff 3 half ≤ max_backoff_ms)
compute_backoff-bounds_example = compute_backoff-bounds 3 half (omega arith)
