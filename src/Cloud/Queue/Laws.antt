-- ===== src/Cloud/Queue/Laws.antt =====
-- src/cloud/queue.ts: jobs of distinct ids are neither lost nor doubled, and attempts are bounded.
use native.Mathlib.Nat.{
  mul_assoc, mul-le-mul_right, mul-le-mul_left, div-mul-le_self, div-lt_iff_lt-mul,
  le-div_iff_mul-le, le_trans, min-le_right,
}
use dbdock.Base.{
  ap, ◌∙◌, ℕ, ◌+◌, ◌*◌, ◌/◌, ◌≤◌, ◌<◌, ◌≡◌, refl, sym, String, str_eq, eq_iff, Bool, true, false,
  ◌&&◌, not, Option, none, some, List, [], ◌∷◌, ◌++◌, find?, any, leb, length, length-append, All,
  All-append, All-filter, any-append, arith, Bool-cases, inl, inr,
}
use dbdock.Cloud.Types.{PendingJob, LocalState}
use dbdock.Cloud.Queue.{
  Draw, capped, compute_backoff, without, fail_job, mark_failed, max_backoff_ms,
}

module _ {Data : Type 0} where
  -- A job of this id is there.
  abbrev pub has_id : String → List (PendingJob Data) → Bool
  has_id id jobs = any (λ j. str_eq j.id id) jobs

  -- No two jobs have one id.
  abbrev pub IsQueue : List (PendingJob Data) → Type 0
  IsQueue [] = Unit
  IsQueue (job ∷ jobs) = (has_id job.id jobs ≡ false) × IsQueue jobs

  pub has_id-without :
      (i k : String) (jobs : List (PendingJob Data))
      → has_id i (without k jobs) ≡ (has_id i jobs && not (str_eq i k))
  has_id-without i k [] = refl
  has_id-without i k (j ∷ jobs) =
      ground (arith, eq_iff j.id k, eq_iff j.id i, eq_iff i k, has_id-without i k jobs)

  pub IsQueue-without :
      (k : String) (jobs : List (PendingJob Data)) → IsQueue jobs → IsQueue (without k jobs)
  IsQueue-without k [] h = tt
  IsQueue-without k (j ∷ jobs) h =
      ground (arith, has_id-without j.id k jobs, IsQueue-without k jobs h.1)

  without-absent :
      (k : String) (jobs : List (PendingJob Data)) → has_id k jobs ≡ false → without k jobs ≡ jobs
  without-absent k [] h = refl
  without-absent k (j ∷ jobs) h = ground (arith, without-absent k jobs)

  pub IsQueue-snoc :
      (jobs : List (PendingJob Data)) (job : PendingJob Data)
      → IsQueue jobs
      → has_id job.id jobs ≡ false
      → IsQueue (jobs ++ job ∷ [])
  IsQueue-snoc [] job h n = (refl, tt)
  IsQueue-snoc (j ∷ jobs) job h n = ground (
    arith,
    any-append (λ i. str_eq i.id j.id) jobs (job ∷ []),
    eq_iff j.id job.id,
    eq_iff job.id j.id,
    IsQueue-snoc jobs job h.1,
  )

  -- Where the job of an id stands in the queue, and what is left without it.
  pub record StandsAt (k : String) (jobs : List (PendingJob Data)) (job : PendingJob Data)
      (before after : List (PendingJob Data)) : Type 0 where
    pub queue_is : jobs ≡ before ++ job ∷ after
    pub id_is : job.id ≡ k
    pub rest_is : without k jobs ≡ before ++ after

  -- The place of the job that `find` finds.
  pub record IsFound (k : String) (jobs : List (PendingJob Data)) : Type 0 where
    pub job : PendingJob Data
    pub before : List (PendingJob Data)
    pub after : List (PendingJob Data)
    pub found : find? (λ j. str_eq j.id k) jobs ≡ some job
    pub stands : StandsAt k jobs job before after

  pub has_id-IsFound :
      (k : String) (jobs : List (PendingJob Data))
      → IsQueue jobs
      → has_id k jobs ≡ true
      → IsFound k jobs
  has_id-IsFound k [] q h = absurd (ground arith)
  has_id-IsFound k (j ∷ jobs) q h = elim (Bool-cases (str_eq j.id k)) [
    | inl same ↦
        let id : j.id ≡ k = (eq_iff j.id k).0 same in
        record {
          job = j;
          before = [];
          after = jobs;
          found = rw same refl;
          stands = record {
            queue_is = refl;
            id_is = id;
            rest_is = rw same (without-absent k jobs (ap (λ i. has_id i jobs) (sym id) ∙ q.0));
          };
        }
    | inr off ↦
        let f = has_id-IsFound k jobs q.1 (ground arith) in
        record {
          job = f.job;
          before = j ∷ f.before;
          after = f.after;
          found = rw off f.found;
          stands = record {
            queue_is = ap (λ l. j ∷ l) f.stands.queue_is;
            id_is = f.stands.id_is;
            rest_is = rw off (ap (λ l. j ∷ l) f.stands.rest_is);
          };
        }
  ]

  pub dead-fail_job :
      (state : LocalState Data) (k : String) (now : ℕ) (r : Draw) (j : PendingJob Data)
      → length (fail_job (some j) state k 1 now r).deadletter ≡ length state.deadletter + 1
  unfolding fail_job
  dead-fail_job state k now r j =
      ground (arith, length-append state.deadletter (record j { attempts = j.attempts + 1 } ∷ []))

  module _ (state : LocalState Data) (k : String) (max now : ℕ) (r : Draw) where
    -- The job as it goes back to the queue.
    abbrev again : PendingJob Data → PendingJob Data
    again j = record j {
      attempts = j.attempts + 1;
      next_attempt_at = now + compute_backoff (j.attempts + 1) r;
    }

    IsQueue-fail_job :
        (j : PendingJob Data)
        → str_eq j.id k ≡ true
        → IsQueue state.pending
        → IsQueue (fail_job (some j) state k max now r).pending
    unfolding fail_job
    IsQueue-fail_job j same h = ground (
      arith,
      eq_iff j.id k,
      IsQueue-without k state.pending h,
      has_id-without j.id k state.pending,
      IsQueue-snoc (without k state.pending) (again j) (IsQueue-without k state.pending h),
    )

    has_id-fail_job :
        (i : String) (j : PendingJob Data)
        → str_eq i k ≡ false
        → has_id i state.pending ≡ true
        → has_id i (fail_job (some j) state k max now r).pending ≡ true
    unfolding fail_job
    has_id-fail_job i j apart h = ground (
      arith,
      has_id-without i k state.pending,
      any-append (λ j. str_eq j.id i) (without k state.pending) (again j ∷ []),
    )

    -- What a failure makes of the job `j` that stands between `before` and `after`: it waits at the
    -- end of the queue for another attempt, or is given up.
    pub data IsMoved (j : PendingJob Data) (before after : List (PendingJob Data))
        : LocalState Data → Type 0 where
      waiting :
          {t : LocalState Data}
          → j.attempts + 1 < max
          → t.pending ≡ (before ++ after) ++ again j ∷ []
          → t.deadletter ≡ state.deadletter
          → IsMoved j before after t
      dead :
          {t : LocalState Data}
          → max ≤ j.attempts + 1
          → t.pending ≡ before ++ after
          → t.deadletter ≡ state.deadletter ++ record j { attempts = j.attempts + 1 } ∷ []
          → IsMoved j before after t

    IsMoved-fail_job :
        (j : PendingJob Data) (before after : List (PendingJob Data))
        → without k state.pending ≡ before ++ after
        → IsMoved j before after (fail_job (some j) state k max now r)
    unfolding fail_job
    IsMoved-fail_job j before after rest = elim (Bool-cases (leb max (j.attempts + 1))) [
      | inl full ↦ rw full (dead (ground arith) rest refl)
      | inr room ↦ rw room (waiting (ground arith) (ap (λ l. l ++ again j ∷ []) rest) refl)
    ]

    -- A failure of a queued job, in a queue of distinct ids, takes the one job of that id out of its
    -- place and changes no other. While its attempts, with this one, are below the maximum, it goes
    -- to the end of the queue, with that count and the time of its backoff from now; else it is the
    -- last dead letter, with that count.
    pub mark_failed-IsMoved :
        IsQueue state.pending
        → has_id k state.pending ≡ true
        → (j : PendingJob Data) × (before : List (PendingJob Data)) × (after : List
            (PendingJob Data))
          × (state.pending ≡ before ++ j ∷ after)
          × (j.id ≡ k)
          × IsMoved j before after (mark_failed state k max now r)
    unfolding mark_failed
    mark_failed-IsMoved q there =
        let f = has_id-IsFound k state.pending q there in
        (
          f.job,
          f.before,
          f.after,
          f.stands.queue_is,
          f.stands.id_is,
          rw f.found (IsMoved-fail_job f.job f.before f.after f.stands.rest_is),
        )

    pub IsQueue-mark_failed :
        IsQueue state.pending
        → has_id k state.pending ≡ true
        → IsQueue (mark_failed state k max now r).pending
    unfolding mark_failed
    IsQueue-mark_failed q there =
        let f = has_id-IsFound k state.pending q there in
        rw f.found (IsQueue-fail_job f.job ((eq_iff f.job.id k).1 f.stands.id_is) q)

    pub has_id-mark_failed :
        (i : String)
        → IsQueue state.pending
        → has_id k state.pending ≡ true
        → str_eq i k ≡ false
        → has_id i state.pending ≡ true
        → has_id i (mark_failed state k max now r).pending ≡ true
    unfolding mark_failed
    has_id-mark_failed i q there apart h =
        let f = has_id-IsFound k state.pending q there in
        rw f.found (has_id-fail_job i f.job apart h)

    -- The attempts of every job in the queue.
    abbrev pub AttemptsBelow : List (PendingJob Data) → Type 0
    AttemptsBelow jobs = All (λ j. j.attempts < max) jobs

    AttemptsBelow-fail_job :
        (o : Option (PendingJob Data))
        → AttemptsBelow state.pending
        → AttemptsBelow (fail_job o state k max now r).pending
    unfolding fail_job
    AttemptsBelow-fail_job none h = h
    AttemptsBelow-fail_job (some j) h = elim (Bool-cases (leb max (j.attempts + 1))) [
      | inl full ↦ rw full (All-filter _ _ state.pending h)
      | inr room ↦ rw room (
          All-append _ (without k state.pending) (again j ∷ []) (All-filter _ _ state.pending h)
            (ground arith, tt))
    ]

    -- A job stays in the queue only while its attempts are fewer than the maximum.
    pub mark_failed-AttemptsBelow :
        AttemptsBelow state.pending → AttemptsBelow (mark_failed state k max now r).pending
    unfolding mark_failed
    mark_failed-AttemptsBelow h = AttemptsBelow-fail_job _ h

-- A fraction between a half and the whole of `c`, rounded down.
half_lem :
    (c d s : ℕ) → d < s → (c / 2 ≤ (c * s + c * d) / (2 * s)) × ((c * s + c * d) / (2 * s) ≤ c)
half_lem c d s h =
    let positive : 0 < 2 * s = omega arith in
    let halves : c / 2 * (2 * s) ≡ c / 2 * 2 * s = sym (mul_assoc (c / 2) 2 s) in
    let below : c / 2 * 2 * s ≤ c * s = mul-le-mul_right s (div-mul-le_self c 2) in
    let smaller : c * d ≤ c * s = mul-le-mul_left c (omega arith) in
    let whole : (c + 1) * (2 * s) ≡ c * s + c * s + 2 * s = omega arith in
    let under : (c * s + c * d) / (2 * s) < c + 1 = (div-lt_iff_lt-mul positive).1 (omega arith) in
    ((le-div_iff_mul-le positive).1 (omega arith), omega arith)

module _ (attempts : ℕ) (r : Draw) where
  -- The wait before a retry lies between a half of the capped exponential and the whole of it, and
  -- is at most a minute, for a draw below one.
  pub compute_backoff-bounds :
      r.draw < r.scale
      → (capped attempts / 2 ≤ compute_backoff attempts r)
        × (compute_backoff attempts r ≤ capped attempts)
        × (compute_backoff attempts r ≤ max_backoff_ms)
  unfolding compute_backoff capped
  compute_backoff-bounds h =
      let halves = half_lem (capped attempts) r.draw r.scale h in
      (halves.0, halves.1, le_trans halves.1 (min-le_right _ _))
