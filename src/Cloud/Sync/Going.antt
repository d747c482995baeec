-- ===== src/Cloud/Sync/Going.antt =====
-- src/cloud/sync-engine.ts: what holds between two turns of the loop that drains the queue.
use dbdock.Cloud.Queue.Jobs.{Conserved, Conserved-trans, Conserved-mark_acked, Perm-mark_failed}
use mathlib.Core.Path.{subst}
use dbdock.Base.{
  ℕ, ◌+◌, ◌≡◌, refl, String, str_eq, Bool, true, false, List, [], ◌∷◌, arith, length, ltb, All,
  if◌then◌else◌, sym, ap, ◌∙◌,
}
use dbdock.Cloud.Types.{PendingJob, LocalState}
use dbdock.Cloud.Queue.{Draw, mark_acked, mark_failed, default_max_attempts}
use dbdock.Cloud.Queue.Laws.{
  dead-fail_job, has_id, IsQueue, has_id-without, IsQueue-without, IsQueue-mark_failed,
  has_id-IsFound, has_id-mark_failed,
}
use dbdock.Cloud.Sync.{
  SyncClient, DrainResult, Loop, Moment, Turn, stop, next, drain_jobs, resume, apply_ack,
}
use dbdock.Cloud.Sync.Drain.{TurnOf, refused, acked, retried, given_up, Shows, drain_job-TurnOf}

abbrev pub conflicts : DrainResult → ℕ
conflicts r = if r.conflict then 1 else 0

-- Every attempt counted once: as acknowledged, failed, given up, or the conflict that stops.
abbrev pub IsTally : DrainResult → Type 0
IsTally r = r.attempted ≡ r.acked + r.failed + r.deadlettered + conflicts r

module _ {Data : Type 0} where
  -- All of these are in the queue.
  abbrev pub AllQueued : List (PendingJob Data) → LocalState Data → Type 0
  AllQueued jobs state = All (λ j. has_id j.id state.pending ≡ true) jobs

  -- The jobs of other ids that are queued in `s` are queued in `t`.
  abbrev Keeps : String → LocalState Data → LocalState Data → Type 0
  Keeps k s t =
      (i : String) → str_eq i k ≡ false → has_id i s.pending ≡ true → has_id i t.pending ≡ true

  AllQueued-step :
      (k : String) (s t : LocalState Data) (jobs : List (PendingJob Data))
      → has_id k jobs ≡ false
      → Keeps k s t
      → AllQueued jobs s
      → AllQueued jobs t
  AllQueued-step k s t [] n f h = tt
  AllQueued-step k s t (j ∷ jobs) n f h =
      (f j.id (ground arith) h.0, AllQueued-step k s t jobs (ground arith) f h.1)

  Keeps-mark_acked : (state : LocalState Data) (k : String) → Keeps k state (mark_acked state k)
  unfolding mark_acked
  Keeps-mark_acked state k i apart h = ground (arith, has_id-without i k state.pending)

  -- Giving a job up at once makes one more dead letter.
  dead-mark_failed :
      (state : LocalState Data) (k : String) (now : ℕ) (r : Draw)
      → IsQueue state.pending
      → has_id k state.pending ≡ true
      → length (mark_failed state k 1 now r).deadletter ≡ length state.deadletter + 1
  unfolding mark_failed
  dead-mark_failed state k now r q there =
      let f = has_id-IsFound k state.pending q there in
      rw f.found (dead-fail_job state k now r f.job)

module _ {W Data : Type 0} where
  -- What holds between two turns, from the state `s` on: no job is lost or doubled, the counters
  -- agree, and the state file holds the state.
  pub record Going (s : LocalState Data) (due : List (PendingJob Data)) (l : Loop W Data)
      : Type 0 where
    pub distinct : IsQueue l.state.pending
    pub conserved : Conserved s due l.result.acked l.state
    pub tally : IsTally l.result
    pub stored : l.disk.saved ≡ l.state

  module _ (s : LocalState Data) (due : List (PendingJob Data)) (m : Moment) (job : PendingJob Data)
      (l : Loop W Data) where
    Going-shown :
        (t : LocalState Data) (c : DrainResult) (after : Loop W Data)
        → Shows t t c after
        → IsQueue t.pending
        → Conserved s due c.acked t
        → IsTally c
        → Going s due after
    Going-shown t c after w q h tally = record {
      distinct = rw w.state_is q;
      conserved = rw (w.state_is, ap (λ c. c.acked) w.counts_are) h;
      tally = subst (λ c. IsTally c) (sym w.counts_are) tally;
      stored = w.saved_is ∙ sym w.state_is;
    }

    module _ (g : Going s due l) (quiet : l.result.conflict ≡ false)
        (there : has_id job.id l.state.pending ≡ true) (is_due : has_id job.id due ≡ true) where
      abbrev Went : Loop W Data → Type 0
      Went after =
          Going s due after × (after.result.conflict ≡ false) × Keeps job.id l.state after.state

      Went-failed :
          (max : ℕ) (c : DrainResult) (after : Loop W Data)
          → Shows
              (mark_failed l.state job.id max m.now m.random)
              (mark_failed l.state job.id max m.now m.random)
              c
              after
          → c.acked ≡ l.result.acked
          → c.conflict ≡ false
          → IsTally c
          → Went after
      Went-failed max c after w same calm tally = (
        Going-shown _ c after w
            (IsQueue-mark_failed l.state job.id max m.now m.random g.distinct there)
            (subst (λ n. Conserved s due n (mark_failed l.state job.id max m.now m.random))
              (sym same)
              (Conserved-trans s l.state (mark_failed l.state job.id max m.now m.random) due
                l.result.acked g.conserved
                (Perm-mark_failed l.state job.id g.distinct there max m.now m.random)))
            tally,
        ap (λ c. c.conflict) w.counts_are ∙ calm,
        rw w.state_is (λ i apart h.
            has_id-mark_failed l.state job.id max m.now m.random i g.distinct there apart h),
      )

      abbrev failed_now : LocalState Data
      failed_now = mark_failed l.state job.id 1 m.now m.random

      abbrev dead_result : DrainResult
      dead_result = record l.result {
        attempted = l.result.attempted + 1;
        deadlettered = l.result.deadlettered + 1;
      }

      abbrev failed_result : DrainResult
      failed_result = record l.result {
        attempted = l.result.attempted + 1;
        failed = l.result.failed + 1;
      }

      Went-turn : (after : Loop W Data) → TurnOf m job l next after → Went after
      unfolding mark_acked apply_ack
      Went-turn after (acked applied w) = (
        Going-shown _ _ after w (IsQueue-without job.id l.state.pending g.distinct)
            (Conserved-mark_acked s (apply_ack l.state applied m.now) due l.result.acked job.id
              g.conserved g.distinct there is_due)
            (ground (arith, g.tally)),
        ap (λ c. c.conflict) w.counts_are ∙ quiet,
        rw w.state_is (Keeps-mark_acked l.state job.id),
      )
      Went-turn after (retried w) =
          Went-failed default_max_attempts _ after w refl quiet (ground (arith, g.tally))
      Went-turn after (given_up w) =
          let grew : ltb (length l.state.deadletter) (length failed_now.deadletter) ≡ true =
            ground (arith, dead-mark_failed l.state job.id m.now m.random g.distinct there) in
          Went-failed 1 dead_result after
            (subst
              (λ b. Shows failed_now failed_now (if b then dead_result else failed_result) after)
              grew w)
            refl quiet (ground (arith, g.tally))

      Going-refused : (after : Loop W Data) → TurnOf m job l stop after → Going s due after
      Going-refused after (refused w) = record {
        distinct = rw w.state_is g.distinct;
        conserved = rw (w.state_is, ap (λ c. c.acked) w.counts_are) g.conserved;
        tally = subst (λ c. IsTally c) (sym w.counts_are) (ground (arith, g.tally));
        stored = w.saved_is ∙ g.stored ∙ sym w.state_is;
      }

  Going-resume :
      (s : LocalState Data) (due : List (PendingJob Data)) (m : Moment) (job : PendingJob Data)
      (l : Loop W Data) (p : Turn × Loop W Data) (more : Loop W Data → Loop W Data)
      → Going s due l
      → l.result.conflict ≡ false
      → has_id job.id l.state.pending ≡ true
      → has_id job.id due ≡ true
      → TurnOf m job l p.0 p.1
      → ((after : Loop W Data)
          → Going s due after
          → after.result.conflict ≡ false
          → Keeps job.id l.state after.state
          → Going s due (more after))
      → Going s due (resume p more)
  Going-resume s due m job l (stop, after) more g quiet there is_due t f =
      Going-refused s due m job l g quiet there is_due after t
  Going-resume s due m job l (next, after) more g quiet there is_due t f =
      let went = Went-turn s due m job l g quiet there is_due after t in
      f after went.0 went.1 went.2

  module _ (client : SyncClient W Data) (project_id : String) (force : Bool) (at : ℕ → Moment)
      (s : LocalState Data) (due : List (PendingJob Data)) where
    pub Going-drain_jobs :
        (i : ℕ) (jobs : List (PendingJob Data)) (l : Loop W Data)
        → IsQueue jobs
        → AllQueued jobs l.state
        → All (λ j. has_id j.id due ≡ true) jobs
        → Going s due l
        → l.result.conflict ≡ false
        → Going s due (drain_jobs client project_id force at i jobs l)
    unfolding drain_jobs
    Going-drain_jobs i [] l q h k g quiet = g
    Going-drain_jobs i (job ∷ jobs) l q h k g quiet =
        Going-resume s due (at i) job l _ _ g quiet h.0 k.0
          (drain_job-TurnOf client project_id force (at i) job l)
          (λ after g' quiet' keeps.
            Going-drain_jobs (i + 1) jobs after q.1
              (AllQueued-step job.id l.state after.state jobs q.0 keeps h.1) k.1 g' quiet')
