-- ===== src/Cloud/Queue/Jobs.antt =====
-- src/cloud/queue.ts: the jobs that a state holds, whatever their attempts.
use mathlib.Core.List.{Perm, perm_middle}
use mathlib.Core.List.Perm
use mathlib.Core.Path.{subst}
use dbdock.Base.{
  All, length, ap, ◌∙◌, arith, some, ℕ, ◌+◌, ◌≡◌, sym, String, true, List, [], ◌∷◌, ◌++◌, map, leb,
  Bool-cases, inl, inr,
}
use dbdock.Cloud.Types.{PendingJob, LocalState}
use dbdock.Cloud.Queue.{Draw, enqueue, without, mark_acked, fail_job, mark_failed, compute_backoff}
use dbdock.Cloud.Queue.Laws.{StandsAt, IsQueue, has_id, has_id-IsFound}

module _ {Data : Type 0} where
  -- A job as it was made, before its attempts.
  abbrev pub original : PendingJob Data → PendingJob Data
  original job = record job { attempts = 0; next_attempt_at = 0 }

  abbrev pub originals : List (PendingJob Data) → List (PendingJob Data)
  originals jobs = map original jobs

  -- The jobs of a state, pending or given up.
  abbrev pub held : LocalState Data → List (PendingJob Data)
  held state = originals state.pending ++ originals state.deadletter

  Perm-place :
      (job : PendingJob Data) (before after : List (PendingJob Data))
      → Perm (originals (before ++ job ∷ after)) (original job ∷ originals (before ++ after))
  Perm-place job [] after = Perm.refl (original job ∷ originals after)
  Perm-place job (j ∷ before) after =
      Perm.trans (Perm.cons (original j) (Perm-place job before after))
        (Perm.swap (original job) (original j) (originals (before ++ after)))

  Perm-last :
      (job : PendingJob Data) (jobs : List (PendingJob Data))
      → Perm (originals (jobs ++ job ∷ [])) (original job ∷ originals jobs)
  Perm-last job [] = Perm.refl (original job ∷ [])
  Perm-last job (j ∷ jobs) =
      Perm.trans (Perm.cons (original j) (Perm-last job jobs))
        (Perm.swap (original job) (original j) (originals jobs))

  module _ (k : String) (state : LocalState Data) (job : PendingJob Data)
      (before after : List (PendingJob Data)) (at : StandsAt k state.pending job before after) where
    abbrev rest : List (PendingJob Data)
    rest = originals (without k state.pending) ++ originals state.deadletter

    Perm-held : Perm (held state) (original job ∷ rest)
    Perm-held = Perm.append_right (originals state.deadletter) (
        subst (λ l. Perm (originals l) (original job ∷ originals (without k state.pending)))
          (sym at.queue_is)
          (subst (λ l. Perm (originals (before ++ job ∷ after)) (original job ∷ originals l))
            (sym at.rest_is) (Perm-place job before after)))

    Perm-fail_job :
        (max now : ℕ) (r : Draw)
        → Perm (held (fail_job (some job) state k max now r)) (original job ∷ rest)
    unfolding fail_job
    Perm-fail_job max now r = elim (Bool-cases (leb max (job.attempts + 1))) [
      | inl full ↦ rw full (
          Perm.trans
            (Perm.append_left (originals (without k state.pending))
              (Perm-last (record job { attempts = job.attempts + 1 }) state.deadletter))
            (perm_middle (originals (without k state.pending)) (originals state.deadletter)))
      | inr room ↦ rw room (
          Perm.append_right (originals state.deadletter) (
            Perm-last
              (record job {
                attempts = job.attempts + 1;
                next_attempt_at = now + compute_backoff (job.attempts + 1) r;
              })
              (without k state.pending)))
    ]

  module _ (state : LocalState Data) (k : String) (q : IsQueue state.pending)
      (there : has_id k state.pending ≡ true) where
    -- A failure neither loses a job nor changes one, but for its attempts.
    pub Perm-mark_failed :
        (max now : ℕ) (r : Draw) → Perm (held state) (held (mark_failed state k max now r))
    unfolding mark_failed
    Perm-mark_failed max now r =
        let f = has_id-IsFound k state.pending q there in
        rw f.found (
          Perm.trans (Perm-held k state f.job f.before f.after f.stands)
            (Perm.symm (Perm-fail_job k state f.job f.before f.after f.stands max now r)))

    -- An acknowledgement takes away the one job of the id.
    Perm-mark_acked :
        (j : PendingJob Data) × (j.id ≡ k)
        × Perm (held state) (original j ∷ held (mark_acked state k))
    unfolding mark_acked
    Perm-mark_acked =
        let f = has_id-IsFound k state.pending q there in
        (f.job, f.stands.id_is, Perm-held k state f.job f.before f.after f.stands)

  -- A job that is queued is held beside those of before.
  pub Perm-enqueue :
      (state : LocalState Data) (job : PendingJob Data)
      → Perm (held (enqueue state job)) (original job ∷ held state)
  unfolding enqueue
  Perm-enqueue state job =
      Perm.append_right (originals state.deadletter) (Perm-last job state.pending)

module _ {Data : Type 0} where
  -- From `s` to `t`, `n` jobs of the ids in `due` were taken out, and all others are still held, as
  -- they were made: pending, or given up.
  abbrev pub Conserved : LocalState Data → List (PendingJob Data) → ℕ → LocalState Data → Type 0
  Conserved s due n t =
      (sent : List (PendingJob Data)) × (length sent ≡ n)
      × All (λ j. has_id j.id due ≡ true) sent
      × Perm (held s) (originals sent ++ held t)

  pub Conserved-trans :
      (s t u : LocalState Data) (due : List (PendingJob Data)) (n : ℕ)
      → Conserved s due n t
      → Perm (held t) (held u)
      → Conserved s due n u
  Conserved-trans s t u due n (sent, counted, were_due, p) q =
      (sent, counted, were_due, Perm.trans p (Perm.append_left (originals sent) q))

  pub Conserved-mark_acked :
      (s t : LocalState Data) (due : List (PendingJob Data)) (n : ℕ) (k : String)
      → Conserved s due n t
      → IsQueue t.pending
      → has_id k t.pending ≡ true
      → has_id k due ≡ true
      → Conserved s due (n + 1) (mark_acked t k)
  Conserved-mark_acked s t due n k (sent, counted, were_due, p) q there is_due =
      let (j, id, less) = Perm-mark_acked t k q there in
      (
        j ∷ sent,
        omega (arith, counted),
        (ap (λ i. has_id i due) id ∙ is_due, were_due),
        Perm.trans p (
            Perm.trans (Perm.append_left (originals sent) less)
              (perm_middle (originals sent) (held (mark_acked t k)))),
      )
