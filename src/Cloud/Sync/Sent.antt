-- ===== src/Cloud/Sync/Sent.antt =====
-- src/cloud/sync-engine.ts: a forced drain against a server that answers every call.
use dbdock.Base.{
  ℕ, ◌+◌, ◌≡◌, refl, ap, ◌∙◌, String, eq_iff, Bool, true, false, not, ◌&&◌, List, [], ◌∷◌, length,
  arith, if◌then◌else◌,
}
use dbdock.Base.Effect.{Result, ok, err, continue, pure, throw, ◌>>=◌}
use dbdock.Base.Triple.{Outcome}
use dbdock.Cloud.Types.{PendingJob}
use dbdock.Cloud.Queue.{without, due_jobs}
use dbdock.Cloud.Queue.Laws.{has_id, has_id-without}
use dbdock.Cloud.Sync.{
  SyncClient, Fault, DrainResult, Disk, Loop, Moment, Turn, next, stop, not_authenticated,
  drain_jobs, resume, drain, require_session, outside, start, on_disk, drained,
}
use dbdock.Cloud.Sync.Forced.{Answers, Like, drain_job-Done}

module _ {Data : Type 0} where
  -- The queue without these jobs.
  abbrev left : List (PendingJob Data) → List (PendingJob Data) → List (PendingJob Data)
  left [] pending = pending
  left (job ∷ jobs) pending = left jobs (without job.id pending)

  has_id-left :
      (i : String) (jobs pending : List (PendingJob Data))
      → has_id i (left jobs pending) ≡ (has_id i pending && not (has_id i jobs))
  has_id-left i [] pending = ground arith
  has_id-left i (job ∷ jobs) pending =
      has_id-left i jobs (without job.id pending)
      ∙ ground (arith, has_id-without i job.id pending, eq_iff i job.id, eq_iff job.id i)

module _ {W Data : Type 0} (now : ℕ) (d : Disk W Data) (id : String) where
  -- What a drain that sends every due job leaves.
  abbrev pub Sent : DrainResult → Disk W Data → Type 0
  Sent r after =
      (r.acked ≡ length (due_jobs d.saved now))
      × (r.conflict ≡ false)
      × (has_id id after.saved.pending
          ≡ (has_id id d.saved.pending && not (has_id id (due_jobs d.saved now))))

module _ {W Data : Type 0} (client : SyncClient W Data) (answers : Answers client)
    (project_id : String) (at : ℕ → Moment) where
  more-resume :
      (P : Loop W Data → Type 0) (r : Turn × Loop W Data) (more : Loop W Data → Loop W Data)
      → r.0 ≡ next
      → P (more r.1)
      → P (resume r more)
  more-resume P (next, l) more e h = h
  more-resume P (stop, l) more e h = absurd (ground arith)

  Like-drain_jobs :
      (jobs : List (PendingJob Data)) (i : ℕ) (l : Loop W Data) (pending : List (PendingJob Data))
      (acked : ℕ) (conflict : Bool)
      → Like pending acked conflict l
      → Like
          (left jobs pending)
          (acked + length jobs)
          conflict
          (drain_jobs client project_id true at i jobs l)
  unfolding drain_jobs
  Like-drain_jobs [] i l pending acked conflict h = record {
    pending_is = h.pending_is;
    saved_is = h.saved_is;
    acked_is = ground arith;
    conflict_is = h.conflict_is;
  }
  Like-drain_jobs (job ∷ jobs) i l pending acked conflict h =
      let (e, d) = drain_job-Done client answers project_id (at i) job pending acked conflict l h in
      more-resume (Like (left (job ∷ jobs) pending) (acked + length (job ∷ jobs)) conflict) _ _ e (
        let g = Like-drain_jobs jobs (i + 1) _ (without job.id pending) (acked + 1) conflict d in
        record {
          pending_is = g.pending_is;
          saved_is = g.saved_is;
          acked_is = g.acked_is ∙ omega arith;
          conflict_is = g.conflict_is;
        })

  module _ (now : ℕ) (d : Disk W Data) (id : String) where
    Sent-loop :
        (w : W)
        → let from = start client (record d { world = w }) in
          let l = drain_jobs client project_id true at 0 (due_jobs d.saved now) from in
          Sent now d id l.result l.disk
    Sent-loop w =
        let g =
          Like-drain_jobs (due_jobs d.saved now) 0 (start client (record d { world = w }))
            d.saved.pending 0 false
            (record { pending_is = refl; saved_is = refl; acked_is = refl; conflict_is = refl }) in
        (
          g.acked_is ∙ omega arith,
          g.conflict_is,
          ap (has_id id) g.saved_is ∙ has_id-left id (due_jobs d.saved now) d.saved.pending,
        )

    Outcome-session :
        (r : Result Fault Bool × W)
        → Outcome (λ token _. token ≡ true) (λ _. ⊥) r
        → Outcome
            (Sent now d id)
            (λ _. ⊥)
            (continue
              (continue (on_disk d r) (λ token. if token then pure tt else throw not_authenticated))
              (λ _ d.
                drained client
                  (drain_jobs client project_id true at 0 (due_jobs d.saved now) (start client d))))
    unfolding pure throw
    Outcome-session (ok true, w) e = Sent-loop w
    Outcome-session (ok false, w) e = absurd (ground arith)
    Outcome-session (err f, w) e = absurd e

    -- Where the session has a token and no call of the server fails, a forced drain returns. It
    -- meets no conflict and acknowledges every due job, and of the ids queued before, those of due
    -- jobs are no longer queued and all others still are.
    pub drain-Sent : Outcome (Sent now d id) (λ _. ⊥) (drain client project_id true now at d)
    unfolding drain require_session outside ◌>>=◌
    drain-Sent = Outcome-session (client.load_session d.world) (answers.session d.world)
