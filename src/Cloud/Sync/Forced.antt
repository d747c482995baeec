-- ===== src/Cloud/Sync/Forced.antt =====
-- src/cloud/sync-engine.ts: one turn of a forced drain against a server that answers every call.
use dbdock.Base.{ℕ, ◌+◌, ◌≡◌, refl, ap, String, Bool, true, false, not, ◌&&◌, List, ◌==◌, arith}
use dbdock.Base.Effect.{Effect, Result, ok, err}
use dbdock.Base.Triple.{Outcome, Triple, Triple-pure, Triple-if, Triple-bind}
use dbdock.Cloud.Types.{PendingJob}
use dbdock.Cloud.Queue.{without, mark_acked}
use dbdock.Cloud.Sync.{
  SyncClient, SyncPayload, Fault, Loop, Moment, Turn, next, drain_job, settled, try_job, push_job,
  remote_call, acknowledge, apply_ack, count_attempt, in_loop,
}
use dbdock.Cloud.Sync.Steps.{Triple-seen, Triple-looked, Triple-write, Triple-learn}

-- A call that came back without a throw.
abbrev Returns : {W A : Type 0} → Result Fault A × W → Type 0
Returns r = Outcome (λ _ _. Unit {0}) (λ _. ⊥) r

module _ {W Data : Type 0} where
  -- A server that is there and takes every push, and a session with a token.
  pub record Answers (client : SyncClient W Data) : Type 0 where
    pub session : (w : W) → Outcome (λ token _. token ≡ true) (λ _. ⊥) (client.load_session w)
    pub state_of : (w : W) (p : String) → Returns (client.get_state p w)
    pub push :
        (w : W) (p : String) (x : SyncPayload Data) (k : String)
        → Returns (client.push_sync p x k w)

  -- The queue, the state file and the counters that matter here.
  pub record Like (pending : List (PendingJob Data)) (acked : ℕ) (conflict : Bool) (l : Loop W Data)
      : Type 0 where
    pub pending_is : l.state.pending ≡ pending
    pub saved_is : l.disk.saved.pending ≡ pending
    pub acked_is : l.result.acked ≡ acked
    pub conflict_is : l.result.conflict ≡ conflict

  module _ (client : SyncClient W Data) (answers : Answers client) (project_id : String)
      (m : Moment) (job : PendingJob Data) (pending : List (PendingJob Data)) (acked : ℕ)
      (conflict : Bool) where
    abbrev P : Loop W Data → Type 0
    P = Like pending acked conflict

    abbrev Done : Loop W Data → Type 0
    Done = Like (without job.id pending) (acked + 1) conflict

    abbrev Never : Loop W Data → Type 0
    Never _ = ⊥

    Triple-call :
        {A : Type 0} (c : Effect Fault W A)
        → ((w : W) → Returns (c w))
        → Triple P (remote_call c) (λ _ l'. P l') Never
    unfolding remote_call
    Triple-call c h = record { run = λ s p. outcome s p (c s.disk.world) (h s.disk.world) }
      where
        outcome :
            {A : Type 0} (s : Loop W Data)
            → P s
            → (r : Result Fault A × W) → Returns r
            → Outcome (λ _ l'. P l') Never (in_loop s r)
        outcome s p (ok x, w) h = record {
          pending_is = p.pending_is;
          saved_is = p.saved_is;
          acked_is = p.acked_is;
          conflict_is = p.conflict_is;
        }
        outcome s p (err e, w) h = absurd h

    Triple-push :
        (known : ℕ)
        → Triple P
            (push_job client project_id true m job known)
            (λ t l'. (t ≡ next) × Done l')
            Never
    unfolding push_job acknowledge mark_acked apply_ack
    Triple-push known =
        Triple-bind (λ _ l'. P l') _ _ Triple-looked
          (λ x.
            Triple-bind (λ _ l'. P l') _ _
              (Triple-call _ (λ w. answers.push w project_id _ job.idempotency_key))
              (λ applied.
                Triple-bind (λ x _. P x) _ _ Triple-seen
                  (λ x.
                    Triple-bind (λ _ l'. Done l') _ _
                      (Triple-write _ (λ h. record {
                        pending_is = ap (without job.id) h.pending_is;
                        saved_is = ap (without job.id) h.pending_is;
                        acked_is = ap (λ n. n + 1) h.acked_is;
                        conflict_is = h.conflict_is;
                      }))
                      (λ _. Triple-pure next (λ s h. (refl, h))))))

    Triple-try :
        Triple P (try_job client project_id true m job) (λ t l'. (t ≡ next) × Done l') Never
    unfolding try_job
    Triple-try =
        Triple-bind (λ _ l'. P l') _ _ Triple-looked
          (λ x.
            Triple-bind (λ _ l'. P l') _ _
              (Triple-learn client project_id x.known
                (Triple-call _ (λ w. answers.state_of w project_id)))
              (λ known.
                Triple-bind (λ x _. P x) _ _ Triple-seen
                  (λ x.
                    Triple-bind (λ _ l'. P l') _ _
                      (Triple-write _ (λ h. record {
                        pending_is = h.pending_is;
                        saved_is = h.saved_is;
                        acked_is = h.acked_is;
                        conflict_is = h.conflict_is;
                      }))
                      (λ _.
                        Triple-if (not (known == job.base_revision) && false)
                          (λ h. absurd (ground arith)) (λ _. Triple-push known)))))

    settled-Done :
        (r : Result Fault Turn × Loop W Data)
        → Outcome (λ t l'. (t ≡ next) × Done l') Never r
        → ((settled client m job r).0 ≡ next) × Done (settled client m job r).1
    settled-Done (ok t, s) h = h
    settled-Done (err e, s) h = absurd h

    pub drain_job-Done :
        (l : Loop W Data)
        → P l
        → ((drain_job client project_id true m job l).0 ≡ next)
          × Done (drain_job client project_id true m job l).1
    unfolding drain_job
    drain_job-Done l h = settled-Done _ (
        Triple-try.run (count_attempt client l) (record {
          pending_is = h.pending_is;
          saved_is = h.saved_is;
          acked_is = h.acked_is;
          conflict_is = h.conflict_is;
        }))
