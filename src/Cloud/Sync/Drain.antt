-- ===== src/Cloud/Sync/Drain.antt =====
-- src/cloud/sync-engine.ts: what one turn of the drain loop can do, and what the whole loop keeps.
use dbdock.Base.{
  ℕ, ◌+◌, ◌≡◌, refl, String, Bool, true, none, arith, ◌==◌, length, ltb, if◌then◌else◌, Bool-cases,
  inl, inr, ap, sym, ◌∙◌, not, ◌&&◌,
}
use dbdock.Base.Effect.{Effect, Result, ok, err}
use dbdock.Base.Triple.{Outcome, Triple, Triple-pure, Triple-if, Triple-bind}
use dbdock.Cloud.Types.{PendingJob, LocalState}
use dbdock.Cloud.Queue.{mark_acked, mark_failed, default_max_attempts}
use dbdock.Cloud.Sync.{
  SyncClient, Applied, Fault, api_error, network_error, not_authenticated, no_project, other,
  DrainResult, Loop, Moment, Turn, stop, next, drain_job, settled, try_job, conflicting,
  count_attempt, push_job, remote_call, acknowledge, apply_ack, catch_fault, give_up, retry_later,
  in_loop,
}
use dbdock.Cloud.Sync.Steps.{Triple-seen, Triple-looked, Triple-write, Triple-learn}

-- The counters and the flag, without the remote revision shown beside them.
abbrev pub counts : DrainResult → DrainResult
counts r = record r { remote_revision = none }

module _ {W Data : Type 0} where
  -- What is known of the loop's variables and of the state file.
  pub record Shows (state saved : LocalState Data) (result : DrainResult) (l : Loop W Data)
      : Type 0 where
    pub state_is : l.state ≡ state
    pub saved_is : l.disk.saved ≡ saved
    pub counts_are : counts l.result ≡ counts result

  -- The four ends of a turn of the loop for `job`, from the variables `l` to `after`.
  pub data TurnOf (m : Moment) (job : PendingJob Data) (l : Loop W Data)
      : Turn → Loop W Data → Type 0 where
    refused :
        {after : Loop W Data}
        → Shows l.state l.disk.saved
            (record l.result { attempted = l.result.attempted + 1; conflict = true })
            after
        → TurnOf m job l stop after
    acked :
        {after : Loop W Data} (applied : Applied)
        → Shows
            (mark_acked (apply_ack l.state applied m.now) job.id)
            (mark_acked (apply_ack l.state applied m.now) job.id)
            (record l.result { attempted = l.result.attempted + 1; acked = l.result.acked + 1 })
            after
        → TurnOf m job l next after
    retried :
        {after : Loop W Data}
        → Shows
            (mark_failed l.state job.id default_max_attempts m.now m.random)
            (mark_failed l.state job.id default_max_attempts m.now m.random)
            (record l.result { attempted = l.result.attempted + 1; failed = l.result.failed + 1 })
            after
        → TurnOf m job l next after
    given_up :
        {after : Loop W Data}
        → Shows
            (mark_failed l.state job.id 1 m.now m.random)
            (mark_failed l.state job.id 1 m.now m.random)
            (if ltb
                (length l.state.deadletter)
                (length (mark_failed l.state job.id 1 m.now m.random).deadletter)
              then record l.result {
                attempted = l.result.attempted + 1;
                deadlettered = l.result.deadlettered + 1;
              }
              else record l.result {
                attempted = l.result.attempted + 1;
                failed = l.result.failed + 1;
              })
            after
        → TurnOf m job l next after

  module _ (client : SyncClient W Data) (project_id : String) (force : Bool) (m : Moment)
      (job : PendingJob Data) (l : Loop W Data) where
    abbrev P : Loop W Data → Type 0
    P = Shows l.state l.disk.saved (record l.result { attempted = l.result.attempted + 1 })

    Triple-remote : {A : Type 0} (c : Effect Fault W A) → Triple P (remote_call c) (λ _ l'. P l') P
    unfolding remote_call
    Triple-remote c = record { run = λ s h. outcome s h (c s.disk.world) }
      where
        outcome :
            {A : Type 0} (s : Loop W Data)
            → P s
            → (r : Result Fault A × W) → Outcome (λ _ l'. P l') P (in_loop s r)
        outcome s h (ok x, w) = record {
          state_is = h.state_is;
          saved_is = h.saved_is;
          counts_are = h.counts_are;
        }
        outcome s h (err e, w) = record {
          state_is = h.state_is;
          saved_is = h.saved_is;
          counts_are = h.counts_are;
        }

    Triple-push :
        (known : ℕ)
        → Triple P (push_job client project_id force m job known) (λ t l'. TurnOf m job l t l') P
    unfolding push_job acknowledge
    Triple-push known =
        Triple-bind (λ _ l'. P l') _ _ Triple-looked
          (λ x.
            Triple-bind (λ _ l'. P l') _ _ (Triple-remote _)
              (λ applied.
                Triple-bind (λ x _. P x) _ _ Triple-seen
                  (λ x.
                    Triple-bind (λ _ l'. TurnOf m job l next l') _ _
                      (Triple-write _ (λ h. acked applied (record {
                        state_is =
                            ap (λ s. mark_acked (apply_ack s applied m.now) job.id) h.state_is;
                        saved_is =
                            ap (λ s. mark_acked (apply_ack s applied m.now) job.id) h.state_is;
                        counts_are =
                            ap {A = DrainResult} {B = DrainResult}
                              (λ c. record c { acked = c.acked + 1 }) h.counts_are;
                      })))
                      (λ _. Triple-pure next (λ s h. h)))))

    Triple-try : Triple P (try_job client project_id force m job) (λ t l'. TurnOf m job l t l') P
    unfolding try_job conflicting
    Triple-try =
        Triple-bind (λ _ l'. P l') _ _ Triple-looked
          (λ x.
            Triple-bind (λ _ l'. P l') _ _
              (Triple-learn client project_id x.known (Triple-remote _))
              (λ known.
                Triple-bind (λ x _. P x) _ _ Triple-seen
                  (λ x.
                    Triple-bind (λ _ l'. P l') _ _
                      (Triple-write _ (λ h. record {
                        state_is = h.state_is;
                        saved_is = h.saved_is;
                        counts_are = h.counts_are;
                      }))
                      (λ _.
                        Triple-if (not (known == job.base_revision) && not force)
                          (λ _.
                            Triple-bind (λ x _. P x) _ _ Triple-seen
                              (λ x.
                                Triple-bind (λ _ l'. TurnOf m job l stop l') _ _
                                  (Triple-write (conflicting x) (λ h. refused (record {
                                    state_is = h.state_is;
                                    saved_is = h.saved_is;
                                    counts_are =
                                        ap {A = DrainResult} {B = DrainResult}
                                          (λ c. record c { conflict = true }) h.counts_are;
                                  })))
                                  (λ _. Triple-pure stop (λ s h. h))))
                          (λ _. Triple-push known)))))

    retry-TurnOf : (s : Loop W Data) → P s → TurnOf m job l next (retry_later client m job s)
    unfolding retry_later
    retry-TurnOf s h = retried (record {
      state_is = ap (λ t. mark_failed t job.id default_max_attempts m.now m.random) h.state_is;
      saved_is = ap (λ t. mark_failed t job.id default_max_attempts m.now m.random) h.state_is;
      counts_are =
          ap {A = DrainResult} {B = DrainResult} (λ c. record c { failed = c.failed + 1 })
            h.counts_are;
    })

    -- The counters after a job is given up, which look at the dead letters.
    abbrev dropping : LocalState Data → DrainResult → DrainResult
    dropping t c =
        if ltb (length t.deadletter) (length (mark_failed t job.id 1 m.now m.random).deadletter)
        then record c { deadlettered = c.deadlettered + 1 }
        else record c { failed = c.failed + 1 }

    counts-dropping :
        (t : LocalState Data) (c : DrainResult) → counts (dropping t c) ≡ dropping t (counts c)
    counts-dropping t c = ground arith

    give_up-TurnOf : (s : Loop W Data) → P s → TurnOf m job l next (give_up client m job s)
    unfolding give_up
    give_up-TurnOf s h = given_up (record {
      state_is = ap (λ t. mark_failed t job.id 1 m.now m.random) h.state_is;
      saved_is = ap (λ t. mark_failed t job.id 1 m.now m.random) h.state_is;
      counts_are =
          counts-dropping s.state s.result
          ∙ ap (λ t. dropping t (counts s.result)) h.state_is
          ∙ ap (dropping l.state) h.counts_are
          ∙ sym (counts-dropping l.state (record l.result { attempted = l.result.attempted + 1 }));
    })

    forgotten : (s : Loop W Data) → P s → P (record s { known = none })
    forgotten s h = record {
      state_is = h.state_is;
      saved_is = h.saved_is;
      counts_are = h.counts_are;
    }

    catch-TurnOf :
        (e : Fault) (s : Loop W Data)
        → P s
        → TurnOf m job l (catch_fault client m job e s).0 (catch_fault client m job e s).1
    unfolding catch_fault conflicting
    catch-TurnOf (api_error status) s h = elim (Bool-cases (status == 409)) [
      | inl is_409 ↦ rw is_409 (
          refused (record {
            state_is = h.state_is;
            saved_is = h.saved_is;
            counts_are =
                ap {A = DrainResult} {B = DrainResult} (λ c. record c { conflict = true })
                  h.counts_are;
          }))
      | inr isnt ↦ rw isnt (give_up-TurnOf _ (forgotten s h))
    ]
    catch-TurnOf network_error s h = retry-TurnOf _ (forgotten s h)
    catch-TurnOf not_authenticated s h = give_up-TurnOf _ (forgotten s h)
    catch-TurnOf no_project s h = give_up-TurnOf _ (forgotten s h)
    catch-TurnOf other s h = give_up-TurnOf _ (forgotten s h)

    settled-TurnOf :
        (r : Result Fault Turn × Loop W Data)
        → Outcome (λ t l'. TurnOf m job l t l') P r
        → TurnOf m job l (settled client m job r).0 (settled client m job r).1
    settled-TurnOf (ok t, s) h = h
    settled-TurnOf (err e, s) h = catch-TurnOf e s h

    -- Whatever the server answers or fails with, a turn of the loop ends in one of four ways: it is
    -- refused and the loop stops, with the queue and the state file as they were; or it goes on,
    -- with the job acknowledged, marked for a retry, or given up, in the queue and in the state file.
    pub drain_job-TurnOf :
        TurnOf m job l
          (drain_job client project_id force m job l).0
          (drain_job client project_id force m job l).1
    unfolding drain_job
    drain_job-TurnOf = settled-TurnOf _ (
        Triple-try.run (count_attempt client l)
          (record { state_is = refl; saved_is = refl; counts_are = refl }))
