-- ===== src/Cloud/Sync/Totals.antt =====
-- src/cloud/sync-engine.ts: the counters that a drain reports, against the queue that it leaves.
use dbdock.Cloud.Queue.Jobs.{Conserved, held}
use mathlib.Core.List.Perm
use dbdock.Base.{
  ℕ, ◌≡◌, refl, ◌≢◌, All-filter, String, eq_iff, Bool, true, false, List, [], ◌∷◌, arith, filter,
  All, All-mono, if◌then◌else◌,
}
use dbdock.Base.Effect.{Result, ok, err, continue, pure, throw, ◌>>=◌}
use dbdock.Base.Triple.{Outcome}
use dbdock.Cloud.Types.{PendingJob}
use dbdock.Cloud.Queue.{due_jobs}
use dbdock.Cloud.Queue.Laws.{has_id, IsQueue}
use dbdock.Cloud.Sync.{
  SyncClient, DrainResult, Disk, Moment, drain_jobs, drain, require_session, Fault,
  not_authenticated, on_disk, start, drained, outside,
}
use dbdock.Cloud.Sync.Going.{IsTally, Going-drain_jobs}

module _ {Data : Type 0} where
  absent-filter :
      (p : PendingJob Data → Bool) (k : String) (jobs : List (PendingJob Data))
      → has_id k jobs ≡ false
      → has_id k (filter p jobs) ≡ false
  absent-filter p k [] h = refl
  absent-filter p k (j ∷ jobs) h = ground (arith, absent-filter p k jobs)

  IsQueue-filter :
      (p : PendingJob Data → Bool) (jobs : List (PendingJob Data))
      → IsQueue jobs
      → IsQueue (filter p jobs)
  IsQueue-filter p [] h = tt
  IsQueue-filter p (j ∷ jobs) h =
      ground (arith, absent-filter p j.id jobs h.0, IsQueue-filter p jobs h.1)

  present_each : (jobs : List (PendingJob Data)) → All (λ j. has_id j.id jobs ≡ true) jobs
  present_each [] = tt
  present_each (j ∷ jobs) = (
    ground (arith, eq_iff j.id j.id),
    All-mono _ _ jobs (λ i h. ground arith) (present_each jobs),
  )

module _ {W Data : Type 0} (client : SyncClient W Data) (project_id : String) (force : Bool)
    (at : ℕ → Moment) (now : ℕ) (d : Disk W Data) where
  -- What a drain from `d` leaves where it returns.
  abbrev pub Settled : DrainResult → Disk W Data → Type 0
  Settled r after =
      IsTally r
      × Conserved d.saved (due_jobs d.saved now) r.acked after.saved
      × IsQueue after.saved.pending

  -- Why it throws.
  abbrev pub Unused : Disk W Data → Type 0
  Unused after = (after.saved ≡ d.saved) × ((client.load_session d.world).0 ≢ ok true)

  Settled-loop :
      (w : W)
      → IsQueue d.saved.pending
      → let from = start client (record d { world = w }) in
        let l = drain_jobs client project_id force at 0 (due_jobs d.saved now) from in
        Settled l.result l.disk
  unfolding due_jobs
  Settled-loop w q =
      let g =
        Going-drain_jobs client project_id force at d.saved (due_jobs d.saved now) 0
          (due_jobs d.saved now) (start client (record d { world = w }))
          (IsQueue-filter _ d.saved.pending q)
          (All-filter _ _ d.saved.pending (present_each d.saved.pending))
          (present_each (due_jobs d.saved now))
          (record {
            distinct = q;
            conserved = ([], refl, tt, Perm.refl (held d.saved));
            tally = refl;
            stored = refl;
          })
          refl in
      (g.tally, rw g.stored g.conserved, rw g.stored g.distinct)

  Outcome-session :
      (r : Result Fault Bool × W)
      → (client.load_session d.world).0 ≡ r.0
      → IsQueue d.saved.pending
      → Outcome Settled Unused (
          continue
            (continue (on_disk d r) (λ token. if token then pure tt else throw not_authenticated))
            (λ _ d.
              drained client
                (drain_jobs client project_id force at 0 (due_jobs d.saved now) (start client d))))
  unfolding pure throw
  Outcome-session (ok true, w) e q = Settled-loop w q
  Outcome-session (ok false, w) e q = (refl, λ t. cc)
  Outcome-session (err f, w) e q = (refl, λ t. cc)

  -- A drain of a queue of distinct ids counts every attempt once, as acknowledged, failed, given
  -- up, or the conflict that stops it. As many jobs as it counts as acknowledged, each of the id of a
  -- due one, are gone from the state file. All others are held as they were made but for their
  -- attempts, once each, in the queue or among the dead letters, and the queue's ids are distinct.
  -- It returns so whatever the server does; it throws only where the session has no token or cannot
  -- be loaded, with the state file as it was.
  pub drain-IsTally :
      IsQueue d.saved.pending → Outcome Settled Unused (drain client project_id force now at d)
  unfolding drain require_session outside ◌>>=◌
  drain-IsTally q = Outcome-session (client.load_session d.world) refl q
