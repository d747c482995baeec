-- ===== src/Cloud/Sync/Pushes.antt =====
-- src/cloud/sync-engine.ts: the queue before and after a push.
use dbdock.Cloud.Sync.Going.{IsTally}
use dbdock.Base.{
  refl, ◌∙◌, Option, none, length, filter, All, All-mono, ◌++◌, ℕ, ◌≡◌, String, str_eq, Bool, true,
  false, ◌&&◌, some, List, [], ◌∷◌, arith, ◌==◌,
}
use dbdock.Base.Effect.{Result, ok, err, continue, pure, ◌>>=◌}
use dbdock.Base.Triple.{Outcome}
use dbdock.Cloud.Types.{SyncChange, PendingJob, LocalState}
use dbdock.Cloud.Dict.{Dict}
use dbdock.Cloud.Diff.{SnapshotEntry, diff_snapshot}
use dbdock.Cloud.Queue.{enqueue, due_jobs}
use dbdock.Cloud.Queue.Laws.{has_id, IsQueue, IsQueue-snoc}
use dbdock.Cloud.Queue.Jobs.{Conserved, originals, held, Perm-enqueue}
use mathlib.Core.List.{Perm}
use mathlib.Core.List.Perm
use mathlib.Core.Path.{subst}
use dbdock.Cloud.Sync.{SyncClient, DrainResult, Disk, Moment, Fault, require_project_id, drain}
use dbdock.Cloud.Sync.Totals.{Settled, Unused, drain-IsTally}
use dbdock.Cloud.Sync.Commands.{
  SyncPushResult, is_empty, read_local_state, write_local_state, job_of, queue_job, sync_push,
}

module _ {Data : Type 0} where
  -- The job that a push makes, as a list.
  abbrev pub made_list : Option (PendingJob Data) → List (PendingJob Data)
  made_list none = []
  made_list (some job) = job ∷ []

  -- The state with the job at the end of the queue.
  abbrev pub with_made : LocalState Data → Option (PendingJob Data) → LocalState Data
  with_made state none = state
  with_made state (some job) = record state { pending = state.pending ++ job ∷ [] }

  Perm-with_made :
      (state : LocalState Data) (made : Option (PendingJob Data))
      → Perm (originals (made_list made) ++ held state) (held (with_made state made))
  unfolding enqueue
  Perm-with_made state none = Perm.refl (held state)
  Perm-with_made state (some job) = Perm.symm (Perm-enqueue state job)

  has_id-filter :
      (p : PendingJob Data → Bool) (i : String) (jobs : List (PendingJob Data))
      → has_id i (filter p jobs) ≡ true
      → has_id i jobs ≡ true
  has_id-filter p i [] h = h
  has_id-filter p i (j ∷ jobs) h = ground (arith, has_id-filter p i jobs)

module _ {W Data : Type 0} (client : SyncClient W Data) (project_id : String) (force : Bool)
    (at : ℕ → Moment) (now : ℕ) (d : Disk W Data) (made : Option (PendingJob Data)) where
  -- As many jobs as a push counts as acknowledged are gone, each of the id of one that was queued or
  -- was made; all others are held as they were made.
  abbrev pub Balanced : ℕ → LocalState Data → Type 0
  Balanced n after =
      (sent : List (PendingJob Data)) × (length sent ≡ n)
      × All (λ j. has_id j.id (with_made d.saved made).pending ≡ true) sent
      × Perm (originals (made_list made) ++ held d.saved) (originals sent ++ held after)

  -- What a push that returns says of the state file.
  abbrev pub Pushed : SyncPushResult → Disk W Data → Type 0
  Pushed r after =
      IsTally r.drained
      × (r.queued ≡ length (made_list made))
      × Balanced r.drained.acked after.saved
      × IsQueue after.saved.pending

  -- One that throws has saved the job that it made, and changed nothing else.
  abbrev pub KeptJobs : Disk W Data → Type 0
  KeptJobs after = after.saved ≡ with_made d.saved made

  Balanced-Settled :
      (n : ℕ) (after : LocalState Data)
      → Conserved (with_made d.saved made) (due_jobs (with_made d.saved made) now) n after
      → Balanced n after
  unfolding due_jobs
  Balanced-Settled n after (sent, counted, were_due, p) = (
    sent,
    counted,
    All-mono _ _ sent (λ j h. has_id-filter _ j.id (with_made d.saved made).pending h) were_due,
    Perm.trans (Perm-with_made d.saved made) p,
  )

  Outcome-drained :
      (e : Disk W Data) (queued : ℕ) (empty : Bool) (r : Result Fault DrainResult × Disk W Data)
      → e.saved ≡ with_made d.saved made
      → queued ≡ length (made_list made)
      → Outcome
          (Settled client project_id force at now e)
          (Unused client project_id force at now e)
          r
      → Outcome Pushed KeptJobs (
          continue r (λ drained. pure (record {
            noop = empty && (drained.attempted == 0);
            queued = queued;
            drained = drained;
          })))
  unfolding pure
  Outcome-drained e queued empty (ok x, after) same n h = (
    h.0,
    n,
    Balanced-Settled x.acked after.saved
        (subst (λ s. Conserved s (due_jobs s now) x.acked after.saved) same h.1),
    h.2,
  )
  Outcome-drained e queued empty (err f, after) same n h = h.0 ∙ same

module _ {W Data : Type 0} (client : SyncClient W Data) (project_id : String) (force : Bool)
    (at : ℕ → Moment) (now : ℕ) (d : Disk W Data) where
  Outcome-queued :
      (id key : String) (changes : List (SyncChange Data))
      → IsQueue d.saved.pending
      → has_id id d.saved.pending ≡ false
      → let made = job_of id key now d.saved changes in
        Outcome
          (Pushed client project_id force at now d made)
          (KeptJobs client project_id force at now d made)
          (continue (queue_job d.saved made d) (λ queued.
            drain client project_id force now at >>= (λ drained. pure (record {
              noop = is_empty changes && (drained.attempted == 0);
              queued = queued;
              drained = drained;
            }))))
  unfolding queue_job write_local_state enqueue ◌>>=◌
  Outcome-queued id key [] q fresh =
      Outcome-drained client project_id force at now d none d 0 true _ refl refl
        (drain-IsTally client project_id force at now d q)
  Outcome-queued id key (c ∷ changes) q fresh =
      Outcome-drained client project_id force at now d (job_of id key now d.saved (c ∷ changes)) _ 1
        false _ refl refl
        (drain-IsTally client project_id force at now _ (IsQueue-snoc d.saved.pending _ q fresh))

  -- A push from a linked directory, under a new job id, loses no job and changes none, but for its
  -- attempts: after it the state file holds the jobs of before and the one made of the differences,
  -- if any, once each, but for as many as it counts as acknowledged. If it throws, the state file
  -- holds just those, with all else as it was.
  pub sync_push-Pushed :
      (resources : Dict (SnapshotEntry Data)) (id key : String)
      → str_eq project_id "" ≡ false
      → IsQueue d.saved.pending
      → has_id id d.saved.pending ≡ false
      → let made = job_of id key now d.saved (diff_snapshot d.saved.resource_hashes resources) in
        Outcome
          (Pushed client project_id force at now d made)
          (KeptJobs client project_id force at now d made)
          (sync_push client (some project_id) force resources id key now at d)
  unfolding sync_push require_project_id read_local_state ◌>>=◌
  sync_push-Pushed resources id key named q fresh =
      rw named (Outcome-queued id key (diff_snapshot d.saved.resource_hashes resources) q fresh)
