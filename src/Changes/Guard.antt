-- ===== src/Changes/Guard.antt =====
-- src/changes/guard.ts: `runGuardedChange`. The database under its lock, the checkpoint and the
-- change are parameters, as are the clock and the ids.
pub mod Laws
pub mod Clean
pub mod Tests
use dbdock.Base.{
  ℕ, Text, codes, includes, leb, length, Bool, true, false, Option, none, some, List, any, filter,
  if◌then◌else◌,
}
use dbdock.Base.Effect.{Effect, Result, ok, err, pure, throw, try_catch, ◌>>=◌, ◌>>◌}
use dbdock.Changes.Record.{
  Metadata, ActorKind, person, agent, ChangeKind, migration, sql, restore, copy, ChangeRecord,
  running, succeeded, failed, ChangeError, no_schema, guarded_change, Machine, Outlet, outside,
  save_record, send_record,
}

-- `lockDatabase`, and the methods of the locked database and `saveCheckpoint`, with the change and
-- the check before it.
pub record Outside (E W Schema Scope Value : Type 0) : Type 0 where
  pub lock : Effect E W Unit
  pub close : Effect E W Unit
  pub prepare : Effect E W Unit
  pub schema : Effect E W Schema
  pub scope : Effect E W Scope
  pub has_schemas : Scope → Bool
  -- `saveCheckpoint` and then `onCheckpoint`, for the checkpoint's id.
  pub checkpoint : Scope → Effect E W Text
  pub change : Effect E W Value
  -- `schemaSummary`, where there is one.
  pub schema_summary : Schema → Schema → Option Text

-- The options, and what the call takes from the clock and the id generator.
pub record Call : Type 0 where
  pub kind : Option ChangeKind
  pub metadata : Metadata
  pub storage : Text
  pub restored_checkpoint_id : Option Text
  pub id : Text
  pub occurred_at : ℕ
  pub completed_at : ℕ
  -- The password and the keys of the configuration.
  pub credentials : List Text

pub record GuardResult (Value : Type 0) : Type 0 where
  pub value : Value
  pub change_record : ChangeRecord
  pub synced : Bool

-- The credentials of four or more characters.
abbrev pub secrets_of : List Text → List Text
secrets_of credentials = filter (λ value. leb 4 (length value)) credentials

abbrev pub leaks : List Text → Text → Bool
leaks secrets text = any (λ secret. includes text secret) secrets

abbrev pub hide : List Text → Option Text → Option Text
hide secrets none = none
hide secrets (some text) = if leaks secrets text then none else some text

abbrev pub nameless : ActorKind → Text
nameless agent = codes "Agent"
nameless person = codes "Person"

-- The actor, the session and the deploy that hold a secret are replaced.
unfoldable pub redact : List Text → Metadata → Metadata
redact secrets m = record m {
  actor = if leaks secrets m.actor then nameless m.actor_kind else m.actor;
  session = hide secrets m.session;
  deploy = hide secrets m.deploy;
}

-- `!options.kind || options.kind === 'migration'`
abbrev pub reads_schema : Option ChangeKind → Bool
reads_schema none = true
reads_schema (some migration) = true
reads_schema (some sql) = false
reads_schema (some restore) = false
reads_schema (some copy) = false

abbrev pub get_summary : Text → Option Text → Text
get_summary summary none = summary
get_summary summary (some changes) = changes

-- The record as it is saved first.
abbrev pub first_record : Call → Text → ChangeRecord
first_record call checkpoint_id = record {
  id = call.id;
  checkpoint_id = checkpoint_id;
  occurred_at = call.occurred_at;
  completed_at = none;
  metadata = redact (secrets_of call.credentials) call.metadata;
  status = running;
  checkpoint_storage = call.storage;
  restored_checkpoint_id = call.restored_checkpoint_id;
}

abbrev pub completed : Call → Text → Text → ChangeRecord
completed call checkpoint_id summary =
    let r = first_record call checkpoint_id in
    record r {
      status = succeeded;
      completed_at = some call.completed_at;
      metadata = record r.metadata { summary = summary };
    }

abbrev pub broken : Call → Text → ChangeRecord
broken call checkpoint_id = record (first_record call checkpoint_id) {
  status = failed;
  completed_at = some call.completed_at;
}

module _ {E S A : Type 0} where
  abbrev pub then_close : Result E A → Result E Unit × S → Result E A × S
  then_close r (ok u, s) = (r, s)
  then_close r (err e, s) = (err e, s)

  -- `try { m } finally { closing }`: an error of `closing` takes the place of the outcome.
  unfoldable pub try_finally : Effect E S A → Effect E S Unit → Effect E S A
  try_finally m closing s = let (r, after) = m s in then_close r (closing after)

module _ {E W Schema Scope Value : Type 0} (out : Outside E W Schema Scope Value)
    (outlet : Outlet E W) (call : Call) where
  abbrev pub Guarded : Type 0 → Type 0
  Guarded A = Effect (ChangeError E) (Machine W) A

  unfoldable pub schema_before : Bool → Guarded (Option Schema)
  schema_before true = do s ← outside out.schema; pure (some s)
  schema_before false = pure none

  -- The summary after the change; where the schema cannot be read it stays.
  unfoldable pub summary_after : Option Schema → Text → Guarded Text
  summary_after none summary = pure summary
  summary_after (some before) summary =
      try_catch
        (do
          after ← outside out.schema
          pure (get_summary summary (out.schema_summary before after)))
        (λ _. pure summary)

  -- The `catch` around the change.
  unfoldable pub report_failure : Text → ChangeError E → Guarded Value
  report_failure checkpoint_id cause = do
    save_record outlet (broken call checkpoint_id) false
    sent ← send_record outlet (broken call checkpoint_id)
    throw (guarded_change (broken call checkpoint_id) cause sent)

  -- What follows a change that went through.
  unfoldable pub report_success : Text → Option Schema → Value → Guarded (GuardResult Value)
  report_success checkpoint_id before value = do
    summary ← summary_after before (first_record call checkpoint_id).metadata.summary
    save_record outlet (completed call checkpoint_id summary) false
    sent ← send_record outlet (completed call checkpoint_id summary)
    pure (record {
      value = value;
      change_record = completed call checkpoint_id summary;
      synced = sent;
    })

  -- The body under the lock.
  unfoldable pub guarded_body : Guarded (GuardResult Value)
  guarded_body = do
    outside out.prepare
    before ← schema_before (reads_schema call.kind)
    scope ← outside out.scope
    if out.has_schemas scope
        then (do
          checkpoint_id ← outside (out.checkpoint scope)
          save_record outlet (first_record call checkpoint_id) false
          value ← try_catch (outside out.change) (report_failure checkpoint_id)
          report_success checkpoint_id before value)
        else throw no_schema

  -- `runGuardedChange`
  unfoldable pub run_guarded_change : Guarded (GuardResult Value)
  run_guarded_change = do outside out.lock; try_finally guarded_body (outside out.close)
