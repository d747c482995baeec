-- ===== src/Changes/Restore.antt =====
-- src/changes/restore.ts: `restoreCheckpoint`. The locked database, the reading of a checkpoint and
-- the restore itself are parameters, as are the callbacks of the caller.
pub mod Approved
pub mod Tests
use dbdock.Base.{
  Text, codes, text_eq, length, ltb, Bool, true, false, ◌&&◌, not, Option, none, some, List, [],
  ◌∷◌, filter, any, if◌then◌else◌,
}
use dbdock.Base.Effect.{Effect, Result, ok, err, pure, throw, ◌>>=◌, ◌>>◌}
use dbdock.Lock.Schemas.{has_name, refused_schemas}
use dbdock.Changes.Record.{restore, ChangeError, Machine, Outlet, outside}
use dbdock.Changes.Guard.{Outside, Call, GuardResult, run_guarded_change}

pub record Checkpoint : Type 0 where
  pub storage_key : Text
  pub checksum : Text
  pub encrypted : Bool
  pub compressed : Bool
  pub key_fingerprint : Option Text
  pub schemas : Option (List Text)

pub record RestorePlan : Type 0 where
  pub replace : List Text
  pub keep : List Text

-- Why a restore does not run: `RestoreRefusedError`, or the key.
pub data RestoreError (E : Type 0) : Type 0 where
  io : E → RestoreError E
  unconfirmed whole_database cancelled wrong_key : RestoreError E
  may_not_replace : List Text → RestoreError E

-- What the caller passes: `confirmLaterWrites`, `onPlan` and `confirm`.
pub record RestoreOptions (E W : Type 0) : Type 0 where
  pub confirm_later_writes : Bool
  pub on_plan : RestorePlan → Effect E W Unit
  pub confirm : Option (RestorePlan → Effect E W Bool)

pub record RestoreFlags : Type 0 where
  pub clean : Bool
  pub acl : Bool

-- What a restore calls beside the guarded change.
pub record RestoreTools (E W : Type 0) : Type 0 where
  pub read_checkpoint : Text → Effect E W Checkpoint
  -- `schemaLists`: the schemas that exist, and those that may be restored.
  pub schema_lists : Effect E W (List Text × List Text)
  pub reset : Option (List Text) → Effect E W Unit
  -- `restoreBackupStandalone` of a checkpoint with a key and its `beforeRestore`.
  pub restore_backup :
      Checkpoint → Option Text → Effect E W Unit → Option RestoreFlags → Effect E W Unit
  -- `computeKeyFingerprint` in hexadecimal.
  pub fingerprint : Text → Text

-- The database and the key of the configuration.
pub record RestoreConfig : Type 0 where
  pub database_type : Text
  pub encryption_key : Option Text

module _ {E W : Type 0} where
  abbrev pub as_io : {A : Type 0} → Result E A × W → Result (RestoreError E) A × W
  as_io (ok x, w) = (ok x, w)
  as_io (err e, w) = (err (io e), w)

  -- A call whose error is thrown on.
  unfoldable pub passing : {A : Type 0} → Effect E W A → Effect (RestoreError E) W A
  passing m w = as_io (m w)

abbrev pub is_postgres : RestoreConfig → Bool
is_postgres config =
    any (λ t. text_eq t config.database_type) (codes "postgres" ∷ codes "postgresql" ∷ [])

abbrev pub schemas_of : Checkpoint → List Text
schemas_of c = elim c.schemas [ none ↦ [] | some names ↦ names ]

abbrev pub has_confirm : {E W : Type 0} → RestoreOptions E W → Bool
has_confirm options = elim options.confirm [ none ↦ false | some ask ↦ true ]

module _ {E W Schema Scope : Type 0} (db : Outside E W Schema Scope Unit) (outlet : Outlet E W)
    (tools : RestoreTools E W) (options : RestoreOptions E W) (config : RestoreConfig) where
  -- `!key || fingerprint !== keyFingerprint`; an empty key is none.
  abbrev pub is_wrong_key : Checkpoint → Option Text → Bool
  is_wrong_key c none = true
  is_wrong_key c (some []) = true
  is_wrong_key c (some (k ∷ key)) = elim c.key_fingerprint [
    | none ↦ true
    | some f ↦ not (text_eq (tools.fingerprint (k ∷ key)) f)
  ]

  -- A checkpoint without schemas, of Postgres.
  abbrev pub holds_whole_database : Checkpoint → Bool
  holds_whole_database c = is_postgres config && not (ltb 0 (length (schemas_of c)))

  abbrev pub lacks_key : Checkpoint → Bool
  lacks_key c = c.encrypted && is_wrong_key c config.encryption_key

  -- The checks before the lock.
  unfoldable pub open_checkpoint : Text → Effect (RestoreError E) W Checkpoint
  open_checkpoint id =
      if not options.confirm_later_writes && not (has_confirm options)
      then throw unconfirmed
      else (do
        c ← passing (tools.read_checkpoint id)
        if holds_whole_database c
            then throw whole_database
            else if lacks_key c
            then throw wrong_key
            else pure c)

  abbrev pub refused_in : Checkpoint → List Text → List Text → List Text
  refused_in c existing restorable =
      if is_postgres config then refused_schemas (schemas_of c) existing restorable else []

  abbrev pub plan_of : Checkpoint → List Text → RestorePlan
  plan_of c existing = record {
    replace = if is_postgres config then schemas_of c else existing;
    keep =
        if is_postgres config
        then filter (λ name. not (has_name name (schemas_of c))) existing
        else [];
  }

  abbrev pub require_yes : Bool → Effect (RestoreError E) W Unit
  require_yes true = pure tt
  require_yes false = throw cancelled

  -- The question to the caller.
  unfoldable pub ask :
      RestorePlan → Bool → Option (RestorePlan → Effect E W Bool) → Effect (RestoreError E) W Unit
  ask plan true confirm = pure tt
  ask plan false none = pure tt
  ask plan false (some confirm) = do accepted ← passing (confirm plan); require_yes accepted

  abbrev pub require_none : List Text → Effect (RestoreError E) W Unit
  require_none [] = pure tt
  require_none (name ∷ names) = throw (may_not_replace (name ∷ names))

  -- The check under the lock, before the checkpoint of the guarded change.
  unfoldable pub check_plan : Checkpoint → Effect (RestoreError E) W Unit
  check_plan c = do
    lists ← passing tools.schema_lists
    require_none (refused_in c lists.0 lists.1)
    passing (options.on_plan (plan_of c lists.0))
    ask (plan_of c lists.0) options.confirm_later_writes options.confirm

  -- The change: the restore, which empties the schemas first.
  unfoldable pub restore_change : Checkpoint → Effect (RestoreError E) W Unit
  restore_change c = passing (
      tools.restore_backup c config.encryption_key
        (tools.reset (if is_postgres config then some (schemas_of c) else none))
        (if is_postgres config then some (record { clean = false; acl = true }) else none))

  -- The guarded change of a restore.
  abbrev pub guarded : Checkpoint → Outside (RestoreError E) W Schema Scope Unit
  guarded c = record {
    lock = passing db.lock;
    close = passing db.close;
    prepare = check_plan c;
    schema = passing db.schema;
    scope = passing db.scope;
    has_schemas = db.has_schemas;
    checkpoint = λ scope. passing (db.checkpoint scope);
    change = restore_change c;
    schema_summary = db.schema_summary;
  }

  abbrev pub restore_call : Text → Call → Call
  restore_call id call = record call {
    kind = some restore;
    restored_checkpoint_id = some id;
    metadata = record call.metadata { kind = restore; summary = codes "Restore checkpoint" };
  }

  abbrev pub restore_outlet : Outlet (RestoreError E) W
  restore_outlet = record {
    ignore_artifacts = passing outlet.ignore_artifacts;
    write_file = passing outlet.write_file;
    read_files = passing outlet.read_files;
    project_id = outlet.project_id;
    ingest = λ project r. passing (outlet.ingest project r);
  }

  -- `restoreCheckpoint`
  unfoldable pub restore_checkpoint :
      Text → Call → Effect (ChangeError (RestoreError E)) (Machine W) (GuardResult Unit)
  restore_checkpoint id call = do
    c ← outside (open_checkpoint id)
    run_guarded_change (guarded c) restore_outlet (restore_call id call)
