-- ===== src/Lock/Postgres.antt =====
-- src/standalone/database-lock.ts: `lockPostgres` and `resetPostgres`. The driver's client is a
-- parameter: its calls change a world of their own and may throw.
pub mod Contract
pub mod Reset
pub mod Locking
pub mod Tests
use dbdock.Base.{Text, Bool, true, false, Option, none, some, List, [], ◌∷◌, if◌then◌else◌}
use dbdock.Base.Effect.{Effect, Result, ok, err, pure, throw, try_catch, ◌>>=◌, ◌>>◌}
use dbdock.Lock.Schemas.{
  DbObject, Emptying, statements, unknown_objects, restorable_of, refused_of, targets_of,
  empty_schema_statements,
}

-- The queries of the module on one connection.
pub record PgClient (E W : Type 0) : Type 0 where
  pub connect : Effect E W Unit
  -- `pg_try_advisory_lock` and `pg_advisory_unlock`
  pub try_lock : Effect E W Bool
  pub unlock : Effect E W Unit
  pub close : Effect E W Unit
  pub begin : Effect E W Unit
  pub commit : Effect E W Unit
  pub rollback : Effect E W Unit
  -- `ALL_SCHEMAS_SQL`, `DROPPABLE_SCHEMAS_SQL` and `SCHEMA_OBJECTS_SQL`
  pub all_schemas : Effect E W (List Text)
  pub droppable_schemas : Effect E W (List Text)
  pub schema_objects : Text → Effect E W (List DbObject)
  -- A `DROP` statement.
  pub execute : Text → Effect E W Unit

pub data LockError (E : Type 0) : Type 0 where
  sql : E → LockError E
  may_not_replace : List Text → LockError E
  cannot_empty : List DbObject → LockError E
  -- `DatabaseBusyError`, and the two errors of a lock that is closed or lost.
  busy released : LockError E
  lost_connection : E → LockError E
  -- `lockMysql` without a database name.
  no_database_name : LockError E

module _ {E W : Type 0} where
  abbrev pub named : {A : Type 0} → Result E A × W → Result (LockError E) A × W
  named (ok x, w) = (ok x, w)
  named (err e, w) = (err (sql e), w)

  -- A query, whose error is thrown on.
  unfoldable pub query : {A : Type 0} → Effect E W A → Effect (LockError E) W A
  query m w = named (m w)

  -- `m.catch(() => undefined)`
  unfoldable pub ignored : Effect E W Unit → Effect (LockError E) W Unit
  ignored m = try_catch (query m) (λ _. pure tt)

  module _ (client : PgClient E W) where
    -- `listSchemas`
    unfoldable pub list_schemas : Effect (LockError E) W (List Text)
    list_schemas = query client.all_schemas

    -- `restorableSchemas`
    unfoldable pub restorable_schemas : Effect (LockError E) W (List Text)
    restorable_schemas = do names ← query client.droppable_schemas; pure (restorable_of names)

    unfoldable pub execute_all : List Text → Effect (LockError E) W Unit
    execute_all [] = pure tt
    execute_all (statement ∷ more) = do query (client.execute statement); execute_all more

    unfoldable pub run_emptying : Emptying → Effect (LockError E) W Unit
    run_emptying (unknown_objects objects) = throw (cannot_empty objects)
    run_emptying (statements drops) = execute_all drops

    -- The loop over the targets.
    unfoldable pub empty_schemas : List Text → Effect (LockError E) W Unit
    empty_schemas [] = pure tt
    empty_schemas (schema ∷ more) = do
      rows ← query (client.schema_objects schema)
      run_emptying (empty_schema_statements rows)
      empty_schemas more

    abbrev pub require_allowed : List Text → Effect (LockError E) W Unit
    require_allowed [] = pure tt
    require_allowed (name ∷ names) = throw (may_not_replace (name ∷ names))

    -- The body of `try`.
    unfoldable pub reset_body : Option (List Text) → Effect (LockError E) W Unit
    reset_body schemas = do
      existing ← list_schemas
      restorable ← restorable_schemas
      require_allowed (refused_of schemas existing restorable)
      empty_schemas (targets_of schemas existing restorable)
      query client.commit

    abbrev pub undo : LockError E → Effect (LockError E) W Unit
    undo e = do ignored client.rollback; throw e

    -- `resetPostgres`
    unfoldable pub reset_postgres : Option (List Text) → Effect (LockError E) W Unit
    reset_postgres schemas = do query client.begin; try_catch (reset_body schemas) undo

-- The lock as its holder sees it, and the world of its connection.
pub record Handle (E W : Type 0) : Type 0 where
  pub world : W
  pub closed : Bool
  -- `lostConnection`
  pub lost : Option E

module _ {E W : Type 0} where
  abbrev pub in_handle :
      {A : Type 0} → Handle E W → Result (LockError E) A × W → Result (LockError E) A × Handle E W
  in_handle h (r, w) = (r, record h { world = w })

  unfoldable pub through :
      {A : Type 0} → Effect (LockError E) W A → Effect (LockError E) (Handle E W) A
  through m h = in_handle h (m h.world)

  abbrev pub require_open : Bool → Option E → Effect (LockError E) (Handle E W) Unit
  require_open true lost = throw released
  require_open false none = pure tt
  require_open false (some e) = throw (lost_connection e)

  module _ (client : PgClient E W) where
    abbrev pub require_locked : Bool → Effect (LockError E) W Unit
    require_locked true = pure tt
    require_locked false = throw busy

    abbrev pub end_and_throw : LockError E → Effect (LockError E) W Unit
    end_and_throw e = do ignored client.close; throw e

    -- `lockPostgres`, up to the lock that it returns.
    unfoldable pub lock_postgres : Effect (LockError E) W Unit
    lock_postgres = do
      query client.connect
      try_catch (do locked ← query client.try_lock; require_locked locked) end_and_throw

    -- `reset` of the lock.
    unfoldable pub reset : Option (List Text) → Effect (LockError E) (Handle E W) Unit
    reset schemas h =
        ((require_open h.closed h.lost) >> (through (reset_postgres client schemas))) h

    unfoldable pub release : Effect (LockError E) W Unit
    release = do ignored client.unlock; ignored client.close

    -- `close` of the lock.
    unfoldable pub close_lock : Effect (LockError E) (Handle E W) Unit
    close_lock h = if h.closed then (ok tt, h) else (through release) (record h { closed = true })
