-- ===== src/Lock/Postgres/Contract.antt =====
-- src/standalone/database-lock.ts: the database that `resetPostgres` is to leave.
use dbdock.Base.{Text, Option, none, some, List, [], ◌∷◌}
use dbdock.Lock.Schemas.{
  DbObject, Emptying, statements, unknown_objects, restorable_of, refused_of, targets_of,
  empty_schema_statements,
}

-- What a database is to a reader, and what a statement makes of it.
pub record DbModel (Db : Type 0) : Type 0 where
  pub execute : Text → Db → Db
  pub names : Db → List Text
  pub droppable : Db → List Text
  pub listing : Text → Db → List DbObject

-- The contract of a reset: the database that it is to leave, or none where it must refuse.
module _ {Db : Type 0} (model : DbModel Db) where
  abbrev pub execute_list : List Text → Db → Db
  execute_list [] db = db
  execute_list (statement ∷ more) db = execute_list more (model.execute statement db)

  abbrev pub emptied_by : (Db → Option Db) → Emptying → Db → Option Db
  emptied_by more (unknown_objects objects) db = none
  emptied_by more (statements drops) db = more (execute_list drops db)

  abbrev pub emptied : List Text → Db → Option Db
  emptied [] db = some db
  emptied (schema ∷ schemas) db =
      emptied_by (emptied schemas) (empty_schema_statements (model.listing schema db)) db

  abbrev pub unless_refused : List Text → Option Db → Option Db
  unless_refused [] db = db
  unless_refused (name ∷ names) db = none

  unfoldable pub reset_spec : Option (List Text) → Db → Option Db
  reset_spec schemas db =
      let existing = model.names db in
      let restorable = restorable_of (model.droppable db) in
      unless_refused (refused_of schemas existing restorable)
        (emptied (targets_of schemas existing restorable) db)
