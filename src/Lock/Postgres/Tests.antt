-- ===== src/Lock/Postgres/Tests.antt =====
-- src/standalone/database-lock.ts at a database of one schema with two objects.
use dbdock.Base.{
  ◌≡◌, refl, Text, codes, text_eq, true, false, not, none, some, List, [], ◌∷◌, filter, All,
  if◌then◌else◌,
}
use dbdock.Base.Effect.{ok, err, ◌>>=◌}
use dbdock.Base.Triple.{Triple}
use dbdock.Base.Sort.{sort_by}
use dbdock.Lock.Schemas.{
  DbObject, drop_statement, empty_schema_statements, restorable_of, refused_of, targets_of,
  drop_order, keyword_in, is_managed_schema, refused_schemas,
}
use dbdock.Lock.Schemas.Laws.{
  IsReplaceable, Empties, targets_of-IsReplaceable, empty_schema_statements-Empties,
}
use dbdock.Lock.Postgres.{
  PgClient, released, query, list_schemas, restorable_schemas, execute_all, run_emptying,
  empty_schemas, reset_body, reset_postgres, Handle, reset, close_lock,
}
use dbdock.Lock.Postgres.Reset.{IsTransactional, reset_postgres-refines}
use dbdock.Lock.Postgres.Contract.{DbModel, reset_spec}
use dbdock.Lock.Postgres.Locking.{done, then_call, call, reset_call, close_lock-final}

abbrev object : Text → Text → DbObject
object kind identity = record { kind = kind; identity = identity }

abbrev rows : List DbObject
rows =
    object (codes "function") (codes "public.total()")
    ∷ object (codes "table") (codes "public.users")
    ∷ []

abbrev public : List Text
public = codes "public" ∷ []

targets_of-IsReplaceable_example :
    All
      (IsReplaceable (restorable_of public))
      (targets_of (some public) public (restorable_of public))
unfolding refused_of refused_schemas restorable_of is_managed_schema
targets_of-IsReplaceable_example = targets_of-IsReplaceable (some public) public public refl

empty_schema_statements-Empties_example : Empties rows (empty_schema_statements rows)
empty_schema_statements-Empties_example = empty_schema_statements-Empties rows

-- A database is its objects; a world is what is committed and what the transaction sees.
abbrev model : DbModel (List DbObject)
model = record {
  execute = λ statement db. filter (λ o. not (text_eq (drop_statement o) statement)) db;
  names = λ db. public;
  droppable = λ db. public;
  listing = λ schema db. if text_eq schema (codes "public") then db else [];
}

abbrev World : Type 0
World = List DbObject × List DbObject

abbrev client : PgClient Unit World
client = record {
  connect = λ w. (ok tt, w);
  try_lock = λ w. (ok true, w);
  unlock = λ w. (ok tt, w);
  close = λ w. (ok tt, w);
  begin = λ w. (ok tt, (w.0, w.0));
  commit = λ w. (ok tt, (w.1, w.1));
  rollback = λ w. (ok tt, (w.0, w.0));
  all_schemas = λ w. (ok (model.names w.1), w);
  droppable_schemas = λ w. (ok (model.droppable w.1), w);
  schema_objects = λ schema w. (ok (model.listing schema w.1), w);
  execute = λ statement w. (ok tt, (w.0, model.execute statement w.1));
}

transactional : IsTransactional client model (λ w. w.0) (λ w. w.1)
transactional = record {
  begin_lem = λ w. (refl, refl);
  all_schemas_lem = λ w. (refl, refl, refl);
  droppable_lem = λ w. (refl, refl, refl);
  schema_objects_lem = λ schema w. (refl, refl, refl);
  execute_lem = λ statement w. (refl, refl);
  commit_lem = λ w. refl;
  rollback_lem = λ w. refl;
}

reset_postgres-refines_example :
    Triple
      (λ w. w.0 ≡ rows)
      (reset_postgres client (some public))
      (λ _ v. reset_spec model (some public) rows ≡ some v.0)
      (λ w. w.0 ≡ rows)
reset_postgres-refines_example =
    reset_postgres-refines client model (λ w. w.0) (λ w. w.1) transactional rows (some public)

-- Both objects are dropped, the function behind the table.
reset_test : (reset_postgres client (some public) (rows, [])) ≡ (ok tt, ([], []))
unfolding reset_postgres reset_body query list_schemas restorable_schemas restorable_of
    empty_schemas run_emptying execute_all empty_schema_statements targets_of refused_of
    refused_schemas is_managed_schema drop_order drop_statement keyword_in sort_by ◌>>=◌
reset_test = refl

abbrev handle : Handle Unit World
handle = record { world = (rows, []); closed = false; lost = none }

abbrev after : Handle Unit World
after = (close_lock client handle).1

abbrev later : Handle Unit World
later = (call client (reset_call none) after).1

close_lock-final_example : (later ≡ after) × ((reset client none later).0 ≡ err released)
close_lock-final_example =
    close_lock-final client handle later none (then_call done (reset_call none))
