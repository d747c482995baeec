-- ===== src/Changes/Guard/Tests.antt =====
-- src/changes at a change that fails and at one that goes through.
use dbdock.Changes.Guard.Clean.{Conceals, Clean, run_guarded_change-Conceals}
use dbdock.Base.{any, text_eq, ◌⊎◌, arith, ℕ, ◌+◌, ◌≡◌, refl, codes, true, none, some, [], ◌∷◌}
use dbdock.Base.Effect.{Effect, ok, err, ◌>>=◌}
use dbdock.Base.Triple.{Triple}
use dbdock.Cloud.Dict.{insert}
use dbdock.Changes.Record.{
  Metadata, agent, sql, Machine, Outlet, outside, put_record, save_record, send_to, send_record,
}
use dbdock.Changes.Guard.{
  Outside, Call, redact, schema_before, report_failure, report_success, guarded_body, try_finally,
  run_guarded_change, broken,
}
use dbdock.Changes.Guard.Laws.{Done, Left, run_guarded_change-Done}

abbrev metadata : Metadata
metadata = record {
  actor = codes "ann";
  actor_kind = agent;
  context = codes "local";
  kind = sql;
  summary = codes "Run SQL";
  deploy = some (codes "abcdef1");
  session = some (codes "with hunter2");
}

abbrev call : Call
call = record {
  kind = some sql;
  metadata = metadata;
  storage = codes "local";
  restored_checkpoint_id = none;
  id = codes "chg_1";
  occurred_at = 10;
  completed_at = 20;
  credentials = codes "hunter2" ∷ [];
}

-- The world counts the calls.
abbrev step : {A : Type 0} → A → Effect Unit ℕ A
step a w = (ok a, w + 1)

abbrev fails : {A : Type 0} → Effect Unit ℕ A
fails w = (err tt, w + 1)

abbrev database : Effect Unit ℕ Unit → Outside Unit ℕ Unit Unit Unit
database change = record {
  lock = step tt;
  close = step tt;
  prepare = step tt;
  schema = step tt;
  scope = step tt;
  has_schemas = λ s. true;
  checkpoint = λ s. step (codes "cp_1");
  change = change;
  schema_summary = λ a b. none;
}

abbrev outlet : Outlet Unit ℕ
outlet = record {
  ignore_artifacts = step tt;
  write_file = step tt;
  read_files = step tt;
  project_id = some "p";
  ingest = λ p r. step tt;
}

abbrev machine : Machine ℕ
machine = record { world = 0; records = [] }

failed_test :
    (run_guarded_change (database fails) outlet call machine).1.records
    ≡ (codes "chg_1", record { saved = broken call (codes "cp_1"); synced = true }) ∷ []
unfolding run_guarded_change try_finally guarded_body schema_before report_failure report_success
    save_record put_record send_record send_to outside redact insert ◌>>=◌
failed_test = refl

run_guarded_change-Done_example :
    Triple
      (λ s. s ≡ machine)
      (run_guarded_change (database (step tt)) outlet call)
      (Done (database (step tt)) outlet call machine)
      (Left (database (step tt)) outlet call machine)
run_guarded_change-Done_example = run_guarded_change-Done (database (step tt)) outlet call machine

secret_test : any (text_eq (codes "hunter2")) call.credentials ≡ true
secret_test = refl

run_guarded_change-Conceals_example :
    Triple
      (λ s. s ≡ machine)
      (run_guarded_change (database (step tt)) outlet call)
      (λ r s. Conceals (codes "hunter2") r.change_record.metadata × Clean (codes "hunter2") call s)
      (λ s. (s.records ≡ []) ⊎ Clean (codes "hunter2") call s)
run_guarded_change-Conceals_example =
    run_guarded_change-Conceals (codes "hunter2") (omega arith) call secret_test
      (database (step tt)) outlet machine
