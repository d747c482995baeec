-- ===== src/Changes/Restore/Tests.antt =====
-- src/changes/restore.ts at a database of one schema, whose owner is or is not the caller.
use mathlib.Core.Option.{some-injective}
use mathlib.Core.Path.{subst}
use dbdock.Base.{◌≡◌, refl, ◌⊎◌, Text, codes, Bool, true, false, none, some, List, [], ◌∷◌}
use dbdock.Base.Effect.{Effect, ok, ◌>>=◌}
use dbdock.Base.Triple.{Outcome, Triple}
use dbdock.Lock.Schemas.{refused_schemas, is_managed_schema}
use dbdock.Changes.Record.{
  save_record, put_record, send_record, send_to, Machine, Outlet, outside, person, migration,
}
use dbdock.Changes.Guard.{
  report_success, summary_after, schema_before, Outside, Call, guarded_body, run_guarded_change,
  try_finally,
}
use dbdock.Changes.Restore.{
  restore_change, Checkpoint, RestoreOptions, RestoreTools, RestoreConfig, restore_checkpoint,
  open_checkpoint, check_plan, ask, passing,
}
use dbdock.Changes.Restore.Approved.{IsHarmless, Approval, Still, restore_checkpoint-Approval}

-- The world says whether the schema has been emptied.
abbrev calm : {A : Type 0} → A → Effect Unit Bool A
calm a w = (ok a, w)

abbrev checkpoint : Checkpoint
checkpoint = record {
  storage_key = codes "dbdock_checkpoints/1";
  checksum = codes "0";
  encrypted = false;
  compressed = true;
  key_fingerprint = none;
  schemas = some (codes "public" ∷ []);
}

abbrev tools : List Text → RestoreTools Unit Bool
tools restorable = record {
  read_checkpoint = λ id. calm checkpoint;
  schema_lists = calm (codes "public" ∷ [], restorable);
  reset = λ schemas w. (ok tt, true);
  restore_backup = λ c key empty flags. empty;
  fingerprint = λ key. key;
}

abbrev db : Outside Unit Bool Unit Unit Unit
db = record {
  lock = calm tt;
  close = calm tt;
  prepare = calm tt;
  schema = calm tt;
  scope = calm tt;
  has_schemas = λ s. true;
  checkpoint = λ s. calm (codes "cp_2");
  change = calm tt;
  schema_summary = λ a b. none;
}

abbrev outlet : Outlet Unit Bool
outlet = record {
  ignore_artifacts = calm tt;
  write_file = calm tt;
  read_files = calm tt;
  project_id = none;
  ingest = λ p r. calm tt;
}

abbrev options : RestoreOptions Unit Bool
options = record {
  confirm_later_writes = true;
  on_plan = λ plan. calm tt;
  confirm = some (λ plan. calm false);
}

abbrev config : RestoreConfig
config = record { database_type = codes "postgres"; encryption_key = none }

abbrev call : Call
call = record {
  kind = none;
  metadata = record {
    actor = codes "ann";
    actor_kind = person;
    context = codes "local";
    kind = migration;
    summary = codes "Run migration command";
    deploy = none;
    session = none;
  };
  storage = codes "local";
  restored_checkpoint_id = none;
  id = codes "chg_1";
  occurred_at = 10;
  completed_at = 20;
  credentials = [];
}

abbrev machine : Machine Bool
machine = record { world = false; records = [] }

-- A schema that the caller may not replace: nothing is emptied and no record is saved.
refused_test :
    (restore_checkpoint db outlet (tools []) options config (codes "cp_1") call machine).1 ≡ machine
unfolding restore_checkpoint open_checkpoint run_guarded_change try_finally guarded_body check_plan
    ask passing outside refused_schemas is_managed_schema ◌>>=◌
refused_test = refl

-- The caller is asked, and says yes.
abbrev asking : RestoreOptions Unit Bool
asking = record {
  confirm_later_writes = false;
  on_plan = λ plan. calm tt;
  confirm = some (λ plan. calm true);
}

abbrev own : RestoreTools Unit Bool
own = tools (codes "public" ∷ [])

abbrev Intact : Bool → Type 0
Intact w = w ≡ false

-- The owner's restore empties the schema.
restored_test :
    (restore_checkpoint db outlet own asking config (codes "cp_1") call machine).1.world ≡ true
unfolding restore_checkpoint open_checkpoint run_guarded_change try_finally guarded_body check_plan
    ask passing outside refused_schemas is_managed_schema restore_change report_success
    summary_after schema_before save_record put_record send_record send_to ◌>>=◌
restored_test = refl

harmless : IsHarmless db outlet own asking config Intact
harmless = record {
  read_lem = λ id w k. k;
  lock_lem = λ w k. k;
  close_lem = λ w k. k;
  lists_lem = λ w k. k;
  plan_lem = λ plan w k. k;
  confirm_lem = λ confirm e plan w k.
      subst (λ f. Outcome (λ x v. v ≡ false) (λ v. v ≡ false) (f plan w)) (some-injective _ _ e) k;
}

restore_checkpoint-Approval_example :
    Triple
      (λ s. s ≡ machine)
      (restore_checkpoint db outlet own asking config (codes "cp_1") call)
      (λ _ _. Approval db outlet own asking config Intact (codes "cp_1") machine)
      (λ s.
        Still db outlet own asking config Intact (codes "cp_1") machine s
        ⊎ Approval db outlet own asking config Intact (codes "cp_1") machine)
restore_checkpoint-Approval_example =
    restore_checkpoint-Approval db outlet own asking config Intact (codes "cp_1") machine harmless
      call refl
