-- ===== src/Lock/Postgres/Reset.antt =====
-- src/standalone/database-lock.ts: `resetPostgres` against what a transaction of Postgres promises.
use dbdock.Base.{Text, ◌≡◌, refl, sym, ap, ◌∙◌, Option, some, List, [], ◌∷◌}
use dbdock.Base.Effect.{Effect, Result, ok, err, ◌>>◌}
use dbdock.Base.Triple.{
  Outcome, Triple, Triple-pure, Triple-throw, Triple-bind, Triple-given, Triple-try_catch,
}
use dbdock.Lock.Schemas.{Emptying, statements, unknown_objects, restorable_of}
use dbdock.Lock.Postgres.{
  PgClient, LockError, named, query, ignored, list_schemas, restorable_schemas, execute_all,
  run_emptying, empty_schemas, require_allowed, reset_body, reset_postgres,
}
use dbdock.Lock.Postgres.Contract.{
  execute_list, emptied_by, emptied, unless_refused, reset_spec, DbModel,
}

module _ {E W Db : Type 0} (client : PgClient E W) (model : DbModel Db) (committed : W → Db)
    (working : W → Db) where
  -- Nothing committed changes.
  abbrev pub Same : W → W → Type 0
  Same w v = committed v ≡ committed w

  -- A reader of the transaction sees its own work.
  abbrev pub Reads : {A : Type 0} → (Db → A) → W → A → W → Type 0
  Reads f w x v = Same w v × (working v ≡ working w) × (x ≡ f (working w))

  -- A statement fails or is seen within the transaction; a transaction takes effect by its commit
  -- or, where that fails, not at all.
  pub record IsTransactional : Type 0 where
    pub begin_lem :
        (w : W) → Outcome (λ _ v. Same w v × (working v ≡ committed w)) (Same w) (client.begin w)
    pub all_schemas_lem : (w : W) → Outcome (Reads model.names w) (Same w) (client.all_schemas w)
    pub droppable_lem :
        (w : W) → Outcome (Reads model.droppable w) (Same w) (client.droppable_schemas w)
    pub schema_objects_lem :
        (schema : Text) (w : W)
        → Outcome (Reads (model.listing schema) w) (Same w) (client.schema_objects schema w)
    pub execute_lem :
        (statement : Text) (w : W)
        → Outcome
            (λ _ v. Same w v × (working v ≡ model.execute statement (working w)))
            (Same w)
            (client.execute statement w)
    pub commit_lem : (w : W) → Outcome (λ _ v. committed v ≡ working w) (Same w) (client.commit w)
    pub rollback_lem : (w : W) → Outcome (λ _ v. Same w v) (Same w) (client.rollback w)

  module _ (tx : IsTransactional) (start : Db) where
    -- Within the transaction, whose work so far is `db`.
    abbrev In : Db → W → Type 0
    In db w = (committed w ≡ start) × (working w ≡ db)

    abbrev Kept : W → Type 0
    Kept w = committed w ≡ start

    Outcome-named :
        {A : Type 0} (Q : A → W → Type 0) (r : Result E A × W)
        → Outcome Q Kept r
        → Outcome Q Kept (named r)
    Outcome-named Q (ok x, w) h = h
    Outcome-named Q (err e, w) h = h

    Outcome-at :
        {A : Type 0} (f : Db → A) (db : Db) (w : W) (r : Result E A × W)
        → In db w
        → Outcome (Reads f w) (Same w) r
        → Outcome (λ x v. In db v × (x ≡ f db)) Kept r
    Outcome-at f db w (ok x, v) h q = ((q.0 ∙ h.0, q.1 ∙ h.1), q.2 ∙ ap f h.1)
    Outcome-at f db w (err e, v) h q = q ∙ h.0

    Triple-read :
        {A : Type 0} (f : Db → A) (db : Db) (m : Effect E W A)
        → ((w : W) → Outcome (Reads f w) (Same w) (m w))
        → Triple (In db) (query m) (λ x v. In db v × (x ≡ f db)) Kept
    unfolding query
    Triple-read f db m h = record {
      run = λ w p. Outcome-named _ (m w) (Outcome-at f db w (m w) p (h w));
    }

    Outcome-executed :
        (statement : Text) (db : Db) (w : W) (r : Result E Unit × W)
        → In db w
        → Outcome (λ _ v. Same w v × (working v ≡ model.execute statement (working w))) (Same w) r
        → Outcome (λ _ v. In (model.execute statement db) v) Kept r
    Outcome-executed statement db w (ok x, v) h q =
        (q.0 ∙ h.0, q.1 ∙ ap (model.execute statement) h.1)
    Outcome-executed statement db w (err e, v) h q = q ∙ h.0

    Triple-execute_all :
        (drops : List Text) (db : Db)
        → Triple (In db) (execute_all client drops) (λ _ v. In (execute_list model drops db) v) Kept
    unfolding execute_all query
    Triple-execute_all [] db = Triple-pure tt (λ s h. h)
    Triple-execute_all (d ∷ drops) db =
        Triple-bind (λ _ v. In (model.execute d db) v) _ _
          (record {
            run = λ w p.
                Outcome-named _ (client.execute d w)
                  (Outcome-executed d db w (client.execute d w) p (tx.execute_lem d w));
          })
          (λ _. Triple-execute_all drops (model.execute d db))

    -- The state after the loop is the one that the contract names.
    abbrev Reached : Option Db → W → Type 0
    Reached goal w = (db : Db) × (goal ≡ some db) × In db w

    Triple-run_emptying :
        (e : Emptying) (more : Db → Option Db) (rest : Effect (LockError E) W Unit) (db : Db)
        → ((db : Db) → Triple (In db) rest (λ _ v. Reached (more db) v) Kept)
        → Triple
            (In db)
            (run_emptying client e >> rest)
            (λ _ v. Reached (emptied_by model more e db) v)
            Kept
    unfolding run_emptying
    Triple-run_emptying (unknown_objects os) more rest db h =
        Triple-bind (λ _ _. ⊥) _ _ (Triple-throw _ (λ s p. p.0))
          (λ _. record { run = λ s bad. absurd bad })
    Triple-run_emptying (statements drops) more rest db h =
        Triple-bind (λ _ v. In (execute_list model drops db) v) _ _ (Triple-execute_all drops db)
          (λ _. h (execute_list model drops db))

    Triple-empty_schemas :
        (schemas : List Text) (db : Db)
        → Triple
            (In db)
            (empty_schemas client schemas)
            (λ _ v. Reached (emptied model schemas db) v)
            Kept
    unfolding empty_schemas
    Triple-empty_schemas [] db = Triple-pure tt (λ s h. (db, refl, h))
    Triple-empty_schemas (schema ∷ schemas) db =
        Triple-bind (λ rows v. In db v × (rows ≡ model.listing schema db)) _ _
          (Triple-read (model.listing schema) db _ (tx.schema_objects_lem schema))
          (λ rows. Triple-given (λ same.
            rw same
              (Triple-run_emptying _ (emptied model schemas) _ db (Triple-empty_schemas schemas))))

    Triple-restorable :
        (db : Db)
        → Triple
            (In db)
            (restorable_schemas client)
            (λ names v. In db v × (names ≡ restorable_of (model.droppable db)))
            Kept
    unfolding restorable_schemas
    Triple-restorable db =
        Triple-bind (λ names v. In db v × (names ≡ model.droppable db)) _ _
          (Triple-read model.droppable db _ tx.droppable_lem)
          (λ names. Triple-pure _ (λ s h. (h.0, ap restorable_of h.1)))

    Outcome-committed :
        (goal : Option Db) (w : W) (r : Result E Unit × W)
        → Reached goal w
        → Outcome (λ _ v. committed v ≡ working w) (Same w) r
        → Outcome (λ _ v. goal ≡ some (committed v)) Kept r
    Outcome-committed goal w (ok x, v) h q = let (db, same, i) = h in same ∙ ap some (sym (q ∙ i.1))
    Outcome-committed goal w (err e, v) h q = let (db, same, i) = h in q ∙ i.0

    Triple-commit :
        (goal : Option Db)
        → Triple (Reached goal) (query client.commit) (λ _ v. goal ≡ some (committed v)) Kept
    unfolding query
    Triple-commit goal = record {
      run = λ w p.
          Outcome-named _ (client.commit w)
            (Outcome-committed goal w (client.commit w) p (tx.commit_lem w));
    }

    Triple-allowed :
        (refused : List Text) (goal : Option Db) (rest : Effect (LockError E) W Unit) (db : Db)
        → Triple (In db) rest (λ _ v. goal ≡ some (committed v)) Kept
        → Triple
            (In db)
            (require_allowed client refused >> rest)
            (λ _ v. unless_refused model refused goal ≡ some (committed v))
            Kept
    Triple-allowed [] goal rest db h =
        Triple-bind (λ _ v. In db v) _ _ (Triple-pure tt (λ s p. p)) (λ _. h)
    Triple-allowed (name ∷ names) goal rest db h =
        Triple-bind (λ _ _. ⊥) _ _ (Triple-throw _ (λ s p. p.0))
          (λ _. record { run = λ s bad. absurd bad })

    Triple-body :
        (schemas : Option (List Text))
        → Triple
            (In start)
            (reset_body client schemas)
            (λ _ v. reset_spec model schemas start ≡ some (committed v))
            Kept
    unfolding reset_body list_schemas reset_spec
    Triple-body schemas =
        Triple-bind (λ existing v. In start v × (existing ≡ model.names start)) _ _
          (Triple-read model.names start _ tx.all_schemas_lem)
          (λ existing. Triple-given (λ same. rw same (
            Triple-bind (λ names v. In start v × (names ≡ restorable_of (model.droppable start))) _
              _ (Triple-restorable start)
              (λ restorable. Triple-given (λ same. rw same (
                Triple-allowed _ _ _ start (
                  Triple-bind (λ _ v. Reached _ v) _ _ (Triple-empty_schemas _ start)
                    (λ _. Triple-commit _))))))))

    Triple-ignored_rollback : Triple Kept (ignored client.rollback) (λ _ v. Kept v) Kept
    unfolding ignored query
    Triple-ignored_rollback =
        Triple-try_catch Kept _ _
          (record {
            run = λ w p.
                Outcome-named _ (client.rollback w)
                  (kept_by w (client.rollback w) p (tx.rollback_lem w));
          })
          (λ e. Triple-pure tt (λ s h. h))
      where
        kept_by :
            (w : W) (r : Result E Unit × W)
            → Kept w
            → Outcome (λ _ v. Same w v) (Same w) r
            → Outcome (λ _ v. Kept v) Kept r
        kept_by w (ok x, v) h q = q ∙ h
        kept_by w (err e, v) h q = q ∙ h

    Outcome-begun :
        (w : W) (r : Result E Unit × W)
        → Kept w
        → Outcome (λ _ v. Same w v × (working v ≡ committed w)) (Same w) r
        → Outcome (λ _ v. In start v) Kept r
    Outcome-begun w (ok x, v) h q = (q.0 ∙ h, q.1 ∙ h)
    Outcome-begun w (err e, v) h q = q ∙ h

    -- `resetPostgres` on a database `start`, over a client whose transactions are atomic, implements
    -- its contract: where it returns, the database is the one that the contract names, all targets
    -- emptied in order; where it throws, for whatever reason and at whatever step, nothing that is
    -- committed has changed. It cannot return where the contract refuses.
    pub reset_postgres-refines :
        (schemas : Option (List Text))
        → Triple Kept
            (reset_postgres client schemas)
            (λ _ v. reset_spec model schemas start ≡ some (committed v))
            Kept
    unfolding reset_postgres query
    reset_postgres-refines schemas =
        Triple-bind (λ _ v. In start v) _ _
          (record {
            run = λ w p.
                Outcome-named _ (client.begin w)
                  (Outcome-begun w (client.begin w) p (tx.begin_lem w));
          })
          (λ _. Triple-try_catch Kept _ _ (Triple-body schemas) (λ e.
            Triple-bind (λ _ v. Kept v) _ _ Triple-ignored_rollback
              (λ _. Triple-throw e (λ s h. h))))
