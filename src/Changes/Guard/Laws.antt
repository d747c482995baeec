-- ===== src/Changes/Guard/Laws.antt =====
-- src/changes/guard.ts: what the directory of records holds after a guarded change.
use dbdock.Changes.Calls.{After, Triple-called}
use dbdock.Base.{
  ◌≡◌, refl, ap, ◌∙◌, text_eq_refl, Text, Bool, true, false, Option, none, some, ◌⊎◌, inl, inr,
  String, str_eq,
}
use dbdock.Base.Effect.{◌>>=◌, ◌>>◌, Effect, Result, ok, err, try_catch}
use dbdock.Base.Triple.{
  Outcome, Triple, Triple-pure, Triple-throw, Triple-if, Triple-bind, Triple-mono, Triple-try_catch,
}
use dbdock.Cloud.Dict.{Dict, lookup, lookup-insert}
use dbdock.Changes.Record.{
  ChangeRecord, LocalRecord, ChangeError, no_schema, Machine, Outlet, outside, put_record,
  save_record, send_to, send_record, carried,
}
use dbdock.Changes.Guard.{
  Outside, Call, GuardResult, first_record, completed, broken, then_close, try_finally,
  schema_before, summary_after, report_failure, report_success, guarded_body, run_guarded_change,
  reads_schema,
}

-- A directory that holds the record, with this mark.
abbrev Holds : ChangeRecord → Bool → Dict LocalRecord → Type 0
Holds r synced d = lookup r.id d ≡ some (record { saved = r; synced = synced })

module _ {W : Type 0} where
  -- The record is saved, with this mark.
  abbrev pub IsStored : ChangeRecord → Bool → Machine W → Type 0
  IsStored r synced s = lookup r.id s.records ≡ some (record { saved = r; synced = synced })

module _ {E W : Type 0} where
  module _ (K : Dict LocalRecord → Type 0) where
    Outcome-carried :
        {A : Type 0} (s : Machine W) (r : Result E A × W)
        → K s.records
        → Outcome (λ _ s. K s.records) (λ s. K s.records) (carried s r)
    Outcome-carried s (ok x, w) h = h
    Outcome-carried s (err e, w) h = h

    -- The outside does not touch the records.
    Triple-outside :
        {A : Type 0} (m : Effect E W A)
        → Triple (λ s. K s.records) (outside m) (λ _ s. K s.records) (λ s. K s.records)
    unfolding outside
    Triple-outside m = record { run = λ s h. Outcome-carried s (m s.world) h }

  module _ (outlet : Outlet E W) where
    Triple-save :
        (K : Dict LocalRecord → Type 0) (r : ChangeRecord) (synced : Bool)
        → Triple
            (λ s. K s.records)
            (save_record outlet r synced)
            (λ _ s. IsStored r synced s)
            (λ s. K s.records)
    unfolding save_record put_record
    Triple-save K r synced =
        Triple-bind (λ _ s. K s.records) _ _ (Triple-outside K outlet.ignore_artifacts)
          (λ _.
            Triple-bind (λ _ s. K s.records) _ _ (Triple-outside K outlet.write_file)
              (λ _. record {
                run = λ s h. lookup-insert r.id r.id _ s.records ∙ rw (text_eq_refl r.id) refl;
              }))

    Triple-send_to :
        (project : Option String) (r : ChangeRecord)
        → Triple
            (IsStored r false)
            (send_to outlet project r)
            (λ sent s. IsStored r sent s)
            (λ _. ⊥)
    unfolding send_to
    Triple-send_to none r = Triple-pure false (λ s h. h)
    Triple-send_to (some project) r =
        Triple-if (str_eq project "") (λ _. Triple-pure false (λ s h. h))
          (λ _.
            Triple-try_catch (IsStored r false) _ _
              (Triple-bind (λ _ s. IsStored r false s) _ _ (Triple-outside (Holds r false) _)
                (λ _.
                  Triple-bind (λ _ s. IsStored r true s) _ _ (Triple-save (Holds r false) r true)
                    (λ _. Triple-pure true (λ s h. h))))
              (λ e. Triple-pure false (λ s h. h)))

    -- A record that is saved stays so when it is sent, and is marked exactly where it was sent; the
    -- sending never throws.
    pub send_record-IsStored :
        (r : ChangeRecord)
        → Triple (IsStored r false) (send_record outlet r) (λ sent s. IsStored r sent s) (λ _. ⊥)
    unfolding send_record
    send_record-IsStored r = Triple-send_to outlet.project_id r

-- A record of the change that names a checkpoint: unfinished, failed or finished.
pub data IsRecordOf (call : Call) (checkpoint_id : Text) : ChangeRecord → Type 0 where
  unfinished : IsRecordOf call checkpoint_id (first_record call checkpoint_id)
  stopped : IsRecordOf call checkpoint_id (broken call checkpoint_id)
  finished : (summary : Text) → IsRecordOf call checkpoint_id (completed call checkpoint_id summary)

module _ {E W Schema Scope Value : Type 0} (out : Outside E W Schema Scope Value)
    (outlet : Outlet E W) (call : Call) (s0 : Machine W) where
  -- The calls before the checkpoint, in their order from the world of `s0`: the lock, the check, the
  -- schema where it is read, and the scope.
  abbrev Locked : W → Type 0
  Locked = After (λ w. w ≡ s0.world) out.lock tt

  abbrev Ready : W → Type 0
  Ready = After Locked out.prepare tt

  abbrev Seen : Bool → W → Type 0
  Seen true v = (before : Schema) × After Ready out.schema before v
  Seen false v = Ready v

  abbrev Scoped : Scope → W → Type 0
  Scoped scope = After (Seen (reads_schema call.kind)) out.scope scope

  -- After those calls, this is the id of the checkpoint taken of the scope, which has schemas.
  abbrev pub IsCheckpoint : Text → Type 0
  IsCheckpoint c =
      (scope : Scope) × (v : W) × (out.has_schemas scope ≡ true)
      × After (Scoped scope) (out.checkpoint scope) c v

  -- The records as they were, or one of this change among them.
  abbrev pub Left : Machine W → Type 0
  Left s =
      (s.records ≡ s0.records)
      ⊎ ((c : Text) × (r : ChangeRecord) × (synced : Bool) × IsCheckpoint c
          × IsRecordOf call c r
          × (lookup call.id s.records ≡ some (record { saved = r; synced = synced })))

  abbrev Untouched : Machine W → Type 0
  Untouched s = s.records ≡ s0.records

  -- What a return promises: its record is finished, and saved with the mark that it reports.
  abbrev pub Done : GuardResult Value → Machine W → Type 0
  Done r s =
      (c : Text) × (summary : Text) × IsCheckpoint c
      × (r.change_record ≡ completed call c summary)
      × IsStored (completed call c summary) r.synced s

  module _ (c : Text) (taken : IsCheckpoint c) where
    abbrev Logged : Machine W → Type 0
    Logged s = IsStored (first_record call c) false s

    Logged-Left : (s : Machine W) → Logged s → Left s
    Logged-Left s h = inr (c, first_record call c, false, taken, unfinished, h)

    Triple-schema_again :
        (before : Option Schema) (summary : Text)
        → Triple Logged (summary_after out outlet call before summary) (λ _ s. Logged s) Left
    unfolding summary_after
    Triple-schema_again none summary = Triple-pure summary (λ s h. h)
    Triple-schema_again (some before) summary =
        Triple-try_catch Logged _ _
          (Triple-bind (λ _ s. Logged s) _ _
            (Triple-outside (Holds (first_record call c) false) out.schema)
            (λ after. Triple-pure _ (λ s h. h)))
          (λ e. Triple-pure summary (λ s h. h))

    Triple-success :
        (before : Option Schema) (value : Value)
        → Triple Logged (report_success out outlet call c before value) Done Left
    unfolding report_success
    Triple-success before value =
        Triple-bind (λ _ s. Logged s) _ _ (Triple-schema_again before _)
          (λ summary.
            Triple-bind (λ _ s. IsStored (completed call c summary) false s) _ _
              (Triple-mono (λ s h. h) (λ x s h. h) Logged-Left
                (Triple-save outlet (Holds (first_record call c) false) (completed call c summary)
                  false))
              (λ _.
                Triple-bind (λ sent s. IsStored (completed call c summary) sent s) _ _
                  (Triple-mono (λ s h. h) (λ x s h. h) (λ s bad. absurd bad)
                    (send_record-IsStored outlet (completed call c summary)))
                  (λ sent. Triple-pure _ (λ s h. (c, summary, taken, refl, h)))))

    Triple-failure :
        (cause : ChangeError E)
        → Triple Logged (report_failure out outlet call c cause) (λ _ s. ⊥) Left
    unfolding report_failure
    Triple-failure cause =
        Triple-bind (λ _ s. IsStored (broken call c) false s) _ _
          (Triple-mono (λ s h. h) (λ x s h. h) Logged-Left
            (Triple-save outlet (Holds (first_record call c) false) (broken call c) false))
          (λ _.
            Triple-bind (λ sent s. IsStored (broken call c) sent s) _ _
              (Triple-mono (λ s h. h) (λ x s h. h) (λ s bad. absurd bad)
                (send_record-IsStored outlet (broken call c)))
              (λ sent. Triple-throw _ (λ s h. inr (c, broken call c, sent, taken, stopped, h))))

    Triple-change :
        Triple Logged
          (try_catch (outside out.change) (report_failure out outlet call c))
          (λ _ s. Logged s)
          Left
    Triple-change =
        Triple-try_catch Logged _ _ (Triple-outside (Holds (first_record call c) false) out.change)
          (λ e. Triple-mono (λ s h. h) (λ x s bad. absurd bad) (λ s h. h) (Triple-failure e))

  Triple-before :
      (b : Bool)
      → Triple
          (λ s. Ready s.world × Untouched s)
          (schema_before out outlet call b)
          (λ _ s. Seen b s.world × Untouched s)
          Left
  unfolding schema_before
  Triple-before true =
      Triple-bind _ _ _
        (Triple-mono (λ s h. h) (λ x s h. h) (λ s h. inl h.1)
          (Triple-called Ready (λ d. d ≡ s0.records) out.schema))
        (λ x. Triple-pure _ (λ s h. ((x, h.0), h.1)))
  Triple-before false = Triple-pure none (λ s h. h)

  -- From the checkpoint on.
  Triple-changed :
      (before : Option Schema) (c : Text)
      → IsCheckpoint c
      → Triple Untouched
          (do
            save_record outlet (first_record call c) false
            value ← try_catch (outside out.change) (report_failure out outlet call c)
            report_success out outlet call c before value)
          Done
          Left
  Triple-changed before c taken =
      Triple-bind (λ _ s. Logged c taken s) _ _
        (Triple-mono (λ s h. h) (λ x s h. h) (λ s h. inl h)
          (Triple-save outlet (λ d. d ≡ s0.records) (first_record call c) false))
        (λ _.
          Triple-bind (λ _ s. Logged c taken s) _ _ (Triple-change c taken)
            (λ value. Triple-success c taken before value))

  Triple-body : Triple (λ s. Locked s.world × Untouched s) (guarded_body out outlet call) Done Left
  unfolding guarded_body
  Triple-body =
      Triple-bind (λ _ s. Ready s.world × Untouched s) _ _
        (Triple-mono (λ s h. h) (λ x s h. h) (λ s h. inl h.1)
          (Triple-called Locked (λ d. d ≡ s0.records) out.prepare))
        (λ _.
          Triple-bind (λ _ s. Seen (reads_schema call.kind) s.world × Untouched s) _ _
            (Triple-before (reads_schema call.kind))
            (λ before.
              Triple-bind (λ scope s. Scoped scope s.world × Untouched s) _ _
                (Triple-mono (λ s h. h) (λ x s h. h) (λ s h. inl h.1)
                  (Triple-called (Seen (reads_schema call.kind)) (λ d. d ≡ s0.records) out.scope))
                (λ scope.
                  Triple-if (out.has_schemas scope)
                    (λ full.
                      Triple-bind
                        (λ c s. After (Scoped scope) (out.checkpoint scope) c s.world × Untouched s)
                        _ _
                        (Triple-mono (λ s h. h) (λ x s h. h) (λ s h. inl h.1)
                          (Triple-called (Scoped scope) (λ d. d ≡ s0.records)
                            (out.checkpoint scope)))
                        (λ c. record {
                          run = λ s h.
                              (Triple-changed before c (scope, s.world, full, h.0)).run s h.1;
                        }))
                    (λ _. Triple-throw no_schema (λ s h. inl h.1)))))

  Outcome-close :
      (r : Result (ChangeError E) (GuardResult Value)) (s : Machine W) (close : Result E Unit × W)
      → Outcome Done Left (r, s)
      → Outcome Done Left (then_close r (carried s close))
  Outcome-close (ok x) s (ok u, w) h = h
  Outcome-close (err e) s (ok u, w) h = h
  Outcome-close (ok x) s (err e, w) h =
      let (c, summary, taken, same, stored) = h in
      inr (c, completed call c summary, x.synced, taken, finished summary, stored)
  Outcome-close (err f) s (err e, w) h = h

  -- A guarded change that returns has its record saved as succeeded and finished, with the id of the
  -- checkpoint that it took, under the lock and after the check, of a scope that has schemas; and the
  -- record is marked as sent exactly where the result says so. One that throws, wherever it does, has
  -- left the records as they were, or has a record of this change among them, with such an id.
  pub run_guarded_change-Done : Triple (λ s. s ≡ s0) (run_guarded_change out outlet call) Done Left
  unfolding run_guarded_change try_finally outside
  run_guarded_change-Done =
      Triple-bind (λ _ s. Locked s.world × Untouched s) _ _
        (Triple-mono (λ s h. (ap (λ t. t.world) h, ap (λ t. t.records) h)) (λ x s h. h)
          (λ s h. inl h.1) (Triple-called (λ w. w ≡ s0.world) (λ d. d ≡ s0.records) out.lock))
        (λ _. record { run = λ s h. closed (guarded_body out outlet call s) (Triple-body.run s h) })
    where
      closed :
          (r : Result (ChangeError E) (GuardResult Value) × Machine W)
          → Outcome Done Left r
          → Outcome Done Left (then_close r.0 (outside out.close r.1))
      closed (r, s) h = Outcome-close r s (out.close s.world) h
