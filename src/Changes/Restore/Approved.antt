-- ===== src/Changes/Restore/Approved.antt =====
-- src/changes/restore.ts: nothing is changed before the plan of a restore is approved.
use dbdock.Changes.Calls.{After}
use mathlib.Core.Path.{subst}
use dbdock.Base.{
  ap, sym, Text, ◌≡◌, refl, ◌⊎◌, inl, inr, Bool, true, false, ◌&&◌, not, Option, none, some, List,
  [], ◌∷◌,
}
use dbdock.Base.Effect.{Effect, Result, ok, err}
use dbdock.Base.Triple.{
  Triple-given, Outcome, Triple, Triple-pure, Triple-throw, Triple-if, Triple-bind, Triple-mono,
  Triple-keep,
}
use dbdock.Changes.Record.{Machine, ChangeError, Outlet, outside, carried}
use dbdock.Changes.Guard.{Outside, Call, guarded_body, run_guarded_change, try_finally, then_close}
use dbdock.Changes.Restore.{
  Checkpoint, RestorePlan, RestoreError, RestoreOptions, RestoreTools, RestoreConfig, passing,
  as_io, has_confirm, open_checkpoint, refused_in, plan_of, require_yes, ask, require_none,
  check_plan, guarded, restore_call, restore_outlet, restore_checkpoint, holds_whole_database,
  lacks_key, whole_database, wrong_key,
}

module _ {E W Schema Scope : Type 0} (db : Outside E W Schema Scope Unit) (outlet : Outlet E W)
    (tools : RestoreTools E W) (options : RestoreOptions E W) (config : RestoreConfig)
    (K : W → Type 0) where
  -- What a call leaves where it found `K`.
  abbrev pub Calm : {A : Type 0} → Effect E W A → Type 0
  Calm m = (w : W) → K w → Outcome (λ _ v. K v) K (m w)

  -- The calls that a restore makes before its plan is approved leave what `K` says.
  pub record IsHarmless : Type 0 where
    pub read_lem : (id : Text) → Calm (tools.read_checkpoint id)
    pub lock_lem : Calm db.lock
    pub close_lem : Calm db.close
    pub lists_lem : Calm tools.schema_lists
    pub plan_lem : (plan : RestorePlan) → Calm (options.on_plan plan)
    pub confirm_lem :
        (confirm : RestorePlan → Effect E W Bool)
        → options.confirm ≡ some confirm
        → (plan : RestorePlan) → Calm (confirm plan)

  module _ (id : Text) (s0 : Machine W) where
    -- The calls of a restore, in their order from the world of `s0`: the reading of the checkpoint,
    -- the lock, the reading of the schemas, and the plan as it is shown.
    abbrev Opened : Checkpoint → W → Type 0
    Opened = After (λ w. w ≡ s0.world) (tools.read_checkpoint id)

    abbrev Locked : Checkpoint → W → Type 0
    Locked c = After (Opened c) db.lock tt

    abbrev Listed : Checkpoint → List Text × List Text → W → Type 0
    Listed c = After (Locked c) tools.schema_lists

    abbrev plan_in : Checkpoint → List Text × List Text → RestorePlan
    plan_in c lists = plan_of db outlet tools options config c lists.0

    abbrev Shown : Checkpoint → List Text × List Text → W → Type 0
    Shown c lists = After (Listed c lists) (options.on_plan (plan_in c lists)) tt

    -- The caller accepted the loss of later writes up front, or then answered yes to the plan.
    abbrev Confirmed : RestorePlan → W → Type 0
    Confirmed plan v =
        (options.confirm_later_writes ≡ true)
        ⊎ ((confirm : RestorePlan → Effect E W Bool) × (u : W) × (options.confirm ≡ some confirm)
            × (confirm plan v ≡ (ok true, u)))

    -- The checkpoint's test before the lock: it names schemas where it must, and the key is there.
    abbrev IsUsable : Checkpoint → Type 0
    IsUsable c =
        (holds_whole_database db outlet tools options config c ≡ false)
        × (lacks_key db outlet tools options config c ≡ false)

    -- The checkpoint that was read is usable, its schemas may all be replaced by the lists that were
    -- read, and the plan made of them was shown and then confirmed.
    abbrev pub Approval : Type 0
    Approval =
        (c : Checkpoint) × (lists : List Text × List Text) × (v : W) × IsUsable c
        × (refused_in db outlet tools options config c lists.0 lists.1 ≡ [])
        × Shown c lists v
        × Confirmed (plan_in c lists) v

    -- Nothing has been changed, and no record is saved.
    abbrev pub Still : Machine W → Type 0
    Still s = K s.world × (s.records ≡ s0.records)

    module _ (harmless : IsHarmless) where
      Outcome-passed :
          {A : Type 0} (P : W → Type 0) (m : Effect E W A) (w : W) (r : Result E A × W)
          → P w
          → m w ≡ r
          → Outcome (λ _ v. K v) K r
          → Outcome (λ x v. After P m x v × K v) K (as_io r)
      Outcome-passed P m w (ok x, v) p e h = ((w, p, e), h)
      Outcome-passed P m w (err f, v) p e h = h

      -- A call is known, and leaves what `K` says.
      Triple-passed :
          {A : Type 0} (P : W → Type 0) (m : Effect E W A)
          → Calm m
          → Triple (λ v. P v × K v) (passing m) (λ x v. After P m x v × K v) K
      unfolding passing
      Triple-passed P m h = record { run = λ w k. Outcome-passed P m w (m w) k.0 refl (h w k.1) }

      module _ (c : Checkpoint) (lists : List Text × List Text) where
        -- The plan was shown, and confirmed.
        abbrev Agreed : Type 0
        Agreed = (v : W) × Shown c lists v × Confirmed (plan_in c lists) v

        Outcome-answer :
            (confirm : RestorePlan → Effect E W Bool) (u : W) (r : Result E Bool × W)
            → options.confirm ≡ some confirm
            → confirm (plan_in c lists) u ≡ r
            → Shown c lists u
            → Outcome (λ _ v. K v) K r
            → Outcome (λ yes v. K v × ((yes ≡ true) → Agreed)) K (as_io r)
        Outcome-answer confirm u (ok true, v) is h shown k =
            (k, λ e. (u, shown, inr (confirm, v, is, h)))
        Outcome-answer confirm u (ok false, v) is h shown k = (k, λ e. cc)
        Outcome-answer confirm u (err e, v) is h shown k = k

        Triple-require_yes :
            (yes : Bool)
            → Triple
                (λ v. K v × ((yes ≡ true) → Agreed))
                (require_yes db outlet tools options config yes)
                (λ _ v. K v × Agreed)
                K
        Triple-require_yes true = Triple-pure tt (λ v h. (h.0, h.1 refl))
        Triple-require_yes false = Triple-throw _ (λ v h. h.0)

        Triple-ask :
            (b : Bool) (o : Option (RestorePlan → Effect E W Bool))
            → options.confirm_later_writes ≡ b
            → options.confirm ≡ o
            → (not b && not (elim o [ none ↦ false | some f ↦ true ])) ≡ false
            → Triple
                (λ v. Shown c lists v × K v)
                (ask db outlet tools options config (plan_in c lists) b o)
                (λ _ v. K v × Agreed)
                K
        unfolding ask passing
        Triple-ask true o is_b is_o h = Triple-pure tt (λ v k. (k.1, (v, k.0, inl is_b)))
        Triple-ask false none is_b is_o h = absurd cc
        Triple-ask false (some confirm) is_b is_o h =
            Triple-bind (λ yes v. K v × ((yes ≡ true) → Agreed)) _ _
              (record {
                run = λ u k.
                    Outcome-answer confirm u (confirm (plan_in c lists) u) is_o refl k.0
                      (harmless.confirm_lem confirm is_o (plan_in c lists) u k.1);
              })
              Triple-require_yes

      Triple-require_none :
          (P : W → Type 0) (names : List Text)
          → ((v : W) → P v → K v)
          → Triple P
              (require_none db outlet tools options config names)
              (λ _ v. P v × (names ≡ []))
              K
      Triple-require_none P [] f = Triple-pure tt (λ v k. (k, refl))
      Triple-require_none P (name ∷ names) f = Triple-throw _ f

      -- The caller has some say.
      abbrev Asks : Type 0
      Asks = (not options.confirm_later_writes && not (has_confirm options)) ≡ false

      Triple-check_plan :
          (c : Checkpoint)
          → IsUsable c
          → Asks
          → Triple
              (λ v. Locked c v × K v)
              (check_plan db outlet tools options config c)
              (λ _ v. K v × Approval)
              K
      unfolding check_plan
      Triple-check_plan c usable h =
          Triple-bind _ _ _ (Triple-passed (Locked c) tools.schema_lists harmless.lists_lem)
            (λ lists.
              Triple-bind _ _ _ (Triple-require_none (λ v. Listed c lists v × K v) _ (λ v k. k.1))
                (λ _. Triple-given (λ allowed.
                  Triple-bind _ _ _
                    (Triple-passed (Listed c lists) _ (harmless.plan_lem (plan_in c lists)))
                    (λ _.
                      Triple-mono (λ v k. k)
                        (λ x v k. (k.0, (c, lists, k.1.0, usable, allowed, k.1.1, k.1.2)))
                        (λ v k. k)
                        (Triple-ask c lists options.confirm_later_writes options.confirm refl refl
                          h)))))

      Triple-open_checkpoint :
          Triple
            (λ v. (v ≡ s0.world) × K v)
            (open_checkpoint db outlet tools options config id)
            (λ c v. (Opened c v × K v) × IsUsable c × Asks)
            K
      unfolding open_checkpoint
      Triple-open_checkpoint =
          Triple-if _ (λ h. Triple-throw _ (λ v k. k.1))
            (λ h.
              Triple-bind _ _ _
                (Triple-passed (λ w. w ≡ s0.world) (tools.read_checkpoint id)
                  (harmless.read_lem id))
                (λ c.
                  Triple-if (holds_whole_database db outlet tools options config c)
                    (λ _. Triple-throw whole_database (λ v k. k.1))
                    (λ part.
                      Triple-if (lacks_key db outlet tools options config c)
                        (λ _. Triple-throw wrong_key (λ v k. k.1))
                        (λ key. Triple-pure c (λ v k. (k, (part, key), h))))))

      Outcome-outside :
          {A : Type 0} (Q : A → W → Type 0) (s : Machine W) (r : Result (RestoreError E) A × W)
          → s.records ≡ s0.records
          → Outcome Q K r
          → Outcome (λ x t. Q x t.world × (t.records ≡ s0.records)) Still (carried s r)
      Outcome-outside Q s (ok x, w) e h = (h, e)
      Outcome-outside Q s (err f, w) e h = (h, e)

      Triple-outside :
          {A : Type 0} {P : W → Type 0} {Q : A → W → Type 0} (m : Effect (RestoreError E) W A)
          → Triple P m Q K
          → Triple
              (λ s. P s.world × (s.records ≡ s0.records))
              (outside m)
              (λ x t. Q x t.world × (t.records ≡ s0.records))
              Still
      unfolding outside
      Triple-outside {Q} m h = record {
        run = λ s k. Outcome-outside Q s (m s.world) k.1 (h.run s.world k.0);
      }

      closed :
          (s : Machine W) → Still s → Outcome (λ _ t. Still t) Still (outside (passing db.close) s)
      closed s k =
          (Triple-outside (passing db.close) (
              Triple-mono (λ v k. (tt, k)) (λ x v k. k.1) (λ v k. k)
                (Triple-passed (λ _. Unit {0}) db.close harmless.close_lem))).run
            s k

      Outcome-close :
          {A : Type 0} (r : Result (ChangeError (RestoreError E)) A) (s : Machine W)
          (t : Result (ChangeError (RestoreError E)) Unit × Machine W)
          → Outcome (λ _ _. Approval) (λ t. Still t ⊎ Approval) (r, s)
          → (Still s → Outcome (λ _ t. Still t) Still t)
          → Outcome (λ _ _. Approval) (λ t. Still t ⊎ Approval) (then_close r t)
      Outcome-close (ok x) s (ok u, t) h k = h
      Outcome-close (ok x) s (err e, t) h k = inr h
      Outcome-close (err f) s (ok u, t) (inl still) k = inl (k still)
      Outcome-close (err f) s (ok u, t) (inr approval) k = inr approval
      Outcome-close (err f) s (err e, t) (inl still) k = inl (k still)
      Outcome-close (err f) s (err e, t) (inr approval) k = inr approval

      module _ (call : Call) where
        Triple-body :
            (c : Checkpoint)
            → IsUsable c
            → Asks
            → Triple
                (λ s. (Locked c s.world × K s.world) × (s.records ≡ s0.records))
                (guarded_body
                  (guarded db outlet tools options config c)
                  (restore_outlet db outlet tools options config)
                  (restore_call db outlet tools options config id call))
                (λ _ _. Approval)
                (λ s. Still s ⊎ Approval)
        unfolding guarded_body
        Triple-body c usable h =
            Triple-bind (λ _ _. Approval) _ _
              (Triple-mono (λ s k. k) (λ x s k. k.0.1) (λ s k. inl k)
                (Triple-outside _ (Triple-check_plan c usable h)))
              (λ _. Triple-mono (λ s k. k) (λ x s k. k) (λ s k. inr k) (Triple-keep _))

        Triple-guarded :
            (c : Checkpoint)
            → IsUsable c
            → Asks
            → Triple
                (λ s. (Opened c s.world × K s.world) × (s.records ≡ s0.records))
                (run_guarded_change
                  (guarded db outlet tools options config c)
                  (restore_outlet db outlet tools options config)
                  (restore_call db outlet tools options config id call))
                (λ _ _. Approval)
                (λ s. Still s ⊎ Approval)
        unfolding run_guarded_change try_finally
        Triple-guarded c usable h =
            Triple-bind (λ _ s. (Locked c s.world × K s.world) × (s.records ≡ s0.records)) _ _
              (Triple-mono (λ s k. k) (λ x s k. k) (λ s k. inl k)
                (Triple-outside _ (Triple-passed (Opened c) db.lock harmless.lock_lem)))
              (λ _. record {
                run = λ s k. Outcome-close _ _ _ ((Triple-body c usable h).run s k) (closed _);
              })

        -- Nothing is changed by a restore that is not approved. Let `K` say something of the world
        -- at the start that the reading of checkpoints and schemas, the callbacks and the taking and
        -- giving back of the lock leave as it is. Then a restore that returns was approved: the
        -- checkpoint that it read is usable with the key there is; by the schemas that it read under
        -- the lock, it holds none that may not be replaced; and the plan made of these was shown,
        -- and the caller then confirmed it, or had accepted the loss of later writes up front. One
        -- that throws was approved too, or has left what `K` says and the records as they were.
        pub restore_checkpoint-Approval :
            K s0.world
            → Triple
                (λ s. s ≡ s0)
                (restore_checkpoint db outlet tools options config id call)
                (λ _ _. Approval)
                (λ s. Still s ⊎ Approval)
        unfolding restore_checkpoint
        restore_checkpoint-Approval k0 =
            Triple-bind _ _ _
              (Triple-mono
                (λ s e.
                  ((ap (λ t. t.world) e, subst (λ t. K t.world) (sym e) k0), ap (λ t. t.records) e))
                (λ x s k. k) (λ s k. inl k) (Triple-outside _ Triple-open_checkpoint))
              (λ c. record { run = λ s k. (Triple-guarded c k.0.1 k.0.2).run s (k.0.0, k.1) })
