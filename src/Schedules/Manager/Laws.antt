-- ===== src/Schedules/Manager/Laws.antt =====
-- src/scheduler/schedule-manager.ts: the names stay distinct and the expressions valid.
use dbdock.Base.{
  sym, ap, ◌⊎◌, ◌≡◌, refl, ◌∙◌, Text, text_eq_iff, false, not, Option, none, some, List, [], ◌∷◌,
  ◌++◌, any, any-append, arith, Bool-cases, inl, inr,
}
use dbdock.Base.Effect.{pure, throw, ◌>>◌}
use dbdock.Base.Triple.{Outcome, Triple, Triple-pure, Triple-throw, Triple-if, Triple-bind}
use dbdock.Schedules.Cron.{validate_cron_expression, CronError}
use dbdock.Schedules.Manager.{
  WriteEnd, written, denied, cut_short, write_content, Schedule, NewSchedule, Updates, Config,
  Content, missing, unparsable, parsed, File, Managed, schedules_of, is_named, update_first,
  remove_first, load_config, save_config, require_cron, check_update, put_schedules, add_schedule,
  update_schedule, remove_schedule, enable_schedule, disable_schedule, clear_all_schedules,
  clear_in, read_content, not_found, already_exists, invalid_cron,
}

-- No name twice, and every expression valid.
abbrev pub IsSound : List Schedule → Type 0
IsSound [] = Unit
IsSound (s ∷ ss) =
    (any (is_named s.name) ss ≡ false) × (validate_cron_expression s.cron ≡ none) × IsSound ss

IsSound-append :
    (ss : List Schedule) (s : Schedule)
    → IsSound ss
    → any (is_named s.name) ss ≡ false
    → validate_cron_expression s.cron ≡ none
    → IsSound (ss ++ s ∷ [])
IsSound-append [] s h n v = (refl, v, tt)
IsSound-append (t ∷ ss) s h n v = (
  ground (
    arith,
    any-append (is_named t.name) ss (s ∷ []),
    text_eq_iff s.name t.name,
    text_eq_iff t.name s.name,
    h.0,
  ),
  h.1,
  IsSound-append ss s h.2 (ground arith) v,
)

module _ (name : Text) (updates : Updates) where
  any-update_first :
      (n : Text) (ss : List Schedule)
      → any (is_named n) (update_first name updates ss) ≡ any (is_named n) ss
  unfolding update_first
  any-update_first n [] = refl
  any-update_first n (s ∷ ss) = ground (arith, any-update_first n ss)

  -- The update gives no expression, or a valid one.
  abbrev pub IsChecked : Option Text → Type 0
  IsChecked none = Unit
  IsChecked (some cron) = validate_cron_expression cron ≡ none

  updated-valid :
      (o : Option Text) (s : Schedule)
      → IsChecked o
      → validate_cron_expression s.cron ≡ none
      → validate_cron_expression (elim o [ none ↦ s.cron | some cron ↦ cron ]) ≡ none
  updated-valid none s h v = v
  updated-valid (some cron) s h v = h

  IsSound-update_first :
      (ss : List Schedule)
      → IsChecked updates.cron
      → IsSound ss
      → IsSound (update_first name updates ss)
  unfolding update_first
  IsSound-update_first [] c h = tt
  IsSound-update_first (s ∷ ss) c h = elim (Bool-cases (is_named name s)) [
    | inl named ↦ rw named (h.0, updated-valid updates.cron s c h.1, h.2)
    | inr other ↦ rw other (any-update_first s.name ss ∙ h.0, h.1, IsSound-update_first ss c h.2)
  ]

any-remove_first :
    (name n : Text) (ss : List Schedule)
    → any (is_named n) ss ≡ false
    → any (is_named n) (remove_first name ss) ≡ false
unfolding remove_first
any-remove_first name n [] h = refl
any-remove_first name n (s ∷ ss) h = ground (arith, any-remove_first name n ss)

IsSound-remove_first :
    (name : Text) (ss : List Schedule) → IsSound ss → IsSound (remove_first name ss)
unfolding remove_first
IsSound-remove_first name [] h = tt
IsSound-remove_first name (s ∷ ss) h = elim (Bool-cases (is_named name s)) [
  | inl named ↦ rw named h.2
  | inr other ↦
      rw other (any-remove_first name s.name ss h.0, h.1, IsSound-remove_first name ss h.2)
]

check_update-IsChecked :
    (name : Text) (updates : Updates) (o : Option Text)
    → (o ≡ some [] → ⊥)
    → check_update o ≡ none
    → IsChecked name updates o
check_update-IsChecked name updates none n h = tt
check_update-IsChecked name updates (some []) n h = absurd (n refl)
check_update-IsChecked name updates (some (c ∷ cron)) n h = h

-- The calls that change the file.
pub data Command : Type 0 where
  add : NewSchedule → Command
  update : Text → Updates → Command
  remove enable disable : Text → Command
  clear : Command

-- An update may not set an empty expression, which the code does not check.
abbrev pub NotEmptied : Command → Type 0
NotEmptied (add schedule) = Unit
NotEmptied (update name updates) = updates.cron ≡ some [] → ⊥
NotEmptied (remove name) = Unit
NotEmptied (enable name) = Unit
NotEmptied (disable name) = Unit
NotEmptied clear = Unit

module _ {Rest : Type 0} where
  abbrev pub run_command : Command → Managed Rest Unit
  run_command (add schedule) = add_schedule schedule
  run_command (update name updates) = update_schedule name updates
  run_command (remove name) = remove_schedule name
  run_command (enable name) = enable_schedule name
  run_command (disable name) = disable_schedule name
  run_command clear = clear_all_schedules

  abbrev pub IsSoundContent : Content Rest → Type 0
  IsSoundContent missing = Unit
  IsSoundContent unparsable = Unit
  IsSoundContent (parsed config) = IsSound (schedules_of config.backup)

  module _ (file : File Rest) (sound : IsSoundContent file.content) where
    abbrev AtStart : File Rest → Type 0
    AtStart f = f ≡ file

    -- What a call that throws leaves: the file as it was, or one that was cut short.
    abbrev pub Kept : File Rest → Type 0
    Kept f = (f ≡ file) ⊎ ((file.write_end ≡ cut_short) × (f.content ≡ unparsable))

    abbrev Sound : File Rest → Type 0
    Sound f = IsSoundContent f.content

    Outcome-load :
        (content : Content Rest)
        → IsSoundContent content
        → Outcome
            (λ config f. AtStart f × IsSound (schedules_of config.backup))
            Kept
            (read_content content file)
    unfolding pure throw
    Outcome-load missing h = inl refl
    Outcome-load unparsable h = inl refl
    Outcome-load (parsed config) h = (refl, h)

    Triple-load :
        Triple AtStart load_config
          (λ config f. AtStart f × IsSound (schedules_of config.backup))
          Kept
    unfolding load_config
    Triple-load = record { run = λ f p. rw p (Outcome-load file.content sound) }

    Triple-save :
        {F : Type 0} (config : Config Rest) (ss : List Schedule)
        → (F → IsSound ss)
        → Triple (λ f. AtStart f × F) (save_config (put_schedules config ss)) (λ _ f. Sound f) Kept
    unfolding save_config
    Triple-save config ss h = record {
      run = λ f p. saved f.write_end f p.0 (ap (λ g. g.write_end) p.0) (h p.1);
    }
      where
        saved :
            (e : WriteEnd) (f : File Rest)
            → f ≡ file
            → e ≡ file.write_end
            → IsSound ss
            → Outcome (λ _ f. Sound f) Kept (write_content e (put_schedules config ss) f)
        saved written f p q h = h
        saved denied f p q h = inl p
        saved cut_short f p q h = inr (sym q, refl)

    -- A test that throws, or else goes on with what it has shown.
    Triple-require :
        {F : Type 0} (o : Option CronError) (m : Managed Rest Unit)
        → (o ≡ none → Triple (λ f. AtStart f × F) m (λ _ f. Sound f) Kept)
        → Triple (λ f. AtStart f × F) (require_cron o >> m) (λ _ f. Sound f) Kept
    Triple-require {F} none m h =
        Triple-bind (λ _ f. AtStart f × F) _ _ (Triple-pure tt (λ s p. p)) (λ _. h refl)
    Triple-require {F} (some e) m h =
        Triple-bind (λ _ _. ⊥) _ _ (Triple-throw (invalid_cron e) (λ s p. inl p.0))
          (λ _. record { run = λ s bad. absurd bad })

    add-Sound :
        (schedule : NewSchedule) → Triple AtStart (add_schedule schedule) (λ _ f. Sound f) Kept
    unfolding add_schedule
    add-Sound schedule = Triple-bind _ _ _ Triple-load (λ config.
        Triple-if (any (is_named schedule.name) (schedules_of config.backup))
          (λ _. Triple-throw (already_exists schedule.name) (λ s p. inl p.0))
          (λ fresh. Triple-require (validate_cron_expression schedule.cron) _ (λ valid.
            Triple-save config _
              (λ h. IsSound-append (schedules_of config.backup) _ h fresh valid))))

    update-Sound :
        (name : Text) (updates : Updates)
        → (updates.cron ≡ some [] → ⊥)
        → Triple AtStart (update_schedule name updates) (λ _ f. Sound f) Kept
    unfolding update_schedule
    update-Sound name updates n = Triple-bind _ _ _ Triple-load (λ config.
        Triple-if (not (any (is_named name) (schedules_of config.backup)))
          (λ _. Triple-throw (not_found name) (λ s p. inl p.0))
          (λ there. Triple-require (check_update updates.cron) _ (λ valid.
            Triple-save config _ (λ h.
              IsSound-update_first name updates (schedules_of config.backup)
                (check_update-IsChecked name updates updates.cron n valid) h))))

    remove-Sound : (name : Text) → Triple AtStart (remove_schedule name) (λ _ f. Sound f) Kept
    unfolding remove_schedule
    remove-Sound name = Triple-bind _ _ _ Triple-load (λ config.
        Triple-if (not (any (is_named name) (schedules_of config.backup)))
          (λ _. Triple-throw (not_found name) (λ s p. inl p.0))
          (λ there.
            Triple-save config _ (λ h. IsSound-remove_first name (schedules_of config.backup) h)))

    clear_in-Sound :
        (config : Config Rest) (o : Option (Option (List Schedule)))
        → Triple
            (λ f. AtStart f × IsSound (schedules_of config.backup))
            (clear_in config o)
            (λ _ f. Sound f)
            Kept
    clear_in-Sound config none = Triple-pure tt (λ s p. rw p.0 sound)
    clear_in-Sound config (some none) = Triple-pure tt (λ s p. rw p.0 sound)
    clear_in-Sound config (some (some ss)) = Triple-save config [] (λ h. tt)

    clear-Sound : Triple AtStart clear_all_schedules (λ _ f. Sound f) Kept
    unfolding clear_all_schedules
    clear-Sound = Triple-bind _ _ _ Triple-load (λ config. clear_in-Sound config config.backup)

    -- From a file whose schedules have distinct names and valid expressions, each call that changes
    -- schedules either returns, and the file has such schedules again, or throws, and the file is
    -- as it was, unless its write failed half-way: then the file does not parse. An update may not set an
    -- empty expression.
    pub run_command-IsSound :
        (c : Command) → NotEmptied c → Triple AtStart (run_command c) (λ _ f. Sound f) Kept
    unfolding enable_schedule disable_schedule
    run_command-IsSound (add schedule) n = add-Sound schedule
    run_command-IsSound (update name updates) n = update-Sound name updates n
    run_command-IsSound (remove name) n = remove-Sound name
    run_command-IsSound (enable name) n = update-Sound name _ (λ e. cc)
    run_command-IsSound (disable name) n = update-Sound name _ (λ e. cc)
    run_command-IsSound clear n = clear-Sound
