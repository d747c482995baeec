-- ===== src/Schedules/Manager.antt =====
-- src/scheduler/schedule-manager.ts: `ScheduleManager`. The configuration file is the state; what it
-- holds beside the schedules is a value that no operation reads.
pub mod Laws
pub mod Tests
use dbdock.Base.{
  Text, text_eq, Bool, true, false, not, Option, none, some, List, [], ◌∷◌, ◌++◌, any, find?,
  if◌then◌else◌,
}
use dbdock.Base.Effect.{Effect, ok, err, pure, throw, ◌>>=◌, ◌>>◌}
use dbdock.Schedules.Cron.{CronError, validate_cron_expression}

pub record Schedule : Type 0 where
  pub name : Text
  pub cron : Text
  pub enabled : Bool

-- `Omit<Schedule, 'enabled'> & { enabled?: boolean }`
pub record NewSchedule : Type 0 where
  pub name : Text
  pub cron : Text
  pub enabled : Option Bool

-- `Partial<Omit<Schedule, 'name'>>`
pub record Updates : Type 0 where
  pub cron : Option Text
  pub enabled : Option Bool

pub data ScheduleError : Type 0 where
  config_not_found parse_failed save_failed : ScheduleError
  already_exists not_found : Text → ScheduleError
  invalid_cron : CronError → ScheduleError

-- `backup.schedules`, absent or not, in a `backup` that is absent or not.
pub record Config (Rest : Type 0) : Type 0 where
  pub backup : Option (Option (List Schedule))
  pub others : Rest

pub data Content (Rest : Type 0) : Type 0 where
  missing unparsable : Content Rest
  parsed : Config Rest → Content Rest

-- How `writeFileSync` ends: done, refused before the file is opened, or failed once the file has been
-- truncated. What is left then is a proper prefix of the text, without its closing brace.
pub data WriteEnd : Type 0 where
  written denied cut_short : WriteEnd

-- The file, and how a write of it ends.
pub record File (Rest : Type 0) : Type 0 where
  pub content : Content Rest
  pub write_end : WriteEnd

-- `config.backup?.schedules || []`
abbrev pub schedules_of : Option (Option (List Schedule)) → List Schedule
schedules_of none = []
schedules_of (some none) = []
schedules_of (some (some schedules)) = schedules

-- `s.name === name`
abbrev pub is_named : Text → Schedule → Bool
is_named name s = text_eq s.name name

-- `schedules[findIndex(...)] = { ...schedules[...], ...updates }`: the first of the name.
abbrev pub updated : Updates → Schedule → Schedule
updated updates s = record {
  name = s.name;
  cron = elim updates.cron [ none ↦ s.cron | some cron ↦ cron ];
  enabled = elim updates.enabled [ none ↦ s.enabled | some enabled ↦ enabled ];
}

unfoldable pub update_first : Text → Updates → List Schedule → List Schedule
update_first name updates [] = []
update_first name updates (s ∷ ss) =
    let rest = update_first name updates ss in
    if is_named name s then updated updates s ∷ ss else s ∷ rest

-- `schedules.splice(findIndex(...), 1)`
unfoldable pub remove_first : Text → List Schedule → List Schedule
remove_first name [] = []
remove_first name (s ∷ ss) =
    let rest = remove_first name ss in if is_named name s then ss else s ∷ rest

-- `if (updates.cron) this.validateCronExpression(updates.cron)`: an empty text is not checked.
abbrev pub check_update : Option Text → Option CronError
check_update none = none
check_update (some []) = none
check_update (some (c ∷ cron)) = validate_cron_expression (c ∷ cron)

abbrev pub Managed : Type 0 → Type 0 → Type 0
Managed Rest A = Effect ScheduleError (File Rest) A

module _ {Rest : Type 0} where
  abbrev pub read_content : Content Rest → Managed Rest (Config Rest)
  read_content missing = throw config_not_found
  read_content unparsable = throw parse_failed
  read_content (parsed config) = pure config

  -- `loadConfig`
  unfoldable pub load_config : Managed Rest (Config Rest)
  load_config file = read_content file.content file

  -- `saveConfig`
  abbrev pub write_content : WriteEnd → Config Rest → Managed Rest Unit
  write_content written config file = (ok tt, record file { content = parsed config })
  write_content denied config file = (err save_failed, file)
  write_content cut_short config file = (err save_failed, record file { content = unparsable })

  unfoldable pub save_config : Config Rest → Managed Rest Unit
  save_config config file = write_content file.write_end config file

  -- `validateCronExpression` where it throws.
  abbrev pub require_cron : Option CronError → Managed Rest Unit
  require_cron none = pure tt
  require_cron (some e) = throw (invalid_cron e)

  abbrev pub put_schedules : Config Rest → List Schedule → Config Rest
  put_schedules config schedules = record config { backup = some (some schedules) }

  -- `getSchedules`
  unfoldable pub get_schedules : Managed Rest (List Schedule)
  get_schedules = do config ← load_config; pure (schedules_of config.backup)

  -- `addSchedule`
  unfoldable pub add_schedule : NewSchedule → Managed Rest Unit
  add_schedule schedule = do
    config ← load_config
    if any (is_named schedule.name) (schedules_of config.backup)
        then throw (already_exists schedule.name)
        else (do
          require_cron (validate_cron_expression schedule.cron)
          save_config (
              put_schedules config (
                schedules_of config.backup
                ++ record {
                  name = schedule.name;
                  cron = schedule.cron;
                  enabled = elim schedule.enabled [ none ↦ true | some enabled ↦ enabled ];
                }
                  ∷ [])))

  -- `updateSchedule`
  unfoldable pub update_schedule : Text → Updates → Managed Rest Unit
  update_schedule name updates = do
    config ← load_config
    if not (any (is_named name) (schedules_of config.backup)) then throw (not_found name) else (do
      require_cron (check_update updates.cron)
      save_config (put_schedules config (update_first name updates (schedules_of config.backup))))

  -- `removeSchedule`
  unfoldable pub remove_schedule : Text → Managed Rest Unit
  remove_schedule name = do
    config ← load_config
    if not (any (is_named name) (schedules_of config.backup))
        then throw (not_found name)
        else save_config (put_schedules config (remove_first name (schedules_of config.backup)))

  -- `enableSchedule`
  unfoldable pub enable_schedule : Text → Managed Rest Unit
  enable_schedule name = update_schedule name (record { cron = none; enabled = some true })

  -- `disableSchedule`
  unfoldable pub disable_schedule : Text → Managed Rest Unit
  disable_schedule name = update_schedule name (record { cron = none; enabled = some false })

  -- `getSchedule`
  unfoldable pub get_schedule : Text → Managed Rest (Option Schedule)
  get_schedule name = do schedules ← get_schedules; pure (find? (is_named name) schedules)

  abbrev pub clear_in : Config Rest → Option (Option (List Schedule)) → Managed Rest Unit
  clear_in config none = pure tt
  clear_in config (some none) = pure tt
  clear_in config (some (some schedules)) = save_config (put_schedules config [])

  -- `clearAllSchedules`
  unfoldable pub clear_all_schedules : Managed Rest Unit
  clear_all_schedules = do config ← load_config; clear_in config config.backup
