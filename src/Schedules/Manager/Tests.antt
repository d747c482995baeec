-- ===== src/Schedules/Manager/Tests.antt =====
-- src/scheduler/schedule-manager.ts at a file with one schedule.
use dbdock.Base.{◌≡◌, refl, codes, is_space, trim, trim_start, true, none, some, [], ◌∷◌}
use dbdock.Base.Effect.{ok, err, ◌>>=◌}
use dbdock.Base.Triple.{Triple}
use dbdock.Schedules.Cron.{
  parts_expected, out_of_range, split_spaces, digits, parse_int, check_part, check_parts,
  validate_cron_expression,
}
use dbdock.Schedules.Manager.{
  written, Schedule, NewSchedule, parsed, File, load_config, save_config, get_schedules,
  get_schedule, add_schedule, update_schedule, update_first, already_exists,
}
use dbdock.Schedules.Manager.Laws.{
  Kept, IsSound, add, run_command, IsSoundContent, run_command-IsSound,
}

daily_test : validate_cron_expression (codes " 0  2 * * 1-5") ≡ none
unfolding validate_cron_expression split_spaces check_parts check_part parse_int digits is_space
    trim trim_start
daily_test = refl

hour_test : validate_cron_expression (codes "0 24 * * *") ≡ some (out_of_range (codes "hour"))
unfolding validate_cron_expression split_spaces check_parts check_part parse_int digits is_space
    trim trim_start
hour_test = refl

empty_test : validate_cron_expression [] ≡ some parts_expected
unfolding validate_cron_expression split_spaces check_parts check_part parse_int digits is_space
    trim trim_start
empty_test = refl

abbrev nightly : Schedule
nightly = record { name = codes "nightly"; cron = codes "0 2 * * *"; enabled = true }

abbrev weekly : NewSchedule
weekly = record { name = codes "weekly"; cron = codes "0 3 * * 0"; enabled = none }

abbrev file : File Unit
file = record {
  content = parsed (record { backup = some (some (nightly ∷ [])); others = tt });
  write_end = written;
}

-- An update with an empty expression is written without a check.
emptied_test :
    (get_schedule
      (codes "nightly")
      (update_schedule (codes "nightly") (record { cron = some []; enabled = none }) file).1).0
    ≡ ok (some (record nightly { cron = [] }))
unfolding update_schedule update_first load_config save_config get_schedule get_schedules ◌>>=◌
emptied_test = refl

doubled_test :
    add_schedule (record weekly { name = codes "nightly" }) file
    ≡ (err (already_exists (codes "nightly")), file)
unfolding add_schedule load_config ◌>>=◌
doubled_test = refl

nightly-IsSound : IsSound (nightly ∷ [])
unfolding validate_cron_expression split_spaces check_parts check_part parse_int digits is_space
    trim trim_start
nightly-IsSound = (refl, refl, tt)

run_command-IsSound_example :
    Triple
      (λ f. f ≡ file)
      (run_command (add weekly))
      (λ _ f. IsSoundContent f.content)
      (Kept file nightly-IsSound)
run_command-IsSound_example = run_command-IsSound file nightly-IsSound (add weekly) tt
