-- ===== src/ConfigurationManager/Candidates.antt =====
-- firmware/app/configuration/configuration_manager.c: what the edits write into the candidate.
use irrigation_controller.Prelude.{
  ℕ, zero, suc, ◌+◌, ◌/◌, ◌%◌, ◌^◌, Bool, false, ◌||◌, if◌then◌else◌, Option, none, some, List, [],
  ◌∷◌, ◌++◌, Text, text_eq, literal, ltb,
}
use irrigation_controller.Configuration.{
  IrrigationConfiguration, IrrigationZoneConfiguration, IrrigationProgramConfiguration,
  IrrigationProgramStepConfiguration, IrrigationScheduleConfiguration, id_size,
}
use irrigation_controller.ConfigurationManager.{copy_text}

-- What the C library's `%u` prints of an unsigned int, before `text`. Ten rounds print 32 bits.
unfoldable pub print_digits : ℕ → ℕ → Text → Text
print_digits zero n text = text
print_digits (suc rounds) n text =
    let more = print_digits rounds (n / 10) ((48 + n % 10) ∷ text) in
    if ltb n 10 then (48 + n) ∷ text else more

abbrev pub print_unsigned : ℕ → Text
print_unsigned n = print_digits 10 n []

-- `snprintf(…, "program-%u", …)` and the like; `prefix` is the text before the number.
abbrev pub numbered_id : Text → ℕ → Text
numbered_id prefix n = copy_text id_size (prefix ++ print_unsigned n)

-- The loop that moves the later places down by one, and the smaller count.
unfoldable pub delete_at {ℓ} : {A : Type ℓ} → List A → ℕ → List A
delete_at [] index = []
delete_at (x ∷ xs) zero = xs
delete_at (x ∷ xs) (suc index) = x ∷ delete_at xs index

-- The loop of `configuration_manager_rename_zone`.
unfoldable pub rename_in :
    List IrrigationZoneConfiguration → Text → Text → Option (List IrrigationZoneConfiguration)
rename_in [] zone_id display_name = none
rename_in (zone ∷ zones) zone_id display_name =
    if text_eq zone.zone_id zone_id
    then some (record zone { display_name = copy_text id_size display_name } ∷ zones)
    else elim (rename_in zones zone_id display_name) [
      | none ↦ none
      | some zones' ↦ some (zone ∷ zones')
    ]

-- The loop of `configuration_manager_delete_program` over the schedules.
unfoldable pub is_referenced : List IrrigationScheduleConfiguration → Text → Bool
is_referenced [] program_id = false
is_referenced (schedule ∷ schedules) program_id =
    text_eq schedule.program_id program_id || is_referenced schedules program_id

abbrev pub edited_program :
    Text → Text → List IrrigationProgramStepConfiguration → IrrigationProgramConfiguration
edited_program program_id display_name steps = record {
  program_id = program_id;
  display_name = copy_text id_size display_name;
  steps = steps;
}

-- The candidate of a new program.
abbrev pub with_new_program :
    IrrigationConfiguration
    → Text
    → List IrrigationProgramStepConfiguration
    → IrrigationConfiguration
with_new_program configuration display_name steps = record configuration {
  programs =
      configuration.programs
      ++ edited_program (numbered_id (literal "program-") configuration.next_program_id)
          display_name steps
        ∷ [];
  next_program_id = (configuration.next_program_id + 1) % 2 ^ 32;
}

abbrev pub edited_schedule :
    IrrigationScheduleConfiguration → ℕ → ℕ → ℕ → Text → IrrigationScheduleConfiguration
edited_schedule schedule weekday_mask hour minute program_id = record schedule {
  weekday_mask = weekday_mask;
  hour = hour;
  minute = minute;
  program_id = copy_text id_size program_id;
}

-- The candidate of a new schedule. `enabled` is not written: it is what the array has in that
-- place, which is `stale_enabled`.
abbrev pub with_new_schedule :
    IrrigationConfiguration → Bool → ℕ → ℕ → ℕ → Text → IrrigationConfiguration
with_new_schedule configuration stale_enabled weekday_mask hour minute program_id =
    record configuration {
      schedules =
          configuration.schedules
          ++ record {
            schedule_id = numbered_id (literal "schedule-") configuration.next_schedule_id;
            enabled = stale_enabled;
            weekday_mask = weekday_mask;
            hour = hour;
            minute = minute;
            program_id = copy_text id_size program_id;
          }
            ∷ [];
      next_schedule_id = (configuration.next_schedule_id + 1) % 2 ^ 32;
    }
