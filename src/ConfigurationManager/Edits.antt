-- ===== src/ConfigurationManager/Edits.antt =====
-- firmware/app/configuration/configuration_manager.c: the edits of zones, programs and schedules.
-- Each makes a candidate of the configuration and asks for the replacement.
use irrigation_controller.Prelude.{
  ℕ, Bool, if◌then◌else◌, Option, none, some, List, Text, length, get_elem?, set, ltb, leb,
}
use irrigation_controller.Result.{rejected, not_found, referenced}
use irrigation_controller.Domain.{max_programs, max_program_steps, max_schedules}
use irrigation_controller.Configuration.{
  IrrigationConfiguration, IrrigationProgramStepConfiguration,
}
use irrigation_controller.ConfigurationManager.Replace.{System, Change, replace_with}
use irrigation_controller.ConfigurationManager.Candidates.{
  print_digits, delete_at, rename_in, is_referenced, edited_program, with_new_program,
  edited_schedule, with_new_schedule,
}

module _ {D V H S : Type 0} where
  -- `manager->candidate = manager->configuration`, where no replacement follows.
  abbrev pub with_candidate : IrrigationConfiguration → System D V H S → System D V H S
  with_candidate candidate s = record s { manager = record s.manager { candidate = candidate } }

  unfoldable pub configuration_manager_rename_zone : Option Text → Option Text → Change D V H S
  unfolding rename_in replace_with
  configuration_manager_rename_zone none display_name s = (s, rejected)
  configuration_manager_rename_zone (some zone_id) none s = (s, rejected)
  configuration_manager_rename_zone (some zone_id) (some display_name) s =
      let configuration = s.manager.configuration in
      elim (rename_in configuration.zones zone_id display_name) [
        | none ↦ (with_candidate configuration s, not_found)
        | some zones ↦ replace_with (record configuration { zones = zones }) s
      ]

  -- `save_program` with `is_new`. `none` is a NULL name, or NULL steps whose count is not 0. The
  -- new index, which is written on OK, is the number of programs before.
  unfoldable pub configuration_manager_create_program :
      Option Text → Option (List IrrigationProgramStepConfiguration) → Change D V H S
  unfolding replace_with print_digits
  configuration_manager_create_program none steps s = (s, rejected)
  configuration_manager_create_program (some display_name) none s = (s, rejected)
  configuration_manager_create_program (some display_name) (some steps) s =
      let configuration = s.manager.configuration in
      if ltb max_program_steps (length steps)
      then (s, rejected)
      else if leb max_programs (length configuration.programs)
      then (with_candidate configuration s, rejected)
      else replace_with (with_new_program configuration display_name steps) s

  -- `save_program` without `is_new`.
  unfoldable pub configuration_manager_update_program :
      ℕ → Option Text → Option (List IrrigationProgramStepConfiguration) → Change D V H S
  unfolding replace_with
  configuration_manager_update_program index none steps s = (s, rejected)
  configuration_manager_update_program index (some display_name) none s = (s, rejected)
  configuration_manager_update_program index (some display_name) (some steps) s =
      let configuration = s.manager.configuration in
      if ltb max_program_steps (length steps)
      then (s, rejected)
      else elim (get_elem? configuration.programs index) [
        | none ↦ (with_candidate configuration s, not_found)
        | some program ↦
            replace_with
              (record configuration {
                programs =
                    set configuration.programs index
                      (edited_program program.program_id display_name steps);
              })
              s
      ]

  unfoldable pub configuration_manager_delete_program : ℕ → Change D V H S
  unfolding is_referenced delete_at replace_with
  configuration_manager_delete_program index s =
      let configuration = s.manager.configuration in
      elim (get_elem? configuration.programs index) [
        | none ↦ (s, not_found)
        | some program ↦
            if is_referenced configuration.schedules program.program_id
            then (s, referenced)
            else replace_with
                (record configuration { programs = delete_at configuration.programs index }) s
      ]

  -- `save_schedule` with `is_new`.
  unfoldable pub configuration_manager_create_schedule :
      Bool → ℕ → ℕ → ℕ → Option Text → Change D V H S
  unfolding replace_with print_digits
  configuration_manager_create_schedule stale_enabled weekday_mask hour minute none s =
      (s, rejected)
  configuration_manager_create_schedule stale_enabled weekday_mask hour minute (some program_id) s =
      let configuration = s.manager.configuration in
      if leb max_schedules (length configuration.schedules)
      then (with_candidate configuration s, rejected)
      else replace_with
          (with_new_schedule configuration stale_enabled weekday_mask hour minute program_id) s

  -- `save_schedule` without `is_new`.
  unfoldable pub configuration_manager_update_schedule :
      ℕ → ℕ → ℕ → ℕ → Option Text → Change D V H S
  unfolding replace_with
  configuration_manager_update_schedule index weekday_mask hour minute none s = (s, rejected)
  configuration_manager_update_schedule index weekday_mask hour minute (some program_id) s =
      let configuration = s.manager.configuration in
      elim (get_elem? configuration.schedules index) [
        | none ↦ (with_candidate configuration s, not_found)
        | some schedule ↦
            replace_with
              (record configuration {
                schedules =
                    set configuration.schedules index
                      (edited_schedule schedule weekday_mask hour minute program_id);
              })
              s
      ]

  unfoldable pub configuration_manager_delete_schedule : ℕ → Change D V H S
  unfolding delete_at replace_with
  configuration_manager_delete_schedule index s =
      let configuration = s.manager.configuration in
      if leb (length configuration.schedules) index
      then (s, not_found)
      else replace_with
          (record configuration { schedules = delete_at configuration.schedules index }) s

  unfoldable pub configuration_manager_set_schedule_enabled : ℕ → Bool → Change D V H S
  unfolding replace_with
  configuration_manager_set_schedule_enabled index enabled s =
      let configuration = s.manager.configuration in
      elim (get_elem? configuration.schedules index) [
        | none ↦ (s, not_found)
        | some schedule ↦
            replace_with
              (record configuration {
                schedules =
                    set configuration.schedules index (record schedule { enabled = enabled });
              })
              s
      ]
