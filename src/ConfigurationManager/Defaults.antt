-- ===== src/ConfigurationManager/Defaults.antt =====
-- firmware/app/configuration/configuration_manager.c: the compiled defaults.
use irrigation_controller.Prelude.{
  ℕ, zero, suc, ◌+◌, true, false, if◌then◌else◌, Option, none, some, List, [], ◌∷◌, ◌++◌, Text,
  literal, ltb, length, replicate, Pointer, ◌||◌,
}
use irrigation_controller.Result.{IrrigationResult, rejected, is_ok}
use irrigation_controller.Domain.{Zone, Program, max_zones, max_programs, max_schedules}
use irrigation_controller.Configuration.{
  IrrigationConfiguration, IrrigationZoneConfiguration, IrrigationProgramStepConfiguration,
  schema_version, id_size, irrigation_configuration_validate,
}
use irrigation_controller.Device.{SchedulerEntry}
use irrigation_controller.ConfigurationManager.{ConfigurationManager, RuntimeSlot, copy_text}
use irrigation_controller.ConfigurationManager.Views.{rebuild_runtime_views}
use irrigation_controller.ConfigurationManager.Candidates.{print_digits, print_unsigned}

abbrev pub no_program : Program
no_program = record { id = none; steps = none; post_program_delay_ms = 0 }

-- A zeroed place of `runtime_schedules`.
abbrev pub no_schedule : SchedulerEntry
no_schedule = record {
  id = none;
  enabled = false;
  weekday_mask = 0;
  hour = 0;
  minute = 0;
  program = none;
}

abbrev pub free_slot : {A : Type 0} → A → RuntimeSlot A
free_slot content = record { in_use = false; id = []; content = content }

-- A board's zones have ids.
abbrev zone_text : Zone → Text
zone_text zone = elim zone.id [ none ↦ [] | some id ↦ id ]

-- The loop over the board's zones, from the place `index` on.
unfoldable pub default_zones : ℕ → List Zone → List IrrigationZoneConfiguration
unfolding print_digits
default_zones index [] = []
default_zones index (zone ∷ zones) =
    record {
      zone_id = copy_text id_size (zone_text zone);
      display_name = copy_text id_size (literal "Zone " ++ print_unsigned (index + 1));
    }
    ∷ default_zones (suc index) zones

-- The loop over the steps, of the first two zones of the board.
unfoldable pub default_steps : ℕ → List Zone → List IrrigationProgramStepConfiguration
default_steps zero zones = []
default_steps (suc steps) [] = []
default_steps (suc steps) (zone ∷ zones) =
    record { zone_id = copy_text id_size (zone_text zone); duration_ms = 30000 }
    ∷ default_steps steps zones

abbrev pub dev_program : Text
dev_program = literal "dev-program"

unfoldable pub default_configuration : List Zone → IrrigationConfiguration
unfolding default_zones default_steps
default_configuration board_zones = record {
  schema = schema_version;
  zones = default_zones 0 board_zones;
  programs =
      record {
        program_id = copy_text id_size dev_program;
        display_name = copy_text id_size dev_program;
        steps = default_steps 2 board_zones;
      }
      ∷ [];
  schedules =
      record {
        schedule_id = copy_text id_size (literal "dev-monday-0600");
        enabled = false;
        weekday_mask = 1;
        hour = 6;
        minute = 0;
        program_id = copy_text id_size dev_program;
      }
      ∷ [];
  next_program_id = 1;
  next_schedule_id = 1;
}

module _ {S : Type 0} where
  -- The manager whose other fields are zero. The candidate is written before each use.
  abbrev pub fresh_manager : List Zone → ConfigurationManager S
  fresh_manager board_zones = record {
    configuration = default_configuration board_zones;
    candidate = default_configuration board_zones;
    board_zones = board_zones;
    repository = none;
    persistence_required = false;
    scheduler_service = Pointer.null;
    program_slots = replicate max_programs (free_slot no_program);
    schedule_slots = replicate max_schedules (free_slot tt);
    runtime_schedules = replicate max_schedules no_schedule;
  }

  -- `none` is a NULL board.
  unfoldable pub configuration_manager_init_dev_kit_defaults :
      ConfigurationManager S → Option (List Zone) → ConfigurationManager S × IrrigationResult
  unfolding default_configuration rebuild_runtime_views
  configuration_manager_init_dev_kit_defaults manager none = (manager, rejected)
  configuration_manager_init_dev_kit_defaults manager (some board_zones) =
      if ltb (length board_zones) 2 || ltb max_zones (length board_zones)
      then (manager, rejected)
      else (let configuration = default_configuration board_zones in
          let result = irrigation_configuration_validate (some configuration) (some board_zones) in
          (
            if is_ok result
                then rebuild_runtime_views true configuration (fresh_manager board_zones)
                else fresh_manager board_zones,
            result,
          ))
