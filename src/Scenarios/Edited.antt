-- ===== src/Scenarios/Edited.antt =====
-- Changes of the configuration, with the repository, without it, and with persistence disabled.
use irrigation_controller.Prelude.{
  ℕ, ◌+◌, ◌≡◌, refl, ap, ◌⊎◌, Bool, true, false, none, some, List, [], ◌∷◌, Text, literal, arith,
  get_elem?,
}
use irrigation_controller.Prelude.Tests.{text_eq}
use irrigation_controller.Result.{is_ok}
use irrigation_controller.Configuration.{
  IrrigationProgramStepConfiguration, IrrigationProgramConfiguration,
  irrigation_configuration_validate, characters_are_valid, text_is_valid, board_zone_exists,
  program_exists, is_repeated, zones_are_valid, steps_are_valid, programs_are_valid,
  schedules_are_valid,
}
use irrigation_controller.OutputDrivers.{VirtualOutputs}
use irrigation_controller.Repository.Encode.{done}
use irrigation_controller.Repository.Slots.{
  read_slot, slot_a, slot_b, next_generation, configuration_repository_load,
}
use irrigation_controller.ConfigurationManager.{ConfigurationManager}
use irrigation_controller.ConfigurationManager.Placing.{runtime_program}
use irrigation_controller.ConfigurationManager.Views.{
  rebuild_programs, rebuild_schedules, rebuild_runtime_views, configuration_manager_program_at,
}
use irrigation_controller.ConfigurationManager.Replace.{System}
use irrigation_controller.ConfigurationManager.Defaults.{
  default_zones, default_steps, default_configuration, fresh_manager,
  configuration_manager_init_dev_kit_defaults,
}
use irrigation_controller.ConfigurationManager.Candidates.{print_digits, numbered_id}
use irrigation_controller.ConfigurationManager.Numbered.{numbered_id-injective}
use irrigation_controller.ConfigurationManager.Served.{IsSound, edits-program_at}
use irrigation_controller.ConfigurationManager.Booted.{defaults-IsSound}
use irrigation_controller.Scenarios.Data.{Log}
use irrigation_controller.Scenarios.Stored.{
  Memory, find_blob, put_blob, commit_blob, honest, garden, test_garden_valid, test_empty,
}
use irrigation_controller.Controller.{dev_zones}
use irrigation_controller.Scenarios.Managed.{memory, memory-save, home, test_defaults}
use irrigation_controller.ConfigurationManager.Calls.{ManagerCall, manager_call, manager_calls}
use irrigation_controller.ConfigurationManager.Transaction.{manager_call_lem}
use irrigation_controller.ConfigurationManager.Persisted.{IsValidFor}
use irrigation_controller.ConfigurationManager.Safety.{
  manager_calls-IsValid, manager_call-disabled, manager_call-load,
}
use irrigation_controller.ConfigurationManager.Boot.{configuration_manager_set_repository}
use irrigation_controller.ConfigurationManager.Edits.{
  configuration_manager_create_program, configuration_manager_rename_zone,
}
use irrigation_controller.ConfigurationManager.Replace.{configuration_manager_replace}
use irrigation_controller.Configuration.{IrrigationProgramStepConfiguration}
use irrigation_controller.ConfigurationManager.{programs_are_equal}

abbrev lawn : ManagerCall
lawn = ManagerCall.rename_zone (some (literal "zone-1")) (some (literal "Lawn"))

abbrev evening_steps : List IrrigationProgramStepConfiguration
evening_steps = record { zone_id = literal "zone-2"; duration_ms = 60000 } ∷ []

abbrev evening : ManagerCall
evening = ManagerCall.create_program (some (literal "Evening")) (some evening_steps)

abbrev without_repository : Bool → System VirtualOutputs ℕ Log Memory
without_repository required = record home {
  manager = configuration_manager_set_repository none required home.manager;
}

abbrev with_memory : System VirtualOutputs ℕ Log Memory
with_memory = record home {
  manager = configuration_manager_set_repository (some memory) true home.manager;
}

home-IsSound : IsSound home.manager
home-IsSound = defaults-IsSound (fresh_manager dev_zones) dev_zones test_defaults

without-IsSound : (required : Bool) → IsSound (without_repository required).manager
unfolding configuration_manager_set_repository
without-IsSound required = record { valid = home-IsSound.valid; agrees = home-IsSound.agrees }

abbrev edits : List ManagerCall
edits = lawn ∷ evening ∷ []

abbrev edited : ConfigurationManager Memory
edited = (manager_calls edits (without_repository false)).manager

manager_calls-IsValid_example : IsValidFor edited edited.configuration
manager_calls-IsValid_example =
    manager_calls-IsValid edits (without_repository false) (without-IsSound false).valid

abbrev evening_program : IrrigationProgramConfiguration
evening_program = record {
  program_id = literal "program-1";
  display_name = literal "Evening";
  steps = evening_steps;
}

test_edited : get_elem? edited.configuration.programs 1 ≡ some evening_program
unfolding manager_calls configuration_manager_create_program configuration_manager_rename_zone
    configuration_manager_set_repository configuration_manager_init_dev_kit_defaults
    irrigation_configuration_validate text_eq programs_are_equal
test_edited = refl

edits-program_at_example :
    configuration_manager_program_at edited 1 ≡ some (runtime_program evening_program)
edits-program_at_example =
    edits-program_at edits (without_repository false) 1 evening_program (tt, (tt, tt))
      (without-IsSound false) test_edited

manager_call-disabled_example :
    (is_ok (manager_call lawn (without_repository true)).1 ≡ false)
    × ((manager_call lawn (without_repository true)).0.manager.configuration
        ≡ (without_repository true).manager.configuration)
unfolding configuration_manager_set_repository
manager_call-disabled_example = manager_call-disabled lawn (without_repository true) refl refl

test_garden_call : is_ok (manager_call (ManagerCall.replace (some garden)) with_memory).1 ≡ true
unfolding manager_call configuration_manager_replace configuration_manager_set_repository
    configuration_manager_init_dev_kit_defaults irrigation_configuration_validate text_eq
test_garden_call = rw (memory-save garden test_garden_valid (omega arith) (omega arith)) refl

manager_call-load_example :
    configuration_repository_load memory
      (manager_call (ManagerCall.replace (some garden)) with_memory).0.storage
      (some with_memory.manager.board_zones)
    ≡ done (
      (manager_call (ManagerCall.replace (some garden)) with_memory).0.manager.configuration,
      next_generation
          (read_slot find_blob [] slot_a (some with_memory.manager.board_zones))
          (read_slot find_blob [] slot_b (some with_memory.manager.board_zones)),
    )
unfolding configuration_manager_set_repository configuration_manager_init_dev_kit_defaults
    irrigation_configuration_validate characters_are_valid text_is_valid board_zone_exists
    program_exists is_repeated zones_are_valid steps_are_valid programs_are_valid
    schedules_are_valid text_eq default_configuration default_zones default_steps print_digits
    rebuild_programs rebuild_schedules rebuild_runtime_views
manager_call-load_example =
    manager_call-load (ManagerCall.replace (some garden)) with_memory find_blob put_blob commit_blob
      honest refl (omega arith, omega arith) (omega arith, omega arith)
      (omega (arith, ap (λ slot. slot.generation) (test_empty slot_a)))
      (omega (arith, ap (λ slot. slot.generation) (test_empty slot_b)))
      (λ va vb. omega (
        arith,
        ap (λ slot. slot.generation) (test_empty slot_a),
        ap (λ slot. slot.generation) (test_empty slot_b),
      ))
      test_garden_call

manager_call_lem_example :
    let (s', result) = manager_call lawn (without_repository false) in
    ((is_ok result ≡ true)
      × (s'.manager.configuration ≡ s'.manager.candidate)
      × IsValidFor (without_repository false).manager s'.manager.configuration)
    ⊎ ((is_ok result ≡ false)
        × (s'.manager.configuration ≡ (without_repository false).manager.configuration))
manager_call_lem_example = manager_call_lem lawn (without_repository false)

test_numbered_id : numbered_id (literal "program-") 407 ≡ literal "program-407"
unfolding print_digits
test_numbered_id = refl

abbrev next_id : Text
next_id = numbered_id (literal "program-") (406 + 1)

test_next_id : next_id ≡ numbered_id (literal "program-") 407
test_next_id = refl

numbered_id-injective_example : 406 + 1 ≡ 407
numbered_id-injective_example =
    numbered_id-injective (literal "program-") (406 + 1) 407 (omega arith) (omega arith)
      (omega arith) test_next_id
