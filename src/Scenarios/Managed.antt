-- ===== src/Scenarios/Managed.antt =====
-- The configuration manager on the development board, over a memory that keeps its blobs.
use irrigation_controller.Prelude.{
  ℕ, ◌+◌, ◌<◌, ◌^◌, ◌≤◌, ◌≡◌, refl, ap, sym, subst, ◌∙◌, true, false, none, some, List, [], ◌∷◌,
  Text, literal, arith, Pointer,
}
use irrigation_controller.Prelude.Tests.{text_eq}
use irrigation_controller.Result.{IrrigationResult, is_ok}
use irrigation_controller.Configuration.{
  IrrigationConfiguration, IrrigationProgramConfiguration, IrrigationScheduleConfiguration,
  irrigation_configuration_validate, characters_are_valid, text_is_valid, board_zone_exists,
  program_exists, is_repeated, zones_are_valid, steps_are_valid, programs_are_valid,
  schedules_are_valid,
}
use irrigation_controller.OutputDrivers.{VirtualOutputs}
use irrigation_controller.Repository.{ok}
use irrigation_controller.Repository.Encode.{Stored, done, failed}
use irrigation_controller.Repository.Slots.{
  read_slot, slot_a, slot_b, next_generation, configuration_repository_load, is_storage_failed,
  ConfigurationRepositoryStorage,
}
use irrigation_controller.Repository.Slots.Storing.{configuration_repository_save}
use irrigation_controller.Repository.Slots.Loading.{storage_of, load-save, save-succeeds}
use irrigation_controller.Repository.Slots.Validated.{load-IsValid}
use irrigation_controller.ConfigurationManager.{
  ConfigurationManager, ConfigurationManagerBootResult, loaded,
}
use irrigation_controller.ConfigurationManager.Views.{configuration_manager_program_at}
use irrigation_controller.ConfigurationManager.Replace.{System}
use irrigation_controller.ConfigurationManager.Boot.{
  configuration_manager_load_or_persist_defaults, initialize_configuration,
  configuration_manager_configure_scheduler,
}
use irrigation_controller.ConfigurationManager.Defaults.{
  default_zones, default_steps, default_configuration, fresh_manager, dev_program,
  configuration_manager_init_dev_kit_defaults,
}
use irrigation_controller.ConfigurationManager.Candidates.{print_digits}
use irrigation_controller.ConfigurationManager.Served.{IsSound}
use irrigation_controller.ConfigurationManager.Loaded.{StoredFit, initialize_configuration-IsSound}
use irrigation_controller.ConfigurationManager.Overfull.{load-overflow, overflow-configure}
use irrigation_controller.ConfigurationManager.Fits.{extra}
use irrigation_controller.Scenarios.Data.{Log, started_device}
use irrigation_controller.Scenarios.Stored.{
  Memory, find_blob, put_blob, commit_blob, honest, garden, test_garden_valid, test_empty,
}
use irrigation_controller.Controller.{dev_zones}

abbrev pub memory : ConfigurationRepositoryStorage Memory
memory = storage_of find_blob put_blob commit_blob

-- The memory after a first save.
abbrev pub memory_of : IrrigationConfiguration → Memory
memory_of c = (configuration_repository_save memory [] (some c) 0 (some dev_zones)).0

module _ (c : IrrigationConfiguration)
    (valid : irrigation_configuration_validate (some c) (some dev_zones) ≡ IrrigationResult.ok)
    (p : c.next_program_id < 2 ^ 32) (q : c.next_schedule_id < 2 ^ 32) where
  pub memory-save :
      configuration_repository_save memory [] (some c) 0 (some dev_zones) ≡ (memory_of c, ok)
  memory-save =
      ap (λ r. (memory_of c, r))
        (save-succeeds find_blob put_blob commit_blob [] c 0 dev_zones honest (λ s key blob. refl)
          (λ s. refl) valid p q (ap (λ slot. is_storage_failed slot.state) (test_empty slot_a))
          (ap (λ slot. is_storage_failed slot.state) (test_empty slot_b))
          (omega (arith, ap (λ slot. slot.generation) (test_empty slot_a)))
          (omega (arith, ap (λ slot. slot.generation) (test_empty slot_b))))

  memory-load :
      configuration_repository_load memory (memory_of c) (some dev_zones)
      ≡ done (
        c,
        next_generation
            (read_slot find_blob [] slot_a (some dev_zones))
            (read_slot find_blob [] slot_b (some dev_zones)),
      )
  memory-load =
      load-save find_blob put_blob commit_blob [] c 0 dev_zones (memory_of c) honest valid p q
        (omega (arith, ap (λ slot. slot.generation) (test_empty slot_a)))
        (omega (arith, ap (λ slot. slot.generation) (test_empty slot_b)))
        (λ va vb. omega (
          arith,
          ap (λ slot. slot.generation) (test_empty slot_a),
          ap (λ slot. slot.generation) (test_empty slot_b),
        ))
        memory-save

load-IsValid_example :
    is_ok (irrigation_configuration_validate (some garden) (some dev_zones)) ≡ true
load-IsValid_example =
    load-IsValid memory (memory_of garden) (some dev_zones) garden _
      (memory-load garden test_garden_valid (omega arith) (omega arith))

abbrev pub defaults : ConfigurationManager Memory × IrrigationResult
defaults = configuration_manager_init_dev_kit_defaults (fresh_manager dev_zones) (some dev_zones)

pub test_defaults : is_ok defaults.1 ≡ true
unfolding configuration_manager_init_dev_kit_defaults irrigation_configuration_validate
    characters_are_valid text_is_valid board_zone_exists program_exists is_repeated zones_are_valid
    steps_are_valid programs_are_valid schedules_are_valid text_eq default_configuration
    default_zones default_steps print_digits
test_defaults = refl

abbrev pub home : System VirtualOutputs ℕ Log Memory
home = record { manager = defaults.0; device = started_device; storage = []; before = 0 }

abbrev pub at_home : IrrigationConfiguration → System VirtualOutputs ℕ Log Memory
at_home c = record home { storage = memory_of c }

abbrev stored_programs : Stored (IrrigationConfiguration × ℕ) → List IrrigationProgramConfiguration
stored_programs (failed result) = []
stored_programs (done (c, g)) = c.programs

garden-StoredFit :
    StoredFit memory (memory_of garden) dev_zones (default_configuration dev_zones).programs
unfolding text_eq program_exists default_configuration
garden-StoredFit c g e =
    let same : c.programs ≡ garden.programs =
      ap stored_programs (sym e)
      ∙ ap stored_programs (memory-load garden test_garden_valid (omega arith) (omega arith)) in
    subst (λ programs. 1 + extra (default_configuration dev_zones).programs programs ≤ 4) (sym same)
      (omega arith)

test_boot : (initialize_configuration (some dev_zones) true memory (at_home garden)).1 ≡ true
unfolding initialize_configuration
test_boot = rw (test_defaults, initialize_configuration) refl

initialize_configuration-IsSound_example :
    IsSound (initialize_configuration (some dev_zones) true memory (at_home garden)).0.manager
initialize_configuration-IsSound_example =
    initialize_configuration-IsSound dev_zones true memory (at_home garden) garden-StoredFit
      test_boot

abbrev pub short_program : Text → IrrigationProgramConfiguration
short_program name = record {
  program_id = name;
  display_name = name;
  steps = record { zone_id = literal "zone-1"; duration_ms = 60000 } ∷ [];
}

abbrev daily : Text → ℕ → IrrigationScheduleConfiguration
daily name hour = record {
  schedule_id = name;
  enabled = true;
  weekday_mask = 127;
  hour = hour;
  minute = 0;
  program_id = literal "program-1";
}

-- Four programs and two schedules.
abbrev crowded : IrrigationConfiguration
crowded = record garden {
  programs =
      short_program (literal "program-1")
      ∷ short_program (literal "program-2")
      ∷ short_program (literal "program-3")
      ∷ short_program (literal "program-4")
      ∷ [];
  schedules = daily (literal "schedule-1") 6 ∷ daily (literal "schedule-2") 20 ∷ [];
  next_program_id = 5;
  next_schedule_id = 3;
}

test_crowded :
    irrigation_configuration_validate (some crowded) (some dev_zones) ≡ IrrigationResult.ok
unfolding irrigation_configuration_validate characters_are_valid text_is_valid board_zone_exists
    program_exists is_repeated zones_are_valid steps_are_valid programs_are_valid
    schedules_are_valid text_eq
test_crowded = refl

test_crowded_ids : program_exists crowded.programs dev_program ≡ false
unfolding program_exists text_eq
test_crowded_ids = refl

abbrev crowded_boot : System VirtualOutputs ℕ Log Memory × ConfigurationManagerBootResult
crowded_boot = configuration_manager_load_or_persist_defaults (some memory) (at_home crowded)

load-overflow_example :
    (crowded_boot.1 ≡ loaded)
    × (crowded_boot.0.manager.configuration ≡ crowded)
    × (configuration_manager_program_at crowded_boot.0.manager 3 ≡ none)
    × (crowded_boot.0.manager.runtime_schedules ≡ home.manager.runtime_schedules)
load-overflow_example =
    load-overflow (fresh_manager dev_zones) dev_zones memory (at_home crowded) crowded _
      test_defaults refl (memory-load crowded test_crowded (omega arith) (omega arith)) refl
      test_crowded_ids

overflow-configure_example :
    is_ok (configuration_manager_configure_scheduler Pointer.valid crowded_boot.0).1 ≡ false
overflow-configure_example =
    overflow-configure (fresh_manager dev_zones) dev_zones memory (at_home crowded) crowded _
      Pointer.valid test_defaults refl
      (memory-load crowded test_crowded (omega arith) (omega arith)) refl test_crowded_ids
      (omega arith)
