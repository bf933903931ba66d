-- ===== src/ConfigurationManager/Placing.antt =====
-- firmware/app/configuration/configuration_manager.c: the loops of `rebuild_runtime_views`.
use irrigation_controller.Prelude.{
  ℕ, suc, Bool, true, false, Option, none, some, List, [], ◌∷◌, Text, get_elem?, set, map,
}
use irrigation_controller.Domain.{Program, ProgramStep}
use irrigation_controller.Configuration.{
  IrrigationProgramConfiguration, IrrigationProgramStepConfiguration,
  IrrigationScheduleConfiguration, id_size,
}
use irrigation_controller.Device.{SchedulerEntry, ProgramPointer}
use irrigation_controller.ConfigurationManager.{
  RuntimeSlot, copy_text, program_index_for_id, slot_for_id, claim_slot,
}

abbrev pub runtime_step : IrrigationProgramStepConfiguration → ProgramStep
runtime_step step = record {
  zone_id = some (copy_text id_size step.zone_id);
  duration_ms = step.duration_ms;
}

-- `(Program){.id = …, .steps = …, .step_count = …}`
abbrev pub runtime_program : IrrigationProgramConfiguration → Program
runtime_program configured = record {
  id = some (copy_text id_size configured.display_name);
  steps = some (map runtime_step configured.steps);
  post_program_delay_ms = 0;
}

abbrev pub program_slot : IrrigationProgramConfiguration → RuntimeSlot Program
program_slot configured = record {
  in_use = true;
  id = copy_text id_size configured.program_id;
  content = runtime_program configured;
}

-- The loop over the programs; false is the early return.
unfoldable pub place_programs :
    List IrrigationProgramConfiguration
    → List (RuntimeSlot Program)
    → List Bool
    → List (RuntimeSlot Program) × List Bool × Bool
unfolding claim_slot
place_programs [] slots in_use = (slots, in_use, true)
place_programs (configured ∷ programs) slots in_use =
    elim (claim_slot slots configured.program_id) [
      | none ↦ (slots, in_use, false)
      | some slot ↦
          place_programs programs (set slots slot (program_slot configured)) (set in_use slot true)
    ]

-- `configuration->programs[program_index].program_id`, for an index that was found.
abbrev pub program_id_at : List IrrigationProgramConfiguration → ℕ → Text
program_id_at programs index = elim (get_elem? programs index) [
  | none ↦ []
  | some program ↦ program.program_id
]

abbrev pub runtime_schedule :
    IrrigationScheduleConfiguration → Option ProgramPointer → SchedulerEntry
runtime_schedule configured program = record {
  id = some (copy_text id_size configured.schedule_id);
  enabled = configured.enabled;
  weekday_mask = configured.weekday_mask;
  hour = configured.hour;
  minute = configured.minute;
  program = program;
}

-- `&manager->runtime_programs[program_slot]`
abbrev pub program_pointer : List (RuntimeSlot Program) → ℕ → Option ProgramPointer
program_pointer slots slot = elim (get_elem? slots slot) [
  | none ↦ none
  | some held ↦ some (record { address = slot; object = held.content })
]

abbrev pub schedule_slot : Text → RuntimeSlot (Unit {0})
schedule_slot id = record { in_use = true; id = copy_text id_size id; content = tt }

-- The slot of a schedule's program; `none` where the program or its slot is missing.
unfoldable pub slot_of_program :
    List IrrigationProgramConfiguration → List (RuntimeSlot Program) → Text → Option ℕ
unfolding program_index_for_id slot_for_id
slot_of_program programs slots program_id = elim (program_index_for_id programs program_id) [
  | none ↦ none
  | some index ↦ slot_for_id slots (program_id_at programs index)
]

-- What the loop over the schedules writes.
pub record ScheduleViews : Type 0 where
  pub slots : List (RuntimeSlot (Unit {0}))
  pub in_use : List Bool
  pub entries : List SchedulerEntry

-- The loop over the schedules, from the place `index` on; false is the early return.
unfoldable pub place_schedules :
    List IrrigationProgramConfiguration
    → List (RuntimeSlot Program)
    → ℕ
    → List IrrigationScheduleConfiguration
    → ScheduleViews
    → ScheduleViews × Bool
unfolding claim_slot slot_of_program
place_schedules programs program_slots index [] views = (views, true)
place_schedules programs program_slots index (configured ∷ schedules) views =
    elim (claim_slot views.slots configured.schedule_id) [
      | none ↦ (views, false)
      | some slot ↦ elim (slot_of_program programs program_slots configured.program_id) [
        | none ↦ (views, false)
        | some program ↦ place_schedules programs program_slots (suc index) schedules (record {
          slots = set views.slots slot (schedule_slot configured.schedule_id);
          in_use = set views.in_use slot true;
          entries =
              set views.entries index
                (runtime_schedule configured (program_pointer program_slots program));
        })
      ]
    ]
