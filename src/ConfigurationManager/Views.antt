-- ===== src/ConfigurationManager/Views.antt =====
-- firmware/app/configuration/configuration_manager.c: `rebuild_runtime_views` and what reads the
-- views. The manager's pointer is not NULL.
use irrigation_controller.Prelude.{
  ℕ, Bool, true, false, if◌then◌else◌, Option, none, some, List, [], ◌∷◌, Text, text_eq, get_elem?,
  replicate,
}
use irrigation_controller.Domain.{Program, max_programs, max_schedules}
use irrigation_controller.Configuration.{IrrigationConfiguration, IrrigationZoneConfiguration}
use irrigation_controller.ConfigurationManager.{ConfigurationManager, keep_slots, slot_for_id}
use irrigation_controller.ConfigurationManager.Placing.{
  ScheduleViews, place_programs, place_schedules,
}

-- The loop of `configuration_manager_zone_name`.
unfoldable pub name_of_zone : List IrrigationZoneConfiguration → Text → Option Text
name_of_zone [] zone_id = none
name_of_zone (zone ∷ zones) zone_id =
    if text_eq zone.zone_id zone_id then some zone.display_name else name_of_zone zones zone_id

module _ {S : Type 0} where
  -- The first half; false is the early return.
  unfoldable pub rebuild_programs :
      ConfigurationManager S → IrrigationConfiguration → ConfigurationManager S × Bool
  unfolding place_programs keep_slots
  rebuild_programs manager configuration =
      let (slots, in_use, finished) =
        place_programs configuration.programs manager.program_slots
          (replicate max_programs false) in
      if finished
      then (record manager { program_slots = keep_slots slots in_use }, true)
      else (record manager { program_slots = slots }, false)

  abbrev pub schedule_views : ConfigurationManager S → ScheduleViews
  schedule_views manager = record {
    slots = manager.schedule_slots;
    in_use = replicate max_schedules false;
    entries = manager.runtime_schedules;
  }

  -- The second half.
  unfoldable pub rebuild_schedules :
      ConfigurationManager S → IrrigationConfiguration → ConfigurationManager S
  unfolding place_schedules keep_slots
  rebuild_schedules manager configuration =
      let (views, finished) =
        place_schedules configuration.programs manager.program_slots 0 configuration.schedules
          (schedule_views manager) in
      record manager {
        schedule_slots = if finished then keep_slots views.slots views.in_use else views.slots;
        runtime_schedules = views.entries;
      }

  unfoldable pub rebuild_runtime_views :
      Bool → IrrigationConfiguration → ConfigurationManager S → ConfigurationManager S
  unfolding rebuild_programs rebuild_schedules
  rebuild_runtime_views rebuild configuration manager =
      if rebuild
      then (let (manager', finished) = rebuild_programs manager configuration in
          if finished then rebuild_schedules manager' configuration else manager')
      else rebuild_schedules manager configuration

  unfoldable pub configuration_manager_program_at : ConfigurationManager S → ℕ → Option Program
  unfolding slot_for_id
  configuration_manager_program_at manager program_index =
      elim (get_elem? manager.configuration.programs program_index) [
        | none ↦ none
        | some program ↦ elim (slot_for_id manager.program_slots program.program_id) [
          | none ↦ none
          | some slot ↦ elim (get_elem? manager.program_slots slot) [
            | none ↦ none
            | some held ↦ some held.content
          ]
        ]
      ]

  unfoldable pub configuration_manager_zone_name :
      ConfigurationManager S → Option Text → Option Text
  unfolding name_of_zone
  configuration_manager_zone_name manager none = none
  configuration_manager_zone_name manager (some zone_id) =
      name_of_zone manager.configuration.zones zone_id
