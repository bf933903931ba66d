-- ===== src/Scenarios/Rescheduled.antt =====
-- Configurations of a scheduler that has handled an occurrence.
use irrigation_controller.Prelude.{◌≡◌, refl, true, false, some, List, [], ◌∷◌, literal, get_elem?}
use irrigation_controller.Prelude.Tests.{text_eq}
use irrigation_controller.Result.{is_ok, passed}
use irrigation_controller.StateStore.{ScheduleOccurrenceStatus, schedule_occurrence_unhandled}
use irrigation_controller.StateStore.Scheduler.{state_store_get_schedule_occurrence}
use irrigation_controller.Device.{Device, SchedulerEntry}
use irrigation_controller.OutputDrivers.{VirtualOutputs}
use irrigation_controller.Prelude.{ℕ}
use irrigation_controller.SchedulerService.{entries_are_unchanged, scheduler_service_configure}
use irrigation_controller.SchedulerService.Restoring.{HasPlaces}
use irrigation_controller.SchedulerService.Restored.{configure-keeps, configure-clears}
use irrigation_controller.Controller.{app_main}
use irrigation_controller.Device.{on_store, output_driver_initialize_safe_off}
use irrigation_controller.OutputDrivers.{virtual_output_driver}
use irrigation_controller.StateStore.{state_store_init}
use irrigation_controller.StateStore.Zones.{
  state_store_transition_system, state_store_configure_zones,
}
use irrigation_controller.Events.{event_bus_subscribe, event_bus_init}
use irrigation_controller.StateStore.MasterValve.{state_store_configure_master_valve}
use irrigation_controller.Prelude.{All}
use irrigation_controller.StateStore.Scheduler.{
  state_store_configure_scheduler, state_store_record_schedule_occurrence,
}
use irrigation_controller.Scenarios.Data.{Log, started_device, morning}

abbrev handled_device : Device VirtualOutputs ℕ Log
handled_device =
    (on_store (λ s. state_store_record_schedule_occurrence s 0 700 ScheduleOccurrenceStatus.started)
      started_device).0

abbrev evening : SchedulerEntry
evening = record morning { id = some (literal "schedule-2"); hour = 20 }

-- The old entry now stands behind a new one.
abbrev longer : List SchedulerEntry
longer = evening ∷ morning ∷ []

test_handled :
    HasPlaces handled_device.store
    × (get_elem? handled_device.scheduler_service.entries 0 ≡ some morning)
    × (state_store_get_schedule_occurrence handled_device.store 0
        ≡ passed (700, ScheduleOccurrenceStatus.started))
    × (is_ok (scheduler_service_configure longer handled_device).1 ≡ true)
    × (entries_are_unchanged morning morning ≡ true)
    × (All
        (λ other. entries_are_unchanged evening other ≡ false)
        handled_device.scheduler_service.entries)
unfolding app_main output_driver_initialize_safe_off virtual_output_driver
    state_store_transition_system state_store_init state_store_configure_zones text_eq
    event_bus_subscribe event_bus_init state_store_configure_scheduler
    state_store_record_schedule_occurrence state_store_configure_master_valve entries_are_unchanged
test_handled = ((refl, refl), refl, refl, refl, refl, (refl, tt))

configure-keeps_example :
    state_store_get_schedule_occurrence
      (scheduler_service_configure longer handled_device).0.store
      1
    ≡ passed (700, ScheduleOccurrenceStatus.started)
configure-keeps_example =
    let (places, stands, handled, good, same, new_) = test_handled in
    configure-keeps handled_device longer 1 0 morning morning 700 ScheduleOccurrenceStatus.started
      places refl stands same tt handled refl good

configure-clears_example :
    state_store_get_schedule_occurrence
      (scheduler_service_configure longer handled_device).0.store
      0
    ≡ passed (schedule_occurrence_unhandled, ScheduleOccurrenceStatus.none)
configure-clears_example =
    configure-clears handled_device longer 0 evening test_handled.0 refl test_handled.5
      test_handled.3
