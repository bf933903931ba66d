-- ===== src/Scenarios/Stepping.antt =====
-- A program that runs its second step.
use irrigation_controller.Prelude.{[], ◌∷◌, ◌<◌, ℕ, ap, ◌≡◌, refl, some, literal, length}
use irrigation_controller.StateStore.{ProgramState}
use irrigation_controller.Scenarios.Data.{started_device, dev_board, entries, zone_1}
use irrigation_controller.Controller.{app_main, perform}
use irrigation_controller.Prelude.Tests.{text_eq}
use irrigation_controller.Domain.{program_start_context_is_valid, program_start_context_manual}
use irrigation_controller.StateStore.{state_store_init}
use irrigation_controller.StateStore.Zones.{
  state_store_transition_system, state_store_configure_zones, state_store_get_zone,
  state_store_open_zone, state_store_close_zone,
}
use irrigation_controller.StateStore.MasterValve.{
  state_store_configure_master_valve, state_store_begin_master_valve_open,
  state_store_complete_master_valve_pre_open_delay,
}
use irrigation_controller.StateStore.Scheduler.{state_store_configure_scheduler}
use irrigation_controller.StateStore.Program.{
  state_store_start_program, state_store_set_program_running_zone,
}
use irrigation_controller.Events.{event_bus_init, event_bus_subscribe}
use irrigation_controller.Device.{
  clock_now_ms, output_driver_initialize_safe_off, output_driver_set,
  master_valve_driver_open_and_confirm, zone_start_precondition_check,
}
use irrigation_controller.ZoneService.{
  fault_zone, record_open, zone_service_open_locked, zone_service_open,
}
use irrigation_controller.ZoneService.Closing.{zone_service_close_locked, zone_service_close}
use irrigation_controller.MasterValveService.{
  master_valve_service_zone_start_precondition, master_valve_service_state, open_locked,
  master_valve_service_open, master_valve_service_process_time,
}
use irrigation_controller.ProgramService.{program_is_valid}
use irrigation_controller.ProgramService.Control.{program_service_start, program_service_process}
use irrigation_controller.OutputDrivers.{virtual_output_driver}
use irrigation_controller.Domain.{Program}
use irrigation_controller.Device.{Device}
use irrigation_controller.OutputDrivers.{VirtualOutputs}
use irrigation_controller.ProgramService.{steps_of}
use irrigation_controller.StateStore.Program.{is_waiting_or_running}
use irrigation_controller.Controller.{Call, Reachable}
use irrigation_controller.Controller.StepIndex.{step_index_lem}
use irrigation_controller.Scenarios.Data.{after, Log}
use irrigation_controller.Scenarios.Facts.{test_started}

abbrev two_beds : Program
two_beds = record {
  id = some (literal "program-2");
  steps = some (
      record { zone_id = some zone_1; duration_ms = 1000 }
      ∷ record { zone_id = some (literal "zone-2"); duration_ms = 1000 }
      ∷ []);
  post_program_delay_ms = 1000;
}

abbrev started_program : Device VirtualOutputs ℕ Log
started_program =
    after (Call.program_start (some two_beds) program_start_context_manual) started_device

abbrev first_step : Device VirtualOutputs ℕ Log
first_step = after Call.program_process started_program

abbrev second_step : Device VirtualOutputs ℕ Log
second_step = after Call.program_process first_step

stepping : Reachable dev_board entries second_step
stepping = Reachable.called Call.program_process (
    Reachable.called Call.program_process (
      Reachable.called (Call.program_start (some two_beds) program_start_context_manual)
        (Reachable.started test_started)))

test_second_step :
    (second_step.store.program.state ≡ ProgramState.running_zone)
    × (second_step.store.program.current_step_index ≡ 1)
    × (length (steps_of second_step.program_service.program) ≡ 2)
unfolding app_main perform text_eq program_start_context_is_valid program_start_context_manual
    state_store_init state_store_transition_system state_store_configure_zones state_store_get_zone
    state_store_open_zone state_store_close_zone state_store_configure_master_valve
    state_store_begin_master_valve_open state_store_complete_master_valve_pre_open_delay
    state_store_configure_scheduler state_store_start_program state_store_set_program_running_zone
    event_bus_init event_bus_subscribe clock_now_ms output_driver_initialize_safe_off
    output_driver_set master_valve_driver_open_and_confirm zone_start_precondition_check fault_zone
    record_open zone_service_open_locked zone_service_open zone_service_close_locked
    zone_service_close master_valve_service_zone_start_precondition master_valve_service_state
    open_locked master_valve_service_open master_valve_service_process_time program_is_valid
    program_service_start program_service_process virtual_output_driver
test_second_step = (refl, refl, refl)

step_index_lem_example :
    second_step.store.program.current_step_index
    < length (steps_of second_step.program_service.program)
step_index_lem_example =
    step_index_lem dev_board entries second_step stepping
      (ap is_waiting_or_running test_second_step.0)
