-- ===== src/Scenarios/Facts.antt =====
-- What the concrete devices compute to.
use irrigation_controller.Prelude.{◌≡◌, refl, true, false, some, literal, arith, length}
use irrigation_controller.Result.{is_ok}
use irrigation_controller.Domain.{max_schedules}
use irrigation_controller.StateStore.{
  on, ZoneRuntimeState, ZoneState, MasterValveState, ProgramState,
}
use irrigation_controller.StateStore.MasterValve.{is_closed_or_fault}
use irrigation_controller.StateStore.Consistent.{output_at}
use irrigation_controller.MasterValveService.Delay.{IsFree}
use irrigation_controller.SchedulerService.Once.{IsConfigured}
use irrigation_controller.Scenarios.Data.{
  watering_device, started_device, opening_device, dev_board, entries, zone_1, faulty_device,
}
use irrigation_controller.Controller.{app_main, perform}
use irrigation_controller.Prelude.Tests.{text_eq}
use irrigation_controller.StateStore.{state_store_init}
use irrigation_controller.StateStore.Zones.{
  state_store_transition_system, state_store_configure_zones, state_store_get_zone,
  state_store_open_zone,
}
use irrigation_controller.StateStore.Tests.{find_in, has_active_or_unknown_output}
use irrigation_controller.StateStore.MasterValve.{
  state_store_configure_master_valve, state_store_begin_master_valve_open,
  state_store_complete_master_valve_pre_open_delay,
}
use irrigation_controller.StateStore.Scheduler.{state_store_configure_scheduler}
use irrigation_controller.StateStore.Program.{state_store_set_program_terminal}
use irrigation_controller.Events.{event_bus_init, event_bus_subscribe}
use irrigation_controller.Device.{
  clock_now_ms, output_driver_initialize_safe_off, output_driver_set,
  master_valve_driver_open_and_confirm, zone_start_precondition_check,
}
use irrigation_controller.ZoneService.{
  fault_zone, record_open, zone_service_open_locked, zone_service_open,
}
use irrigation_controller.ZoneService.Safety.{zone_call}
use irrigation_controller.MasterValveService.{
  master_valve_service_zone_start_precondition, open_locked, master_valve_service_open,
  master_valve_service_process_time,
}
use irrigation_controller.SchedulerService.{scheduler_service_configure}
use irrigation_controller.OutputDrivers.{virtual_output_driver}

pub test_started : (app_main dev_board entries).1 ≡ true
unfolding app_main perform zone_call output_driver_initialize_safe_off virtual_output_driver
    state_store_transition_system state_store_init state_store_configure_zones text_eq
    event_bus_subscribe event_bus_init state_store_configure_scheduler
test_started = refl

pub test_started_device :
    (IsFree started_device × IsConfigured started_device)
    × (is_closed_or_fault started_device.store.master_valve.state ≡ true)
    × (started_device.store.master_valve.state ≡ MasterValveState.closed)
    × (is_ok (scheduler_service_configure entries started_device).1 ≡ true)
    × (length started_device.store.scheduler.last_handled_occurrence ≡ max_schedules)
    × (started_device.zone_service.operation_lock ≡ false)
unfolding app_main perform zone_call output_driver_initialize_safe_off virtual_output_driver
    state_store_transition_system state_store_init state_store_configure_zones text_eq
    event_bus_subscribe event_bus_init state_store_configure_scheduler
    state_store_configure_master_valve
test_started_device = (
  (
    record { store = refl; driver = refl; unlocked = refl },
    record { counted = refl; bounded = omega arith; places = refl },
  ),
  refl,
  refl,
  refl,
  refl,
  refl,
)

pub test_opening_device :
    IsFree opening_device
    × (opening_device.store.master_valve.state ≡ MasterValveState.opening)
    × (opening_device.store.master_valve.opening_confirmed_at_ms ≡ 0)
    × ((clock_now_ms opening_device.clock).1 ≡ 1000)
unfolding app_main perform zone_call master_valve_service_open output_driver_initialize_safe_off
    virtual_output_driver state_store_transition_system state_store_init state_store_configure_zones
    text_eq event_bus_subscribe event_bus_init state_store_configure_scheduler open_locked
    state_store_configure_master_valve master_valve_driver_open_and_confirm
    state_store_begin_master_valve_open clock_now_ms
test_opening_device = (record { store = refl; driver = refl; unlocked = refl }, refl, refl, refl)

-- The zone that `watering_device` has open: at the third reading of the clock.
abbrev pub watering_zone : ZoneRuntimeState
watering_zone = record {
  zone_id = zone_1;
  output_id = literal "dev-output-1";
  output_index = 0;
  state = ZoneState.opened;
  opened_at_ms = 2000;
  duration_ms = 30000;
}

pub test_watering_device :
    (output_at watering_device.store.output_states 0 ≡ on)
    × (find_in watering_device.store.zones zone_1 ≡ some watering_zone)
    × (has_active_or_unknown_output watering_device.store ≡ true)
unfolding app_main perform text_eq state_store_init state_store_transition_system
    state_store_configure_zones state_store_get_zone state_store_open_zone
    state_store_configure_master_valve state_store_begin_master_valve_open
    state_store_complete_master_valve_pre_open_delay state_store_configure_scheduler event_bus_init
    event_bus_subscribe clock_now_ms output_driver_initialize_safe_off output_driver_set
    master_valve_driver_open_and_confirm zone_start_precondition_check fault_zone record_open
    zone_service_open_locked zone_service_open zone_call
    master_valve_service_zone_start_precondition open_locked master_valve_service_open
    master_valve_service_process_time virtual_output_driver
test_watering_device = (refl, refl, refl)

pub test_faulty_device : faulty_device.store.program.state ≡ ProgramState.fault
unfolding app_main perform zone_call state_store_set_program_terminal
test_faulty_device = refl
