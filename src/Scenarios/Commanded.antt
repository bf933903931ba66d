-- ===== src/Scenarios/Commanded.antt =====
-- Commands that are dispatched to concrete devices.
use irrigation_controller.Prelude.{ℕ, ◌≢◌, none, Pointer, ◌≡◌, refl, true, some, literal, arith}
use irrigation_controller.Result.{is_ok}
use irrigation_controller.StateStore.{MasterValveState}
use irrigation_controller.Scenarios.Data.{started_device, zone_1}
use irrigation_controller.Controller.{app_main}
use irrigation_controller.Prelude.Tests.{text_eq}
use irrigation_controller.StateStore.{state_store_init}
use irrigation_controller.StateStore.Zones.{
  state_store_transition_system, state_store_configure_zones, state_store_get_zone,
  state_store_close_zone, state_store_record_zone_actuation_fault,
}
use irrigation_controller.StateStore.MasterValve.{state_store_configure_master_valve}
use irrigation_controller.StateStore.Scheduler.{state_store_configure_scheduler}
use irrigation_controller.Events.{event_bus_init, event_bus_subscribe}
use irrigation_controller.Device.{output_driver_initialize_safe_off, output_driver_set}
use irrigation_controller.ZoneService.Closing.{zone_service_close_locked, zone_service_close}
use irrigation_controller.OutputDrivers.{virtual_output_driver}
use irrigation_controller.StateStore.{unknown}
use irrigation_controller.Device.{Device, on_store}
use irrigation_controller.OutputDrivers.{VirtualOutputs}
use irrigation_controller.Commands.{
  Command, CommandBus, CommandType, command_bus_init, command_bus_dispatch,
  zone_command_handler_dispatch,
}
use irrigation_controller.Commands.Dispatch.{
  zone_bus, DispatchOutcome, dispatch_cases, dispatch-valve_shut,
}
use irrigation_controller.Scenarios.Data.{Log}

abbrev idle_bus : CommandBus VirtualOutputs ℕ Log
idle_bus = record { handler = none; context = Pointer.null }

abbrev close_command : Command
close_command = record {
  id = some (literal "command-1");
  timestamp_ms = 0;
  origin = some (literal "web");
  type = CommandType.close_zone;
  version = 1;
  zone_id = some zone_1;
  duration_ms = 0;
}

-- The valve is closed, and the output of the first zone has failed to answer.
abbrev failed_zone_device : Device VirtualOutputs ℕ Log
failed_zone_device =
    (on_store (λ s. state_store_record_zone_actuation_fault s (some zone_1) unknown)
      started_device).0

test_failed_zone :
    (is_ok
        (command_bus_dispatch
          (zone_bus idle_bus Pointer.valid)
          (some close_command)
          failed_zone_device).1
      ≡ true)
    × (failed_zone_device.store.master_valve.state ≡ MasterValveState.closed)
unfolding app_main text_eq state_store_init state_store_transition_system
    state_store_configure_zones state_store_get_zone state_store_close_zone
    state_store_record_zone_actuation_fault state_store_configure_master_valve
    state_store_configure_scheduler event_bus_init event_bus_subscribe
    output_driver_initialize_safe_off output_driver_set zone_service_close_locked zone_service_close
    virtual_output_driver command_bus_dispatch zone_command_handler_dispatch command_bus_init
test_failed_zone = (refl, refl)

dispatch_cases_example :
    DispatchOutcome Pointer.valid (some close_command) failed_zone_device (
      command_bus_dispatch
        (zone_bus idle_bus Pointer.valid)
        (some close_command)
        failed_zone_device)
dispatch_cases_example =
    dispatch_cases idle_bus Pointer.valid (some close_command) failed_zone_device

dispatch-valve_shut_example : close_command.type ≡ CommandType.close_zone
dispatch-valve_shut_example =
    dispatch-valve_shut idle_bus Pointer.valid close_command failed_zone_device shut
      test_failed_zone.0
  where
    shut : failed_zone_device.store.master_valve.state ≢ MasterValveState.opened
    shut e = ground (arith, test_failed_zone.1)
