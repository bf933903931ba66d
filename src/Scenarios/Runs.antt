-- ===== src/Scenarios/Runs.antt =====
-- The theorems on the services, at concrete devices.
use irrigation_controller.Prelude.{
  ℕ, ◌-◌, ◌≡◌, ◌≢◌, ◌⊎◌, ◌<◌, refl, true, false, some, arith, if◌then◌else◌, leb,
}
use irrigation_controller.Result.{ok, rejected, is_ok}
use irrigation_controller.Domain.{max_outputs, program_start_context_manual}
use irrigation_controller.StateStore.{on, off, MasterValveState, state_store_init}
use irrigation_controller.StateStore.Zones.{state_store_configure_zones}
use irrigation_controller.StateStore.Tests.{has_active_output}
use irrigation_controller.StateStore.Consistent.{IsConsistent, output_at}
use irrigation_controller.StateStore.Boot.{configure_zones-IsConsistent}
use irrigation_controller.Device.{Device, clock_now_ms, master_valve_driver_open_and_confirm}
use irrigation_controller.ZoneService.{zone_service_open}
use irrigation_controller.ZoneService.Safety.{ZoneCall, zone_call, zone_call-IsConsistent}
use irrigation_controller.MasterValveService.{
  master_valve_service_open, master_valve_service_process_time, master_valve_service_close,
}
use irrigation_controller.MasterValveService.Delay.{open_lem, process_time_lem, close-active_output}
use irrigation_controller.ProgramService.Control.{
  program_service_start_with_context, program_service_process, program_service_abort,
}
use irrigation_controller.ProgramService.Refusals.{open-valve_shut, fault_lem}
use irrigation_controller.SchedulerService.{scheduler_service_configure}
use irrigation_controller.SchedulerService.Processing.{scheduler_service_process}
use irrigation_controller.SchedulerService.Once.{IsConfigured, process-once}
use irrigation_controller.SchedulerService.Configured.{configure-IsConfigured}
use irrigation_controller.OutputDrivers.{VirtualOutputs}
use irrigation_controller.Controller.{Reachable, Call, dev_zones}
use irrigation_controller.Controller.Safety.{
  Reachable-IsConsistent, one_output_lem, watered_lem, open_zone_lem,
}
use irrigation_controller.Scenarios.Data.{
  dev_board, entries, started_device, opening_device, valve_open_device, watering_device,
  faulty_device, zone_1, garden, monday, Log,
}
use irrigation_controller.Scenarios.Facts.{
  test_started, test_started_device, test_opening_device, test_watering_device, test_faulty_device,
  watering_zone,
}

started : Reachable dev_board entries started_device
started = Reachable.started test_started

valve_open : Reachable dev_board entries valve_open_device
valve_open = Reachable.called Call.valve_process_time (Reachable.called Call.valve_open started)

watering : Reachable dev_board entries watering_device
watering = Reachable.called (Call.zone (ZoneCall.open_zone (some zone_1) 0)) valve_open

one_output_lem_example :
    (output_at watering_device.store.output_states 0 ≡ off)
    ⊎ (output_at watering_device.store.output_states 1 ≡ off)
one_output_lem_example =
    one_output_lem dev_board entries watering_device 0 1 watering (λ e. omega arith)

watered_lem_example : watering_device.store.master_valve.state ≡ MasterValveState.opened
watered_lem_example =
    watered_lem dev_board entries watering_device 0 watering test_watering_device.0

open_zone_lem_example :
    (output_at watering_device.store.output_states 0 ≡ on)
    × (0 < max_outputs)
    × (watering_device.store.master_valve.state ≡ MasterValveState.opened)
open_zone_lem_example =
    open_zone_lem dev_board entries watering_device zone_1 watering_zone watering
      test_watering_device.1 refl

zone_call-IsConsistent_example :
    IsConsistent (zone_call (ZoneCall.close_zone (some zone_1)) watering_device).0.store
zone_call-IsConsistent_example =
    zone_call-IsConsistent watering_device (ZoneCall.close_zone (some zone_1))
      (Reachable-IsConsistent dev_board entries watering_device watering)

configure_zones-IsConsistent_example :
    let (s', result) = state_store_configure_zones state_store_init dev_zones in
    ((is_ok result ≡ true) × IsConsistent s') ⊎ ((is_ok result ≡ false) × (s' ≡ state_store_init))
unfolding state_store_init has_active_output
configure_zones-IsConsistent_example =
    configure_zones-IsConsistent state_store_init dev_zones refl refl

abbrev handled_device : Device VirtualOutputs ℕ Log
handled_device = (scheduler_service_process monday started_device).0

process-once_example :
    scheduler_service_process monday handled_device
    ≡ (handled_device, (scheduler_service_process monday started_device).1)
process-once_example =
    process-once started_device monday handled_device test_started_device.0.1 refl refl

configure-IsConfigured_example : IsConfigured (scheduler_service_configure entries started_device).0
configure-IsConfigured_example =
    configure-IsConfigured started_device entries test_started_device.4 test_started_device.3

open_lem_example :
    let (d', result) = master_valve_service_open started_device in
    let answer =
      (master_valve_driver_open_and_confirm started_device.valve_driver started_device.valve).1 in
    (result ≡ answer)
    × (d'.store.master_valve.state
        ≡ (if is_ok answer then MasterValveState.opening else MasterValveState.fault))
    × (d'.store.master_valve.opening_confirmed_at_ms ≡ (
        if is_ok answer
        then (clock_now_ms started_device.clock).1
        else started_device.store.master_valve.opening_confirmed_at_ms))
    × (d'.store.output_states ≡ started_device.store.output_states)
    × (d'.store.zones ≡ started_device.store.zones)
    × (d'.master_valve_service.operation_lock ≡ false)
open_lem_example = open_lem started_device test_started_device.0.0 test_started_device.1

process_time_lem_example :
    let (d', result) = master_valve_service_process_time opening_device in
    let elapsed =
      (clock_now_ms opening_device.clock).1
      - opening_device.store.master_valve.opening_confirmed_at_ms in
    (result ≡ ok)
    × (d'.store.master_valve.state ≡ (
        if leb opening_device.store.master_valve.pre_open_delay_ms elapsed
        then MasterValveState.opened
        else MasterValveState.opening))
    × (d'.master_valve_service.operation_lock ≡ false)
process_time_lem_example =
    process_time_lem opening_device test_opening_device.0 test_opening_device.1
      (omega (arith, test_opening_device.2, test_opening_device.3))
      (omega (arith, test_opening_device.3))

close-active_output_example :
    let (d', result) = master_valve_service_close watering_device in
    (is_ok result ≡ false) × (d'.valve ≡ watering_device.valve) × (d'.store ≡ watering_device.store)
close-active_output_example = close-active_output watering_device test_watering_device.2

open-valve_shut_example :
    let (d', result) = zone_service_open (some zone_1) 0 started_device in
    (is_ok result ≡ false)
    × (d'.store ≡ started_device.store)
    × (d'.outputs ≡ started_device.outputs)
open-valve_shut_example = open-valve_shut started_device (some zone_1) 0 shut
  where
    shut : started_device.store.master_valve.state ≢ MasterValveState.opened
    shut e = ground (arith, test_started_device.2)

fault_lem_example :
    ((program_service_start_with_context
        (some garden)
        program_start_context_manual
        faulty_device).0.store
      ≡ faulty_device.store)
    × (is_ok
          (program_service_start_with_context
            (some garden)
            program_start_context_manual
            faulty_device).1
        ≡ false)
    × (program_service_process faulty_device ≡ (faulty_device, rejected))
    × (program_service_abort faulty_device ≡ (faulty_device, rejected))
fault_lem_example =
    fault_lem faulty_device (some garden) program_start_context_manual test_faulty_device
