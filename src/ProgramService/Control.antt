-- ===== src/ProgramService/Control.antt =====
-- firmware/domain/programs/program_service.c: starting, processing and aborting a program.
use irrigation_controller.Prelude.{
  Bool, not, ◌&&◌, ◌||◌, if◌then◌else◌, Option, none, some, is_null,
}
use irrigation_controller.Result.{IrrigationResult, ok, rejected, is_ok}
use irrigation_controller.Domain.{
  ProgramStep, Program, ProgramStartContext, ProgramExecutionResult, program_start_context_is_valid,
  program_start_context_manual,
}
use irrigation_controller.StateStore.{ProgramState, state_store_snapshot}
use irrigation_controller.StateStore.MasterValve.{is_closed}
use irrigation_controller.StateStore.Program.{is_running_zone, state_store_start_program}
use irrigation_controller.Events.{EventType}
use irrigation_controller.Device.{Device, Op, ◌>>=◌, return, on_store}
use irrigation_controller.ZoneService.Closing.{zone_service_close}
use irrigation_controller.MasterValveService.{
  master_valve_service_open, master_valve_service_close, master_valve_service_state,
}
use irrigation_controller.ProgramService.{
  program_is_valid, is_waiting_master, is_waiting_post_delay, program_service_is_active,
  publish_execution_event, finish, with_operation_lock,
}
use irrigation_controller.ProgramService.Running.{
  process_waiting_master, process_running_zone, process_post_delay, with_step,
}

module _ {D V H : Type 0} where
  -- `service->program` and `service->start_context` are written before the store is asked.
  unfoldable pub start_locked : Program → ProgramStartContext → Op D V H IrrigationResult
  start_locked program context d =
      let service = d.program_service in
      (do
        result ← on_store state_store_start_program
        if not (is_ok result) then return result else (do
          _ ←
              publish_execution_event EventType.program_execution_started
                ProgramExecutionResult.fault 0 none
          opened ← master_valve_service_open
          if is_ok opened
              then return opened
              else (do _ ← finish ProgramState.fault ProgramExecutionResult.fault; return opened)))
        (record d {
          program_service = record service { program = program; start_context = context };
        })

  abbrev pub start_is_refused : Device D V H → Option Program → ProgramStartContext → Bool
  start_is_refused d program context =
      is_null d.program_service.state_store
      || is_null d.program_service.master_valve_service
      || is_null d.program_service.zone_service
      || not (program_is_valid program)
      || not (program_start_context_is_valid context)
      || program_service_is_active d.program_service d.store

  unfoldable pub program_service_start_with_context :
      Option Program → ProgramStartContext → Op D V H IrrigationResult
  unfolding start_locked with_operation_lock
  program_service_start_with_context none context d = (d, rejected)
  program_service_start_with_context (some program) context d =
      if start_is_refused d (some program) context
      then (d, rejected)
      else with_operation_lock (start_locked program context) d

  unfoldable pub program_service_start : Option Program → Op D V H IrrigationResult
  unfolding program_service_start_with_context
  program_service_start program =
      program_service_start_with_context program program_start_context_manual

  unfoldable pub process_locked : Op D V H IrrigationResult
  unfolding process_waiting_master process_running_zone process_post_delay
  process_locked d =
      let state = (state_store_snapshot d.store).program.state in
      if is_waiting_master state
      then process_waiting_master d
      else if is_running_zone state
      then process_running_zone d
      else if is_waiting_post_delay state
      then process_post_delay d
      else (d, ok)

  unfoldable pub program_service_process : Op D V H IrrigationResult
  unfolding process_locked with_operation_lock program_service_is_active
  program_service_process d =
      if not (program_service_is_active d.program_service d.store)
      then (d, rejected)
      else with_operation_lock process_locked d

  -- `zone_service_close` of a step's zone.
  unfoldable pub close_step : ProgramStep → Op D V H IrrigationResult
  close_step step = zone_service_close step.zone_id

  -- The close of the running step's zone, if a zone runs.
  unfoldable pub abort_zone : Op D V H IrrigationResult
  unfolding with_step close_step
  abort_zone d =
      let program = (state_store_snapshot d.store).program in
      if is_running_zone program.state
      then with_step program.current_step_index close_step d
      else (d, ok)

  unfoldable pub abort_valve : IrrigationResult → Op D V H IrrigationResult
  abort_valve result d =
      if is_ok result && not (is_closed (master_valve_service_state d.master_valve_service d.store))
      then master_valve_service_close d
      else (d, result)

  unfoldable pub abort_locked : Op D V H IrrigationResult
  unfolding abort_zone abort_valve
  abort_locked = do
    zone_result ← abort_zone
    result ← abort_valve zone_result
    _ ←
        (if is_ok result
          then finish ProgramState.aborted ProgramExecutionResult.aborted
          else finish ProgramState.fault ProgramExecutionResult.fault)
    return result

  unfoldable pub program_service_abort : Op D V H IrrigationResult
  unfolding abort_locked with_operation_lock program_service_is_active
  program_service_abort d =
      if not (program_service_is_active d.program_service d.store)
      then (d, rejected)
      else with_operation_lock abort_locked d
