-- ===== src/ProgramService/Running.antt =====
-- firmware/domain/programs/program_service.c: the branches of `program_service_process`.
use irrigation_controller.Prelude.{
  ℕ, ◌+◌, not, if◌then◌else◌, none, some, length, get_elem?, ltb, leb,
}
use irrigation_controller.Result.{IrrigationResult, ok, invalid_state, internal_error, is_ok}
use irrigation_controller.Domain.{ProgramStep, ProgramExecutionResult}
use irrigation_controller.StateStore.{ProgramState, sub_u64, state_store_snapshot}
use irrigation_controller.StateStore.Tests.{is_master_open}
use irrigation_controller.StateStore.Program.{
  state_store_set_program_running_zone, state_store_set_program_waiting_post_delay,
}
use irrigation_controller.Events.{EventType}
use irrigation_controller.Device.{Op, ◌>>=◌, return, on_store, read_clock}
use irrigation_controller.ZoneService.{zone_service_open}
use irrigation_controller.ZoneService.Closing.{zone_service_close}
use irrigation_controller.MasterValveService.{
  master_valve_service_close, master_valve_service_process_time, master_valve_service_state,
}
use irrigation_controller.ProgramService.{
  steps_of, is_fault, publish_execution_event, finish, fault,
}

module _ {D V H : Type 0} where
  -- After the zone service's answer. The step is `service->program->steps[index]`.
  unfoldable pub record_running : ℕ → ProgramStep → IrrigationResult → Op D V H IrrigationResult
  record_running index step result = if not (is_ok result) then fault result else (do
    now_ms ← read_clock
    stored ← on_store (λ s. state_store_set_program_running_zone s index now_ms)
    if is_ok stored
        then (do
          _ ←
              publish_execution_event EventType.program_execution_step_started
                ProgramExecutionResult.fault index step.zone_id
          return stored)
        else return stored)

  -- `steps[index]` beyond the last step is undefined in C; the model answers `internal_error`.
  unfoldable pub with_step :
      ℕ → (ProgramStep → Op D V H IrrigationResult) → Op D V H IrrigationResult
  with_step index body d = elim (get_elem? (steps_of d.program_service.program) index) [
    | none ↦ (d, internal_error)
    | some step ↦ body step d
  ]

  -- `open_current_zone`, with its step.
  unfoldable pub open_step : ℕ → ProgramStep → Op D V H IrrigationResult
  unfolding record_running
  open_step index step =
      zone_service_open step.zone_id step.duration_ms >>= record_running index step

  unfoldable pub open_current_zone : Op D V H IrrigationResult
  unfolding with_step open_step
  open_current_zone d =
      let index = (state_store_snapshot d.store).program.current_step_index in
      with_step index (open_step index) d

  -- WAITING_MASTER, once the valve's time has been processed.
  unfoldable pub react_to_valve : Op D V H IrrigationResult
  unfolding open_current_zone fault
  react_to_valve d =
      let state = master_valve_service_state d.master_valve_service d.store in
      if is_master_open state
      then open_current_zone d
      else if is_fault state
      then fault invalid_state d
      else (d, ok)

  -- The branch of WAITING_MASTER.
  unfoldable pub process_waiting_master : Op D V H IrrigationResult
  unfolding react_to_valve fault
  process_waiting_master = do
    result ← master_valve_service_process_time
    if not (is_ok result) then fault result else react_to_valve

  -- RUNNING_ZONE, from the answer to the close of the zone on.
  unfoldable pub advance : ℕ → ProgramStep → IrrigationResult → Op D V H IrrigationResult
  advance index step result d =
      if not (is_ok result)
      then fault result d
      else if ltb (index + 1) (length (steps_of d.program_service.program))
      then (do
        _ ←
            publish_execution_event EventType.program_execution_step_completed
              ProgramExecutionResult.fault index step.zone_id
        now_ms ← read_clock
        _ ← on_store (λ s. state_store_set_program_running_zone s (index + 1) now_ms)
        open_current_zone)
          d
      else (do
        _ ←
            publish_execution_event EventType.program_execution_step_completed
              ProgramExecutionResult.fault index step.zone_id
        now_ms ← read_clock
        on_store (λ s. state_store_set_program_waiting_post_delay s now_ms))
          d

  -- RUNNING_ZONE, with its step: the zone closes once the step's time is over.
  unfoldable pub process_step : ℕ → ℕ → ProgramStep → Op D V H IrrigationResult
  unfolding advance
  process_step index step_started_at_ms step = do
    now_ms ← read_clock
    if leb step.duration_ms (sub_u64 now_ms step_started_at_ms)
        then (zone_service_close step.zone_id >>= advance index step)
        else return ok

  -- The branch of RUNNING_ZONE.
  unfoldable pub process_running_zone : Op D V H IrrigationResult
  unfolding with_step process_step
  process_running_zone d =
      let program = (state_store_snapshot d.store).program in
      let index = program.current_step_index in
      with_step index (process_step index program.step_started_at_ms) d

  -- The branch of WAITING_POST_PROGRAM_DELAY.
  unfoldable pub process_post_delay : Op D V H IrrigationResult
  process_post_delay d =
      let started_at_ms = (state_store_snapshot d.store).program.step_started_at_ms in
      (do
        now_ms ← read_clock
        if leb d.program_service.program.post_program_delay_ms (sub_u64 now_ms started_at_ms)
            then (do
              result ← master_valve_service_close
              _ ← finish ProgramState.completed ProgramExecutionResult.completed
              return result)
            else return ok)
        d
