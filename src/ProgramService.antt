-- ===== src/ProgramService.antt =====
-- firmware/domain/programs/program_service.c and program_execution.c: running a program's steps.
-- `printf` is left out. The program of the last start is kept by value: the objects it points to
-- do not change while it is active.
pub mod Running
pub mod Control
pub mod Keeping
pub mod Safety
pub mod StepIndex
pub mod Refusals
pub mod SafeSteps
use irrigation_controller.Prelude.{
  ℕ, suc, ◌+◌, ◌^◌, ◌-◌, Bool, true, false, not, ◌&&◌, ◌||◌, if◌then◌else◌, Option, none, some,
  List, [], ◌∷◌, Text, literal, length, get_elem?, is_null, is_none, Pointer, ltb, leb,
}
use irrigation_controller.Result.{
  IrrigationResult, ok, rejected, invalid_state, internal_error, is_ok,
}
use irrigation_controller.Domain.{
  Program, ProgramStep, ProgramStartContext, ProgramExecutionResult, program_start_context_is_valid,
  program_start_context_manual,
}
use irrigation_controller.StateStore.{
  StateStore, ProgramState, MasterValveState, sub_u64, state_store_snapshot,
}
use irrigation_controller.StateStore.Tests.{is_master_open}
use irrigation_controller.StateStore.MasterValve.{is_closed}
use irrigation_controller.StateStore.Program.{
  is_running_zone, state_store_start_program, state_store_set_program_running_zone,
  state_store_set_program_waiting_post_delay, state_store_set_program_terminal,
}
use irrigation_controller.Events.{Event, EventType}
use irrigation_controller.Device.{
  Device, Op, ProgramService, ◌>>=◌, ◌>>◌, return, on_store, read_clock, publish,
}
use irrigation_controller.ZoneService.{zone_service_open}
use irrigation_controller.ZoneService.Closing.{zone_service_close}
use irrigation_controller.MasterValveService.{
  master_valve_service_open, master_valve_service_close, master_valve_service_process_time,
  master_valve_service_close_is_eligible, master_valve_service_state,
}

abbrev pub uint32_max : ℕ
uint32_max = 2 ^ 32 - 1

-- The sum in 64 bits; at most 2 ^ 32 terms of 32 bits do not wrap it.
unfoldable pub add_durations : ℕ → List ProgramStep → ℕ
add_durations duration_ms [] = duration_ms
add_durations duration_ms (step ∷ steps) = add_durations (duration_ms + step.duration_ms) steps

-- `steps` is not NULL where the program has been started; a NULL here counts no steps.
abbrev pub steps_of : Program → List ProgramStep
steps_of program = elim program.steps [ none ↦ [] | some steps ↦ steps ]

unfoldable pub planned_duration_ms : Program → ℕ
unfolding add_durations
planned_duration_ms program =
    let duration_ms = add_durations program.post_program_delay_ms (steps_of program) in
    if ltb uint32_max duration_ms then uint32_max else duration_ms

-- The loop of `program_is_valid`.
unfoldable pub steps_are_valid : List ProgramStep → Bool
steps_are_valid [] = true
steps_are_valid (step ∷ steps) = not (is_none step.zone_id) && steps_are_valid steps

-- `none` is a NULL program.
unfoldable pub program_is_valid : Option Program → Bool
unfolding steps_are_valid
program_is_valid none = false
program_is_valid (some program) = not (is_none program.id) && (elim program.steps [
  | none ↦ false
  | some [] ↦ false
  | some (step ∷ steps) ↦ steps_are_valid (step ∷ steps)
])

abbrev pub is_active_state : ProgramState → Bool
is_active_state ProgramState.waiting_master = true
is_active_state ProgramState.running_zone = true
is_active_state ProgramState.waiting_post_program_delay = true
is_active_state _ = false

abbrev pub is_waiting_master : ProgramState → Bool
is_waiting_master ProgramState.waiting_master = true
is_waiting_master _ = false

abbrev pub is_waiting_post_delay : ProgramState → Bool
is_waiting_post_delay ProgramState.waiting_post_program_delay = true
is_waiting_post_delay _ = false

abbrev pub is_fault : MasterValveState → Bool
is_fault MasterValveState.fault = true
is_fault _ = false

unfoldable pub program_service_state : ProgramService → StateStore → ProgramState
unfolding state_store_snapshot
program_service_state service store =
    if is_null service.state_store
    then ProgramState.fault
    else (state_store_snapshot store).program.state

unfoldable pub program_service_is_active : ProgramService → StateStore → Bool
unfolding state_store_snapshot
program_service_is_active service store =
    if is_null service.state_store
    then false
    else is_active_state (state_store_snapshot store).program.state

abbrev pub execution_event :
    ProgramService → EventType → ProgramExecutionResult → ℕ → Option Text → ℕ → Event
execution_event service type result step_index zone_id timestamp_ms = record {
  id = literal "program-execution";
  timestamp_ms = timestamp_ms;
  source = literal "program_service";
  type = type;
  version = 1;
  zone_id = zone_id;
  program_id = service.program.id;
  program_start_context = service.start_context;
  program_execution_result = result;
  program_step_index = step_index;
  program_planned_duration_ms = planned_duration_ms service.program;
}

module _ {D V H : Type 0} where
  unfoldable pub program_service_init : Pointer → Pointer → Pointer → Program → Op D V H (Unit {0})
  program_service_init state_store master_valve_service zone_service no_program d = (
    record d {
      program_service = record {
        state_store = state_store;
        master_valve_service = master_valve_service;
        zone_service = zone_service;
        event_bus = Pointer.null;
        program = no_program;
        start_context = program_start_context_manual;
        operation_lock = false;
      };
    },
    tt,
  )

  unfoldable pub program_service_set_event_bus : Pointer → Op D V H (Unit {0})
  program_service_set_event_bus event_bus d =
      let service = d.program_service in
      (record d { program_service = record service { event_bus = event_bus } }, tt)

  unfoldable pub publish_execution_event :
      EventType → ProgramExecutionResult → ℕ → Option Text → Op D V H (Unit {0})
  publish_execution_event type result step_index zone_id d =
      let service = d.program_service in
      if is_null service.event_bus
      then (d, tt)
      else (do
        now_ms ← read_clock
        _ ← publish (execution_event service type result step_index zone_id now_ms)
        return tt)
          d

  unfoldable pub finish : ProgramState → ProgramExecutionResult → Op D V H (Unit {0})
  unfolding publish_execution_event
  finish terminal_state history_result = do
    _ ← on_store (λ s. state_store_set_program_terminal s terminal_state)
    publish_execution_event EventType.program_execution_terminated history_result 0 none

  unfoldable pub operation_lock_acquire : Op D V H Bool
  operation_lock_acquire d =
      let service = d.program_service in
      (
        record d { program_service = record service { operation_lock = true } },
        not service.operation_lock,
      )

  unfoldable pub operation_lock_release : Op D V H (Unit {0})
  operation_lock_release d =
      let service = d.program_service in
      (record d { program_service = record service { operation_lock = false } }, tt)

  -- The frame of each operation: REJECTED if the lock is taken, and the release on every return.
  unfoldable pub with_operation_lock : Op D V H IrrigationResult → Op D V H IrrigationResult
  unfolding operation_lock_acquire operation_lock_release
  with_operation_lock body = do
    acquired ← operation_lock_acquire
    if acquired
        then (do result ← body; _ ← operation_lock_release; return result)
        else return rejected

  -- `if (master_valve_service_close_is_eligible(…)) (void)master_valve_service_close(…)`
  unfoldable pub close_if_eligible : Op D V H IrrigationResult
  close_if_eligible d =
      if master_valve_service_close_is_eligible d.master_valve_service d.store
      then master_valve_service_close d
      else (d, ok)

  unfoldable pub fault : IrrigationResult → Op D V H IrrigationResult
  unfolding close_if_eligible finish
  fault result = do
    _ ← close_if_eligible
    _ ← finish ProgramState.fault ProgramExecutionResult.fault
    return result
