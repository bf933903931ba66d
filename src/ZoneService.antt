-- ===== src/ZoneService.antt =====
-- firmware/domain/zones/zone_service.c: opening and closing zones.
-- `printf` is left out. An event goes to the bus of the service, whose result the code ignores.
pub mod Closing
pub mod Opening
pub mod Safety
pub mod Frame
pub mod Untouched
pub mod Done
pub mod Prepared
use irrigation_controller.Prelude.{
  ℕ, ◌==◌, Bool, true, false, not, ◌&&◌, ◌||◌, if◌then◌else◌, Option, none, some, List, [], ◌∷◌,
  Text, literal, is_none, is_null, get_or, leb, Pointer,
}
use irrigation_controller.Result.{
  IrrigationResult, ok, rejected, invalid_state, is_ok, Checked, passed, refused,
}
use irrigation_controller.Domain.{ProgramExecutionResult, program_start_context_manual}
use irrigation_controller.StateStore.{
  StateStore, SystemState, ZoneState, OutputState, ZoneRuntimeState, off, unknown, sub_u64,
  state_store_snapshot,
}
use irrigation_controller.StateStore.Zones.{
  state_store_transition_system, state_store_get_zone, state_store_prepare_zone_open,
  state_store_open_zone, state_store_close_zone, state_store_record_zone_actuation_fault,
}
use irrigation_controller.StateStore.Tests.{
  is_idle, is_ready, is_off, is_open_or_fault, is_master_open, has_active_output, find_zone,
}
use irrigation_controller.Events.{Event, EventType}
use irrigation_controller.Device.{
  Device, Op, ZoneService, ZoneStartPrecondition, ◌>>=◌, ◌>>◌, return, on_store, read_clock,
  publish, set_output, zone_start_precondition_check,
}

-- The members that the initialiser leaves out are zero.
abbrev pub zone_event : EventType → Option Text → ℕ → Event
zone_event type zone_id timestamp_ms = record {
  id = literal "zone-event";
  timestamp_ms = timestamp_ms;
  source = literal "zone_service";
  type = type;
  version = 1;
  zone_id = zone_id;
  program_id = none;
  program_start_context = program_start_context_manual;
  program_execution_result = ProgramExecutionResult.completed;
  program_step_index = 0;
  program_planned_duration_ms = 0;
}

abbrev pub has_null_pointer : ZoneService → Option Text → Bool
has_null_pointer service zone_id =
    is_null service.state_store
    || is_null service.output_driver
    || is_null service.event_bus
    || is_none zone_id

module _ {D V H : Type 0} where
  unfoldable pub zone_service_init :
      Pointer → Pointer → Pointer → ZoneStartPrecondition → Op D V H (Unit {0})
  zone_service_init state_store output_driver event_bus start_precondition d = (
    record d {
      zone_service = record {
        state_store = state_store;
        output_driver = output_driver;
        event_bus = event_bus;
        start_precondition = start_precondition;
        operation_lock = false;
      };
    },
    tt,
  )

  unfoldable pub publish_zone_event : EventType → Option Text → Op D V H IrrigationResult
  publish_zone_event type zone_id = do now_ms ← read_clock; publish (zone_event type zone_id now_ms)

  unfoldable pub fault_zone : Option Text → OutputState → Op D V H IrrigationResult
  unfolding publish_zone_event
  fault_zone zone_id output_state = do
    result ← on_store (λ s. state_store_record_zone_actuation_fault s zone_id output_state)
    if is_ok result
        then (publish_zone_event EventType.zone_faulted zone_id >> return result)
        else return result

  -- `operation_lock_acquire`: true if the flag was clear. The flag is set either way.
  unfoldable pub operation_lock_acquire : Op D V H Bool
  operation_lock_acquire d =
      let service = d.zone_service in
      (
        record d { zone_service = record service { operation_lock = true } },
        not service.operation_lock,
      )

  unfoldable pub operation_lock_release : Op D V H (Unit {0})
  operation_lock_release d =
      let service = d.zone_service in
      (record d { zone_service = record service { operation_lock = false } }, tt)

  -- The frame of each operation: REJECTED if the lock is taken, and the release on every return.
  unfoldable pub with_operation_lock : Op D V H IrrigationResult → Op D V H IrrigationResult
  unfolding operation_lock_acquire operation_lock_release
  with_operation_lock body = do
    acquired ← operation_lock_acquire
    if acquired
        then (do result ← body; _ ← operation_lock_release; return result)
        else return rejected

  -- The store refused what it had just allowed: the output is switched off again.
  unfoldable pub undo_open : Option Text → ℕ → IrrigationResult → Op D V H IrrigationResult
  undo_open zone_id output_index result = do
    _ ← set_output output_index false
    _ ← fault_zone zone_id unknown
    return result

  -- The driver failed: the output is switched off, and the zone is at fault.
  unfoldable pub give_up_open : Option Text → ℕ → IrrigationResult → Op D V H IrrigationResult
  give_up_open zone_id output_index result = do
    safe_off ← set_output output_index false
    _ ← fault_zone zone_id (if is_ok safe_off then off else unknown)
    return result

  -- The driver succeeded: the store records the zone as open.
  unfoldable pub record_open : Option Text → ℕ → ℕ → Op D V H IrrigationResult
  record_open zone_id output_index effective_duration = do
    now_ms ← read_clock
    result ← on_store (λ s. state_store_open_zone s zone_id now_ms effective_duration)
    if not (is_ok result)
        then undo_open zone_id output_index result
        else (publish_zone_event EventType.zone_opened zone_id >> return ok)

  -- The tail of `zone_service_open_locked`, from the call of the driver on.
  unfoldable pub actuate_open : Option Text → ℕ → ℕ → Op D V H IrrigationResult
  actuate_open zone_id output_index effective_duration = do
    result ← set_output output_index true
    if not (is_ok result)
        then give_up_open zone_id output_index result
        else record_open zone_id output_index effective_duration

  -- From `state_store_prepare_zone_open` on.
  unfoldable pub prepare_and_open : Option Text → ℕ → Op D V H IrrigationResult
  unfolding actuate_open
  prepare_and_open zone_id duration_ms d = elim (state_store_prepare_zone_open d.store zone_id) [
    | refused result ↦ (d, result)
    | passed (output_index, configured_duration) ↦
        actuate_open zone_id output_index
          (if duration_ms == 0 then configured_duration else duration_ms) d
  ]

  -- From the transition to MANUAL on.
  unfoldable pub open_from_ready : Option Text → ℕ → Op D V H IrrigationResult
  unfolding prepare_and_open
  open_from_ready zone_id duration_ms d =
      if is_ready d.store.system_state
      then (do
        transition ← on_store (λ s. state_store_transition_system s SystemState.manual)
        if not (is_ok transition) then return transition else prepare_and_open zone_id duration_ms)
          d
      else prepare_and_open zone_id duration_ms d

  -- `zone_start_precondition_check(&service->start_precondition)`, and what follows it.
  unfoldable pub open_checked : Option Text → ℕ → Op D V H IrrigationResult
  unfolding open_from_ready
  open_checked zone_id duration_ms d =
      let result = zone_start_precondition_check d.zone_service.start_precondition d.store in
      if not (is_ok result) then (d, result) else open_from_ready zone_id duration_ms d

  unfoldable pub zone_service_open_locked : Option Text → ℕ → Op D V H IrrigationResult
  unfolding open_checked
  zone_service_open_locked zone_id duration_ms d =
      if has_null_pointer d.zone_service zone_id
      then (d, rejected)
      else elim (state_store_get_zone d.store zone_id) [
        | refused result ↦ (d, result)
        | passed zone ↦
            let state = state_store_snapshot d.store in
            if not (is_idle zone.state)
            then (d, invalid_state)
            else if not (is_master_open state.master_valve.state)
            then (d, invalid_state)
            else if has_active_output state.output_states
            then (d, invalid_state)
            else open_checked zone_id duration_ms d
      ]

  unfoldable pub zone_service_open : Option Text → ℕ → Op D V H IrrigationResult
  unfolding with_operation_lock
  zone_service_open zone_id duration_ms =
      with_operation_lock (zone_service_open_locked zone_id duration_ms)
