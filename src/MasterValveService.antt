-- ===== src/MasterValveService.antt =====
-- firmware/domain/master_valve/master_valve_service.c: opening, waiting for and closing the valve.
-- `printf` is left out.
pub mod Safety
pub mod Delay
use irrigation_controller.Prelude.{
  ℕ, Bool, true, false, not, ◌&&◌, ◌||◌, if◌then◌else◌, some, is_null, valid, Pointer,
}
use irrigation_controller.Result.{IrrigationResult, ok, rejected, invalid_state, timeout, is_ok}
use irrigation_controller.StateStore.{StateStore, MasterValveState, state_store_snapshot}
use irrigation_controller.StateStore.Tests.{is_master_open}
use irrigation_controller.StateStore.MasterValve.{
  is_opening, is_closed_or_fault, state_store_master_valve_close_is_eligible,
  state_store_configure_master_valve, state_store_begin_master_valve_open,
  state_store_complete_master_valve_pre_open_delay, state_store_begin_master_valve_close,
  state_store_complete_master_valve_close, state_store_record_master_valve_fault,
}
use irrigation_controller.Device.{
  Device, Op, MasterValveService, ZoneStartPrecondition, ◌>>=◌, ◌>>◌, return, on_store, read_clock,
  open_valve, close_valve,
}

-- `result == IRRIGATION_RESULT_TIMEOUT`
abbrev pub is_timeout : IrrigationResult → Bool
is_timeout timeout = true
is_timeout _ = false

unfoldable pub master_valve_service_check_zone_start :
    MasterValveService → StateStore → IrrigationResult
unfolding state_store_snapshot
master_valve_service_check_zone_start service store =
    if is_null service.state_store
    then rejected
    else if is_master_open (state_store_snapshot store).master_valve.state
    then ok
    else invalid_state

unfoldable pub master_valve_service_zone_start_precondition :
    MasterValveService → ZoneStartPrecondition
unfolding master_valve_service_check_zone_start
master_valve_service_zone_start_precondition service =
    some (master_valve_service_check_zone_start service)

unfoldable pub master_valve_service_close_is_eligible : MasterValveService → StateStore → Bool
unfolding state_store_master_valve_close_is_eligible
master_valve_service_close_is_eligible service store =
    not (is_null service.state_store) && state_store_master_valve_close_is_eligible store

unfoldable pub master_valve_service_state : MasterValveService → StateStore → MasterValveState
unfolding state_store_snapshot
master_valve_service_state service store =
    if is_null service.state_store
    then MasterValveState.fault
    else (state_store_snapshot store).master_valve.state

module _ {D V H : Type 0} where
  -- The configuration is `pre_open_delay_ms`.
  unfoldable pub master_valve_service_init : Pointer → Pointer → ℕ → Op D V H (Unit {0})
  master_valve_service_init state_store driver pre_open_delay_ms d =
      let service : MasterValveService = record {
        state_store = state_store;
        driver = driver;
        operation_lock = false;
      } in
      let initialised = record d { master_valve_service = service } in
      if is_null state_store
      then (initialised, tt)
      else ((do
        _ ← on_store (λ s. state_store_configure_master_valve s pre_open_delay_ms)
        return tt)
          initialised)

  unfoldable pub operation_lock_acquire : Op D V H Bool
  operation_lock_acquire d =
      let service = d.master_valve_service in
      (
        record d { master_valve_service = record service { operation_lock = true } },
        not service.operation_lock,
      )

  unfoldable pub operation_lock_release : Op D V H (Unit {0})
  operation_lock_release d =
      let service = d.master_valve_service in
      (record d { master_valve_service = record service { operation_lock = false } }, tt)

  -- The frame of each operation: REJECTED if the lock is taken, and the release on every return.
  unfoldable pub with_operation_lock : Op D V H IrrigationResult → Op D V H IrrigationResult
  unfolding operation_lock_acquire operation_lock_release
  with_operation_lock body = do
    acquired ← operation_lock_acquire
    if acquired
        then (do result ← body; _ ← operation_lock_release; return result)
        else return rejected

  -- `if (result != IRRIGATION_RESULT_OK) (void)state_store_record_master_valve_fault(…)`
  unfoldable pub fault_unless_ok : IrrigationResult → Op D V H IrrigationResult
  fault_unless_ok result =
      if is_ok result
      then return result
      else (on_store state_store_record_master_valve_fault >> return result)

  -- From the driver's answer on.
  unfoldable pub record_opening : IrrigationResult → Op D V H IrrigationResult
  unfolding fault_unless_ok
  record_opening result =
      if is_ok result
      then (do
        now_ms ← read_clock
        stored ← on_store (λ s. state_store_begin_master_valve_open s now_ms)
        fault_unless_ok stored)
      else fault_unless_ok result

  unfoldable pub open_locked : Op D V H IrrigationResult
  unfolding record_opening state_store_snapshot
  open_locked d =
      if is_closed_or_fault (state_store_snapshot d.store).master_valve.state
      then (open_valve >>= record_opening) d
      else (d, invalid_state)

  unfoldable pub master_valve_service_open : Op D V H IrrigationResult
  unfolding with_operation_lock
  master_valve_service_open d =
      let service = d.master_valve_service in
      if is_null service.state_store || is_null service.driver
      then (d, rejected)
      else with_operation_lock open_locked d

  unfoldable pub process_time_locked : Op D V H IrrigationResult
  unfolding state_store_snapshot
  process_time_locked d =
      if is_opening (state_store_snapshot d.store).master_valve.state
      then (do
        now_ms ← read_clock
        result ← on_store (λ s. state_store_complete_master_valve_pre_open_delay s now_ms)
        return (if is_timeout result then ok else result))
          d
      else (d, ok)

  unfoldable pub master_valve_service_process_time : Op D V H IrrigationResult
  unfolding with_operation_lock process_time_locked
  master_valve_service_process_time d =
      if is_null d.master_valve_service.state_store
      then (d, rejected)
      else with_operation_lock process_time_locked d

  -- From the driver's answer on.
  unfoldable pub record_closing : IrrigationResult → Op D V H IrrigationResult
  unfolding fault_unless_ok
  record_closing result =
      if is_ok result
      then (on_store state_store_complete_master_valve_close >>= fault_unless_ok)
      else fault_unless_ok result

  unfoldable pub close_locked : Op D V H IrrigationResult
  unfolding record_closing
  close_locked = do
    result ← on_store state_store_begin_master_valve_close
    if is_ok result then (close_valve >>= record_closing) else return result

  unfoldable pub master_valve_service_close : Op D V H IrrigationResult
  unfolding with_operation_lock
  master_valve_service_close d =
      let service = d.master_valve_service in
      if is_null service.state_store || is_null service.driver
      then (d, rejected)
      else with_operation_lock close_locked d
