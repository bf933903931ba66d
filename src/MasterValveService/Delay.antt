-- ===== src/MasterValveService/Delay.antt =====
-- The pre-open delay: when an opening valve counts as open.
use irrigation_controller.Prelude.{
  ◌≡◌, ◌≤◌, ◌<◌, ◌-◌, ◌^◌, refl, true, false, if◌then◌else◌, arith, is_null, leb,
}
use irrigation_controller.Result.{IrrigationResult, ok, is_ok}
use irrigation_controller.StateStore.{MasterValveState}
use irrigation_controller.StateStore.MasterValve.{
  is_closed_or_fault, state_store_begin_master_valve_open,
  state_store_complete_master_valve_pre_open_delay, state_store_record_master_valve_fault,
  state_store_begin_master_valve_close, state_store_master_valve_close_is_eligible,
}
use irrigation_controller.StateStore.Tests.{has_active_or_unknown_output}
use irrigation_controller.Device.{
  Device, open_valve, clock_now_ms, master_valve_driver_open_and_confirm,
}
use irrigation_controller.MasterValveService.{
  with_operation_lock, record_opening, open_locked, master_valve_service_open, process_time_locked,
  master_valve_service_process_time, close_locked, master_valve_service_close,
}

module _ {D V H : Type 0} where
  -- The valve service is initialised, and no operation of it runs.
  pub record IsFree (d : Device D V H) : Type 0 where
    pub store : is_null d.master_valve_service.state_store ≡ false
    pub driver : is_null d.master_valve_service.driver ≡ false
    pub unlocked : d.master_valve_service.operation_lock ≡ false

  record_opening_lem :
      (d : Device D V H) (answer : IrrigationResult)
      → is_closed_or_fault d.store.master_valve.state ≡ true
      → let (d', result) = record_opening answer d in
        (result ≡ answer)
        × (d'.store.master_valve.state
            ≡ (if is_ok answer then MasterValveState.opening else MasterValveState.fault))
        × (d'.store.master_valve.opening_confirmed_at_ms ≡ (
            if is_ok answer
            then (clock_now_ms d.clock).1
            else d.store.master_valve.opening_confirmed_at_ms))
        × (d'.store.output_states ≡ d.store.output_states)
        × (d'.store.zones ≡ d.store.zones)
  unfolding record_opening state_store_begin_master_valve_open state_store_record_master_valve_fault
  record_opening_lem d answer shut =
      (ground arith, ground arith, ground arith, ground arith, ground arith)

  -- An open of a valve that is closed or at fault returns what the driver answers. If that is OK,
  -- the valve is OPENING, confirmed at the reading of the clock after the answer, and otherwise it
  -- is at fault; the outputs and the zones stay as they are, and the lock is free again.
  pub open_lem :
      (d : Device D V H)
      → IsFree d
      → is_closed_or_fault d.store.master_valve.state ≡ true
      → let (d', result) = master_valve_service_open d in
        let answer = (master_valve_driver_open_and_confirm d.valve_driver d.valve).1 in
        (result ≡ answer)
        × (d'.store.master_valve.state
            ≡ (if is_ok answer then MasterValveState.opening else MasterValveState.fault))
        × (d'.store.master_valve.opening_confirmed_at_ms ≡ (
            if is_ok answer
            then (clock_now_ms d.clock).1
            else d.store.master_valve.opening_confirmed_at_ms))
        × (d'.store.output_states ≡ d.store.output_states)
        × (d'.store.zones ≡ d.store.zones)
        × (d'.master_valve_service.operation_lock ≡ false)
  unfolding master_valve_service_open with_operation_lock open_locked
  open_lem d free shut =
      let called = (open_valve locked).0 in
      let (answered, state, confirmed, outputs, zones) =
        record_opening_lem called (open_valve locked).1 shut in
      rw (free.store, free.driver, free.unlocked, shut)
        (answered, state, confirmed, outputs, zones, refl)
    where
      locked : Device D V H
      locked =
          let service = d.master_valve_service in
          record d { master_valve_service = record service { operation_lock = true } }

  -- A pass of time over an OPENING valve returns OK and opens it exactly if the reading of the clock
  -- is at least the delay past the confirmation; otherwise it stays OPENING. The lock is free again.
  pub process_time_lem :
      (d : Device D V H)
      → IsFree d
      → d.store.master_valve.state ≡ MasterValveState.opening
      → d.store.master_valve.opening_confirmed_at_ms ≤ (clock_now_ms d.clock).1
      → (clock_now_ms d.clock).1 < 2 ^ 64
      → let (d', result) = master_valve_service_process_time d in
        let elapsed = (clock_now_ms d.clock).1 - d.store.master_valve.opening_confirmed_at_ms in
        (result ≡ ok)
        × (d'.store.master_valve.state ≡ (
            if leb d.store.master_valve.pre_open_delay_ms elapsed
            then MasterValveState.opened
            else MasterValveState.opening))
        × (d'.master_valve_service.operation_lock ≡ false)
  unfolding master_valve_service_process_time with_operation_lock process_time_locked
      state_store_complete_master_valve_pre_open_delay
  process_time_lem d free waiting order small = (
    ground (arith, free.store, free.unlocked),
    ground (arith, free.store, free.unlocked),
    ground (arith, free.store, free.unlocked),
  )

  -- While any output is other than OFF, the valve does not close: the call does not return OK, the
  -- valve's driver is not called, and the store stays as it is.
  pub close-active_output :
      (d : Device D V H)
      → has_active_or_unknown_output d.store ≡ true
      → let (d', result) = master_valve_service_close d in
        (is_ok result ≡ false) × (d'.valve ≡ d.valve) × (d'.store ≡ d.store)
  unfolding master_valve_service_close with_operation_lock close_locked
      state_store_begin_master_valve_close state_store_master_valve_close_is_eligible
  close-active_output d active = (ground arith, ground arith, ground arith)
