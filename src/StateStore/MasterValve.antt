-- ===== src/StateStore/MasterValve.antt =====
-- firmware/app/state/state_store.c: the operations on the master valve's state.
use irrigation_controller.Prelude.{ℕ, Bool, true, false, not, ◌&&◌, if◌then◌else◌, ltb}
use irrigation_controller.Result.{IrrigationResult, ok, invalid_state, timeout}
use irrigation_controller.StateStore.{StateStore, MasterValveState, sub_u64}
use irrigation_controller.StateStore.Tests.{has_active_or_unknown_output}

abbrev pub is_closed : MasterValveState → Bool
is_closed MasterValveState.closed = true
is_closed _ = false

abbrev pub is_opening : MasterValveState → Bool
is_opening MasterValveState.opening = true
is_opening _ = false

abbrev pub is_closing : MasterValveState → Bool
is_closing MasterValveState.closing = true
is_closing _ = false

abbrev pub is_closed_or_fault : MasterValveState → Bool
is_closed_or_fault MasterValveState.closed = true
is_closed_or_fault MasterValveState.fault = true
is_closed_or_fault _ = false

abbrev pub is_open_or_opening : MasterValveState → Bool
is_open_or_opening MasterValveState.opened = true
is_open_or_opening MasterValveState.opening = true
is_open_or_opening _ = false

unfoldable pub state_store_master_valve_close_is_eligible : StateStore → Bool
unfolding has_active_or_unknown_output
state_store_master_valve_close_is_eligible store =
    is_open_or_opening store.master_valve.state && not (has_active_or_unknown_output store)

-- `store->current.master_valve.state = state`
abbrev pub set_master_valve_state : StateStore → MasterValveState → StateStore
set_master_valve_state store state =
    let valve = store.master_valve in record store { master_valve = record valve { state = state } }

unfoldable pub state_store_configure_master_valve : StateStore → ℕ → StateStore × IrrigationResult
state_store_configure_master_valve store pre_open_delay_ms =
    let valve = store.master_valve in
    if not (is_closed valve.state) then (store, invalid_state) else (
      record store { master_valve = record valve { pre_open_delay_ms = pre_open_delay_ms } },
      ok,
    )

unfoldable pub state_store_begin_master_valve_open : StateStore → ℕ → StateStore × IrrigationResult
state_store_begin_master_valve_open store confirmed_at_ms =
    let valve = store.master_valve in
    if not (is_closed_or_fault valve.state) then (store, invalid_state) else (
      record store {
        master_valve = record valve {
          state = MasterValveState.opening;
          opening_confirmed_at_ms = confirmed_at_ms;
        };
      },
      ok,
    )

unfoldable pub state_store_complete_master_valve_pre_open_delay :
    StateStore → ℕ → StateStore × IrrigationResult
state_store_complete_master_valve_pre_open_delay store now_ms =
    let valve = store.master_valve in
    if not (is_opening valve.state)
    then (store, invalid_state)
    else if ltb (sub_u64 now_ms valve.opening_confirmed_at_ms) valve.pre_open_delay_ms
    then (store, timeout)
    else (set_master_valve_state store MasterValveState.opened, ok)

unfoldable pub state_store_begin_master_valve_close : StateStore → StateStore × IrrigationResult
unfolding state_store_master_valve_close_is_eligible
state_store_begin_master_valve_close store =
    if not (state_store_master_valve_close_is_eligible store)
    then (store, invalid_state)
    else (set_master_valve_state store MasterValveState.closing, ok)

unfoldable pub state_store_complete_master_valve_close : StateStore → StateStore × IrrigationResult
state_store_complete_master_valve_close store =
    let valve = store.master_valve in
    if not (is_closing valve.state) then (store, invalid_state) else (
      record store {
        master_valve = record valve {
          state = MasterValveState.closed;
          opening_confirmed_at_ms = 0;
        };
      },
      ok,
    )

unfoldable pub state_store_record_master_valve_fault : StateStore → StateStore × IrrigationResult
state_store_record_master_valve_fault store =
    (set_master_valve_state store MasterValveState.fault, ok)
