-- ===== src/MasterValveService/Safety.antt =====
-- The master valve's operations: they keep the store consistent, and the valve closes only when
-- every output is off.
use irrigation_controller.Prelude.{
  ℕ, ◌≡◌, ◌≢◌, subst, inl, inr, true, false, ◌||◌, arith, Bool-cases, if_split, is_null,
}
use irrigation_controller.Result.{IrrigationResult, invalid_state}
use irrigation_controller.StateStore.{StateStore, MasterValveState, MasterValveRuntimeState, on}
use irrigation_controller.StateStore.MasterValve.{
  is_closed_or_fault, is_opening, state_store_master_valve_close_is_eligible,
  state_store_begin_master_valve_open, state_store_complete_master_valve_pre_open_delay,
  state_store_begin_master_valve_close, state_store_complete_master_valve_close,
  state_store_record_master_valve_fault,
}
use irrigation_controller.StateStore.Consistent.{IsConsistent, output_at, output_at_inactive}
use irrigation_controller.Device.{Device, Op, open_valve}
use irrigation_controller.MasterValveService.{
  with_operation_lock, record_opening, open_locked, master_valve_service_open, process_time_locked,
  master_valve_service_process_time, record_closing, close_locked, master_valve_service_close,
}

-- No output is on.
abbrev pub IsDry : StateStore → Type 0
IsDry s = (i : ℕ) → output_at s.output_states i ≢ on

pub IsDry-unless_open :
    (s : StateStore) → IsConsistent s → s.master_valve.state ≢ MasterValveState.opened → IsDry s
IsDry-unless_open s (h, held) shut i e = shut (held.watered i e)

-- While no output is on, the valve's state may change in any way.
pub valve-IsConsistent :
    (s : StateStore) (valve : MasterValveRuntimeState)
    → IsConsistent s
    → IsDry s
    → IsConsistent (record s { master_valve = valve })
valve-IsConsistent s valve (h, held) dry = (
  h,
  record {
    places = held.places;
    distinct = held.distinct;
    zones = held.zones;
    dark = held.dark;
    watered = λ i e. absurd (dry i e);
  },
)

-- The valve's part of the store is all that an operation changes.
abbrev pub OnlyValve : StateStore → StateStore → Type 0
OnlyValve s s' = record s { master_valve = s'.master_valve } ≡ s'

pub OnlyValve-IsConsistent :
    (s s' : StateStore) → OnlyValve s s' → IsDry s → IsConsistent s → IsConsistent s'
OnlyValve-IsConsistent s s' only dry c =
    subst IsConsistent only (valve-IsConsistent s s'.master_valve c dry)

eligible-IsDry : (s : StateStore) → state_store_master_valve_close_is_eligible s ≡ true → IsDry s
unfolding state_store_master_valve_close_is_eligible
eligible-IsDry s e i lit = ground (arith, output_at_inactive s.output_states i)

module _ {D V H : Type 0} where
  abbrev Keeps : Device D V H × IrrigationResult → Type 0
  Keeps r = IsConsistent r.0.store

  record_opening-only :
      (d : Device D V H) (r : IrrigationResult) → OnlyValve d.store (record_opening r d).0.store
  unfolding record_opening state_store_begin_master_valve_open state_store_record_master_valve_fault
  record_opening-only d r = ground arith

  record_closing-only :
      (d : Device D V H) (r : IrrigationResult) → OnlyValve d.store (record_closing r d).0.store
  unfolding record_closing state_store_complete_master_valve_close
      state_store_record_master_valve_fault
  record_closing-only d r = ground arith

  record_closing-IsConsistent :
      (d : Device D V H) (r : IrrigationResult)
      → IsDry d.store
      → IsConsistent d.store
      → IsConsistent (record_closing r d).0.store
  record_closing-IsConsistent d r dry c =
      OnlyValve-IsConsistent d.store _ (record_closing-only d r) dry c

  open_locked-IsConsistent :
      (d : Device D V H) → IsConsistent d.store → IsConsistent (open_locked d).0.store
  unfolding open_locked
  open_locked-IsConsistent d c = elim (Bool-cases (is_closed_or_fault d.store.master_valve.state)) [
    | inl shut ↦
        let opened = open_valve d in
        let dry = IsDry-unless_open d.store c (λ e. ground arith) in
        rw shut (OnlyValve-IsConsistent d.store _ (record_opening-only opened.0 opened.1) dry c)
    | inr other ↦ rw other c
  ]

  process_time-only : (d : Device D V H) → OnlyValve d.store (process_time_locked d).0.store
  unfolding process_time_locked state_store_complete_master_valve_pre_open_delay
  process_time-only d = ground arith

  process_time_locked-IsConsistent :
      (d : Device D V H) → IsConsistent d.store → IsConsistent (process_time_locked d).0.store
  unfolding process_time_locked
  process_time_locked-IsConsistent d c = elim (Bool-cases (is_opening d.store.master_valve.state)) [
    | inl waiting ↦
        OnlyValve-IsConsistent d.store _ (process_time-only d)
          (IsDry-unless_open d.store c (λ e. ground arith)) c
    | inr other ↦ rw other c
  ]

  close-only : (d : Device D V H) → OnlyValve d.store (close_locked d).0.store
  unfolding close_locked state_store_begin_master_valve_close record_closing
      state_store_complete_master_valve_close state_store_record_master_valve_fault
  close-only d = ground arith

  -- A close that is not eligible is refused: nothing changes, and the driver is not called.
  pub close_ineligible :
      (d : Device D V H)
      → state_store_master_valve_close_is_eligible d.store ≡ false
      → close_locked d ≡ (d, invalid_state)
  unfolding close_locked state_store_begin_master_valve_close
  close_ineligible d e = ground arith

  close_locked-IsConsistent :
      (d : Device D V H) → IsConsistent d.store → IsConsistent (close_locked d).0.store
  close_locked-IsConsistent d c =
      elim (Bool-cases (state_store_master_valve_close_is_eligible d.store)) [
        | inl eligible ↦
            OnlyValve-IsConsistent d.store _ (close-only d) (eligible-IsDry d.store eligible) c
        | inr refused ↦ rw (close_ineligible d refused) c
      ]

  with_operation_lock-IsConsistent :
      (d : Device D V H) (body : Op D V H IrrigationResult)
      → ((d' : Device D V H) → IsConsistent d'.store → IsConsistent (body d').0.store)
      → IsConsistent d.store
      → IsConsistent (with_operation_lock body d).0.store
  unfolding with_operation_lock
  with_operation_lock-IsConsistent d body keep c =
      elim (Bool-cases d.master_valve_service.operation_lock) [
        | inl taken ↦ rw taken c
        | inr free ↦ rw free (keep locked c)
      ]
    where
      locked : Device D V H
      locked =
          let service = d.master_valve_service in
          record d { master_valve_service = record service { operation_lock = true } }

  pub open-IsConsistent :
      (d : Device D V H) → IsConsistent d.store → IsConsistent (master_valve_service_open d).0.store
  unfolding master_valve_service_open
  open-IsConsistent d c =
      if_split Keeps
        (is_null d.master_valve_service.state_store || is_null d.master_valve_service.driver) _ _
        (λ _. c) (λ _. with_operation_lock-IsConsistent d open_locked open_locked-IsConsistent c)

  pub process_time-IsConsistent :
      (d : Device D V H)
      → IsConsistent d.store
      → IsConsistent (master_valve_service_process_time d).0.store
  unfolding master_valve_service_process_time
  process_time-IsConsistent d c =
      if_split Keeps (is_null d.master_valve_service.state_store) _ _ (λ _. c)
        (λ _.
          with_operation_lock-IsConsistent d process_time_locked process_time_locked-IsConsistent c)

  pub close-IsConsistent :
      (d : Device D V H)
      → IsConsistent d.store
      → IsConsistent (master_valve_service_close d).0.store
  unfolding master_valve_service_close
  close-IsConsistent d c =
      if_split Keeps
        (is_null d.master_valve_service.state_store || is_null d.master_valve_service.driver) _ _
        (λ _. c) (λ _. with_operation_lock-IsConsistent d close_locked close_locked-IsConsistent c)
