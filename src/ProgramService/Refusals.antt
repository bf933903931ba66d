-- ===== src/ProgramService/Refusals.antt =====
-- When the program service and the zone service refuse, and that a refusal changes nothing.
use irrigation_controller.Prelude.{
  ℕ, ◌≡◌, ◌≢◌, refl, ap, Option-cases, inl, inr, true, false, not, Option, none, some, Text, arith,
  Bool-cases, if_split,
}
use irrigation_controller.Result.{IrrigationResult, rejected, is_ok}
use irrigation_controller.Domain.{Program, ProgramStartContext}
use irrigation_controller.StateStore.{ProgramState, MasterValveState, state_store_snapshot}
use irrigation_controller.StateStore.Zones.{state_store_get_zone}
use irrigation_controller.StateStore.Tests.{is_idle, is_master_open, find_zone}
use irrigation_controller.StateStore.Program.{state_store_start_program}
use irrigation_controller.Device.{Device}
use irrigation_controller.ZoneService.{
  has_null_pointer, with_operation_lock as with_zone_lock, zone_service_open_locked,
  zone_service_open,
}
use irrigation_controller.ProgramService.{with_operation_lock, program_service_is_active}
use irrigation_controller.ProgramService.Control.{
  start_locked, start_is_refused, program_service_start_with_context, program_service_process,
  program_service_abort,
}

module _ {D V H : Type 0} where
  open_locked-valve_shut :
      (d : Device D V H) (id : Option Text) (duration : ℕ)
      → is_master_open d.store.master_valve.state ≡ false
      → ((zone_service_open_locked id duration d).0 ≡ d)
        × (is_ok (zone_service_open_locked id duration d).1 ≡ false)
  unfolding zone_service_open_locked state_store_get_zone state_store_snapshot
  open_locked-valve_shut d id duration shut =
      if_split Refused (has_null_pointer d.zone_service id) _ _ (λ _. (refl, refl))
        (λ _. elim (Option-cases (find_zone d.store id)) [
          | inl missing ↦ rw missing (refl, refl)
          | inr (zone, found) ↦ rw found (
              if_split Refused (not (is_idle zone.state)) _ _ (λ _. (refl, refl))
                (λ _. rw shut (refl, refl)))
        ])
    where
      Refused : Device D V H × IrrigationResult → Type 0
      Refused r = (r.0 ≡ d) × (is_ok r.1 ≡ false)

  -- While the master valve is not OPEN, no zone opens: the call does not return OK, and the store
  -- and the outputs stay as they are.
  pub open-valve_shut :
      (d : Device D V H) (id : Option Text) (duration : ℕ)
      → d.store.master_valve.state ≢ MasterValveState.opened
      → let (d', result) = zone_service_open id duration d in
        (is_ok result ≡ false) × (d'.store ≡ d.store) × (d'.outputs ≡ d.outputs)
  unfolding zone_service_open with_zone_lock
  open-valve_shut d id duration shut =
      let closed : is_master_open d.store.master_valve.state ≡ false = ground arith in
      elim (Bool-cases d.zone_service.operation_lock) [
        | inl taken ↦ rw taken (refl, refl, refl)
        | inr free ↦
            let (same, no_) = open_locked-valve_shut locked id duration closed in
            rw free (no_, ap (λ e. e.store) same, ap (λ e. e.outputs) same)
      ]
    where
      locked : Device D V H
      locked =
          let service = d.zone_service in
          record d { zone_service = record service { operation_lock = true } }

  start-fault :
      (d : Device D V H) (program : Option Program) (context : ProgramStartContext)
      → d.store.program.state ≡ ProgramState.fault
      → ((program_service_start_with_context program context d).0.store ≡ d.store)
        × (is_ok (program_service_start_with_context program context d).1 ≡ false)
  unfolding program_service_start_with_context with_operation_lock start_locked
      state_store_start_program
  start-fault d none context stuck = (refl, refl)
  start-fault d (some program) context stuck =
      if_split Refused (start_is_refused d (some program) context) _ _ (λ _. (refl, refl))
        (λ _. elim (Bool-cases d.program_service.operation_lock) [
          | inl taken ↦ rw taken (refl, refl)
          | inr free ↦ rw (free, stuck) (refl, refl)
        ])
    where
      Refused : Device D V H × IrrigationResult → Type 0
      Refused r = (r.0.store ≡ d.store) × (is_ok r.1 ≡ false)

  -- While the program is at FAULT, a start does not return OK and leaves the store as it is, and
  -- the processing and the abort are REJECTED and change nothing.
  pub fault_lem :
      (d : Device D V H) (program : Option Program) (context : ProgramStartContext)
      → d.store.program.state ≡ ProgramState.fault
      → ((program_service_start_with_context program context d).0.store ≡ d.store)
        × (is_ok (program_service_start_with_context program context d).1 ≡ false)
        × (program_service_process d ≡ (d, rejected))
        × (program_service_abort d ≡ (d, rejected))
  unfolding program_service_process program_service_abort program_service_is_active
      state_store_snapshot
  fault_lem d program context stuck =
      let (same, refused) = start-fault d program context stuck in
      (same, refused, ground arith, ground arith)
