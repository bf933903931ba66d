-- ===== src/ProgramService/Safety.antt =====
-- Every operation of the program service keeps the store consistent.
use irrigation_controller.Prelude.{
  inl, inr, true, not, ◌&&◌, Option, none, some, Bool-cases, if_split,
}
use irrigation_controller.Result.{IrrigationResult, is_ok}
use irrigation_controller.Domain.{Program, ProgramStartContext, ProgramExecutionResult}
use irrigation_controller.StateStore.{ProgramState, state_store_snapshot}
use irrigation_controller.StateStore.MasterValve.{is_closed}
use irrigation_controller.StateStore.Program.{is_running_zone}
use irrigation_controller.StateStore.Consistent.{IsConsistent}
use irrigation_controller.Device.{Device, Op}
use irrigation_controller.MasterValveService.{master_valve_service_state}
use irrigation_controller.MasterValveService.Safety.{close-IsConsistent}
use irrigation_controller.ProgramService.{program_service_is_active, with_operation_lock}
use irrigation_controller.ProgramService.Control.{
  start_locked, start_is_refused, program_service_start_with_context, process_locked,
  program_service_process, abort_zone, close_step, abort_valve, abort_locked, program_service_abort,
}
use irrigation_controller.ProgramService.Keeping.{Keeps, close-Keeps, finish-Keeps, with_step-Keeps}
use irrigation_controller.ProgramService.SafeSteps.{start_locked-Keeps, process_locked-Keeps}

module _ {D V H : Type 0} where
  abort_zone-Keeps : (d : Device D V H) → IsConsistent d.store → Keeps (abort_zone d)
  unfolding abort_zone close_step
  abort_zone-Keeps d c =
      let program = (state_store_snapshot d.store).program in
      if_split Keeps (is_running_zone program.state) _ _
        (λ _.
          with_step-Keeps d program.current_step_index close_step
            (λ step. close-Keeps d step.zone_id c) c)
        (λ _. c)

  abort_locked-Keeps : (d : Device D V H) → IsConsistent d.store → Keeps (abort_locked d)
  unfolding abort_locked abort_valve
  abort_locked-Keeps d c =
      if_split (λ (m : Op D V H (Unit {0})). IsConsistent (m v.0).0.store) (is_ok v.1) _ _
        (λ _. finish-Keeps v.0 ProgramState.aborted ProgramExecutionResult.aborted dried)
        (λ _. finish-Keeps v.0 ProgramState.fault ProgramExecutionResult.fault dried)
    where
      z : Device D V H × IrrigationResult
      z = abort_zone d

      v : Device D V H × IrrigationResult
      v = abort_valve z.1 z.0

      dried : Keeps v
      dried =
          if_split Keeps
            (is_ok z.1
              && not (is_closed (master_valve_service_state z.0.master_valve_service z.0.store)))
            _ _ (λ _. close-IsConsistent z.0 (abort_zone-Keeps d c)) (λ _. abort_zone-Keeps d c)

  with_operation_lock-Keeps :
      (d : Device D V H) (body : Op D V H IrrigationResult)
      → ((d' : Device D V H) → IsConsistent d'.store → Keeps (body d'))
      → IsConsistent d.store
      → Keeps (with_operation_lock body d)
  unfolding with_operation_lock
  with_operation_lock-Keeps d body keep c = elim (Bool-cases d.program_service.operation_lock) [
    | inl taken ↦ rw taken c
    | inr free ↦ rw free (keep locked c)
  ]
    where
      locked : Device D V H
      locked =
          let service = d.program_service in
          record d { program_service = record service { operation_lock = true } }

  pub start-IsConsistent :
      (d : Device D V H) (program : Option Program) (context : ProgramStartContext)
      → IsConsistent d.store
      → IsConsistent (program_service_start_with_context program context d).0.store
  unfolding program_service_start_with_context
  start-IsConsistent d none context c = c
  start-IsConsistent d (some program) context c =
      if_split Keeps (start_is_refused d (some program) context) _ _ (λ _. c)
        (λ _.
          with_operation_lock-Keeps d (start_locked program context)
            (λ d' c'. start_locked-Keeps d' program context c') c)

  pub process-IsConsistent :
      (d : Device D V H) → IsConsistent d.store → IsConsistent (program_service_process d).0.store
  unfolding program_service_process
  process-IsConsistent d c =
      if_split Keeps (not (program_service_is_active d.program_service d.store)) _ _ (λ _. c)
        (λ _. with_operation_lock-Keeps d process_locked process_locked-Keeps c)

  pub abort-IsConsistent :
      (d : Device D V H) → IsConsistent d.store → IsConsistent (program_service_abort d).0.store
  unfolding program_service_abort
  abort-IsConsistent d c =
      if_split Keeps (not (program_service_is_active d.program_service d.store)) _ _ (λ _. c)
        (λ _. with_operation_lock-Keeps d abort_locked abort_locked-Keeps c)
