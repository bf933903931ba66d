-- ===== src/ProgramService/StepIndex/Calls.antt =====
-- Every operation of the program service keeps the current step one of the program's.
use irrigation_controller.Prelude.{
  ◌≡◌, ◌<◌, sym, subst, inl, inr, Bool, true, false, not, ◌&&◌, Option, none, some, List, [], ◌∷◌,
  arith, Bool-cases, if_split, length,
}
use irrigation_controller.Result.{IrrigationResult, is_ok}
use irrigation_controller.Domain.{Program, ProgramStep, ProgramStartContext, ProgramExecutionResult}
use irrigation_controller.StateStore.{ProgramState, state_store_snapshot}
use irrigation_controller.StateStore.MasterValve.{is_closed}
use irrigation_controller.StateStore.Program.{
  is_startable, is_waiting_or_running, is_running_zone, state_store_start_program,
}
use irrigation_controller.Events.{EventType}
use irrigation_controller.Device.{Device, Op, on_store}
use irrigation_controller.ZoneService.Frame.{close-Same}
use irrigation_controller.ZoneService.Untouched.{view}
use irrigation_controller.MasterValveService.{master_valve_service_open, master_valve_service_state}
use irrigation_controller.ProgramService.{
  steps_of, is_active_state, steps_are_valid, program_is_valid, program_service_is_active,
  publish_execution_event, with_operation_lock,
}
use irrigation_controller.ProgramService.StepIndex.{
  IsIndexed, Indexed, valve_open-Same, valve_close-Same, publish-Same, finish-Indexed,
  with_step-Indexed,
}
use irrigation_controller.ProgramService.Control.{
  start_locked, start_is_refused, program_service_start_with_context, process_locked,
  program_service_process, abort_zone, close_step, abort_valve, abort_locked, program_service_abort,
}
use irrigation_controller.ProgramService.StepIndex.Running.{process_locked-Indexed}

-- The test of `program_is_valid` on the steps.
abbrev has_valid_steps : Option (List ProgramStep) → Bool
has_valid_steps none = false
has_valid_steps (some []) = false
has_valid_steps (some (step ∷ steps)) = steps_are_valid (step ∷ steps)

has_valid_steps-Some :
    (steps : Option (List ProgramStep))
    → has_valid_steps steps ≡ true
    → 0 < length (elim steps [ none ↦ [] | some steps ↦ steps ])
has_valid_steps-Some none valid = absurd (ground arith)
has_valid_steps-Some (some []) valid = absurd (ground arith)
has_valid_steps-Some (some (step ∷ steps)) valid = omega arith

program_is_valid-Steps :
    (program : Program) → program_is_valid (some program) ≡ true → 0 < length (steps_of program)
unfolding program_is_valid
program_is_valid-Steps program valid = has_valid_steps-Some program.steps (ground arith)

inactive_lem :
    (state : ProgramState) → is_active_state state ≡ false → is_waiting_or_running state ≡ false
inactive_lem state idle = ground arith

module _ {D V H : Type 0} where
  abort_zone-Indexed : (d : Device D V H) → IsIndexed (view d) → Indexed (abort_zone d)
  unfolding abort_zone close_step
  abort_zone-Indexed d i =
      let program = (state_store_snapshot d.store).program in
      if_split Indexed (is_running_zone program.state) _ _
        (λ _.
          with_step-Indexed program.current_step_index close_step d i
            (λ step bound. subst IsIndexed (sym (close-Same d step.zone_id)) i))
        (λ _. i)

  abort_locked-Indexed : (d : Device D V H) → IsIndexed (view d) → Indexed (abort_locked d)
  unfolding abort_locked abort_valve
  abort_locked-Indexed d i =
      if_split (λ (m : Op D V H (Unit {0})). Indexed (m v.0)) (is_ok v.1) _ _
        (λ _. finish-Indexed v.0 ProgramState.aborted ProgramExecutionResult.aborted dried)
        (λ _. finish-Indexed v.0 ProgramState.fault ProgramExecutionResult.fault dried)
    where
      z : Device D V H × IrrigationResult
      z = abort_zone d

      v : Device D V H × IrrigationResult
      v = abort_valve z.1 z.0

      dried : Indexed v
      dried =
          if_split Indexed
            (is_ok z.1
              && not (is_closed (master_valve_service_state z.0.master_valve_service z.0.store)))
            _ _ (λ _. subst IsIndexed (sym (valve_close-Same z.0)) (abort_zone-Indexed d i))
            (λ _. abort_zone-Indexed d i)

  abbrev lock : Device D V H → Device D V H
  lock d =
      let service = d.program_service in
      record d { program_service = record service { operation_lock = true } }

  with_operation_lock-Indexed :
      (d : Device D V H) (body : Op D V H IrrigationResult)
      → Indexed (body (lock d))
      → IsIndexed (view d)
      → Indexed (with_operation_lock body d)
  unfolding with_operation_lock
  with_operation_lock-Indexed d body keep i = elim (Bool-cases d.program_service.operation_lock) [
    | inl taken ↦ rw taken i
    | inr free ↦ rw free keep
  ]

  start_locked-Indexed :
      (d : Device D V H) (program : Program) (context : ProgramStartContext)
      → 0 < length (steps_of program)
      → is_waiting_or_running d.store.program.state ≡ false
      → Indexed (start_locked program context d)
  unfolding start_locked state_store_start_program
  start_locked-Indexed d program context some_step inactive =
      if_split (λ (m : Op D V H IrrigationResult). Indexed (m r.0)) (not (is_ok r.1)) _ _
        (λ _. started)
        (λ _.
          if_split (λ (m : Op D V H IrrigationResult). Indexed (m o.0)) (is_ok o.1) _ _ (λ _. tried)
            (λ _. finish-Indexed o.0 ProgramState.fault ProgramExecutionResult.fault tried))
    where
      armed : Device D V H
      armed =
          let service = d.program_service in
          record d {
            program_service = record service { program = program; start_context = context };
          }

      r : Device D V H × IrrigationResult
      r = on_store state_store_start_program armed

      started : Indexed r
      started = elim (Bool-cases (is_startable d.store.program.state)) [
        | inl ready ↦ rw ready (λ _. some_step)
        | inr busy ↦ rw busy (λ e. absurd (ground arith))
      ]

      p : Device D V H
      p =
          (publish_execution_event EventType.program_execution_started ProgramExecutionResult.fault
            0 none r.0).0

      o : Device D V H × IrrigationResult
      o = master_valve_service_open p

      told : IsIndexed (view p)
      told =
          subst IsIndexed
            (sym (
              publish-Same r.0 EventType.program_execution_started ProgramExecutionResult.fault 0
                none))
            started

      tried : Indexed o
      tried = subst IsIndexed (sym (valve_open-Same p)) told

  start_is_refused-Inactive :
      (d : Device D V H) (program : Program) (context : ProgramStartContext)
      → start_is_refused d (some program) context ≡ false
      → is_active_state d.store.program.state ≡ false
  unfolding program_service_is_active state_store_snapshot
  start_is_refused-Inactive d program context allowed = ground arith

  pub start-IsIndexed :
      (d : Device D V H) (program : Option Program) (context : ProgramStartContext)
      → IsIndexed (view d)
      → Indexed (program_service_start_with_context program context d)
  unfolding program_service_start_with_context
  start-IsIndexed d none context i = i
  start-IsIndexed d (some program) context i =
      if_split Indexed (start_is_refused d (some program) context) _ _ (λ _. i)
        (λ allowed.
          with_operation_lock-Indexed d (start_locked program context)
            (start_locked-Indexed (lock d) program context
              (program_is_valid-Steps program (ground arith))
              (inactive_lem d.store.program.state
                (start_is_refused-Inactive d program context allowed)))
            i)

  pub process-IsIndexed :
      (d : Device D V H) → IsIndexed (view d) → Indexed (program_service_process d)
  unfolding program_service_process
  process-IsIndexed d i =
      if_split Indexed (not (program_service_is_active d.program_service d.store)) _ _ (λ _. i)
        (λ _. with_operation_lock-Indexed d process_locked (process_locked-Indexed (lock d) i) i)

  pub abort-IsIndexed : (d : Device D V H) → IsIndexed (view d) → Indexed (program_service_abort d)
  unfolding program_service_abort
  abort-IsIndexed d i =
      if_split Indexed (not (program_service_is_active d.program_service d.store)) _ _ (λ _. i)
        (λ _. with_operation_lock-Indexed d abort_locked (abort_locked-Indexed (lock d) i) i)
