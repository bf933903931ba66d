-- ===== src/ProgramService/StepIndex.antt =====
-- The current step of a program that waits or runs is one of its steps.
pub mod Running
pub mod Calls
use irrigation_controller.Prelude.{
  ℕ, zero, suc, ◌+◌, ◌≡◌, ◌≢◌, ◌≤◌, ◌<◌, refl, sym, ap, subst, ◌∙◌, inl, inr, Bool, true, false,
  not, ◌&&◌, ◌||◌, Option, none, some, List, [], ◌∷◌, Text, arith, Bool-cases, Option-cases,
  if_split, is_null, is_none, length, get_elem?, ltb, leb,
}
use irrigation_controller.Result.{IrrigationResult, invalid_state, is_ok}
use irrigation_controller.Domain.{Program, ProgramStep, ProgramStartContext, ProgramExecutionResult}
use irrigation_controller.StateStore.{
  StateStore, ProgramState, ProgramRuntimeState, sub_u64, state_store_snapshot,
}
use irrigation_controller.StateStore.Tests.{is_master_open}
use irrigation_controller.StateStore.MasterValve.{
  is_closed, state_store_begin_master_valve_open, state_store_record_master_valve_fault,
  state_store_complete_master_valve_pre_open_delay, state_store_begin_master_valve_close,
  state_store_complete_master_valve_close,
}
use irrigation_controller.StateStore.Program.{
  is_waiting_or_running, is_running_zone, is_terminal, state_store_start_program,
  state_store_set_program_running_zone, state_store_set_program_waiting_post_delay,
  state_store_set_program_terminal,
}
use irrigation_controller.Events.{EventType}
use irrigation_controller.Device.{Device, Op, ProgramService, read_clock, on_store}
use irrigation_controller.ZoneService.{zone_service_open}
use irrigation_controller.ZoneService.Closing.{zone_service_close}
use irrigation_controller.ZoneService.Frame.{open-Same, close-Same}
use irrigation_controller.ZoneService.Untouched.{view}
use irrigation_controller.MasterValveService.{
  with_operation_lock as with_valve_lock, open_locked, record_opening, process_time_locked,
  close_locked, record_closing, master_valve_service_open, master_valve_service_close,
  master_valve_service_process_time, master_valve_service_close_is_eligible,
  master_valve_service_state,
}
use irrigation_controller.ProgramService.{
  steps_of, steps_are_valid, program_is_valid, is_waiting_master, is_waiting_post_delay, is_fault,
  program_service_is_active, publish_execution_event, finish, with_operation_lock,
  close_if_eligible, fault,
}
use irrigation_controller.ProgramService.Running.{
  record_running, with_step, open_step, process_step, open_current_zone, react_to_valve,
  process_waiting_master, advance, process_running_zone, process_post_delay,
}
use irrigation_controller.ProgramService.Control.{
  start_locked, start_is_refused, program_service_start_with_context, process_locked,
  program_service_process, abort_zone, close_step, abort_valve, abort_locked, program_service_abort,
}

abbrev pub IsIndexed : ProgramRuntimeState × ProgramService → Type 0
IsIndexed (program, service) =
    is_waiting_or_running program.state ≡ true
    → program.current_step_index < length (steps_of service.program)

-- A step that is read is one of the program's.
get_elem?-Bound :
    {A : Type 0} (xs : List A) (n : ℕ) (x : A) → get_elem? xs n ≡ some x → n < length xs
get_elem?-Bound [] n x found = absurd (ground arith)
get_elem?-Bound (y ∷ ys) zero x found = omega arith
get_elem?-Bound (y ∷ ys) (suc n) x found = omega (arith, get_elem?-Bound ys n x found)

module _ {D V H : Type 0} where
  pub valve_open-Same : (d : Device D V H) → view (master_valve_service_open d).0 ≡ view d
  unfolding master_valve_service_open with_valve_lock open_locked record_opening
      state_store_begin_master_valve_open state_store_record_master_valve_fault
  valve_open-Same d = ground arith

  pub valve_process-Same :
      (d : Device D V H) → view (master_valve_service_process_time d).0 ≡ view d
  unfolding master_valve_service_process_time with_valve_lock process_time_locked
      state_store_complete_master_valve_pre_open_delay
  valve_process-Same d = ground arith

  pub valve_close-Same : (d : Device D V H) → view (master_valve_service_close d).0 ≡ view d
  unfolding master_valve_service_close with_valve_lock close_locked record_closing
      state_store_begin_master_valve_close state_store_complete_master_valve_close
      state_store_record_master_valve_fault
  valve_close-Same d = ground arith

  abbrev pub Indexed : {A : Type 0} → Device D V H × A → Type 0
  Indexed r = IsIndexed (view r.0)

  pub publish-Same :
      (d : Device D V H) (type : EventType) (result : ProgramExecutionResult) (index : ℕ)
      (id : Option Text)
      → view (publish_execution_event type result index id d).0 ≡ view d
  unfolding publish_execution_event
  publish-Same d type result index id = elim (Bool-cases (is_null d.program_service.event_bus)) [
    | inl unset ↦ rw unset refl
    | inr given ↦ rw given refl
  ]

  terminal-Indexed :
      (d : Device D V H) (state : ProgramState)
      → IsIndexed (view d)
      → Indexed (on_store (λ s. state_store_set_program_terminal s state) d)
  unfolding state_store_set_program_terminal
  terminal-Indexed d state i = elim (Bool-cases (is_terminal state)) [
    | inl ended ↦ rw ended (λ e. absurd (ground arith))
    | inr other ↦ rw other i
  ]

  pub finish-Indexed :
      (d : Device D V H) (state : ProgramState) (result : ProgramExecutionResult)
      → IsIndexed (view d)
      → Indexed (finish state result d)
  unfolding finish
  finish-Indexed d state result i =
      subst IsIndexed
        (sym (
          publish-Same (on_store (λ s. state_store_set_program_terminal s state) d).0
            EventType.program_execution_terminated result 0 none))
        (terminal-Indexed d state i)

  pub fault-Indexed :
      (d : Device D V H) (result : IrrigationResult) → IsIndexed (view d) → Indexed (fault result d)
  unfolding fault close_if_eligible
  fault-Indexed d result i =
      finish-Indexed (close_if_eligible d).0 ProgramState.fault ProgramExecutionResult.fault (
        if_split Indexed (master_valve_service_close_is_eligible d.master_valve_service d.store) _ _
          (λ _. subst IsIndexed (sym (valve_close-Same d)) i) (λ _. i))

  pub running-Indexed :
      (d : Device D V H) (index now_ms : ℕ)
      → index < length (steps_of d.program_service.program)
      → IsIndexed (view d)
      → Indexed (on_store (λ s. state_store_set_program_running_zone s index now_ms) d)
  unfolding state_store_set_program_running_zone
  running-Indexed d index now_ms bound i =
      elim (Bool-cases (is_waiting_or_running d.store.program.state)) [
        | inl startable ↦ rw startable (λ _. bound)
        | inr other ↦ rw other i
      ]

  record_running-Indexed :
      (index : ℕ) (step : ProgramStep) (d : Device D V H) (result : IrrigationResult)
      → index < length (steps_of d.program_service.program)
      → IsIndexed (view d)
      → Indexed (record_running index step result d)
  unfolding record_running
  record_running-Indexed index step d result bound i =
      let clocked = (read_clock d).0 in
      let stored =
        on_store (λ s. state_store_set_program_running_zone s index (read_clock d).1) clocked in
      let indexed = running-Indexed clocked index (read_clock d).1 bound i in
      elim (Bool-cases (is_ok result)) [
        | inl opened ↦ rw opened (elim (Bool-cases (is_ok stored.1)) [
          | inl kept ↦ rw kept (
              subst IsIndexed
                (sym (
                  publish-Same stored.0 EventType.program_execution_step_started
                    ProgramExecutionResult.fault index step.zone_id))
                indexed)
          | inr lost ↦ rw lost indexed
        ])
        | inr refused ↦ rw refused (fault-Indexed d result i)
      ]

  open_step-Indexed :
      (index : ℕ) (step : ProgramStep) (d : Device D V H)
      → index < length (steps_of d.program_service.program)
      → IsIndexed (view d)
      → Indexed (open_step index step d)
  unfolding open_step
  open_step-Indexed index step d bound i =
      record_running-Indexed index step (zone_service_open step.zone_id step.duration_ms d).0
        (zone_service_open step.zone_id step.duration_ms d).1
        (subst (λ p. index < length (steps_of p.1.program))
          (sym (open-Same d step.zone_id step.duration_ms)) bound)
        (subst IsIndexed (sym (open-Same d step.zone_id step.duration_ms)) i)

  pub with_step-Indexed :
      (index : ℕ) (body : ProgramStep → Op D V H IrrigationResult) (d : Device D V H)
      → IsIndexed (view d)
      → ((step : ProgramStep)
          → index < length (steps_of d.program_service.program)
          → Indexed (body step d))
      → Indexed (with_step index body d)
  unfolding with_step
  with_step-Indexed index body d i keeps =
      elim (Option-cases (get_elem? (steps_of d.program_service.program) index)) [
        | inl missing ↦ rw (missing, with_step) i
        | inr (step, found) ↦
            rw (found, with_step) (keeps step (get_elem?-Bound _ index step found))
      ]

  pub open_current_zone-Indexed :
      (d : Device D V H) → IsIndexed (view d) → Indexed (open_current_zone d)
  unfolding open_current_zone
  open_current_zone-Indexed d i =
      let index = (state_store_snapshot d.store).program.current_step_index in
      with_step-Indexed index (open_step index) d i
        (λ step bound. open_step-Indexed index step d bound i)
