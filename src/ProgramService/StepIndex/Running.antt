-- ===== src/ProgramService/StepIndex/Running.antt =====
-- The branches of `program_service_process` keep the current step one of the program's.
use irrigation_controller.Prelude.{
  ℕ, ◌+◌, ◌≡◌, ◌<◌, sym, subst, inl, inr, not, arith, Bool-cases, if_split, length, ltb, leb,
}
use irrigation_controller.Result.{IrrigationResult, invalid_state, is_ok}
use irrigation_controller.Domain.{ProgramStep, ProgramExecutionResult}
use irrigation_controller.StateStore.{ProgramState, sub_u64, state_store_snapshot}
use irrigation_controller.StateStore.Tests.{is_master_open}
use irrigation_controller.StateStore.Program.{
  is_running_zone, state_store_set_program_running_zone, state_store_set_program_waiting_post_delay,
}
use irrigation_controller.Events.{EventType}
use irrigation_controller.Device.{Device, Op, read_clock, on_store}
use irrigation_controller.ZoneService.Closing.{zone_service_close}
use irrigation_controller.ZoneService.Frame.{close-Same}
use irrigation_controller.ZoneService.Untouched.{view}
use irrigation_controller.MasterValveService.{
  master_valve_service_close, master_valve_service_process_time, master_valve_service_state,
}
use irrigation_controller.ProgramService.{
  steps_of, is_waiting_master, is_waiting_post_delay, is_fault, publish_execution_event,
}
use irrigation_controller.ProgramService.StepIndex.{
  IsIndexed, Indexed, valve_process-Same, valve_close-Same, publish-Same, finish-Indexed,
  fault-Indexed, running-Indexed, with_step-Indexed, open_current_zone-Indexed,
}
use irrigation_controller.ProgramService.Running.{
  process_step, react_to_valve, process_waiting_master, advance, process_running_zone,
  process_post_delay,
}
use irrigation_controller.ProgramService.Control.{process_locked}

module _ {D V H : Type 0} where
  react_to_valve-Indexed : (d : Device D V H) → IsIndexed (view d) → Indexed (react_to_valve d)
  unfolding react_to_valve
  react_to_valve-Indexed d i =
      let state = master_valve_service_state d.master_valve_service d.store in
      if_split Indexed (is_master_open state) _ _ (λ _. open_current_zone-Indexed d i)
        (λ _. if_split Indexed (is_fault state) _ _ (λ _. fault-Indexed d invalid_state i) (λ _. i))

  process_waiting_master-Indexed :
      (d : Device D V H) → IsIndexed (view d) → Indexed (process_waiting_master d)
  unfolding process_waiting_master
  process_waiting_master-Indexed d i =
      let r = master_valve_service_process_time d in
      let kept = subst IsIndexed (sym (valve_process-Same d)) i in
      if_split (λ (m : Op D V H IrrigationResult). Indexed (m r.0)) (not (is_ok r.1)) _ _
        (λ _. fault-Indexed r.0 r.1 kept) (λ _. react_to_valve-Indexed r.0 kept)

  waiting_post_delay-Indexed :
      (d : Device D V H) (now_ms : ℕ)
      → IsIndexed (view d)
      → Indexed (on_store (λ s. state_store_set_program_waiting_post_delay s now_ms) d)
  unfolding state_store_set_program_waiting_post_delay
  waiting_post_delay-Indexed d now_ms i =
      elim (Bool-cases (is_running_zone d.store.program.state)) [
        | inl running ↦ rw running (λ e. absurd (ground arith))
        | inr other ↦ rw other i
      ]

  advance-Indexed :
      (d : Device D V H) (index : ℕ) (step : ProgramStep) (result : IrrigationResult)
      → IsIndexed (view d)
      → Indexed (advance index step result d)
  unfolding advance
  advance-Indexed d index step result i =
      if_split Indexed (not (is_ok result)) _ _ (λ _. fault-Indexed d result i)
        (λ _.
          if_split Indexed (ltb (index + 1) (length (steps_of d.program_service.program))) _ _
            (λ more.
              open_current_zone-Indexed
                (on_store (λ s. state_store_set_program_running_zone s (index + 1) t.1) t.0).0
                (running-Indexed t.0 (index + 1) t.1
                  (subst (λ q. index + 1 < length (steps_of q.1.program)) (sym same) (ground arith))
                  told))
            (λ _. waiting_post_delay-Indexed t.0 t.1 told))
    where
      p : Device D V H
      p =
          (publish_execution_event EventType.program_execution_step_completed
            ProgramExecutionResult.fault index step.zone_id d).0

      t : Device D V H × ℕ
      t = read_clock p

      same : view p ≡ view d
      same =
          publish-Same d EventType.program_execution_step_completed ProgramExecutionResult.fault
            index step.zone_id

      told : Indexed t
      told = subst IsIndexed (sym same) i

  process_step-Indexed :
      (d : Device D V H) (index started_at : ℕ) (step : ProgramStep)
      → IsIndexed (view d)
      → Indexed (process_step index started_at step d)
  unfolding process_step
  process_step-Indexed d index started_at step i =
      let (d₁, now) = read_clock d in
      if_split (λ (m : Op D V H IrrigationResult). Indexed (m d₁))
        (leb step.duration_ms (sub_u64 now started_at)) _ _
        (λ _.
          let r = zone_service_close step.zone_id d₁ in
          advance-Indexed r.0 index step r.1 (subst IsIndexed (sym (close-Same d₁ step.zone_id)) i))
        (λ _. i)

  process_running_zone-Indexed :
      (d : Device D V H) → IsIndexed (view d) → Indexed (process_running_zone d)
  unfolding process_running_zone
  process_running_zone-Indexed d i =
      let program = (state_store_snapshot d.store).program in
      let index = program.current_step_index in
      with_step-Indexed index (process_step index program.step_started_at_ms) d i
        (λ step bound. process_step-Indexed d index program.step_started_at_ms step i)

  process_post_delay-Indexed :
      (d : Device D V H) → IsIndexed (view d) → Indexed (process_post_delay d)
  unfolding process_post_delay
  process_post_delay-Indexed d i =
      let started_at = (state_store_snapshot d.store).program.step_started_at_ms in
      let (d₁, now) = read_clock d in
      if_split (λ (m : Op D V H IrrigationResult). Indexed (m d₁))
        (leb d.program_service.program.post_program_delay_ms (sub_u64 now started_at)) _ _
        (λ _.
          finish-Indexed (master_valve_service_close d₁).0 ProgramState.completed
            ProgramExecutionResult.completed (subst IsIndexed (sym (valve_close-Same d₁)) i))
        (λ _. i)

  pub process_locked-Indexed : (d : Device D V H) → IsIndexed (view d) → Indexed (process_locked d)
  unfolding process_locked
  process_locked-Indexed d i =
      let state = (state_store_snapshot d.store).program.state in
      if_split Indexed (is_waiting_master state) _ _ (λ _. process_waiting_master-Indexed d i)
        (λ _.
          if_split Indexed (is_running_zone state) _ _ (λ _. process_running_zone-Indexed d i)
            (λ _.
              if_split Indexed (is_waiting_post_delay state) _ _
                (λ _. process_post_delay-Indexed d i) (λ _. i)))
