-- ===== src/ProgramService/SafeSteps.antt =====
-- The processing of a program keeps what `Keeps` says.
use irrigation_controller.Prelude.{ℕ, ◌+◌, not, none, if_split, ltb, leb, length}
use irrigation_controller.Result.{IrrigationResult, invalid_state, is_ok}
use irrigation_controller.Domain.{Program, ProgramStep, ProgramStartContext, ProgramExecutionResult}
use irrigation_controller.StateStore.{ProgramState, sub_u64, state_store_snapshot}
use irrigation_controller.StateStore.Tests.{is_master_open}
use irrigation_controller.StateStore.Program.{
  is_running_zone, state_store_start_program, state_store_set_program_running_zone,
}
use irrigation_controller.StateStore.Consistent.{IsConsistent}
use irrigation_controller.Events.{EventType}
use irrigation_controller.Device.{Device, Op, read_clock, on_store}
use irrigation_controller.ZoneService.Closing.{zone_service_close}
use irrigation_controller.MasterValveService.{
  master_valve_service_open, master_valve_service_close, master_valve_service_process_time,
  master_valve_service_state,
}
use irrigation_controller.MasterValveService.Safety.{
  open-IsConsistent, process_time-IsConsistent, close-IsConsistent,
}
use irrigation_controller.ProgramService.{
  steps_of, is_waiting_master, is_waiting_post_delay, is_fault, publish_execution_event,
}
use irrigation_controller.ProgramService.Running.{
  process_step, react_to_valve, process_waiting_master, advance, process_running_zone,
  process_post_delay,
}
use irrigation_controller.ProgramService.Control.{start_locked, process_locked}
use irrigation_controller.ProgramService.Keeping.{
  start_program-IsConsistent, running_zone-IsConsistent, waiting_post_delay-IsConsistent, Keeps,
  close-Keeps, publish_execution-Keeps, finish-Keeps, fault-Keeps, with_step-Keeps,
  open_current_zone-Keeps,
}

module _ {D V H : Type 0} where
  pub start_locked-Keeps :
      (d : Device D V H) (program : Program) (context : ProgramStartContext)
      → IsConsistent d.store
      → Keeps (start_locked program context d)
  unfolding start_locked
  start_locked-Keeps d program context c =
      if_split (λ (m : Op D V H IrrigationResult). Keeps (m r.0)) (not (is_ok r.1)) _ _
        (λ _. started)
        (λ _.
          if_split (λ (m : Op D V H IrrigationResult). Keeps (m o.0)) (is_ok o.1) _ _ (λ _. tried)
            (λ _. finish-Keeps o.0 ProgramState.fault ProgramExecutionResult.fault tried))
    where
      armed : Device D V H
      armed =
          let service = d.program_service in
          record d {
            program_service = record service { program = program; start_context = context };
          }

      r : Device D V H × IrrigationResult
      r = on_store state_store_start_program armed

      started : Keeps r
      started = start_program-IsConsistent d.store c

      p : Device D V H
      p =
          (publish_execution_event EventType.program_execution_started ProgramExecutionResult.fault
            0 none r.0).0

      o : Device D V H × IrrigationResult
      o = master_valve_service_open p

      tried : Keeps o
      tried = open-IsConsistent p (
          publish_execution-Keeps r.0 EventType.program_execution_started
            ProgramExecutionResult.fault 0 none started)

  react_to_valve-Keeps : (d : Device D V H) → IsConsistent d.store → Keeps (react_to_valve d)
  unfolding react_to_valve
  react_to_valve-Keeps d c =
      let state = master_valve_service_state d.master_valve_service d.store in
      if_split Keeps (is_master_open state) _ _ (λ _. open_current_zone-Keeps d c)
        (λ _. if_split Keeps (is_fault state) _ _ (λ _. fault-Keeps d invalid_state c) (λ _. c))

  process_waiting_master-Keeps :
      (d : Device D V H) → IsConsistent d.store → Keeps (process_waiting_master d)
  unfolding process_waiting_master
  process_waiting_master-Keeps d c =
      let r = master_valve_service_process_time d in
      let kept = process_time-IsConsistent d c in
      if_split (λ (m : Op D V H IrrigationResult). Keeps (m r.0)) (not (is_ok r.1)) _ _
        (λ _. fault-Keeps r.0 r.1 kept) (λ _. react_to_valve-Keeps r.0 kept)

  advance-Keeps :
      (d : Device D V H) (index : ℕ) (step : ProgramStep) (result : IrrigationResult)
      → IsConsistent d.store
      → Keeps (advance index step result d)
  unfolding advance
  advance-Keeps d index step result c =
      if_split Keeps (not (is_ok result)) _ _ (λ _. fault-Keeps d result c)
        (λ _.
          if_split Keeps (ltb (index + 1) (length (steps_of d.program_service.program))) _ _
            (λ _.
              open_current_zone-Keeps
                (on_store (λ s. state_store_set_program_running_zone s (index + 1) t.1) t.0).0
                (running_zone-IsConsistent t.0.store (index + 1) t.1 told))
            (λ _. waiting_post_delay-IsConsistent t.0.store t.1 told))
    where
      p : Device D V H
      p =
          (publish_execution_event EventType.program_execution_step_completed
            ProgramExecutionResult.fault index step.zone_id d).0

      t : Device D V H × ℕ
      t = read_clock p

      told : Keeps t
      told =
          publish_execution-Keeps d EventType.program_execution_step_completed
            ProgramExecutionResult.fault index step.zone_id c

  process_step-Keeps :
      (d : Device D V H) (index started_at : ℕ) (step : ProgramStep)
      → IsConsistent d.store
      → Keeps (process_step index started_at step d)
  unfolding process_step
  process_step-Keeps d index started_at step c =
      let (d₁, now) = read_clock d in
      if_split (λ (m : Op D V H IrrigationResult). Keeps (m d₁))
        (leb step.duration_ms (sub_u64 now started_at)) _ _
        (λ _.
          let r = zone_service_close step.zone_id d₁ in
          advance-Keeps r.0 index step r.1 (close-Keeps d₁ step.zone_id c))
        (λ _. c)

  process_running_zone-Keeps :
      (d : Device D V H) → IsConsistent d.store → Keeps (process_running_zone d)
  unfolding process_running_zone
  process_running_zone-Keeps d c =
      let program = (state_store_snapshot d.store).program in
      let index = program.current_step_index in
      with_step-Keeps d index (process_step index program.step_started_at_ms)
        (λ step. process_step-Keeps d index program.step_started_at_ms step c) c

  process_post_delay-Keeps :
      (d : Device D V H) → IsConsistent d.store → Keeps (process_post_delay d)
  unfolding process_post_delay
  process_post_delay-Keeps d c =
      let started_at = (state_store_snapshot d.store).program.step_started_at_ms in
      let (d₁, now) = read_clock d in
      if_split (λ (m : Op D V H IrrigationResult). Keeps (m d₁))
        (leb d.program_service.program.post_program_delay_ms (sub_u64 now started_at)) _ _
        (λ _.
          finish-Keeps (master_valve_service_close d₁).0 ProgramState.completed
            ProgramExecutionResult.completed (close-IsConsistent d₁ c))
        (λ _. c)

  pub process_locked-Keeps : (d : Device D V H) → IsConsistent d.store → Keeps (process_locked d)
  unfolding process_locked
  process_locked-Keeps d c =
      let state = (state_store_snapshot d.store).program.state in
      if_split Keeps (is_waiting_master state) _ _ (λ _. process_waiting_master-Keeps d c)
        (λ _.
          if_split Keeps (is_running_zone state) _ _ (λ _. process_running_zone-Keeps d c)
            (λ _.
              if_split Keeps (is_waiting_post_delay state) _ _ (λ _. process_post_delay-Keeps d c)
                (λ _. c)))
