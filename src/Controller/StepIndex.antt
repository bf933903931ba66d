-- ===== src/Controller/StepIndex.antt =====
-- The current step of every device that the firmware can reach.
use irrigation_controller.Prelude.{
  ◌<◌, ◌≡◌, refl, sym, ◌∙◌, ltb, [], Option-cases, subst, inl, inr, Bool, true, not, List, length,
  arith, if_split, Pointer,
}
use irrigation_controller.Result.{IrrigationResult, is_ok}
use irrigation_controller.StateStore.{StateStore, SystemState, ProgramState, state_store_init}
use irrigation_controller.Domain.{Zone, max_zones}
use irrigation_controller.StateStore.Zones.{
  configure_loop, state_store_transition_system, state_store_configure_zones,
}
use irrigation_controller.StateStore.MasterValve.{state_store_configure_master_valve}
use irrigation_controller.StateStore.Program.{is_waiting_or_running}
use irrigation_controller.Device.{Device, Op, SchedulerEntry, on_store}
use irrigation_controller.ZoneService.{zone_service_init}
use irrigation_controller.ZoneService.Frame.{zone_call-Same}
use irrigation_controller.ZoneService.Untouched.{view}
use irrigation_controller.MasterValveService.{master_valve_service_init}
use irrigation_controller.ProgramService.{
  steps_of, program_service_init, program_service_set_event_bus,
}
use irrigation_controller.ProgramService.StepIndex.{
  IsIndexed, Indexed, valve_open-Same, valve_process-Same, valve_close-Same,
}
use irrigation_controller.ProgramService.StepIndex.Calls.{
  start-IsIndexed, process-IsIndexed as program_process-IsIndexed, abort-IsIndexed,
}
use irrigation_controller.SchedulerService.{scheduler_service_init}
use irrigation_controller.SchedulerService.StepIndex.{
  configure-IsIndexed, set_enabled-IsIndexed, process-IsIndexed as scheduler_process-IsIndexed,
}
use irrigation_controller.Controller.{
  Board, Call, Reachable, dev_zones, initialize_outputs, start_event_bus, subscribe_history,
  start_services, start_scheduler, start_zones, app_main, perform, power_on,
}

state-transition_system :
    (s : StateStore) (next : SystemState)
    → (state_store_transition_system s next).0.program.state ≡ s.program.state
unfolding state_store_transition_system
state-transition_system s next = ground arith

state-configure_zones :
    (s : StateStore) (zones : List Zone)
    → (state_store_configure_zones s zones).0.program.state ≡ s.program.state
unfolding state_store_configure_zones
state-configure_zones s zones =
    if_split (λ (r : StateStore × IrrigationResult). r.0.program.state ≡ s.program.state)
      (ltb max_zones (length zones)) _ _ (λ _. refl)
      (λ _. elim (Option-cases (configure_loop [] zones)) [
        | inl stop ↦ rw stop refl
        | inr (configured, good) ↦ rw good refl
      ])

module _ {D V H : Type 0} where
  abbrev IsIdle : Device D V H → Type 0
  IsIdle d = d.store.program.state ≡ ProgramState.idle

  idle-Indexed : (d : Device D V H) → IsIdle d → IsIndexed (view d)
  idle-Indexed d idle e = absurd (ground arith)

  start_scheduler-Indexed :
      (board : Board D V H) (entries : List SchedulerEntry) (d : Device D V H)
      → IsIndexed (view d)
      → Indexed (start_scheduler board.history entries d)
  unfolding start_scheduler subscribe_history scheduler_service_init
  start_scheduler-Indexed board entries d i =
      let r = subscribe_history board.history d in
      if_split (λ (m : Op D V H Bool). Indexed (m r.0)) (not (is_ok r.1)) _ _ (λ _. i)
        (λ _.
          configure-IsIndexed (scheduler_service_init Pointer.valid Pointer.valid r.0).0 entries i)

  start_services-IsIdle : (d : Device D V H) → IsIdle d → IsIdle (start_services d).0
  unfolding start_services master_valve_service_init zone_service_init program_service_init
      program_service_set_event_bus state_store_configure_master_valve
  start_services-IsIdle d idle = ground arith

  start_zones-Indexed :
      (board : Board D V H) (entries : List SchedulerEntry) (d : Device D V H)
      → IsIdle d
      → Indexed (start_zones board entries d)
  unfolding start_zones
  start_zones-Indexed board entries d idle =
      let r = on_store (λ s. state_store_configure_zones s dev_zones) d in
      let still = state-configure_zones d.store dev_zones ∙ idle in
      if_split (λ (m : Op D V H Bool). Indexed (m r.0)) (not (is_ok r.1)) _ _
        (λ _. idle-Indexed r.0 still)
        (λ _.
          start_scheduler-Indexed board entries (start_services r.0).0
            (idle-Indexed (start_services r.0).0 (start_services-IsIdle r.0 still)))

  app_main-IsIndexed :
      (board : Board D V H) (entries : List SchedulerEntry) → Indexed (app_main board entries)
  unfolding app_main initialize_outputs start_event_bus state_store_init
  app_main-IsIndexed board entries =
      if_split (λ (m : Op D V H Bool). Indexed (m safe.0)) (not (is_ok safe.1)) _ _
        (λ _. idle-Indexed safe.0 initial)
        (λ _.
          if_split (λ (m : Op D V H Bool). Indexed (m entered.0)) (not (is_ok entered.1)) _ _
            (λ _. idle-Indexed entered.0 still)
            (λ _.
              start_zones-Indexed board entries (start_event_bus board.log_event entered.0).0
                still))
    where
      safe : Device D V H × IrrigationResult
      safe = initialize_outputs (power_on board)

      initial : IsIdle safe.0
      initial = refl

      entered : Device D V H × IrrigationResult
      entered = on_store (λ s. state_store_transition_system s SystemState.ready) safe.0

      still : IsIdle entered.0
      still = state-transition_system safe.0.store SystemState.ready ∙ initial

  perform-IsIndexed :
      (call : Call) (d : Device D V H) → IsIndexed (view d) → Indexed (perform call d)
  unfolding perform
  perform-IsIndexed (Call.zone call) d i = subst IsIndexed (sym (zone_call-Same d call)) i
  perform-IsIndexed Call.valve_open d i = subst IsIndexed (sym (valve_open-Same d)) i
  perform-IsIndexed Call.valve_process_time d i = subst IsIndexed (sym (valve_process-Same d)) i
  perform-IsIndexed Call.valve_close d i = subst IsIndexed (sym (valve_close-Same d)) i
  perform-IsIndexed (Call.program_start program context) d i = start-IsIndexed d program context i
  perform-IsIndexed Call.program_process d i = program_process-IsIndexed d i
  perform-IsIndexed Call.program_abort d i = abort-IsIndexed d i
  perform-IsIndexed (Call.scheduler_configure entries) d i = configure-IsIndexed d entries i
  perform-IsIndexed (Call.scheduler_set_enabled index enabled) d i =
      set_enabled-IsIndexed d index enabled i
  perform-IsIndexed (Call.scheduler_process now) d i = scheduler_process-IsIndexed d now i

  -- Of every device that the firmware can reach from its start by whole calls in any order, with
  -- any drivers, clock, programs and schedule: while the program waits for the master valve or runs
  -- a zone, the current step's index is below the number of the steps of the program that was started.
  pub step_index_lem :
      (board : Board D V H) (entries : List SchedulerEntry) (d : Device D V H)
      → Reachable board entries d
      → is_waiting_or_running d.store.program.state ≡ true
      → d.store.program.current_step_index < length (steps_of d.program_service.program)
  step_index_lem board entries d (Reachable.started e) = app_main-IsIndexed board entries
  step_index_lem board entries d (Reachable.called {d = d₀} call r) =
      perform-IsIndexed call d₀ (step_index_lem board entries d₀ r)
