-- ===== src/SchedulerService/Frame.antt =====
-- Starting a program leaves the scheduler's part of the device alone.
use irrigation_controller.Prelude.{
  ℕ, suc, ◌≡◌, refl, ◌∙◌, inl, inr, Bool, true, false, not, ◌||◌, Option, none, some, List, [], ◌∷◌,
  Text, arith, Bool-cases, if_split, is_null, get_or,
}
use irrigation_controller.Result.{IrrigationResult, is_ok}
use irrigation_controller.Domain.{Program, ProgramStartContext, ProgramExecutionResult}
use irrigation_controller.StateStore.{SchedulerRuntimeState, ProgramState, ScheduleOccurrenceStatus}
use irrigation_controller.StateStore.MasterValve.{
  state_store_begin_master_valve_open, state_store_record_master_valve_fault,
}
use irrigation_controller.StateStore.Program.{
  state_store_start_program, state_store_set_program_terminal,
}
use irrigation_controller.StateStore.Scheduler.{is_no_status}
use irrigation_controller.Events.{EventType}
use irrigation_controller.Device.{
  Device, Op, SchedulerTime, SchedulerEntry, SchedulerService, on_store,
}
use irrigation_controller.MasterValveService.{
  with_operation_lock as with_valve_lock, record_opening, open_locked, master_valve_service_open,
}
use irrigation_controller.ProgramService.{
  publish_execution_event, finish, with_operation_lock, program_service_is_active,
}
use irrigation_controller.ProgramService.Control.{
  start_locked, start_is_refused, program_service_start_with_context,
}
use irrigation_controller.SchedulerService.{
  occurrence_for, scheduler_time_is_valid, is_due, program_of, scheduled,
}
use irrigation_controller.SchedulerService.Processing.{handle_entry}

-- No entry from `index` on is due, by what `last_handled` says.
abbrev pub NoneDue : SchedulerTime → ℕ → List SchedulerEntry → List ℕ → Type 0
NoneDue now index [] last_handled = Unit {0}
NoneDue now index (entry ∷ entries) last_handled =
    (is_due now entry (get_or last_handled index 0) ≡ false)
    × NoneDue now (suc index) entries last_handled

pub is_due_handled :
    (now : SchedulerTime) (entry : SchedulerEntry) → is_due now entry (occurrence_for now) ≡ false
unfolding is_due
is_due_handled now entry = ground arith

abbrev pub refuses : SchedulerTime → SchedulerService → Bool
refuses now service =
    is_null service.state_store
    || is_null service.program_service
    || not (scheduler_time_is_valid now)

module _ {D V H : Type 0} where
  -- What the scheduler reads of a device: its part of the store, and its service.
  abbrev pub view : Device D V H → SchedulerRuntimeState × SchedulerService
  view d = (d.store.scheduler, d.scheduler_service)

  view-publish :
      (d : Device D V H) (type : EventType) (result : ProgramExecutionResult) (index : ℕ)
      (id : Option Text)
      → view (publish_execution_event type result index id d).0 ≡ view d
  unfolding publish_execution_event
  view-publish d type result index id = elim (Bool-cases (is_null d.program_service.event_bus)) [
    | inl unset ↦ rw unset refl
    | inr given ↦ rw given refl
  ]

  view-finish :
      (d : Device D V H) (state : ProgramState) (result : ProgramExecutionResult)
      → view (finish state result d).0 ≡ view d
  unfolding finish state_store_set_program_terminal
  view-finish d state result =
      let ended = (on_store (λ s. state_store_set_program_terminal s state) d).0 in
      view-publish ended EventType.program_execution_terminated result 0 none ∙ ground arith

  view-open : (d : Device D V H) → view (master_valve_service_open d).0 ≡ view d
  unfolding master_valve_service_open with_valve_lock open_locked record_opening
      state_store_begin_master_valve_open state_store_record_master_valve_fault
  view-open d = ground arith

  view-start_locked :
      (d : Device D V H) (program : Program) (context : ProgramStartContext)
      → view (start_locked program context d).0 ≡ view d
  unfolding start_locked state_store_start_program
  view-start_locked d program context =
      if_split (λ (m : Op D V H IrrigationResult). view (m r.0).0 ≡ view d) (not (is_ok r.1)) _ _
        (λ _. started)
        (λ _.
          if_split (λ (m : Op D V H IrrigationResult). view (m o.0).0 ≡ view d) (is_ok o.1) _ _
            (λ _. tried)
            (λ _. view-finish o.0 ProgramState.fault ProgramExecutionResult.fault ∙ tried))
    where
      armed : Device D V H
      armed =
          let service = d.program_service in
          record d {
            program_service = record service { program = program; start_context = context };
          }

      r : Device D V H × IrrigationResult
      r = on_store state_store_start_program armed

      started : view r.0 ≡ view d
      started = ground arith

      p : Device D V H
      p =
          (publish_execution_event EventType.program_execution_started ProgramExecutionResult.fault
            0 none r.0).0

      o : Device D V H × IrrigationResult
      o = master_valve_service_open p

      tried : view o.0 ≡ view d
      tried =
          view-open p
          ∙ view-publish r.0 EventType.program_execution_started ProgramExecutionResult.fault 0 none
          ∙ started

  view-start :
      (d : Device D V H) (program : Option Program) (context : ProgramStartContext)
      → view (program_service_start_with_context program context d).0 ≡ view d
  unfolding program_service_start_with_context with_operation_lock
  view-start d none context = refl
  view-start d (some program) context =
      if_split (λ (r : Device D V H × IrrigationResult). view r.0 ≡ view d)
        (start_is_refused d (some program) context) _ _ (λ _. refl)
        (λ _. elim (Bool-cases d.program_service.operation_lock) [
          | inl taken ↦ rw taken refl
          | inr free ↦ rw free (view-start_locked locked program context)
        ])
    where
      locked : Device D V H
      locked =
          let service = d.program_service in
          record d { program_service = record service { operation_lock = true } }

  pub view-handle_entry :
      (d : Device D V H) (entry : SchedulerEntry)
      → (view (handle_entry entry d).0 ≡ view d) × (is_no_status (handle_entry entry d).1 ≡ false)
  unfolding handle_entry
  view-handle_entry d entry =
      if_split
        (λ (r : Device D V H × ScheduleOccurrenceStatus).
          (view r.0 ≡ view d) × (is_no_status r.1 ≡ false))
        (program_service_is_active d.program_service d.store) _ _ (λ _. (refl, refl))
        (λ _. (
          view-start d (program_of entry) (scheduled entry),
          if_split (λ (status : ScheduleOccurrenceStatus). is_no_status status ≡ false)
              (is_ok (program_service_start_with_context (program_of entry) (scheduled entry) d).1)
              _ _ (λ _. refl) (λ _. refl),
        ))
