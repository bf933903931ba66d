-- ===== src/SchedulerService/StepIndex.antt =====
-- Every operation of the scheduler keeps the current step one of the program's.
use irrigation_controller.Prelude.{
  ℕ, suc, ◌≡◌, refl, sym, ◌∙◌, subst, inl, inr, Bool, not, ◌||◌, List, [], ◌∷◌, arith, Option-cases,
  if_split, is_null, get_or, set, ltb, leb, length,
}
use irrigation_controller.Result.{IrrigationResult, is_ok}
use irrigation_controller.Domain.{max_schedules}
use irrigation_controller.StateStore.{
  StateStore, ProgramRuntimeState, ScheduleOccurrenceStatus, state_store_snapshot,
}
use irrigation_controller.StateStore.Scheduler.{
  state_store_configure_scheduler, state_store_reset_schedule_occurrence,
  state_store_record_schedule_occurrence,
}
use irrigation_controller.Device.{Device, Op, SchedulerTime, SchedulerEntry, on_store}
use irrigation_controller.ZoneService.Untouched.{view}
use irrigation_controller.ProgramService.{program_service_is_active}
use irrigation_controller.ProgramService.StepIndex.{IsIndexed, Indexed}
use irrigation_controller.ProgramService.StepIndex.Calls.{start-IsIndexed}
use irrigation_controller.SchedulerService.{
  occurrence_for, scheduler_time_is_valid, is_due, program_of, scheduled, check_entries,
  restore_occurrence, restore_loop, finish_install, install_entries, scheduler_service_configure,
  scheduler_service_set_enabled,
}
use irrigation_controller.SchedulerService.Processing.{
  handle_entry, handle_and_record, process_loop, scheduler_service_process,
}

program-configure_scheduler :
    (s : StateStore) (count : ℕ) → (state_store_configure_scheduler s count).0.program ≡ s.program
unfolding state_store_configure_scheduler
program-configure_scheduler s count = ground arith

program-reset :
    (s : StateStore) (index : ℕ)
    → (state_store_reset_schedule_occurrence s index).0.program ≡ s.program
unfolding state_store_reset_schedule_occurrence
program-reset s index = ground arith

program-record :
    (s : StateStore) (index occurrence : ℕ) (status : ScheduleOccurrenceStatus)
    → (state_store_record_schedule_occurrence s index occurrence status).0.program ≡ s.program
unfolding state_store_record_schedule_occurrence
program-record s index occurrence status = ground arith

program-restore_occurrence :
    (s : StateStore) (index : ℕ) (kept : ℕ × ScheduleOccurrenceStatus)
    → (restore_occurrence index kept s).0.program ≡ s.program
unfolding restore_occurrence state_store_reset_schedule_occurrence
    state_store_record_schedule_occurrence
program-restore_occurrence s index kept = ground arith

program-restore_loop :
    (index : ℕ) (kept : List (ℕ × ScheduleOccurrenceStatus)) (s : StateStore)
    → (restore_loop index kept s).0.program ≡ s.program
unfolding restore_loop
program-restore_loop index [] s = refl
program-restore_loop index (kept ∷ rest) s =
    let r = restore_occurrence index kept s in
    let same = program-restore_occurrence s index kept in
    if_split (λ (r : StateStore × IrrigationResult). r.0.program ≡ s.program) (is_ok r.1) _ _
      (λ _. program-restore_loop (suc index) rest r.0 ∙ same) (λ _. same)

module _ {D V H : Type 0} where
  program-Indexed :
      (d : Device D V H) (program : ProgramRuntimeState)
      → program ≡ d.store.program
      → IsIndexed (view d)
      → IsIndexed (program, d.program_service)
  program-Indexed d program same i = subst (λ p. IsIndexed (p, d.program_service)) (sym same) i

  install_entries-Indexed :
      (d : Device D V H) (entries : List SchedulerEntry)
      (kept : List (ℕ × ScheduleOccurrenceStatus))
      → IsIndexed (view d)
      → Indexed (install_entries entries kept d)
  unfolding install_entries finish_install
  install_entries-Indexed d entries kept i =
      if_split (λ (m : Op D V H IrrigationResult). Indexed (m r.0)) (not (is_ok r.1)) _ _
        (λ _. counted) (λ _. if_split Indexed (not (is_ok q.1)) _ _ (λ _. restored) (λ _. restored))
    where
      r : Device D V H × IrrigationResult
      r = on_store (λ s. state_store_configure_scheduler s (length entries)) d

      counted : Indexed r
      counted =
          program-Indexed d r.0.store.program (program-configure_scheduler d.store (length entries))
            i

      q : Device D V H × IrrigationResult
      q = on_store (restore_loop 0 kept) r.0

      restored : Indexed q
      restored =
          program-Indexed r.0 q.0.store.program (program-restore_loop 0 kept r.0.store) counted

  pub configure-IsIndexed :
      (d : Device D V H) (entries : List SchedulerEntry)
      → IsIndexed (view d)
      → Indexed (scheduler_service_configure entries d)
  unfolding scheduler_service_configure
  configure-IsIndexed d entries i =
      if_split Indexed
        (is_null d.scheduler_service.state_store || ltb max_schedules (length entries)) _ _ (λ _. i)
        (λ _. elim (Option-cases (check_entries d.store d.scheduler_service.entries [] entries)) [
          | inl stop ↦ rw stop i
          | inr (kept, good) ↦ rw good (install_entries-Indexed d entries kept i)
        ])

  pub set_enabled-IsIndexed :
      (d : Device D V H) (index : ℕ) (enabled : Bool)
      → IsIndexed (view d)
      → Indexed (scheduler_service_set_enabled index enabled d)
  unfolding scheduler_service_set_enabled
  set_enabled-IsIndexed d index enabled i =
      if_split Indexed (leb (length d.scheduler_service.entries) index) _ _ (λ _. i)
        (λ _.
          let r = on_store (λ s. state_store_reset_schedule_occurrence s index) d in
          let kept = program-Indexed d r.0.store.program (program-reset d.store index) i in
          if_split (λ (m : Op D V H IrrigationResult). Indexed (m r.0)) (is_ok r.1) _ _ (λ _. kept)
            (λ _. kept))

  handle_and_record-Indexed :
      (d : Device D V H) (now : SchedulerTime) (index : ℕ) (entry : SchedulerEntry)
      → IsIndexed (view d)
      → Indexed (handle_and_record now index entry d)
  unfolding handle_and_record handle_entry
  handle_and_record-Indexed d now index entry i =
      let r = handle_entry entry d in
      program-Indexed r.0 _ (program-record r.0.store index (occurrence_for now) r.1) (
        if_split Indexed (program_service_is_active d.program_service d.store) _ _ (λ _. i)
          (λ _. start-IsIndexed d (program_of entry) (scheduled entry) i))

  process_loop-Indexed :
      (now : SchedulerTime) (index : ℕ) (entries : List SchedulerEntry) (last_handled : List ℕ)
      (d : Device D V H)
      → IsIndexed (view d)
      → Indexed (process_loop now index entries last_handled d)
  unfolding process_loop
  process_loop-Indexed now index [] last_handled d i = i
  process_loop-Indexed now index (entry ∷ entries) last_handled d i =
      if_split (λ (m : Op D V H (Unit {0})). Indexed (m d))
        (is_due now entry (get_or last_handled index 0)) _ _
        (λ _.
          process_loop-Indexed now (suc index) entries (set last_handled index (occurrence_for now))
            (handle_and_record now index entry d).0 (handle_and_record-Indexed d now index entry i))
        (λ _. process_loop-Indexed now (suc index) entries last_handled d i)

  pub process-IsIndexed :
      (d : Device D V H) (now : SchedulerTime)
      → IsIndexed (view d)
      → Indexed (scheduler_service_process now d)
  unfolding scheduler_service_process
  process-IsIndexed d now i =
      if_split Indexed
        (is_null d.scheduler_service.state_store
          || is_null d.scheduler_service.program_service
          || not (scheduler_time_is_valid now))
        _ _ (λ _. i)
        (λ _.
          process_loop-Indexed now 0 d.scheduler_service.entries
            (state_store_snapshot d.store).scheduler.last_handled_occurrence d i)
