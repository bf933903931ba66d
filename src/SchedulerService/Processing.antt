-- ===== src/SchedulerService/Processing.antt =====
-- firmware/domain/scheduler/scheduler_service.c: `scheduler_service_process`.
use irrigation_controller.Prelude.{
  ℕ, suc, not, ◌||◌, if◌then◌else◌, List, [], ◌∷◌, get_or, set, is_null,
}
use irrigation_controller.Result.{IrrigationResult, ok, rejected, is_ok}
use irrigation_controller.StateStore.{ScheduleOccurrenceStatus, state_store_snapshot}
use irrigation_controller.StateStore.Scheduler.{state_store_record_schedule_occurrence}
use irrigation_controller.Device.{Op, SchedulerTime, SchedulerEntry, ◌>>=◌, return, on_store}
use irrigation_controller.ProgramService.{program_service_is_active}
use irrigation_controller.ProgramService.Control.{program_service_start_with_context}
use irrigation_controller.SchedulerService.{
  scheduler_time_is_valid, occurrence_for, is_due, program_of, scheduled,
}

module _ {D V H : Type 0} where
  -- The status of an entry that is due, with the start of its program.
  unfoldable pub handle_entry : SchedulerEntry → Op D V H ScheduleOccurrenceStatus
  handle_entry entry d =
      if program_service_is_active d.program_service d.store
      then (d, ScheduleOccurrenceStatus.skipped_busy)
      else (do
        result ← program_service_start_with_context (program_of entry) (scheduled entry)
        return (
            if is_ok result
            then ScheduleOccurrenceStatus.started
            else ScheduleOccurrenceStatus.rejected))
          d

  unfoldable pub handle_and_record : SchedulerTime → ℕ → SchedulerEntry → Op D V H (Unit {0})
  unfolding handle_entry occurrence_for
  handle_and_record now index entry = do
    status ← handle_entry entry
    _ ← on_store (λ s. state_store_record_schedule_occurrence s index (occurrence_for now) status)
    return tt

  -- The loop, from the place `index` on. `last_handled` is the snapshot's array, which the loop
  -- writes but, each place being visited once, never reads again.
  unfoldable pub process_loop :
      SchedulerTime → ℕ → List SchedulerEntry → List ℕ → Op D V H (Unit {0})
  unfolding handle_and_record is_due
  process_loop now index [] last_handled = return tt
  process_loop now index (entry ∷ entries) last_handled =
      if is_due now entry (get_or last_handled index 0)
      then (do
        _ ← handle_and_record now index entry
        process_loop now (suc index) entries (set last_handled index (occurrence_for now)))
      else process_loop now (suc index) entries last_handled

  unfoldable pub scheduler_service_process : SchedulerTime → Op D V H IrrigationResult
  unfolding process_loop
  scheduler_service_process now d =
      let service = d.scheduler_service in
      if is_null service.state_store
        || is_null service.program_service
        || not (scheduler_time_is_valid now)
      then (d, rejected)
      else (do
        _ ←
            process_loop now 0 service.entries
              (state_store_snapshot d.store).scheduler.last_handled_occurrence
        return ok)
          d
