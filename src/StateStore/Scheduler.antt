-- ===== src/StateStore/Scheduler.antt =====
-- firmware/app/state/state_store.c: the scheduler's record of handled occurrences.
use irrigation_controller.Prelude.{ℕ, Bool, true, false, ◌||◌, if◌then◌else◌, ltb, leb, set, get_or}
use irrigation_controller.Result.{
  IrrigationResult, ok, rejected, invalid_state, Checked, passed, refused,
}
use irrigation_controller.Domain.{max_schedules}
use irrigation_controller.StateStore.{
  StateStore, ScheduleOccurrenceStatus, schedule_occurrence_unhandled,
}

abbrev pub is_no_status : ScheduleOccurrenceStatus → Bool
is_no_status ScheduleOccurrenceStatus.none = true
is_no_status _ = false

unfoldable pub state_store_configure_scheduler : StateStore → ℕ → StateStore × IrrigationResult
state_store_configure_scheduler store entry_count =
    let scheduler = store.scheduler in
    if ltb max_schedules entry_count
    then (store, rejected)
    else (record store { scheduler = record scheduler { entry_count = entry_count } }, ok)

-- The arrays have `max_schedules` places, and `entry_count` is no more: the defaults are not read.
unfoldable pub state_store_get_schedule_occurrence :
    StateStore → ℕ → Checked (ℕ × ScheduleOccurrenceStatus)
state_store_get_schedule_occurrence store entry_index =
    let scheduler = store.scheduler in
    if leb scheduler.entry_count entry_index
    then refused invalid_state
    else passed (
      get_or scheduler.last_handled_occurrence entry_index 0,
      get_or scheduler.last_occurrence_status entry_index ScheduleOccurrenceStatus.none,
    )

-- Both places of an entry.
abbrev pub write_occurrence : StateStore → ℕ → ℕ → ScheduleOccurrenceStatus → StateStore
write_occurrence store entry_index occurrence status =
    let scheduler = store.scheduler in
    record store {
      scheduler = record scheduler {
        last_handled_occurrence = set scheduler.last_handled_occurrence entry_index occurrence;
        last_occurrence_status = set scheduler.last_occurrence_status entry_index status;
      };
    }

unfoldable pub state_store_reset_schedule_occurrence :
    StateStore → ℕ → StateStore × IrrigationResult
state_store_reset_schedule_occurrence store entry_index =
    if leb store.scheduler.entry_count entry_index then (store, invalid_state) else (
      write_occurrence store entry_index schedule_occurrence_unhandled
          ScheduleOccurrenceStatus.none,
      ok,
    )

unfoldable pub state_store_record_schedule_occurrence :
    StateStore → ℕ → ℕ → ScheduleOccurrenceStatus → StateStore × IrrigationResult
state_store_record_schedule_occurrence store entry_index occurrence status =
    if leb store.scheduler.entry_count entry_index || is_no_status status
    then (store, invalid_state)
    else (write_occurrence store entry_index occurrence status, ok)
