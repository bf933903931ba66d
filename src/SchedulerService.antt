-- ===== src/SchedulerService.antt =====
-- firmware/domain/scheduler/scheduler_service.c: the entries and their configuration.
-- The calls of `scheduler_service_lock` and `scheduler_service_unlock` are left out.
pub mod Frame
pub mod Once
pub mod Configured
pub mod Restoring
pub mod Restored
pub mod Safety
pub mod StepIndex
pub mod Processing
use irrigation_controller.Prelude.{
  ℕ, suc, ◌+◌, ◌*◌, ◌/◌, ◌%◌, ◌^◌, ◌==◌, Bool, true, false, not, ◌&&◌, ◌||◌, if◌then◌else◌, Option,
  none, some, List, [], ◌∷◌, ◌++◌, Text, text_eq, length, get_or, set, is_none, is_null, ltb, leb,
  Pointer,
}
use irrigation_controller.Result.{
  IrrigationResult, ok, rejected, invalid_state, not_found, is_ok, Checked, passed, refused,
}
use irrigation_controller.Domain.{
  Program, ProgramExecutionOrigin, ProgramStartContext, max_schedules,
}
use irrigation_controller.StateStore.{StateStore, ScheduleOccurrenceStatus, state_store_snapshot}
use irrigation_controller.StateStore.Scheduler.{
  is_no_status, state_store_configure_scheduler, state_store_get_schedule_occurrence,
  state_store_reset_schedule_occurrence, state_store_record_schedule_occurrence,
}
use irrigation_controller.Device.{
  Device, Op, SchedulerTime, SchedulerEntry, SchedulerService, ProgramPointer, ◌>>=◌, ◌>>◌, return,
  on_store,
}
use irrigation_controller.ProgramService.{program_service_is_active}
use irrigation_controller.ProgramService.Control.{program_service_start_with_context}

-- `(mask & SCHEDULER_WEEKDAY_MASK(day)) != 0`
abbrev pub has_weekday : ℕ → ℕ → Bool
has_weekday mask day = (mask / 2 ^ day) % 2 == 1

abbrev pub same_flag : Bool → Bool → Bool
same_flag true b = b
same_flag false b = not b

-- `left == right` on pointers.
abbrev pub same_program : Option ProgramPointer → Option ProgramPointer → Bool
same_program none none = true
same_program (some p) (some q) = p.address == q.address
same_program _ _ = false

-- `strcmp(left, right) == 0`; a NULL argument, which the callers exclude, counts as different.
abbrev pub same_id : Option Text → Option Text → Bool
same_id (some a) (some b) = text_eq a b
same_id _ _ = false

unfoldable pub scheduler_time_is_valid : SchedulerTime → Bool
scheduler_time_is_valid time = ltb time.weekday 7 && ltb time.hour 24 && ltb time.minute 60

-- `(weekday_mask & ~((1U << 7U) - 1U)) == 0U` says that the bits from 7 on are clear.
unfoldable pub entry_is_valid : SchedulerEntry → Bool
entry_is_valid entry =
    not (is_none entry.id)
    && not (entry.weekday_mask == 0)
    && entry.weekday_mask / 2 ^ 7 == 0
    && ltb entry.hour 24
    && ltb entry.minute 60
    && not (is_none entry.program)

unfoldable pub entries_are_unchanged : SchedulerEntry → SchedulerEntry → Bool
entries_are_unchanged left right =
    same_id left.id right.id
    && same_flag left.enabled right.enabled
    && left.weekday_mask == right.weekday_mask
    && left.hour == right.hour
    && left.minute == right.minute
    && same_program left.program right.program

unfoldable pub occurrence_for : SchedulerTime → ℕ
occurrence_for time = time.week_index * 7 + time.weekday

-- The loop over `previous < index` that looks for the same id.
unfoldable pub repeats_id : Option Text → List SchedulerEntry → Bool
repeats_id id [] = false
repeats_id id (previous ∷ rest) = same_id previous.id id || repeats_id id rest

-- `preserved_occurrences[index]` and `preserved_statuses[index]`: the loop over the old entries,
-- from the place `previous` on. Both are 0 where no old entry is the same.
unfoldable pub preserve :
    StateStore → SchedulerEntry → ℕ → List SchedulerEntry → ℕ × ScheduleOccurrenceStatus
unfolding entries_are_unchanged state_store_get_schedule_occurrence
preserve store entry previous [] = (0, ScheduleOccurrenceStatus.none)
preserve store entry previous (old ∷ rest) =
    if entries_are_unchanged entry old
    then elim (state_store_get_schedule_occurrence store previous) [
      | refused result ↦ (0, ScheduleOccurrenceStatus.none)
      | passed kept ↦ kept
    ]
    else preserve store entry (suc previous) rest

-- The first loop of `scheduler_service_configure_locked`; `none` is the early return.
unfoldable pub check_entries :
    StateStore
    → List SchedulerEntry
    → List SchedulerEntry
    → List SchedulerEntry
    → Option (List (ℕ × ScheduleOccurrenceStatus))
unfolding entry_is_valid repeats_id preserve
check_entries store old before [] = some []
check_entries store old before (entry ∷ entries) =
    if not (entry_is_valid entry) || repeats_id entry.id before
    then none
    else elim (check_entries store old (before ++ entry ∷ []) entries) [
      | none ↦ none
      | some kept ↦ some (preserve store entry 0 old ∷ kept)
    ]

-- One round of the second loop.
unfoldable pub restore_occurrence :
    ℕ → ℕ × ScheduleOccurrenceStatus → StateStore → StateStore × IrrigationResult
unfolding state_store_reset_schedule_occurrence state_store_record_schedule_occurrence
restore_occurrence index (occurrence, status) store =
    if is_no_status status
    then state_store_reset_schedule_occurrence store index
    else state_store_record_schedule_occurrence store index occurrence status

-- The second loop; any result but OK is the early return.
unfoldable pub restore_loop :
    ℕ → List (ℕ × ScheduleOccurrenceStatus) → StateStore → StateStore × IrrigationResult
unfolding restore_occurrence
restore_loop index [] store = (store, ok)
restore_loop index (kept ∷ rest) store =
    let (store', result) = restore_occurrence index kept store in
    let done = restore_loop (suc index) rest store' in
    if is_ok result then done else (store', result)

-- `hour * 60 + minute` in uint16_t.
abbrev pub minute_of_day : ℕ → ℕ → ℕ
minute_of_day hour minute = (hour * 60 + minute) % 2 ^ 16

-- The test of `scheduler_service_process` that does not skip the entry.
unfoldable pub is_due : SchedulerTime → SchedulerEntry → ℕ → Bool
unfolding occurrence_for
is_due now entry last_handled =
    entry.enabled
    && has_weekday entry.weekday_mask now.weekday
    && minute_of_day now.hour now.minute == minute_of_day entry.hour entry.minute
    && not (last_handled == occurrence_for now)

-- `entry->program` for `program_service_start_with_context`.
abbrev pub program_of : SchedulerEntry → Option Program
program_of entry = elim entry.program [ none ↦ none | some pointer ↦ some pointer.object ]

abbrev pub scheduled : SchedulerEntry → ProgramStartContext
scheduled entry = record { origin = ProgramExecutionOrigin.scheduled; schedule_id = entry.id }

-- `service->entries[entry_index].enabled = enabled`
abbrev pub write_enabled : ℕ → Bool → List SchedulerEntry → List SchedulerEntry
write_enabled index enabled [] = []
write_enabled ℕ.zero enabled (entry ∷ entries) = record entry { enabled = enabled } ∷ entries
write_enabled (suc index) enabled (entry ∷ entries) = entry ∷ write_enabled index enabled entries

module _ {D V H : Type 0} where
  unfoldable pub scheduler_service_init : Pointer → Pointer → Op D V H (Unit {0})
  scheduler_service_init state_store program_service d = (
    record d {
      scheduler_service = record {
        state_store = state_store;
        program_service = program_service;
        entries = [];
      };
    },
    tt,
  )

  -- After the second loop: the entries are copied, if it has ended well.
  unfoldable pub finish_install : List SchedulerEntry → IrrigationResult → Op D V H IrrigationResult
  finish_install entries result d =
      let service = d.scheduler_service in
      if not (is_ok result)
      then (d, result)
      else (record d { scheduler_service = record service { entries = entries } }, ok)

  -- After the first loop.
  unfoldable pub install_entries :
      List SchedulerEntry → List (ℕ × ScheduleOccurrenceStatus) → Op D V H IrrigationResult
  unfolding restore_loop finish_install
  install_entries entries kept = do
    configured ← on_store (λ s. state_store_configure_scheduler s (length entries))
    if not (is_ok configured)
        then return configured
        else (do restored ← on_store (restore_loop 0 kept); finish_install entries restored)

  -- `entries` is NULL with a count of 0 where the list is empty.
  unfoldable pub scheduler_service_configure : List SchedulerEntry → Op D V H IrrigationResult
  unfolding check_entries install_entries
  scheduler_service_configure entries d =
      let service = d.scheduler_service in
      if is_null service.state_store || ltb max_schedules (length entries)
      then (d, rejected)
      else elim (check_entries d.store service.entries [] entries) [
        | none ↦ (d, rejected)
        | some kept ↦ install_entries entries kept d
      ]

  unfoldable pub scheduler_service_set_enabled : ℕ → Bool → Op D V H IrrigationResult
  scheduler_service_set_enabled entry_index enabled d =
      let service = d.scheduler_service in
      if leb (length service.entries) entry_index
      then (d, not_found)
      else (do
        result ← on_store (λ s. state_store_reset_schedule_occurrence s entry_index)
        if is_ok result
            then (λ d'. (
              record d' {
                scheduler_service = record service {
                  entries = write_enabled entry_index enabled service.entries;
                };
              },
              result,
            ))
            else return result)
          d
