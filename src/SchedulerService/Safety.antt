-- ===== src/SchedulerService/Safety.antt =====
-- Every operation of the scheduler keeps the store consistent.
use irrigation_controller.Prelude.{
  ℕ, suc, ◌≡◌, subst, inl, inr, Bool, not, ◌||◌, List, [], ◌∷◌, arith, Option-cases, if_split,
  is_null, get_or, set, ltb, leb, length,
}
use irrigation_controller.Result.{IrrigationResult, is_ok}
use irrigation_controller.Domain.{max_schedules}
use irrigation_controller.StateStore.{
  StateStore, SchedulerRuntimeState, ScheduleOccurrenceStatus, state_store_snapshot,
}
use irrigation_controller.StateStore.Scheduler.{
  state_store_configure_scheduler, state_store_reset_schedule_occurrence,
  state_store_record_schedule_occurrence,
}
use irrigation_controller.StateStore.Consistent.{IsConsistent}
use irrigation_controller.Device.{Device, Op, SchedulerTime, SchedulerEntry, on_store}
use irrigation_controller.ProgramService.{program_service_is_active}
use irrigation_controller.ProgramService.Safety.{start-IsConsistent}
use irrigation_controller.SchedulerService.{
  occurrence_for, scheduler_time_is_valid, is_due, program_of, scheduled, check_entries,
  restore_occurrence, restore_loop, finish_install, install_entries, scheduler_service_configure,
  scheduler_service_set_enabled,
}
use irrigation_controller.SchedulerService.Processing.{
  handle_entry, handle_and_record, process_loop, scheduler_service_process,
}

-- The scheduler's part of the store is all that an operation changes.
abbrev OnlyScheduler : StateStore → StateStore → Type 0
OnlyScheduler s s' = record s { scheduler = s'.scheduler } ≡ s'

scheduler-IsConsistent :
    (s : StateStore) (scheduler : SchedulerRuntimeState)
    → IsConsistent s
    → IsConsistent (record s { scheduler = scheduler })
scheduler-IsConsistent s scheduler (h, held) = (
  h,
  record {
    places = held.places;
    distinct = held.distinct;
    zones = held.zones;
    dark = held.dark;
    watered = held.watered;
  },
)

OnlyScheduler-IsConsistent :
    (s s' : StateStore) → OnlyScheduler s s' → IsConsistent s → IsConsistent s'
OnlyScheduler-IsConsistent s s' only c =
    subst IsConsistent only (scheduler-IsConsistent s s'.scheduler c)

configure_scheduler-IsConsistent :
    (s : StateStore) (count : ℕ)
    → IsConsistent s
    → IsConsistent (state_store_configure_scheduler s count).0
unfolding state_store_configure_scheduler
configure_scheduler-IsConsistent s count c = OnlyScheduler-IsConsistent s _ (ground arith) c

reset-IsConsistent :
    (s : StateStore) (index : ℕ)
    → IsConsistent s
    → IsConsistent (state_store_reset_schedule_occurrence s index).0
unfolding state_store_reset_schedule_occurrence
reset-IsConsistent s index c = OnlyScheduler-IsConsistent s _ (ground arith) c

record-IsConsistent :
    (s : StateStore) (index occurrence : ℕ) (status : ScheduleOccurrenceStatus)
    → IsConsistent s
    → IsConsistent (state_store_record_schedule_occurrence s index occurrence status).0
unfolding state_store_record_schedule_occurrence
record-IsConsistent s index occurrence status c = OnlyScheduler-IsConsistent s _ (ground arith) c

restore_occurrence-IsConsistent :
    (s : StateStore) (index : ℕ) (kept : ℕ × ScheduleOccurrenceStatus)
    → IsConsistent s
    → IsConsistent (restore_occurrence index kept s).0
unfolding restore_occurrence state_store_reset_schedule_occurrence
    state_store_record_schedule_occurrence
restore_occurrence-IsConsistent s index kept c = OnlyScheduler-IsConsistent s _ (ground arith) c

restore_loop-IsConsistent :
    (index : ℕ) (kept : List (ℕ × ScheduleOccurrenceStatus)) (s : StateStore)
    → IsConsistent s
    → IsConsistent (restore_loop index kept s).0
unfolding restore_loop
restore_loop-IsConsistent index [] s c = c
restore_loop-IsConsistent index (kept ∷ rest) s c =
    let r = restore_occurrence index kept s in
    let kept' = restore_occurrence-IsConsistent s index kept c in
    if_split (λ (r : StateStore × IrrigationResult). IsConsistent r.0) (is_ok r.1) _ _
      (λ _. restore_loop-IsConsistent (suc index) rest r.0 kept') (λ _. kept')

module _ {D V H : Type 0} where
  abbrev Keeps {ℓ} : {A : Type ℓ} → Device D V H × A → Type 0
  Keeps r = IsConsistent r.0.store

  install_entries-Keeps :
      (d : Device D V H) (entries : List SchedulerEntry)
      (kept : List (ℕ × ScheduleOccurrenceStatus))
      → IsConsistent d.store
      → Keeps (install_entries entries kept d)
  unfolding install_entries finish_install
  install_entries-Keeps d entries kept c =
      if_split (λ (m : Op D V H IrrigationResult). Keeps (m r.0)) (not (is_ok r.1)) _ _
        (λ _. counted) (λ _. if_split Keeps (not (is_ok q.1)) _ _ (λ _. restored) (λ _. restored))
    where
      r : Device D V H × IrrigationResult
      r = on_store (λ s. state_store_configure_scheduler s (length entries)) d

      counted : Keeps r
      counted = configure_scheduler-IsConsistent d.store (length entries) c

      q : Device D V H × IrrigationResult
      q = on_store (restore_loop 0 kept) r.0

      restored : Keeps q
      restored = restore_loop-IsConsistent 0 kept r.0.store counted

  pub configure-IsConsistent :
      (d : Device D V H) (entries : List SchedulerEntry)
      → IsConsistent d.store
      → IsConsistent (scheduler_service_configure entries d).0.store
  unfolding scheduler_service_configure
  configure-IsConsistent d entries c =
      if_split Keeps (is_null d.scheduler_service.state_store || ltb max_schedules (length entries))
        _ _ (λ _. c)
        (λ _. elim (Option-cases (check_entries d.store d.scheduler_service.entries [] entries)) [
          | inl stop ↦ rw stop c
          | inr (kept, good) ↦ rw good (install_entries-Keeps d entries kept c)
        ])

  pub set_enabled-IsConsistent :
      (d : Device D V H) (index : ℕ) (enabled : Bool)
      → IsConsistent d.store
      → IsConsistent (scheduler_service_set_enabled index enabled d).0.store
  unfolding scheduler_service_set_enabled
  set_enabled-IsConsistent d index enabled c =
      if_split Keeps (leb (length d.scheduler_service.entries) index) _ _ (λ _. c)
        (λ _.
          let r = on_store (λ s. state_store_reset_schedule_occurrence s index) d in
          let kept = reset-IsConsistent d.store index c in
          if_split (λ (m : Op D V H IrrigationResult). Keeps (m r.0)) (is_ok r.1) _ _ (λ _. kept)
            (λ _. kept))

  handle_and_record-Keeps :
      (d : Device D V H) (now : SchedulerTime) (index : ℕ) (entry : SchedulerEntry)
      → IsConsistent d.store
      → Keeps (handle_and_record now index entry d)
  unfolding handle_and_record handle_entry
  handle_and_record-Keeps d now index entry c =
      let r = handle_entry entry d in
      record-IsConsistent r.0.store index (occurrence_for now) r.1 (
        if_split Keeps (program_service_is_active d.program_service d.store) _ _ (λ _. c)
          (λ _. start-IsConsistent d (program_of entry) (scheduled entry) c))

  process_loop-Keeps :
      (now : SchedulerTime) (index : ℕ) (entries : List SchedulerEntry) (last_handled : List ℕ)
      (d : Device D V H)
      → IsConsistent d.store
      → Keeps (process_loop now index entries last_handled d)
  unfolding process_loop
  process_loop-Keeps now index [] last_handled d c = c
  process_loop-Keeps now index (entry ∷ entries) last_handled d c =
      if_split (λ (m : Op D V H (Unit {0})). Keeps (m d))
        (is_due now entry (get_or last_handled index 0)) _ _
        (λ _.
          process_loop-Keeps now (suc index) entries (set last_handled index (occurrence_for now))
            (handle_and_record now index entry d).0 (handle_and_record-Keeps d now index entry c))
        (λ _. process_loop-Keeps now (suc index) entries last_handled d c)

  pub process-IsConsistent :
      (d : Device D V H) (now : SchedulerTime)
      → IsConsistent d.store
      → IsConsistent (scheduler_service_process now d).0.store
  unfolding scheduler_service_process
  process-IsConsistent d now c =
      if_split Keeps
        (is_null d.scheduler_service.state_store
          || is_null d.scheduler_service.program_service
          || not (scheduler_time_is_valid now))
        _ _ (λ _. c)
        (λ _.
          process_loop-Keeps now 0 d.scheduler_service.entries
            (state_store_snapshot d.store).scheduler.last_handled_occurrence d c)
