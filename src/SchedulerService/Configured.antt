-- ===== src/SchedulerService/Configured.antt =====
-- A configuration that the scheduler takes is one that `Once` speaks about.
use irrigation_controller.Prelude.{
  ℕ, suc, ◌≡◌, ◌≤◌, refl, sym, if_split, ◌∙◌, inl, inr, true, ◌||◌, List, [], ◌∷◌, arith,
  Bool-cases, Option-cases, is_null, length, length-set, ltb,
}
use irrigation_controller.Result.{IrrigationResult, ok, is_ok}
use irrigation_controller.Domain.{max_schedules}
use irrigation_controller.StateStore.{
  StateStore, ScheduleOccurrenceStatus, schedule_occurrence_unhandled,
}
use irrigation_controller.StateStore.Scheduler.{
  state_store_configure_scheduler, state_store_reset_schedule_occurrence,
  state_store_record_schedule_occurrence,
}
use irrigation_controller.Device.{Device, SchedulerEntry}
use irrigation_controller.SchedulerService.{
  check_entries, restore_occurrence, restore_loop, finish_install, install_entries,
  scheduler_service_configure,
}
use irrigation_controller.SchedulerService.Once.{IsConfigured}

-- What the second loop leaves alone.
abbrev pub SameShape : StateStore → StateStore → Type 0
SameShape s s' =
    (s'.scheduler.entry_count ≡ s.scheduler.entry_count)
    × (length s'.scheduler.last_handled_occurrence ≡ length s.scheduler.last_handled_occurrence)

restore_occurrence-SameShape :
    (index : ℕ) (kept : ℕ × ScheduleOccurrenceStatus) (s : StateStore)
    → SameShape s (restore_occurrence index kept s).0
unfolding restore_occurrence state_store_reset_schedule_occurrence
    state_store_record_schedule_occurrence
restore_occurrence-SameShape index (occurrence, status) s =
    let cleared =
      length-set s.scheduler.last_handled_occurrence index schedule_occurrence_unhandled in
    let written = length-set s.scheduler.last_handled_occurrence index occurrence in
    (ground arith, ground (arith, cleared, written))

pub restore_loop-SameShape :
    (index : ℕ) (kept : List (ℕ × ScheduleOccurrenceStatus)) (s : StateStore)
    → SameShape s (restore_loop index kept s).0
unfolding restore_loop
restore_loop-SameShape index [] s = (refl, refl)
restore_loop-SameShape index (kept ∷ rest) s =
    let (count, places) = restore_occurrence-SameShape index kept s in
    let s' = (restore_occurrence index kept s).0 in
    let (count', places') = restore_loop-SameShape (suc index) rest s' in
    elim (Bool-cases (is_ok (restore_occurrence index kept s).1)) [
      | inl fine ↦ rw fine (count' ∙ count, places' ∙ places)
      | inr stop ↦ rw stop (count, places)
    ]

abbrev pub counted_store : StateStore → ℕ → StateStore
counted_store s count =
    let scheduler = s.scheduler in record s { scheduler = record scheduler { entry_count = count } }

pub configure_scheduler_lem :
    (s : StateStore) (count : ℕ)
    → count ≤ max_schedules
    → state_store_configure_scheduler s count ≡ (counted_store s count, ok)
unfolding state_store_configure_scheduler
configure_scheduler_lem s count few = ground arith

module _ {D V H : Type 0} where
  finish_install-IsConfigured :
      (entries : List SchedulerEntry) (result : IrrigationResult) (d : Device D V H)
      → length entries ≡ d.store.scheduler.entry_count
      → length entries ≤ max_schedules
      → length d.store.scheduler.last_handled_occurrence ≡ max_schedules
      → is_ok (finish_install entries result d).1 ≡ true
      → IsConfigured (finish_install entries result d).0
  unfolding finish_install
  finish_install-IsConfigured entries result d count few places = elim (Bool-cases (is_ok result)) [
    | inl fine ↦
        rw fine
          (λ e. record { counted = count; bounded = omega (arith, count, few); places = places })
    | inr stop ↦ rw stop (λ e. absurd (ground arith))
  ]

  install_entries-IsConfigured :
      (d : Device D V H) (entries : List SchedulerEntry)
      (kept : List (ℕ × ScheduleOccurrenceStatus))
      → length entries ≤ max_schedules
      → length d.store.scheduler.last_handled_occurrence ≡ max_schedules
      → is_ok (install_entries entries kept d).1 ≡ true
      → IsConfigured (install_entries entries kept d).0
  unfolding install_entries
  install_entries-IsConfigured d entries kept few places =
      rw (configure_scheduler_lem d.store (length entries) few) restored
    where
      s₁ : StateStore
      s₁ = counted_store d.store (length entries)

      restored :
          is_ok
              (finish_install entries
                (restore_loop 0 kept s₁).1
                (record d { store = (restore_loop 0 kept s₁).0 })).1
            ≡ true
          → IsConfigured
              (finish_install entries
                (restore_loop 0 kept s₁).1
                (record d { store = (restore_loop 0 kept s₁).0 })).0
      restored =
          finish_install-IsConfigured entries (restore_loop 0 kept s₁).1
            (record d { store = (restore_loop 0 kept s₁).0 })
            (sym (restore_loop-SameShape 0 kept s₁).0) few
            ((restore_loop-SameShape 0 kept s₁).1 ∙ places)

  -- A configuration of the scheduler that returns OK, while the store has its places for
  -- occurrences, leaves the scheduler configured: as many entries as the store counts, and no more
  -- than it has places.
  pub configure-IsConfigured :
      (d : Device D V H) (entries : List SchedulerEntry)
      → length d.store.scheduler.last_handled_occurrence ≡ max_schedules
      → is_ok (scheduler_service_configure entries d).1 ≡ true
      → IsConfigured (scheduler_service_configure entries d).0
  unfolding scheduler_service_configure
  configure-IsConfigured d entries places =
      if_split Fine (is_null d.scheduler_service.state_store || ltb max_schedules (length entries))
        _ _ (λ _ e. absurd (ground arith))
        (λ fits.
          elim (Option-cases (check_entries d.store d.scheduler_service.entries [] entries)) [
            | inl stop ↦ rw stop (λ e. absurd (ground arith))
            | inr (kept, good) ↦
                rw good (install_entries-IsConfigured d entries kept (ground arith) places)
          ])
    where
      Fine : Device D V H × IrrigationResult → Type 0
      Fine r = is_ok r.1 ≡ true → IsConfigured r.0
