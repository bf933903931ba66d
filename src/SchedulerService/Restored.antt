-- ===== src/SchedulerService/Restored.antt =====
-- What a configuration of the scheduler does with the occurrences that were handled.
use irrigation_controller.Prelude.{
  ℕ, ◌≡◌, ◌≤◌, ◌<◌, refl, ap, if_split, ◌∙◌, inl, inr, true, false, ◌||◌, some, List, [], arith,
  All, take, Bool-cases, Option-cases, is_null, length, ltb, get_elem?,
}
use irrigation_controller.Result.{IrrigationResult, is_ok, passed}
use irrigation_controller.Domain.{max_schedules}
use irrigation_controller.StateStore.{
  StateStore, ScheduleOccurrenceStatus, schedule_occurrence_unhandled,
}
use irrigation_controller.StateStore.Scheduler.{is_no_status, state_store_get_schedule_occurrence}
use irrigation_controller.Device.{Device, SchedulerEntry}
use irrigation_controller.SchedulerService.{
  entries_are_unchanged, preserve, check_entries, restore_loop, finish_install, install_entries,
  scheduler_service_configure,
}
use irrigation_controller.SchedulerService.Configured.{
  restore_loop-SameShape, counted_store, configure_scheduler_lem,
}
use irrigation_controller.SchedulerService.Restoring.{
  Occurrence, restored, HasPlaces, check_entries-kept, restore_loop-restored, length-check_entries,
  within, get_occurrence_lem, preserve-first, preserve-none,
}

module _ {D V H : Type 0} where
  abbrev KeptAt : ℕ → Occurrence → Device D V H × IrrigationResult → Type 0
  KeptAt index x r =
      is_ok r.1 ≡ true → state_store_get_schedule_occurrence r.0.store index ≡ passed (restored x)

  finish_install-KeptAt :
      (entries : List SchedulerEntry) (result : IrrigationResult) (d : Device D V H) (index : ℕ)
      (x : Occurrence)
      → (is_ok result ≡ true
          → state_store_get_schedule_occurrence d.store index ≡ passed (restored x))
      → KeptAt index x (finish_install entries result d)
  unfolding finish_install
  finish_install-KeptAt entries result d index x kept = elim (Bool-cases (is_ok result)) [
    | inl fine ↦ rw (fine, finish_install) (λ e. kept fine)
    | inr stop ↦ rw (stop, finish_install) (λ e. absurd (ground arith))
  ]

  install_entries-KeptAt :
      (d : Device D V H) (entries : List SchedulerEntry) (kept : List Occurrence) (index : ℕ)
      (x : Occurrence)
      → HasPlaces d.store
      → length entries ≤ max_schedules
      → length kept ≡ length entries
      → index < length entries
      → get_elem? kept index ≡ some x
      → KeptAt index x (install_entries entries kept d)
  unfolding install_entries
  install_entries-KeptAt d entries kept index x places few long counted found =
      rw (configure_scheduler_lem d.store (length entries) few) (
        finish_install-KeptAt entries (restore_loop 0 kept s₁).1
          (record d { store = (restore_loop 0 kept s₁).0 }) index x
          (λ fine.
            get_occurrence_lem (restore_loop 0 kept s₁).0 index
              (omega (arith, (restore_loop-SameShape 0 kept s₁).0))
            ∙ ap passed (
                restore_loop-restored 0 kept s₁ index index x places (omega arith) fine found
                  (omega arith))))
    where
      s₁ : StateStore
      s₁ = counted_store d.store (length entries)

  -- The result of a configuration that is taken, at the place of an entry.
  configured_at :
      (d : Device D V H) (entries : List SchedulerEntry) (index : ℕ) (entry : SchedulerEntry)
      → HasPlaces d.store
      → get_elem? entries index ≡ some entry
      → KeptAt index
          (preserve d.store entry 0 d.scheduler_service.entries)
          (scheduler_service_configure entries d)
  unfolding scheduler_service_configure
  configured_at d entries index entry places found =
      let x = preserve d.store entry 0 d.scheduler_service.entries in
      if_split (KeptAt index x)
        (is_null d.scheduler_service.state_store || ltb max_schedules (length entries)) _ _
        (λ _ e. absurd (ground arith))
        (λ fits.
          elim (Option-cases (check_entries d.store d.scheduler_service.entries [] entries)) [
            | inl stop ↦ rw stop (λ e. absurd (ground arith))
            | inr (kept, good) ↦ rw good (
                install_entries-KeptAt d entries kept index x places (ground arith)
                  (length-check_entries d.store d.scheduler_service.entries [] entries kept good)
                  (within entries index entry found)
                  (check_entries-kept d.store d.scheduler_service.entries [] entries kept index
                    entry good found))
          ])

  -- A configuration that returns OK, while the store has its places for occurrences: an entry that
  -- the scheduler had already, unchanged, at a place that has handled an occurrence keeps that
  -- occurrence and its status. No entry before that place is the same.
  pub configure-keeps :
      (d : Device D V H) (entries : List SchedulerEntry) (i j : ℕ) (entry old : SchedulerEntry)
      (occurrence : ℕ) (status : ScheduleOccurrenceStatus)
      → HasPlaces d.store
      → get_elem? entries i ≡ some entry
      → get_elem? d.scheduler_service.entries j ≡ some old
      → entries_are_unchanged entry old ≡ true
      → All
          (λ other. entries_are_unchanged entry other ≡ false)
          (take j d.scheduler_service.entries)
      → state_store_get_schedule_occurrence d.store j ≡ passed (occurrence, status)
      → is_no_status status ≡ false
      → let (d', result) = scheduler_service_configure entries d in
        is_ok result ≡ true
        → state_store_get_schedule_occurrence d'.store i ≡ passed (occurrence, status)
  configure-keeps d entries i j entry old occurrence status places found stood same others held
        handled good =
      configured_at d entries i entry places found good
      ∙ ap (λ x. passed (restored x))
          (preserve-first d.store entry 0 d.scheduler_service.entries j j old _ stood others same
            held (omega arith))
      ∙ rw handled refl

  -- A configuration that returns OK, while the store has its places for occurrences: an entry that is
  -- the same as none that the scheduler had is unhandled.
  pub configure-clears :
      (d : Device D V H) (entries : List SchedulerEntry) (i : ℕ) (entry : SchedulerEntry)
      → HasPlaces d.store
      → get_elem? entries i ≡ some entry
      → All (λ other. entries_are_unchanged entry other ≡ false) d.scheduler_service.entries
      → let (d', result) = scheduler_service_configure entries d in
        is_ok result ≡ true
        → state_store_get_schedule_occurrence d'.store i
          ≡ passed (schedule_occurrence_unhandled, ScheduleOccurrenceStatus.none)
  configure-clears d entries i entry places found others good =
      configured_at d entries i entry places found good
      ∙ ap (λ x. passed (restored x))
          (preserve-none d.store entry 0 d.scheduler_service.entries others)
