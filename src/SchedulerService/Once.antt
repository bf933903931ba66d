-- ===== src/SchedulerService/Once.antt =====
-- The scheduler handles an occurrence of an entry once.
use irrigation_controller.Prelude.{
  ℕ, suc, ◌+◌, ◌≡◌, ◌≢◌, ◌≤◌, ◌<◌, refl, sym, ap, subst, ◌∙◌, inl, inr, true, false, List, [], ◌∷◌,
  arith, Bool-cases, length, get_or, set, get_or-set_self, get_or-set_ne, length-set,
}
use irrigation_controller.Result.{ok, rejected}
use irrigation_controller.Domain.{max_schedules}
use irrigation_controller.StateStore.{state_store_snapshot}
use irrigation_controller.StateStore.Scheduler.{state_store_record_schedule_occurrence}
use irrigation_controller.Device.{Device, SchedulerTime, SchedulerEntry}
use irrigation_controller.SchedulerService.{occurrence_for, is_due}
use irrigation_controller.SchedulerService.Processing.{
  handle_entry, handle_and_record, process_loop, scheduler_service_process,
}
use irrigation_controller.SchedulerService.Frame.{
  NoneDue, refuses, is_due_handled, view-handle_entry,
}

module _ {D V H : Type 0} where
  abbrev last : Device D V H → List ℕ
  last d = d.store.scheduler.last_handled_occurrence

  abbrev count : Device D V H → ℕ
  count d = d.store.scheduler.entry_count

  -- What a round writes, for the scheduler.
  record Handled (now : SchedulerTime) (index : ℕ) (d d' : Device D V H) : Type 0 where
    service : d'.scheduler_service ≡ d.scheduler_service
    entries : count d' ≡ count d
    written : last d' ≡ set (last d) index (occurrence_for now)

  handle_and_record-Handled :
      (d : Device D V H) (now : SchedulerTime) (index : ℕ) (entry : SchedulerEntry)
      → index < count d
      → Handled now index d (handle_and_record now index entry d).0
  unfolding handle_and_record state_store_record_schedule_occurrence
  handle_and_record-Handled d now index entry below =
      let r = handle_entry entry d in
      let (same, named) = view-handle_entry d entry in
      let before : r.0.store.scheduler ≡ d.store.scheduler = ap (λ p. p.0) same in
      let also : r.0.scheduler_service ≡ d.scheduler_service = ap (λ p. p.1) same in
      record { service = ground (arith); entries = ground arith; written = ground arith }

  process_loop-NoneDue :
      (now : SchedulerTime) (index : ℕ) (entries : List SchedulerEntry) (last_handled : List ℕ)
      (d : Device D V H)
      → NoneDue now index entries last_handled
      → process_loop now index entries last_handled d ≡ (d, tt)
  unfolding process_loop
  process_loop-NoneDue now index [] last_handled d h = refl
  process_loop-NoneDue now index (entry ∷ entries) last_handled d (e, h) =
      rw e (process_loop-NoneDue now (suc index) entries last_handled d h)

  -- The device after the rounds from `index` on.
  record IsHandled (now : SchedulerTime) (index : ℕ) (entries : List SchedulerEntry)
      (d d' : Device D V H) : Type 0 where
    service : d'.scheduler_service ≡ d.scheduler_service
    before : (j : ℕ) → j < index → get_or (last d') j 0 ≡ get_or (last d) j 0
    none_due : NoneDue now index entries (last d')

  process_loop-IsHandled :
      (now : SchedulerTime) (index : ℕ) (entries : List SchedulerEntry) (last_handled : List ℕ)
      (d : Device D V H)
      → index + length entries ≤ count d
      → index + length entries ≤ length (last d)
      → ((j : ℕ) → index ≤ j → get_or last_handled j 0 ≡ get_or (last d) j 0)
      → IsHandled now index entries d (process_loop now index entries last_handled d).0
  unfolding process_loop
  process_loop-IsHandled now index [] last_handled d c l agree = record {
    service = refl;
    before = λ j h. refl;
    none_due = tt;
  }
  process_loop-IsHandled now index (entry ∷ entries) last_handled d c l agree =
      elim (Bool-cases (is_due now entry (get_or last_handled index 0))) [
        | inl due ↦ rw due (
            round (
              process_loop-IsHandled now (suc index) entries
                (set last_handled index (occurrence_for now)) d₁ (omega (arith, h.entries))
                (omega (arith, places)) agree₁))
        | inr skip ↦ rw skip (
            skipped skip (
              process_loop-IsHandled now (suc index) entries last_handled d (omega arith)
                (omega arith) (λ j above. agree j (omega arith))))
      ]
    where
      d₁ : Device D V H
      d₁ = (handle_and_record now index entry d).0

      h : Handled now index d d₁
      h = handle_and_record-Handled d now index entry (omega arith)

      places : length (last d₁) ≡ length (last d)
      places = ap length h.written ∙ length-set (last d) index (occurrence_for now)

      others : (j : ℕ) → index ≢ j → get_or (last d₁) j 0 ≡ get_or (last d) j 0
      others j ne =
          ap (λ xs. get_or xs j 0) h.written
          ∙ get_or-set_ne (last d) index j (occurrence_for now) 0 ne

      agree₁ :
          (j : ℕ)
          → suc index ≤ j
          → get_or (set last_handled index (occurrence_for now)) j 0 ≡ get_or (last d₁) j 0
      agree₁ j above =
          get_or-set_ne last_handled index j (occurrence_for now) 0 (λ e. omega arith)
          ∙ agree j (omega arith)
          ∙ sym (others j (λ e. omega arith))

      here : get_or (last d₁) index 0 ≡ occurrence_for now
      here =
          ap (λ xs. get_or xs index 0) h.written
          ∙ get_or-set_self (last d) index (occurrence_for now) 0 (omega arith)

      round :
          {d₂ : Device D V H}
          → IsHandled now (suc index) entries d₁ d₂
          → IsHandled now index (entry ∷ entries) d d₂
      round r = record {
        service = r.service ∙ h.service;
        before = λ j below. r.before j (omega arith) ∙ others j (λ e. omega arith);
        none_due = (
          ap (is_due now entry) (r.before index (omega arith) ∙ here) ∙ is_due_handled now entry,
          r.none_due,
        );
      }

      skipped :
          {d₂ : Device D V H}
          → is_due now entry (get_or last_handled index 0) ≡ false
          → IsHandled now (suc index) entries d d₂
          → IsHandled now index (entry ∷ entries) d d₂
      skipped skip r = record {
        service = r.service;
        before = λ j below. r.before j (omega arith);
        none_due = (
          ap (is_due now entry) (r.before index (omega arith) ∙ sym (agree index (omega arith)))
              ∙ skip,
          r.none_due,
        );
      }

  process-refused :
      (d : Device D V H) (now : SchedulerTime)
      → refuses now d.scheduler_service ≡ true
      → scheduler_service_process now d ≡ (d, rejected)
  unfolding scheduler_service_process
  process-refused d now e = rw e refl

  process-runs :
      (d : Device D V H) (now : SchedulerTime)
      → refuses now d.scheduler_service ≡ false
      → scheduler_service_process now d
        ≡ ((process_loop now 0 d.scheduler_service.entries (last d) d).0, ok)
  unfolding scheduler_service_process state_store_snapshot
  process-runs d now e = rw e refl

  -- The store has a place for each entry of the scheduler.
  pub record IsConfigured (d : Device D V H) : Type 0 where
    pub counted : length d.scheduler_service.entries ≡ d.store.scheduler.entry_count
    pub bounded : d.store.scheduler.entry_count ≤ max_schedules
    pub places : length d.store.scheduler.last_handled_occurrence ≡ max_schedules

  -- After a pass at the time `now` of a configured scheduler, another pass at that time does
  -- nothing at all, whatever has changed in between outside the scheduler's part of the store.
  pub process-once :
      (d : Device D V H) (now : SchedulerTime) (e : Device D V H)
      → IsConfigured d
      → let (d', result) = scheduler_service_process now d in
        e.store.scheduler ≡ d'.store.scheduler
        → e.scheduler_service ≡ d'.scheduler_service
        → scheduler_service_process now e ≡ (e, result)
  process-once d now e g same kept = elim (Bool-cases (refuses now d.scheduler_service)) [
    | inl bad ↦
        let was = process-refused d now bad in
        let service : e.scheduler_service ≡ d.scheduler_service =
          kept ∙ ap (λ r. r.0.scheduler_service) was in
        process-refused e now (ap (refuses now) service ∙ bad) ∙ ap (λ r. (e, r.1)) (sym was)
    | inr good ↦
        let was = process-runs d now good in
        let done =
          process_loop-IsHandled now 0 d.scheduler_service.entries (last d) d
            (omega (arith, g.counted)) (omega (arith, g.counted, g.bounded, g.places))
            (λ j h. refl) in
        let service : e.scheduler_service ≡ d.scheduler_service =
          kept ∙ ap (λ r. r.0.scheduler_service) was ∙ done.service in
        let stored : last e ≡ last (process_loop now 0 d.scheduler_service.entries (last d) d).0 =
          ap (λ s. s.last_handled_occurrence) (same ∙ ap (λ r. r.0.store.scheduler) was) in
        let none_due : NoneDue now 0 e.scheduler_service.entries (last e) =
          subst (λ s. NoneDue now 0 s.entries (last e)) (sym service)
            (subst (NoneDue now 0 d.scheduler_service.entries) (sym stored) done.none_due) in
        process-runs e now (ap (refuses now) service ∙ good)
        ∙ ap (λ r. (r.0, ok))
            (process_loop-NoneDue now 0 e.scheduler_service.entries (last e) e none_due)
        ∙ ap (λ r. (e, r.1)) (sym was)
  ]
