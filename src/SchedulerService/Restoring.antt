-- ===== src/SchedulerService/Restoring.antt =====
-- The two loops of a configuration of the scheduler, which keep the occurrences that were handled.
use irrigation_controller.Prelude.{
  subst, not, ℕ, zero, suc, ◌+◌, ◌≡◌, ◌≢◌, ◌≤◌, ◌<◌, refl, sym, ap, if_split, if◌then◌else◌, ◌∙◌,
  inl, inr, true, false, ◌||◌, none, some, List, [], ◌∷◌, ◌++◌, arith, All, take, Bool-cases,
  Option-cases, length, length-set, get_elem?, get_or, get_or-set_self, get_or-set_ne,
}
use irrigation_controller.Result.{IrrigationResult, is_ok, passed}
use irrigation_controller.Domain.{max_schedules}
use irrigation_controller.StateStore.{
  StateStore, ScheduleOccurrenceStatus, schedule_occurrence_unhandled,
}
use irrigation_controller.StateStore.Scheduler.{
  is_no_status, state_store_reset_schedule_occurrence, state_store_get_schedule_occurrence,
  state_store_record_schedule_occurrence,
}
use irrigation_controller.Device.{SchedulerEntry}
use irrigation_controller.SchedulerService.{
  entries_are_unchanged, entry_is_valid, repeats_id, preserve, check_entries, restore_occurrence,
  restore_loop,
}

abbrev pub Occurrence : Type 0
Occurrence = ℕ × ScheduleOccurrenceStatus

-- The two places of an entry.
abbrev pub occurrence_at : StateStore → ℕ → Occurrence
occurrence_at s index = (
  get_or s.scheduler.last_handled_occurrence index 0,
  get_or s.scheduler.last_occurrence_status index ScheduleOccurrenceStatus.none,
)

-- What the second loop leaves for an occurrence.
abbrev pub restored : Occurrence → Occurrence
restored (occurrence, status) =
    if is_no_status status
    then (schedule_occurrence_unhandled, ScheduleOccurrenceStatus.none)
    else (occurrence, status)

abbrev pub HasPlaces : StateStore → Type 0
HasPlaces s =
    (length s.scheduler.last_handled_occurrence ≡ max_schedules)
    × (length s.scheduler.last_occurrence_status ≡ max_schedules)

found_in :
    (x entry : SchedulerEntry) (entries : List SchedulerEntry) (f : SchedulerEntry → Occurrence)
    (rest : List Occurrence) (index : ℕ)
    → ((i : ℕ) → get_elem? entries i ≡ some entry → get_elem? rest i ≡ some (f entry))
    → get_elem? (x ∷ entries) index ≡ some entry
    → get_elem? (f x ∷ rest) index ≡ some (f entry)
found_in x entry entries f rest zero later found =
    ap (λ o. elim o [ none ↦ none | some e ↦ some (f e) ]) found
found_in x entry entries f rest (suc index) later found = later index found

pub check_entries-kept :
    (store : StateStore) (old before entries : List SchedulerEntry) (kept : List Occurrence)
    (index : ℕ) (entry : SchedulerEntry)
    → check_entries store old before entries ≡ some kept
    → get_elem? entries index ≡ some entry
    → get_elem? kept index ≡ some (preserve store entry 0 old)
unfolding check_entries
check_entries-kept store old before [] kept index entry e found = absurd (ground arith)
check_entries-kept store old before (x ∷ entries) kept index entry e found =
    elim (Bool-cases (not (entry_is_valid x) || repeats_id x.id before)) [
      | inl bad ↦ absurd (ground arith)
      | inr fine ↦ elim (Option-cases (check_entries store old (before ++ x ∷ []) entries)) [
        | inl stop ↦ absurd (ground arith)
        | inr (rest, good) ↦
            let split : kept ≡ preserve store x 0 old ∷ rest = ground arith in
            rw split (
              found_in x entry entries (λ entry. preserve store entry 0 old) rest index
                (λ i. check_entries-kept store old (before ++ x ∷ []) entries rest i entry good)
                found)
      ]
    ]

restore_occurrence-HasPlaces :
    (index : ℕ) (kept : Occurrence) (s : StateStore)
    → HasPlaces s
    → HasPlaces (restore_occurrence index kept s).0
unfolding restore_occurrence state_store_reset_schedule_occurrence
    state_store_record_schedule_occurrence
restore_occurrence-HasPlaces index (occurrence, status) s places = grind (arith, length-set)

restore_occurrence_self :
    (index : ℕ) (kept : Occurrence) (s : StateStore)
    → HasPlaces s
    → index < max_schedules
    → is_ok (restore_occurrence index kept s).1 ≡ true
    → occurrence_at (restore_occurrence index kept s).0 index ≡ restored kept
unfolding restore_occurrence state_store_reset_schedule_occurrence
    state_store_record_schedule_occurrence
restore_occurrence_self index (occurrence, status) s places within good =
    grind (arith, get_or-set_self)

restore_occurrence-other :
    (index other : ℕ) (kept : Occurrence) (s : StateStore)
    → index ≢ other
    → occurrence_at (restore_occurrence index kept s).0 other ≡ occurrence_at s other
unfolding restore_occurrence state_store_reset_schedule_occurrence
    state_store_record_schedule_occurrence
restore_occurrence-other index other (occurrence, status) s apart = grind (arith, get_or-set_ne)

-- Earlier places stay as they are.
restore_loop-before :
    (index : ℕ) (kept : List Occurrence) (s : StateStore) (other : ℕ)
    → other < index
    → occurrence_at (restore_loop index kept s).0 other ≡ occurrence_at s other
unfolding restore_loop
restore_loop-before index [] s other before = refl
restore_loop-before index (x ∷ kept) s other before =
    let s' = (restore_occurrence index x s).0 in
    if_split
      (λ (r : StateStore × IrrigationResult). occurrence_at r.0 other ≡ occurrence_at s other)
      (is_ok (restore_occurrence index x s).1) _ _
      (λ _.
        restore_loop-before (suc index) kept s' other (omega arith)
        ∙ restore_occurrence-other index other x s (omega arith))
      (λ _. restore_occurrence-other index other x s (omega arith))

pub restore_loop-restored :
    (index : ℕ) (kept : List Occurrence) (s : StateStore) (i place : ℕ) (x : Occurrence)
    → HasPlaces s
    → index + length kept ≤ max_schedules
    → is_ok (restore_loop index kept s).1 ≡ true
    → get_elem? kept i ≡ some x
    → place ≡ index + i
    → occurrence_at (restore_loop index kept s).0 place ≡ restored x
unfolding restore_loop
restore_loop-restored index [] s i place x places within good found at_i = absurd (ground arith)
restore_loop-restored index (y ∷ kept) s zero place x places within good found at_i =
    let s' = (restore_occurrence index y s).0 in
    let same : y ≡ x = ground arith in
    elim (Bool-cases (is_ok (restore_occurrence index y s).1)) [
      | inl fine ↦
          rw (fine, restore_loop)
            (subst (λ place. occurrence_at (restore_loop (suc index) kept s').0 place ≡ restored x)
              (omega arith)
              (restore_loop-before (suc index) kept s' index (omega arith)
                ∙ restore_occurrence_self index y s places (omega arith) fine
                ∙ ap restored same))
      | inr stop ↦ absurd (ground arith)
    ]
restore_loop-restored index (y ∷ kept) s (suc i) place x places within good found at_i =
    let s' = (restore_occurrence index y s).0 in
    elim (Bool-cases (is_ok (restore_occurrence index y s).1)) [
      | inl fine ↦
          rw (fine, restore_loop)
            (restore_loop-restored (suc index) kept s' i place x
              (restore_occurrence-HasPlaces index y s places) (omega arith) (ground arith) found
              (omega arith))
      | inr stop ↦ absurd (ground arith)
    ]

pub length-check_entries :
    (store : StateStore) (old before entries : List SchedulerEntry) (kept : List Occurrence)
    → check_entries store old before entries ≡ some kept
    → length kept ≡ length entries
unfolding check_entries
length-check_entries store old before [] kept e = ground arith
length-check_entries store old before (x ∷ entries) kept e =
    elim (Bool-cases (not (entry_is_valid x) || repeats_id x.id before)) [
      | inl bad ↦ absurd (ground arith)
      | inr fine ↦ elim (Option-cases (check_entries store old (before ++ x ∷ []) entries)) [
        | inl stop ↦ absurd (ground arith)
        | inr (rest, good) ↦
            ground (arith, length-check_entries store old (before ++ x ∷ []) entries rest good)
      ]
    ]

pub within :
    (entries : List SchedulerEntry) (index : ℕ) (entry : SchedulerEntry)
    → get_elem? entries index ≡ some entry
    → index < length entries
within [] index entry found = absurd (ground arith)
within (x ∷ entries) zero entry found = omega arith
within (x ∷ entries) (suc index) entry found = omega (arith, within entries index entry found)

pub get_occurrence_lem :
    (s : StateStore) (index : ℕ)
    → index < s.scheduler.entry_count
    → state_store_get_schedule_occurrence s index ≡ passed (occurrence_at s index)
unfolding state_store_get_schedule_occurrence
get_occurrence_lem s index counted = ground arith

pub preserve-first :
    (s : StateStore) (entry : SchedulerEntry) (start : ℕ) (olds : List SchedulerEntry) (j place : ℕ)
    (old : SchedulerEntry) (x : Occurrence)
    → get_elem? olds j ≡ some old
    → All (λ other. entries_are_unchanged entry other ≡ false) (take j olds)
    → entries_are_unchanged entry old ≡ true
    → state_store_get_schedule_occurrence s place ≡ passed x
    → place ≡ start + j
    → preserve s entry start olds ≡ x
unfolding preserve
preserve-first s entry start [] j place old x found others same held at_j = absurd (ground arith)
preserve-first s entry start (o ∷ olds) zero place old x found others same held at_j =
    let it : o ≡ old = ground arith in
    let here : state_store_get_schedule_occurrence s start ≡ passed x =
      subst (λ place. state_store_get_schedule_occurrence s place ≡ passed x) (omega arith) held in
    rw (subst (λ o. entries_are_unchanged entry o ≡ true) (sym it) same, here, preserve) refl
preserve-first s entry start (o ∷ olds) (suc j) place old x found (other, others) same held at_j =
    rw (other, preserve)
      (preserve-first s entry (suc start) olds j place old x found others same held (omega arith))

pub preserve-none :
    (s : StateStore) (entry : SchedulerEntry) (start : ℕ) (olds : List SchedulerEntry)
    → All (λ other. entries_are_unchanged entry other ≡ false) olds
    → preserve s entry start olds ≡ (0, ScheduleOccurrenceStatus.none)
unfolding preserve
preserve-none s entry start [] others = refl
preserve-none s entry start (o ∷ olds) (other, others) =
    rw (other, preserve) (preserve-none s entry (suc start) olds others)
