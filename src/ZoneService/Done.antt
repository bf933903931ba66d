-- ===== src/ZoneService/Done.antt =====
-- What an open or a close that has returned OK leaves in the store.
use irrigation_controller.Prelude.{
  ℕ, ◌==◌, ◌≡◌, refl, sym, ap, subst, ◌∙◌, inl, inr, true, false, not, if◌then◌else◌, Option, some,
  List, [], ◌∷◌, Text, arith, Option-cases, Bool-cases, if_split,
}
use irrigation_controller.Prelude.Tests.{text_eq}
use irrigation_controller.Result.{IrrigationResult, is_ok, refused, Checked-cases}
use irrigation_controller.StateStore.{
  StateStore, SystemState, ZoneRuntimeState, ZoneState, on, off, state_store_snapshot,
}
use irrigation_controller.StateStore.Zones.{
  state_store_transition_system, state_store_get_zone, state_store_prepare_zone_open, closed_zone,
  opened_zone, settle_system, write_zone, state_store_open_zone, state_store_close_zone,
}
use irrigation_controller.StateStore.Tests.{
  is_idle, is_ready, is_open_or_fault, is_master_open, has_active_output, find_zone, find_in,
  write_in,
}
use irrigation_controller.StateStore.Outcomes.{
  OpenOutcome, CloseOutcome, open_zone_cases, close_zone_cases,
}
use irrigation_controller.Device.{
  Device, Op, on_store, set_output, read_clock, zone_start_precondition_check,
}
use irrigation_controller.ZoneService.{
  has_null_pointer, publish_zone_event, undo_open, give_up_open, record_open, actuate_open,
  prepare_and_open, open_from_ready, open_checked, zone_service_open_locked, operation_lock_acquire,
  with_operation_lock, zone_service_open,
}
use irrigation_controller.ZoneService.Closing.{
  finish_close, zone_service_close_locked, zone_service_close,
}

-- The store finds the zone, in the state.
abbrev pub HasZone : Option Text → ZoneState → StateStore → Type 0
HasZone id state s = (zone : ZoneRuntimeState) × (find_zone s id ≡ some zone) × (zone.state ≡ state)

find_in-write_in :
    (zones : List ZoneRuntimeState) (key : Text) (zone zone' : ZoneRuntimeState)
    → find_in zones key ≡ some zone
    → zone'.zone_id ≡ zone.zone_id
    → find_in (write_in zones key zone') key ≡ some zone'
unfolding find_in write_in
find_in-write_in [] key zone zone' found same = absurd (ground arith)
find_in-write_in (x ∷ zones) key zone zone' found same = elim (Bool-cases (text_eq x.zone_id key)) [
  | inl here ↦
      let it : x ≡ zone = ground arith in
      let still : text_eq zone'.zone_id key ≡ true =
        subst (λ id. text_eq id key ≡ true) (ap (λ z. z.zone_id) it ∙ sym same) here in
      rw (here, still) refl
  | inr other ↦ ground (arith, find_in-write_in zones key zone zone' (ground arith) same)
]

settle_system-zones : (s : StateStore) → (settle_system s).zones ≡ s.zones
settle_system-zones s = ground arith

abbrev Done : ZoneState → Option Text → StateStore × IrrigationResult → Type 0
Done state id r = is_ok r.1 ≡ true → HasZone id state r.0

open_zone-Done :
    (s : StateStore) (id : Option Text) (now duration : ℕ)
    → Done ZoneState.opened id (state_store_open_zone s id now duration)
unfolding find_zone
open_zone-Done s id now duration done = open_outcome (open_zone_cases s id now duration)
  where
    open_outcome :
        OpenOutcome s id now duration (state_store_open_zone s id now duration)
        → HasZone id ZoneState.opened (state_store_open_zone s id now duration).0
    open_outcome (OpenOutcome.refusal same stopped) = absurd (ground arith)
    open_outcome (OpenOutcome.opening key zone named found idle manual valve quiet result) =
        let zone' = opened_zone zone now duration in
        subst (λ r. HasZone id ZoneState.opened r.0) (sym result)
          (subst (λ id. HasZone id ZoneState.opened (write_zone s (some key) zone' on)) (sym named)
            (zone', find_in-write_in s.zones key zone zone' found refl, refl))

close_zone-Done :
    (s : StateStore) (id : Option Text) → Done ZoneState.idle id (state_store_close_zone s id)
unfolding find_zone
close_zone-Done s id done = close_outcome (close_zone_cases s id)
  where
    close_outcome :
        CloseOutcome s id (state_store_close_zone s id)
        → HasZone id ZoneState.idle (state_store_close_zone s id).0
    close_outcome (CloseOutcome.refusal same stopped) = absurd (ground arith)
    close_outcome (CloseOutcome.closing key zone named found live result) =
        let zone' = closed_zone zone in
        let s' = settle_system (write_zone s (some key) zone' off) in
        let written : find_in s'.zones key ≡ some zone' =
          ap (λ zones. find_in zones key) (settle_system-zones (write_zone s (some key) zone' off))
          ∙ find_in-write_in s.zones key zone zone' found refl in
        subst (λ r. HasZone id ZoneState.idle r.0) (sym result)
          (subst (λ id. HasZone id ZoneState.idle s') (sym named) (zone', written, refl))

prepare_refused :
    (s : StateStore) (id : Option Text) (result : IrrigationResult)
    → state_store_prepare_zone_open s id ≡ refused result
    → is_ok result ≡ false
unfolding state_store_prepare_zone_open
prepare_refused s id result e = ground arith

module _ {D V H : Type 0} where
  abbrev DoneBy : ZoneState → Option Text → Device D V H × IrrigationResult → Type 0
  DoneBy state id r = is_ok r.1 ≡ true → HasZone id state r.0.store

  record_open-Done :
      (d : Device D V H) (id : Option Text) (index duration : ℕ)
      → DoneBy ZoneState.opened id (record_open id index duration d)
  unfolding record_open undo_open publish_zone_event
  record_open-Done d id index duration =
      let (d₁, now) = read_clock d in
      let r = on_store (λ s. state_store_open_zone s id now duration) d₁ in
      elim (Bool-cases (is_ok r.1)) [
        | inl fine ↦ rw fine (λ done. open_zone-Done d.store id now duration fine)
        | inr bad ↦ rw bad (λ done. absurd (ground arith))
      ]

  actuate_open-Done :
      (d : Device D V H) (id : Option Text) (index duration : ℕ)
      → DoneBy ZoneState.opened id (actuate_open id index duration d)
  unfolding actuate_open give_up_open
  actuate_open-Done d id index duration =
      let r = set_output index true d in
      elim (Bool-cases (is_ok r.1)) [
        | inl fine ↦ rw fine (record_open-Done r.0 id index duration)
        | inr bad ↦ rw bad (λ done. absurd (ground arith))
      ]

  prepare_and_open-Done :
      (d : Device D V H) (id : Option Text) (duration : ℕ)
      → DoneBy ZoneState.opened id (prepare_and_open id duration d)
  unfolding prepare_and_open
  prepare_and_open-Done d id duration =
      elim (Checked-cases (state_store_prepare_zone_open d.store id)) [
        | inl (result, e) ↦
            rw (e, prepare_and_open)
              (λ done. absurd (ground (arith, prepare_refused d.store id result e)))
        | inr ((index, configured), e) ↦
            rw (e, prepare_and_open)
              (actuate_open-Done d id index (if duration == 0 then configured else duration))
      ]

  open_from_ready-Done :
      (d : Device D V H) (id : Option Text) (duration : ℕ)
      → DoneBy ZoneState.opened id (open_from_ready id duration d)
  unfolding open_from_ready
  open_from_ready-Done d id duration =
      let r = on_store (λ s. state_store_transition_system s SystemState.manual) d in
      if_split (DoneBy ZoneState.opened id) (is_ready d.store.system_state) _ _
        (λ _. elim (Bool-cases (is_ok r.1)) [
          | inl fine ↦ rw fine (prepare_and_open-Done r.0 id duration)
          | inr bad ↦ rw bad (λ done. absurd (ground arith))
        ])
        (λ _. prepare_and_open-Done d id duration)

  open_checked-Done :
      (d : Device D V H) (id : Option Text) (duration : ℕ)
      → DoneBy ZoneState.opened id (open_checked id duration d)
  unfolding open_checked
  open_checked-Done d id duration =
      let answer = zone_start_precondition_check d.zone_service.start_precondition d.store in
      elim (Bool-cases (is_ok answer)) [
        | inl fine ↦ rw fine (open_from_ready-Done d id duration)
        | inr bad ↦ rw bad (λ done. absurd (ground (arith, bad)))
      ]

  open_locked-Done :
      (d : Device D V H) (id : Option Text) (duration : ℕ)
      → DoneBy ZoneState.opened id (zone_service_open_locked id duration d)
  unfolding zone_service_open_locked open_checked state_store_get_zone
  open_locked-Done d id duration =
      if_split (DoneBy ZoneState.opened id) (has_null_pointer d.zone_service id) _ _
        (λ _ done. absurd (ground arith))
        (λ _. elim (Option-cases (find_zone d.store id)) [
          | inl missing ↦ rw missing (λ done. absurd (ground arith))
          | inr (zone, found) ↦ rw found (
              if_split (DoneBy ZoneState.opened id) (not (is_idle zone.state)) _ _
                (λ _ done. absurd (ground arith))
                (λ _.
                  if_split (DoneBy ZoneState.opened id)
                    (not (is_master_open (state_store_snapshot d.store).master_valve.state)) _ _
                    (λ _ done. absurd (ground arith))
                    (λ _.
                      if_split (DoneBy ZoneState.opened id)
                        (has_active_output (state_store_snapshot d.store).output_states) _ _
                        (λ _ done. absurd (ground arith)) (λ _. open_checked-Done d id duration))))
        ])

  finish_close-Done :
      (d : Device D V H) (id : Option Text) (answer : IrrigationResult)
      → DoneBy ZoneState.idle id (finish_close id answer d)
  unfolding finish_close publish_zone_event
  finish_close-Done d id answer =
      let r = on_store (λ s. state_store_close_zone s id) d in
      elim (Bool-cases (is_ok answer)) [
        | inl fine ↦ rw fine (elim (Bool-cases (is_ok r.1)) [
          | inl closed ↦ rw closed (λ done. close_zone-Done d.store id closed)
          | inr bad ↦ rw bad (λ done. absurd (ground arith))
        ])
        | inr bad ↦ rw bad (λ done. absurd (ground arith))
      ]

  close_locked-Done :
      (d : Device D V H) (id : Option Text)
      → DoneBy ZoneState.idle id (zone_service_close_locked id d)
  unfolding zone_service_close_locked state_store_get_zone
  close_locked-Done d id =
      if_split (DoneBy ZoneState.idle id) (has_null_pointer d.zone_service id) _ _
        (λ _ done. absurd (ground arith))
        (λ _. elim (Option-cases (find_zone d.store id)) [
          | inl missing ↦ rw missing (λ done. absurd (ground arith))
          | inr (zone, found) ↦ rw found (
              if_split (DoneBy ZoneState.idle id) (not (is_open_or_fault zone.state)) _ _
                (λ _ done. absurd (ground arith))
                (λ _. let r = set_output zone.output_index false d in finish_close-Done r.0 id r.1))
        ])

  with_operation_lock-Done :
      (state : ZoneState) (id : Option Text) (body : Op D V H IrrigationResult) (d : Device D V H)
      → ((d : Device D V H) → DoneBy state id (body d))
      → DoneBy state id (with_operation_lock body d)
  unfolding with_operation_lock operation_lock_acquire
  with_operation_lock-Done state id body d done =
      if_split (λ (m : Op D V H IrrigationResult). DoneBy state id (m (operation_lock_acquire d).0))
        (operation_lock_acquire d).1 _ _ (λ free. done (operation_lock_acquire d).0)
        (λ taken refused_. absurd (ground arith))

  -- An open that returns OK leaves the zone OPEN.
  pub open-Done :
      (d : Device D V H) (id : Option Text) (duration : ℕ)
      → DoneBy ZoneState.opened id (zone_service_open id duration d)
  unfolding zone_service_open
  open-Done d id duration =
      with_operation_lock-Done ZoneState.opened id (zone_service_open_locked id duration) d
        (λ d. open_locked-Done d id duration)

  -- A close that returns OK leaves the zone IDLE.
  pub close-Done :
      (d : Device D V H) (id : Option Text) → DoneBy ZoneState.idle id (zone_service_close id d)
  unfolding zone_service_close
  close-Done d id =
      with_operation_lock-Done ZoneState.idle id (zone_service_close_locked id) d
        (λ d. close_locked-Done d id)
