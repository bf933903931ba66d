-- ===== src/ZoneService/Untouched.antt =====
-- The bodies of the zone service leave the program and the schedule alone.
use irrigation_controller.Prelude.{
  ℕ, ◌==◌, ◌≡◌, refl, ap, ◌∙◌, inl, inr, true, false, not, if◌then◌else◌, Option, none, some, Text,
  arith, Option-cases, if_split,
}
use irrigation_controller.Result.{IrrigationResult, is_ok, Checked-cases}
use irrigation_controller.StateStore.{
  StateStore, SystemState, OutputState, ProgramRuntimeState, off, unknown, state_store_snapshot,
}
use irrigation_controller.StateStore.Zones.{
  state_store_transition_system, state_store_get_zone, state_store_prepare_zone_open,
  state_store_open_zone, state_store_close_zone, state_store_record_zone_actuation_fault,
}
use irrigation_controller.StateStore.Tests.{
  is_idle, is_ready, is_open_or_fault, is_master_open, has_active_output, find_zone,
}
use irrigation_controller.Device.{
  Device, Op, ProgramService, on_store, set_output, read_clock, zone_start_precondition_check,
}
use irrigation_controller.ZoneService.{
  has_null_pointer, publish_zone_event, fault_zone, undo_open, give_up_open, record_open,
  actuate_open, prepare_and_open, open_from_ready, open_checked, zone_service_open_locked,
}
use irrigation_controller.ZoneService.Closing.{finish_close, zone_service_close_locked}

program-open_zone :
    (s : StateStore) (id : Option Text) (now duration : ℕ)
    → (state_store_open_zone s id now duration).0.program ≡ s.program
unfolding state_store_open_zone
program-open_zone s none now duration = refl
program-open_zone s (some id) now duration = ground arith

program-close_zone :
    (s : StateStore) (id : Option Text) → (state_store_close_zone s id).0.program ≡ s.program
unfolding state_store_close_zone
program-close_zone s none = refl
program-close_zone s (some id) = ground arith

program-zone_fault :
    (s : StateStore) (id : Option Text) (output : OutputState)
    → (state_store_record_zone_actuation_fault s id output).0.program ≡ s.program
unfolding state_store_record_zone_actuation_fault
program-zone_fault s none output = refl
program-zone_fault s (some id) output = ground arith

program-transition :
    (s : StateStore) (next : SystemState)
    → (state_store_transition_system s next).0.program ≡ s.program
unfolding state_store_transition_system
program-transition s next = ground arith

module _ {D V H : Type 0} where
  -- What the program service reads and writes of a device, but for the store's other parts.
  abbrev pub view : Device D V H → ProgramRuntimeState × ProgramService
  view d = (d.store.program, d.program_service)

  abbrev pub Same : Device D V H → Device D V H × IrrigationResult → Type 0
  Same d r = view r.0 ≡ view d

  on_store-Same :
      (d : Device D V H) (f : StateStore → StateStore × IrrigationResult)
      → (f d.store).0.program ≡ d.store.program
      → Same d (on_store f d)
  on_store-Same d f e = ap (λ p. (p, d.program_service)) e

  fault_zone-Same :
      (d : Device D V H) (id : Option Text) (output : OutputState) → Same d (fault_zone id output d)
  unfolding fault_zone publish_zone_event
  fault_zone-Same d id output =
      let r = on_store (λ s. state_store_record_zone_actuation_fault s id output) d in
      let kept =
        on_store-Same d (λ s. state_store_record_zone_actuation_fault s id output)
          (program-zone_fault d.store id output) in
      if_split (λ (m : Op D V H IrrigationResult). Same d (m r.0)) (is_ok r.1) _ _ (λ _. kept)
        (λ _. kept)

  record_open-Same :
      (d : Device D V H) (id : Option Text) (index duration : ℕ)
      → Same d (record_open id index duration d)
  unfolding record_open undo_open publish_zone_event
  record_open-Same d id index duration =
      let (d₁, now) = read_clock d in
      let r = on_store (λ s. state_store_open_zone s id now duration) d₁ in
      let kept =
        on_store-Same d₁ (λ s. state_store_open_zone s id now duration)
          (program-open_zone d.store id now duration) in
      if_split (λ (m : Op D V H IrrigationResult). Same d (m r.0)) (not (is_ok r.1)) _ _
        (λ _. fault_zone-Same (set_output index false r.0).0 id unknown ∙ kept) (λ _. kept)

  actuate_open-Same :
      (d : Device D V H) (id : Option Text) (index duration : ℕ)
      → Same d (actuate_open id index duration d)
  unfolding actuate_open give_up_open
  actuate_open-Same d id index duration =
      let r = set_output index true d in
      if_split (λ (m : Op D V H IrrigationResult). Same d (m r.0)) (not (is_ok r.1)) _ _
        (λ _.
          fault_zone-Same (set_output index false r.0).0 id
            (if is_ok (set_output index false r.0).1 then off else unknown))
        (λ _. record_open-Same r.0 id index duration)

  prepare_and_open-Same :
      (d : Device D V H) (id : Option Text) (duration : ℕ) → Same d (prepare_and_open id duration d)
  unfolding prepare_and_open
  prepare_and_open-Same d id duration =
      elim (Checked-cases (state_store_prepare_zone_open d.store id)) [
        | inl (result, e) ↦ rw (e, prepare_and_open) refl
        | inr ((index, configured), e) ↦
            rw (e, prepare_and_open)
              (actuate_open-Same d id index (if duration == 0 then configured else duration))
      ]

  open_from_ready-Same :
      (d : Device D V H) (id : Option Text) (duration : ℕ) → Same d (open_from_ready id duration d)
  unfolding open_from_ready
  open_from_ready-Same d id duration =
      let r = on_store (λ s. state_store_transition_system s SystemState.manual) d in
      let kept =
        on_store-Same d (λ s. state_store_transition_system s SystemState.manual)
          (program-transition d.store SystemState.manual) in
      if_split (Same d) (is_ready d.store.system_state) _ _
        (λ _.
          if_split (λ (m : Op D V H IrrigationResult). Same d (m r.0)) (not (is_ok r.1)) _ _
            (λ _. kept) (λ _. prepare_and_open-Same r.0 id duration ∙ kept))
        (λ _. prepare_and_open-Same d id duration)

  pub open_locked-Same :
      (d : Device D V H) (id : Option Text) (duration : ℕ)
      → Same d (zone_service_open_locked id duration d)
  unfolding zone_service_open_locked open_checked state_store_get_zone
  open_locked-Same d id duration =
      if_split (Same d) (has_null_pointer d.zone_service id) _ _ (λ _. refl)
        (λ _. elim (Option-cases (find_zone d.store id)) [
          | inl missing ↦ rw missing refl
          | inr (zone, found) ↦ rw found (
              if_split (Same d) (not (is_idle zone.state)) _ _ (λ _. refl)
                (λ _.
                  if_split (Same d)
                    (not (is_master_open (state_store_snapshot d.store).master_valve.state)) _ _
                    (λ _. refl)
                    (λ _.
                      if_split (Same d)
                        (has_active_output (state_store_snapshot d.store).output_states) _ _
                        (λ _. refl)
                        (λ _.
                          if_split (Same d)
                            (not (
                              is_ok (
                                zone_start_precondition_check d.zone_service.start_precondition
                                  d.store)))
                            _ _ (λ _. refl) (λ _. open_from_ready-Same d id duration)))))
        ])

  finish_close-Same :
      (d : Device D V H) (id : Option Text) (answer : IrrigationResult)
      → Same d (finish_close id answer d)
  unfolding finish_close publish_zone_event
  finish_close-Same d id answer =
      let r = on_store (λ s. state_store_close_zone s id) d in
      let kept =
        on_store-Same d (λ s. state_store_close_zone s id) (program-close_zone d.store id) in
      if_split (λ (m : Op D V H IrrigationResult). Same d (m d)) (not (is_ok answer)) _ _
        (λ _. fault_zone-Same d id unknown)
        (λ _.
          if_split (λ (m : Op D V H IrrigationResult). Same d (m r.0)) (is_ok r.1) _ _ (λ _. kept)
            (λ _. kept))

  pub close_locked-Same :
      (d : Device D V H) (id : Option Text) → Same d (zone_service_close_locked id d)
  unfolding zone_service_close_locked state_store_get_zone
  close_locked-Same d id =
      if_split (Same d) (has_null_pointer d.zone_service id) _ _ (λ _. refl)
        (λ _. elim (Option-cases (find_zone d.store id)) [
          | inl missing ↦ rw missing refl
          | inr (zone, found) ↦ rw found (
              if_split (Same d) (not (is_open_or_fault zone.state)) _ _ (λ _. refl)
                (λ _. finish_close-Same (set_output zone.output_index false d).0 id _))
        ])
