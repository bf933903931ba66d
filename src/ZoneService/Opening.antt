-- ===== src/ZoneService/Opening.antt =====
-- Opening a zone keeps the store consistent.
use irrigation_controller.Prelude.{
  ℕ, ◌≡◌, ◌≢◌, refl, subst, sym, inl, inr, true, false, not, Option, none, some, Text, Bool-cases,
  if_split,
}
use irrigation_controller.Result.{IrrigationResult, is_ok, Checked-cases}
use irrigation_controller.StateStore.{
  StateStore, SystemState, OutputState, on, unknown, state_store_snapshot,
}
use irrigation_controller.StateStore.Zones.{
  state_store_transition_system, state_store_get_zone, state_store_prepare_zone_open,
  state_store_open_zone, state_store_record_zone_actuation_fault,
}
use irrigation_controller.StateStore.Tests.{is_idle, is_ready, is_master_open, has_active_output}
use irrigation_controller.StateStore.Consistent.{IsConsistent}
use irrigation_controller.StateStore.Safety.{open_zone-IsConsistent, zone_fault-IsConsistent}
use irrigation_controller.Events.{EventType}
use irrigation_controller.Device.{Device, Op, output_driver_set, clock_now_ms, set_output, on_store}
use irrigation_controller.ZoneService.{
  has_null_pointer, publish_zone_event, fault_zone, undo_open, give_up_open, record_open,
  actuate_open, prepare_and_open, open_from_ready, open_checked, zone_service_open_locked,
}
use irrigation_controller.ZoneService.Prepared.{
  IsPrepared, prepared, off_or_unknown, manual-IsConsistent, open_refused,
}

module _ {D V H : Type 0} where
  -- Publishing changes nothing of the store.
  pub store-publish :
      (d : Device D V H) (type : EventType) (id : Option Text)
      → (publish_zone_event type id d).0.store ≡ d.store
  unfolding publish_zone_event
  store-publish d type id = refl

  pub store-fault_zone :
      (d : Device D V H) (id : Option Text) (o : OutputState)
      → (fault_zone id o d).0.store ≡ (state_store_record_zone_actuation_fault d.store id o).0
  unfolding fault_zone
  store-fault_zone d id o =
      elim (Bool-cases (is_ok (state_store_record_zone_actuation_fault d.store id o).1)) [
        | inl e ↦ rw e refl
        | inr e ↦ rw e refl
      ]

  fault_zone-IsConsistent :
      (d : Device D V H) (key : Text) (o : OutputState)
      → IsPrepared d.store key
      → o ≢ on
      → IsConsistent d.store
      → IsConsistent (fault_zone (some key) o d).0.store
  fault_zone-IsConsistent d key o p dim c =
      rw (store-fault_zone d (some key) o)
        (zone_fault-IsConsistent d.store key p.zone o p.found (inr (p.system, p.idle)) dim c)

  give_up_open-IsConsistent :
      (d : Device D V H) (key : Text) (index : ℕ) (result : IrrigationResult)
      → IsPrepared d.store key
      → IsConsistent d.store
      → IsConsistent (give_up_open (some key) index result d).0.store
  unfolding give_up_open
  give_up_open-IsConsistent d key index result p c =
      fault_zone-IsConsistent (set_output index false d).0 key _ p (off_or_unknown _) c

  record_open-IsConsistent :
      (d : Device D V H) (key : Text) (index duration : ℕ)
      → IsPrepared d.store key
      → IsConsistent d.store
      → IsConsistent (record_open (some key) index duration d).0.store
  unfolding record_open undo_open publish_zone_event
  record_open-IsConsistent d key index duration p c =
      let t : ℕ = (clock_now_ms d.clock).1 in
      elim (Bool-cases (is_ok (state_store_open_zone d.store (some key) t duration).1)) [
        | inl stored ↦ rw stored (open_zone-IsConsistent d.store (some key) t duration c)
        | inr lost ↦ rw lost (
            let same = open_refused d.store (some key) t duration lost in
            fault_zone-IsConsistent
              (record d {
                store = (state_store_open_zone d.store (some key) t duration).0;
                clock = (clock_now_ms d.clock).0;
                outputs = (output_driver_set d.output_driver d.outputs index false).0;
              })
              key unknown (subst (λ s. IsPrepared s key) (sym same) p) (λ e. cc)
              (subst IsConsistent (sym same) c))
      ]

  actuate_open-IsConsistent :
      (d : Device D V H) (key : Text) (index duration : ℕ)
      → IsPrepared d.store key
      → IsConsistent d.store
      → IsConsistent (actuate_open (some key) index duration d).0.store
  unfolding actuate_open
  actuate_open-IsConsistent d key index duration p c =
      elim (Bool-cases (is_ok (output_driver_set d.output_driver d.outputs index true).1)) [
        | inl set_on ↦
            rw set_on (record_open-IsConsistent (set_output index true d).0 key index duration p c)
        | inr failed ↦
            rw failed (give_up_open-IsConsistent (set_output index true d).0 key index _ p c)
      ]

  prepare_and_open-IsConsistent :
      (d : Device D V H) (key : Text) (duration : ℕ)
      → IsConsistent d.store
      → IsConsistent (prepare_and_open (some key) duration d).0.store
  unfolding prepare_and_open
  prepare_and_open-IsConsistent d key duration c =
      elim (Checked-cases (state_store_prepare_zone_open d.store (some key))) [
        | inl (r, e) ↦ rw (e, prepare_and_open) c
        | inr (p, e) ↦
            rw (e, prepare_and_open)
              (actuate_open-IsConsistent d key p.0 _ (prepared d.store key p e) c)
      ]

  open_from_ready-IsConsistent :
      (d : Device D V H) (key : Text) (duration : ℕ)
      → IsConsistent d.store
      → IsConsistent (open_from_ready (some key) duration d).0.store
  unfolding open_from_ready
  open_from_ready-IsConsistent d key duration c =
      if_split P (is_ready d.store.system_state) _ _
        (λ ready.
          let c' = manual-IsConsistent d.store ready c in
          if_split (λ (m : Op D V H IrrigationResult). P (m (on_store to_manual d).0))
            (not (is_ok (to_manual d.store).1)) _ _ (λ _. c')
            (λ _. prepare_and_open-IsConsistent (on_store to_manual d).0 key duration c'))
        (λ _. prepare_and_open-IsConsistent d key duration c)
    where
      P : Device D V H × IrrigationResult → Type 0
      P r = IsConsistent r.0.store

      to_manual : StateStore → StateStore × IrrigationResult
      to_manual s = state_store_transition_system s SystemState.manual

  pub open_locked-IsConsistent :
      (d : Device D V H) (id : Option Text) (duration : ℕ)
      → IsConsistent d.store
      → IsConsistent (zone_service_open_locked id duration d).0.store
  unfolding zone_service_open_locked open_checked state_store_snapshot state_store_get_zone
  open_locked-IsConsistent d none duration c =
      if_split (λ (r : Device D V H × IrrigationResult). IsConsistent r.0.store)
        (has_null_pointer d.zone_service none) _ _ (λ _. c) (λ _. c)
  open_locked-IsConsistent d (some key) duration c =
      if_split P (has_null_pointer d.zone_service (some key)) _ _ (λ _. c)
        (λ _. elim (Checked-cases (state_store_get_zone d.store (some key))) [
          | inl (r, e) ↦ rw e c
          | inr (zone, e) ↦ rw e (
              if_split P (not (is_idle zone.state)) _ _ (λ _. c)
                (λ _.
                  if_split P (not (is_master_open d.store.master_valve.state)) _ _ (λ _. c)
                    (λ _.
                      if_split P (has_active_output d.store.output_states) _ _ (λ _. c)
                        (λ _.
                          if_split P _ _ _ (λ _. c)
                            (λ _. open_from_ready-IsConsistent d key duration c)))))
        ])
    where
      P : Device D V H × IrrigationResult → Type 0
      P r = IsConsistent r.0.store
