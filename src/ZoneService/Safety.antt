-- ===== src/ZoneService/Safety.antt =====
-- Every operation of the zone service keeps the store consistent.
use irrigation_controller.Prelude.{
  ℕ, ◌≡◌, inl, inr, true, false, not, Option, none, some, List, [], ◌∷◌, Text, arith, Bool-cases,
  if_split, get_or, is_null,
}
use irrigation_controller.Result.{IrrigationResult, ok, is_ok, Checked-cases, passed}
use irrigation_controller.StateStore.{
  StateStore, OutputState, ZoneRuntimeState, off, unknown, state_store_snapshot,
}
use irrigation_controller.StateStore.Zones.{state_store_get_zone, state_store_close_zone}
use irrigation_controller.StateStore.Tests.{is_off, is_open_or_fault, find_in}
use irrigation_controller.StateStore.Consistent.{IsConsistent}
use irrigation_controller.StateStore.Safety.{close_zone-IsConsistent, zone_fault-IsConsistent}
use irrigation_controller.Events.{EventType}
use irrigation_controller.Device.{Device, Op, set_output, read_clock, on_store}
use irrigation_controller.ZoneService.{
  has_null_pointer, publish_zone_event, with_operation_lock, zone_service_open,
  zone_service_open_locked,
}
use irrigation_controller.ZoneService.Closing.{
  has_timed_out, keep_first, finish_close, zone_service_close_locked, zone_service_close,
  safe_close_loop, zone_service_safe_close, timeouts_loop, zone_service_process_timeouts,
  safe_close_all, close_timed_out,
}
use irrigation_controller.ZoneService.Opening.{store-fault_zone, open_locked-IsConsistent}

found_zone :
    (s : StateStore) (key : Text) (zone : ZoneRuntimeState)
    → state_store_get_zone s (some key) ≡ passed zone
    → find_in s.zones key ≡ some zone
unfolding state_store_get_zone
found_zone s key zone e = ground arith

-- A call of the zone service, with its arguments.
pub data ZoneCall : Type 0 where
  open_zone : Option Text → ℕ → ZoneCall
  close_zone : Option Text → ZoneCall
  safe_close : ZoneCall
  process_timeouts : ZoneCall

module _ {D V H : Type 0} where
  abbrev Keeps : Device D V H × IrrigationResult → Type 0
  Keeps r = IsConsistent r.0.store

  finish_close-IsConsistent :
      (d : Device D V H) (key : Text) (zone : ZoneRuntimeState) (driver_result : IrrigationResult)
      → find_in d.store.zones key ≡ some zone
      → is_open_or_fault zone.state ≡ true
      → IsConsistent d.store
      → Keeps (finish_close (some key) driver_result d)
  unfolding finish_close publish_zone_event
  finish_close-IsConsistent d key zone driver_result found live c =
      if_split (λ (m : Op D V H IrrigationResult). Keeps (m d)) (not (is_ok driver_result)) _ _
        (λ _.
          rw (store-fault_zone d (some key) unknown)
            (zone_fault-IsConsistent d.store key zone unknown found (inl live) (λ e. cc) c))
        (λ _.
          if_split (λ (m : Op D V H IrrigationResult). Keeps (m (on_store close d).0))
            (is_ok (close d.store).1) _ _ (λ _. closed) (λ _. closed))
    where
      close : StateStore → StateStore × IrrigationResult
      close s = state_store_close_zone s (some key)

      closed : IsConsistent (close d.store).0
      closed = close_zone-IsConsistent d.store (some key) c

  close_locked-IsConsistent :
      (d : Device D V H) (id : Option Text)
      → IsConsistent d.store
      → Keeps (zone_service_close_locked id d)
  unfolding zone_service_close_locked state_store_get_zone
  close_locked-IsConsistent d none c =
      if_split Keeps (has_null_pointer d.zone_service none) _ _ (λ _. c) (λ _. c)
  close_locked-IsConsistent d (some key) c =
      if_split Keeps (has_null_pointer d.zone_service (some key)) _ _ (λ _. c)
        (λ _. elim (Checked-cases (state_store_get_zone d.store (some key))) [
          | inl (r, e) ↦ rw e c
          | inr (zone, e) ↦ rw e (
              if_split Keeps (not (is_open_or_fault zone.state)) _ _ (λ _. c)
                (λ live.
                  finish_close-IsConsistent (set_output zone.output_index false d).0 key zone _
                    (found_zone d.store key zone e) (ground arith) c))
        ])

  -- Under the lock, the operation keeps what its body keeps.
  with_operation_lock-IsConsistent :
      (d : Device D V H) (body : Op D V H IrrigationResult)
      → ((d' : Device D V H) → IsConsistent d'.store → Keeps (body d'))
      → IsConsistent d.store
      → Keeps (with_operation_lock body d)
  unfolding with_operation_lock
  with_operation_lock-IsConsistent d body keep c = elim (Bool-cases d.zone_service.operation_lock) [
    | inl taken ↦ rw taken c
    | inr free ↦ rw free (keep locked c)
  ]
    where
      locked : Device D V H
      locked =
          let service = d.zone_service in
          record d { zone_service = record service { operation_lock = true } }

  safe_close_loop-IsConsistent :
      (outputs : List OutputState) (zones : List ZoneRuntimeState) (first : IrrigationResult)
      (d : Device D V H)
      → IsConsistent d.store
      → Keeps (safe_close_loop outputs zones first d)
  unfolding safe_close_loop
  safe_close_loop-IsConsistent outputs [] first d c = c
  safe_close_loop-IsConsistent outputs (zone ∷ zones) first d c =
      if_split (λ (m : Op D V H IrrigationResult). Keeps (m d))
        (not (is_off (get_or outputs zone.output_index off))) _ _
        (λ _.
          let r = zone_service_close_locked (some zone.zone_id) d in
          safe_close_loop-IsConsistent outputs zones (keep_first first r.1) r.0
            (close_locked-IsConsistent d (some zone.zone_id) c))
        (λ _. safe_close_loop-IsConsistent outputs zones first d c)

  timeouts_loop-IsConsistent :
      (zones : List ZoneRuntimeState) (now : ℕ) (d : Device D V H)
      → IsConsistent d.store
      → Keeps (timeouts_loop zones now d)
  unfolding timeouts_loop publish_zone_event
  timeouts_loop-IsConsistent [] now d c = c
  timeouts_loop-IsConsistent (zone ∷ zones) now d c =
      if_split (λ (m : Op D V H IrrigationResult). Keeps (m d)) (has_timed_out zone now) _ _
        (λ _.
          let r = zone_service_close_locked (some zone.zone_id) d in
          let c' = close_locked-IsConsistent d (some zone.zone_id) c in
          if_split (λ (m : Op D V H IrrigationResult). Keeps (m r.0)) (not (is_ok r.1)) _ _
            (λ _. c')
            (λ _.
              timeouts_loop-IsConsistent zones now
                (publish_zone_event EventType.zone_timed_out (some zone.zone_id) r.0).0 c'))
        (λ _. timeouts_loop-IsConsistent zones now d c)

  unfoldable pub zone_call : ZoneCall → Op D V H IrrigationResult
  zone_call (ZoneCall.open_zone id duration) = zone_service_open id duration
  zone_call (ZoneCall.close_zone id) = zone_service_close id
  zone_call ZoneCall.safe_close = zone_service_safe_close
  zone_call ZoneCall.process_timeouts = zone_service_process_timeouts

  -- Every call of the zone service, with any arguments, any answers of the output driver and any
  -- clock, keeps the store consistent.
  pub zone_call-IsConsistent :
      (d : Device D V H) (call : ZoneCall)
      → IsConsistent d.store
      → IsConsistent (zone_call call d).0.store
  unfolding zone_call zone_service_open zone_service_close zone_service_safe_close
      zone_service_process_timeouts safe_close_all close_timed_out
  zone_call-IsConsistent d (ZoneCall.open_zone id duration) c =
      with_operation_lock-IsConsistent d (zone_service_open_locked id duration)
        (λ d' c'. open_locked-IsConsistent d' id duration c') c
  zone_call-IsConsistent d (ZoneCall.close_zone id) c =
      with_operation_lock-IsConsistent d (zone_service_close_locked id)
        (λ d' c'. close_locked-IsConsistent d' id c') c
  zone_call-IsConsistent d ZoneCall.safe_close c =
      if_split Keeps (is_null d.zone_service.state_store) _ _ (λ _. c)
        (λ _.
          with_operation_lock-IsConsistent d safe_close_all
            (λ d' c'.
              safe_close_loop-IsConsistent (state_store_snapshot d'.store).output_states
                (state_store_snapshot d'.store).zones ok d' c')
            c)
  zone_call-IsConsistent d ZoneCall.process_timeouts c =
      if_split Keeps (is_null d.zone_service.state_store) _ _ (λ _. c)
        (λ _.
          with_operation_lock-IsConsistent d close_timed_out
            (λ d' c'.
              timeouts_loop-IsConsistent (state_store_snapshot d'.store).zones (read_clock d').1
                (read_clock d').0 c')
            c)
