-- ===== src/ZoneService/Frame.antt =====
-- The zone service leaves the program's part of the device alone.
use irrigation_controller.Prelude.{
  ℕ, ◌≡◌, refl, ◌∙◌, inl, inr, true, not, Option, some, List, [], ◌∷◌, Text, Bool-cases, if_split,
  get_or, is_null,
}
use irrigation_controller.Result.{IrrigationResult, ok, is_ok}
use irrigation_controller.StateStore.{OutputState, ZoneRuntimeState, off, state_store_snapshot}
use irrigation_controller.StateStore.Tests.{is_off}
use irrigation_controller.Events.{EventType}
use irrigation_controller.Device.{Device, Op, read_clock}
use irrigation_controller.ZoneService.{
  publish_zone_event, with_operation_lock, zone_service_open_locked, zone_service_open,
}
use irrigation_controller.ZoneService.Closing.{
  keep_first, has_timed_out, zone_service_close_locked, zone_service_close, safe_close_loop,
  safe_close_all, zone_service_safe_close, timeouts_loop, close_timed_out,
  zone_service_process_timeouts,
}
use irrigation_controller.ZoneService.Safety.{ZoneCall, zone_call}
use irrigation_controller.ZoneService.Untouched.{view, Same, open_locked-Same, close_locked-Same}

module _ {D V H : Type 0} where
  with_operation_lock-Same :
      (d : Device D V H) (body : Op D V H IrrigationResult)
      → ((d' : Device D V H) → Same d' (body d'))
      → Same d (with_operation_lock body d)
  unfolding with_operation_lock
  with_operation_lock-Same d body keep = elim (Bool-cases d.zone_service.operation_lock) [
    | inl taken ↦ rw taken refl
    | inr free ↦ rw free (keep locked)
  ]
    where
      locked : Device D V H
      locked =
          let service = d.zone_service in
          record d { zone_service = record service { operation_lock = true } }

  safe_close_loop-Same :
      (outputs : List OutputState) (zones : List ZoneRuntimeState) (first : IrrigationResult)
      (d : Device D V H)
      → Same d (safe_close_loop outputs zones first d)
  unfolding safe_close_loop
  safe_close_loop-Same outputs [] first d = refl
  safe_close_loop-Same outputs (zone ∷ zones) first d =
      if_split (λ (m : Op D V H IrrigationResult). Same d (m d))
        (not (is_off (get_or outputs zone.output_index off))) _ _
        (λ _.
          let r = zone_service_close_locked (some zone.zone_id) d in
          safe_close_loop-Same outputs zones (keep_first first r.1) r.0
          ∙ close_locked-Same d (some zone.zone_id))
        (λ _. safe_close_loop-Same outputs zones first d)

  timeouts_loop-Same :
      (zones : List ZoneRuntimeState) (now : ℕ) (d : Device D V H)
      → Same d (timeouts_loop zones now d)
  unfolding timeouts_loop publish_zone_event
  timeouts_loop-Same [] now d = refl
  timeouts_loop-Same (zone ∷ zones) now d =
      if_split (λ (m : Op D V H IrrigationResult). Same d (m d)) (has_timed_out zone now) _ _
        (λ _.
          let r = zone_service_close_locked (some zone.zone_id) d in
          let kept = close_locked-Same d (some zone.zone_id) in
          if_split (λ (m : Op D V H IrrigationResult). Same d (m r.0)) (not (is_ok r.1)) _ _
            (λ _. kept)
            (λ _.
              timeouts_loop-Same zones now
                (publish_zone_event EventType.zone_timed_out (some zone.zone_id) r.0).0
              ∙ kept))
        (λ _. timeouts_loop-Same zones now d)

  pub open-Same :
      (d : Device D V H) (id : Option Text) (duration : ℕ)
      → view (zone_service_open id duration d).0 ≡ view d
  unfolding zone_service_open
  open-Same d id duration =
      with_operation_lock-Same d (zone_service_open_locked id duration)
        (λ d'. open_locked-Same d' id duration)

  pub close-Same : (d : Device D V H) (id : Option Text) → view (zone_service_close id d).0 ≡ view d
  unfolding zone_service_close
  close-Same d id =
      with_operation_lock-Same d (zone_service_close_locked id) (λ d'. close_locked-Same d' id)

  -- No call of the zone service changes the program's part of the device.
  pub zone_call-Same : (d : Device D V H) (call : ZoneCall) → view (zone_call call d).0 ≡ view d
  unfolding zone_call zone_service_safe_close zone_service_process_timeouts safe_close_all
      close_timed_out
  zone_call-Same d (ZoneCall.open_zone id duration) = open-Same d id duration
  zone_call-Same d (ZoneCall.close_zone id) = close-Same d id
  zone_call-Same d ZoneCall.safe_close =
      if_split (Same d) (is_null d.zone_service.state_store) _ _ (λ _. refl)
        (λ _. with_operation_lock-Same d safe_close_all (λ d'.
          safe_close_loop-Same (state_store_snapshot d'.store).output_states
            (state_store_snapshot d'.store).zones ok d'))
  zone_call-Same d ZoneCall.process_timeouts =
      if_split (Same d) (is_null d.zone_service.state_store) _ _ (λ _. refl)
        (λ _. with_operation_lock-Same d close_timed_out (λ d'.
          timeouts_loop-Same (state_store_snapshot d'.store).zones (read_clock d').1
            (read_clock d').0))
