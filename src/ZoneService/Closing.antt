-- ===== src/ZoneService/Closing.antt =====
-- firmware/domain/zones/zone_service.c: closing zones, one or all or those whose time is over.
use irrigation_controller.Prelude.{
  ℕ, ◌==◌, Bool, true, false, not, ◌&&◌, if◌then◌else◌, Option, some, List, [], ◌∷◌, Text, is_null,
  get_or, leb,
}
use irrigation_controller.Result.{
  IrrigationResult, ok, rejected, invalid_state, is_ok, passed, refused,
}
use irrigation_controller.StateStore.{
  ZoneState, OutputState, ZoneRuntimeState, off, unknown, sub_u64, state_store_snapshot,
}
use irrigation_controller.StateStore.Zones.{state_store_get_zone, state_store_close_zone}
use irrigation_controller.StateStore.Tests.{is_off, is_open_or_fault}
use irrigation_controller.Events.{EventType}
use irrigation_controller.Device.{Op, ◌>>=◌, ◌>>◌, return, on_store, read_clock, set_output}
use irrigation_controller.ZoneService.{
  has_null_pointer, publish_zone_event, fault_zone, with_operation_lock,
}

-- `first_failure` after one more result.
abbrev pub keep_first : IrrigationResult → IrrigationResult → IrrigationResult
keep_first first_failure result =
    if is_ok first_failure && not (is_ok result) then result else first_failure

abbrev is_opened : ZoneState → Bool
is_opened ZoneState.opened = true
is_opened _ = false

abbrev pub has_timed_out : ZoneRuntimeState → ℕ → Bool
has_timed_out zone now_ms =
    is_opened zone.state
    && not (zone.duration_ms == 0)
    && leb zone.duration_ms (sub_u64 now_ms zone.opened_at_ms)

module _ {D V H : Type 0} where
  -- The driver's answer to the request to switch off.
  unfoldable pub finish_close : Option Text → IrrigationResult → Op D V H IrrigationResult
  finish_close zone_id driver_result =
      if not (is_ok driver_result)
      then (fault_zone zone_id unknown >> return driver_result)
      else (do
        result ← on_store (λ s. state_store_close_zone s zone_id)
        if is_ok result
            then (publish_zone_event EventType.zone_closed zone_id >> return result)
            else return result)

  unfoldable pub zone_service_close_locked : Option Text → Op D V H IrrigationResult
  unfolding finish_close
  zone_service_close_locked zone_id d =
      if has_null_pointer d.zone_service zone_id
      then (d, rejected)
      else elim (state_store_get_zone d.store zone_id) [
        | refused result ↦ (d, result)
        | passed zone ↦
            if not (is_open_or_fault zone.state)
            then (d, invalid_state)
            else (set_output zone.output_index false >>= finish_close zone_id) d
      ]

  unfoldable pub zone_service_close : Option Text → Op D V H IrrigationResult
  unfolding with_operation_lock
  zone_service_close zone_id = with_operation_lock (zone_service_close_locked zone_id)

  -- The loop runs over the snapshot's zones and looks at the snapshot's outputs.
  unfoldable pub safe_close_loop :
      List OutputState → List ZoneRuntimeState → IrrigationResult → Op D V H IrrigationResult
  safe_close_loop outputs [] first_failure = return first_failure
  safe_close_loop outputs (zone ∷ zones) first_failure =
      if not (is_off (get_or outputs zone.output_index off))
      then (do
        result ← zone_service_close_locked (some zone.zone_id)
        safe_close_loop outputs zones (keep_first first_failure result))
      else safe_close_loop outputs zones first_failure

  -- Between the acquisition and the release.
  unfoldable pub safe_close_all : Op D V H IrrigationResult
  unfolding safe_close_loop
  safe_close_all d =
      let state = state_store_snapshot d.store in
      safe_close_loop state.output_states state.zones ok d

  unfoldable pub zone_service_safe_close : Op D V H IrrigationResult
  unfolding with_operation_lock
  zone_service_safe_close d =
      if is_null d.zone_service.state_store
      then (d, rejected)
      else with_operation_lock safe_close_all d

  -- `ok` after the last round; any other result is the early return.
  unfoldable pub timeouts_loop : List ZoneRuntimeState → ℕ → Op D V H IrrigationResult
  timeouts_loop [] now_ms = return ok
  timeouts_loop (zone ∷ zones) now_ms =
      if has_timed_out zone now_ms
      then (do
        result ← zone_service_close_locked (some zone.zone_id)
        if not (is_ok result) then return result else (do
          _ ← publish_zone_event EventType.zone_timed_out (some zone.zone_id)
          timeouts_loop zones now_ms))
      else timeouts_loop zones now_ms

  unfoldable pub close_timed_out : Op D V H IrrigationResult
  unfolding timeouts_loop
  close_timed_out d =
      let state = state_store_snapshot d.store in (read_clock >>= timeouts_loop state.zones) d

  unfoldable pub zone_service_process_timeouts : Op D V H IrrigationResult
  unfolding with_operation_lock
  zone_service_process_timeouts d =
      if is_null d.zone_service.state_store
      then (d, rejected)
      else with_operation_lock close_timed_out d
