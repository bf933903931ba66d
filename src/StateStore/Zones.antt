-- ===== src/StateStore/Zones.antt =====
-- firmware/app/state/state_store.c: the system state, and the operations on zones and outputs.
use irrigation_controller.Prelude.{
  ℕ, ◌==◌, Bool, true, false, not, ◌&&◌, ◌||◌, if◌then◌else◌, Option, none, some, List, [], ◌∷◌,
  ◌++◌, Text, text_eq, set, length, ltb, leb,
}
use irrigation_controller.Result.{
  IrrigationResult, ok, rejected, invalid_state, not_found, Checked, passed, refused,
}
use irrigation_controller.Domain.{Zone, max_outputs, max_zones}
use irrigation_controller.StateStore.{
  StateStore, ZoneRuntimeState, SystemState, ZoneState, OutputState, off, on,
}
use irrigation_controller.StateStore.Tests.{
  is_idle, is_open_or_fault, is_disabled, is_manual, is_master_open, find_zone, write_in,
  has_active_or_unknown_output,
}

-- `from == to`, and the five pairs.
unfoldable pub system_transition_is_allowed : SystemState → SystemState → Bool
system_transition_is_allowed SystemState.boot SystemState.boot = true
system_transition_is_allowed SystemState.ready SystemState.ready = true
system_transition_is_allowed SystemState.running SystemState.running = true
system_transition_is_allowed SystemState.manual SystemState.manual = true
system_transition_is_allowed SystemState.ota SystemState.ota = true
system_transition_is_allowed SystemState.maintenance SystemState.maintenance = true
system_transition_is_allowed SystemState.error SystemState.error = true
system_transition_is_allowed SystemState.boot SystemState.ready = true
system_transition_is_allowed SystemState.ready SystemState.manual = true
system_transition_is_allowed SystemState.manual SystemState.ready = true
system_transition_is_allowed SystemState.ready SystemState.error = true
system_transition_is_allowed SystemState.error SystemState.boot = true
system_transition_is_allowed _ _ = false

unfoldable pub state_store_transition_system :
    StateStore → SystemState → StateStore × IrrigationResult
unfolding system_transition_is_allowed
state_store_transition_system store next_state =
    if system_transition_is_allowed store.system_state next_state
    then (record store { system_state = next_state }, ok)
    else (store, invalid_state)

-- The inner loop of `state_store_configure_zones`: the zones before this one, already checked.
unfoldable pub clashes : Text → ℕ → List ZoneRuntimeState → Bool
clashes zone_id output_index [] = false
clashes zone_id output_index (previous ∷ rest) =
    text_eq previous.zone_id zone_id
    || previous.output_index == output_index
    || clashes zone_id output_index rest

abbrev configured_zone : Text → Text → ℕ → Zone → ZoneRuntimeState
configured_zone zone_id output_id output_index zone = record {
  zone_id = zone_id;
  output_id = output_id;
  output_index = output_index;
  state = if zone.enabled then ZoneState.idle else ZoneState.disabled;
  opened_at_ms = 0;
  duration_ms = zone.default_duration_ms;
}

-- The checks of one round. `none` is the early return.
unfoldable pub configure_zone : List ZoneRuntimeState → Zone → Option ZoneRuntimeState
unfolding clashes
configure_zone previous zone = elim zone.id [
  | none ↦ none
  | some zone_id ↦ elim zone.output [
    | none ↦ none
    | some output ↦ elim output.id [
      | none ↦ none
      | some output_id ↦
          if leb max_outputs output.driver_output_index
            || clashes zone_id output.driver_output_index previous
          then none
          else some (configured_zone zone_id output_id output.driver_output_index zone)
    ]
  ]
]

-- The outer loop; the array filled so far is in `configured`.
unfoldable pub configure_loop : List ZoneRuntimeState → List Zone → Option (List ZoneRuntimeState)
unfolding configure_zone
configure_loop configured [] = some configured
configure_loop configured (zone ∷ zones) = elim (configure_zone configured zone) [
  | none ↦ none
  | some zone' ↦ configure_loop (configured ++ zone' ∷ []) zones
]

-- `zones` is NULL with a count of 0 where the list is empty.
unfoldable pub state_store_configure_zones : StateStore → List Zone → StateStore × IrrigationResult
unfolding configure_loop
state_store_configure_zones store zones =
    if ltb max_zones (length zones) then (store, rejected) else elim (configure_loop [] zones) [
      | none ↦ (store, rejected)
      | some configured ↦ (record store { zones = configured }, ok)
    ]

unfoldable pub state_store_get_zone : StateStore → Option Text → Checked ZoneRuntimeState
unfolding find_zone
state_store_get_zone store zone_id = elim (find_zone store zone_id) [
  | none ↦ refused not_found
  | some zone ↦ passed zone
]

-- The output arguments are the output's index and the configured duration.
unfoldable pub state_store_prepare_zone_open : StateStore → Option Text → Checked (ℕ × ℕ)
unfolding find_zone has_active_or_unknown_output
state_store_prepare_zone_open store zone_id = elim (find_zone store zone_id) [
  | none ↦ refused not_found
  | some zone ↦
      if not (is_manual store.system_state)
        || not (is_idle zone.state)
        || not (is_master_open store.master_valve.state)
        || has_active_or_unknown_output store
      then refused invalid_state
      else passed (zone.output_index, zone.duration_ms)
]

-- `*zone` and `output_states[output_index]`, written through the pointer found by the id.
abbrev pub write_zone : StateStore → Option Text → ZoneRuntimeState → OutputState → StateStore
write_zone store none zone output = store
write_zone store (some zone_id) zone output = record store {
  zones = write_in store.zones zone_id zone;
  output_states = set store.output_states zone.output_index output;
}

abbrev pub opened_zone : ZoneRuntimeState → ℕ → ℕ → ZoneRuntimeState
opened_zone zone opened_at_ms duration_ms = record zone {
  state = ZoneState.opened;
  opened_at_ms = opened_at_ms;
  duration_ms = duration_ms;
}

unfoldable pub state_store_open_zone :
    StateStore → Option Text → ℕ → ℕ → StateStore × IrrigationResult
unfolding state_store_prepare_zone_open find_zone write_in
state_store_open_zone store zone_id opened_at_ms duration_ms =
    elim (state_store_prepare_zone_open store zone_id) [
      | refused result ↦ (store, result)
      | passed prepared ↦ elim (find_zone store zone_id) [
        | none ↦ (store, not_found)
        | some zone ↦ (write_zone store zone_id (opened_zone zone opened_at_ms duration_ms) on, ok)
      ]
    ]

abbrev pub closed_zone : ZoneRuntimeState → ZoneRuntimeState
closed_zone zone = record zone { state = ZoneState.idle; opened_at_ms = 0 }

-- The last test of `state_store_close_zone`: back to READY once no output is active.
abbrev pub settle_system : StateStore → StateStore
settle_system store =
    if not (has_active_or_unknown_output store) && is_manual store.system_state
    then record store { system_state = SystemState.ready }
    else store

unfoldable pub state_store_close_zone : StateStore → Option Text → StateStore × IrrigationResult
unfolding find_zone has_active_or_unknown_output write_in
state_store_close_zone store zone_id = elim (find_zone store zone_id) [
  | none ↦ (store, not_found)
  | some zone ↦
      if not (is_open_or_fault zone.state)
      then (store, invalid_state)
      else (settle_system (write_zone store zone_id (closed_zone zone) off), ok)
]

unfoldable pub state_store_record_zone_actuation_fault :
    StateStore → Option Text → OutputState → StateStore × IrrigationResult
unfolding find_zone write_in
state_store_record_zone_actuation_fault store zone_id output_state =
    elim (find_zone store zone_id) [
      | none ↦ (store, not_found)
      | some zone ↦ if is_disabled zone.state then (store, invalid_state) else (
        record (write_zone store zone_id (record zone { state = ZoneState.fault }) output_state) {
          system_state = SystemState.error;
        },
        ok,
      )
    ]
