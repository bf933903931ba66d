-- ===== src/StateStore/Tests.antt =====
-- firmware/app/state/state_store.c: the tests that the operations on zones share.
use irrigation_controller.Prelude.{
  Bool, true, false, not, ◌||◌, if◌then◌else◌, Option, none, some, List, [], ◌∷◌, Text, text_eq,
}
use irrigation_controller.StateStore.{
  StateStore, ZoneRuntimeState, SystemState, ZoneState, OutputState, MasterValveState,
}

-- The tests `zone->state == ZONE_STATE_IDLE` and their like.
abbrev pub is_idle : ZoneState → Bool
is_idle ZoneState.idle = true
is_idle _ = false

abbrev pub is_open_or_fault : ZoneState → Bool
is_open_or_fault ZoneState.opened = true
is_open_or_fault ZoneState.fault = true
is_open_or_fault _ = false

abbrev pub is_disabled : ZoneState → Bool
is_disabled ZoneState.disabled = true
is_disabled _ = false

abbrev pub is_off : OutputState → Bool
is_off OutputState.off = true
is_off _ = false

abbrev pub is_manual : SystemState → Bool
is_manual SystemState.manual = true
is_manual _ = false

abbrev pub is_ready : SystemState → Bool
is_ready SystemState.ready = true
is_ready _ = false

abbrev pub is_master_open : MasterValveState → Bool
is_master_open MasterValveState.opened = true
is_master_open _ = false

-- The pointer that `find_zone` returns is the first zone with the id; `none` is NULL.
unfoldable pub find_in : List ZoneRuntimeState → Text → Option ZoneRuntimeState
find_in [] zone_id = none
find_in (zone ∷ zones) zone_id =
    if text_eq zone.zone_id zone_id then some zone else find_in zones zone_id

unfoldable pub find_zone : StateStore → Option Text → Option ZoneRuntimeState
unfolding find_in
find_zone store none = none
find_zone store (some zone_id) = find_in store.zones zone_id

-- A write through that pointer.
unfoldable pub write_in : List ZoneRuntimeState → Text → ZoneRuntimeState → List ZoneRuntimeState
write_in [] zone_id zone' = []
write_in (zone ∷ zones) zone_id zone' =
    if text_eq zone.zone_id zone_id then zone' ∷ zones else zone ∷ write_in zones zone_id zone'

unfoldable pub has_active_output : List OutputState → Bool
has_active_output [] = false
has_active_output (output ∷ outputs) = not (is_off output) || has_active_output outputs

unfoldable pub has_active_or_unknown_output : StateStore → Bool
unfolding has_active_output
has_active_or_unknown_output store = has_active_output store.output_states
