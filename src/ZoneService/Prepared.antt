-- ===== src/ZoneService/Prepared.antt =====
-- What an open that is let through knows of the store.
use irrigation_controller.Prelude.{
  ℕ, ◌≡◌, ◌≢◌, subst, inl, inr, Bool, true, false, if◌then◌else◌, Option, some, Text, arith,
  All-map, Option-cases,
}
use irrigation_controller.Result.{is_ok, passed}
use irrigation_controller.StateStore.{StateStore, SystemState, ZoneRuntimeState, off, on, unknown}
use irrigation_controller.StateStore.Zones.{
  state_store_transition_system, state_store_prepare_zone_open, state_store_open_zone,
}
use irrigation_controller.StateStore.Tests.{is_ready, find_in, has_active_output}
use irrigation_controller.StateStore.Consistent.{IsConsistent, ZoneIsConsistent}
use irrigation_controller.StateStore.Outcomes.{OpenOutcome, open_zone_cases}

-- What `state_store_prepare_zone_open` has checked when it passes.
pub record IsPrepared (s : StateStore) (key : Text) : Type 0 where
  pub zone : ZoneRuntimeState
  pub found : find_in s.zones key ≡ some zone
  pub system : s.system_state ≡ SystemState.manual
  pub idle : has_active_output s.output_states ≡ false

pub prepared :
    (s : StateStore) (key : Text) (p : ℕ × ℕ)
    → state_store_prepare_zone_open s (some key) ≡ passed p
    → IsPrepared s key
unfolding state_store_prepare_zone_open
prepared s key p e = elim (Option-cases (find_in s.zones key)) [
  | inl missing ↦ absurd (ground arith)
  | inr (zone, found) ↦ record {
    zone = zone;
    found = found;
    system = ground arith;
    idle = ground arith;
  }
]

pub off_or_unknown : (b : Bool) → (if b then off else unknown) ≢ on
off_or_unknown true e = cc
off_or_unknown false e = cc

transition_to_manual :
    (s : StateStore)
    → is_ready s.system_state ≡ true
    → record s { system_state = SystemState.manual }
      ≡ (state_store_transition_system s SystemState.manual).0
unfolding state_store_transition_system
transition_to_manual s ready = ground arith

-- READY gives way to MANUAL: neither is the state of a fault.
pub manual-IsConsistent :
    (s : StateStore)
    → is_ready s.system_state ≡ true
    → IsConsistent s
    → IsConsistent (state_store_transition_system s SystemState.manual).0
manual-IsConsistent s ready (h, held) = subst IsConsistent moved (
  h,
  record {
    places = held.places;
    distinct = held.distinct;
    zones = All-map (ZoneIsConsistent h s.system_state s.output_states) _ calm s.zones held.zones;
    dark = held.dark;
    watered = held.watered;
  },
)
  where
    moved :
        record s { system_state = SystemState.manual }
        ≡ (state_store_transition_system s SystemState.manual).0
    moved = transition_to_manual s ready

    calm :
        (z : ZoneRuntimeState)
        → ZoneIsConsistent h s.system_state s.output_states z
        → ZoneIsConsistent h SystemState.manual s.output_states z
    calm z c = record {
      in_range = c.in_range;
      open_on = c.open_on;
      fault_error = λ f. absurd (ground (arith, c.fault_error f));
      holds = c.holds;
    }

-- A refused opening leaves the store alone.
pub open_refused :
    (s : StateStore) (id : Option Text) (t duration : ℕ)
    → is_ok (state_store_open_zone s id t duration).1 ≡ false
    → (state_store_open_zone s id t duration).0 ≡ s
open_refused s id t duration no_success = go (open_zone_cases s id t duration)
  where
    go :
        OpenOutcome s id t duration (state_store_open_zone s id t duration)
        → (state_store_open_zone s id t duration).0 ≡ s
    go (OpenOutcome.refusal same _) = same
    go (OpenOutcome.opening key zone _ _ _ _ _ _ e) = absurd (ground arith)
