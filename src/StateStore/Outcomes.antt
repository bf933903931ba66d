-- ===== src/StateStore/Outcomes.antt =====
-- The branches of the zone operations: a refusal that leaves the store alone, or the one write.
use irrigation_controller.Prelude.{
  ℕ, ◌≡◌, refl, inl, inr, true, false, not, Bool, ◌||◌, some, none, Option, Text, arith, Bool-cases,
  Option-cases,
}
use irrigation_controller.Result.{IrrigationResult, ok, is_ok}
use irrigation_controller.StateStore.{
  StateStore, SystemState, OutputState, MasterValveState, ZoneState, ZoneRuntimeState, off, on,
}
use irrigation_controller.StateStore.Zones.{
  write_zone, opened_zone, closed_zone, settle_system, state_store_open_zone,
  state_store_close_zone, state_store_record_zone_actuation_fault,
}
use irrigation_controller.StateStore.Tests.{
  is_open_or_fault, is_idle, is_manual, is_disabled, is_master_open, find_in, has_active_output,
  has_active_or_unknown_output,
}

-- Either the store refuses and is left alone, or all of the guards hold and the zone is opened.
pub data OpenOutcome (s : StateStore) (id : Option Text) (t d : ℕ)
    (r : StateStore × IrrigationResult) : Type 0 where
  refusal : r.0 ≡ s → is_ok r.1 ≡ false → OpenOutcome s id t d r
  opening :
      (key : Text) (zone : ZoneRuntimeState)
      → id ≡ some key
      → find_in s.zones key ≡ some zone
      → is_idle zone.state ≡ true
      → s.system_state ≡ SystemState.manual
      → s.master_valve.state ≡ MasterValveState.opened
      → has_active_output s.output_states ≡ false
      → r ≡ (write_zone s (some key) (opened_zone zone t d) on, ok)
      → OpenOutcome s id t d r

abbrev open_is_refused : StateStore → ZoneRuntimeState → Bool
open_is_refused s zone =
    not (is_manual s.system_state)
    || not (is_idle zone.state)
    || not (is_master_open s.master_valve.state)
    || has_active_or_unknown_output s

pub open_zone_cases :
    (s : StateStore) (id : Option Text) (t d : ℕ)
    → OpenOutcome s id t d (state_store_open_zone s id t d)
unfolding state_store_open_zone
open_zone_cases s none t d = refusal refl refl
open_zone_cases s (some key) t d = elim (Option-cases (find_in s.zones key)) [
  | inl missing ↦ refusal (ground arith) (ground arith)
  | inr (zone, found) ↦ elim (Bool-cases (open_is_refused s zone)) [
    | inl held ↦ refusal (ground arith) (ground arith)
    | inr clear ↦
        opening key zone refl found (ground arith) (ground arith) (ground arith) (ground arith)
          (ground arith)
  ]
]

pub data CloseOutcome (s : StateStore) (id : Option Text) (r : StateStore × IrrigationResult)
    : Type 0 where
  refusal : r.0 ≡ s → is_ok r.1 ≡ false → CloseOutcome s id r
  closing :
      (key : Text) (zone : ZoneRuntimeState)
      → id ≡ some key
      → find_in s.zones key ≡ some zone
      → is_open_or_fault zone.state ≡ true
      → r ≡ (settle_system (write_zone s (some key) (closed_zone zone) off), ok)
      → CloseOutcome s id r

pub close_zone_cases :
    (s : StateStore) (id : Option Text) → CloseOutcome s id (state_store_close_zone s id)
unfolding state_store_close_zone
close_zone_cases s none = refusal refl refl
close_zone_cases s (some key) = elim (Option-cases (find_in s.zones key)) [
  | inl missing ↦ refusal (ground arith) (ground arith)
  | inr (zone, found) ↦ elim (Bool-cases (is_open_or_fault zone.state)) [
    | inl live ↦ closing key zone refl found live (rw (found, state_store_close_zone) (rw live))
    | inr dead ↦ refusal (ground arith) (ground arith)
  ]
]

abbrev pub faulted_zone : ZoneRuntimeState → ZoneRuntimeState
faulted_zone zone = record zone { state = ZoneState.fault }

abbrev pub faulted : StateStore → StateStore
faulted s = record s { system_state = SystemState.error }

pub data FaultOutcome (s : StateStore) (id : Option Text) (o : OutputState)
    (r : StateStore × IrrigationResult) : Type 0 where
  refusal : r.0 ≡ s → is_ok r.1 ≡ false → FaultOutcome s id o r
  faulting :
      (key : Text) (zone : ZoneRuntimeState)
      → id ≡ some key
      → find_in s.zones key ≡ some zone
      → r ≡ (faulted (write_zone s (some key) (faulted_zone zone) o), ok)
      → FaultOutcome s id o r

pub zone_fault_cases :
    (s : StateStore) (id : Option Text) (o : OutputState)
    → FaultOutcome s id o (state_store_record_zone_actuation_fault s id o)
unfolding state_store_record_zone_actuation_fault
zone_fault_cases s none o = refusal refl refl
zone_fault_cases s (some key) o = elim (Option-cases (find_in s.zones key)) [
  | inl missing ↦ refusal (ground arith) (ground arith)
  | inr (zone, found) ↦ elim (Bool-cases (is_disabled zone.state)) [
    | inl held ↦ refusal (ground arith) (ground arith)
    | inr clear ↦ faulting key zone refl found (ground arith)
  ]
]
