-- ===== src/StateStore/Consistent.antt =====
-- What holds of the state store between two operations: which zone may water, and when.
use irrigation_controller.Prelude.{
  ℕ, ◌<◌, ◌≡◌, ◌≢◌, refl, true, false, List, [], ◌∷◌, arith, All, length, get_or,
}
use irrigation_controller.Domain.{max_outputs}
use irrigation_controller.StateStore.{
  StateStore, SystemState, ZoneState, OutputState, MasterValveState, ZoneRuntimeState, off, on,
}
use irrigation_controller.StateStore.Tests.{is_open_or_fault, has_active_output}
use irrigation_controller.StateStore.Writes.{Distinct}

-- What the store believes of an output; a place beyond the array counts as OFF.
abbrev pub output_at : List OutputState → ℕ → OutputState
output_at outputs index = get_or outputs index off

-- `holder` is the output of the one zone that may be open or at fault.
pub record ZoneIsConsistent (holder : ℕ) (system : SystemState) (outputs : List OutputState)
    (zone : ZoneRuntimeState) : Type 0 where
  pub in_range : zone.output_index < max_outputs
  pub open_on : zone.state ≡ ZoneState.opened → output_at outputs zone.output_index ≡ on
  pub fault_error : zone.state ≡ ZoneState.fault → system ≡ SystemState.error
  pub holds : is_open_or_fault zone.state ≡ true → zone.output_index ≡ holder

-- All outputs but the holder's are off, and an output is on only behind an open master valve.
pub record IsHeldBy (store : StateStore) (holder : ℕ) : Type 0 where
  pub places : length store.output_states ≡ max_outputs
  pub distinct : Distinct store.zones
  pub zones : All (ZoneIsConsistent holder store.system_state store.output_states) store.zones
  pub dark : (i : ℕ) → i ≢ holder → output_at store.output_states i ≡ off
  pub watered :
      (i : ℕ)
      → output_at store.output_states i ≡ on
      → store.master_valve.state ≡ MasterValveState.opened

abbrev pub IsConsistent : StateStore → Type 0
IsConsistent store = (holder : ℕ) × IsHeldBy store holder

pub output_at_inactive :
    (outputs : List OutputState) (i : ℕ)
    → has_active_output outputs ≡ false
    → output_at outputs i ≡ off
unfolding has_active_output
output_at_inactive [] i h = refl
output_at_inactive (x ∷ xs) ℕ.zero h = ground arith
output_at_inactive (x ∷ xs) (ℕ.suc i) h = output_at_inactive xs i (ground arith)
