-- ===== src/StateStore/Safety.antt =====
-- The zone operations keep the store consistent.
use irrigation_controller.Prelude.{
  ℕ, ◌<◌, ◌≡◌, ◌≢◌, ◌⊎◌, refl, ap, sym, ◌∙◌, inl, inr, true, false, not, ◌&&◌, some, Option, Text,
  arith, length-set, get_or-set_self, get_or-set_ne, Bool-cases,
}
use mathlib.Core.Path.{subst₂}
use native.Mathlib.Decide.{ℕ_discrete}
use irrigation_controller.Domain.{max_outputs}
use irrigation_controller.StateStore.{
  StateStore, SystemState, OutputState, MasterValveState, ZoneState, ZoneRuntimeState, off, on,
}
use irrigation_controller.StateStore.Zones.{
  write_zone, opened_zone, closed_zone, settle_system, state_store_open_zone,
  state_store_close_zone, state_store_record_zone_actuation_fault,
}
use irrigation_controller.StateStore.Tests.{
  is_open_or_fault, find_in, has_active_output, has_active_or_unknown_output, is_manual,
}
use irrigation_controller.StateStore.Writes.{All-find_in, All-write_in, Distinct-write_in}
use irrigation_controller.StateStore.Consistent.{
  IsConsistent, IsHeldBy, ZoneIsConsistent, output_at, output_at_inactive,
}
use irrigation_controller.StateStore.Outcomes.{
  OpenOutcome, CloseOutcome, FaultOutcome, open_zone_cases, close_zone_cases, zone_fault_cases,
  faulted, faulted_zone,
}

-- One write through the pointer to `zone`, with every other zone neither open nor at fault.
module _ {s : StateStore} {h : ℕ} (held : IsHeldBy s h) (key : Text) (zone zone' : ZoneRuntimeState)
    (system' : SystemState) (o : OutputState) (found : find_in s.zones key ≡ some zone)
    (same_id : zone'.zone_id ≡ zone.zone_id) (same_index : zone'.output_index ≡ zone.output_index)
    (quiet : (z : ZoneRuntimeState)
      → ZoneIsConsistent h s.system_state s.output_states z
      → z.output_index ≢ zone.output_index
      → is_open_or_fault z.state ≡ false)
    (dark : (i : ℕ) → i ≢ zone.output_index → output_at s.output_states i ≡ off)
    (opens : zone'.state ≡ ZoneState.opened → o ≡ on)
    (faults : zone'.state ≡ ZoneState.fault → system' ≡ SystemState.error)
    (waters : o ≡ on → s.master_valve.state ≡ MasterValveState.opened) where
  abbrev written : StateStore
  written = record (write_zone s (some key) zone' o) { system_state = system' }

  zone_in_range : zone.output_index < max_outputs
  zone_in_range = (All-find_in _ s.zones key zone found held.zones).in_range

  output_written : output_at written.output_states zone.output_index ≡ o
  output_written =
      rw same_index
        (get_or-set_self s.output_states zone.output_index o off (rw held.places zone_in_range))

  output_kept :
      (i : ℕ)
      → i ≢ zone.output_index
      → output_at written.output_states i ≡ output_at s.output_states i
  output_kept i ne =
      get_or-set_ne s.output_states zone'.output_index i o off (λ e. ne (ground arith))

  other_zone :
      (z : ZoneRuntimeState)
      → ZoneIsConsistent h s.system_state s.output_states z
      → z.output_index ≢ zone.output_index
      → ZoneIsConsistent zone.output_index written.system_state written.output_states z
  other_zone z c ne = record {
    in_range = c.in_range;
    open_on = λ e. absurd (ground (arith, quiet z c ne));
    fault_error = λ e. absurd (ground (arith, quiet z c ne));
    holds = λ e. absurd (ground (arith, quiet z c ne));
  }

  own_zone : ZoneIsConsistent zone.output_index written.system_state written.output_states zone'
  own_zone = record {
    in_range = rw same_index zone_in_range;
    open_on = λ e. ap (output_at written.output_states) same_index ∙ output_written ∙ opens e;
    fault_error = faults;
    holds = λ e. same_index;
  }

  pub write_keeps : IsHeldBy written zone.output_index
  write_keeps = record {
    places = length-set s.output_states zone'.output_index o ∙ held.places;
    distinct = Distinct-write_in s.zones key zone zone' found same_id same_index held.distinct;
    zones =
        All-write_in _ _ s.zones key zone zone' found held.distinct other_zone (λ _. own_zone)
          held.zones;
    dark = λ i ne. output_kept i ne ∙ dark i ne;
    watered = λ i e. elim (ℕ_discrete i zone.output_index) [
      | yes at ↦ waters (sym output_written ∙ ap (output_at written.output_states) (sym at) ∙ e)
      | no away ↦ held.watered i (sym (output_kept i away) ∙ e)
    ];
  }

-- With every output off and no fault recorded, no zone is open or at fault.
quiet_when_dark :
    (s : StateStore) (h : ℕ) (z : ZoneRuntimeState)
    → ZoneIsConsistent h s.system_state s.output_states z
    → has_active_output s.output_states ≡ false
    → s.system_state ≡ SystemState.manual
    → is_open_or_fault z.state ≡ false
quiet_when_dark s h z c idle system =
    ground (arith, c.open_on, c.fault_error, output_at_inactive s.output_states z.output_index idle)

-- While a zone is open or at fault, the others are not.
quiet_when_held :
    (s : StateStore) (h : ℕ) (zone z : ZoneRuntimeState)
    → ZoneIsConsistent h s.system_state s.output_states zone
    → is_open_or_fault zone.state ≡ true
    → ZoneIsConsistent h s.system_state s.output_states z
    → z.output_index ≢ zone.output_index
    → is_open_or_fault z.state ≡ false
quiet_when_held s h zone z own live c ne = ground (arith, c.holds, own.holds live)

-- Opening a zone keeps the store consistent, whatever the arguments.
pub open_zone-IsConsistent :
    (s : StateStore) (id : Option Text) (t d : ℕ)
    → IsConsistent s
    → IsConsistent (state_store_open_zone s id t d).0
open_zone-IsConsistent s id t d (h, held) = go (open_zone_cases s id t d)
  where
    go :
        OpenOutcome s id t d (state_store_open_zone s id t d)
        → IsConsistent (state_store_open_zone s id t d).0
    go (OpenOutcome.refusal same _) = rw same (h, held)
    go (OpenOutcome.opening key zone _ found _ system master idle e) = rw e (
      zone.output_index,
      write_keeps held key zone (opened_zone zone t d) s.system_state on found refl refl
          (λ z c _. quiet_when_dark s h z c idle system)
          (λ i _. output_at_inactive s.output_states i idle) (λ _. refl) (λ f. absurd (cc))
          (λ _. master),
    )

settle_system_keeps {ℓ} :
    (P : StateStore → Type ℓ) (t : StateStore)
    → P t
    → P (record t { system_state = SystemState.ready })
    → P (settle_system t)
settle_system_keeps P t as_is ready =
    elim (Bool-cases (not (has_active_or_unknown_output t) && is_manual t.system_state)) [
      | inl e ↦ rw e ready
      | inr e ↦ rw e as_is
    ]

-- So does closing one.
pub close_zone-IsConsistent :
    (s : StateStore) (id : Option Text)
    → IsConsistent s
    → IsConsistent (state_store_close_zone s id).0
close_zone-IsConsistent s id (h, held) = go (close_zone_cases s id)
  where
    settled :
        (key : Text) (zone : ZoneRuntimeState)
        → find_in s.zones key ≡ some zone
        → is_open_or_fault zone.state ≡ true
        → (system' : SystemState)
        → IsHeldBy
            (record (write_zone s (some key) (closed_zone zone) off) { system_state = system' })
            zone.output_index
    settled key zone found live system' =
        let own = All-find_in _ s.zones key zone found held.zones in
        write_keeps held key zone (closed_zone zone) system' off found refl refl
          (λ z. quiet_when_held s h zone z own live)
          (λ i ne. held.dark i (λ e. ne (e ∙ sym (own.holds live)))) (λ f. absurd (cc))
          (λ f. absurd (cc)) (λ f. absurd (cc))

    go :
        CloseOutcome s id (state_store_close_zone s id)
        → IsConsistent (state_store_close_zone s id).0
    go (CloseOutcome.refusal same _) = rw same (h, held)
    go (CloseOutcome.closing key zone _ found live e) = rw e (
      zone.output_index,
      settle_system_keeps (λ t. IsHeldBy t zone.output_index) _
          (settled key zone found live s.system_state)
          (settled key zone found live SystemState.ready),
    )

-- A fault of a zone that is open or at fault, or that was to be opened, recorded with an output
-- that is off or unknown, keeps it consistent too.
pub zone_fault-IsConsistent :
    (s : StateStore) (key : Text) (zone : ZoneRuntimeState) (o : OutputState)
    → find_in s.zones key ≡ some zone
    → (is_open_or_fault zone.state ≡ true)
      ⊎ ((s.system_state ≡ SystemState.manual) × (has_active_output s.output_states ≡ false))
    → o ≢ on
    → IsConsistent s
    → IsConsistent (state_store_record_zone_actuation_fault s (some key) o).0
zone_fault-IsConsistent s key zone o found why dim (h, held) = go (zone_fault_cases s (some key) o)
  where
    own : ZoneIsConsistent h s.system_state s.output_states zone
    own = All-find_in _ s.zones key zone found held.zones

    faulting :
        ((z : ZoneRuntimeState)
          → ZoneIsConsistent h s.system_state s.output_states z
          → z.output_index ≢ zone.output_index
          → is_open_or_fault z.state ≡ false)
        → ((i : ℕ) → i ≢ zone.output_index → output_at s.output_states i ≡ off)
        → IsHeldBy (faulted (write_zone s (some key) (faulted_zone zone) o)) zone.output_index
    faulting quiet dark =
        write_keeps held key zone (faulted_zone zone) SystemState.error o found refl refl quiet dark
          (λ f. absurd (cc)) (λ _. refl) (λ f. absurd (dim f))

    held' : IsHeldBy (faulted (write_zone s (some key) (faulted_zone zone) o)) zone.output_index
    held' = elim why [
      | inl live ↦
          faulting (λ z. quiet_when_held s h zone z own live)
            (λ i ne. held.dark i (λ e. ne (e ∙ sym (own.holds live))))
      | inr (system, idle) ↦
          faulting (λ z c _. quiet_when_dark s h z c idle system)
            (λ i _. output_at_inactive s.output_states i idle)
    ]

    go :
        FaultOutcome s (some key) o (state_store_record_zone_actuation_fault s (some key) o)
        → IsConsistent (state_store_record_zone_actuation_fault s (some key) o).0
    go (FaultOutcome.refusal same _) = rw same (h, held)
    go (FaultOutcome.faulting key' zone' same found' e) =
        let same_key : key ≡ key' = ground arith in
        let same_zone : zone ≡ zone' = ground arith in
        rw e (
          subst₂ (λ k z. IsConsistent (faulted (write_zone s (some k) (faulted_zone z) o))) same_key
            same_zone (zone.output_index, held'))
