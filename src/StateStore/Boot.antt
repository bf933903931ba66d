-- ===== src/StateStore/Boot.antt =====
-- The store after `state_store_init` and `state_store_configure_zones`.
use irrigation_controller.Prelude.{
  ℕ, ◌<◌, ◌≡◌, ◌≢◌, ◌⊎◌, refl, subst, inl, inr, true, false, some, Text, List, [], ◌∷◌, ◌++◌, arith,
  All, All-map, All-append, length, ltb, text_eq_refl, Bool-cases, Option-cases,
}
use irrigation_controller.Result.{is_ok}
use irrigation_controller.Domain.{Zone, max_outputs, max_zones}
use irrigation_controller.StateStore.{StateStore, ZoneRuntimeState, state_store_init}
use irrigation_controller.StateStore.Zones.{
  clashes, configure_zone, configure_loop, state_store_configure_zones,
}
use irrigation_controller.StateStore.Tests.{is_open_or_fault, has_active_output}
use irrigation_controller.StateStore.Writes.{Apart, Distinct}
use irrigation_controller.StateStore.Consistent.{
  IsConsistent, IsHeldBy, ZoneIsConsistent, output_at_inactive,
}

-- A configured zone: its output exists, and it is neither open nor at fault.
record IsFresh (zone : ZoneRuntimeState) : Type 0 where
  in_range : zone.output_index < max_outputs
  shut : is_open_or_fault zone.state ≡ false

clashes-false :
    (id : Text) (index : ℕ) (zs : List ZoneRuntimeState)
    → clashes id index zs ≡ false
    → All (λ y. (id ≢ y.zone_id) × (index ≢ y.output_index)) zs
unfolding clashes
clashes-false id index [] h = tt
clashes-false id index (z ∷ zs) h = (
  (λ e. ground (arith, text_eq_refl id), λ e. ground arith),
  clashes-false id index zs (ground arith),
)

Distinct-snoc :
    (zs : List ZoneRuntimeState) (z : ZoneRuntimeState)
    → Distinct zs
    → All (λ y. Apart y z) zs
    → Distinct (zs ++ z ∷ [])
Distinct-snoc [] z d a = (tt, tt)
Distinct-snoc (y ∷ zs) z (b, d) (p, a) =
    (All-append (Apart y) zs (z ∷ []) b (p, tt), Distinct-snoc zs z d a)

configure_zone_lem :
    (previous : List ZoneRuntimeState) (zone : Zone) (z : ZoneRuntimeState)
    → configure_zone previous zone ≡ some z
    → IsFresh z × (clashes z.zone_id z.output_index previous ≡ false)
unfolding configure_zone
configure_zone_lem previous zone z e =
    (record { in_range = ground arith; shut = ground arith }, ground arith)

configure_loop_lem :
    (configured : List ZoneRuntimeState) (zones : List Zone) (out : List ZoneRuntimeState)
    → configure_loop configured zones ≡ some out
    → Distinct configured
    → All IsFresh configured
    → Distinct out × All IsFresh out
unfolding configure_loop
configure_loop_lem configured [] out e d f =
    subst (λ zs. Distinct zs × All IsFresh zs) (ground arith) (d, f)
configure_loop_lem configured (zone ∷ zones) out e d f =
    elim (Option-cases (configure_zone configured zone)) [
      | inl stop ↦ absurd (ground arith)
      | inr (z, next) ↦
          let (fresh, apart) = configure_zone_lem configured zone z next in
          configure_loop_lem (configured ++ z ∷ []) zones out (ground arith)
            (Distinct-snoc configured z d (clashes-false z.zone_id z.output_index configured apart))
            (All-append IsFresh configured (z ∷ []) f (fresh, tt))
    ]

fresh_zone :
    (s : StateStore) (z : ZoneRuntimeState)
    → IsFresh z
    → ZoneIsConsistent 0 s.system_state s.output_states z
fresh_zone s z f = record {
  in_range = f.in_range;
  open_on = λ e. absurd (ground (arith, f.shut));
  fault_error = λ e. absurd (ground (arith, f.shut));
  holds = λ e. absurd (ground (arith, f.shut));
}

fresh-IsHeldBy :
    (s : StateStore)
    → length s.output_states ≡ max_outputs
    → has_active_output s.output_states ≡ false
    → Distinct s.zones
    → All IsFresh s.zones
    → IsHeldBy s 0
fresh-IsHeldBy s places idle d f = record {
  places = places;
  distinct = d;
  zones = All-map IsFresh _ (fresh_zone s) s.zones f;
  dark = λ i _. output_at_inactive s.output_states i idle;
  watered = λ i e. absurd (ground (arith, output_at_inactive s.output_states i idle));
}

-- Configuring zones while all outputs are off: success gives a consistent store, whose zones have
-- distinct ids and outputs; any other result leaves the store as it was.
pub configure_zones-IsConsistent :
    (s : StateStore) (zones : List Zone)
    → length s.output_states ≡ max_outputs
    → has_active_output s.output_states ≡ false
    → let (s', result) = state_store_configure_zones s zones in
      ((is_ok result ≡ true) × IsConsistent s') ⊎ ((is_ok result ≡ false) × (s' ≡ s))
unfolding state_store_configure_zones
configure_zones-IsConsistent s zones places idle =
    elim (Bool-cases (ltb max_zones (length zones))) [
      | inl many ↦ rw many (inr (refl, refl))
      | inr few ↦ elim (Option-cases (configure_loop [] zones)) [
        | inl stop ↦ inr (ground arith, ground arith)
        | inr (out, built) ↦
            let (d, f) = configure_loop_lem [] zones out built tt tt in
            let stored : record s { zones = out } ≡ (state_store_configure_zones s zones).0 =
              ground arith in
            inl (
              ground arith,
              subst IsConsistent stored
                  (0, fresh-IsHeldBy (record s { zones = out }) places idle d f),
            )
      ]
    ]

-- The store that `state_store_init` leaves is consistent, with no zones yet.
pub init-IsConsistent : IsConsistent state_store_init
unfolding state_store_init has_active_output
init-IsConsistent = (0, fresh-IsHeldBy state_store_init refl refl tt tt)
