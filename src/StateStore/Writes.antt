-- ===== src/StateStore/Writes.antt =====
-- Writes through a pointer of `find_zone`: what the other zones keep.
use irrigation_controller.Prelude.{
  ◌≡◌, ◌≢◌, sym, subst, inl, inr, some, List, [], ◌∷◌, Text, text_eq, arith, Bool-cases, All,
  All-map, All-map₂,
}
use irrigation_controller.StateStore.{ZoneRuntimeState}
use irrigation_controller.StateStore.Tests.{find_in, write_in}

-- Two zones differ in their ids and in their outputs.
abbrev pub Apart : ZoneRuntimeState → ZoneRuntimeState → Type 0
Apart z y = (y.zone_id ≢ z.zone_id) × (y.output_index ≢ z.output_index)

abbrev pub Distinct : List ZoneRuntimeState → Type 0
Distinct [] = Unit {0}
Distinct (z ∷ zs) = All (Apart z) zs × Distinct zs

pub All-find_in :
    (P : ZoneRuntimeState → Type 0) (zs : List ZoneRuntimeState) (id : Text) (w : ZoneRuntimeState)
    → find_in zs id ≡ some w
    → All P zs
    → P w
unfolding find_in
All-find_in P [] id w e h = absurd (cc)
All-find_in P (z ∷ zs) id w e (p, h) = elim (Bool-cases (text_eq z.zone_id id)) [
  | inl t ↦ subst P (ground arith) p
  | inr f ↦ All-find_in P zs id w (ground arith) h
]

pub All-write_in :
    (P Q : ZoneRuntimeState → Type 0) (zs : List ZoneRuntimeState) (id : Text)
    (w w' : ZoneRuntimeState)
    → find_in zs id ≡ some w
    → Distinct zs
    → ((z : ZoneRuntimeState) → P z → z.output_index ≢ w.output_index → Q z)
    → (P w → Q w')
    → All P zs
    → All Q (write_in zs id w')
unfolding find_in write_in
All-write_in P Q [] id w w' e d f g h = tt
All-write_in P Q (z ∷ zs) id w w' e (a, d) f g (p, h) = elim (Bool-cases (text_eq z.zone_id id)) [
  | inl t ↦ rw t (
      let here : z ≡ w = ground arith in
      (
        g (subst P here p),
        All-map₂ P (Apart z) Q
            (λ y q r. f y q (subst (λ x. y.output_index ≢ x.output_index) here r.1)) zs h a,
      ))
  | inr n ↦ rw n (
      let there : find_in zs id ≡ some w = ground arith in
      (
        f z p (λ same. (All-find_in (Apart z) zs id w there a).1 (sym same)),
        All-write_in P Q zs id w w' there d f g h,
      ))
]

pub Distinct-write_in :
    (zs : List ZoneRuntimeState) (id : Text) (w w' : ZoneRuntimeState)
    → find_in zs id ≡ some w
    → w'.zone_id ≡ w.zone_id
    → w'.output_index ≡ w.output_index
    → Distinct zs
    → Distinct (write_in zs id w')
unfolding find_in write_in
Distinct-write_in [] id w w' e i o d = tt
Distinct-write_in (z ∷ zs) id w w' e i o (a, d) = elim (Bool-cases (text_eq z.zone_id id)) [
  | inl t ↦ rw t (
      let here : z ≡ w = ground arith in
      (
        All-map (Apart z) (Apart w') (λ y q. (λ s. q.0 (ground arith), λ s. q.1 (ground arith))) zs
            a,
        d,
      ))
  | inr n ↦ rw n (
      let there : find_in zs id ≡ some w = ground arith in
      (
        All-write_in (Apart z) (Apart z) zs id w w' there d (λ y q r. q)
            (λ q. (λ s. q.0 (ground arith), λ s. q.1 (ground arith))) a,
        Distinct-write_in zs id w w' there i o d,
      ))
]
