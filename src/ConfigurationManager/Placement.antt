-- ===== src/ConfigurationManager/Placement.antt =====
-- The loop that gives each program its slot.
use irrigation_controller.Prelude.{
  ℕ, ◌+◌, ◌≤◌, ◌≡◌, refl, sym, subst, ◌∙◌, inl, inr, Bool, true, false, if◌then◌else◌, none, some,
  List, [], ◌∷◌, Text, text_eq, text_eq_iff, text_eq_refl, arith, All, Option-cases, set, length,
  length-set,
}
use irrigation_controller.Domain.{Program}
use irrigation_controller.Configuration.{IrrigationProgramConfiguration}
use irrigation_controller.ConfigurationManager.{RuntimeSlot, claim_slot}
use irrigation_controller.ConfigurationManager.Placing.{place_programs, runtime_program}
use irrigation_controller.ConfigurationManager.Slots.{
  filled, find_kept, find_kept-claim, AreInUse, set-AreInUse,
}
use irrigation_controller.ConfigurationManager.Counting.{
  count_used, count_new, count_true, count_true-set, claim_slot-free, room-claim,
}
use irrigation_controller.ConfigurationManager.Agreement.{
  AreSeparate, ids_of, Placement, place, place_programs_step,
}

-- What holds between the rounds.
pub record IsPlacing (slots : List (RuntimeSlot Program)) (in_use : List Bool) : Type 0 where
  pub same : length in_use ≡ length slots
  pub used : AreInUse slots in_use

place-IsPlacing :
    (p : IrrigationProgramConfiguration) (i : ℕ) (slots : List (RuntimeSlot Program))
    (in_use : List Bool)
    → IsPlacing slots in_use
    → IsPlacing (place p i slots) (set in_use i true)
place-IsPlacing p i slots in_use h = record {
  same = omega (
    arith,
    h.same,
    length-set in_use i true,
    length-set slots i (filled p.program_id (runtime_program p)),
  );
  used = set-AreInUse slots in_use i p.program_id (runtime_program p) h.used;
}

-- A property of the whole loop, from one of the rounds.
pub place_programs_induct :
    (P : List IrrigationProgramConfiguration
      → List (RuntimeSlot Program)
      → List Bool
      → Placement
      → Type 0)
    → ((slots : List (RuntimeSlot Program)) (in_use : List Bool)
        → IsPlacing slots in_use
        → P [] slots in_use (slots, in_use, true))
    → ((p : IrrigationProgramConfiguration) (ps : List IrrigationProgramConfiguration)
          (slots : List (RuntimeSlot Program)) (in_use : List Bool)
        → IsPlacing slots in_use
        → claim_slot slots p.program_id ≡ none
        → P (p ∷ ps) slots in_use (slots, in_use, false))
    → ((p : IrrigationProgramConfiguration) (ps : List IrrigationProgramConfiguration)
          (slots : List (RuntimeSlot Program)) (in_use : List Bool) (i : ℕ) (r : Placement)
        → IsPlacing slots in_use
        → All (λ q. text_eq p.program_id q.program_id ≡ false) ps
        → claim_slot slots p.program_id ≡ some i
        → P ps (place p i slots) (set in_use i true) r
        → P (p ∷ ps) slots in_use r)
    → (ps : List IrrigationProgramConfiguration) (slots : List (RuntimeSlot Program))
      (in_use : List Bool)
    → AreSeparate ps
    → IsPlacing slots in_use
    → P ps slots in_use (place_programs ps slots in_use)
unfolding place_programs
place_programs_induct P end_ stop step [] slots in_use h k = end_ slots in_use k
place_programs_induct P end_ stop step (p ∷ ps) slots in_use (short, apart, h) k =
    elim (Option-cases (claim_slot slots p.program_id)) [
      | inl full ↦ rw (full, place_programs) (stop p ps slots in_use k full)
      | inr (i, claimed) ↦
          subst (P (p ∷ ps) slots in_use)
            (sym (place_programs_step p ps slots in_use i short claimed))
            (step p ps slots in_use i _ k apart claimed (
              place_programs_induct P end_ stop step ps (place p i slots) (set in_use i true) h
                (place-IsPlacing p i slots in_use k)))
    ]

no_room :
    (p : IrrigationProgramConfiguration) (ps : List IrrigationProgramConfiguration)
    (slots : List (RuntimeSlot Program))
    → claim_slot slots p.program_id ≡ none
    → count_used slots + count_new slots (ids_of (p ∷ ps)) ≤ length slots
    → ⊥
unfolding count_new
no_room p ps slots full room =
    absurd (ground (arith, claim_slot-free slots p.program_id (omega arith)))

-- With room for the new ids, every program gets its slot.
pub place_programs-finishes :
    (ps : List IrrigationProgramConfiguration) (slots : List (RuntimeSlot Program))
    (in_use : List Bool)
    → AreSeparate ps
    → IsPlacing slots in_use
    → count_used slots + count_new slots (ids_of ps) ≤ length slots
    → (place_programs ps slots in_use).2 ≡ true
place_programs-finishes =
    place_programs_induct
      (λ ps slots in_use r.
        count_used slots + count_new slots (ids_of ps) ≤ length slots → r.2 ≡ true)
      (λ slots in_use k room. refl)
      (λ p ps slots in_use k full room. absurd (no_room p ps slots full room))
      (λ p ps slots in_use i r k apart claimed later room.
        later (room-claim slots p.program_id (runtime_program p) i (ids_of ps) claimed room))

abbrev IsKeptIn : Placement → Text → Program → Type 0
IsKeptIn r id content = find_kept r.0 r.1 id ≡ some content

-- What the loop does for the programs, and for the ids of those before.
abbrev IsPlacement :
    List IrrigationProgramConfiguration
    → List (RuntimeSlot Program)
    → List Bool
    → Placement
    → Type 0
IsPlacement ps slots in_use r =
    ((x : Text) (content : Program)
      → find_kept slots in_use x ≡ some content
      → All (λ q. text_eq x q.program_id ≡ false) ps
      → IsKeptIn r x content)
    × (r.2 ≡ true → All (λ p. IsKeptIn r p.program_id (runtime_program p)) ps)
    × IsPlacing r.0 r.1
    × (length r.0 ≡ length slots)
    × (count_true r.1 ≤ count_true in_use + length ps)

place_step :
    (p : IrrigationProgramConfiguration) (ps : List IrrigationProgramConfiguration)
    (slots : List (RuntimeSlot Program)) (in_use : List Bool) (i : ℕ) (r : Placement)
    → IsPlacing slots in_use
    → All (λ q. text_eq p.program_id q.program_id ≡ false) ps
    → claim_slot slots p.program_id ≡ some i
    → IsPlacement ps (place p i slots) (set in_use i true) r
    → IsPlacement (p ∷ ps) slots in_use r
place_step p ps slots in_use i r k apart claimed (keeps, places, kept, long, few) = (
  λ x content e apart'.
      keeps x content
        (ground
          (arith, written x, text_eq_iff x p.program_id, text_eq_iff p.program_id x, apart'.0))
        apart'.1,
  λ done. (
    keeps p.program_id (runtime_program p)
        (ground (arith, written p.program_id, text_eq_refl p.program_id)) apart,
    places done,
  ),
  kept,
  long ∙ length-set slots i (filled p.program_id (runtime_program p)),
  omega (arith, few, count_true-set in_use i),
)
  where
    written :
        (x : Text)
        → find_kept (place p i slots) (set in_use i true) x
          ≡ (if text_eq p.program_id x then some (runtime_program p) else find_kept slots in_use x)
    written x = find_kept-claim slots in_use p.program_id x (runtime_program p) i k.same claimed

pub place_programs-IsPlacement :
    (ps : List IrrigationProgramConfiguration) (slots : List (RuntimeSlot Program))
    (in_use : List Bool)
    → AreSeparate ps
    → IsPlacing slots in_use
    → IsPlacement ps slots in_use (place_programs ps slots in_use)
place_programs-IsPlacement =
    place_programs_induct IsPlacement
      (λ slots in_use k. (λ x content e apart. e, λ done. tt, k, refl, omega arith))
      (λ p ps slots in_use k full.
        (λ x content e apart. e, λ done. absurd (ground arith), k, refl, omega arith))
      place_step
