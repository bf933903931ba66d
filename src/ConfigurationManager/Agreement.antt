-- ===== src/ConfigurationManager/Agreement.antt =====
-- The runtime programs are those of the configuration.
use irrigation_controller.Prelude.{
  ℕ, zero, suc, ◌≤◌, ◌<◌, ◌≡◌, refl, ap, Bool, true, false, ◌||◌, some, List, [], ◌∷◌, ◌++◌, map,
  Text, text_eq, arith, All, set, length, take,
}
use irrigation_controller.Domain.{Program, Zone}
use irrigation_controller.Configuration.{
  IrrigationProgramConfiguration, id_size, programs_are_valid, is_repeated, text_is_valid,
}
use irrigation_controller.ConfigurationManager.{RuntimeSlot, claim_slot}
use irrigation_controller.ConfigurationManager.Placing.{
  place_programs, program_slot, runtime_program,
}
use irrigation_controller.ConfigurationManager.Slots.{filled}

-- The copy of a text that fits is the text.
pub take_all : (n : ℕ) (t : Text) → length t ≤ n → take n t ≡ t
take_all zero [] h = refl
take_all zero (c ∷ t) h = absurd (omega arith)
take_all (suc n) [] h = refl
take_all (suc n) (c ∷ t) h = ap (λ t'. c ∷ t') (take_all n t (omega arith))

abbrev pub ids_of : List IrrigationProgramConfiguration → List Text
ids_of = map (λ p. p.program_id)

-- The ids fit their buffers and differ from one another.
abbrev pub AreSeparate : List IrrigationProgramConfiguration → Type 0
AreSeparate [] = Unit {0}
AreSeparate (p ∷ ps) =
    (length p.program_id < id_size)
    × All (λ q. text_eq p.program_id q.program_id ≡ false) ps
    × AreSeparate ps

is_repeated-append :
    (id : Text) (xs : List Text) (x : Text)
    → is_repeated id (xs ++ x ∷ []) ≡ (is_repeated id xs || text_eq x id)
unfolding is_repeated
is_repeated-append id [] x = ground arith
is_repeated-append id (y ∷ xs) x = ground (arith, is_repeated-append id xs x)

-- `x` stands before the programs that are checked.
abbrev IsBefore : Text → List Text → Type 0
IsBefore x before = (id : Text) → is_repeated id before ≡ false → text_eq x id ≡ false

valid-Apart :
    (board : List Zone) (before : List Text) (ps : List IrrigationProgramConfiguration) (x : Text)
    → IsBefore x before
    → programs_are_valid board before ps ≡ true
    → All (λ q. text_eq x q.program_id ≡ false) ps
unfolding programs_are_valid
valid-Apart board before [] x first v = tt
valid-Apart board before (p ∷ ps) x first v = (
  first p.program_id (ground arith),
  valid-Apart board (before ++ p.program_id ∷ []) ps x
      (λ id e. first id (ground (arith, is_repeated-append id before p.program_id))) (ground arith),
)

pub valid-AreSeparate :
    (board : List Zone) (before : List Text) (ps : List IrrigationProgramConfiguration)
    → programs_are_valid board before ps ≡ true
    → AreSeparate ps
unfolding programs_are_valid text_is_valid
valid-AreSeparate board before [] v = tt
valid-AreSeparate board before (p ∷ ps) v = (
  ground arith,
  valid-Apart board (before ++ p.program_id ∷ []) ps p.program_id
      (λ id e. ground (arith, is_repeated-append id before p.program_id)) (ground arith),
  valid-AreSeparate board (before ++ p.program_id ∷ []) ps (ground arith),
)

-- The slot that is written for a program whose id fits.
program_slot_lem :
    (p : IrrigationProgramConfiguration)
    → length p.program_id < id_size
    → program_slot p ≡ filled p.program_id (runtime_program p)
program_slot_lem p short =
    ap (λ id. filled id (runtime_program p)) (take_all 31 p.program_id (omega arith))

abbrev pub Placement : Type 0
Placement = List (RuntimeSlot Program) × List Bool × Bool

-- What one round of the loop writes.
abbrev pub place :
    IrrigationProgramConfiguration → ℕ → List (RuntimeSlot Program) → List (RuntimeSlot Program)
place p i slots = set slots i (filled p.program_id (runtime_program p))

-- One round of the loop, for a program whose id fits.
pub place_programs_step :
    (p : IrrigationProgramConfiguration) (ps : List IrrigationProgramConfiguration)
    (slots : List (RuntimeSlot Program)) (in_use : List Bool) (i : ℕ)
    → length p.program_id < id_size
    → claim_slot slots p.program_id ≡ some i
    → place_programs (p ∷ ps) slots in_use ≡ place_programs ps (place p i slots) (set in_use i true)
unfolding place_programs
place_programs_step p ps slots in_use i short claimed =
    rw (claimed, place_programs)
      (ap (λ slot. place_programs ps (set slots i slot) (set in_use i true))
        (program_slot_lem p short))
