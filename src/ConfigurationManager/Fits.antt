-- ===== src/ConfigurationManager/Fits.antt =====
-- Which candidates find room in the slots beside the programs that hold them.
use irrigation_controller.Prelude.{
  ℕ, ◌+◌, ◌≤◌, ◌≡◌, refl, ap, subst, inl, inr, Bool, true, false, not, some, List, [], ◌∷◌, Text,
  text_eq, text_eq_iff, text_eq→eq, arith, All, Bool-cases, length, is_none,
}
use irrigation_controller.Domain.{Program, max_programs}
use irrigation_controller.Configuration.{
  IrrigationConfiguration, IrrigationProgramConfiguration, IrrigationProgramStepConfiguration,
  program_exists,
}
use irrigation_controller.ConfigurationManager.{
  ConfigurationManager, RuntimeSlot, steps_are_equal, programs_are_equal,
}
use irrigation_controller.ConfigurationManager.Placing.{runtime_program}
use irrigation_controller.ConfigurationManager.Views.{rebuild_schedules, rebuild_runtime_views}
use irrigation_controller.ConfigurationManager.Slots.{find_slot}
use irrigation_controller.ConfigurationManager.Counting.{count_new, one_if}
use irrigation_controller.ConfigurationManager.Agreement.{AreSeparate, ids_of}
use irrigation_controller.ConfigurationManager.Rebuilt.{Agrees, rebuild-Agrees}

-- The programs of `news` whose ids `olds` does not have, counted.
abbrev pub extra : List IrrigationProgramConfiguration → List IrrigationProgramConfiguration → ℕ
extra olds [] = 0
extra olds (p ∷ news) = one_if (not (program_exists olds p.program_id)) + extra olds news

-- Both lists together have no more ids than there are slots.
pub record Fits (olds news : List IrrigationProgramConfiguration) : Type 0 where
  pub ahead : length olds + extra olds news ≤ max_programs
  pub back : length news + extra news olds ≤ max_programs

exists-find_slot :
    (slots : List (RuntimeSlot Program)) (olds : List IrrigationProgramConfiguration) (id : Text)
    → All (λ p. find_slot slots p.program_id ≡ some (runtime_program p)) olds
    → program_exists olds id ≡ true
    → is_none (find_slot slots id) ≡ false
unfolding program_exists
exists-find_slot slots [] id h e = absurd (ground arith)
exists-find_slot slots (p ∷ olds) id (h, hs) e = elim (Bool-cases (text_eq p.program_id id)) [
  | inl same ↦
      let found : find_slot slots id ≡ some (runtime_program p) =
        subst (λ id. find_slot slots id ≡ some (runtime_program p))
          (text_eq→eq p.program_id id same) h in
      ap is_none found
  | inr other ↦ exists-find_slot slots olds id hs (ground arith)
]

count_new-le-extra :
    (slots : List (RuntimeSlot Program)) (olds news : List IrrigationProgramConfiguration)
    → All (λ p. find_slot slots p.program_id ≡ some (runtime_program p)) olds
    → count_new slots (ids_of news) ≤ extra olds news
unfolding count_new
count_new-le-extra slots olds [] h = omega arith
count_new-le-extra slots olds (p ∷ news) h = elim (Bool-cases (program_exists olds p.program_id)) [
  | inl old ↦
      ground (
        arith,
        exists-find_slot slots olds p.program_id h old,
        count_new-le-extra slots olds news h,
      )
  | inr new_ ↦ ground (arith, count_new-le-extra slots olds news h)
]

steps_are_equal→eq :
    (a b : List IrrigationProgramStepConfiguration) → steps_are_equal a b ≡ true → a ≡ b
unfolding steps_are_equal
steps_are_equal→eq [] [] e = refl
steps_are_equal→eq [] (y ∷ b) e = absurd (ground arith)
steps_are_equal→eq (x ∷ a) [] e = absurd (ground arith)
steps_are_equal→eq (x ∷ a) (y ∷ b) e =
    ground (arith, text_eq_iff x.zone_id y.zone_id, steps_are_equal→eq a b)

pub programs_are_equal→eq :
    (a b : List IrrigationProgramConfiguration) → programs_are_equal a b ≡ true → a ≡ b
unfolding programs_are_equal
programs_are_equal→eq [] [] e = refl
programs_are_equal→eq [] (y ∷ b) e = absurd (ground arith)
programs_are_equal→eq (x ∷ a) [] e = absurd (ground arith)
programs_are_equal→eq (x ∷ a) (y ∷ b) e = ground (
  arith,
  text_eq_iff x.program_id y.program_id,
  text_eq_iff x.display_name y.display_name,
  steps_are_equal→eq x.steps y.steps,
  programs_are_equal→eq a b,
)

module _ {S : Type 0} where
  -- The rebuild of `replace_candidate`, for the candidate or back for the configuration.
  pub rebuild_if-Agrees :
      (m : ConfigurationManager S) (c : IrrigationConfiguration)
      (olds : List IrrigationProgramConfiguration) (changed : Bool)
      → Agrees olds m.program_slots
      → (changed ≡ false → olds ≡ c.programs)
      → AreSeparate c.programs
      → length olds + extra olds c.programs ≤ max_programs
      → Agrees c.programs (rebuild_runtime_views changed c m).program_slots
  unfolding rebuild_runtime_views rebuild_schedules
  rebuild_if-Agrees m c olds true agrees same separate fits =
      rebuild-Agrees m c agrees.places separate (
        omega (arith, agrees.used, count_new-le-extra m.program_slots olds c.programs agrees.found))
  rebuild_if-Agrees m c olds false agrees same separate fits =
      subst (λ programs. Agrees programs m.program_slots) (same refl) agrees
