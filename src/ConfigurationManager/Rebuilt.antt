-- ===== src/ConfigurationManager/Rebuilt.antt =====
-- The runtime programs after a rebuild are those of the configuration.
use irrigation_controller.Prelude.{
  ℕ, zero, suc, ◌+◌, ◌≤◌, ◌≡◌, refl, subst, ◌∙◌, true, false, some, List, [], ◌∷◌, arith, All,
  All-map, get_elem?, length, replicate,
}
use irrigation_controller.Domain.{Program, max_programs}
use irrigation_controller.Configuration.{IrrigationConfiguration, IrrigationProgramConfiguration}
use irrigation_controller.ConfigurationManager.{ConfigurationManager, RuntimeSlot}
use irrigation_controller.ConfigurationManager.Placing.{place_programs, runtime_program}
use irrigation_controller.ConfigurationManager.Views.{
  rebuild_programs, rebuild_schedules, rebuild_runtime_views, configuration_manager_program_at,
}
use irrigation_controller.ConfigurationManager.Slots.{
  find_slot, find_slot_lem, AreInUse, keep_slots-find,
}
use irrigation_controller.ConfigurationManager.Counting.{
  count_used, count_new, count_used-keep_slots, length-keep_slots,
}
use irrigation_controller.ConfigurationManager.Agreement.{AreSeparate, ids_of}
use irrigation_controller.ConfigurationManager.Placement.{
  IsPlacing, place_programs-finishes, place_programs-IsPlacement,
}

-- Every program has a slot with its name and its steps, and no other slot is in use.
pub record Agrees (programs : List IrrigationProgramConfiguration)
    (slots : List (RuntimeSlot Program)) : Type 0 where
  pub places : length slots ≡ max_programs
  pub found : All (λ p. find_slot slots p.program_id ≡ some (runtime_program p)) programs
  pub used : count_used slots ≤ length programs

none-AreInUse : (slots : List (RuntimeSlot Program)) (n : ℕ) → AreInUse slots (replicate n false)
none-AreInUse [] n = tt
none-AreInUse (slot ∷ slots) zero = tt
none-AreInUse (slot ∷ slots) (suc n) = (λ e. absurd (ground arith), none-AreInUse slots n)

-- There is a slot for each new id.
abbrev pub HasRoom : List (RuntimeSlot Program) → List IrrigationProgramConfiguration → Type 0
HasRoom slots programs = count_used slots + count_new slots (ids_of programs) ≤ max_programs

module _ {S : Type 0} where
  rebuild_programs-Agrees :
      (m : ConfigurationManager S) (c : IrrigationConfiguration)
      → length m.program_slots ≡ max_programs
      → AreSeparate c.programs
      → HasRoom m.program_slots c.programs
      → ((rebuild_programs m c).1 ≡ true) × Agrees c.programs (rebuild_programs m c).0.program_slots
  unfolding rebuild_programs
  rebuild_programs-Agrees m c four separate room =
      let start : IsPlacing m.program_slots (replicate max_programs false) = record {
        same = omega arith;
        used = none-AreInUse m.program_slots max_programs;
      } in
      let r = place_programs c.programs m.program_slots (replicate max_programs false) in
      let done =
        place_programs-finishes c.programs m.program_slots _ separate start (omega arith) in
      let (_, places, kept, long, few) =
        place_programs-IsPlacement c.programs m.program_slots _ separate start in
      rw (done, rebuild_programs)
        (
          refl,
          record {
            places = length-keep_slots r.0 r.1 ∙ long ∙ four;
            found =
                All-map _ _
                  (λ p e. keep_slots-find r.0 r.1 p.program_id (runtime_program p) kept.used e)
                  c.programs (places done);
            used = omega (arith, count_used-keep_slots r.0 r.1 kept.same, few);
          },
        )

  pub rebuild-Agrees :
      (m : ConfigurationManager S) (c : IrrigationConfiguration)
      → length m.program_slots ≡ max_programs
      → AreSeparate c.programs
      → HasRoom m.program_slots c.programs
      → Agrees c.programs (rebuild_runtime_views true c m).program_slots
  unfolding rebuild_runtime_views rebuild_schedules
  rebuild-Agrees m c four separate room =
      let (finished, agrees) = rebuild_programs-Agrees m c four separate room in
      rw (finished, rebuild_runtime_views) agrees

  -- What the manager hands out for a program.
  pub program_at_lem :
      (m : ConfigurationManager S) (index : ℕ) (p : IrrigationProgramConfiguration)
      → Agrees m.configuration.programs m.program_slots
      → get_elem? m.configuration.programs index ≡ some p
      → configuration_manager_program_at m index ≡ some (runtime_program p)
  unfolding configuration_manager_program_at
  program_at_lem m index p agrees found =
      rw (found, configuration_manager_program_at)
        (find_slot_lem m.program_slots p.program_id
          ∙ at_index m.configuration.programs index agrees.found found)
    where
      at_index :
          (programs : List IrrigationProgramConfiguration) (index : ℕ)
          → All (λ p. find_slot m.program_slots p.program_id ≡ some (runtime_program p)) programs
          → get_elem? programs index ≡ some p
          → find_slot m.program_slots p.program_id ≡ some (runtime_program p)
      at_index [] index h e = absurd (ground arith)
      at_index (q ∷ programs) zero (h, hs) e =
          let same : q ≡ p = cc in
          subst (λ p. find_slot m.program_slots p.program_id ≡ some (runtime_program p)) same h
      at_index (q ∷ programs) (suc index) (h, hs) e = at_index programs index hs e
