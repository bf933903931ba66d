-- ===== src/ConfigurationManager/Overflow.antt =====
-- More programs than the slots hold beside those in use.
use irrigation_controller.Prelude.{
  ℕ, ◌≡◌, refl, ap, ◌∙◌, Bool, true, false, none, some, List, [], ◌∷◌, Text, text_eq, text_eq_iff,
  arith, get_elem?, replicate,
}
use irrigation_controller.Domain.{Program, max_programs}
use irrigation_controller.Configuration.{IrrigationProgramConfiguration, program_exists}
use irrigation_controller.ConfigurationManager.{
  ConfigurationManager, RuntimeSlot, claim_slot, slot_for_id, unused_slot,
}
use irrigation_controller.ConfigurationManager.Placing.{place_programs}
use irrigation_controller.ConfigurationManager.Views.{
  rebuild_programs, rebuild_runtime_views, configuration_manager_program_at,
}
use irrigation_controller.ConfigurationManager.Defaults.{free_slot, no_program}
use irrigation_controller.ConfigurationManager.Slots.{find_slot, find_slot_lem, filled}
use irrigation_controller.ConfigurationManager.Agreement.{AreSeparate, place, place_programs_step}

-- One slot is in use, and three are free.
abbrev pub one_used : Text → Program → List (RuntimeSlot Program)
one_used id content = filled id content ∷ replicate 3 (free_slot no_program)

text_eq_flip : (a b : Text) → text_eq a b ≡ false → text_eq b a ≡ false
text_eq_flip a b e = ground (arith, text_eq_iff a b, text_eq_iff b a)

module _ {A : Type 0} where
  slot_for_id-new :
      (slots : List (RuntimeSlot A)) (id : Text)
      → find_slot slots id ≡ none
      → slot_for_id slots id ≡ none
  unfolding find_slot slot_for_id
  slot_for_id-new [] id e = refl
  slot_for_id-new (slot ∷ slots) id e = ground (arith, slot_for_id-new slots id)

  -- A new id takes the first slot that is free.
  claim_slot-new :
      (slots : List (RuntimeSlot A)) (id : Text)
      → find_slot slots id ≡ none
      → claim_slot slots id ≡ unused_slot slots
  unfolding claim_slot
  claim_slot-new slots id e = rw (slot_for_id-new slots id e, claim_slot) refl

place_programs_stop :
    (p : IrrigationProgramConfiguration) (ps : List IrrigationProgramConfiguration)
    (slots : List (RuntimeSlot Program)) (in_use : List Bool)
    → claim_slot slots p.program_id ≡ none
    → place_programs (p ∷ ps) slots in_use ≡ (slots, in_use, false)
unfolding place_programs
place_programs_stop p ps slots in_use full = rw (full, place_programs) refl

overflow :
    (id : Text) (content : Program) (a b c d : IrrigationProgramConfiguration)
    → AreSeparate (a ∷ b ∷ c ∷ d ∷ [])
    → program_exists (a ∷ b ∷ c ∷ d ∷ []) id ≡ false
    → let r =
        place_programs (a ∷ b ∷ c ∷ d ∷ []) (one_used id content) (replicate max_programs false) in
      (r.2 ≡ false) × (find_slot r.0 d.program_id ≡ none)
unfolding program_exists find_slot unused_slot
overflow id content a b c d
      (short_a, (ab, (ac, (ad, x))), (short_b, (bc, (bd, y)), (short_c, (cd, z), rest))) other =
    let ia : text_eq id a.program_id ≡ false = text_eq_flip _ _ (ground arith) in
    let ib : text_eq id b.program_id ≡ false = text_eq_flip _ _ (ground arith) in
    let ic : text_eq id c.program_id ≡ false = text_eq_flip _ _ (ground arith) in
    let id_ : text_eq id d.program_id ≡ false = text_eq_flip _ _ (ground arith) in
    let s0 = one_used id content in
    let s1 = place a 1 s0 in
    let s2 = place b 2 s1 in
    let s3 = place c 3 s2 in
    rw
      (
        place_programs_step a (b ∷ c ∷ d ∷ []) s0 _ 1 short_a
            (claim_slot-new s0 a.program_id (ground (arith))),
        place_programs_step b (c ∷ d ∷ []) s1 _ 2 short_b
            (claim_slot-new s1 b.program_id (ground arith)),
        place_programs_step c (d ∷ []) s2 _ 3 short_c
            (claim_slot-new s2 c.program_id (ground arith)),
        place_programs_stop d [] s3 _ (claim_slot-new s3 d.program_id (ground arith)),
      )
      (refl, ground arith)

module _ {S : Type 0} where
  abbrev placed : ConfigurationManager S → List (RuntimeSlot Program) × List Bool × Bool
  placed m = place_programs m.configuration.programs m.program_slots (replicate max_programs false)

  -- The views stay as they are from the program on that has no slot.
  rebuild-stops :
      (m : ConfigurationManager S)
      → (placed m).2 ≡ false
      → rebuild_runtime_views true m.configuration m ≡ record m { program_slots = (placed m).0 }
  unfolding rebuild_runtime_views rebuild_programs
  rebuild-stops m stopped = ground arith

  missing-program_at :
      (m : ConfigurationManager S) (index : ℕ) (p : IrrigationProgramConfiguration)
      → get_elem? m.configuration.programs index ≡ some p
      → find_slot m.program_slots p.program_id ≡ none
      → configuration_manager_program_at m index ≡ none
  unfolding configuration_manager_program_at
  missing-program_at m index p found missing =
      rw (found, configuration_manager_program_at)
        (find_slot_lem m.program_slots p.program_id ∙ missing)

  -- One program too many: the last has no slot.
  pub rebuild-overflow :
      (m : ConfigurationManager S) (id : Text) (content : Program)
      (a b c d : IrrigationProgramConfiguration)
      → m.program_slots ≡ one_used id content
      → m.configuration.programs ≡ a ∷ b ∷ c ∷ d ∷ []
      → AreSeparate (a ∷ b ∷ c ∷ d ∷ [])
      → program_exists (a ∷ b ∷ c ∷ d ∷ []) id ≡ false
      → let m' = rebuild_runtime_views true m.configuration m in
        (configuration_manager_program_at m' 3 ≡ none)
        × (m'.runtime_schedules ≡ m.runtime_schedules)
  rebuild-overflow m id content a b c d used four separate new_ =
      let (stopped, missing) : ((placed m).2 ≡ false)
          × (find_slot (placed m).0 d.program_id ≡ none) =
        rw (used, four) (overflow id content a b c d separate new_) in
      rw (rebuild-stops m stopped) (
        missing-program_at (record m { program_slots = (placed m).0 }) 3 d
            (ap (λ ps. get_elem? ps 3) four) missing,
        refl,
      )
