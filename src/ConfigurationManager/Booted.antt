-- ===== src/ConfigurationManager/Booted.antt =====
-- The manager after the boot.
use irrigation_controller.Prelude.{
  if◌then◌else◌, ◌+◌, ◌≤◌, ◌≡◌, refl, sym, ap, subst, ◌∙◌, true, ◌||◌, some, List, arith, if_split,
  length, ltb,
}
use irrigation_controller.Result.{IrrigationResult, rejected, is_ok}
use irrigation_controller.Domain.{Zone, max_programs, max_zones}
use irrigation_controller.Configuration.{
  IrrigationProgramConfiguration, irrigation_configuration_validate,
}
use irrigation_controller.ConfigurationManager.{
  ConfigurationManager, claim_slot, slot_for_id, unused_slot, keep_slots,
}
use irrigation_controller.ConfigurationManager.Placing.{runtime_program, place_programs}
use irrigation_controller.ConfigurationManager.Views.{
  rebuild_programs, rebuild_schedules, rebuild_runtime_views,
}
use irrigation_controller.ConfigurationManager.Defaults.{
  default_steps, fresh_manager, dev_program, default_configuration,
  configuration_manager_init_dev_kit_defaults,
}
use irrigation_controller.ConfigurationManager.Slots.{find_slot}
use irrigation_controller.ConfigurationManager.Counting.{count_used, count_new}
use irrigation_controller.ConfigurationManager.Agreement.{ids_of}
use irrigation_controller.ConfigurationManager.Rebuilt.{Agrees, rebuild-Agrees}
use irrigation_controller.ConfigurationManager.Persisted.{
  IsValidFor, is_ok→ok, rebuild-OnlyViews, OnlyViews,
}
use irrigation_controller.ConfigurationManager.Keeping.{valid-separate}
use irrigation_controller.ConfigurationManager.Served.{IsSound}
use irrigation_controller.ConfigurationManager.Overflow.{one_used}

abbrev pub default_program : List Zone → IrrigationProgramConfiguration
default_program board = record {
  program_id = dev_program;
  display_name = dev_program;
  steps = default_steps 2 board;
}

module _ {S : Type 0} where
  -- The views of a new configuration, with the other fields of the manager.
  pub IsSound-after :
      (m m' : ConfigurationManager S)
      → OnlyViews m m'
      → IsValidFor m m.configuration
      → Agrees m.configuration.programs m'.program_slots
      → IsSound m'
  IsSound-after m m' views valid agrees = record {
    valid = subst (λ (m : ConfigurationManager S). IsValidFor m m.configuration) views valid;
    agrees =
        subst (λ programs. Agrees programs m'.program_slots)
          (ap (λ m. m.configuration.programs) views) agrees;
  }

  pub rebuilt-IsSound :
      (m : ConfigurationManager S)
      → IsValidFor m m.configuration
      → length m.program_slots ≡ max_programs
      → count_used m.program_slots + count_new m.program_slots (ids_of m.configuration.programs)
        ≤ max_programs
      → IsSound (rebuild_runtime_views true m.configuration m)
  rebuilt-IsSound m valid four room =
      IsSound-after m _ (rebuild-OnlyViews true m.configuration m) valid
        (rebuild-Agrees m m.configuration four (valid-separate m m.configuration valid) room)

  fresh-IsSound :
      (board : List Zone)
      → IsValidFor {S = S} (fresh_manager board) (default_configuration board)
      → IsSound {S = S}
          (rebuild_runtime_views true (default_configuration board) (fresh_manager board))
  unfolding default_configuration count_new find_slot
  fresh-IsSound board valid = rebuilt-IsSound (fresh_manager board) valid refl (ground arith)

  -- What the accepted defaults are.
  pub accepted_defaults :
      (m : ConfigurationManager S) (board : List Zone)
      → let r = configuration_manager_init_dev_kit_defaults m (some board) in
        is_ok r.1 ≡ true
        → (irrigation_configuration_validate (some (default_configuration board)) (some board)
            ≡ IrrigationResult.ok)
          × (r.0 ≡ rebuild_runtime_views true (default_configuration board) (fresh_manager board))
  unfolding configuration_manager_init_dev_kit_defaults
  accepted_defaults m board good =
      let answer =
        irrigation_configuration_validate (some (default_configuration board)) (some board) in
      let booted = rebuild_runtime_views true (default_configuration board) (fresh_manager board) in
      if_split
        (λ (r : ConfigurationManager S × IrrigationResult).
          is_ok r.1 ≡ true → (answer ≡ IrrigationResult.ok) × (r.0 ≡ booted))
        (ltb (length board) 2 || ltb max_zones (length board)) (m, rejected)
        (if is_ok answer then booted else fresh_manager board, answer)
        (λ size accepted. absurd (ground arith))
        (λ size accepted. (is_ok→ok answer accepted, rw accepted refl)) good

  pub defaults_lem :
      (m : ConfigurationManager S) (board : List Zone)
      → let r = configuration_manager_init_dev_kit_defaults m (some board) in
        is_ok r.1 ≡ true
        → (r.0.board_zones ≡ board) × (r.0.configuration ≡ default_configuration board)
  defaults_lem m board good =
      let same = (accepted_defaults m board good).1 in
      let views =
        rebuild-OnlyViews true (default_configuration board) (fresh_manager {S = S} board) in
      (
        ap (λ m. m.board_zones) same ∙ sym (ap (λ m. m.board_zones) views),
        ap (λ m. m.configuration) same ∙ sym (ap (λ m. m.configuration) views),
      )

  -- The defaults that are accepted are valid, and the runtime programs are those of them.
  pub defaults-IsSound :
      (m : ConfigurationManager S) (board : List Zone)
      → is_ok (configuration_manager_init_dev_kit_defaults m (some board)).1 ≡ true
      → IsSound (configuration_manager_init_dev_kit_defaults m (some board)).0
  defaults-IsSound m board good =
      let (valid, same) = accepted_defaults m board good in
      subst IsSound (sym same) (fresh-IsSound board valid)

  -- The first slot holds the program of the defaults.
  pub defaults-one_used :
      (m : ConfigurationManager S) (board : List Zone)
      → is_ok (configuration_manager_init_dev_kit_defaults m (some board)).1 ≡ true
      → (configuration_manager_init_dev_kit_defaults m (some board)).0.program_slots
        ≡ one_used dev_program (runtime_program (default_program board))
  unfolding rebuild_runtime_views rebuild_programs place_programs claim_slot slot_for_id unused_slot
      rebuild_schedules default_configuration keep_slots default_steps
  defaults-one_used m board good = ap (λ m'. m'.program_slots) (accepted_defaults m board good).1
