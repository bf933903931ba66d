-- ===== src/ConfigurationManager/Overfull.antt =====
-- A stored configuration with more programs than the boot has slots for.
use irrigation_controller.Prelude.{
  ℕ, zero, suc, ◌≤◌, ◌≡◌, refl, sym, ap, subst, ◌∙◌, true, false, none, some, List, [], ◌∷◌,
  text_eq, arith, length, take, Pointer,
}
use irrigation_controller.Prelude.Tests.{text_eq}
use irrigation_controller.Result.{is_ok}
use irrigation_controller.Domain.{Zone}
use irrigation_controller.Configuration.{
  IrrigationConfiguration, IrrigationProgramConfiguration, program_exists,
}
use irrigation_controller.Repository.Encode.{done}
use irrigation_controller.Repository.Slots.{
  ConfigurationRepositoryStorage, configuration_repository_load,
}
use irrigation_controller.ConfigurationManager.{ConfigurationManager, loaded}
use irrigation_controller.ConfigurationManager.Views.{
  rebuild_runtime_views, configuration_manager_program_at,
}
use irrigation_controller.ConfigurationManager.Replace.{System}
use irrigation_controller.ConfigurationManager.Boot.{configuration_manager_load_or_persist_defaults}
use irrigation_controller.ConfigurationManager.Defaults.{
  dev_program, default_configuration, configuration_manager_init_dev_kit_defaults,
}
use irrigation_controller.ConfigurationManager.Agreement.{AreSeparate}
use irrigation_controller.ConfigurationManager.Keeping.{valid-separate}
use irrigation_controller.ConfigurationManager.Persisted.{rebuild-OnlyViews}
use irrigation_controller.ConfigurationManager.Overflow.{rebuild-overflow}
use irrigation_controller.ConfigurationManager.Booted.{
  accepted_defaults, defaults_lem, defaults-one_used,
}
use irrigation_controller.ConfigurationManager.Loaded.{
  stored_for, with_stored, load_found, stored-IsValid,
}
use irrigation_controller.ConfigurationManager.Boot.{configuration_manager_configure_scheduler}
use irrigation_controller.ConfigurationManager.Defaults.{no_schedule}
use irrigation_controller.ConfigurationManager.{
  program_index_for_id, claim_slot, slot_for_id, unused_slot, keep_slots,
}
use irrigation_controller.ConfigurationManager.Placing.{
  place_schedules, slot_of_program, place_programs,
}
use irrigation_controller.ConfigurationManager.Defaults.{default_steps}
use irrigation_controller.ConfigurationManager.Views.{rebuild_programs, rebuild_schedules}
use irrigation_controller.Device.{SchedulerEntry}
use irrigation_controller.StateStore.{StateStore}
use irrigation_controller.SchedulerService.{
  scheduler_service_configure, check_entries, entry_is_valid,
}

four_programs :
    (programs : List IrrigationProgramConfiguration)
    → length programs ≡ 4
    → (a b c d : IrrigationProgramConfiguration) × (programs ≡ a ∷ b ∷ c ∷ d ∷ [])
four_programs (a ∷ b ∷ c ∷ d ∷ []) e = (a, b, c, d, refl)
four_programs _ e = absurd (omega arith)

module _ {S : Type 0} where
  -- The second place of the schedules of the defaults is still zeroed.
  defaults-schedules :
      (m : ConfigurationManager S) (board : List Zone)
      → is_ok (configuration_manager_init_dev_kit_defaults m (some board)).1 ≡ true
      → (x : SchedulerEntry) × (rest : List SchedulerEntry)
        × ((configuration_manager_init_dev_kit_defaults m (some board)).0.runtime_schedules
            ≡ x ∷ no_schedule ∷ rest)
  unfolding rebuild_runtime_views rebuild_programs place_programs claim_slot slot_for_id unused_slot
      rebuild_schedules default_configuration keep_slots default_steps place_schedules
      slot_of_program program_index_for_id text_eq
  defaults-schedules m board good =
      (_, _, ap (λ m'. m'.runtime_schedules) (accepted_defaults m board good).1)

zeroed_rejected :
    (store : StateStore) (old before rest : List SchedulerEntry) (x : SchedulerEntry)
    → check_entries store old before (x ∷ no_schedule ∷ rest) ≡ none
unfolding check_entries entry_is_valid
zeroed_rejected store old before rest x = ground arith

take_two :
    (n : ℕ) (x y : SchedulerEntry) (rest : List SchedulerEntry)
    → 2 ≤ n
    → (rest' : List SchedulerEntry) × (take n (x ∷ y ∷ rest) ≡ x ∷ y ∷ rest')
take_two zero x y rest h = absurd (omega arith)
take_two (suc zero) x y rest h = absurd (omega arith)
take_two (suc (suc n)) x y rest h = (take n rest, refl)

module _ {D V H S : Type 0} where
  -- After the defaults, a load that gives a configuration of four programs, none of which has the id
  -- of the default program, returns LOADED and the manager has that configuration, yet it hands out
  -- no program at index 3, and the schedules of the scheduler stay those of the defaults.
  pub load-overflow :
      (m : ConfigurationManager S) (board : List Zone)
      (repository : ConfigurationRepositoryStorage S) (s : System D V H S)
      (c : IrrigationConfiguration) (g : ℕ)
      → let (defaults, answer) = configuration_manager_init_dev_kit_defaults m (some board) in
        is_ok answer ≡ true
        → s.manager ≡ defaults
        → configuration_repository_load repository s.storage (some board) ≡ done (c, g)
        → length c.programs ≡ 4
        → program_exists c.programs dev_program ≡ false
        → let (s', boot) = configuration_manager_load_or_persist_defaults (some repository) s in
          (boot ≡ loaded)
          × (s'.manager.configuration ≡ c)
          × (configuration_manager_program_at s'.manager 3 ≡ none)
          × (s'.manager.runtime_schedules ≡ s.manager.runtime_schedules)
  load-overflow m board repository s c g good start e four new_ =
      let (p, q, r, t, list) = four_programs c.programs four in
      let zones : s.manager.board_zones ≡ board =
        ap (λ m. m.board_zones) start ∙ (defaults_lem m board good).0 in
      let stored : stored_for repository s ≡ done (c, g) =
        ap (λ zones. configuration_repository_load repository s.storage (some zones)) zones ∙ e in
      let m' = with_stored c s.manager in
      let separate =
        subst AreSeparate list (valid-separate m' c (stored-IsValid repository s c g stored)) in
      let used = ap (λ m. m.program_slots) start ∙ defaults-one_used m board good in
      let missing =
        rebuild-overflow m' dev_program _ p q r t used list separate
          (subst (λ programs. program_exists programs dev_program ≡ false) list new_) in
      rw (load_found repository s c g stored)
        (refl, ap (λ m. m.configuration) (sym (rebuild-OnlyViews true c m')), missing.0, missing.1)

  zeroed_configure :
      (s : System D V H S) (scheduler_service : Pointer) (x : SchedulerEntry)
      (rest : List SchedulerEntry)
      → s.manager.runtime_schedules ≡ x ∷ no_schedule ∷ rest
      → 2 ≤ length s.manager.configuration.schedules
      → is_ok (configuration_manager_configure_scheduler scheduler_service s).1 ≡ false
  unfolding configuration_manager_configure_scheduler scheduler_service_configure
  zeroed_configure s scheduler_service x rest zeroed two =
      let (rest', taken) =
        take_two (length s.manager.configuration.schedules) x no_schedule rest two in
      rw (zeroed, taken)
        (ground
          (arith, zeroed_rejected s.device.store s.device.scheduler_service.entries [] rest' x))

  -- After the defaults and a load that gives a configuration of four programs, none of which has the
  -- id of the default program, and of two or more schedules,
  -- `configuration_manager_configure_scheduler` does not return OK.
  pub overflow-configure :
      (m : ConfigurationManager S) (board : List Zone)
      (repository : ConfigurationRepositoryStorage S) (s : System D V H S)
      (c : IrrigationConfiguration) (g : ℕ) (scheduler_service : Pointer)
      → let (defaults, answer) = configuration_manager_init_dev_kit_defaults m (some board) in
        is_ok answer ≡ true
        → s.manager ≡ defaults
        → configuration_repository_load repository s.storage (some board) ≡ done (c, g)
        → length c.programs ≡ 4
        → program_exists c.programs dev_program ≡ false
        → 2 ≤ length c.schedules
        → let s' = (configuration_manager_load_or_persist_defaults (some repository) s).0 in
          is_ok (configuration_manager_configure_scheduler scheduler_service s').1 ≡ false
  overflow-configure m board repository s c g scheduler_service good start e four new_ two =
      let (done_, same, missing, kept) =
        load-overflow m board repository s c g good start e four new_ in
      let (x, rest, zeroed) = defaults-schedules m board good in
      zeroed_configure (configuration_manager_load_or_persist_defaults (some repository) s).0
        scheduler_service x rest (kept ∙ ap (λ m. m.runtime_schedules) start ∙ zeroed)
        (subst (λ c. 2 ≤ length c.schedules) (sym same) two)
