-- ===== src/ConfigurationManager/Loaded.antt =====
-- The manager after the boot, with the stored configuration or without.
use irrigation_controller.Prelude.{
  ℕ, ◌+◌, ◌≤◌, ◌≡◌, refl, sym, subst, inl, inr, Bool, true, not, Option, none, some, List, arith,
  if_split, length,
}
use irrigation_controller.Result.{is_ok}
use irrigation_controller.Domain.{Zone, max_programs}
use irrigation_controller.Configuration.{IrrigationConfiguration, IrrigationProgramConfiguration}
use irrigation_controller.Repository.{ConfigurationRepositoryResult}
use irrigation_controller.Repository.Encode.{Stored, Stored-cases, done, failed}
use irrigation_controller.Repository.Slots.{
  ConfigurationRepositoryStorage, configuration_repository_load,
}
use irrigation_controller.Repository.Slots.Validated.{load-IsValid}
use irrigation_controller.ConfigurationManager.{
  ConfigurationManager, ConfigurationManagerBootResult, loaded,
}
use irrigation_controller.ConfigurationManager.Views.{rebuild_runtime_views}
use irrigation_controller.ConfigurationManager.Replace.{System}
use irrigation_controller.ConfigurationManager.Boot.{
  persist_defaults, is_not_found, choose_repository, configuration_manager_load_or_persist_defaults,
  initialize_configuration,
}
use irrigation_controller.ConfigurationManager.Defaults.{
  default_configuration, configuration_manager_init_dev_kit_defaults,
}
use irrigation_controller.ConfigurationManager.Keeping.{valid-separate}
use irrigation_controller.ConfigurationManager.Fits.{extra, rebuild_if-Agrees}
use irrigation_controller.ConfigurationManager.Persisted.{IsValidFor, is_ok→ok, rebuild-OnlyViews}
use irrigation_controller.ConfigurationManager.Served.{IsSound}
use irrigation_controller.ConfigurationManager.Booted.{
  IsSound-after, defaults_lem, defaults-IsSound,
}

module _ {S : Type 0} where
  -- The programs of a stored configuration, if a load gives one, have slots beside those of `olds`.
  abbrev pub StoredFit :
      ConfigurationRepositoryStorage S
      → S
      → List Zone
      → List IrrigationProgramConfiguration
      → Type 0
  StoredFit repository storage board olds =
      (c : IrrigationConfiguration) (g : ℕ)
      → configuration_repository_load repository storage (some board) ≡ done (c, g)
      → length olds + extra olds c.programs ≤ max_programs

  abbrev pub with_stored : IrrigationConfiguration → ConfigurationManager S → ConfigurationManager S
  with_stored c m = record m { configuration = c; candidate = c }

  repository-IsSound :
      (repository : Option (ConfigurationRepositoryStorage S)) (required : Bool)
      (m : ConfigurationManager S)
      → IsSound m
      → IsSound (record m { repository = repository; persistence_required = required })
  repository-IsSound repository required m sound = record {
    valid = sound.valid;
    agrees = sound.agrees;
  }

module _ {D V H S : Type 0} where
  -- What the storage holds for the board of the manager.
  abbrev pub stored_for :
      ConfigurationRepositoryStorage S → System D V H S → Stored (IrrigationConfiguration × ℕ)
  stored_for repository s =
      configuration_repository_load repository s.storage (some s.manager.board_zones)

  pub load_found :
      (repository : ConfigurationRepositoryStorage S) (s : System D V H S)
      (c : IrrigationConfiguration) (g : ℕ)
      → stored_for repository s ≡ done (c, g)
      → configuration_manager_load_or_persist_defaults (some repository) s
        ≡ (record s { manager = rebuild_runtime_views true c (with_stored c s.manager) }, loaded)
  unfolding configuration_manager_load_or_persist_defaults
  load_found repository s c g e = rw (e, configuration_manager_load_or_persist_defaults) refl

  load_failed :
      (repository : ConfigurationRepositoryStorage S) (s : System D V H S)
      (result : ConfigurationRepositoryResult)
      → stored_for repository s ≡ failed result
      → (configuration_manager_load_or_persist_defaults (some repository) s).0.manager ≡ s.manager
  unfolding configuration_manager_load_or_persist_defaults persist_defaults
  load_failed repository s result e =
      rw (e, configuration_manager_load_or_persist_defaults)
        (if_split (λ (r : System D V H S × ConfigurationManagerBootResult). r.0.manager ≡ s.manager)
          (is_not_found result) _ _ (λ _. refl) (λ _. refl))

  pub stored-IsValid :
      (repository : ConfigurationRepositoryStorage S) (s : System D V H S)
      (c : IrrigationConfiguration) (g : ℕ)
      → stored_for repository s ≡ done (c, g)
      → IsValidFor s.manager c
  stored-IsValid repository s c g e =
      is_ok→ok _ (load-IsValid repository s.storage (some s.manager.board_zones) c g e)

  load-IsSound :
      (repository : ConfigurationRepositoryStorage S) (s : System D V H S)
      → StoredFit repository s.storage s.manager.board_zones s.manager.configuration.programs
      → IsSound s.manager
      → IsSound (configuration_manager_load_or_persist_defaults (some repository) s).0.manager
  load-IsSound repository s fits sound = elim (Stored-cases (stored_for repository s)) [
    | inl (result, e) ↦ subst IsSound (sym (load_failed repository s result e)) sound
    | inr ((c, g), e) ↦
        let m = with_stored c s.manager in
        let valid = stored-IsValid repository s c g e in
        rw (load_found repository s c g e) (
          IsSound-after m _ (rebuild-OnlyViews true c m) valid (
            rebuild_if-Agrees m c s.manager.configuration.programs true sound.agrees
              (λ no. absurd (ground arith)) (valid-separate m c valid) (fits c g e)))
  ]

  choose_repository-IsSound :
      (repository : ConfigurationRepositoryStorage S) (boot : ConfigurationManagerBootResult)
      (s : System D V H S)
      → IsSound s.manager
      → IsSound (choose_repository repository boot s).manager
  unfolding choose_repository
  choose_repository-IsSound repository ConfigurationManagerBootResult.defaults_storage_error s
        sound =
      repository-IsSound none true s.manager sound
  choose_repository-IsSound repository _ s sound =
      repository-IsSound (some repository) true s.manager sound

  -- Where the programs of a stored configuration, if a load gives one, have slots beside the program
  -- of the defaults: a boot that succeeds leaves a configuration that is valid for the board and
  -- runtime programs that are those of it, whatever the storage answers.
  pub initialize_configuration-IsSound :
      (board : List Zone) (opened : Bool) (repository : ConfigurationRepositoryStorage S)
      (s : System D V H S)
      → StoredFit repository s.storage board (default_configuration board).programs
      → let (s', booted) = initialize_configuration (some board) opened repository s in
        booted ≡ true → IsSound s'.manager
  unfolding initialize_configuration
  initialize_configuration-IsSound board opened repository s fits =
      let (manager, result) = configuration_manager_init_dev_kit_defaults s.manager (some board) in
      let s' = record s { manager = manager } in
      let r = configuration_manager_load_or_persist_defaults (some repository) s' in
      if_split (λ (r : System D V H S × Bool). r.1 ≡ true → IsSound r.0.manager)
        (not (is_ok result)) _ _ (λ bad good. absurd (ground arith))
        (λ fine.
          let sound : IsSound s'.manager = defaults-IsSound s.manager board (ground arith) in
          let (zones, same) = defaults_lem s.manager board (ground arith) in
          let room : StoredFit repository s'.storage s'.manager.board_zones
              s'.manager.configuration.programs =
            subst (λ c. StoredFit repository s.storage s'.manager.board_zones c.programs) (sym same)
              (subst
                (λ board'.
                  StoredFit repository s.storage board' (default_configuration board).programs)
                (sym zones) fits) in
          if_split (λ (r : System D V H S × Bool). r.1 ≡ true → IsSound r.0.manager) (not opened) _
            _ (λ closed good. repository-IsSound none true manager sound)
            (λ ready good.
              choose_repository-IsSound repository r.1 r.0 (load-IsSound repository s' room sound)))
