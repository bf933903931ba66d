-- ===== src/ConfigurationManager/Boot.antt =====
-- firmware/app/configuration/configuration_manager.c: the load of the stored configuration and the
-- configuration of the scheduler, with `initialize_configuration` of firmware/main/system_ready.c.
use irrigation_controller.Prelude.{
  Bool, true, false, not, if◌then◌else◌, Option, none, some, List, length, take, Pointer, is_null,
}
use irrigation_controller.Result.{rejected, is_ok}
use irrigation_controller.Domain.{Zone}
use irrigation_controller.SchedulerService.{scheduler_service_configure}
use irrigation_controller.Repository.{ConfigurationRepositoryResult}
use irrigation_controller.Repository.Encode.{done, failed}
use irrigation_controller.Repository.Slots.{
  ConfigurationRepositoryStorage, configuration_repository_load, is_stored,
}
use irrigation_controller.Repository.Slots.Storing.{configuration_repository_save}
use irrigation_controller.ConfigurationManager.{
  ConfigurationManager, ConfigurationManagerBootResult, loaded, defaults_persisted,
  defaults_corrupt, defaults_incompatible, defaults_storage_error,
}
use irrigation_controller.ConfigurationManager.Views.{rebuild_runtime_views}
use irrigation_controller.ConfigurationManager.Replace.{System, Change}
use irrigation_controller.ConfigurationManager.Defaults.{
  configuration_manager_init_dev_kit_defaults,
}

module _ {S : Type 0} where
  unfoldable pub configuration_manager_set_repository :
      Option (ConfigurationRepositoryStorage S)
      → Bool
      → ConfigurationManager S
      → ConfigurationManager S
  configuration_manager_set_repository repository persistence_required manager = record manager {
    repository = repository;
    persistence_required = persistence_required;
  }

  unfoldable pub configuration_manager_bind_scheduler :
      Pointer → ConfigurationManager S → ConfigurationManager S
  configuration_manager_bind_scheduler scheduler_service manager = record manager {
    scheduler_service = scheduler_service;
  }

-- The result for a load that has failed, but for an empty repository.
abbrev pub boot_failure : ConfigurationRepositoryResult → ConfigurationManagerBootResult
boot_failure ConfigurationRepositoryResult.incompatible = defaults_incompatible
boot_failure ConfigurationRepositoryResult.storage_error = defaults_storage_error
boot_failure _ = defaults_corrupt

abbrev pub is_not_found : ConfigurationRepositoryResult → Bool
is_not_found ConfigurationRepositoryResult.not_found = true
is_not_found _ = false

module _ {D V H S : Type 0} where
  -- An empty repository gets the defaults.
  unfoldable pub persist_defaults :
      ConfigurationRepositoryStorage S
      → System D V H S
      → System D V H S × ConfigurationManagerBootResult
  persist_defaults repository s =
      let (storage, result) =
        configuration_repository_save repository s.storage (some s.manager.configuration) s.before
          (some s.manager.board_zones) in
      (
        record s { storage = storage },
        if is_stored result then defaults_persisted else defaults_storage_error,
      )

  -- The load of the stored configuration. A load that fails leaves scratch in the candidate, which
  -- is written before each use.
  unfoldable pub configuration_manager_load_or_persist_defaults :
      Option (ConfigurationRepositoryStorage S)
      → System D V H S
      → System D V H S × ConfigurationManagerBootResult
  unfolding rebuild_runtime_views persist_defaults
  configuration_manager_load_or_persist_defaults none s = (s, defaults_storage_error)
  configuration_manager_load_or_persist_defaults (some repository) s =
      let m = s.manager in
      elim (configuration_repository_load repository s.storage (some m.board_zones)) [
        | failed result ↦
            if is_not_found result then persist_defaults repository s else (s, boot_failure result)
        | done (configuration, generation) ↦ (
          record s {
            manager =
                rebuild_runtime_views true configuration
                  (record m { configuration = configuration; candidate = configuration });
          },
          loaded,
        )
      ]

  unfoldable pub configuration_manager_configure_scheduler : Pointer → Change D V H S
  configuration_manager_configure_scheduler scheduler_service s =
      if is_null scheduler_service
      then (s, rejected)
      else (let (device, result) =
            scheduler_service_configure
              (take (length s.manager.configuration.schedules) s.manager.runtime_schedules)
              s.device in
          (record s { device = device }, result))

  abbrev set_repository :
      Option (ConfigurationRepositoryStorage S) → System D V H S → System D V H S
  unfolding configuration_manager_set_repository
  set_repository repository s = record s {
    manager = configuration_manager_set_repository repository true s.manager;
  }

  -- After the boot result: a storage error disables changes.
  unfoldable pub choose_repository :
      ConfigurationRepositoryStorage S
      → ConfigurationManagerBootResult
      → System D V H S
      → System D V H S
  unfolding configuration_manager_set_repository
  choose_repository repository defaults_storage_error s = set_repository none s
  choose_repository repository _ s = set_repository (some repository) s

  -- `initialize_configuration`; `opened` tells whether `nvs_configuration_repository_init` has
  -- succeeded.
  unfoldable pub initialize_configuration :
      Option (List Zone)
      → Bool
      → ConfigurationRepositoryStorage S
      → System D V H S
      → System D V H S × Bool
  unfolding configuration_manager_init_dev_kit_defaults
      configuration_manager_load_or_persist_defaults choose_repository
  initialize_configuration board_zones opened repository s =
      let (manager, result) = configuration_manager_init_dev_kit_defaults s.manager board_zones in
      let s' = record s { manager = manager } in
      if not (is_ok result)
      then (s', false)
      else if not opened
      then (set_repository none s', true)
      else (let (s'', boot) = configuration_manager_load_or_persist_defaults (some repository) s' in
          (choose_repository repository boot s'', true))
