-- ===== src/ConfigurationManager/Replace.antt =====
-- firmware/app/configuration/configuration_manager.c: `replace_candidate` and the operations that
-- go through it.
use irrigation_controller.Prelude.{
  ℕ, Bool, not, if◌then◌else◌, Option, none, some, take, length, is_null,
}
use irrigation_controller.Result.{IrrigationResult, ok, rejected, internal_error, is_ok}
use irrigation_controller.Configuration.{IrrigationConfiguration, irrigation_configuration_validate}
use irrigation_controller.Device.{Device}
use irrigation_controller.SchedulerService.{scheduler_service_configure}
use irrigation_controller.Repository.Slots.{is_stored}
use irrigation_controller.Repository.Slots.Storing.{configuration_repository_save}
use irrigation_controller.ConfigurationManager.{ConfigurationManager, programs_are_equal}
use irrigation_controller.ConfigurationManager.Views.{rebuild_runtime_views}

-- The manager, the services whose scheduler it configures, and the state of the storage. `before`
-- is what an uninitialised variable of `configuration_repository_save` holds.
pub record System (D V H S : Type 0) : Type 0 where
  pub manager : ConfigurationManager S
  pub device : Device D V H
  pub storage : S
  pub before : ℕ

abbrev pub Change : (D V H S : Type 0) → Type 0
Change D V H S = System D V H S → System D V H S × IrrigationResult

module _ {S : Type 0} where
  unfoldable pub configuration_manager_validate_candidate :
      ConfigurationManager S → Option IrrigationConfiguration → IrrigationResult
  configuration_manager_validate_candidate manager candidate =
      irrigation_configuration_validate candidate (some manager.board_zones)

  -- `manager->configuration = manager->candidate`
  abbrev pub accept : ConfigurationManager S → ConfigurationManager S
  accept manager = record manager { configuration = manager.candidate }

  abbrev pub programs_changed : ConfigurationManager S → Bool
  programs_changed manager =
      not (programs_are_equal manager.configuration.programs manager.candidate.programs)

module _ {D V H S : Type 0} where
  -- `rebuild_runtime_views` and `scheduler_service_configure_locked` for one configuration.
  unfoldable pub configure_schedules : Bool → IrrigationConfiguration → Change D V H S
  configure_schedules programs_changed configuration s =
      let manager = rebuild_runtime_views programs_changed configuration s.manager in
      let (device, result) =
        scheduler_service_configure
          (take (length configuration.schedules) manager.runtime_schedules) s.device in
      (record s { manager = manager; device = device }, result)

  -- Both places that roll back.
  unfoldable pub roll_back : Bool → IrrigationResult → Change D V H S
  unfolding configure_schedules
  roll_back programs_changed result s =
      let (s', rollback) = configure_schedules programs_changed s.manager.configuration s in
      (s', if is_ok rollback then result else internal_error)

  -- The save of the candidate, where there is a repository.
  unfoldable pub persist : Change D V H S
  persist s = elim s.manager.repository [
    | none ↦ (s, if s.manager.persistence_required then internal_error else ok)
    | some repository ↦
        let (storage, result) =
          configuration_repository_save repository s.storage (some s.manager.candidate) s.before
            (some s.manager.board_zones) in
        (record s { storage = storage }, if is_stored result then ok else internal_error)
  ]

  -- With no scheduler, the views are rebuilt last.
  unfoldable pub replace_unscheduled : Change D V H S
  unfolding persist
  replace_unscheduled s =
      let changed = programs_changed s.manager in
      let (s', result) = persist s in
      if not (is_ok result) then (s', result) else (
        record s' {
          manager = rebuild_runtime_views changed s'.manager.candidate (accept s'.manager);
        },
        ok,
      )

  -- With a scheduler, it is configured first, and again if the candidate cannot be kept.
  unfoldable pub replace_scheduled : Change D V H S
  unfolding configure_schedules roll_back persist
  replace_scheduled s =
      let changed = programs_changed s.manager in
      let (s', configured) = configure_schedules changed s.manager.candidate s in
      if not (is_ok configured)
      then roll_back changed configured s'
      else (let (s'', result) = persist s' in
          if not (is_ok result)
          then roll_back changed result s''
          else (record s'' { manager = accept s''.manager }, ok))

  unfoldable pub replace_candidate : Change D V H S
  unfolding configuration_manager_validate_candidate replace_unscheduled replace_scheduled
  replace_candidate s =
      let result = configuration_manager_validate_candidate s.manager (some s.manager.candidate) in
      if not (is_ok result)
      then (s, result)
      else if is_null s.manager.scheduler_service
      then replace_unscheduled s
      else replace_scheduled s

  -- `manager->candidate = …`, and the replacement.
  unfoldable pub replace_with : IrrigationConfiguration → Change D V H S
  unfolding replace_candidate
  replace_with candidate s =
      replace_candidate (record s { manager = record s.manager { candidate = candidate } })

  unfoldable pub configuration_manager_replace : Option IrrigationConfiguration → Change D V H S
  unfolding replace_with
  configuration_manager_replace none s = (s, rejected)
  configuration_manager_replace (some candidate) s = replace_with candidate s
