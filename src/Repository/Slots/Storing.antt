-- ===== src/Repository/Slots/Storing.antt =====
-- firmware/infrastructure/persistence/configuration_repository.c:
-- `configuration_repository_save`.
use irrigation_controller.Prelude.{
  ℕ, ◌==◌, not, ◌||◌, if◌then◌else◌, Option, none, some, List, Text,
}
use irrigation_controller.Result.{is_ok}
use irrigation_controller.Domain.{Zone}
use irrigation_controller.Configuration.{IrrigationConfiguration, irrigation_configuration_validate}
use irrigation_controller.Repository.{
  Bytes, ConfigurationRepositoryResult, invalid_configuration, storage_error, max_blob_size,
}
use irrigation_controller.Repository.Encode.{done, failed, configuration_repository_encode}
use irrigation_controller.Repository.Decode.{configuration_repository_decode}
use irrigation_controller.Repository.Slots.{
  ConfigurationRepositoryStorage, Reader, Writer, Committer, slot_a, slot_b, Slot, is_stored,
  is_storage_failed, next_generation, target_key, check_verified, read_slot,
}

module _ {S : Type 0} where
  -- After the commit: the blob is read back. `before` is what the variable `verified_generation`,
  -- which has no initialiser, happens to hold.
  unfoldable pub verify :
      Reader S → S → Text → ℕ → ℕ → Option (List Zone) → ConfigurationRepositoryResult
  unfolding check_verified
  verify read s key generation before board_zones =
      let (result, bytes) = read s key in
      if not (is_stored result)
      then storage_error
      else check_verified generation (configuration_repository_decode bytes before board_zones)

  -- From the write of the encoded blob on.
  unfoldable pub write_blob :
      Reader S
      → Writer S
      → Committer S
      → S
      → Text
      → ℕ
      → ℕ
      → Bytes
      → Option (List Zone)
      → S × ConfigurationRepositoryResult
  unfolding verify
  write_blob read write commit s key generation before blob board_zones =
      let (written, write_result) = write s key blob in
      let (committed, commit_result) = commit written in
      if not (is_stored write_result)
      then (written, storage_error)
      else if not (is_stored commit_result)
      then (committed, storage_error)
      else (committed, verify read committed key generation before board_zones)

  -- From the generation on.
  unfoldable pub save_slot :
      Reader S
      → Writer S
      → Committer S
      → S
      → Slot
      → Slot
      → IrrigationConfiguration
      → ℕ
      → Option (List Zone)
      → S × ConfigurationRepositoryResult
  unfolding next_generation write_blob
  save_slot read write commit s a b configuration before board_zones =
      let generation = next_generation a b in
      if generation == 0
      then (s, storage_error)
      else elim (configuration_repository_encode (some configuration) generation max_blob_size) [
        | failed result ↦ (s, result)
        | done blob ↦
            write_blob read write commit s (target_key a b) generation before blob board_zones
      ]

  -- With the three callbacks.
  unfoldable pub save_checked :
      Reader S
      → Writer S
      → Committer S
      → S
      → IrrigationConfiguration
      → ℕ
      → Option (List Zone)
      → S × ConfigurationRepositoryResult
  unfolding read_slot save_slot
  save_checked read write commit s configuration before board_zones =
      let a = read_slot read s slot_a board_zones in
      let b = read_slot read s slot_b board_zones in
      if not (is_ok (irrigation_configuration_validate (some configuration) board_zones))
      then (s, invalid_configuration)
      else if is_storage_failed a.state || is_storage_failed b.state
      then (s, storage_error)
      else save_slot read write commit s a b configuration before board_zones

  unfoldable pub configuration_repository_save :
      ConfigurationRepositoryStorage S
      → S
      → Option IrrigationConfiguration
      → ℕ
      → Option (List Zone)
      → S × ConfigurationRepositoryResult
  unfolding save_checked
  configuration_repository_save storage s none before board_zones = (s, storage_error)
  configuration_repository_save storage s (some configuration) before board_zones =
      elim storage.read [
        | none ↦ (s, storage_error)
        | some read ↦ elim storage.write [
          | none ↦ (s, storage_error)
          | some write ↦ elim storage.commit [
            | none ↦ (s, storage_error)
            | some commit ↦ save_checked read write commit s configuration before board_zones
          ]
        ]
      ]
