-- ===== src/Repository/Slots.antt =====
-- firmware/infrastructure/persistence/configuration_repository.c: the two slots of the storage
-- and `configuration_repository_load`. The repository's buffers
-- are scratch space, written before each use, and are values here.
pub mod Saving
pub mod After
pub mod Loading
pub mod Validated
pub mod Storing
use irrigation_controller.Prelude.{
  ℕ, ◌+◌, ◌%◌, ◌^◌, ◌==◌, Bool, true, false, not, ◌&&◌, ◌||◌, if◌then◌else◌, Option, none, some,
  List, Text, literal, leb, is_none,
}
use irrigation_controller.Result.{is_ok}
use irrigation_controller.Domain.{Zone}
use irrigation_controller.Configuration.{IrrigationConfiguration, irrigation_configuration_validate}
use irrigation_controller.Repository.{
  Bytes, ConfigurationRepositoryResult, ok, not_found, corrupt, incompatible, invalid_configuration,
  storage_error, max_blob_size,
}
use irrigation_controller.Repository.Encode.{Stored, done, failed, configuration_repository_encode}
use irrigation_controller.Repository.Decode.{configuration_repository_decode}

-- The callbacks, over the state `S` behind the context; `none` is NULL. The bytes of a read are
-- the buffer up to `*length`, which is looked at only where the result is OK.
pub record ConfigurationRepositoryStorage (S : Type 0) : Type 0 where
  pub read : Option (S → Text → ConfigurationRepositoryResult × Bytes)
  pub write : Option (S → Text → Bytes → S × ConfigurationRepositoryResult)
  pub commit : Option (S → S × ConfigurationRepositoryResult)

abbrev pub Reader : Type 0 → Type 0
Reader S = S → Text → ConfigurationRepositoryResult × Bytes

abbrev pub Writer : Type 0 → Type 0
Writer S = S → Text → Bytes → S × ConfigurationRepositoryResult

abbrev pub Committer : Type 0 → Type 0
Committer S = S → S × ConfigurationRepositoryResult

abbrev pub slot_a : Text
slot_a = literal "cfg_a"

abbrev pub slot_b : Text
slot_b = literal "cfg_b"

-- `SLOT_VALID` carries the configuration that `slot_configurations` has then.
pub data SlotState : Type 0 where
  empty : SlotState
  valid : IrrigationConfiguration → SlotState
  corrupt_slot : SlotState
  incompatible_slot : SlotState
  storage_failed : SlotState

pub record Slot : Type 0 where
  pub state : SlotState
  pub generation : ℕ

abbrev pub is_stored : ConfigurationRepositoryResult → Bool
is_stored ConfigurationRepositoryResult.ok = true
is_stored _ = false

abbrev pub is_valid : SlotState → Bool
is_valid (SlotState.valid c) = true
is_valid _ = false

abbrev pub is_empty : SlotState → Bool
is_empty SlotState.empty = true
is_empty _ = false

abbrev pub is_incompatible : SlotState → Bool
is_incompatible SlotState.incompatible_slot = true
is_incompatible _ = false

abbrev pub is_storage_failed : SlotState → Bool
is_storage_failed SlotState.storage_failed = true
is_storage_failed _ = false

abbrev pub decoded_state : Stored IrrigationConfiguration → SlotState
decoded_state (done c) = SlotState.valid c
decoded_state (failed ConfigurationRepositoryResult.incompatible) = SlotState.incompatible_slot
decoded_state (failed _) = SlotState.corrupt_slot

-- The slot of what the storage read.
unfoldable pub slot_of : Option (List Zone) → ConfigurationRepositoryResult → Bytes → Slot
slot_of zones ConfigurationRepositoryResult.not_found bytes = record {
  state = SlotState.empty;
  generation = 0;
}
slot_of zones ConfigurationRepositoryResult.ok bytes =
    let (generation, result) = configuration_repository_decode bytes 0 zones in
    record { state = decoded_state result; generation = generation }
slot_of zones _ bytes = record { state = SlotState.storage_failed; generation = 0 }

-- `&a`, `&b` or NULL in `configuration_repository_load`; the first test is true for A.
abbrev pub prefers_a : Slot → Slot → Bool
prefers_a a b = is_valid a.state && (not (is_valid b.state) || leb b.generation a.generation)

abbrev pub loaded : Slot → Stored (IrrigationConfiguration × ℕ)
loaded slot = elim slot.state [ valid c ↦ done (c, slot.generation) | _ ↦ failed corrupt ]

unfoldable pub select : Slot → Slot → Stored (IrrigationConfiguration × ℕ)
select a b =
    if prefers_a a b
    then loaded a
    else if is_valid b.state
    then loaded b
    else if is_empty a.state && is_empty b.state
    then failed not_found
    else if is_incompatible a.state || is_incompatible b.state
    then failed incompatible
    else if is_storage_failed a.state || is_storage_failed b.state
    then failed storage_error
    else failed corrupt

-- The generation that a save writes, in uint32_t.
unfoldable pub next_generation : Slot → Slot → ℕ
next_generation a b =
    if is_valid a.state && leb b.generation a.generation
    then (a.generation + 1) % 2 ^ 32
    else if is_valid b.state
    then (b.generation + 1) % 2 ^ 32
    else 1

-- `key` of the target: B where the selected slot is A.
abbrev pub target_key : Slot → Slot → Text
target_key a b = if prefers_a a b then slot_b else slot_a

-- The last test of a save, on the generation and the result that the decoder gives.
unfoldable pub check_verified :
    ℕ → ℕ × Stored IrrigationConfiguration → ConfigurationRepositoryResult
check_verified generation (verified_generation, failed result) = corrupt
check_verified generation (verified_generation, done c) =
    if not (verified_generation == generation) then corrupt else ok

module _ {S : Type 0} where
  -- A repository is its storage, its buffers being values; `none` is NULL.
  abbrev configuration_repository_init :
      Option (ConfigurationRepositoryStorage S)
      → ConfigurationRepositoryStorage S
      → Option (ConfigurationRepositoryStorage S)
  configuration_repository_init none storage = none
  configuration_repository_init (some repository) storage = some storage

  unfoldable pub read_slot : Reader S → S → Text → Option (List Zone) → Slot
  unfolding slot_of
  read_slot read s key zones = let (result, bytes) = read s key in slot_of zones result bytes

  unfoldable pub configuration_repository_load :
      ConfigurationRepositoryStorage S
      → S
      → Option (List Zone)
      → Stored (IrrigationConfiguration × ℕ)
  unfolding read_slot select
  configuration_repository_load storage s board_zones = elim storage.read [
    | none ↦ failed storage_error
    | some read ↦ select (read_slot read s slot_a board_zones) (read_slot read s slot_b board_zones)
  ]
