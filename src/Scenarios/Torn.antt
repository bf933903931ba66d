-- ===== src/Scenarios/Torn.antt =====
-- A slot whose header is all that has been written.
use irrigation_controller.Prelude.{◌≡◌, refl, ap, some, [], ◌∷◌, ◌++◌, arith}
use irrigation_controller.Prelude.Tests.{text_eq}
use irrigation_controller.Repository.{
  Bytes, ConfigurationRepositoryResult, ok, magic, put_u16, put_u32, crc32, crc_loop,
}
use irrigation_controller.Repository.Decode.{
  configuration_repository_decode, check_header, decode_payload, decode_counted,
}
use irrigation_controller.Repository.Lengths.{blob_of}
use irrigation_controller.Repository.Slots.{
  SlotState, slot_a, slot_b, slot_of, read_slot, configuration_repository_load, is_valid,
  is_storage_failed,
}
use irrigation_controller.Repository.Slots.Storing.{configuration_repository_save}
use irrigation_controller.Repository.Slots.Saving.{saved}
use irrigation_controller.Repository.Slots.Loading.{storage_of, load-save_hidden, save-succeeds}
use irrigation_controller.Repository.Slots.After.{slot_saved}
use irrigation_controller.Controller.{dev_zones}
use irrigation_controller.Scenarios.Stored.{
  Memory, find_blob, put_blob, commit_blob, stored_lem, honest, garden, test_garden_valid,
}

-- Slot A holds the garden at generation 3; slot B holds a header of generation 9 and no payload.
abbrev torn : Bytes
torn = put_u32 magic ++ put_u16 1 ++ put_u32 9 ++ put_u16 0 ++ put_u32 0

abbrev torn_memory : Memory
torn_memory = (slot_a, blob_of 3 garden) ∷ (slot_b, torn) ∷ []

test_torn_a : read_slot find_blob torn_memory slot_a (some dev_zones) ≡ saved garden 3
test_torn_a =
    slot_saved garden dev_zones 3 find_blob torn_memory slot_a test_garden_valid (omega arith)
      (omega arith) (omega arith) (stored_lem ((slot_b, torn) ∷ []) slot_a (blob_of 3 garden))

test_torn_b :
    read_slot find_blob torn_memory slot_b (some dev_zones)
    ≡ record { state = SlotState.corrupt_slot; generation = 9 }
unfolding read_slot slot_of find_blob text_eq configuration_repository_decode check_header
    decode_payload decode_counted crc32 crc_loop
test_torn_b = refl

abbrev torn_save : Memory × ConfigurationRepositoryResult
torn_save =
    configuration_repository_save (storage_of find_blob put_blob commit_blob) torn_memory
      (some garden) 0 (some dev_zones)

test_torn_save : torn_save ≡ (torn_save.0, ok)
test_torn_save =
    ap (λ r. (torn_save.0, r))
      (save-succeeds find_blob put_blob commit_blob torn_memory garden 0 dev_zones honest
        (λ s key blob. refl) (λ s. refl) test_garden_valid (omega arith) (omega arith)
        (ap (λ slot. is_storage_failed slot.state) test_torn_a)
        (ap (λ slot. is_storage_failed slot.state) test_torn_b)
        (omega (arith, ap (λ slot. slot.generation) test_torn_a))
        (omega (arith, ap (λ slot. slot.generation) test_torn_b)))

load-save_hidden_example :
    configuration_repository_load
      (storage_of find_blob put_blob commit_blob)
      torn_save.0
      (some dev_zones)
    ≡ configuration_repository_load
        (storage_of find_blob put_blob commit_blob)
        torn_memory
        (some dev_zones)
load-save_hidden_example =
    load-save_hidden find_blob put_blob commit_blob torn_memory garden 0 dev_zones torn_save.0
      honest test_garden_valid (omega arith) (omega arith)
      (ap (λ slot. is_valid slot.state) test_torn_a) (ap (λ slot. is_valid slot.state) test_torn_b)
      (omega (arith, ap (λ slot. slot.generation) test_torn_a))
      (omega
        (arith, ap (λ slot. slot.generation) test_torn_a, ap (λ slot. slot.generation) test_torn_b))
      test_torn_save
