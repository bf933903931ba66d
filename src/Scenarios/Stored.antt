-- ===== src/Scenarios/Stored.antt =====
-- The theorems on the stored configuration, at a small garden in a memory that keeps its blobs.
use irrigation_controller.Prelude.{
  ◌≡◌, ◌≢◌, refl, ap, inl, inr, true, if◌then◌else◌, some, List, [], ◌∷◌, Text, literal, arith,
  Bool-cases,
}
use irrigation_controller.Prelude.Tests.{text_eq, text_eq_refl, text_eq→eq}
use irrigation_controller.Result.{IrrigationResult}
use irrigation_controller.Configuration.{
  IrrigationConfiguration, irrigation_configuration_validate, characters_are_valid, text_is_valid,
  board_zone_exists, program_exists, is_repeated, zones_are_valid, steps_are_valid,
  programs_are_valid, schedules_are_valid,
}
use irrigation_controller.Repository.{
  Bytes, ConfigurationRepositoryResult, ok, not_found, max_blob_size,
}
use irrigation_controller.Repository.Encode.{done, configuration_repository_encode}
use irrigation_controller.Repository.Decode.{configuration_repository_decode}
use irrigation_controller.Repository.RoundTrip.{decode-encode}
use irrigation_controller.Repository.Slots.{
  Writer, Committer, SlotState, slot_a, slot_b, slot_of, read_slot, next_generation,
  configuration_repository_load, is_storage_failed,
}
use irrigation_controller.Repository.Slots.Storing.{save_slot, configuration_repository_save}
use irrigation_controller.Repository.Slots.Saving.{
  LeavesOthers, IsHonest, saved, save-spares, spared_key,
}
use irrigation_controller.Repository.Slots.Loading.{storage_of, load-save, save-succeeds}
use irrigation_controller.Controller.{dev_zones}

-- A memory: the last blob of a key counts.
abbrev pub Memory : Type 0
Memory = List (Text × Bytes)

unfoldable pub find_blob : Memory → Text → ConfigurationRepositoryResult × Bytes
unfolding text_eq
find_blob [] key = (not_found, [])
find_blob ((stored, blob) ∷ memory) key =
    if text_eq stored key then (ok, blob) else find_blob memory key

abbrev pub put_blob : Writer Memory
put_blob memory key blob = ((key, blob) ∷ memory, ok)

abbrev pub commit_blob : Committer Memory
commit_blob memory = (memory, ok)

kept :
    (memory : Memory) (key other : Text) (blob : Bytes)
    → key ≢ other
    → find_blob ((key, blob) ∷ memory) other ≡ find_blob memory other
unfolding find_blob
kept memory key other blob ne = elim (Bool-cases (text_eq key other)) [
  | inl same ↦ absurd (ne (text_eq→eq key other same))
  | inr differ ↦ rw differ refl
]

pub stored_lem :
    (memory : Memory) (key : Text) (blob : Bytes)
    → find_blob ((key, blob) ∷ memory) key ≡ (ok, blob)
unfolding find_blob
stored_lem memory key blob = rw (text_eq_refl key) refl

pub honest : IsHonest find_blob put_blob commit_blob
honest = record {
  stored = λ memory key blob w c. stored_lem memory key blob;
  kept_by_write = λ memory key other blob ne. kept memory key other blob ne;
  kept_by_commit = λ memory key other blob ne. kept memory key other blob ne;
}

abbrev pub garden : IrrigationConfiguration
garden = record {
  schema = 1;
  zones =
      record { zone_id = literal "zone-1"; display_name = literal "Front lawn" }
      ∷ record { zone_id = literal "zone-2"; display_name = literal "Back lawn" }
      ∷ record { zone_id = literal "zone-3"; display_name = literal "Hedge" }
      ∷ record { zone_id = literal "zone-4"; display_name = literal "Pots" }
      ∷ [];
  programs =
      record {
        program_id = literal "program-1";
        display_name = literal "Morning";
        steps = record { zone_id = literal "zone-1"; duration_ms = 60000 } ∷ [];
      }
      ∷ [];
  schedules =
      record {
        schedule_id = literal "schedule-1";
        enabled = true;
        weekday_mask = 127;
        hour = 6;
        minute = 30;
        program_id = literal "program-1";
      }
      ∷ [];
  next_program_id = 2;
  next_schedule_id = 2;
}

pub test_garden_valid :
    irrigation_configuration_validate (some garden) (some dev_zones) ≡ IrrigationResult.ok
unfolding irrigation_configuration_validate characters_are_valid text_is_valid board_zone_exists
    program_exists is_repeated zones_are_valid steps_are_valid programs_are_valid
    schedules_are_valid text_eq
test_garden_valid = refl

decode-encode_example :
    (blob : Bytes) × (configuration_repository_encode (some garden) 7 max_blob_size ≡ done blob)
    × (configuration_repository_decode blob 0 (some dev_zones) ≡ (7, done garden))
decode-encode_example =
    decode-encode garden dev_zones 7 max_blob_size 0 test_garden_valid (omega arith) (omega arith)
      (omega arith) (omega arith)

-- Nothing is stored yet.
pub test_empty :
    (key : Text)
    → read_slot find_blob [] key (some dev_zones)
      ≡ record { state = SlotState.empty; generation = 0 }
unfolding read_slot slot_of find_blob
test_empty key = refl

save-succeeds_example :
    (configuration_repository_save
      (storage_of find_blob put_blob commit_blob)
      []
      (some garden)
      0
      (some dev_zones)).1
    ≡ ok
save-succeeds_example =
    save-succeeds find_blob put_blob commit_blob [] garden 0 dev_zones honest (λ s key blob. refl)
      (λ s. refl) test_garden_valid (omega arith) (omega arith)
      (ap (λ slot. is_storage_failed slot.state) (test_empty slot_a))
      (ap (λ slot. is_storage_failed slot.state) (test_empty slot_b))
      (omega (arith, ap (λ slot. slot.generation) (test_empty slot_a)))
      (omega (arith, ap (λ slot. slot.generation) (test_empty slot_b)))

abbrev first_save : Memory × ConfigurationRepositoryResult
first_save =
    configuration_repository_save (storage_of find_blob put_blob commit_blob) [] (some garden) 0
      (some dev_zones)

test_first_save : first_save ≡ (first_save.0, ok)
test_first_save =
    ap (λ r. (first_save.0, r))
      (save-succeeds find_blob put_blob commit_blob [] garden 0 dev_zones honest
        (λ s key blob. refl) (λ s. refl) test_garden_valid (omega arith) (omega arith)
        (ap (λ slot. is_storage_failed slot.state) (test_empty slot_a))
        (ap (λ slot. is_storage_failed slot.state) (test_empty slot_b))
        (omega (arith, ap (λ slot. slot.generation) (test_empty slot_a)))
        (omega (arith, ap (λ slot. slot.generation) (test_empty slot_b))))

load-save_example :
    configuration_repository_load
      (storage_of find_blob put_blob commit_blob)
      first_save.0
      (some dev_zones)
    ≡ done (
      garden,
      next_generation
          (read_slot find_blob [] slot_a (some dev_zones))
          (read_slot find_blob [] slot_b (some dev_zones)),
    )
load-save_example =
    load-save find_blob put_blob commit_blob [] garden 0 dev_zones first_save.0 honest
      test_garden_valid (omega arith) (omega arith)
      (omega (arith, ap (λ slot. slot.generation) (test_empty slot_a)))
      (omega (arith, ap (λ slot. slot.generation) (test_empty slot_b)))
      (λ va vb. omega (
        arith,
        ap (λ slot. slot.generation) (test_empty slot_a),
        ap (λ slot. slot.generation) (test_empty slot_b),
      ))
      test_first_save

leaves_others : LeavesOthers find_blob put_blob commit_blob
leaves_others = record {
  by_write = λ memory key other blob ne. kept memory key other blob ne;
  by_commit = λ memory key other blob ne. kept memory key other blob ne;
}

save-spares_example :
    find_blob
      (save_slot find_blob put_blob commit_blob []
        (saved garden 3)
        (saved garden 2)
        garden
        0
        (some dev_zones)).0
      (spared_key (saved garden 3) (saved garden 2))
    ≡ find_blob [] (spared_key (saved garden 3) (saved garden 2))
save-spares_example =
    save-spares find_blob put_blob commit_blob [] (saved garden 3) (saved garden 2) garden 0
      (some dev_zones) leaves_others
