-- ===== src/Repository/Slots/Loading.antt =====
-- A load after a save.
use irrigation_controller.Prelude.{
  ℕ, ◌-◌, ◌^◌, ◌≡◌, ◌≤◌, ◌<◌, ap, ◌∙◌, true, false, some, List, Text, arith,
}
use irrigation_controller.Result.{IrrigationResult}
use irrigation_controller.Domain.{Zone}
use irrigation_controller.Configuration.{IrrigationConfiguration, irrigation_configuration_validate}
use irrigation_controller.Repository.{Bytes, ok, max_blob_size}
use irrigation_controller.Repository.Encode.{done}
use irrigation_controller.Repository.RoundTrip.{encode_lem, decode-blob}
use irrigation_controller.Repository.Lengths.{blob_of}
use irrigation_controller.Repository.Slots.{
  ConfigurationRepositoryStorage, Reader, Writer, Committer, slot_a, slot_b, is_stored, is_valid,
  is_storage_failed, next_generation, target_key, read_slot, configuration_repository_load,
  check_verified,
}
use irrigation_controller.Repository.Slots.Storing.{
  verify, write_blob, save_slot, save_checked, configuration_repository_save,
}
use irrigation_controller.Repository.Slots.Saving.{
  IsHonest, hidden_generation, select-saved, next_generation_bound, next_generation_nonzero,
  check_verified_lem,
}
use irrigation_controller.Repository.Slots.After.{slots_after, save_slot_ok}
use irrigation_controller.Repository.Slots.Saving.{check_verified_lem}

module _ {S : Type 0} where
  abbrev pub storage_of : Reader S → Writer S → Committer S → ConfigurationRepositoryStorage S
  storage_of read write commit = record {
    read = some read;
    write = some write;
    commit = some commit;
  }

  save_ok :
      (read : Reader S) (write : Writer S) (commit : Committer S) (s : S)
      (c : IrrigationConfiguration) (before : ℕ) (board : List Zone) (s' : S)
      → irrigation_configuration_validate (some c) (some board) ≡ IrrigationResult.ok
      → configuration_repository_save (storage_of read write commit) s (some c) before (some board)
        ≡ (s', ok)
      → save_slot read write commit s
          (read_slot read s slot_a (some board))
          (read_slot read s slot_b (some board))
          c
          before
          (some board)
        ≡ (s', ok)
  unfolding configuration_repository_save save_checked
  save_ok read write commit s c before board s' v e = ground arith

  -- On a storage that reads back what was written and committed, and leaves other keys alone: after
  -- a save that returns OK of a configuration that the validation accepts, whose counters are of
  -- 32 bits, a load gives that configuration, at the generation that the save chose. Both slots'
  -- generations are of 32 bits, and where only slot A is valid, the generation that was read from
  -- slot B is not larger than A's.
  pub load-save :
      (read : Reader S) (write : Writer S) (commit : Committer S) (s : S)
      (c : IrrigationConfiguration) (before : ℕ) (board : List Zone) (s' : S)
      → IsHonest read write commit
      → irrigation_configuration_validate (some c) (some board) ≡ IrrigationResult.ok
      → c.next_program_id < 2 ^ 32
      → c.next_schedule_id < 2 ^ 32
      → let a = read_slot read s slot_a (some board) in
        let b = read_slot read s slot_b (some board) in
        a.generation < 2 ^ 32
        → b.generation < 2 ^ 32
        → (is_valid a.state ≡ true → is_valid b.state ≡ false → b.generation ≤ a.generation)
        → configuration_repository_save
            (storage_of read write commit)
            s
            (some c)
            before
            (some board)
          ≡ (s', ok)
        → configuration_repository_load (storage_of read write commit) s' (some board)
          ≡ done (c, next_generation a b)
  unfolding configuration_repository_load
  load-save read write commit s c before board s' honest v p q x y order e =
      let a = read_slot read s slot_a (some board) in
      let b = read_slot read s slot_b (some board) in
      let saving = save_ok read write commit s c before board s' v e in
      let (after_a, after_b) =
        slots_after read write commit s c before board s' honest v p q saving in
      let (fits, _) = save_slot_ok read write commit s a b c before board s' v saving in
      rw (after_a, after_b) (select-saved a b c x y order fits)

  -- On such a storage, where slot A is valid at a generation of at least 1, and slot B is not valid
  -- but its header has a larger generation: after a save that returns OK of a valid configuration
  -- with 32-bit counters, a load gives exactly what it gave before the save.
  pub load-save_hidden :
      (read : Reader S) (write : Writer S) (commit : Committer S) (s : S)
      (c : IrrigationConfiguration) (before : ℕ) (board : List Zone) (s' : S)
      → IsHonest read write commit
      → irrigation_configuration_validate (some c) (some board) ≡ IrrigationResult.ok
      → c.next_program_id < 2 ^ 32
      → c.next_schedule_id < 2 ^ 32
      → let a = read_slot read s slot_a (some board) in
        let b = read_slot read s slot_b (some board) in
        is_valid a.state ≡ true
        → is_valid b.state ≡ false
        → 1 ≤ a.generation
        → a.generation < b.generation
        → configuration_repository_save
            (storage_of read write commit)
            s
            (some c)
            before
            (some board)
          ≡ (s', ok)
        → configuration_repository_load (storage_of read write commit) s' (some board)
          ≡ configuration_repository_load (storage_of read write commit) s (some board)
  unfolding configuration_repository_load
  load-save_hidden read write commit s c before board s' honest v p q va vb pos less e =
      let a = read_slot read s slot_a (some board) in
      let b = read_slot read s slot_b (some board) in
      let saving = save_ok read write commit s c before board s' v e in
      let (after_a, after_b) =
        slots_after read write commit s c before board s' honest v p q saving in
      rw (after_a, after_b) (hidden_generation a b c va vb pos less)

  verify_ok :
      (read : Reader S) (s : S) (key : Text) (c : IrrigationConfiguration) (g before : ℕ)
      (board : List Zone)
      → irrigation_configuration_validate (some c) (some board) ≡ IrrigationResult.ok
      → c.next_program_id < 2 ^ 32
      → c.next_schedule_id < 2 ^ 32
      → g < 2 ^ 32
      → read s key ≡ (ok, blob_of g c)
      → verify read s key g before (some board) ≡ ok
  unfolding verify
  verify_ok read s key c g before board v p q fits stored =
      rw stored
        (ap (check_verified g) (decode-blob c board g before v p q fits) ∙ check_verified_lem g c)

  -- On such a storage, if every write and commit returns OK, neither slot fails to be read, and both
  -- generations are below the largest of 32 bits, then a save of a configuration that the validation
  -- accepts, whose counters are of 32 bits, returns OK.
  pub save-succeeds :
      (read : Reader S) (write : Writer S) (commit : Committer S) (s : S)
      (c : IrrigationConfiguration) (before : ℕ) (board : List Zone)
      → IsHonest read write commit
      → ((s : S) (key : Text) (blob : Bytes) → is_stored (write s key blob).1 ≡ true)
      → ((s : S) → is_stored (commit s).1 ≡ true)
      → irrigation_configuration_validate (some c) (some board) ≡ IrrigationResult.ok
      → c.next_program_id < 2 ^ 32
      → c.next_schedule_id < 2 ^ 32
      → let a = read_slot read s slot_a (some board) in
        let b = read_slot read s slot_b (some board) in
        is_storage_failed a.state ≡ false
        → is_storage_failed b.state ≡ false
        → a.generation < 2 ^ 32 - 1
        → b.generation < 2 ^ 32 - 1
        → (configuration_repository_save
            (storage_of read write commit)
            s
            (some c)
            before
            (some board)).1
          ≡ ok
  unfolding configuration_repository_save save_checked save_slot write_blob
  save-succeeds read write commit s c before board honest writes commits v p q fa fb x y =
      let a = read_slot read s slot_a (some board) in
      let b = read_slot read s slot_b (some board) in
      let g = next_generation a b in
      let key = target_key a b in
      let stored = honest.stored s key (blob_of g c) (writes s key (blob_of g c)) (commits _) in
      let checked =
        verify_ok read (commit (write s key (blob_of g c)).0).0 key c g before board v p q
          (next_generation_bound a b) stored in
      rw
        (
          v,
          fa,
          fb,
          next_generation_nonzero a b x y,
          encode_lem c board g max_blob_size v (omega arith),
          writes s key (blob_of g c),
          commits (write s key (blob_of g c)).0,
        )
        checked
