-- ===== src/Repository/Slots/After.antt =====
-- The two slots after a save that returned OK.
use irrigation_controller.Prelude.{
  ℕ, ◌^◌, ◌==◌, ◌≡◌, ◌≢◌, ◌<◌, sym, ap, subst, ◌∙◌, inl, inr, true, if◌then◌else◌, Option, some,
  List, Text, arith, Bool-cases,
}
use irrigation_controller.Result.{IrrigationResult}
use irrigation_controller.Domain.{Zone}
use irrigation_controller.Configuration.{IrrigationConfiguration, irrigation_configuration_validate}
use irrigation_controller.Repository.{ok, max_blob_size}
use irrigation_controller.Repository.RoundTrip.{encode_lem, decode-blob}
use irrigation_controller.Repository.Lengths.{blob_of}
use irrigation_controller.Repository.Slots.{
  Reader, Writer, Committer, slot_a, slot_b, Slot, is_stored, prefers_a, slot_of, next_generation,
  target_key, read_slot, decoded_state,
}
use irrigation_controller.Repository.Slots.Storing.{write_blob, save_slot}
use irrigation_controller.Repository.Slots.Saving.{
  IsHonest, slots_differ, write_blob_ok, saved, next_generation_bound,
}

module _ {S : Type 0} where
  -- A save that returns OK for a valid configuration got through every test.
  pub save_slot_ok :
      (read : Reader S) (write : Writer S) (commit : Committer S) (s : S) (a b : Slot)
      (c : IrrigationConfiguration) (before : ℕ) (board : List Zone) (s' : S)
      → irrigation_configuration_validate (some c) (some board) ≡ IrrigationResult.ok
      → save_slot read write commit s a b c before (some board) ≡ (s', ok)
      → (next_generation a b ≢ 0)
        × (write_blob read write commit s
              (target_key a b)
              (next_generation a b)
              before
              (blob_of (next_generation a b) c)
              (some board)
            ≡ (s', ok))
  unfolding save_slot
  save_slot_ok read write commit s a b c before board s' v e =
      let encoded = encode_lem c board (next_generation a b) max_blob_size v (omega arith) in
      elim (Bool-cases (next_generation a b == 0)) [
        | inl wrapped ↦ absurd (ground arith)
        | inr fits ↦ (ground arith, ground (arith, encoded))
      ]

  pub slot_saved :
      (c : IrrigationConfiguration) (board : List Zone) (generation : ℕ) (read : Reader S) (s' : S)
      (key : Text)
      → irrigation_configuration_validate (some c) (some board) ≡ IrrigationResult.ok
      → c.next_program_id < 2 ^ 32
      → c.next_schedule_id < 2 ^ 32
      → generation < 2 ^ 32
      → read s' key ≡ (ok, blob_of generation c)
      → read_slot read s' key (some board) ≡ saved c generation
  unfolding read_slot slot_of
  slot_saved c board generation read s' key v p q fits stored =
      ap (λ r. slot_of (some board) r.0 r.1) stored
      ∙ ap (λ r. record { state = decoded_state r.1; generation = r.0 })
          (decode-blob c board generation 0 v p q fits)

  slot_kept :
      (read : Reader S) (s s' : S) (key : Text) (zones : Option (List Zone))
      → read s' key ≡ read s key
      → read_slot read s' key zones ≡ read_slot read s key zones
  unfolding read_slot
  slot_kept read s s' key zones e = ap (λ r. slot_of zones r.0 r.1) e

  -- The two slots after a save that returned OK.
  pub slots_after :
      (read : Reader S) (write : Writer S) (commit : Committer S) (s : S)
      (c : IrrigationConfiguration) (before : ℕ) (board : List Zone) (s' : S)
      → IsHonest read write commit
      → irrigation_configuration_validate (some c) (some board) ≡ IrrigationResult.ok
      → c.next_program_id < 2 ^ 32
      → c.next_schedule_id < 2 ^ 32
      → let a = read_slot read s slot_a (some board) in
        let b = read_slot read s slot_b (some board) in
        let new = saved c (next_generation a b) in
        save_slot read write commit s a b c before (some board) ≡ (s', ok)
        → (read_slot read s' slot_a (some board) ≡ (if prefers_a a b then a else new))
          × (read_slot read s' slot_b (some board) ≡ (if prefers_a a b then new else b))
  slots_after read write commit s c before board s' honest v p q e =
      elim (Bool-cases (prefers_a a b)) [
        | inl chosen ↦ rw chosen (
          kept slot_a slot_b (ap (λ t. if t then slot_b else slot_a) chosen)
              (λ h. slots_differ (sym h)),
          fresh slot_b (ap (λ t. if t then slot_b else slot_a) chosen),
        )
        | inr other ↦ rw other (
          fresh slot_a (ap (λ t. if t then slot_b else slot_a) other),
          kept slot_b slot_a (ap (λ t. if t then slot_b else slot_a) other) slots_differ,
        )
      ]
    where
      a : Slot
      a = read_slot read s slot_a (some board)

      b : Slot
      b = read_slot read s slot_b (some board)

      g : ℕ
      g = next_generation a b

      written :
          (is_stored (write s (target_key a b) (blob_of g c)).1 ≡ true)
          × (is_stored (commit (write s (target_key a b) (blob_of g c)).0).1 ≡ true)
          × ((commit (write s (target_key a b) (blob_of g c)).0).0 ≡ s')
      written =
          write_blob_ok read write commit s (target_key a b) g before (blob_of g c) (some board) s'
            (save_slot_ok read write commit s a b c before board s' v e).1

      fresh : (key : Text) → target_key a b ≡ key → read_slot read s' key (some board) ≡ saved c g
      fresh key t = slot_saved c board g read s' key v p q (next_generation_bound a b) (
          subst (λ s. read s key ≡ (ok, blob_of g c)) written.2
            (subst
              (λ k.
                read (commit (write s (target_key a b) (blob_of g c)).0).0 k ≡ (ok, blob_of g c))
              t (honest.stored s (target_key a b) (blob_of g c) written.0 written.1)))

      kept :
          (key other : Text)
          → target_key a b ≡ other
          → other ≢ key
          → read_slot read s' key (some board) ≡ read_slot read s key (some board)
      kept key other t ne = slot_kept read s s' key (some board) (
          subst (λ s₁. read s₁ key ≡ read s key) written.2
            (honest.kept_by_commit s (target_key a b) key (blob_of g c)
              (subst (λ k. k ≢ key) (sym t) ne)))
