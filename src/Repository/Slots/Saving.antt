-- ===== src/Repository/Slots/Saving.antt =====
-- What a save leaves in the two slots, and what a load finds there.
use irrigation_controller.Prelude.{
  ℕ, ◌-◌, ◌^◌, ◌==◌, ◌≡◌, ◌≢◌, ◌≤◌, ◌<◌, refl, sym, subst, inl, inr, true, false, not, ◌&&◌, ◌||◌,
  if◌then◌else◌, Option, some, List, Text, arith, leb, Bool-cases, if_split,
}
use irrigation_controller.Prelude.Tests.{text_eq, text_eq_refl}
use irrigation_controller.Domain.{Zone}
use irrigation_controller.Configuration.{IrrigationConfiguration}
use irrigation_controller.Repository.{Bytes, ConfigurationRepositoryResult, ok, max_blob_size}
use irrigation_controller.Repository.Encode.{done, Stored-cases, configuration_repository_encode}
use irrigation_controller.Repository.Slots.{
  Reader, Writer, Committer, slot_a, slot_b, Slot, SlotState, is_stored, is_valid, prefers_a,
  select, next_generation, target_key, check_verified,
}
use irrigation_controller.Repository.Slots.Storing.{write_blob, save_slot}

-- What the non-volatile storage promises: a blob that is written and committed is read back, and a
-- write under one key leaves the other keys alone.
pub record IsHonest {S : Type 0} (read : Reader S) (write : Writer S) (commit : Committer S)
    : Type 0 where
  pub stored :
      (s : S) (key : Text) (blob : Bytes)
      → is_stored (write s key blob).1 ≡ true
      → is_stored (commit (write s key blob).0).1 ≡ true
      → read (commit (write s key blob).0).0 key ≡ (ok, blob)
  pub kept_by_write :
      (s : S) (key other : Text) (blob : Bytes)
      → key ≢ other
      → read (write s key blob).0 other ≡ read s other
  pub kept_by_commit :
      (s : S) (key other : Text) (blob : Bytes)
      → key ≢ other
      → read (commit (write s key blob).0).0 other ≡ read s other

-- A storage that leaves the other keys alone, whatever it answers and whether or not it reads back.
pub record LeavesOthers {S : Type 0} (read : Reader S) (write : Writer S) (commit : Committer S)
    : Type 0 where
  pub by_write :
      (s : S) (key other : Text) (blob : Bytes)
      → key ≢ other
      → read (write s key blob).0 other ≡ read s other
  pub by_commit :
      (s : S) (key other : Text) (blob : Bytes)
      → key ≢ other
      → read (commit (write s key blob).0).0 other ≡ read s other

pub slots_differ : slot_a ≢ slot_b
unfolding text_eq
slots_differ e =
    let same : text_eq slot_a slot_b ≡ true =
      subst (λ k. text_eq k slot_b ≡ true) (sym e) (text_eq_refl slot_b) in
    let other : text_eq slot_a slot_b ≡ false = refl in ground arith

-- The slot that is not the target.
abbrev pub spared_key : Slot → Slot → Text
spared_key a b = if prefers_a a b then slot_a else slot_b

target-spared : (a b : Slot) → target_key a b ≢ spared_key a b
target-spared a b = elim (Bool-cases (prefers_a a b)) [
  | inl chosen ↦ rw chosen (λ e. slots_differ (sym e))
  | inr other ↦ rw other slots_differ
]

module _ {S : Type 0} where
  pub write_blob_ok :
      (read : Reader S) (write : Writer S) (commit : Committer S) (s : S) (key : Text)
      (generation before : ℕ) (blob : Bytes) (zones : Option (List Zone)) (s' : S)
      → write_blob read write commit s key generation before blob zones ≡ (s', ok)
      → (is_stored (write s key blob).1 ≡ true)
        × (is_stored (commit (write s key blob).0).1 ≡ true)
        × ((commit (write s key blob).0).0 ≡ s')
  unfolding write_blob
  write_blob_ok read write commit s key generation before blob zones s' e =
      (ground arith, ground arith, ground arith)

  -- On a storage whose writes, committed or not, leave the other keys alone, a save, whatever its
  -- result, leaves under the key that is not its target what was there: slot A where A is the
  -- selected slot, and else slot B.
  pub save-spares :
      (read : Reader S) (write : Writer S) (commit : Committer S) (s : S) (a b : Slot)
      (c : IrrigationConfiguration) (before : ℕ) (zones : Option (List Zone))
      → LeavesOthers read write commit
      → read (save_slot read write commit s a b c before zones).0 (spared_key a b)
        ≡ read s (spared_key a b)
  unfolding save_slot write_blob
  save-spares read write commit s a b c before zones alone =
      let key = target_key a b in
      let g = next_generation a b in
      if_split Spared (g == 0) _ _ (λ _. refl)
        (λ _. elim (Stored-cases (configuration_repository_encode (some c) g max_blob_size)) [
          | inl (result, e) ↦ rw e refl
          | inr (blob, e) ↦ rw e (
              let wrote = alone.by_write s key (spared_key a b) blob (target-spared a b) in
              if_split Spared (not (is_stored (write s key blob).1)) _ _ (λ _. wrote)
                (λ _.
                  if_split Spared (not (is_stored (commit (write s key blob).0).1)) _ _
                    (λ _. committed blob) (λ _. committed blob)))
        ])
    where
      Spared : S × ConfigurationRepositoryResult → Type 0
      Spared r = read r.0 (spared_key a b) ≡ read s (spared_key a b)

      committed :
          (blob : Bytes)
          → read (commit (write s (target_key a b) blob).0).0 (spared_key a b)
            ≡ read s (spared_key a b)
      committed blob = alone.by_commit s (target_key a b) (spared_key a b) blob (target-spared a b)

abbrev pub saved : IrrigationConfiguration → ℕ → Slot
saved c generation = record { state = SlotState.valid c; generation = generation }

-- The generation that a save writes, where it has not wrapped to 0, is newer than the other slot's.
newer_than_a :
    (a b : Slot)
    → a.generation < 2 ^ 32
    → (is_valid a.state ≡ true → is_valid b.state ≡ false → b.generation ≤ a.generation)
    → next_generation a b ≢ 0
    → prefers_a a b ≡ true
    → (is_valid a.state && (not true || leb (next_generation a b) a.generation)) ≡ false
unfolding next_generation
newer_than_a a b x order nz p = ground arith

newer_than_b :
    (a b : Slot)
    → b.generation < 2 ^ 32
    → next_generation a b ≢ 0
    → prefers_a a b ≡ false
    → (not (is_valid b.state) || leb b.generation (next_generation a b)) ≡ true
unfolding next_generation
newer_than_b a b y nz p = ground arith

-- The saved slot is the one that a load selects, unless a slot B that is not valid hides a larger
-- generation.
pub select-saved :
    (a b : Slot) (c : IrrigationConfiguration)
    → a.generation < 2 ^ 32
    → b.generation < 2 ^ 32
    → (is_valid a.state ≡ true → is_valid b.state ≡ false → b.generation ≤ a.generation)
    → next_generation a b ≢ 0
    → select
        (if prefers_a a b then a else saved c (next_generation a b))
        (if prefers_a a b then saved c (next_generation a b) else b)
      ≡ done (c, next_generation a b)
unfolding select
select-saved a b c x y order nz = elim (Bool-cases (prefers_a a b)) [
  | inl p ↦ rw p (let newer = newer_than_a a b x order nz p in rw newer refl)
  | inr p ↦ rw p (let newer = newer_than_b a b y nz p in rw newer refl)
]

pub next_generation_bound : (a b : Slot) → next_generation a b < 2 ^ 32
unfolding next_generation
next_generation_bound a b = ground arith

-- A slot B that is not valid, but whose header has a larger generation.
pub hidden_generation :
    (a b : Slot) (c : IrrigationConfiguration)
    → is_valid a.state ≡ true
    → is_valid b.state ≡ false
    → 1 ≤ a.generation
    → a.generation < b.generation
    → select
        (if prefers_a a b then a else saved c (next_generation a b))
        (if prefers_a a b then saved c (next_generation a b) else b)
      ≡ select a b
unfolding select next_generation
hidden_generation a b c va vb pos less = ground arith

pub check_verified_lem : (g : ℕ) (c : IrrigationConfiguration) → check_verified g (g, done c) ≡ ok
unfolding check_verified
check_verified_lem g c = ground arith

pub next_generation_nonzero :
    (a b : Slot)
    → a.generation < 2 ^ 32 - 1
    → b.generation < 2 ^ 32 - 1
    → (next_generation a b == 0) ≡ false
unfolding next_generation
next_generation_nonzero a b x y = ground arith
