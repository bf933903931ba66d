-- ===== src/ConfigurationManager/Counting.antt =====
-- How many slots of the runtime views are in use, and whether a new id finds one.
use irrigation_controller.Prelude.{
  ℕ, zero, suc, ◌+◌, ◌≤◌, ◌≡◌, refl, ap, inl, inr, Bool, true, false, none, some, List, [], ◌∷◌,
  Text, arith, Option-cases, set, length, length-set, is_none,
}
use irrigation_controller.ConfigurationManager.{
  RuntimeSlot, slot_for_id, unused_slot, claim_slot, keep_slots,
}
use irrigation_controller.ConfigurationManager.Slots.{filled, find_slot, find_slot-claim}

abbrev pub one_if : Bool → ℕ
one_if true = 1
one_if false = 0

abbrev pub count_true : List Bool → ℕ
count_true [] = 0
count_true (b ∷ bs) = one_if b + count_true bs

pub count_true-set : (bs : List Bool) (i : ℕ) → count_true (set bs i true) ≤ count_true bs + 1
count_true-set [] i = omega arith
count_true-set (b ∷ bs) zero = ground arith
count_true-set (b ∷ bs) (suc i) = omega (arith, count_true-set bs i)

module _ {A : Type 0} where
  abbrev pub count_used : List (RuntimeSlot A) → ℕ
  count_used [] = 0
  count_used (slot ∷ slots) = one_if slot.in_use + count_used slots

  -- The ids that have no slot yet, counted.
  unfoldable pub count_new : List (RuntimeSlot A) → List Text → ℕ
  count_new slots [] = 0
  count_new slots (id ∷ ids) = one_if (is_none (find_slot slots id)) + count_new slots ids

  pub unused_slot-full :
      (slots : List (RuntimeSlot A)) → unused_slot slots ≡ none → count_used slots ≡ length slots
  unfolding unused_slot
  unused_slot-full [] e = refl
  unused_slot-full (slot ∷ slots) e = ground (arith, unused_slot-full slots)

  count_used-held :
      (slots : List (RuntimeSlot A)) (id : Text) (content : A) (i : ℕ)
      → slot_for_id slots id ≡ some i
      → count_used (set slots i (filled id content)) ≡ count_used slots
  unfolding slot_for_id
  count_used-held [] id content i e = absurd (ground arith)
  count_used-held (slot ∷ slots) id content zero e = ground arith
  count_used-held (slot ∷ slots) id content (suc i) e =
      ground (arith, count_used-held slots id content i)

  count_used-unused :
      (slots : List (RuntimeSlot A)) (id : Text) (content : A) (i : ℕ)
      → unused_slot slots ≡ some i
      → count_used (set slots i (filled id content)) ≡ count_used slots + 1
  unfolding unused_slot
  count_used-unused [] id content i e = absurd (ground arith)
  count_used-unused (slot ∷ slots) id content zero e = ground arith
  count_used-unused (slot ∷ slots) id content (suc i) e =
      ground (arith, count_used-unused slots id content i)

  find_slot-missing :
      (slots : List (RuntimeSlot A)) (id : Text)
      → slot_for_id slots id ≡ none
      → find_slot slots id ≡ none
  unfolding slot_for_id find_slot
  find_slot-missing [] id e = refl
  find_slot-missing (slot ∷ slots) id e = ground (arith, find_slot-missing slots id)

  find_slot-found :
      (slots : List (RuntimeSlot A)) (id : Text) (i : ℕ)
      → slot_for_id slots id ≡ some i
      → is_none (find_slot slots id) ≡ false
  unfolding slot_for_id find_slot
  find_slot-found [] id i e = absurd (ground arith)
  find_slot-found (slot ∷ slots) id zero e = ground arith
  find_slot-found (slot ∷ slots) id (suc i) e = ground (arith, find_slot-found slots id i)

  pub count_used-claim :
      (slots : List (RuntimeSlot A)) (id : Text) (content : A) (i : ℕ)
      → claim_slot slots id ≡ some i
      → count_used (set slots i (filled id content))
        ≡ count_used slots + one_if (is_none (find_slot slots id))
  unfolding claim_slot
  count_used-claim slots id content i claimed = elim (Option-cases (slot_for_id slots id)) [
    | inl missing ↦
        ground (arith, find_slot-missing slots id missing, count_used-unused slots id content i)
    | inr (j, found) ↦
        ground (arith, find_slot-found slots id j found, count_used-held slots id content i)
  ]

  -- A free slot is found as long as not all are in use.
  pub claim_slot-free :
      (slots : List (RuntimeSlot A)) (id : Text)
      → count_used slots + one_if (is_none (find_slot slots id)) ≤ length slots
      → is_none (claim_slot slots id) ≡ false
  unfolding claim_slot
  claim_slot-free slots id room = elim (Option-cases (slot_for_id slots id)) [
    | inl missing ↦ elim (Option-cases (unused_slot slots)) [
      | inl full ↦
          absurd (ground (arith, find_slot-missing slots id missing, unused_slot-full slots full))
      | inr (i, free) ↦ rw (missing, free, claim_slot) refl
    ]
    | inr (i, found) ↦ rw (found, claim_slot) refl
  ]

  count_new-claim :
      (slots : List (RuntimeSlot A)) (id : Text) (content : A) (i : ℕ) (ids : List Text)
      → claim_slot slots id ≡ some i
      → count_new (set slots i (filled id content)) ids ≤ count_new slots ids
  unfolding count_new
  count_new-claim slots id content i [] claimed = omega arith
  count_new-claim slots id content i (other ∷ ids) claimed = ground (
    arith,
    find_slot-claim slots id other content i claimed,
    count_new-claim slots id content i ids claimed,
  )

  -- The room that `ids` need, after the first of them.
  pub room-claim :
      (slots : List (RuntimeSlot A)) (id : Text) (content : A) (i : ℕ) (ids : List Text)
      → claim_slot slots id ≡ some i
      → count_used slots + count_new slots (id ∷ ids) ≤ length slots
      → count_used (set slots i (filled id content))
          + count_new (set slots i (filled id content)) ids
        ≤ length (set slots i (filled id content))
  unfolding count_new
  room-claim slots id content i ids claimed room = omega (
    arith,
    count_used-claim slots id content i claimed,
    count_new-claim slots id content i ids claimed,
    length-set slots i (filled id content),
  )

  pub count_used-keep_slots :
      (slots : List (RuntimeSlot A)) (in_use : List Bool)
      → length in_use ≡ length slots
      → count_used (keep_slots slots in_use) ≡ count_true in_use
  unfolding keep_slots
  count_used-keep_slots [] [] same = refl
  count_used-keep_slots [] (used ∷ in_use) same = absurd (omega arith)
  count_used-keep_slots (slot ∷ slots) [] same = absurd (omega arith)
  count_used-keep_slots (slot ∷ slots) (used ∷ in_use) same =
      omega (arith, count_used-keep_slots slots in_use (omega arith))

  pub length-keep_slots :
      (slots : List (RuntimeSlot A)) (in_use : List Bool)
      → length (keep_slots slots in_use) ≡ length slots
  unfolding keep_slots
  length-keep_slots [] in_use = refl
  length-keep_slots (slot ∷ slots) [] = refl
  length-keep_slots (slot ∷ slots) (used ∷ in_use) = ap suc (length-keep_slots slots in_use)
