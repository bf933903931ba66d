-- ===== src/ConfigurationManager/Slots.antt =====
-- The slots of the runtime views as a map from ids to contents.
use irrigation_controller.Prelude.{
  ℕ, zero, suc, ◌≡◌, refl, inl, inr, Bool, true, false, ◌&&◌, if◌then◌else◌, Option, none, some,
  List, [], ◌∷◌, Text, text_eq, text_eq_iff, arith, Option-cases, get_elem?, set, length,
}
use irrigation_controller.ConfigurationManager.{
  RuntimeSlot, slot_for_id, unused_slot, claim_slot, keep_slots,
}

module _ {A : Type 0} where
  abbrev pub holds : RuntimeSlot A → Text → Bool
  holds slot id = slot.in_use && text_eq slot.id id

  -- The content of the slot that `slot_for_id` finds.
  unfoldable pub find_slot : List (RuntimeSlot A) → Text → Option A
  find_slot [] id = none
  find_slot (slot ∷ slots) id = if holds slot id then some slot.content else find_slot slots id

  -- The same, where the slot is among those to keep.
  unfoldable pub find_kept : List (RuntimeSlot A) → List Bool → Text → Option A
  find_kept [] in_use id = none
  find_kept (slot ∷ slots) [] id = none
  find_kept (slot ∷ slots) (used ∷ in_use) id =
      if holds slot id
      then (if used then some slot.content else none)
      else find_kept slots in_use id

  abbrev pub filled : Text → A → RuntimeSlot A
  filled id content = record { in_use = true; id = id; content = content }

  pub find_slot_lem :
      (slots : List (RuntimeSlot A)) (id : Text)
      → (elim (slot_for_id slots id) [
        | none ↦ none
        | some slot ↦ elim (get_elem? slots slot) [ none ↦ none | some held ↦ some held.content ]
      ])
        ≡ find_slot slots id
  unfolding slot_for_id find_slot
  find_slot_lem [] id = refl
  find_slot_lem (slot ∷ slots) id = ground (arith, find_slot_lem slots id)

  find_slot-set_held :
      (slots : List (RuntimeSlot A)) (id other : Text) (content : A) (i : ℕ)
      → slot_for_id slots id ≡ some i
      → find_slot (set slots i (filled id content)) other
        ≡ (if text_eq id other then some content else find_slot slots other)
  unfolding slot_for_id find_slot
  find_slot-set_held [] id other content i e = absurd (ground arith)
  find_slot-set_held (slot ∷ slots) id other content zero e =
      ground (arith, text_eq_iff slot.id id, text_eq_iff slot.id other, text_eq_iff id other)
  find_slot-set_held (slot ∷ slots) id other content (suc i) e = ground (
    arith,
    text_eq_iff slot.id id,
    text_eq_iff slot.id other,
    text_eq_iff id other,
    find_slot-set_held slots id other content i,
  )

  find_slot-set_unused :
      (slots : List (RuntimeSlot A)) (id other : Text) (content : A) (i : ℕ)
      → slot_for_id slots id ≡ none
      → unused_slot slots ≡ some i
      → find_slot (set slots i (filled id content)) other
        ≡ (if text_eq id other then some content else find_slot slots other)
  unfolding slot_for_id unused_slot find_slot
  find_slot-set_unused [] id other content i e u = absurd (ground arith)
  find_slot-set_unused (slot ∷ slots) id other content zero e u = ground arith
  find_slot-set_unused (slot ∷ slots) id other content (suc i) e u = ground (
    arith,
    text_eq_iff slot.id id,
    text_eq_iff slot.id other,
    text_eq_iff id other,
    find_slot-set_unused slots id other content i,
  )

  -- A write into the slot that has been claimed for an id.
  pub find_slot-claim :
      (slots : List (RuntimeSlot A)) (id other : Text) (content : A) (i : ℕ)
      → claim_slot slots id ≡ some i
      → find_slot (set slots i (filled id content)) other
        ≡ (if text_eq id other then some content else find_slot slots other)
  unfolding claim_slot
  find_slot-claim slots id other content i claimed = elim (Option-cases (slot_for_id slots id)) [
    | inl missing ↦ find_slot-set_unused slots id other content i missing (ground arith)
    | inr (j, found) ↦ find_slot-set_held slots id other content i (ground arith)
  ]

  find_kept-set_held :
      (slots : List (RuntimeSlot A)) (in_use : List Bool) (id other : Text) (content : A) (i : ℕ)
      → length in_use ≡ length slots
      → slot_for_id slots id ≡ some i
      → find_kept (set slots i (filled id content)) (set in_use i true) other
        ≡ (if text_eq id other then some content else find_kept slots in_use other)
  unfolding slot_for_id find_kept
  find_kept-set_held [] in_use id other content i same e = absurd (ground arith)
  find_kept-set_held (slot ∷ slots) [] id other content i same e = absurd (omega arith)
  find_kept-set_held (slot ∷ slots) (used ∷ in_use) id other content zero same e =
      ground (arith, text_eq_iff slot.id id, text_eq_iff slot.id other, text_eq_iff id other)
  find_kept-set_held (slot ∷ slots) (used ∷ in_use) id other content (suc i) same e = ground (
    arith,
    text_eq_iff slot.id id,
    text_eq_iff slot.id other,
    text_eq_iff id other,
    find_kept-set_held slots in_use id other content i (omega arith),
  )

  find_kept-set_unused :
      (slots : List (RuntimeSlot A)) (in_use : List Bool) (id other : Text) (content : A) (i : ℕ)
      → length in_use ≡ length slots
      → slot_for_id slots id ≡ none
      → unused_slot slots ≡ some i
      → find_kept (set slots i (filled id content)) (set in_use i true) other
        ≡ (if text_eq id other then some content else find_kept slots in_use other)
  unfolding slot_for_id unused_slot find_kept
  find_kept-set_unused [] in_use id other content i same e u = absurd (ground arith)
  find_kept-set_unused (slot ∷ slots) [] id other content i same e u = absurd (omega arith)
  find_kept-set_unused (slot ∷ slots) (used ∷ in_use) id other content zero same e u = ground arith
  find_kept-set_unused (slot ∷ slots) (used ∷ in_use) id other content (suc i) same e u = ground (
    arith,
    text_eq_iff slot.id id,
    text_eq_iff slot.id other,
    text_eq_iff id other,
    find_kept-set_unused slots in_use id other content i (omega arith),
  )

  pub find_kept-claim :
      (slots : List (RuntimeSlot A)) (in_use : List Bool) (id other : Text) (content : A) (i : ℕ)
      → length in_use ≡ length slots
      → claim_slot slots id ≡ some i
      → find_kept (set slots i (filled id content)) (set in_use i true) other
        ≡ (if text_eq id other then some content else find_kept slots in_use other)
  unfolding claim_slot
  find_kept-claim slots in_use id other content i same claimed =
      elim (Option-cases (slot_for_id slots id)) [
        | inl missing ↦
            find_kept-set_unused slots in_use id other content i same missing (ground arith)
        | inr (j, found) ↦ find_kept-set_held slots in_use id other content i same (ground arith)
      ]

  -- Only slots in use are kept.
  abbrev pub AreInUse : List (RuntimeSlot A) → List Bool → Type 0
  AreInUse [] in_use = Unit {0}
  AreInUse (slot ∷ slots) [] = Unit {0}
  AreInUse (slot ∷ slots) (used ∷ in_use) =
      (used ≡ true → slot.in_use ≡ true) × AreInUse slots in_use

  pub set-AreInUse :
      (slots : List (RuntimeSlot A)) (in_use : List Bool) (i : ℕ) (id : Text) (content : A)
      → AreInUse slots in_use
      → AreInUse (set slots i (filled id content)) (set in_use i true)
  set-AreInUse [] in_use i id content h = tt
  set-AreInUse (slot ∷ slots) [] zero id content h = tt
  set-AreInUse (slot ∷ slots) [] (suc i) id content h = tt
  set-AreInUse (slot ∷ slots) (used ∷ in_use) zero id content (p, h) = (λ e. refl, h)
  set-AreInUse (slot ∷ slots) (used ∷ in_use) (suc i) id content (p, h) =
      (p, set-AreInUse slots in_use i id content h)

  pub keep_slots-find :
      (slots : List (RuntimeSlot A)) (in_use : List Bool) (id : Text) (content : A)
      → AreInUse slots in_use
      → find_kept slots in_use id ≡ some content
      → find_slot (keep_slots slots in_use) id ≡ some content
  unfolding find_slot find_kept keep_slots
  keep_slots-find [] in_use id content h e = absurd (ground arith)
  keep_slots-find (slot ∷ slots) [] id content h e = absurd (ground arith)
  keep_slots-find (slot ∷ slots) (true ∷ in_use) id content (p, h) e =
      ground (arith, p refl, keep_slots-find slots in_use id content h)
  keep_slots-find (slot ∷ slots) (false ∷ in_use) id content (p, h) e =
      ground (arith, keep_slots-find slots in_use id content h)
