-- ===== src/ConfigurationManager/Numbered.antt =====
-- The ids of new programs and schedules, from their counters.
use irrigation_controller.Prelude.{
  ℕ, zero, suc, ◌+◌, ◌*◌, ◌-◌, ◌/◌, ◌%◌, ◌^◌, ◌<◌, ◌≤◌, ◌≡◌, sym, ap, ◌∙◌, inl, inr, true, [], ◌∷◌,
  ◌++◌, Text, length-append, arith, Bool-cases, ltb, length,
}
use irrigation_controller.ConfigurationManager.Agreement.{take_all}
use irrigation_controller.ConfigurationManager.Candidates.{
  print_digits, print_unsigned, numbered_id,
}

-- The value of decimal digits after those of `n`.
unfoldable read_digits : ℕ → Text → ℕ
read_digits n [] = n
read_digits n (c ∷ text) = read_digits (n * 10 + (c - 48)) text

below_ten : (n : ℕ) → n < 10 → ltb n 10 ≡ true
below_ten n small = ground arith

read_last : (n : ℕ) (text : Text) → read_digits (n / 10) ((48 + n % 10) ∷ text) ≡ read_digits n text
unfolding read_digits
read_last n text = ap (λ m. read_digits m text) (omega arith)

read_only : (n : ℕ) (text : Text) → read_digits 0 ((48 + n) ∷ text) ≡ read_digits n text
unfolding read_digits
read_only n text = ap (λ m. read_digits m text) (omega arith)

-- Enough rounds print all digits.
print_digits-read :
    (rounds n : ℕ) (text : Text)
    → n < 10 ^ suc rounds
    → read_digits 0 (print_digits (suc rounds) n text) ≡ read_digits n text
unfolding print_digits
print_digits-read zero n text small =
    rw (below_ten n (omega arith), print_digits) (read_only n text)
print_digits-read (suc rounds) n text small = elim (Bool-cases (ltb n 10)) [
  | inl last ↦ rw (last, print_digits) (read_only n text)
  | inr longer ↦
      rw (longer, print_digits)
        (print_digits-read rounds (n / 10) ((48 + n % 10) ∷ text) (omega arith) ∙ read_last n text)
]

length-print_digits :
    (rounds n : ℕ) (text : Text) → length (print_digits rounds n text) ≤ rounds + length text
unfolding print_digits
length-print_digits zero n text = omega arith
length-print_digits (suc rounds) n text =
    ground (arith, length-print_digits rounds (n / 10) ((48 + n % 10) ∷ text))

numbered_id-fits :
    (prefix : Text) (n : ℕ) → length prefix ≤ 21 → numbered_id prefix n ≡ prefix ++ print_unsigned n
numbered_id-fits prefix n short =
    take_all 31 (prefix ++ print_unsigned n)
      (omega (arith, length-append prefix (print_unsigned n), length-print_digits 10 n []))

abbrev rest_of : Text → Text
rest_of [] = []
rest_of (c ∷ text) = text

append-cancel : (prefix a b : Text) → prefix ++ a ≡ prefix ++ b → a ≡ b
append-cancel [] a b same = same
append-cancel (c ∷ prefix) a b same = append-cancel prefix a b (ap rest_of same)

-- Two 32-bit counters with the same id, after a prefix of at most 21 characters, are equal.
pub numbered_id-injective :
    (prefix : Text) (n m : ℕ)
    → length prefix ≤ 21
    → n < 2 ^ 32
    → m < 2 ^ 32
    → numbered_id prefix n ≡ numbered_id prefix m
    → n ≡ m
unfolding read_digits
numbered_id-injective prefix n m short small small' same =
    let printed : print_unsigned n ≡ print_unsigned m =
      append-cancel prefix _ _
        (sym (numbered_id-fits prefix n short) ∙ same ∙ numbered_id-fits prefix m short) in
    sym (print_digits-read 9 n [] (omega arith))
    ∙ ap (read_digits 0) printed
    ∙ print_digits-read 9 m [] (omega arith)
