-- ===== src/ConfigurationManager/Room.antt =====
-- The edits of the programs leave room for them in the slots.
use irrigation_controller.Prelude.{
  ℕ, zero, suc, ◌+◌, ◌≤◌, ◌<◌, ◌≡◌, refl, ap, true, not, ◌||◌, some, List, [], ◌∷◌, ◌++◌, Text,
  text_eq, text_eq_refl, arith, All, All-map, get_elem?, set, length, length-append, length-set,
}
use irrigation_controller.Domain.{max_programs}
use irrigation_controller.Configuration.{IrrigationProgramConfiguration, program_exists}
use irrigation_controller.ConfigurationManager.Counting.{one_if}
use irrigation_controller.ConfigurationManager.Candidates.{delete_at}
use irrigation_controller.ConfigurationManager.Fits.{Fits, extra}

abbrev Programs : Type 0
Programs = List IrrigationProgramConfiguration

abbrev Has : Programs → IrrigationProgramConfiguration → Type 0
Has olds p = program_exists olds p.program_id ≡ true

Has-self : (xs : Programs) → All (Has xs) xs
unfolding program_exists
Has-self [] = tt
Has-self (x ∷ xs) = (
  ground (arith, text_eq_refl x.program_id),
  All-map (Has xs) (Has (x ∷ xs)) (λ p h. ground arith) xs (Has-self xs),
)

extra-Has : (olds news : Programs) → All (Has olds) news → extra olds news ≡ 0
extra-Has olds [] h = refl
extra-Has olds (p ∷ news) (h, hs) = ground (arith, extra-Has olds news hs)

extra_self : (xs : Programs) → extra xs xs ≡ 0
extra_self xs = extra-Has xs xs (Has-self xs)

extra-cons :
    (x : IrrigationProgramConfiguration) (olds news : Programs)
    → extra (x ∷ olds) news ≤ extra olds news
unfolding program_exists
extra-cons x olds [] = omega arith
extra-cons x olds (p ∷ news) = ground (arith, extra-cons x olds news)

extra-append :
    (olds news : Programs) (p : IrrigationProgramConfiguration)
    → extra olds (news ++ p ∷ []) ≤ extra olds news + 1
extra-append olds [] p = ground arith
extra-append olds (q ∷ news) p = omega (arith, extra-append olds news p)

exists-append :
    (olds : Programs) (p : IrrigationProgramConfiguration) (id : Text)
    → program_exists olds id ≡ true
    → program_exists (olds ++ p ∷ []) id ≡ true
unfolding program_exists
exists-append [] p id h = absurd (ground arith)
exists-append (x ∷ olds) p id h = ground (arith, exists-append olds p id)

pub same-Fits : (xs : Programs) → length xs ≤ max_programs → Fits xs xs
same-Fits xs few = record {
  ahead = omega (arith, extra_self xs);
  back = omega (arith, extra_self xs);
}

pub append-Fits :
    (xs : Programs) (p : IrrigationProgramConfiguration)
    → length xs < max_programs
    → Fits xs (xs ++ p ∷ [])
append-Fits xs p few = record {
  ahead = omega (arith, extra_self xs, extra-append xs xs p);
  back = omega (
    arith,
    length-append xs (p ∷ []),
    extra-Has (xs ++ p ∷ []) xs (
        All-map (Has xs) (Has (xs ++ p ∷ [])) (λ q h. exists-append xs p q.program_id h) xs
          (Has-self xs)),
  );
}

exists-set :
    (xs : Programs) (i : ℕ) (old new_ : IrrigationProgramConfiguration) (id : Text)
    → get_elem? xs i ≡ some old
    → new_.program_id ≡ old.program_id
    → program_exists (set xs i new_) id ≡ program_exists xs id
unfolding program_exists
exists-set [] i old new_ id found same = refl
exists-set (x ∷ xs) zero old new_ id found same =
    let e : new_.program_id ≡ x.program_id = cc in
    ap (λ id'. text_eq id' id || program_exists xs id) e
exists-set (x ∷ xs) (suc i) old new_ id found same =
    ground (arith, exists-set xs i old new_ id found same)

extra-set_right :
    (olds xs : Programs) (i : ℕ) (old new_ : IrrigationProgramConfiguration)
    → get_elem? xs i ≡ some old
    → new_.program_id ≡ old.program_id
    → extra olds (set xs i new_) ≡ extra olds xs
extra-set_right olds [] i old new_ found same = refl
extra-set_right olds (x ∷ xs) zero old new_ found same =
    let e : new_.program_id ≡ x.program_id = cc in
    ap (λ id. one_if (not (program_exists olds id)) + extra olds xs) e
extra-set_right olds (x ∷ xs) (suc i) old new_ found same =
    omega (arith, extra-set_right olds xs i old new_ found same)

extra-set_left :
    (olds news : Programs) (i : ℕ) (old new_ : IrrigationProgramConfiguration)
    → get_elem? olds i ≡ some old
    → new_.program_id ≡ old.program_id
    → extra (set olds i new_) news ≡ extra olds news
extra-set_left olds [] i old new_ found same = refl
extra-set_left olds (p ∷ news) i old new_ found same = ground (
  arith,
  exists-set olds i old new_ p.program_id found same,
  extra-set_left olds news i old new_ found same,
)

pub set-Fits :
    (xs : Programs) (i : ℕ) (old new_ : IrrigationProgramConfiguration)
    → get_elem? xs i ≡ some old
    → new_.program_id ≡ old.program_id
    → length xs ≤ max_programs
    → Fits xs (set xs i new_)
set-Fits xs i old new_ found same few = record {
  ahead = omega (arith, extra_self xs, extra-set_right xs xs i old new_ found same);
  back =
      omega
        (arith, length-set xs i new_, extra_self xs, extra-set_left xs xs i old new_ found same);
}

delete_at-All :
    (P : IrrigationProgramConfiguration → Type 0) (xs : Programs) (i : ℕ)
    → All P xs
    → All P (delete_at xs i)
unfolding delete_at
delete_at-All P [] i h = tt
delete_at-All P (x ∷ xs) zero (p, h) = h
delete_at-All P (x ∷ xs) (suc i) (p, h) = (p, delete_at-All P xs i h)

extra-delete_at : (xs : Programs) (i : ℕ) → extra (delete_at xs i) xs ≤ 1
unfolding delete_at program_exists
extra-delete_at [] i = omega arith
extra-delete_at (x ∷ xs) zero = ground (arith, extra_self xs)
extra-delete_at (x ∷ xs) (suc i) =
    ground
      (arith, text_eq_refl x.program_id, extra-cons x (delete_at xs i) xs, extra-delete_at xs i)

length-delete_at :
    (xs : Programs) (i : ℕ) (p : IrrigationProgramConfiguration)
    → get_elem? xs i ≡ some p
    → length (delete_at xs i) + 1 ≡ length xs
unfolding delete_at
length-delete_at [] i p found = absurd (ground arith)
length-delete_at (x ∷ xs) zero p found = omega arith
length-delete_at (x ∷ xs) (suc i) p found = omega (arith, length-delete_at xs i p found)

pub delete_at-Fits :
    (xs : Programs) (i : ℕ) (p : IrrigationProgramConfiguration)
    → get_elem? xs i ≡ some p
    → length xs ≤ max_programs
    → Fits xs (delete_at xs i)
delete_at-Fits xs i p found few = record {
  ahead = omega (arith, extra-Has xs (delete_at xs i) (delete_at-All (Has xs) xs i (Has-self xs)));
  back = omega (arith, extra-delete_at xs i, length-delete_at xs i p found);
}
