-- ===== src/Result.antt =====
-- firmware/app/result.h: the result of every operation, and results that carry output arguments.
use irrigation_controller.Prelude.{Bool, true, false, ◌≡◌, refl, ◌⊎◌, inl, inr}

pub data IrrigationResult : Type 0 where
  ok : IrrigationResult
  rejected : IrrigationResult
  invalid_state : IrrigationResult
  not_found : IrrigationResult
  timeout : IrrigationResult
  internal_error : IrrigationResult
  not_supported : IrrigationResult
  referenced : IrrigationResult

-- `result == IRRIGATION_RESULT_OK`
abbrev pub is_ok : IrrigationResult → Bool
is_ok ok = true
is_ok _ = false

-- A function that returns OK with its output arguments written, or another result.
pub data Checked {ℓ} (A : Type ℓ) : Type ℓ where
  passed : A → Checked A
  refused : IrrigationResult → Checked A

pub Checked-cases {ℓ} :
    {A : Type ℓ} (c : Checked A)
    → ((r : IrrigationResult) × (c ≡ refused r)) ⊎ ((a : A) × (c ≡ passed a))
Checked-cases (refused r) = inl (r, refl)
Checked-cases (passed a) = inr (a, refl)
