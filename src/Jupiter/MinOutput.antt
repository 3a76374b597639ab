-- ===== src/Jupiter/MinOutput.antt =====
-- `calculate_min_output` of utils/jupiter_cpi.rs: the slippage bound.
use card_machine.Prelude.{ℕ, ◌+◌, ◌-◌, ◌*◌, ◌/◌, ◌≤◌, ◌<◌, ◌≡◌, Bool, arith, ◌⊎◌, inl, inr, dec_lt}
use card_machine.Errors.{Result, ok, err, custom, math_overflow}
use card_machine.Words.{u64_mod, sub_u64}
use card_machine.Jupiter.{calculate_min_output}

-- What the bound is for a product of the expected output and the part that is left.
abbrev pub IsMinOutput : ℕ → ℕ → Result ℕ → Type 0
IsMinOutput expected part result =
    ((expected * part < u64_mod)
      × (m : ℕ) × (result ≡ ok m)
      × (m * 10000 ≤ expected * part)
      × (expected * part < (m + 1) * 10000)
      × (m ≤ expected))
    ⊎ ((u64_mod ≤ expected * part) × (result ≡ err (custom math_overflow)))

-- With a slippage of at most 100% the bound is the expected output less the slippage, rounded
-- down, and never more than what was expected; where the product leaves a `u64` the call fails.
pub calculate_min_output_lem :
    (checks : Bool) (expected slippage : ℕ)
    → slippage ≤ 10000
    → IsMinOutput expected (10000 - slippage) (calculate_min_output checks expected slippage)
unfolding calculate_min_output sub_u64
calculate_min_output_lem checks expected slippage h =
    let part = 10000 - slippage in
    elim (dec_lt (expected * part) u64_mod) [
      | yes fits ↦
          inl (fits, expected * part / 10000, ground arith, ground arith, ground arith, grind arith)
      | no big ↦ inr (omega arith, ground arith)
    ]
