-- ===== src/Pyth/Rates.antt =====
-- `lamports_at_price` (utils/pyth_oracle.rs): rounding, overflow, and the sign of the exponent.
use native.Mathlib.Nat.{div-add-mod', mod-lt, mod-eq_of_lt, mul-le-mul_left, one-le-pow}
use card_machine.Prelude.{
  ℕ, suc, ◌+◌, ◌*◌, ◌/◌, ◌%◌, ◌^◌, ◌≤◌, ◌<◌, ◌≡◌, ◌⊎◌, ap, ◌∙◌, arith, inl, inr, dec_lt,
}
use card_machine.Prelude.Int.{ℤ, pos, negsuc, pos_part}
use card_machine.Errors.{Result, ok, err, custom, math_overflow, pyth_price_invalid}
use card_machine.Words.{u64_mod, u128_mod}
use card_machine.Pyth.{unsigned_abs, lamports_at_price}
use card_machine.Runtime.{Price}

abbrev scaled_usd : ℕ → ℕ → ℕ
scaled_usd micro_usd expo = micro_usd * 10 ^ 9 * 10 ^ expo

module _ (price : Price) (micro_usd : ℕ) where
  abbrev expo : ℕ
  expo = unsigned_abs price.exponent

  abbrev divisor : ℕ
  divisor = pos_part price.price * 1_000_000

  quotient_lem :
      0 < pos_part price.price
      → pos_part price.price < 2 ^ 63
      → 10 ^ expo < u128_mod
      → micro_usd * 10 ^ 9 < u128_mod
      → scaled_usd micro_usd expo < u128_mod
      → lamports_at_price price micro_usd ≡ ok (scaled_usd micro_usd expo / divisor % u64_mod)
  unfolding lamports_at_price
  quotient_lem hp hq he hm h = ground arith

-- The floor of the exact rate.
abbrev pub IsFloor : ℕ → ℕ → ℕ → Type 0
IsFloor q a b = (q * b ≤ a) × (a < (q + 1) * b)

floor_lem : (a b : ℕ) → 0 < b → IsFloor (a / b) a b
floor_lem a b h = omega (arith, div-add-mod' a b, mod-lt a h)

-- Every way in which a conversion ends, by the price and the power of ten.
abbrev pub IsConversion : ℕ → ℕ → ℕ → Result ℕ → Type 0
IsConversion price expo micro_usd result =
    ((price ≡ 0) × (result ≡ err (custom pyth_price_invalid)))
    ⊎ ((0 < price)
        × ((u128_mod ≤ 10 ^ expo) ⊎ (u128_mod ≤ scaled_usd micro_usd expo))
        × (result ≡ err (custom math_overflow)))
    ⊎ ((0 < price)
        × (10 ^ expo < u128_mod)
        × (scaled_usd micro_usd expo < u128_mod)
        × (q : ℕ) × (result ≡ ok (q % u64_mod))
        × IsFloor q (scaled_usd micro_usd expo) (price * 1_000_000))

-- A price of zero or below is refused as invalid. For a positive price below 2^63 the conversion
-- fails with an overflow when the power of ten or the numerator leaves a `u128`; otherwise it is
-- the exact quotient, rounded down and then cut to 64 bits.
pub lamports_at_price_cases :
    (price : Price) (micro_usd : ℕ)
    → pos_part price.price < 2 ^ 63
    → IsConversion
        (pos_part price.price)
        (unsigned_abs price.exponent)
        micro_usd
        (lamports_at_price price micro_usd)
unfolding lamports_at_price
lamports_at_price_cases price micro_usd hq =
    let e = unsigned_abs price.exponent in
    elim (dec_lt 0 (pos_part price.price)) [
      | no h ↦ inl (omega arith, ground arith)
      | yes h ↦ elim (dec_lt (10 ^ e) u128_mod) [
        | no big ↦ inr (inl (h, inl (omega arith), ground arith))
        | yes he ↦ elim (dec_lt (scaled_usd micro_usd e) u128_mod) [
          | no big ↦ inr (inl (h, inr (omega arith), ground arith))
          | yes fits ↦
              let narrow : micro_usd * 10 ^ 9 < u128_mod =
                omega
                  (arith, mul-le-mul_left (micro_usd * 10 ^ 9) (one-le-pow e 10 (omega arith))) in
              inr (
                inr (
                  h,
                  he,
                  fits,
                  scaled_usd micro_usd e / divisor price micro_usd,
                  quotient_lem price micro_usd h hq he narrow fits,
                  floor_lem _ _ (omega arith),
                ))
        ]
      ]
    ]

floor_fits :
    (q p micro_usd : ℕ)
    → 10 ^ 6 ≤ p
    → micro_usd ≤ 10 ^ 10
    → q * (p * 10 ^ 6) ≤ micro_usd * 10 ^ 17
    → q < u64_mod
floor_fits q p micro_usd low small h = omega (arith, mul-le-mul_left q low)

-- At an exponent of -8, a price of at least one cent and below 2^63, and up to 10000 dollars, the
-- conversion succeeds and is the exact quotient rounded down: nothing is cut.
pub lamports_at_price_exact :
    (p micro_usd : ℕ)
    → 10 ^ 6 ≤ p
    → p < 2 ^ 63
    → micro_usd ≤ 10 ^ 10
    → (q : ℕ) × (lamports_at_price (record { price = pos p; exponent = negsuc 7 }) micro_usd ≡ ok q)
      × IsFloor q (micro_usd * 10 ^ 17) (p * 10 ^ 6)
lamports_at_price_exact p micro_usd low high small =
    let price : Price = record { price = pos p; exponent = negsuc 7 } in
    let fits : scaled_usd micro_usd 8 < u128_mod = omega arith in
    let e = quotient_lem price micro_usd (omega arith) high (omega arith) (omega arith) fits in
    let q = scaled_usd micro_usd 8 / divisor price micro_usd in
    let floor = floor_lem (scaled_usd micro_usd 8) (divisor price micro_usd) (omega arith) in
    let same : IsFloor q (micro_usd * 10 ^ 17) (p * 10 ^ 6) = omega (arith, floor) in
    (q, e ∙ ap ok (mod-eq_of_lt (floor_fits q p micro_usd low small same.0)), same)

-- A price of exponent `e + 1` and one of exponent `-(e + 1)` convert alike.
pub exponent_sign_ignored :
    (p : ℤ) (e micro_usd : ℕ)
    → lamports_at_price (record { price = p; exponent = pos (suc e) }) micro_usd
      ≡ lamports_at_price (record { price = p; exponent = negsuc e }) micro_usd
unfolding lamports_at_price
exponent_sign_ignored p e micro_usd = ground arith
