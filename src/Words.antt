-- ===== src/Words.antt =====
-- Machine integers: the checked, saturating and wrapping operations of Rust's `u64`, `u128`, `u8`
-- and `i64`. A plain `+`, `-` or `*` panics on overflow where the build checks it, and wraps where
-- it does not: the build profile is a parameter of the definitions that use one.
pub mod Clock
use card_machine.Prelude.{
  ℕ, ◌+◌, ◌-◌, ◌*◌, ◌/◌, ◌%◌, ◌^◌, Bool, true, false, Option, none, some, ltb, leb, ◌==◌,
  if◌then◌else◌,
}
use card_machine.Prelude.Int.{ℤ, pos, negsuc, pos_part, neg_part, sub_ℕ, ◌-ℤ◌}
use card_machine.Errors.{Result, ok, err, panicked}

abbrev u8_mod : ℕ
u8_mod = 2 ^ 8

abbrev pub u32_mod : ℕ
u32_mod = 2 ^ 32

abbrev pub u64_mod : ℕ
u64_mod = 2 ^ 64

abbrev pub u128_mod : ℕ
u128_mod = 2 ^ 128

-- The `checked_` operations of an unsigned type with `bound` values.
module _ (bound : ℕ) where
  abbrev pub checked_add : ℕ → ℕ → Option ℕ
  checked_add a b = if ltb (a + b) bound then some (a + b) else none

  abbrev pub checked_mul : ℕ → ℕ → Option ℕ
  checked_mul a b = if ltb (a * b) bound then some (a * b) else none

  abbrev pub saturating_add : ℕ → ℕ → ℕ
  saturating_add a b = if ltb (a + b) bound then a + b else bound - 1

  abbrev pub saturating_mul : ℕ → ℕ → ℕ
  saturating_mul a b = if ltb (a * b) bound then a * b else bound - 1

  abbrev pub checked_pow : ℕ → ℕ → Option ℕ
  checked_pow a n = if ltb (a ^ n) bound then some (a ^ n) else none

abbrev pub checked_sub : ℕ → ℕ → Option ℕ
checked_sub a b = if leb b a then some (a - b) else none

abbrev pub checked_div : ℕ → ℕ → Option ℕ
checked_div a b = if b == 0 then none else some (a / b)

-- `unwrap_or`.
abbrev pub unwrap_or {ℓ} : {A : Type ℓ} → Option A → A → A
unwrap_or (some a) default = a
unwrap_or none default = default

-- What the operator gives when its exact result is out of range.
abbrev overflowed {ℓ} : {A : Type ℓ} → Bool → A → Result A
overflowed true wrapped = err panicked
overflowed false wrapped = ok wrapped

-- `a + b` on `u8`.
unfoldable pub add_u8 : Bool → ℕ → ℕ → Result ℕ
add_u8 overflow_checks a b =
    if ltb (a + b) u8_mod then ok (a + b) else overflowed overflow_checks ((a + b) % u8_mod)

-- `a * b` on `u64`.
unfoldable pub mul_u64 : Bool → ℕ → ℕ → Result ℕ
mul_u64 overflow_checks a b =
    if ltb (a * b) u64_mod then ok (a * b) else overflowed overflow_checks ((a * b) % u64_mod)

-- `a - b` on `u64`.
unfoldable pub sub_u64 : Bool → ℕ → ℕ → Result ℕ
sub_u64 overflow_checks a b =
    if leb b a then ok (a - b) else overflowed overflow_checks (a + u64_mod - b)

abbrev i64_in_range : ℤ → Bool
i64_in_range (pos n) = ltb n (2 ^ 63)
i64_in_range (negsuc n) = ltb n (2 ^ 63)

-- The integer from -2^63 to 2^63 - 1 that is congruent to `a` modulo 2^64.
abbrev wrap_i64 : ℤ → ℤ
wrap_i64 a = sub_ℕ ((pos_part a + 2 ^ 63 + (u64_mod - neg_part a % u64_mod)) % u64_mod) (2 ^ 63)

-- `a - b` on `i64`.
unfoldable pub sub_i64 : Bool → ℤ → ℤ → Result ℤ
unfolding ◌-ℤ◌
sub_i64 overflow_checks a b =
    if i64_in_range (a -ℤ b) then ok (a -ℤ b) else overflowed overflow_checks (wrap_i64 (a -ℤ b))
