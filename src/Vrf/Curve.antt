-- ===== src/Vrf/Curve.antt =====
-- `map_to_linear_curve` of utils/vrf_helper.rs: its range.
use native.Mathlib.Nat.{mod-lt, mod-eq_of_lt, mul-le-mul}
use card_machine.Prelude.{ℕ, ◌-◌, ◌*◌, ◌%◌, ◌≤◌, ◌<◌, ◌≡◌, refl, List, arith, dec_lt, take}
use card_machine.Prelude.Bytes.{from_le_bytes}
use card_machine.Words.{u64_mod, u128_mod, unwrap_or, checked_mul}
use card_machine.Vrf.{integer_sqrt, map_to_linear_curve}
use card_machine.Vrf.Sqrt.{integer_sqrt_lem}

-- A root of less than a square is less than its side.
root-lt : (s n side : ℕ) → s * s ≤ n → n < side * side → s < side
root-lt s n side root below = elim (dec_lt s side) [
  | yes p ↦ p
  | no p ↦ let large : side ≤ s = omega arith in absurd (omega (arith, mul-le-mul large large))
]

square-lt : (side : ℕ) → side < u64_mod → side * side < u128_mod
square-lt side h =
    let small : side ≤ 0xffffffffffffffff = omega arith in omega (arith, mul-le-mul small small)

curve_steps :
    (bytes : List ℕ) (min_usd max_usd s : ℕ)
    → max_usd < u64_mod
    → (max_usd - min_usd) * (max_usd - min_usd) < u128_mod
    → 0 < (max_usd - min_usd) * (max_usd - min_usd)
    → integer_sqrt (from_le_bytes (take 16 bytes) % ((max_usd - min_usd) * (max_usd - min_usd))) ≡ s
    → s < max_usd - min_usd
    → map_to_linear_curve bytes min_usd max_usd ≡ max_usd - s
unfolding map_to_linear_curve
curve_steps bytes min_usd max_usd s fits small some_range e below =
    let range = max_usd - min_usd in
    let square : unwrap_or (checked_mul u128_mod range range) 0 ≡ range * range = ground arith in
    let kept : s % u64_mod ≡ s = mod-eq_of_lt (omega arith) in
    rw square (rw e (rw kept (ground arith)))

no_range : (bytes : List ℕ) (n : ℕ) → map_to_linear_curve bytes n n ≡ n
unfolding map_to_linear_curve
no_range bytes n = let none_left : n - n ≡ 0 = omega arith in rw none_left (ground arith)

-- For bounds in order that fit in 64 bits, the linear curve gives a number between them, both
-- included.
pub map_to_linear_curve_bounds :
    (bytes : List ℕ) (min_usd max_usd : ℕ)
    → min_usd ≤ max_usd
    → max_usd < u64_mod
    → (min_usd ≤ map_to_linear_curve bytes min_usd max_usd)
      × (map_to_linear_curve bytes min_usd max_usd ≤ max_usd)
map_to_linear_curve_bounds bytes min_usd max_usd ordered fits = elim (dec_lt min_usd max_usd) [
  | no same ↦
      let equal : max_usd ≡ min_usd = omega arith in
      rw (equal, no_range bytes min_usd) (omega arith, omega arith)
  | yes h ↦
      let range = max_usd - min_usd in
      let some_range : 0 < range * range =
        let one : 1 ≤ range = omega arith in omega (arith, mul-le-mul one one) in
      let small = square-lt range (omega arith) in
      let entropy = from_le_bytes (take 16 bytes) % (range * range) in
      let below = mod-lt (from_le_bytes (take 16 bytes)) some_range in
      let root = integer_sqrt_lem entropy (omega arith) in
      let inside = root-lt (integer_sqrt entropy) entropy range root.0 below in
      rw
        (curve_steps bytes min_usd max_usd (integer_sqrt entropy) fits small some_range refl inside)
        (omega arith, omega arith)
]
