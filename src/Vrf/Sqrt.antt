-- ===== src/Vrf/Sqrt.antt =====
-- `integer_sqrt` of utils/vrf_helper.rs: Newton's method on 128-bit numbers.
use mathlib.Core.WellFounded.{Acc}
use card_machine.Prelude.{
  ℕ, suc, ◌+◌, ◌*◌, ◌/◌, ◌≤◌, ◌<◌, ◌≡◌, arith, dec_lt, dec_le, ◌%◌, ltb, lt→ltb, false, ap, zero,
}
use native.Mathlib.Nat.{
  le_dest, div-add-mod, mod-lt, mod-eq_of_lt, div-mul-le_self, mul-le-mul_left, mul-le-mul,
}
use mathlib.Core.Logic.{dif_pos, dif_neg}
use native.Mathlib.Bridge.{le_prop}
use card_machine.Prelude.Order.{lt_wf}
use card_machine.Words.{u128_mod}
use card_machine.Vrf.{newton, integer_sqrt}

-- Four times a product is at most the square of the sum.
am_gm : (a b : ℕ) → 4 * (a * b) ≤ (a + b) * (a + b)
am_gm a b = elim (dec_le a b) [
  | yes h ↦ let (k, e) = le_dest h in rw (← e) (omega arith)
  | no h ↦ let (k, e) = le_dest {n = b} {m = a} (omega arith) in rw (← e) (omega arith)
]

-- A Newton step never falls below the root.
newton_step : (n x s : ℕ) → 0 < x → s * s ≤ n → s ≤ (x + n / x) / 2
newton_step n x s px h = elim (dec_le s ((x + n / x) / 2)) [
  | yes p ↦ p
  | no p ↦
      let above : x + (n / x + 1) ≤ 2 * s = omega arith in
      absurd
        (omega (arith, mul-le-mul above above, am_gm x (n / x + 1), div-add-mod n x, mod-lt n px))
]

newton_stop : (n x : ℕ) → 0 < x → x ≤ (x + n / x) / 2 → x * x ≤ n
newton_stop n x px h = grind (arith, div-add-mod n x)

newton_start : (n s : ℕ) → 2 ≤ n → s * s ≤ n → s ≤ n / 2 + 1
newton_start n s h e = elim (dec_le s (n / 2 + 1)) [
  | yes p ↦ p
  | no p ↦ let two : 2 ≤ s = omega arith in absurd (grind arith)
]

-- In the loop `x` is at least the root and at most its first value, so the sum fits in a `u128`.
newton_sum_fits :
    (n x : ℕ) → 0 < x → x ≤ n / 2 + 1 → n < (x + 1) * (x + 1) → n < u128_mod → x + n / x < u128_mod
newton_sum_fits n x px hx root hn = elim (dec_le x 1) [
  | yes p ↦
      let e : x ≡ 1 = omega arith in
      let small : n < (1 + 1) * (1 + 1) = rw e at root in
      omega (arith, div-mul-le_self n x, mul-le-mul_left (n / x) px)
  | no p ↦
      let two : 2 ≤ x = omega arith in
      omega (arith, div-mul-le_self n x, mul-le-mul_left (n / x) two)
]

-- No number above the next `x` has its square within `n`.
root_of_step : (n x y : ℕ) → 0 < x → y ≡ (x + n / x) / 2 → n < (y + 1) * (y + 1)
root_of_step n x y px e = elim (dec_le ((y + 1) * (y + 1)) n) [
  | yes p ↦ absurd (omega (arith, newton_step n x (y + 1) px p))
  | no p ↦ omega arith
]

abbrev pub IsRoot : ℕ → ℕ → Type 0
IsRoot n s = (s * s ≤ n) × (n < (s + 1) * (s + 1))

newton_lem :
    (n x : ℕ) (w : Acc ◌<◌ x)
    → 1 ≤ n
    → n < u128_mod
    → 0 < x
    → x ≤ n / 2 + 1
    → n < (x + 1) * (x + 1)
    → IsRoot n (newton n x w)
unfolding newton
newton_lem n x (Acc.intro _ smaller) hn hb px hx root =
    let y = (x + n / x) % u128_mod / 2 in
    let same : y ≡ (x + n / x) / 2 =
      ap (λ (t : ℕ). t / 2) (mod-eq_of_lt (newton_sum_fits n x px hx root hb)) in
    elim (dec_lt y x) [
      | yes h ↦ rw (dif_pos _ le_prop h) (
          newton_lem n y (smaller y h) hn hb (omega (arith, newton_step n x 1 px hn)) (omega arith)
            (root_of_step n x y px same))
      | no h ↦ rw (dif_neg _ h) (newton_stop n x px (omega arith), root)
    ]

start : (n : ℕ) → 2 ≤ n → n < (n / 2 + 1 + 1) * (n / 2 + 1 + 1)
start n h = elim (dec_le ((n / 2 + 1 + 1) * (n / 2 + 1 + 1)) n) [
  | yes p ↦ absurd (omega (arith, newton_start n (n / 2 + 1 + 1) h p))
  | no p ↦ omega arith
]

small : (n : ℕ) → n < 2 → IsRoot n n
small zero h = omega arith
small (suc zero) h = omega arith
small (suc (suc n)) h = absurd (omega arith)

ltb-false : (a b : ℕ) → ¬ (a < b) → ltb a b ≡ false
ltb-false a b h = ground arith

-- Below 2^128 the loop ends with the integer square root: the greatest number whose square is at
-- most `n`.
pub integer_sqrt_lem : (n : ℕ) → n < u128_mod → IsRoot n (integer_sqrt n)
unfolding integer_sqrt
integer_sqrt_lem n hn = elim (dec_lt n 2) [
  | yes p ↦ rw (lt→ltb n 2 p) (small n p)
  | no p ↦ rw (ltb-false n 2 p) (
      newton_lem n (n / 2 + 1) (lt_wf.apply (n / 2 + 1)) (omega arith) hn (omega arith)
        (omega arith) (start n (omega arith)))
]
