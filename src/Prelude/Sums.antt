-- ===== src/Prelude/Sums.antt =====
-- Sums over the numbers below a bound.
use native.Mathlib.Nat.{add-suc, add-zero}
use native.Mathlib.Numerals.{add-one}
use card_machine.Prelude.{ℕ, zero, suc, ◌+◌, ◌*◌, ◌≤◌, ◌<◌, ◌≡◌, refl, arith}

unfoldable pub sum_below : ℕ → (ℕ → ℕ) → ℕ
sum_below zero f = 0
sum_below (suc n) f = sum_below n f + f n

pub sum_below_zero : (f : ℕ → ℕ) → sum_below 0 f ≡ 0
unfolding sum_below
sum_below_zero f = refl

-- A stretch on which the summand is constant.
pub sum_below-add_const :
    (a k c : ℕ) (f : ℕ → ℕ)
    → ((r : ℕ) → a ≤ r → r < a + k → f r ≡ c)
    → sum_below (a + k) f ≡ sum_below a f + k * c
unfolding sum_below
sum_below-add_const a zero c f h = rw add-zero (omega arith)
sum_below-add_const a (suc k) c f h = rw add-suc (
    omega (
      arith,
      sum_below-add_const a k c f (λ r ha hk. h r ha (omega arith)),
      h (a + k) (omega arith) (omega arith),
    ))

-- Every summand lies between two bounds.
pub sum_below_bounds :
    (n low high : ℕ) (f : ℕ → ℕ)
    → ((r : ℕ) → r < n → (low ≤ f r) × (f r ≤ high))
    → (n * low ≤ sum_below n f) × (sum_below n f ≤ n * high)
unfolding sum_below
sum_below_bounds zero low high f h = omega arith
sum_below_bounds (suc n) low high f h =
    omega (arith, h n (omega arith), sum_below_bounds n low high f (λ r hr. h r (omega arith)))

pub sum_below_next : (n : ℕ) (f : ℕ → ℕ) → sum_below (n + 1) f ≡ sum_below n f + f n
unfolding sum_below
sum_below_next n f = rw (add-one n)
