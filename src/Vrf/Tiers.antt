-- ===== src/Vrf/Tiers.antt =====
-- `map_to_tiered_distribution` of utils/vrf_helper.rs: tiers, bounds and distribution.
use card_machine.Prelude.{
  ℕ, ◌+◌, ◌*◌, ◌/◌, ◌%◌, ◌≤◌, ◌<◌, ◌≡◌, refl, ap, List, arith, ◌⊎◌, inl, inr, dec_lt,
}
use card_machine.Prelude.Sums.{sum_below, sum_below_zero, sum_below-add_const}
use card_machine.Constants.{
  prob_precision, reward_step, tier1_min_usd, tier1_steps, tier1_threshold, tier2_min_usd,
  tier2_steps, tier2_threshold, tier3_min_usd, tier3_steps, tier3_threshold, tier4_min_usd,
  tier4_steps, tier1_max_usd, tier2_max_usd, tier3_max_usd, tier4_max_usd,
}
use card_machine.Vrf.{first_word, tier_of_roll, prize_of_step, map_to_tiered_distribution}

-- A number within bounds, both included.
abbrev Within : ℕ → ℕ → ℕ → Type 0
Within low high n = (low ≤ n) × (n ≤ high)

-- Which tier a roll belongs to, and the bounds of the tier's prizes.
abbrev pub IsByTier : ℕ → ℕ → Type 0
IsByTier roll prize =
    ((roll < tier1_threshold) × Within tier1_min_usd tier1_max_usd prize)
    ⊎ ((tier1_threshold ≤ roll)
        × (roll < tier2_threshold)
        × Within tier2_min_usd tier2_max_usd prize)
    ⊎ ((tier2_threshold ≤ roll)
        × (roll < tier3_threshold)
        × Within tier3_min_usd tier3_max_usd prize)
    ⊎ ((tier3_threshold ≤ roll) × Within tier4_min_usd tier4_max_usd prize)

-- The prize of a card is a multiple of 0.1 dollars within the bounds of the tier to which the
-- first word of its bytes belongs, modulo a million: 5.0 to 7.0 below 150000, 7.0 to 14.0 below
-- 650000, 14.0 to 49.9 below 950000, and 50.0 to 99.9 from there on.
pub map_to_tiered_distribution-IsByTier :
    (bytes : List ℕ)
    → IsByTier (first_word bytes % prob_precision) (map_to_tiered_distribution bytes)
      × (map_to_tiered_distribution bytes % reward_step ≡ 0)
unfolding map_to_tiered_distribution tier_of_roll prize_of_step
map_to_tiered_distribution-IsByTier bytes =
    let roll = first_word bytes % prob_precision in
    (
      elim (dec_lt roll tier1_threshold) [
        | yes a ↦ inl (ground arith)
        | no a ↦ elim (dec_lt roll tier2_threshold) [
          | yes b ↦ inr (inl (ground arith))
          | no b ↦ elim (dec_lt roll tier3_threshold) [
            | yes c ↦ inr (inr (inl (ground arith)))
            | no c ↦ inr (inr (inr (ground arith)))
          ]
        ]
      ],
      ground arith,
    )

pub map_to_tiered_distribution_bounds :
    (bytes : List ℕ)
    → (tier1_min_usd ≤ map_to_tiered_distribution bytes)
      × (map_to_tiered_distribution bytes ≤ tier4_max_usd)
unfolding map_to_tiered_distribution tier_of_roll prize_of_step
map_to_tiered_distribution_bounds bytes = ground arith

-- What one tier adds to a sum over the rolls.
share :
    (a k : ℕ) (f : ℕ × ℕ → ℕ) (t : ℕ × ℕ)
    → ((r : ℕ) → a ≤ r → r < a + k → tier_of_roll r ≡ t)
    → sum_below (a + k) (λ r. f (tier_of_roll r)) ≡ sum_below a (λ r. f (tier_of_roll r)) + k * f t
share a k f t h = sum_below-add_const a k (f t) (λ r. f (tier_of_roll r)) (λ r p q. ap f (h r p q))

in_tier1 : (r : ℕ) → 0 ≤ r → r < 0 + 150_000 → tier_of_roll r ≡ (tier1_min_usd, tier1_steps)
unfolding tier_of_roll
in_tier1 r p q = ground arith

in_tier2 :
    (r : ℕ) → 150_000 ≤ r → r < 150_000 + 500_000 → tier_of_roll r ≡ (tier2_min_usd, tier2_steps)
unfolding tier_of_roll
in_tier2 r p q = ground arith

in_tier3 :
    (r : ℕ) → 650_000 ≤ r → r < 650_000 + 300_000 → tier_of_roll r ≡ (tier3_min_usd, tier3_steps)
unfolding tier_of_roll
in_tier3 r p q = ground arith

in_tier4 :
    (r : ℕ) → 950_000 ≤ r → r < 950_000 + 50_000 → tier_of_roll r ≡ (tier4_min_usd, tier4_steps)
unfolding tier_of_roll
in_tier4 r p q = ground arith

-- Of a million rolls 150000 are in the first tier, 500000 in the second, 300000 in the third and
-- 50000 in the fourth: any quantity that depends on the tier adds up accordingly.
pub tier_distribution :
    (f : ℕ × ℕ → ℕ)
    → sum_below prob_precision (λ r. f (tier_of_roll r))
      ≡ 150_000 * f (tier1_min_usd, tier1_steps)
        + 500_000 * f (tier2_min_usd, tier2_steps)
        + 300_000 * f (tier3_min_usd, tier3_steps)
        + 50_000 * f (tier4_min_usd, tier4_steps)
tier_distribution f =
    let g : ℕ → ℕ = λ r. f (tier_of_roll r) in
    omega (
      arith,
      sum_below_zero g,
      share 0 150_000 f (tier1_min_usd, tier1_steps) in_tier1,
      share 150_000 500_000 f (tier2_min_usd, tier2_steps) in_tier2,
      share 650_000 300_000 f (tier3_min_usd, tier3_steps) in_tier3,
      share 950_000 50_000 f (tier4_min_usd, tier4_steps) in_tier4,
    )

-- The prizes of one tier, added up over its steps.
tier_total : ℕ × ℕ → ℕ
tier_total t = sum_below t.1 (prize_of_step t)

tier_totals :
    (tier_total (tier1_min_usd, tier1_steps) ≡ tier1_steps * 6_000_000)
    × (tier_total (tier2_min_usd, tier2_steps) ≡ tier2_steps * 10_500_000)
    × (tier_total (tier3_min_usd, tier3_steps) ≡ tier3_steps * 31_950_000)
    × (tier_total (tier4_min_usd, tier4_steps) ≡ tier4_steps * 74_950_000)
unfolding tier_total sum_below prize_of_step
tier_totals = (refl, refl, refl, refl)

-- The mean prize of a card, over uniform rolls and steps, is 19.4825 dollars.
expected_prize :
    sum_below prob_precision (λ r. let t = tier_of_roll r in tier_total t / t.1)
    ≡ 19_482_500 * prob_precision
expected_prize = omega (arith, tier_distribution (λ t. tier_total t / t.1), tier_totals)
