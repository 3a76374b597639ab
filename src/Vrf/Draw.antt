-- ===== src/Vrf/Draw.antt =====
-- `process_vrf_result` of utils/vrf_helper.rs: the total and the selected pool.
use native.Mathlib.Nat.{mod-lt}
use card_machine.Prelude.{
  ℕ, zero, suc, ◌+◌, ◌*◌, ◌%◌, ◌≤◌, ◌<◌, ◌≡◌, ◌⊎◌, refl, ap, some, List, arith, length, get_elem?,
  get_elem?_total, ltb, lt→ltb, true, dec_lt, if◌then◌else◌, inl, inr,
}
use card_machine.Prelude.Sums.{sum_below, sum_below_zero, sum_below_bounds, sum_below_next}
use card_machine.Constants.{tier1_min_usd, tier4_max_usd}
use card_machine.Errors.{ok, Result-cases}
use card_machine.Words.{u32_mod, u64_mod}
use card_machine.Vrf.{
  second_word, derive_random_result, map_to_tiered_distribution, draw_cards,
  select_active_prize_pool, process_vrf_result, LotteryResult,
}
use card_machine.Vrf.Tiers.{map_to_tiered_distribution_bounds}

-- The prize of card `i`.
abbrev card_prize : List ℕ → ℕ → ℕ
card_prize randomness i = map_to_tiered_distribution (derive_random_result randomness i)

-- The prizes of `n` cards.
abbrev pub prizes : List ℕ → ℕ → ℕ
prizes randomness n = sum_below n (card_prize randomness)

pub prizes_bounds :
    (randomness : List ℕ) (n : ℕ)
    → (n * tier1_min_usd ≤ prizes randomness n) × (prizes randomness n ≤ n * tier4_max_usd)
prizes_bounds randomness n =
    sum_below_bounds n tier1_min_usd tier4_max_usd (card_prize randomness)
      (λ i h. map_to_tiered_distribution_bounds (derive_random_result randomness i))

draw_cards_lem :
    (randomness : List ℕ) (rounds i j : ℕ)
    → i + rounds ≡ j
    → j < u32_mod
    → draw_cards randomness rounds i (prizes randomness i) ≡ ok (prizes randomness j)
unfolding draw_cards
draw_cards_lem randomness zero i j e h =
    let same : i ≡ j = omega arith in ap (λ k. ok (prizes randomness k)) same
draw_cards_lem randomness (suc rounds) i j e h =
    let next = sum_below_next i (card_prize randomness) in
    let fits : ltb (prizes randomness i + card_prize randomness i) u64_mod ≡ true =
      lt→ltb _ _ (omega (arith, prizes_bounds randomness (i + 1), next)) in
    rw fits (rw (← next) (draw_cards_lem randomness rounds (i + 1) j (omega arith) h))

-- Which entry of the list of active pools the random bytes point at.
abbrev pub Selects : List ℕ → ℕ → List ℕ → ℕ → Type 0
Selects randomness count indices selected =
    ((count ≡ 0) × (selected ≡ 0))
    ⊎ ((0 < count) × (get_elem? indices (second_word randomness % count) ≡ some selected))

-- With a count within the list the selection never fails: it is the entry at the second word of
-- the bytes modulo the count, or 0 when no pool is active.
pub select_active_prize_pool_lem :
    (randomness : List ℕ) (count : ℕ) (indices : List ℕ)
    → count ≤ length indices
    → (selected : ℕ) × (select_active_prize_pool randomness count indices ≡ ok selected)
      × Selects randomness count indices selected
unfolding select_active_prize_pool
select_active_prize_pool_lem randomness count indices fits = elim (dec_lt 0 count) [
  | yes p ↦
      let (a, e) =
        get_elem?_total indices (second_word randomness % count)
          (omega (arith, mod-lt (second_word randomness) p)) in
      (a, ground arith, inr (p, e))
  | no p ↦ (0, ground arith, inl (omega arith, refl))
]

-- For less than 2^32 cards and a count of active pools within the list, the draw never fails. Its
-- total is the sum of the prizes of cards 0 to `amount - 1`, and its pool is the entry at the
-- second word of the bytes modulo the count, or 0 when no pool is active.
pub process_vrf_result_lem :
    (randomness : List ℕ) (amount count : ℕ) (indices : List ℕ)
    → amount < u32_mod
    → count ≤ length indices
    → (selected : ℕ) × (process_vrf_result randomness amount count indices
        ≡ ok (record { total_won_usd = prizes randomness amount; selected_pool_index = selected }))
      × Selects randomness count indices selected
unfolding process_vrf_result
process_vrf_result_lem randomness amount count indices small fits =
    let (selected, e, s) = select_active_prize_pool_lem randomness count indices fits in
    let drawn : draw_cards randomness amount 0 0 ≡ ok (prizes randomness amount) =
      rw (sum_below_zero (card_prize randomness)) at
        (draw_cards_lem randomness amount 0 amount (omega arith) small) in
    let none_active : count ≡ 0 → selected ≡ 0 =
      λ z. elim s [ inl (no_pools, first) ↦ first | inr (p, found) ↦ absurd (omega arith) ] in
    (selected, rw drawn (ground (arith, e, none_active)), s)

draw_cards_inverse :
    (randomness : List ℕ) (rounds i total : ℕ)
    → draw_cards randomness rounds i (prizes randomness i) ≡ ok total
    → total ≡ prizes randomness (i + rounds)
unfolding draw_cards
draw_cards_inverse randomness zero i total h = ground arith
draw_cards_inverse randomness (suc rounds) i total h =
    let next = sum_below_next i (card_prize randomness) in
    let same : i + suc rounds ≡ i + 1 + rounds = omega arith in
    rw same (draw_cards_inverse randomness rounds (i + 1) total (rw next (ground arith)))

-- A draw that returned has the sum of the cards' prizes, whatever the number of cards.
pub process_vrf_result_total :
    (randomness : List ℕ) (amount count : ℕ) (indices : List ℕ) (result : LotteryResult)
    → process_vrf_result randomness amount count indices ≡ ok result
    → result.total_won_usd ≡ prizes randomness amount
unfolding process_vrf_result
process_vrf_result_total randomness amount count indices result h =
    elim (Result-cases (draw_cards randomness amount 0 0)) [
      | inr (e, fails) ↦ absurd (ground arith)
      | inl (total, drawn) ↦
          elim (Result-cases
            (if ltb 0 count then select_active_prize_pool randomness count indices else ok 0)) [
              | inr (x, unselected) ↦ absurd (ground arith)
              | inl (selected, es) ↦
                  let zero_sum = sum_below_zero (card_prize randomness) in
                  let same = draw_cards_inverse randomness amount 0 total (rw zero_sum drawn) in
                  ground arith
            ]
    ]
