-- ===== src/Vrf.antt =====
-- utils/vrf_helper.rs: from 32 random bytes to prizes and a prize pool. A `[u8; 32]` is a list of
-- 32 numbers below 256, so an index below 32 is never out of range.
pub mod Derive
pub mod Tiers
pub mod Sqrt
pub mod Curve
pub mod Draw
pub mod Pools
use mathlib.Core.WellFounded.{Acc}
use card_machine.Prelude.{
  ℕ, zero, suc, ◌+◌, ◌-◌, ◌*◌, ◌/◌, ◌%◌, ◌<◌, bit_xor, dite, dec_lt, Bool, Option, none, some, List,
  [], ◌∷◌, ltb, leb, ◌==◌, if◌then◌else◌, get_elem?, get_or, take, drop,
}
use card_machine.Prelude.Order.{lt_wf}
use card_machine.Prelude.Bytes.{wrapping_add, wrapping_mul, from_le_bytes, to_le_bytes}
use card_machine.Constants.{
  prob_precision, reward_step, tier1_min_usd, tier1_steps, tier1_threshold, tier2_min_usd,
  tier2_steps, tier2_threshold, tier3_min_usd, tier3_steps, tier3_threshold, tier4_min_usd,
  tier4_steps,
}
use card_machine.Errors.{Result, ok, ok_or, ◌>>=◌, program, arithmetic_overflow, panicked}
use card_machine.Words.{
  u64_mod, u128_mod, checked_add, checked_mul, checked_sub, saturating_add, saturating_mul,
  unwrap_or,
}

pub record LotteryResult : Type 0 where
  pub total_won_usd : ℕ
  pub selected_pool_index : ℕ

-- The first loop of `derive_random_result`, from the byte at position `i` on.
mix_index : ℕ → ℕ → List ℕ → List ℕ
mix_index index i [] = []
mix_index index i (byte ∷ rest) =
    wrapping_add (bit_xor byte (get_or (to_le_bytes 4 index) (i % 4) 0))
      (wrapping_mul (index % 256) ((i + 1) % 256))
    ∷ mix_index index (i + 1) rest

-- The second loop: every byte is changed by the new value of the byte before it.
chain : ℕ → List ℕ → List ℕ
chain previous [] = []
chain previous (byte ∷ rest) =
    let mixed = bit_xor byte (wrapping_mul previous 31) in mixed ∷ chain mixed rest

mix_previous : List ℕ → List ℕ
mix_previous [] = []
mix_previous (first ∷ rest) = first ∷ chain first rest

unfoldable pub derive_random_result : List ℕ → ℕ → List ℕ
unfolding mix_index chain mix_previous to_le_bytes
derive_random_result raw_seed index = mix_previous (mix_index index 0 raw_seed)

-- Bytes 0 to 7, and 8 to 15, as a `u64`.
abbrev pub first_word : List ℕ → ℕ
first_word bytes = from_le_bytes (take 8 bytes)

abbrev pub second_word : List ℕ → ℕ
second_word bytes = from_le_bytes (take 8 (drop 8 bytes))

unfoldable compute_pool_index : List ℕ → ℕ → ℕ
unfolding from_le_bytes
compute_pool_index random_bytes pool_count =
    if pool_count == 0 then 0 else first_word random_bytes % pool_count

unfoldable select_prize_pool : List ℕ → ℕ → ℕ
unfolding from_le_bytes
select_prize_pool random_bytes pool_count =
    if pool_count == 0 then 0 else second_word random_bytes % pool_count

-- The array of 50 indices panics out of range.
unfoldable pub select_active_prize_pool : List ℕ → ℕ → List ℕ → Result ℕ
unfolding from_le_bytes
select_active_prize_pool random_bytes active_pool_count active_pool_indices =
    if active_pool_count == 0
    then ok 0
    else ok_or (get_elem? active_pool_indices (second_word random_bytes % active_pool_count))
        panicked

-- The tier's smallest prize and its number of steps.
unfoldable pub tier_of_roll : ℕ → ℕ × ℕ
tier_of_roll tier_roll =
    if ltb tier_roll tier1_threshold
    then (tier1_min_usd, tier1_steps)
    else if ltb tier_roll tier2_threshold
    then (tier2_min_usd, tier2_steps)
    else if ltb tier_roll tier3_threshold
    then (tier3_min_usd, tier3_steps)
    else (tier4_min_usd, tier4_steps)

-- The prize of a step of a tier.
unfoldable pub prize_of_step : ℕ × ℕ → ℕ → ℕ
prize_of_step (min_usd, steps) step_entropy =
    saturating_add u64_mod min_usd (saturating_mul u64_mod (step_entropy % steps) reward_step)

unfoldable pub map_to_tiered_distribution : List ℕ → ℕ
unfolding from_le_bytes tier_of_roll prize_of_step
map_to_tiered_distribution random_bytes =
    prize_of_step (tier_of_roll (first_word random_bytes % prob_precision))
      (second_word random_bytes)

-- The loop of `process_vrf_result`: `rounds` cards are left, and `i` is the next card.
unfoldable pub draw_cards : List ℕ → ℕ → ℕ → ℕ → Result ℕ
draw_cards randomness zero i total_won_usd = ok total_won_usd
draw_cards randomness (suc rounds) i total_won_usd = do
  let won = map_to_tiered_distribution (derive_random_result randomness i)
  total ← ok_or (checked_add u64_mod total_won_usd won) (program arithmetic_overflow)
  draw_cards randomness rounds (i + 1) total

unfoldable pub process_vrf_result : List ℕ → ℕ → ℕ → List ℕ → Result LotteryResult
process_vrf_result randomness amount_of_cards active_pool_count active_pool_indices = do
  total_won_usd ← draw_cards randomness amount_of_cards 0 0
  selected ←
      if ltb 0 active_pool_count
      then select_active_prize_pool randomness active_pool_count active_pool_indices
      else ok 0
  ok (record { total_won_usd = total_won_usd; selected_pool_index = selected })

-- The `while` loop of `integer_sqrt`, on `u128`. It ends since `x` falls in every round.
newton : (n x : ℕ) → Acc ◌<◌ x → ℕ
newton n x (Acc.intro _ smaller) =
    let y = (x + n / x) % u128_mod / 2 in dite (dec_lt y x) (λ h. newton n y (smaller y h)) (λ _. x)

pub integer_sqrt : ℕ → ℕ
unfolding newton dec_lt lt_wf
integer_sqrt n = if ltb n 2 then n else newton n (n / 2 + 1) (lt_wf.apply (n / 2 + 1))

-- Bytes 0 to 15 as a `u128`, reduced modulo the square of the range.
pub map_to_linear_curve : List ℕ → ℕ → ℕ → ℕ
map_to_linear_curve random_bytes min_usd max_usd =
    let entropy = from_le_bytes (take 16 random_bytes) in
    let range = max_usd - min_usd in
    let range_sq = unwrap_or (checked_mul u128_mod range range) 0 in
    if range_sq == 0
    then min_usd
    else unwrap_or (checked_sub max_usd (integer_sqrt (entropy % range_sq) % u64_mod)) min_usd
