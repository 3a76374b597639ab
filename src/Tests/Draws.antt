-- ===== src/Tests/Draws.antt =====
-- Draws on concrete bytes.
use card_machine.Prelude.{
  ℕ, ◌+◌, ◌*◌, ◌%◌, ◌≡◌, refl, true, List, [], ◌∷◌, arith, All, ◌==◌, if◌then◌else◌, replicate,
}
use card_machine.Prelude.Sums.{sum_below}
use card_machine.Prelude.Bytes.{Byte}
use card_machine.Constants.{
  prob_precision, reward_step, tier1_min_usd, tier2_min_usd, tier3_min_usd, tier4_min_usd,
}
use card_machine.Errors.{Result, ok, err}
use card_machine.State.{pending, MintRequest}
use card_machine.Runtime.{World}
use card_machine.Runtime.Sample.{sample}
use card_machine.Vrf.{
  first_word, derive_random_result, map_to_tiered_distribution, tier_of_roll,
  select_active_prize_pool, draw_cards, prize_of_step, process_vrf_result, integer_sqrt,
}
use card_machine.Vrf.Tiers.{IsByTier, map_to_tiered_distribution-IsByTier, tier_distribution}
use card_machine.Vrf.Derive.{derive_inj_seed, derive_inj_index}
use card_machine.Vrf.Draw.{prizes, Selects, process_vrf_result_lem}
use card_machine.Vrf.Pools.{pool_sum, selected, pool_distribution}
use card_machine.Vrf.Sqrt.{IsRoot, integer_sqrt_lem}
use card_machine.Oracle.{ConsumeAccounts, reveal, consume_handler, consume_lottery_randomness}
use card_machine.Oracle.Reveal.{Accepts, Reveals, Consumes, consume-Reveals, consumed}
use card_machine.Tests.{
  settings, request_key, request_with, pending_world, signed_by, is_ok, world_after, succeeded,
}

-- 32 random bytes.
abbrev pub bytes : List ℕ
bytes =
    12 ∷ 200 ∷ 7 ∷ 99 ∷ 255 ∷ 0 ∷ 31 ∷ 64 ∷ 18 ∷ 77 ∷ 140 ∷ 3 ∷ 250 ∷ 1 ∷ 90 ∷ 44 ∷ 5 ∷ 6 ∷ 7 ∷ 8
    ∷ 9 ∷ 10 ∷ 11 ∷ 12 ∷ 13 ∷ 14 ∷ 15 ∷ 16 ∷ 17 ∷ 18 ∷ 19 ∷ 20 ∷ []

bytes-Byte : All Byte bytes
bytes-Byte = ground arith

map_to_tiered_distribution-IsByTier_example :
    IsByTier (first_word bytes % prob_precision) (map_to_tiered_distribution bytes)
    × (map_to_tiered_distribution bytes % reward_step ≡ 0)
map_to_tiered_distribution-IsByTier_example = map_to_tiered_distribution-IsByTier bytes

-- The least prize of each tier.
abbrev least_prize : ℕ × ℕ → ℕ
least_prize t = t.0

tier_distribution_example :
    sum_below prob_precision (λ r. least_prize (tier_of_roll r))
    ≡ 150_000 * tier1_min_usd
      + 500_000 * tier2_min_usd
      + 300_000 * tier3_min_usd
      + 50_000 * tier4_min_usd
tier_distribution_example = tier_distribution least_prize

derive_inj_seed_example : bytes ≡ bytes
derive_inj_seed_example = derive_inj_seed 3 bytes bytes bytes-Byte bytes-Byte refl

derive_inj_index_example : ◌≡◌ {A = ℕ} 4 4
derive_inj_index_example =
    derive_inj_index 4 4 bytes bytes-Byte (omega arith) (omega arith) (omega arith) refl

process_vrf_result_lem_example :
    (selected : ℕ) × (process_vrf_result bytes 10 3 settings.active_pool_indices
      ≡ ok (record { total_won_usd = prizes bytes 10; selected_pool_index = selected }))
    × Selects bytes 3 settings.active_pool_indices selected
process_vrf_result_lem_example =
    process_vrf_result_lem bytes 10 3 settings.active_pool_indices (omega arith) (ground arith)

integer_sqrt_lem_example : IsRoot 1_000_000 (integer_sqrt 1_000_000)
integer_sqrt_lem_example = integer_sqrt_lem 1_000_000 (omega arith)

-- ==================== The callback ====================

abbrev pub callback : ConsumeAccounts
callback = record { vrf_program_identity = 10; mint_request = request_key; config = 101 }

abbrev waiting : MintRequest
waiting = request_with pending 0

callback-Accepts : Accepts sample (signed_by 10) callback pending_world waiting settings
callback-Accepts = record {
  stored = refl;
  configured = refl;
  signed = refl;
  by_oracle = refl;
  waiting = refl;
  request_mut = refl;
  at_config = refl;
}

consume-Reveals_example :
    Reveals sample (signed_by 10) callback bytes pending_world waiting settings
consume-Reveals_example =
    consume-Reveals sample (signed_by 10) callback bytes pending_world waiting settings
      callback-Accepts (omega arith) (ground arith)

abbrev pub called_back : Result World
called_back = consume_lottery_randomness sample (signed_by 10) callback bytes pending_world

pub callback_runs : is_ok called_back ≡ true
unfolding consume_lottery_randomness consume_handler reveal process_vrf_result draw_cards
    select_active_prize_pool map_to_tiered_distribution tier_of_roll prize_of_step
    derive_random_result
callback_runs = refl

consumed_example :
    Consumes sample
      (signed_by 10)
      callback
      bytes
      pending_world
      (world_after called_back pending_world)
consumed_example =
    consumed sample (signed_by 10) callback bytes pending_world
      (world_after called_back pending_world) (succeeded called_back pending_world callback_runs)

-- 1 for the pool of index 3, and 0 for any other result.
abbrev is_third : Result ℕ → ℕ
is_third (ok n) = if n == 3 then 1 else 0
is_third (err e) = 0

abbrev eight_bytes : List ℕ
eight_bytes = replicate 8 0

-- The pools 0, 2 and 3, with two free places: of eight words two select the last.
pool_distribution_example :
    sum_below (2 * 3 + 2) (λ word.
      is_third (selected is_third eight_bytes [] (0 ∷ 2 ∷ 3 ∷ []) (255 ∷ 255 ∷ []) refl word))
    ≡ 2 * pool_sum (λ p. is_third (ok p)) (0 ∷ 2 ∷ 3 ∷ [])
      + pool_sum (λ p. is_third (ok p)) (0 ∷ 2 ∷ [])
pool_distribution_example =
    pool_distribution is_third eight_bytes [] (0 ∷ 2 ∷ 3 ∷ []) (255 ∷ 255 ∷ []) refl 2 2
      (omega arith) (omega arith)
