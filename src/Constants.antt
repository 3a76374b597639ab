-- ===== src/Constants.antt =====
-- constants.rs. A public key is the number that its 32 bytes write in base 256, first byte first.
use card_machine.Prelude.{ℕ, ◌*◌}

abbrev pub Pubkey : Type 0
Pubkey = ℕ

-- ==================== Pyth ====================

abbrev pub pyth_sol_usd_feed_id : ℕ
pyth_sol_usd_feed_id = 0xef0d8b6fda2ceba41da15d4095d1da392a0d2f8ed0c6c7bc0f4cfac8c280b56d

-- ==================== MagicBlock VRF ====================

abbrev pub oracle_queue_devnet : Pubkey
oracle_queue_devnet = 0xb0f267f0dc7c44b502c4364bea4d390d7d9122b4dfe140ca5d5bf4e81c0b8ef2

-- ==================== USDT ====================

abbrev pub usdt_mint_devnet : Pubkey
usdt_mint_devnet = 0xa79fad08a1f9f447862270bd4f71d668f01dd325302d6d87d87a6b48c7d941a8

abbrev pub usdt_decimals : ℕ
usdt_decimals = 6

-- ==================== Business logic ====================

abbrev pub target_usd_amount : ℕ
target_usd_amount = 10

abbrev pub sol_decimals : ℕ
sol_decimals = 9

abbrev pub usd_precision : ℕ
usd_precision = 1_000_000

-- Seconds.
abbrev pub claim_timeout_seconds : ℕ
claim_timeout_seconds = 24 * 60 * 60

abbrev pub request_timeout_seconds : ℕ
request_timeout_seconds = 45

-- ==================== Exchanges ====================

abbrev pub native_sol_mint : Pubkey
native_sol_mint = 0x69b8857feab8184fb687f634618c035dac439dc1aeb3b5598a0f00000000001

abbrev pub jupiter_program_id : Pubkey
jupiter_program_id = 0x479d55bf231c06eee74c56ece681507fdb1b2dea3f48e5102b1cda256bc138f

abbrev pub default_slippage_bps : ℕ
default_slippage_bps = 300

abbrev pub raydium_cp_swap_program : Pubkey
raydium_cp_swap_program = 0xa92a5a8b4f295952842550aa93fd5b95b5ace6a8eb920c93942e43690c20ec73

abbrev pub raydium_cp_swap_program_devnet : Pubkey
raydium_cp_swap_program_devnet = 0xb89899792dca5234796fe77462b031df463f5ffeae367c5c0ffb246e1cb7ce0c

abbrev pub raydium_swap_accounts_count : ℕ
raydium_swap_accounts_count = 13

-- ==================== Prize pools ====================

abbrev pub max_prize_pools : ℕ
max_prize_pools = 50

-- ==================== Tiers ====================

abbrev pub prob_precision : ℕ
prob_precision = 1_000_000

abbrev pub reward_step : ℕ
reward_step = 100_000

abbrev pub tier1_threshold : ℕ
tier1_threshold = 150_000

abbrev pub tier1_min_usd : ℕ
tier1_min_usd = 5_000_000

abbrev pub tier1_steps : ℕ
tier1_steps = 21

abbrev pub tier2_threshold : ℕ
tier2_threshold = 650_000

abbrev pub tier2_min_usd : ℕ
tier2_min_usd = 7_000_000

abbrev pub tier2_steps : ℕ
tier2_steps = 71

abbrev pub tier3_threshold : ℕ
tier3_threshold = 950_000

abbrev pub tier3_min_usd : ℕ
tier3_min_usd = 14_000_000

abbrev pub tier3_steps : ℕ
tier3_steps = 360

abbrev pub tier4_min_usd : ℕ
tier4_min_usd = 50_000_000

abbrev pub tier4_steps : ℕ
tier4_steps = 500

abbrev pub tier1_max_usd : ℕ
tier1_max_usd = 7_000_000

abbrev pub tier2_max_usd : ℕ
tier2_max_usd = 14_000_000

abbrev pub tier3_max_usd : ℕ
tier3_max_usd = 49_900_000

abbrev pub tier4_max_usd : ℕ
tier4_max_usd = 99_900_000
