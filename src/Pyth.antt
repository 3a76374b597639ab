-- ===== src/Pyth.antt =====
-- utils/pyth_oracle.rs: from US dollars to lamports at the Pyth price.
pub mod Rates
use card_machine.Prelude.{ℕ, ◌+◌, ◌*◌, ◌%◌, Bool, ltb}
use card_machine.Prelude.Int.{ℤ, pos_part, neg_part}
use card_machine.Constants.{Pubkey, pyth_sol_usd_feed_id, sol_decimals, usd_precision}
use card_machine.Errors.{
  Result, ok, ok_or, ◌>>=◌, ◌>>◌, require, custom, pyth_price_stale, pyth_price_invalid,
  math_overflow,
}
use card_machine.Words.{u64_mod, u128_mod, checked_mul, checked_div, checked_pow, mul_u64}
use card_machine.Runtime.{Runtime, World, Clock, Price}

abbrev pub max_price_age_seconds : ℕ
max_price_age_seconds = 3600

-- `unsigned_abs`
abbrev pub unsigned_abs : ℤ → ℕ
unsigned_abs a = pos_part a + neg_part a

-- The arithmetic, once the price is known.
unfoldable pub lamports_at_price : Price → ℕ → Result ℕ
lamports_at_price current_price micro_usd_amount = do
  require (ltb 0 (pos_part current_price.price)) pyth_price_invalid
  let price = pos_part current_price.price
  let expo = unsigned_abs current_price.exponent
  scale_factor ← ok_or (checked_pow u128_mod 10 expo) (custom math_overflow)
  sol_scale ← ok_or (checked_pow u128_mod 10 sol_decimals) (custom math_overflow)
  scaled ← ok_or (checked_mul u128_mod micro_usd_amount sol_scale) (custom math_overflow)
  numerator ← ok_or (checked_mul u128_mod scaled scale_factor) (custom math_overflow)
  denominator ← ok_or (checked_mul u128_mod price usd_precision) (custom math_overflow)
  lamports ← ok_or (checked_div numerator denominator) (custom math_overflow)
  ok (lamports % u64_mod)

module _ (rt : Runtime) (clock : Clock) (w : World) (price_update : Pubkey) where
  unfoldable pub get_lamports_for_micro_usd : ℕ → Result ℕ
  get_lamports_for_micro_usd micro_usd_amount = do
    current_price ←
        ok_or
          (rt.get_price_no_older_than w price_update clock max_price_age_seconds
            pyth_sol_usd_feed_id)
          (custom pyth_price_stale)
    lamports_at_price current_price micro_usd_amount

  unfoldable pub get_lamports_for_usd : ℕ → Result ℕ
  get_lamports_for_usd usd_amount = do
    micro_usd_amount ← mul_u64 rt.overflow_checks usd_amount usd_precision
    get_lamports_for_micro_usd micro_usd_amount
