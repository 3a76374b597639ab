-- ===== src/Tests/Swaps.antt =====
-- Swaps and conversions on concrete amounts.
use card_machine.Prelude.{
  ℕ, ◌*◌, ◌^◌, ◌≡◌, refl, true, false, List, [], ◌∷◌, ◌==◌, if◌then◌else◌, drop, arith,
}
use card_machine.Prelude.Int.{pos, negsuc}
use card_machine.Constants.{native_sol_mint, jupiter_program_id}
use card_machine.Errors.{Result, ok}
use card_machine.Runtime.{World, AccountData, AccountInfo}
use card_machine.Runtime.Sample.{sample, sample_price}
use card_machine.Pyth.{lamports_at_price}
use card_machine.Pyth.Rates.{
  IsFloor, IsConversion, lamports_at_price_cases, lamports_at_price_exact,
}
use card_machine.Jupiter.{
  is_valid_discriminator, get_token_amount, find_vault_wsol_account, check_swap, call_jupiter,
  swap_via_jupiter, calculate_min_output, jupiter_route_discriminator,
}
use card_machine.Jupiter.MinOutput.{IsMinOutput, calculate_min_output_lem}
use card_machine.Jupiter.Swap.{Swaps, swap_via_jupiter_lem}
use card_machine.Jupiter.Find.{vault_wsol, only_one, find_vault_wsol_account_only}
use card_machine.Tests.{is_ok, world_after, succeeded, settings, signed_by}

-- The exchange, the vault's WSOL account 301, and the user's account 302.
abbrev remaining : List AccountInfo
remaining =
    record { key = jupiter_program_id; is_writable = false }
    ∷ record { key = 301; is_writable = true }
    ∷ record { key = 302; is_writable = true }
    ∷ []

abbrev swap_world : World
swap_world = record {
  lamports = λ key. 10 ^ 12;
  account = λ key.
      if key == 301
      then AccountData.token (record { mint = native_sol_mint; owner = 102; amount = 900 })
      else if key == 302
      then AccountData.token (record { mint = 400; owner = 5; amount = 10 })
      else AccountData.config settings;
  events = [];
}

-- At least 900 for at most 500.
abbrev swapped : Result World
swapped =
    swap_via_jupiter sample (signed_by 5) remaining jupiter_route_discriminator 102 255 302 900 500
      swap_world

swap_runs : is_ok swapped ≡ true
unfolding swap_via_jupiter is_valid_discriminator get_token_amount find_vault_wsol_account
    check_swap call_jupiter
swap_runs = refl

swap_via_jupiter_lem_example :
    Swaps remaining 102 302 900 500 swap_world (world_after swapped swap_world)
swap_via_jupiter_lem_example =
    swap_via_jupiter_lem sample (signed_by 5) remaining jupiter_route_discriminator 102 255 302 900
      500 swap_world (world_after swapped swap_world) (succeeded swapped swap_world swap_runs)

-- 3% of 1_000_000.
calculate_min_output_lem_example :
    IsMinOutput 1_000_000 9_700 (calculate_min_output true 1_000_000 300)
calculate_min_output_lem_example = calculate_min_output_lem true 1_000_000 300 (omega arith)

lamports_at_price_cases_example :
    IsConversion 15_000_000_000 8 20_000_000 (lamports_at_price sample_price 20_000_000)
lamports_at_price_cases_example = lamports_at_price_cases sample_price 20_000_000 (omega arith)

lamports_at_price_exact_example :
    (q : ℕ) × (lamports_at_price
        (record { price = pos 15_000_000_000; exponent = negsuc 7 })
        20_000_000
      ≡ ok q)
    × IsFloor q (20_000_000 * 10 ^ 17) (15_000_000_000 * 10 ^ 6)
lamports_at_price_exact_example =
    lamports_at_price_exact 15_000_000_000 20_000_000 (omega arith) (omega arith) (omega arith)

find_vault_wsol_account_only_example :
    find_vault_wsol_account swap_world remaining 102
    ≡ only_one (vault_wsol swap_world 102 (drop 1 remaining))
find_vault_wsol_account_only_example = find_vault_wsol_account_only swap_world remaining 102
