-- ===== src/Tests/User.antt =====
-- Requests, claims and refunds that run.
use card_machine.Prelude.{
  ◌^◌, ◌≡◌, ◌≢◌, refl, true, false, some, none, [], ◌∷◌, ◌==◌, if◌then◌else◌,
}
use card_machine.Prelude.Int.{pos}
use card_machine.Errors.{Result, ok}
use card_machine.State.{PaymentMode, PayoutMode, SwapRouter, revealed}
use card_machine.Words.{sub_i64, mul_u64, sub_u64}
use card_machine.Runtime.{World, Transaction, AccountData}
use card_machine.Runtime.Sample.{sample}
use card_machine.Runtime.Sample.Lawful.{sample-RuntimeLaws}
use card_machine.Pyth.{lamports_at_price, get_lamports_for_micro_usd, get_lamports_for_usd}
use card_machine.User.RequestMint.{
  RequestMintAccounts, pay_sol, pay, new_request, vrf_params, request_mint_accounts,
  request_mint_constraints, check_request, request_mint,
}
use card_machine.User.Claim.{
  ClaimAccounts, ClaimArgs, pay_out_sol, pay_out, claim_handler, claim_accounts, claim,
  pay_out_token, swap_by, pay_out_jupiter,
}
use card_machine.User.Claim.Paid.{PaysSol, claim_sol_pays}
use card_machine.User.Claim.Tokens.{PaysTokens, claim_jupiter_pays}
use card_machine.User.Claim.Expired.{IsExpired, expired_stuck}
use card_machine.Jupiter.{
  jupiter_route_discriminator, is_valid_discriminator, get_token_amount, find_vault_wsol_account,
  check_swap, call_jupiter, swap_via_jupiter, calculate_min_output,
}
use card_machine.Constants.{native_sol_mint, jupiter_program_id}
use card_machine.User.Refund.{
  RefundAccounts, refund_sol, pay_back, check_timeout, refund_accounts, refund_constraints, refund,
}
use card_machine.User.Refund.Timeout.{Refunds, refund_pays_back}
use card_machine.Tests.{
  is_ok, world_after, succeeded, user, slot, request_key, empty_world, pending_world,
  revealed_world, signed_by, request_with,
}

abbrev pub mint_accounts : RequestMintAccounts
mint_accounts = record {
  user = user;
  config = 101;
  vault = 102;
  mint_request = request_key;
  oracle_queue = 66;
  program_identity = 103;
  vrf_program = 9;
  slot_hashes = 8;
  pyth_price_update = 11;
  system_program = 0;
  token_program = none;
  usdt_mint = none;
  user_token_account = none;
  vault_token_account = none;
}

abbrev pub requested : Result World
requested = request_mint sample (signed_by user) mint_accounts 2 PaymentMode.sol 1 slot empty_world

pub request_runs : is_ok requested ≡ true
unfolding request_mint request_mint_accounts request_mint_constraints check_request pay pay_sol
    get_lamports_for_usd get_lamports_for_micro_usd lamports_at_price new_request vrf_params mul_u64
request_runs = refl

abbrev pub claim_keys : ClaimAccounts
claim_keys = record {
  user = user;
  mint_request = request_key;
  config = 101;
  vault = 102;
  pyth_price_update = 11;
  system_program = 0;
  remaining_accounts = [];
}

abbrev pub in_sol : ClaimArgs
in_sol = record {
  payout_mode = PayoutMode.sol;
  swap_router = none;
  expected_token_output = none;
  swap_data = none;
  vrf_request_slot = slot;
}

abbrev claimed : Result World
claimed = claim sample (signed_by user) claim_keys in_sol revealed_world

claim_runs : is_ok claimed ≡ true
unfolding claim claim_accounts claim_handler pay_out pay_out_sol get_lamports_for_micro_usd
    lamports_at_price sub_i64
claim_runs = refl

claim_sol_pays_example :
    PaysSol sample
      (signed_by user)
      claim_keys
      in_sol
      revealed_world
      (world_after claimed revealed_world)
claim_sol_pays_example =
    claim_sol_pays sample sample-RuntimeLaws (signed_by user) claim_keys in_sol revealed_world
      (world_after claimed revealed_world) refl (succeeded claimed revealed_world claim_runs)

abbrev pub refund_keys : RefundAccounts
refund_keys = record {
  user = user;
  mint_request = request_key;
  config = 101;
  vault = 102;
  system_program = 0;
  token_program = none;
  vault_token_account = none;
  user_token_account = none;
}

abbrev refunded : Result World
refunded = refund sample (signed_by user) refund_keys slot pending_world

refund_runs : is_ok refunded ≡ true
unfolding refund refund_accounts refund_constraints check_timeout pay_back refund_sol sub_i64
refund_runs = refl

refund_pays_back_example :
    Refunds sample
      (signed_by user)
      refund_keys
      slot
      pending_world
      (world_after refunded pending_world)
refund_pays_back_example =
    refund_pays_back sample sample-RuntimeLaws (signed_by user) refund_keys slot pending_world
      (world_after refunded pending_world) (succeeded refunded pending_world refund_runs)

-- ==================== A claim in tokens ====================

-- The vault's WSOL account 301 and the user's token account 302.
abbrev token_world : World
token_world = record revealed_world {
  account = λ key.
      if key == 301
      then AccountData.token (record { mint = native_sol_mint; owner = 102; amount = 10 ^ 9 })
      else if key == 302
      then AccountData.token (record { mint = 400; owner = user; amount = 10 })
      else revealed_world.account key;
}

abbrev swap_keys : ClaimAccounts
swap_keys = record {
  user = user;
  mint_request = request_key;
  config = 101;
  vault = 102;
  pyth_price_update = 11;
  system_program = 0;
  remaining_accounts =
      record { key = jupiter_program_id; is_writable = false }
      ∷ record { key = 301; is_writable = true }
      ∷ record { key = 302; is_writable = true }
      ∷ [];
}

abbrev in_tokens : ClaimArgs
in_tokens = record {
  payout_mode = PayoutMode.token;
  swap_router = some SwapRouter.jupiter;
  expected_token_output = some 1000;
  swap_data = some jupiter_route_discriminator;
  vrf_request_slot = slot;
}

abbrev exchanged : Result World
exchanged = claim sample (signed_by user) swap_keys in_tokens token_world

exchange_runs : is_ok exchanged ≡ true
unfolding claim claim_accounts claim_handler pay_out pay_out_token swap_by pay_out_jupiter
    swap_via_jupiter is_valid_discriminator get_token_amount find_vault_wsol_account check_swap
    call_jupiter calculate_min_output sub_u64 get_lamports_for_micro_usd lamports_at_price sub_i64
exchange_runs = refl

claim_jupiter_pays_example :
    PaysTokens sample
      (signed_by user)
      swap_keys
      in_tokens
      token_world
      (world_after exchanged token_world)
claim_jupiter_pays_example =
    claim_jupiter_pays sample (signed_by user) swap_keys in_tokens token_world
      (world_after exchanged token_world) refl refl (succeeded exchanged token_world exchange_runs)

-- ==================== An expired request ====================

abbrev late : Transaction
late = record {
  signers = user ∷ [];
  is_writable = λ key. true;
  clock = record { unix_timestamp = pos 1_000_000; slot = 9000 };
}

late-IsExpired : IsExpired sample late (request_with revealed 20_000_000)
unfolding sub_i64
late-IsExpired = record { drawn = refl; age = pos 999_050; waited = refl; late = refl }

expired_stuck_example :
    (claim sample late claim_keys in_sol revealed_world ≢ ok empty_world)
    × (refund sample late refund_keys slot revealed_world ≢ ok empty_world)
expired_stuck_example =
    expired_stuck sample sample-RuntimeLaws late (request_with revealed 20_000_000) claim_keys
      in_sol refund_keys slot revealed_world empty_world refl refl late-IsExpired
