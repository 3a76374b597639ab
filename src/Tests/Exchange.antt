-- ===== src/Tests/Exchange.antt =====
-- A claim through Raydium, and a withdrawal of tokens.
use card_machine.Prelude.{ℕ, ◌≡◌, refl, true, some, none, [], ◌∷◌, ◌==◌, if◌then◌else◌}
use card_machine.Constants.{native_sol_mint, raydium_cp_swap_program}
use card_machine.Errors.{Result}
use card_machine.State.{PayoutMode, SwapRouter}
use card_machine.Words.{sub_i64, sub_u64}
use card_machine.Runtime.{World, AccountData, AccountInfo}
use card_machine.Runtime.Sample.{sample}
use card_machine.Runtime.Sample.Lawful.{sample-RuntimeLaws}
use card_machine.Pyth.{lamports_at_price, get_lamports_for_micro_usd}
use card_machine.Jupiter.{calculate_min_output}
use card_machine.Wsol.{wrap_sol}
use card_machine.Raydium.{swap_base_input}
use card_machine.User.Claim.{
  ClaimAccounts, ClaimArgs, claim, claim_accounts, claim_handler, pay_out, pay_out_token,
  pay_out_raydium, swap_by, raydium_accounts,
}
use card_machine.User.Claim.Raydium.{PaysRaydium, claim_raydium_pays}
use card_machine.Admin.Withdraw.{WithdrawTokenAccounts, withdraw_token}
use card_machine.Admin.Withdraw.Tokens.{WithdrawsTokens, withdraw_token_sends}
use card_machine.Tests.{
  is_ok, world_after, succeeded, user, slot, request_key, revealed_world, empty_world, signed_by,
}

abbrev listed : ℕ → AccountInfo
listed key = record { key = key; is_writable = true }

-- The token program at position 8, the vault's WSOL account at position 4.
abbrev pool_keys : ClaimAccounts
pool_keys = record {
  user = user;
  mint_request = request_key;
  config = 101;
  vault = 102;
  pyth_price_update = 11;
  system_program = 0;
  remaining_accounts =
      listed raydium_cp_swap_program
      ∷ listed 501
      ∷ listed 502
      ∷ listed 503
      ∷ listed 301
      ∷ listed 302
      ∷ listed 506
      ∷ listed 507
      ∷ listed 7
      ∷ listed 7
      ∷ listed native_sol_mint
      ∷ listed 400
      ∷ listed 512
      ∷ [];
}

abbrev through_raydium : ClaimArgs
through_raydium = record {
  payout_mode = PayoutMode.token;
  swap_router = some SwapRouter.raydium;
  expected_token_output = some 1000;
  swap_data = none;
  vrf_request_slot = slot;
}

abbrev exchanged : Result World
exchanged = claim sample (signed_by user) pool_keys through_raydium revealed_world

exchange_runs : is_ok exchanged ≡ true
unfolding claim claim_accounts claim_handler pay_out pay_out_token swap_by pay_out_raydium
    raydium_accounts wrap_sol swap_base_input calculate_min_output sub_u64
    get_lamports_for_micro_usd lamports_at_price sub_i64
exchange_runs = refl

claim_raydium_pays_example :
    PaysRaydium sample
      (signed_by user)
      pool_keys
      through_raydium
      revealed_world
      (world_after exchanged revealed_world)
claim_raydium_pays_example =
    claim_raydium_pays sample sample-RuntimeLaws (signed_by user) pool_keys through_raydium
      revealed_world (world_after exchanged revealed_world) refl refl
      (succeeded exchanged revealed_world exchange_runs)

-- ==================== A withdrawal of tokens ====================

abbrev rich_world : World
rich_world = record empty_world {
  account = λ key.
      if key == 301
      then AccountData.token (record { mint = 400; owner = 102; amount = 900 })
      else if key == 302
      then AccountData.token (record { mint = 400; owner = 55; amount = 10 })
      else empty_world.account key;
}

abbrev pub token_keys : WithdrawTokenAccounts
token_keys = record {
  admin = 1;
  config = 101;
  vault = 102;
  vault_token_account = 301;
  recipient_token_account = 302;
  token_program = 7;
}

abbrev withdrawn : Result World
withdrawn = withdraw_token sample (signed_by 1) token_keys 600 rich_world

withdraw_runs : is_ok withdrawn ≡ true
unfolding withdraw_token
withdraw_runs = refl

withdraw_token_sends_example :
    WithdrawsTokens sample
      (signed_by 1)
      token_keys
      600
      rich_world
      (world_after withdrawn rich_world)
withdraw_token_sends_example =
    withdraw_token_sends sample (signed_by 1) token_keys 600 rich_world
      (world_after withdrawn rich_world) (succeeded withdrawn rich_world withdraw_runs)
