-- ===== src/User/Claim.antt =====
-- instructions/user/claim.rs, with `Claim` of lib.rs.
pub mod Paid
pub mod Frame
pub mod Swapped
pub mod Tokens
pub mod Raydium
pub mod Expired
pub mod Available
use card_machine.Prelude.{
  ℕ, ◌+◌, ◌-◌, ◌*◌, ◌/◌, Bool, true, false, ◌&&◌, ◌||◌, not, Option, none, some, List, [], ◌∷◌, ltb,
  leb, ◌==◌, if◌then◌else◌, length, map, get_or,
}
use card_machine.Prelude.Int.{ℤ, pos, ltb_ℤ}
use card_machine.Constants.{
  Pubkey, claim_timeout_seconds, default_slippage_bps, raydium_swap_accounts_count,
}
use card_machine.Errors.{
  Result, ok, err, ok_or, ◌>>=◌, ◌>>◌, require, check, map_err, custom, anchor, claim_expired,
  math_overflow, insufficient_vault_balance, missing_expected_output, invalid_choice,
  missing_swap_accounts, jupiter_swap_failed, invalid_raydium_program, wsol_wrap_failed,
  raydium_swap_failed, unauthorized, invalid_request_status, account_did_not_deserialize,
}
use card_machine.Words.{u64_mod, checked_mul, sub_i64}
use card_machine.State.{
  MintRequest, IpFlowState, RequestStatus, PayoutMode, SwapRouter, claimed, claim_completed,
  is_revealed,
}
use card_machine.Runtime.{
  Runtime, World, Transaction, AccountData, AccountInfo, system_transfer, Seeds, emit,
  close_account, check_signer, check_mut, check_program, check_seeds, check_seeds_bump, as_config,
  as_mint_request, invoke_signed,
}
use card_machine.Pyth.{get_lamports_for_micro_usd}
use card_machine.Jupiter.{swap_via_jupiter, calculate_min_output}
use card_machine.Raydium.{SwapAccounts, is_raydium_program, swap_base_input}
use card_machine.Wsol.{wrap_sol}

pub record ClaimAccounts : Type 0 where
  pub user : Pubkey
  pub mint_request : Pubkey
  pub config : Pubkey
  pub vault : Pubkey
  pub pyth_price_update : Pubkey
  pub system_program : Pubkey
  pub remaining_accounts : List AccountInfo

pub record ClaimArgs : Type 0 where
  pub payout_mode : PayoutMode
  pub swap_router : Option SwapRouter
  pub expected_token_output : Option ℕ
  pub swap_data : Option (List ℕ)
  pub vrf_request_slot : ℕ

-- What a payout did: the amount, the router that was used, and the world.
pub record Payout : Type 0 where
  pub final_paid_amount : ℕ
  pub used_router : Option SwapRouter
  pub world : World

module _ (rt : Runtime) (tx : Transaction) (a : ClaimAccounts) where
  -- `PayoutMode::SOL`: 95% of the prize, from the vault.
  unfoldable pub pay_out_sol : IpFlowState → MintRequest → World → Result Payout
  pay_out_sol config request w = do
    product ← ok_or (checked_mul u64_mod request.total_won_usd 95) (custom math_overflow)
    let payout_usd = product / 100
    total_lamports ← get_lamports_for_micro_usd rt tx.clock w a.pyth_price_update payout_usd
    let min_rent = rt.minimum_balance 0
    let available = w.lamports a.vault - min_rent
    require (leb total_lamports available) insufficient_vault_balance
    w' ←
        invoke_signed rt (system_transfer a.vault a.user total_lamports) tx Seeds.vault
          config.vault_bump w
    ok (record { final_paid_amount = total_lamports; used_router = none; world = w' })

  -- The account at a position of `remaining_accounts`, whose length has been tested.
  abbrev pub remaining_key : ℕ → Pubkey
  remaining_key i = get_or (map (λ (acc : AccountInfo). acc.key) a.remaining_accounts) i 0

  unfoldable pub pay_out_jupiter : Option (List ℕ) → IpFlowState → ℕ → ℕ → World → Result World
  pay_out_jupiter swap_data config amount_in minimum_amount_out w = do
    swap_instruction_data ← ok_or swap_data (custom missing_expected_output)
    require (leb 3 (length a.remaining_accounts)) missing_swap_accounts
    map_err jupiter_swap_failed (
        swap_via_jupiter rt tx a.remaining_accounts swap_instruction_data a.vault config.vault_bump
          (remaining_key 2) minimum_amount_out amount_in w)

  unfoldable pub raydium_accounts : SwapAccounts
  raydium_accounts = record {
    cp_swap_program = remaining_key 0;
    payer = a.vault;
    authority = remaining_key 1;
    amm_config = remaining_key 2;
    pool_state = remaining_key 3;
    input_token_account = remaining_key 4;
    output_token_account = remaining_key 5;
    input_vault = remaining_key 6;
    output_vault = remaining_key 7;
    input_token_program = remaining_key 8;
    output_token_program = remaining_key 9;
    input_token_mint = remaining_key 10;
    output_token_mint = remaining_key 11;
    observation_state = remaining_key 12;
  }

  unfoldable pub pay_out_raydium : IpFlowState → ℕ → ℕ → World → Result World
  pay_out_raydium config amount_in minimum_amount_out w = do
    require (leb raydium_swap_accounts_count (length a.remaining_accounts)) missing_swap_accounts
    require (is_raydium_program (remaining_key 0)) invalid_raydium_program
    wrapped ← map_err wsol_wrap_failed (
        wrap_sol rt tx a.vault (remaining_key 4) (remaining_key 8) amount_in Seeds.vault
          config.vault_bump w)
    map_err raydium_swap_failed (
        swap_base_input rt tx raydium_accounts amount_in minimum_amount_out Seeds.vault
          config.vault_bump wrapped)

  unfoldable pub swap_by : SwapRouter → Option (List ℕ) → IpFlowState → ℕ → ℕ → World → Result World
  swap_by SwapRouter.jupiter swap_data config amount_in minimum_amount_out w =
      pay_out_jupiter swap_data config amount_in minimum_amount_out w
  swap_by SwapRouter.raydium swap_data config amount_in minimum_amount_out w =
      pay_out_raydium config amount_in minimum_amount_out w

  -- `PayoutMode::Token`: the whole prize is swapped.
  unfoldable pub pay_out_token : ClaimArgs → IpFlowState → MintRequest → World → Result Payout
  pay_out_token args config request w = do
    expected_output ← ok_or args.expected_token_output (custom missing_expected_output)
    router ← ok_or args.swap_router (custom invalid_choice)
    require (ltb 0 (length a.remaining_accounts)) missing_swap_accounts
    amount_in ← get_lamports_for_micro_usd rt tx.clock w a.pyth_price_update request.total_won_usd
    minimum_amount_out ←
        calculate_min_output rt.overflow_checks expected_output default_slippage_bps
    w' ← swap_by router args.swap_data config amount_in minimum_amount_out w
    ok (record { final_paid_amount = amount_in; used_router = some router; world = w' })

  unfoldable pub pay_out :
      PayoutMode → ClaimArgs → IpFlowState → MintRequest → World → Result Payout
  pay_out PayoutMode.sol args config request w = pay_out_sol config request w
  pay_out PayoutMode.token args config request w = pay_out_token args config request w

  -- The handler: the request and the world that it leaves. The status is set before the payout,
  -- on the handler's copy of the request, which no called program sees.
  unfoldable pub claim_handler :
      ClaimArgs → IpFlowState → MintRequest → World → Result (MintRequest × World)
  claim_handler args config request w = do
    waited ← sub_i64 rt.overflow_checks tx.clock.unix_timestamp request.revealed_at
    require (ltb_ℤ waited (pos claim_timeout_seconds)) claim_expired
    payout ← pay_out args.payout_mode args config request w
    let event = claim_completed (record {
      user = a.user;
      total_won_usd = request.total_won_usd;
      payout_mode = args.payout_mode;
      payment_mode = request.payment_mode;
      swap_router = payout.used_router;
      paid_amount = payout.final_paid_amount;
      amount_of_cards = request.amount_of_cards;
      timestamp = tx.clock.unix_timestamp;
    })
    ok (
      record request { status = claimed; paid_amount = payout.final_paid_amount },
      emit event payout.world,
    )

  unfoldable pub claim_accounts : ClaimArgs → World → Result (MintRequest × IpFlowState)
  claim_accounts args w = do
    check_signer tx a.user
    request ← as_mint_request (w.account a.mint_request)
    config ← as_config (w.account a.config)
    check (rt.is_price_update w a.pyth_price_update) account_did_not_deserialize
    check_program a.system_program rt.system_program_id
    check_mut tx a.user
    check_seeds rt a.mint_request (Seeds.mint_request a.user args.vrf_request_slot)
    check_mut tx a.mint_request
    require (request.user == a.user) unauthorized
    require (is_revealed request.status) invalid_request_status
    require (request.vrf_request_slot == args.vrf_request_slot) invalid_request_status
    check_seeds rt a.config Seeds.global_config
    check_seeds_bump rt a.vault Seeds.vault config.vault_bump
    check_mut tx a.vault
    ok (request, config)

  unfoldable pub claim : ClaimArgs → World → Result World
  claim args w = do
    (request, config) ← claim_accounts args w
    (request', w') ← claim_handler args config request w
    ok (close_account a.mint_request a.user w')
