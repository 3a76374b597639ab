-- ===== src/User/RequestMint.antt =====
-- instructions/user/request_mint.rs, with `RequestMint` of lib.rs.
pub mod Accepted
pub mod Recorded
pub mod Paid
use card_machine.Prelude.{
  ℕ, ◌+◌, ◌-◌, ◌*◌, ◌^◌, Bool, true, false, ◌&&◌, not, Option, none, some, List, [], ◌∷◌, ltb, leb,
  ◌==◌, if◌then◌else◌,
}
use card_machine.Prelude.Int.{pos}
use card_machine.Constants.{Pubkey, usdt_mint_devnet, target_usd_amount, usdt_decimals}
use card_machine.Errors.{
  Result, ok, err, ok_or, ◌>>=◌, ◌>>◌, require, check, custom, anchor, program_paused,
  invalid_card_amount, invalid_slot, invalid_oracle_queue, math_overflow, missing_usdt_accounts,
  invalid_usdt_mint, invalid_token_account, constraint_address, account_did_not_deserialize,
  account_not_initialized,
}
use card_machine.Words.{u64_mod, checked_mul}
use card_machine.State.{MintRequest, IpFlowState, PaymentMode, pending}
use card_machine.Runtime.{
  Runtime, World, Transaction, AccountData, TokenAccount, system_transfer, token_transfer,
  request_randomness, AccountMeta, RandomnessParams, Seeds, store, check_signer, check_mut,
  check_mut_passed, check_program, check_seeds, check_seeds_bump, as_config, as_mint, as_token,
  optional, invoke_signed,
}
use card_machine.Pyth.{get_lamports_for_usd}

pub record RequestMintAccounts : Type 0 where
  pub user : Pubkey
  pub config : Pubkey
  pub vault : Pubkey
  pub mint_request : Pubkey
  pub oracle_queue : Pubkey
  pub program_identity : Pubkey
  pub vrf_program : Pubkey
  pub slot_hashes : Pubkey
  pub pyth_price_update : Pubkey
  pub system_program : Pubkey
  pub token_program : Option Pubkey
  pub usdt_mint : Option Pubkey
  pub user_token_account : Option Pubkey
  pub vault_token_account : Option Pubkey

-- `MintRequest::INIT_SPACE`
abbrev pub mint_request_space : ℕ
mint_request_space = 32 + 32 + 4 + 1 + 1 + 8 + 8 + 8 + 8 + 1 + 8 + 8 + 8

-- `10u64.pow(USDT_DECIMALS)`
abbrev pub usdt_unit : ℕ
usdt_unit = 10 ^ usdt_decimals

module _ (rt : Runtime) (tx : Transaction) (a : RequestMintAccounts) where
  -- `PaymentMode::SOL`: the lamports of ten dollars for each card go to the vault.
  unfoldable pub pay_sol : ℕ → World → Result (ℕ × World)
  pay_sol amount_of_cards w = do
    total_usd ← ok_or (checked_mul u64_mod amount_of_cards target_usd_amount) (custom math_overflow)
    total_lamports ← get_lamports_for_usd rt tx.clock w a.pyth_price_update total_usd
    w' ← rt.invoke (system_transfer a.user a.vault total_lamports) tx.signers w
    ok (total_lamports, w')

  -- The checks of the USDT accounts.
  unfoldable pub check_usdt :
      Pubkey → Pubkey × TokenAccount → Pubkey × TokenAccount → Result (Unit {0})
  check_usdt usdt_mint (user_key, user_token) (vault_key, vault_token) = do
    require (usdt_mint == usdt_mint_devnet) invalid_usdt_mint
    require (user_token.owner == a.user) invalid_token_account
    require (user_token.mint == usdt_mint_devnet) invalid_token_account
    require (vault_token.mint == usdt_mint_devnet) invalid_token_account
    require (vault_token.owner == a.vault) invalid_token_account
    require (not (vault_key == user_key)) invalid_token_account

  -- `PaymentMode::USDT`: ten USDT for each card.
  unfoldable pub pay_usdt :
      Option (Pubkey × TokenAccount)
      → Option (Pubkey × TokenAccount)
      → ℕ
      → World
      → Result (ℕ × World)
  pay_usdt user_account vault_account amount_of_cards w = do
    token_program ← ok_or a.token_program (custom missing_usdt_accounts)
    usdt_mint ← ok_or a.usdt_mint (custom missing_usdt_accounts)
    user_token ← ok_or user_account (custom missing_usdt_accounts)
    vault_token ← ok_or vault_account (custom missing_usdt_accounts)
    check_usdt usdt_mint user_token vault_token
    total_usd ← ok_or (checked_mul u64_mod amount_of_cards target_usd_amount) (custom math_overflow)
    total_usdt ← ok_or (checked_mul u64_mod total_usd usdt_unit) (custom math_overflow)
    w' ← rt.invoke (token_transfer user_token.0 vault_token.0 a.user total_usdt) tx.signers w
    ok (total_usdt, w')

  unfoldable pub pay :
      PaymentMode
      → Option (Pubkey × TokenAccount)
      → Option (Pubkey × TokenAccount)
      → ℕ
      → World
      → Result (ℕ × World)
  pay PaymentMode.sol user_account vault_account amount w = pay_sol amount w
  pay PaymentMode.usdt user_account vault_account amount w =
      pay_usdt user_account vault_account amount w

  -- The request that is stored.
  unfoldable pub new_request : ℕ → PaymentMode → ℕ → ℕ → MintRequest
  new_request amount_of_cards payment_mode request_slot paid_amount = record {
    user = a.user;
    randomness_account = 0;
    amount_of_cards = amount_of_cards;
    status = pending;
    payment_mode = payment_mode;
    total_won_usd = 0;
    paid_amount = paid_amount;
    created_at = tx.clock.unix_timestamp;
    revealed_at = pos 0;
    selected_pool_index = 0;
    commit_slot = request_slot;
    reveal_slot = 0;
    vrf_request_slot = request_slot;
  }

  unfoldable pub vrf_params : ℕ → RandomnessParams
  vrf_params client_seed = record {
    payer = a.user;
    oracle_queue = a.oracle_queue;
    caller_seed = rt.hash (client_seed ∷ []);
    accounts_metas =
        record { pubkey = a.mint_request; is_signer = false; is_writable = true }
        ∷ record { pubkey = a.config; is_signer = false; is_writable = false }
        ∷ [];
  }

  -- The constraints of `RequestMint` but those of the new account.
  unfoldable pub request_mint_constraints : IpFlowState → Result (Unit {0})
  request_mint_constraints config = do
    check_mut tx a.user
    check_seeds rt a.config Seeds.global_config
    require (not config.is_paused) program_paused
    check_seeds_bump rt a.vault Seeds.vault config.vault_bump
    check_mut tx a.vault
    check_mut tx a.oracle_queue
    check_seeds rt a.program_identity Seeds.identity
    check (a.vrf_program == rt.vrf_program_id) constraint_address
    check (a.slot_hashes == rt.slot_hashes_id) constraint_address
    check_mut_passed tx a.user_token_account
    check_mut_passed tx a.vault_token_account

  -- `RequestMint`: the configuration, and the world in which the request's account exists. The
  -- two token accounts are read here.
  unfoldable pub request_mint_accounts :
      ℕ
      → World
      → Result
          (IpFlowState × Option (Pubkey × TokenAccount) × Option (Pubkey × TokenAccount) × World)
  request_mint_accounts request_slot w = do
    check_signer tx a.user
    config ← as_config (w.account a.config)
    check (rt.is_price_update w a.pyth_price_update) account_did_not_deserialize
    check_program a.system_program rt.system_program_id
    passed_program ← optional a.token_program (λ key. check_program key rt.token_program_id)
    passed_mint ← optional a.usdt_mint (λ key. as_mint (w.account key))
    user_account ← optional a.user_token_account (λ key. as_token (w.account key))
    vault_account ← optional a.vault_token_account (λ key. as_token (w.account key))
    check_seeds rt a.mint_request (Seeds.mint_request a.user request_slot)
    created ← rt.create_account a.user a.mint_request (8 + mint_request_space) w
    request_mint_constraints config
    ok (config, user_account, vault_account, created)

  -- The checks of the handler, before the payment.
  unfoldable pub check_request : ℕ → ℕ → IpFlowState → Result (Unit {0})
  check_request amount_of_cards request_slot config = do
    require (ltb 0 amount_of_cards && leb amount_of_cards 100) invalid_card_amount
    let current_slot = tx.clock.slot
    require (leb (current_slot - 10) request_slot && leb request_slot current_slot) invalid_slot
    require (a.oracle_queue == config.oracle_queue) invalid_oracle_queue

  unfoldable pub request_mint : ℕ → PaymentMode → ℕ → ℕ → World → Result World
  request_mint amount_of_cards payment_mode client_seed request_slot w = do
    (config, user_account, vault_account, created) ← request_mint_accounts request_slot w
    check_request amount_of_cards request_slot config
    (paid_amount, paid) ← pay payment_mode user_account vault_account amount_of_cards created
    requested ←
        invoke_signed rt (request_randomness (vrf_params client_seed)) tx Seeds.identity
          (rt.find_program_address Seeds.identity).1 paid
    ok (
        store a.mint_request
          (AccountData.mint_request
            (new_request amount_of_cards payment_mode request_slot paid_amount))
          requested)
