-- ===== src/User/Refund.antt =====
-- instructions/user/refund.rs, with `Refund` of lib.rs.
pub mod Accepted
pub mod Timeout
pub mod Available
use card_machine.Prelude.{
  ℕ, ◌-◌, Bool, true, false, ◌&&◌, Option, none, some, leb, ◌==◌, if◌then◌else◌,
}
use card_machine.Prelude.Int.{ℤ, ltb_ℤ}
use card_machine.Constants.{Pubkey, usdt_mint_devnet}
use card_machine.Errors.{
  Result, ok, err, ok_or, ◌>>=◌, ◌>>◌, require, check, custom, refund_not_allowed,
  insufficient_vault_balance, unauthorized, invalid_token_account, invalid_request_status,
}
use card_machine.Words.{sub_i64}
use card_machine.State.{MintRequest, IpFlowState, PaymentMode, is_pending}
use card_machine.Runtime.{
  Runtime, World, Transaction, TokenAccount, system_transfer, token_transfer, Seeds, close_account,
  check_signer, check_mut, check_mut_passed, check_program, check_seeds, check_seeds_bump,
  as_config, as_mint_request, as_token, optional, invoke_signed,
}

pub record RefundAccounts : Type 0 where
  pub user : Pubkey
  pub mint_request : Pubkey
  pub config : Pubkey
  pub vault : Pubkey
  pub system_program : Pubkey
  pub token_program : Option Pubkey
  pub vault_token_account : Option Pubkey
  pub user_token_account : Option Pubkey

module _ (rt : Runtime) (tx : Transaction) (a : RefundAccounts) where
  unfoldable pub refund_sol : IpFlowState → MintRequest → World → Result World
  refund_sol config request w = do
    require (leb request.paid_amount (w.lamports a.vault)) insufficient_vault_balance
    invoke_signed rt (system_transfer a.vault a.user request.paid_amount) tx Seeds.vault
        config.vault_bump w

  pub check_refund_tokens : ℕ → TokenAccount → TokenAccount → Result (Unit {0})
  check_refund_tokens refund_amount vault_token user_token = do
    require (leb refund_amount vault_token.amount) insufficient_vault_balance
    require (user_token.owner == a.user) unauthorized
    require (user_token.mint == usdt_mint_devnet) invalid_token_account
    require (vault_token.mint == usdt_mint_devnet) invalid_token_account
    require (vault_token.owner == a.vault) invalid_token_account

  pub refund_usdt :
      Option (Pubkey × TokenAccount)
      → Option (Pubkey × TokenAccount)
      → IpFlowState
      → MintRequest
      → World
      → Result World
  refund_usdt vault_account user_account config request w = do
    token_program ← ok_or a.token_program (custom refund_not_allowed)
    vault_token ← ok_or vault_account (custom refund_not_allowed)
    user_token ← ok_or user_account (custom refund_not_allowed)
    check_refund_tokens request.paid_amount vault_token.1 user_token.1
    invoke_signed rt (token_transfer vault_token.0 user_token.0 a.vault request.paid_amount) tx
        Seeds.vault config.vault_bump w

  unfoldable pub pay_back :
      PaymentMode
      → Option (Pubkey × TokenAccount)
      → Option (Pubkey × TokenAccount)
      → IpFlowState
      → MintRequest
      → World
      → Result World
  pay_back PaymentMode.sol vault_account user_account config request w = refund_sol config request w
  pay_back PaymentMode.usdt vault_account user_account config request w =
      refund_usdt vault_account user_account config request w

  -- The condition of the refund. The age is computed only for a pending request.
  unfoldable pub check_timeout : IpFlowState → MintRequest → Result (Unit {0})
  check_timeout config request =
      let timed : Result (Unit {0}) = (do
        age ← sub_i64 rt.overflow_checks tx.clock.unix_timestamp request.created_at
        require (ltb_ℤ config.request_timeout_seconds age) refund_not_allowed) in
      if is_pending request.status then timed else err (custom refund_not_allowed)

  -- The constraints of `Refund`.
  unfoldable pub refund_constraints : ℕ → MintRequest → IpFlowState → Result (Unit {0})
  refund_constraints vrf_request_slot request config = do
    check_mut tx a.user
    check_seeds rt a.mint_request (Seeds.mint_request a.user vrf_request_slot)
    check_mut tx a.mint_request
    require (request.user == a.user) unauthorized
    require (request.vrf_request_slot == vrf_request_slot) invalid_request_status
    check_seeds rt a.config Seeds.global_config
    check_seeds_bump rt a.vault Seeds.vault config.vault_bump
    check_mut tx a.vault
    check_mut_passed tx a.vault_token_account
    check_mut_passed tx a.user_token_account

  unfoldable pub refund_accounts :
      ℕ
      → World
      → Result (
          MintRequest
          × IpFlowState
          × Option (Pubkey × TokenAccount)
          × Option (Pubkey × TokenAccount))
  refund_accounts vrf_request_slot w = do
    check_signer tx a.user
    request ← as_mint_request (w.account a.mint_request)
    config ← as_config (w.account a.config)
    check_program a.system_program rt.system_program_id
    passed_program ← optional a.token_program (λ key. check_program key rt.token_program_id)
    vault_account ← optional a.vault_token_account (λ key. as_token (w.account key))
    user_account ← optional a.user_token_account (λ key. as_token (w.account key))
    refund_constraints vrf_request_slot request config
    ok (request, config, vault_account, user_account)

  unfoldable pub refund : ℕ → World → Result World
  refund vrf_request_slot w = do
    (request, config, vault_account, user_account) ← refund_accounts vrf_request_slot w
    check_timeout config request
    w' ← pay_back request.payment_mode vault_account user_account config request w
    ok (close_account a.mint_request a.user w')
