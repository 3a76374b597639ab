-- ===== src/Admin/Withdraw.antt =====
-- instructions/admin/withdraw.rs, with `WithdrawSol` and `WithdrawToken` of lib.rs.
pub mod Balance
pub mod Tokens
use card_machine.Prelude.{ℕ, ◌-◌, leb, ◌==◌}
use card_machine.Constants.{Pubkey}
use card_machine.Errors.{Result, ◌>>=◌, ◌>>◌, require, unauthorized, insufficient_vault_balance}
use card_machine.Runtime.{
  Runtime, World, Transaction, system_transfer, token_transfer, Seeds, check_signer, check_program,
  check_seeds, check_seeds_bump, check_mut, as_config, as_token, invoke_signed,
}

pub record WithdrawSolAccounts : Type 0 where
  pub admin : Pubkey
  pub config : Pubkey
  pub vault : Pubkey
  pub recipient : Pubkey
  pub system_program : Pubkey

pub record WithdrawTokenAccounts : Type 0 where
  pub admin : Pubkey
  pub config : Pubkey
  pub vault : Pubkey
  pub vault_token_account : Pubkey
  pub recipient_token_account : Pubkey
  pub token_program : Pubkey

module _ (rt : Runtime) (tx : Transaction) where
  unfoldable pub withdraw_sol : WithdrawSolAccounts → ℕ → World → Result World
  withdraw_sol a amount w = do
    check_signer tx a.admin
    config ← as_config (w.account a.config)
    check_program a.system_program rt.system_program_id
    check_mut tx a.admin
    require (config.admin == a.admin) unauthorized
    check_seeds rt a.config Seeds.global_config
    check_seeds_bump rt a.vault Seeds.vault config.vault_bump
    check_mut tx a.vault
    check_mut tx a.recipient
    let min_rent = rt.minimum_balance 0
    let available = w.lamports a.vault - min_rent
    require (leb amount available) insufficient_vault_balance
    invoke_signed rt (system_transfer a.vault a.recipient amount) tx Seeds.vault config.vault_bump w

  unfoldable pub withdraw_token : WithdrawTokenAccounts → ℕ → World → Result World
  withdraw_token a amount w = do
    check_signer tx a.admin
    config ← as_config (w.account a.config)
    vault_token_account ← as_token (w.account a.vault_token_account)
    recipient_token_account ← as_token (w.account a.recipient_token_account)
    check_program a.token_program rt.token_program_id
    require (config.admin == a.admin) unauthorized
    check_seeds rt a.config Seeds.global_config
    check_seeds_bump rt a.vault Seeds.vault config.vault_bump
    check_mut tx a.vault_token_account
    check_mut tx a.recipient_token_account
    require (leb amount vault_token_account.amount) insufficient_vault_balance
    invoke_signed rt (token_transfer a.vault_token_account a.recipient_token_account a.vault amount)
        tx Seeds.vault config.vault_bump w
