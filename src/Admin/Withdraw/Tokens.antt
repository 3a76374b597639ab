-- ===== src/Admin/Withdraw/Tokens.antt =====
-- `withdraw_token` of instructions/admin/withdraw.rs: who makes a withdrawal, and what it asks of
-- the token program.
use card_machine.Prelude.{ℕ, ◌≤◌, ◌≡◌, ◌∷◌, true, some, inl, inr, arith, Option-cases}
use card_machine.Errors.{ok, Result-cases}
use card_machine.State.{IpFlowState}
use card_machine.Runtime.{
  Runtime, World, Transaction, TokenAccount, AccountData, contains, token_transfer, as_token, Seeds,
}
use card_machine.Runtime.Inversion.{as_config-cases}
use card_machine.Admin.Withdraw.{WithdrawTokenAccounts, withdraw_token}

module _ (rt : Runtime) (tx : Transaction) (a : WithdrawTokenAccounts) where
  -- A withdrawal of tokens. `from` and `to` are what the two token accounts hold.
  pub record WithdrawsTokens (amount : ℕ) (w w' : World) : Type 0 where
    pub config : IpFlowState
    pub from : TokenAccount
    pub to : TokenAccount
    pub signed : contains tx.signers a.admin ≡ true
    pub configured : w.account a.config ≡ AccountData.config config
    pub admin : config.admin ≡ a.admin
    pub at_config : a.config ≡ (rt.find_program_address Seeds.global_config).0
    pub at_vault : rt.create_program_address Seeds.vault config.vault_bump ≡ some a.vault
    pub held : w.account a.vault_token_account ≡ AccountData.token from
    pub received : w.account a.recipient_token_account ≡ AccountData.token to
    pub covered : amount ≤ from.amount
    pub sent :
        rt.invoke
          (token_transfer a.vault_token_account a.recipient_token_account a.vault amount)
          (a.vault ∷ tx.signers)
          w
        ≡ ok w'

  as_token_lem : (d : AccountData) (t : TokenAccount) → as_token d ≡ ok t → d ≡ AccountData.token t
  as_token_lem d t h = ground arith

  -- A withdrawal of tokens that succeeds is signed by the administrator of the configuration,
  -- which stands at its own address. Both token accounts exist and the first holds at least the
  -- amount. All that it does is one transfer of that amount between the two, with the vault at its
  -- own address as the authority and signer.
  pub withdraw_token_sends :
      (amount : ℕ) (w w' : World)
      → withdraw_token rt tx a amount w ≡ ok w'
      → WithdrawsTokens amount w w'
  unfolding withdraw_token
  withdraw_token_sends amount w w' h = elim (as_config-cases (w.account a.config)) [
    | inr (e, fails) ↦ absurd (ground arith)
    | inl (config, ec) ↦ elim (Result-cases (as_token (w.account a.vault_token_account))) [
      | inr (x, unread) ↦ absurd (ground arith)
      | inl (v, ev) ↦ elim (Result-cases (as_token (w.account a.recipient_token_account))) [
        | inr (y, unknown) ↦ absurd (ground arith)
        | inl (r, er) ↦
            elim (Option-cases (rt.create_program_address Seeds.vault config.vault_bump)) [
              | inl no_address ↦ absurd (ground arith)
              | inr (address, ea) ↦ record {
                config = config;
                from = v;
                to = r;
                signed = ground arith;
                configured = ec;
                admin = ground arith;
                at_config = ground arith;
                at_vault = ground arith;
                held = as_token_lem _ v ev;
                received = as_token_lem _ r er;
                covered = ground arith;
                sent = ground arith;
              }
            ]
      ]
    ]
  ]
