-- ===== src/User/Refund/Accepted.antt =====
-- The checks of the accounts of a refund (`Refund` of lib.rs).
use card_machine.Prelude.{ℕ, ◌≡◌, inl, inr, true, Option, some, arith, Option-cases}
use card_machine.Constants.{Pubkey}
use card_machine.Errors.{ok, Result-cases}
use card_machine.State.{MintRequest, IpFlowState}
use card_machine.Runtime.{
  Runtime, World, Transaction, AccountData, TokenAccount, contains, Seeds, optional, as_token,
  check_program,
}
use card_machine.Runtime.Inversion.{as_config-cases, as_mint_request-cases}
use card_machine.Runtime.Passed.{HeldAt, HeldAt-of}
use card_machine.User.Refund.{RefundAccounts, refund_constraints, refund_accounts}

module _ (rt : Runtime) (tx : Transaction) (a : RefundAccounts) where
  -- What the checks of the accounts establish.
  pub record Accepts (slot : ℕ) (w : World) (request : MintRequest) (config : IpFlowState)
      : Type 0 where
    pub signed : contains tx.signers a.user ≡ true
    pub stored : w.account a.mint_request ≡ AccountData.mint_request request
    pub configured : w.account a.config ≡ AccountData.config config
    pub owned : request.user ≡ a.user
    pub same_slot : request.vrf_request_slot ≡ slot
    pub at_request : a.mint_request ≡ (rt.find_program_address (Seeds.mint_request a.user slot)).0
    pub at_vault : rt.create_program_address Seeds.vault config.vault_bump ≡ some a.vault

  accepts_lem :
      (slot : ℕ) (w : World) (request : MintRequest) (config : IpFlowState)
      → contains tx.signers a.user ≡ true
      → w.account a.mint_request ≡ AccountData.mint_request request
      → w.account a.config ≡ AccountData.config config
      → refund_constraints rt tx a slot request config ≡ ok tt
      → Accepts slot w request config
  unfolding refund_constraints
  accepts_lem slot w request config signed stored configured h =
      elim (Option-cases (rt.create_program_address Seeds.vault config.vault_bump)) [
        | inl none_found ↦ absurd (ground arith)
        | inr (address, ea) ↦ ground arith
      ]

  pub accepted :
      (slot : ℕ) (w : World) (request : MintRequest) (config : IpFlowState)
      (vault_account user_account : Option (Pubkey × TokenAccount))
      → refund_accounts rt tx a slot w ≡ ok (request, config, vault_account, user_account)
      → Accepts slot w request config
        × HeldAt w a.vault_token_account vault_account
        × HeldAt w a.user_token_account user_account
  unfolding refund_accounts
  accepted slot w request config vault_account user_account h =
      elim (as_mint_request-cases (w.account a.mint_request)) [
        | inr (e, fails) ↦ absurd (ground arith)
        | inl (request', er) ↦ elim (as_config-cases (w.account a.config)) [
          | inr (e, fails) ↦ absurd (ground arith)
          | inl (config', ec) ↦
              elim (Result-cases
                (optional a.token_program (λ key. check_program key rt.token_program_id))) [
                  | inr (e, fails) ↦ absurd (ground arith)
                  | inl (p, ep) ↦
                      elim (Result-cases
                        (optional a.vault_token_account (λ key. as_token (w.account key)))) [
                          | inr (e, fails) ↦ absurd (ground arith)
                          | inl (v, ev) ↦
                              elim (Result-cases
                                (optional a.user_token_account (λ key. as_token (w.account key)))) [
                                  | inr (e, fails) ↦ absurd (ground arith)
                                  | inl (u, eu) ↦
                                      elim (Result-cases
                                        (refund_constraints rt tx a slot request' config')) [
                                          | inr (e, fails) ↦ absurd (ground arith)
                                          | inl (x, ex) ↦ (
                                            accepts_lem slot w request config (ground arith)
                                                (ground arith) (ground arith) (ground arith),
                                            HeldAt-of w a.vault_token_account vault_account
                                                (ground arith),
                                            HeldAt-of w a.user_token_account user_account
                                                (ground arith),
                                          )
                                        ]
                                ]
                        ]
                ]
        ]
      ]
