-- ===== src/User/RequestMint/Accepted.antt =====
-- The checks of a request (`RequestMint` of lib.rs, instructions/user/request_mint.rs).
use card_machine.Prelude.{
  ℕ, ◌+◌, ◌≤◌, ◌≡◌, inl, inr, true, false, Option, some, arith, Option-cases,
}
use card_machine.Constants.{Pubkey}
use card_machine.Errors.{ok, Result-cases}
use card_machine.State.{IpFlowState}
use card_machine.Runtime.{
  Runtime, World, Transaction, AccountData, TokenAccount, contains, Seeds, optional, as_token,
  as_mint, check_program,
}
use card_machine.Runtime.Inversion.{as_config-cases}
use card_machine.Runtime.Passed.{HeldAt, HeldAt-of}
use card_machine.User.RequestMint.{
  RequestMintAccounts, mint_request_space, request_mint_constraints, request_mint_accounts,
  check_request,
}

module _ (rt : Runtime) (tx : Transaction) (a : RequestMintAccounts) where
  -- What the checks of the accounts establish; `created` is the world in which the request's
  -- account exists.
  pub record Accepts (slot : ℕ) (w created : World) (config : IpFlowState) : Type 0 where
    pub signed : contains tx.signers a.user ≡ true
    pub configured : w.account a.config ≡ AccountData.config config
    pub running : config.is_paused ≡ false
    pub at_request : a.mint_request ≡ (rt.find_program_address (Seeds.mint_request a.user slot)).0
    pub opened : rt.create_account a.user a.mint_request (8 + mint_request_space) w ≡ ok created
    pub at_vault : rt.create_program_address Seeds.vault config.vault_bump ≡ some a.vault
    pub at_oracle : a.vrf_program ≡ rt.vrf_program_id

  accepts_lem :
      (slot : ℕ) (w created : World) (config : IpFlowState)
      → contains tx.signers a.user ≡ true
      → w.account a.config ≡ AccountData.config config
      → a.mint_request ≡ (rt.find_program_address (Seeds.mint_request a.user slot)).0
      → rt.create_account a.user a.mint_request (8 + mint_request_space) w ≡ ok created
      → request_mint_constraints rt tx a config ≡ ok tt
      → Accepts slot w created config
  unfolding request_mint_constraints
  accepts_lem slot w created config signed configured at_request opened h =
      elim (Option-cases (rt.create_program_address Seeds.vault config.vault_bump)) [
        | inl none_found ↦ absurd (ground arith)
        | inr (address, ea) ↦ ground arith
      ]

  pub accepted :
      (slot : ℕ) (w created : World) (config : IpFlowState) (v u : Option (Pubkey × TokenAccount))
      → request_mint_accounts rt tx a slot w ≡ ok (config, u, v, created)
      → Accepts slot w created config
        × HeldAt w a.user_token_account u
        × HeldAt w a.vault_token_account v
  unfolding request_mint_accounts
  accepted slot w created config v u h = elim (as_config-cases (w.account a.config)) [
    | inr (e, fails) ↦ absurd (ground arith)
    | inl (config', ec) ↦
        elim (Result-cases
          (optional a.token_program (λ key. check_program key rt.token_program_id))) [
            | inr (e, fails) ↦ absurd (ground arith)
            | inl (p, ep) ↦
                elim (Result-cases (optional a.usdt_mint (λ key. as_mint (w.account key)))) [
                  | inr (e, fails) ↦ absurd (ground arith)
                  | inl (m, em) ↦
                      elim (Result-cases
                        (optional a.user_token_account (λ key. as_token (w.account key)))) [
                          | inr (e, fails) ↦ absurd (ground arith)
                          | inl (u', eu) ↦
                              elim (Result-cases (
                                optional a.vault_token_account (λ key. as_token (w.account key)))) [
                                  | inr (e, fails) ↦ absurd (ground arith)
                                  | inl (v', ev) ↦
                                      elim (Result-cases (
                                        rt.create_account a.user a.mint_request
                                          (8 + mint_request_space) w)) [
                                            | inr (e, fails) ↦ absurd (ground arith)
                                            | inl (c, created_here) ↦
                                                elim (Result-cases
                                                  (request_mint_constraints rt tx a config')) [
                                                    | inr (e, fails) ↦ absurd (ground arith)
                                                    | inl (x, ex) ↦ (
                                                      accepts_lem slot w created config
                                                          (ground arith) (ground arith)
                                                          (ground arith) (ground arith)
                                                          (ground arith),
                                                      HeldAt-of w a.user_token_account u
                                                          (ground arith),
                                                      HeldAt-of w a.vault_token_account v
                                                          (ground arith),
                                                    )
                                                  ]
                                          ]
                                ]
                        ]
                ]
          ]
  ]

  -- The number of cards and the slot that the handler allows.
  pub record Allowed (amount_of_cards slot : ℕ) (config : IpFlowState) : Type 0 where
    pub some_cards : 1 ≤ amount_of_cards
    pub at_most : amount_of_cards ≤ 100
    pub recent : tx.clock.slot ≤ slot + 10
    pub past : slot ≤ tx.clock.slot
    pub own_queue : a.oracle_queue ≡ config.oracle_queue

  pub allowed :
      (amount_of_cards slot : ℕ) (config : IpFlowState) (x : Unit {0})
      → check_request rt tx a amount_of_cards slot config ≡ ok x
      → Allowed amount_of_cards slot config
  unfolding check_request
  allowed amount_of_cards slot config x h = ground arith
