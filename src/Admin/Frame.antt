-- ===== src/Admin/Frame.antt =====
-- The requests under the instructions of the administrator (instructions/admin/).
use card_machine.Prelude.{
  ℕ, ◌≡◌, inl, inr, Option, none, List, Option-cases, arith, ltb, ◌-◌, ◌+◌, Bool-cases,
}
use card_machine.Constants.{Pubkey}
use card_machine.Errors.{ok, Result-cases}
use card_machine.State.{PoolType}
use card_machine.Layout.{init_space}
use card_machine.Runtime.{
  Runtime, World, Transaction, AccountData, Seeds, system_transfer, token_transfer, as_token,
}
use card_machine.Runtime.Laws.{RuntimeLaws}
use card_machine.Runtime.Inversion.{as_config-cases, as_prize_pool-cases}
use card_machine.Runtime.Transfers.{invoke_signed-keeps}
use card_machine.Runtime.Requests.{request_in, KeepsRequests, own_requests}
use card_machine.Admin.Config.{
  ConfigAccounts, data_of, check_admin, realloc, initialize, top_up, migrate_config, close_config,
}
use card_machine.Admin.PrizePool.{
  PrizePoolAccounts, push_pool, drop_pool, add_prize_pool, remove_prize_pool, update_prize_pool,
  prize_pool_space,
}
use card_machine.Admin.Withdraw.{
  WithdrawSolAccounts, WithdrawTokenAccounts, withdraw_sol, withdraw_token,
}

module _ (rt : Runtime) (laws : RuntimeLaws rt) (tx : Transaction) where
  pub withdraw_sol-keeps :
      (a : WithdrawSolAccounts) (amount : ℕ) (w w' : World)
      → withdraw_sol rt tx a amount w ≡ ok w'
      → KeepsRequests w w'
  unfolding withdraw_sol
  withdraw_sol-keeps a amount w w' h = elim (as_config-cases (w.account a.config)) [
    | inr (e, fails) ↦ absurd (ground arith)
    | inl (config, ec) ↦ own_requests (
        invoke_signed-keeps rt laws (system_transfer a.vault a.recipient amount) tx Seeds.vault
          config.vault_bump w w'
          (elim (Option-cases (rt.create_program_address Seeds.vault config.vault_bump)) [
            | inl no_address ↦ absurd (ground arith)
            | inr (address, ea) ↦ ground arith
          ]))
  ]

  pub withdraw_token-keeps :
      (a : WithdrawTokenAccounts) (amount : ℕ) (w w' : World)
      → withdraw_token rt tx a amount w ≡ ok w'
      → KeepsRequests w w'
  unfolding withdraw_token
  withdraw_token-keeps a amount w w' h = elim (as_config-cases (w.account a.config)) [
    | inr (e, fails) ↦ absurd (ground arith)
    | inl (config, ec) ↦ elim (Result-cases (as_token (w.account a.vault_token_account))) [
      | inr (x, unread) ↦ absurd (ground arith)
      | inl (v, ev) ↦ elim (Result-cases (as_token (w.account a.recipient_token_account))) [
        | inr (y, unknown) ↦ absurd (ground arith)
        | inl (r, er) ↦ own_requests (
            invoke_signed-keeps rt laws
              (token_transfer a.vault_token_account a.recipient_token_account a.vault amount) tx
              Seeds.vault config.vault_bump w w'
              (elim (Option-cases (rt.create_program_address Seeds.vault config.vault_bump)) [
                | inl no_address ↦ absurd (ground arith)
                | inr (address, ea) ↦ ground arith
              ]))
      ]
    ]
  ]

  pub initialize-keeps :
      (a : ConfigAccounts) (fee : ℕ) (w w' : World)
      → initialize rt tx a fee w ≡ ok w'
      → KeepsRequests w w'
  unfolding initialize
  initialize-keeps a fee w w' h =
      elim (Result-cases (rt.create_account a.admin a.config (8 + init_space) w)) [
        | inr (e, fails) ↦ absurd (ground arith)
        | inl (created, ec) ↦
            let (keeps, free) = laws.create_keeps a.admin a.config (8 + init_space) w created ec in
            let before = own_requests keeps in
            λ key. let k = before key in let c = before a.config in ground arith
      ]

  top_up-keeps : (a : ConfigAccounts) (w w' : World) → top_up rt tx a w ≡ ok w' → KeepsRequests w w'
  unfolding top_up
  top_up-keeps a w w' h =
      elim (Bool-cases (ltb (w.lamports a.config) (rt.minimum_balance (8 + init_space)))) [
        | inl more ↦ own_requests (
            laws.invoke_keeps
              (system_transfer a.admin a.config
                (rt.minimum_balance (8 + init_space) - w.lamports a.config))
              tx.signers w w' (ground arith))
        | inr enough ↦ λ key. ground arith
      ]

  -- Only an account with data passes the check of the administrator.
  data_of_request :
      (d : AccountData) (admin : Pubkey) (x : Unit {0})
      → check_admin (data_of rt d) admin ≡ ok x
      → request_in d ≡ none
  unfolding check_admin data_of
  data_of_request d admin x h = ground arith

  pub migrate_config-keeps :
      (a : ConfigAccounts) (count : ℕ) (w w' : World)
      → migrate_config rt tx a count w ≡ ok w'
      → KeepsRequests w w'
  unfolding migrate_config
  migrate_config-keeps a count w w' h =
      elim (Result-cases (check_admin (data_of rt (w.account a.config)) a.admin)) [
        | inr (e, fails) ↦ absurd (ground arith)
        | inl (u, eu) ↦ elim (Result-cases (top_up rt tx a w)) [
          | inr (x, unpaid) ↦ absurd (ground arith)
          | inl (paid, ep) ↦
              elim (Option-cases (
                rt.deserialize_config
                  (realloc (8 + init_space) (data_of rt (paid.account a.config))))) [
                    | inl unread ↦ absurd (ground arith)
                    | inr (state, es) ↦
                        let was = data_of_request (w.account a.config) a.admin u eu in
                        let before = top_up-keeps a w paid ep in
                        λ key. let k = before key in ground arith
                  ]
        ]
      ]

  pub close_config-keeps :
      (a : ConfigAccounts) (w w' : World) → close_config rt tx a w ≡ ok w' → KeepsRequests w w'
  unfolding close_config
  close_config-keeps a w w' h =
      elim (Result-cases (check_admin (data_of rt (w.account a.config)) a.admin)) [
        | inr (e, fails) ↦ absurd (ground arith)
        | inl (u, eu) ↦
            let was = data_of_request (w.account a.config) a.admin u eu in λ key. ground arith
      ]

  pub add_prize_pool-keeps :
      (a : PrizePoolAccounts) (pool : Pubkey) (type : PoolType) (name : List ℕ) (w w' : World)
      → add_prize_pool rt tx a pool type name w ≡ ok w'
      → KeepsRequests w w'
  unfolding add_prize_pool
  add_prize_pool-keeps a pool type name w w' h = elim (as_config-cases (w.account a.config)) [
    | inr (e, fails) ↦ absurd (ground arith)
    | inl (config, ec) ↦
        elim (Result-cases (rt.create_account a.admin a.prize_pool (8 + prize_pool_space) w)) [
          | inr (x, taken) ↦ absurd (ground arith)
          | inl (created, ew) ↦ elim (Result-cases (push_pool rt.overflow_checks config)) [
            | inr (y, full) ↦ absurd (ground arith)
            | inl (p, eq) ↦
                let (keeps, free) =
                  laws.create_keeps a.admin a.prize_pool (8 + prize_pool_space) w created ew in
                let before = own_requests keeps in λ key. let k = before key in ground arith
          ]
        ]
  ]

  pub remove_prize_pool-keeps :
      (a : PrizePoolAccounts) (w w' : World)
      → remove_prize_pool rt tx a w ≡ ok w'
      → KeepsRequests w w'
  unfolding remove_prize_pool
  remove_prize_pool-keeps a w w' h = elim (as_config-cases (w.account a.config)) [
    | inr (e, fails) ↦ absurd (ground arith)
    | inl (config, ec) ↦ elim (as_prize_pool-cases (w.account a.prize_pool)) [
      | inr (x, absent) ↦ absurd (ground arith)
      | inl (pool, ep) ↦ elim (Result-cases (drop_pool pool.index config)) [
        | inr (y, inactive) ↦ absurd (ground arith)
        | inl (dropped, ed) ↦
            elim (Option-cases
              (rt.create_program_address (Seeds.prize_pool pool.index) pool.bump)) [
                | inl no_address ↦ absurd (ground arith)
                | inr (address, ea) ↦ λ key. ground arith
              ]
      ]
    ]
  ]

  pub update_prize_pool-keeps :
      (a : PrizePoolAccounts) (pool' : Option Pubkey) (type : Option PoolType)
      (name : Option (List ℕ)) (w w' : World)
      → update_prize_pool rt tx a pool' type name w ≡ ok w'
      → KeepsRequests w w'
  unfolding update_prize_pool
  update_prize_pool-keeps a pool' type name w w' h = elim (as_config-cases (w.account a.config)) [
    | inr (e, fails) ↦ absurd (ground arith)
    | inl (config, ec) ↦ elim (as_prize_pool-cases (w.account a.prize_pool)) [
      | inr (x, absent) ↦ absurd (ground arith)
      | inl (pool, ep) ↦
          elim (Option-cases (rt.create_program_address (Seeds.prize_pool pool.index) pool.bump)) [
            | inl no_address ↦ absurd (ground arith)
            | inr (address, ea) ↦ λ key. ground arith
          ]
    ]
  ]
