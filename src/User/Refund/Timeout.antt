-- ===== src/User/Refund/Timeout.antt =====
-- Refunds that succeed (instructions/user/refund.rs): when, and what is paid back.
use card_machine.Prelude.{ℕ, ◌≤◌, ◌≡◌, inl, inr, true, Option, none, some, arith, ◌∷◌}
use card_machine.Prelude.Int.{ℤ, ltb_ℤ}
use card_machine.Constants.{Pubkey, usdt_mint_devnet}
use card_machine.Errors.{ok, Result-cases}
use card_machine.Words.{sub_i64}
use card_machine.State.{MintRequest, IpFlowState, PaymentMode, pending}
use card_machine.Runtime.{
  Runtime, World, Transaction, AccountData, TokenAccount, close_account, move_lamports, Seeds,
  token_transfer,
}
use card_machine.Runtime.Laws.{RuntimeLaws}
use card_machine.Runtime.Transfers.{invoke_signed-transfer}
use card_machine.User.Refund.{
  RefundAccounts, refund_sol, check_refund_tokens, refund_usdt, pay_back, check_timeout,
  refund_accounts, refund,
}
use card_machine.User.Refund.Accepted.{Accepts, accepted}
use card_machine.Runtime.Passed.{HeldAt}

module _ (rt : Runtime) (tx : Transaction) (a : RefundAccounts) where
  -- The request has waited for longer than the configured time.
  pub record TimedOut (request : MintRequest) (config : IpFlowState) : Type 0 where
    pub waiting : request.status ≡ pending
    pub age : ℤ
    pub waited : sub_i64 rt.overflow_checks tx.clock.unix_timestamp request.created_at ≡ ok age
    pub over : ltb_ℤ config.request_timeout_seconds age ≡ true

  timed_out :
      (config : IpFlowState) (request : MintRequest) (u : Unit)
      → check_timeout rt tx a config request ≡ ok u
      → TimedOut request config
  unfolding check_timeout
  timed_out config request u h =
      elim (Result-cases (sub_i64 rt.overflow_checks tx.clock.unix_timestamp request.created_at)) [
        | inr (e, fails) ↦ absurd (ground arith)
        | inl (age, waited) ↦ record {
          waiting = ground arith;
          age = age;
          waited = waited;
          over = ground arith;
        }
      ]

-- The USDT accounts of a refund: the vault's and the user's, of the right mint. The whole
-- amount is sent from the one to the other.
pub record UsdtBack (rt : Runtime) (tx : Transaction) (a : RefundAccounts) (amount : ℕ)
    (v u : Pubkey × TokenAccount) (w w' : World) : Type 0 where
  pub vault_passed : a.vault_token_account ≡ some v.0
  pub user_passed : a.user_token_account ≡ some u.0
  pub vault_held : w.account v.0 ≡ AccountData.token v.1
  pub user_held : w.account u.0 ≡ AccountData.token u.1
  pub from_vault : v.1.owner ≡ a.vault
  pub from_mint : v.1.mint ≡ usdt_mint_devnet
  pub covered : amount ≤ v.1.amount
  pub to_user : u.1.owner ≡ a.user
  pub to_mint : u.1.mint ≡ usdt_mint_devnet
  pub sent : rt.invoke (token_transfer v.0 u.0 a.vault amount) (a.vault ∷ tx.signers) w ≡ ok w'

-- What each mode of payment takes back, from the world `w` to `w'`.
abbrev pub TookBack :
    Runtime → Transaction → RefundAccounts → PaymentMode → ℕ → World → World → Type 0
TookBack rt tx a PaymentMode.sol amount w w' =
    (amount ≤ w.lamports a.vault) × (w' ≡ move_lamports a.vault a.user amount w)
TookBack rt tx a PaymentMode.usdt amount w w' =
    (v : Pubkey × TokenAccount) × (u : Pubkey × TokenAccount) × UsdtBack rt tx a amount v u w w'

check_refund_tokens_lem :
    (rt : Runtime) (tx : Transaction) (a : RefundAccounts) (amount : ℕ) (v u : TokenAccount)
    (x : Unit {0})
    → check_refund_tokens rt tx a amount v u ≡ ok x
    → (amount ≤ v.amount)
      × (u.owner ≡ a.user)
      × (u.mint ≡ usdt_mint_devnet)
      × (v.mint ≡ usdt_mint_devnet)
      × (v.owner ≡ a.vault)
unfolding check_refund_tokens
check_refund_tokens_lem rt tx a amount v u x h = ground arith

refund_sol_lem :
    (rt : Runtime) (laws : RuntimeLaws rt) (tx : Transaction) (a : RefundAccounts)
    (config : IpFlowState) (request : MintRequest) (w w' : World)
    → refund_sol rt tx a config request w ≡ ok w'
    → TookBack rt tx a PaymentMode.sol request.paid_amount w w'
unfolding refund_sol
refund_sol_lem rt laws tx a config request w w' h =
    let t =
      invoke_signed-transfer rt laws tx Seeds.vault config.vault_bump a.vault a.user
        request.paid_amount w w' (ground arith) in
    (t.1, t.0)

refund_usdt_lem :
    (rt : Runtime) (tx : Transaction) (a : RefundAccounts) (v u : Option (Pubkey × TokenAccount))
    (config : IpFlowState) (request : MintRequest) (w w' : World)
    → HeldAt w a.vault_token_account v
    → HeldAt w a.user_token_account u
    → rt.create_program_address Seeds.vault config.vault_bump ≡ some a.vault
    → refund_usdt rt tx a v u config request w ≡ ok w'
    → TookBack rt tx a PaymentMode.usdt request.paid_amount w w'
unfolding refund_usdt
refund_usdt_lem rt tx a none u config request w w' hv hu at h = absurd (ground arith)
refund_usdt_lem rt tx a (some v) none config request w w' hv hu at h = absurd (ground arith)
refund_usdt_lem rt tx a (some v) (some u) config request w w' hv hu at h =
    elim (Result-cases (check_refund_tokens rt tx a request.paid_amount v.1 u.1)) [
      | inr (e, fails) ↦ absurd (ground arith)
      | inl (x, e) ↦
          let (c, ou, mu, mv, ov) =
            check_refund_tokens_lem rt tx a request.paid_amount v.1 u.1 x e in
          (
            v,
            u,
            record {
              vault_passed = hv.0;
              user_passed = hu.0;
              vault_held = hv.1;
              user_held = hu.1;
              from_vault = ov;
              from_mint = mv;
              covered = c;
              to_user = ou;
              to_mint = mu;
              sent = ground arith;
            },
          )
    ]

pay_back_lem :
    (rt : Runtime) (laws : RuntimeLaws rt) (tx : Transaction) (a : RefundAccounts)
    (mode : PaymentMode) (v u : Option (Pubkey × TokenAccount)) (config : IpFlowState)
    (request : MintRequest) (w w' : World)
    → HeldAt w a.vault_token_account v
    → HeldAt w a.user_token_account u
    → rt.create_program_address Seeds.vault config.vault_bump ≡ some a.vault
    → pay_back rt tx a mode v u config request w ≡ ok w'
    → TookBack rt tx a mode request.paid_amount w w'
unfolding pay_back
pay_back_lem rt laws tx a PaymentMode.sol v u config request w w' hv hu at h =
    refund_sol_lem rt laws tx a config request w w' h
pay_back_lem rt laws tx a PaymentMode.usdt v u config request w w' hv hu at h =
    refund_usdt_lem rt tx a v u config request w w' hv hu at h

-- What a refund has done.
abbrev pub Refunds : Runtime → Transaction → RefundAccounts → ℕ → World → World → Type 0
Refunds rt tx a slot w w' =
    (request : MintRequest) × (config : IpFlowState) × (paid : World) × Accepts rt tx a slot w
      request config
    × TimedOut rt tx a request config
    × TookBack rt tx a request.payment_mode request.paid_amount w paid
    × (w' ≡ close_account a.mint_request a.user paid)

-- A refund that succeeds is signed by the request's own user, for a request that still waits after
-- more than the configured time. It takes exactly what was paid from the vault and gives it to the
-- user, lamports for SOL and USDT for USDT, and closes the request's account.
pub refund_pays_back :
    (rt : Runtime) (laws : RuntimeLaws rt) (tx : Transaction) (a : RefundAccounts) (slot : ℕ)
    (w w' : World)
    → refund rt tx a slot w ≡ ok w'
    → Refunds rt tx a slot w w'
unfolding refund
refund_pays_back rt laws tx a slot w w' h = elim (Result-cases (refund_accounts rt tx a slot w)) [
  | inr (e, fails) ↦ absurd (ground arith)
  | inl (p, ep) ↦
      let acc = accepted rt tx a slot w p.0 p.1 p.2 p.3 ep in
      elim (Result-cases (check_timeout rt tx a p.1 p.0)) [
        | inr (x, late) ↦ absurd (ground arith)
        | inl (u, eu) ↦ elim (Result-cases (pay_back rt tx a p.0.payment_mode p.2 p.3 p.1 p.0 w)) [
          | inr (y, unpaid) ↦ absurd (ground arith)
          | inl (paid, eq) ↦ (
            p.0,
            p.1,
            paid,
            acc.0,
            timed_out rt tx a p.1 p.0 u eu,
            pay_back_lem rt laws tx a p.0.payment_mode p.2 p.3 p.1 p.0 w paid acc.1 acc.2
                acc.0.at_vault eq,
            ground arith,
          )
        ]
      ]
]
