-- ===== src/User/Refund/Available.antt =====
-- When a refund in SOL goes through (instructions/user/refund.rs, `Refund` of lib.rs).
use card_machine.Prelude.{ℕ, ◌+◌, ◌≤◌, ◌<◌, ◌^◌, ◌≡◌, none, some, true, arith}
use card_machine.Prelude.Int.{pos}
use card_machine.Errors.{ok}
use card_machine.Words.{u64_mod}
use card_machine.State.{MintRequest, IpFlowState, PaymentMode, pending}
use card_machine.Runtime.{
  Runtime, World, Transaction, AccountData, vacant, close_account, contains, move_lamports, Seeds,
}
use card_machine.Runtime.Laws.{ServesTransfers}
use card_machine.Runtime.Transfers.{invoke_signed-serves}
use card_machine.Words.Clock.{sub_i64_exact}
use card_machine.User.Refund.{
  RefundAccounts, refund_sol, pay_back, check_timeout, refund_accounts, refund_constraints, refund,
}

module _ (rt : Runtime) (tx : Transaction) (a : RefundAccounts) where
  -- The accounts are the request's own, with no token account, and the user signs.
  pub record PassesSol (slot : ℕ) (w : World) (request : MintRequest) (config : IpFlowState)
      : Type 0 where
    pub signed : contains tx.signers a.user ≡ true
    pub stored : w.account a.mint_request ≡ AccountData.mint_request request
    pub configured : w.account a.config ≡ AccountData.config config
    pub system : a.system_program ≡ rt.system_program_id
    pub no_program : a.token_program ≡ none
    pub no_vault_account : a.vault_token_account ≡ none
    pub no_user_account : a.user_token_account ≡ none
    pub owned : request.user ≡ a.user
    pub same_slot : request.vrf_request_slot ≡ slot
    pub at_request : a.mint_request ≡ (rt.find_program_address (Seeds.mint_request a.user slot)).0
    pub at_config : a.config ≡ (rt.find_program_address Seeds.global_config).0
    pub at_vault : rt.create_program_address Seeds.vault config.vault_bump ≡ some a.vault
    pub user_mut : tx.is_writable a.user ≡ true
    pub request_mut : tx.is_writable a.mint_request ≡ true
    pub vault_mut : tx.is_writable a.vault ≡ true

  -- A request in SOL that still waits after more than the configured time.
  pub record IsLate (request : MintRequest) (config : IpFlowState) : Type 0 where
    pub now : ℕ
    pub created : ℕ
    pub wait : ℕ
    pub clock : tx.clock.unix_timestamp ≡ pos now
    pub created_at : request.created_at ≡ pos created
    pub timeout : config.request_timeout_seconds ≡ pos wait
    pub over : created + wait < now
    pub in_range : now < 2 ^ 63
    pub waiting : request.status ≡ pending
    pub in_sol : request.payment_mode ≡ PaymentMode.sol

  -- The vault holds the amount, and the two balances are together a `u64`.
  pub record CanPay (w : World) (amount : ℕ) : Type 0 where
    pub no_data : w.account a.vault ≡ vacant
    pub covered : amount ≤ w.lamports a.vault
    pub supply : w.lamports a.user + w.lamports a.vault < u64_mod

  passed_accounts :
      (slot : ℕ) (w : World) (request : MintRequest) (config : IpFlowState)
      → PassesSol slot w request config
      → refund_accounts rt tx a slot w ≡ ok (request, config, none, none)
  unfolding refund_accounts refund_constraints
  passed_accounts slot w request config p =
      let signed = p.signed in
      let stored = p.stored in
      let configured = p.configured in
      let system = p.system in
      let no_program = p.no_program in
      let no_vault_account = p.no_vault_account in
      let no_user_account = p.no_user_account in
      let owned = p.owned in
      let same_slot = p.same_slot in
      let at_request = p.at_request in
      let at_config = p.at_config in
      let user_mut = p.user_mut in
      let request_mut = p.request_mut in
      let vault_mut = p.vault_mut in let at_vault = p.at_vault in ground arith

  late_lem :
      (request : MintRequest) (config : IpFlowState)
      → IsLate request config
      → check_timeout rt tx a config request ≡ ok tt
  unfolding check_timeout
  late_lem request config l =
      let clock = l.clock in
      let created_at = l.created_at in
      let timeout = l.timeout in
      let over = l.over in
      let waiting = l.waiting in
      let age =
        sub_i64_exact rt.overflow_checks l.now l.created (omega (arith, l.over)) l.in_range in
      ground arith

  paid_lem :
      (sends : ServesTransfers rt) (request : MintRequest) (config : IpFlowState) (w : World)
      → request.payment_mode ≡ PaymentMode.sol
      → rt.create_program_address Seeds.vault config.vault_bump ≡ some a.vault
      → CanPay w request.paid_amount
      → pay_back rt tx a request.payment_mode none none config request w
        ≡ ok (move_lamports a.vault a.user request.paid_amount w)
  unfolding pay_back refund_sol
  paid_lem sends request config w in_sol at_vault pays =
      let covered = pays.covered in
      let sent =
        invoke_signed-serves rt sends tx Seeds.vault config.vault_bump a.vault a.user
          request.paid_amount w at_vault pays.no_data pays.covered
          (omega (arith, pays.covered, pays.supply)) in
      ground arith

  -- A refund in SOL goes through where the user signs it with the request's own accounts and no
  -- token account, the request still waits after more than the configured time, and the vault, an
  -- account without data, holds what was paid. It pays exactly that back and closes the request.
  -- The System program is assumed to carry out a transfer that is signed and covered.
  pub refund_sol_succeeds :
      (sends : ServesTransfers rt) (slot : ℕ) (w : World) (request : MintRequest)
      (config : IpFlowState)
      → PassesSol slot w request config
      → IsLate request config
      → CanPay w request.paid_amount
      → refund rt tx a slot w
        ≡ ok (
            close_account a.mint_request a.user
              (move_lamports a.vault a.user request.paid_amount w))
  unfolding refund
  refund_sol_succeeds sends slot w request config p l pays =
      let accounts = passed_accounts slot w request config p in
      let late = late_lem request config l in
      let paid = paid_lem sends request config w l.in_sol p.at_vault pays in ground arith
