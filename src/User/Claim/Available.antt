-- ===== src/User/Claim/Available.antt =====
-- When a claim in SOL goes through (instructions/user/claim.rs, `Claim` of lib.rs).
use native.Mathlib.Nat.{lt_of_mul-lt-mul_right}
use card_machine.Prelude.{ℕ, ◌+◌, ◌-◌, ◌*◌, ◌/◌, ◌≤◌, ◌<◌, ◌^◌, ◌≡◌, none, some, true, arith}
use card_machine.Prelude.Int.{pos, negsuc}
use card_machine.Constants.{claim_timeout_seconds, pyth_sol_usd_feed_id}
use card_machine.Errors.{ok}
use card_machine.Words.{u64_mod}
use card_machine.Words.Clock.{sub_i64_exact}
use card_machine.State.{MintRequest, IpFlowState, PayoutMode, revealed, claimed}
use card_machine.Runtime.{
  Runtime, World, Transaction, AccountData, vacant, close_account, contains, move_lamports, emit,
  Seeds,
}
use card_machine.Runtime.Laws.{ServesTransfers}
use card_machine.Runtime.Transfers.{invoke_signed-serves}
use card_machine.Pyth.{get_lamports_for_micro_usd, lamports_at_price, max_price_age_seconds}
use card_machine.Pyth.Rates.{IsFloor, lamports_at_price_exact}
use card_machine.User.Claim.{
  ClaimAccounts, ClaimArgs, Payout, pay_out_sol, pay_out, claim_handler, claim_accounts, claim,
}
use card_machine.User.Claim.Paid.{event_of}

module _ (rt : Runtime) (tx : Transaction) (a : ClaimAccounts) where
  -- The accounts are the request's own, and the user signs.
  pub record Passes (args : ClaimArgs) (w : World) (request : MintRequest) (config : IpFlowState)
      : Type 0 where
    pub signed : contains tx.signers a.user ≡ true
    pub stored : w.account a.mint_request ≡ AccountData.mint_request request
    pub configured : w.account a.config ≡ AccountData.config config
    pub price_account : rt.is_price_update w a.pyth_price_update ≡ true
    pub system : a.system_program ≡ rt.system_program_id
    pub owned : request.user ≡ a.user
    pub drawn : request.status ≡ revealed
    pub same_slot : request.vrf_request_slot ≡ args.vrf_request_slot
    pub at_request :
        a.mint_request
        ≡ (rt.find_program_address (Seeds.mint_request a.user args.vrf_request_slot)).0
    pub at_config : a.config ≡ (rt.find_program_address Seeds.global_config).0
    pub at_vault : rt.create_program_address Seeds.vault config.vault_bump ≡ some a.vault
    pub user_mut : tx.is_writable a.user ≡ true
    pub request_mut : tx.is_writable a.mint_request ≡ true
    pub vault_mut : tx.is_writable a.vault ≡ true

  -- Less than a day has gone by since the draw.
  pub record IsRecent (request : MintRequest) : Type 0 where
    pub now : ℕ
    pub drawn_at : ℕ
    pub clock : tx.clock.unix_timestamp ≡ pos now
    pub revealed_at : request.revealed_at ≡ pos drawn_at
    pub order : drawn_at ≤ now
    pub soon : now < drawn_at + claim_timeout_seconds
    pub in_range : now < 2 ^ 63

  -- A fresh Pyth price of at least one cent, in units of 10^-8 dollars.
  pub record HasPrice (w : World) (p : ℕ) : Type 0 where
    pub fresh :
        rt.get_price_no_older_than w a.pyth_price_update tx.clock max_price_age_seconds
          pyth_sol_usd_feed_id
        ≡ some (record { price = pos p; exponent = negsuc 7 })
    pub at_least : 10 ^ 6 ≤ p
    pub at_most : p < 2 ^ 63

  -- Beyond its rent the vault has the lamports that `micro_usd` is worth.
  pub record CanPayOut (w : World) (p micro_usd : ℕ) : Type 0 where
    pub no_data : w.account a.vault ≡ vacant
    pub covered :
        micro_usd * 10 ^ 17 < (w.lamports a.vault - rt.minimum_balance 0 + 1) * (p * 10 ^ 6)
    pub supply : w.lamports a.user + w.lamports a.vault < u64_mod

  passed_accounts :
      (args : ClaimArgs) (w : World) (request : MintRequest) (config : IpFlowState)
      → Passes args w request config
      → claim_accounts rt tx a args w ≡ ok (request, config)
  unfolding claim_accounts
  passed_accounts args w request config p =
      let signed = p.signed in
      let stored = p.stored in
      let configured = p.configured in
      let price_account = p.price_account in
      let system = p.system in
      let owned = p.owned in
      let drawn = p.drawn in
      let same_slot = p.same_slot in
      let at_request = p.at_request in
      let at_config = p.at_config in
      let user_mut = p.user_mut in
      let request_mut = p.request_mut in
      let vault_mut = p.vault_mut in let at_vault = p.at_vault in ground arith

  price_lem :
      (w : World) (p micro_usd q : ℕ)
      → HasPrice w p
      → lamports_at_price (record { price = pos p; exponent = negsuc 7 }) micro_usd ≡ ok q
      → get_lamports_for_micro_usd rt tx.clock w a.pyth_price_update micro_usd ≡ ok q
  unfolding get_lamports_for_micro_usd
  price_lem w p micro_usd q has h = let fresh = has.fresh in ground arith

  available_lem :
      (w : World) (p micro_usd q : ℕ)
      → q * (p * 10 ^ 6) ≤ micro_usd * 10 ^ 17
      → CanPayOut w p micro_usd
      → q ≤ w.lamports a.vault - rt.minimum_balance 0
  available_lem w p micro_usd q floor pays =
      let fewer : q < w.lamports a.vault - rt.minimum_balance 0 + 1 =
        lt_of_mul-lt-mul_right (p * 10 ^ 6) (omega (arith, floor, pays.covered)) in
      omega (arith, fewer)

  pay_lem :
      (sends : ServesTransfers rt) (w : World) (request : MintRequest) (config : IpFlowState)
      (q : ℕ)
      → request.total_won_usd ≤ 10 ^ 10
      → rt.create_program_address Seeds.vault config.vault_bump ≡ some a.vault
      → w.account a.vault ≡ vacant
      → w.lamports a.user + w.lamports a.vault < u64_mod
      → q ≤ w.lamports a.vault - rt.minimum_balance 0
      → get_lamports_for_micro_usd rt tx.clock w a.pyth_price_update
          (request.total_won_usd * 95 / 100)
        ≡ ok q
      → pay_out_sol rt tx a config request w
        ≡ ok (record {
          final_paid_amount = q;
          used_router = none;
          world = move_lamports a.vault a.user q w;
        })
  unfolding pay_out_sol
  pay_lem sends w request config q small at_vault empty supply available price =
      let sent =
        invoke_signed-serves rt sends tx Seeds.vault config.vault_bump a.vault a.user q w at_vault
          empty (omega arith) (omega arith) in
      ground arith

  handler_lem :
      (args : ClaimArgs) (w : World) (request : MintRequest) (config : IpFlowState)
      (payout : Payout)
      → args.payout_mode ≡ PayoutMode.sol
      → IsRecent request
      → pay_out_sol rt tx a config request w ≡ ok payout
      → claim_handler rt tx a args config request w
        ≡ ok (
          record request { status = claimed; paid_amount = payout.final_paid_amount },
          emit (event_of rt tx a args request payout) payout.world,
        )
  unfolding claim_handler pay_out
  handler_lem args w request config payout in_sol r paid =
      let clock = r.clock in
      let revealed_at = r.revealed_at in
      let soon = r.soon in
      let order = r.order in
      let age = sub_i64_exact rt.overflow_checks r.now r.drawn_at r.order r.in_range in ground arith

  -- The world that a claim in SOL leaves, for a payout of `lamports`.
  abbrev pub paid_world : ClaimArgs → MintRequest → ℕ → World → World
  paid_world args request lamports w = close_account a.mint_request a.user (
      emit
        (event_of rt tx a args request
          (record { final_paid_amount = lamports; used_router = none; world = w }))
        (move_lamports a.vault a.user lamports w))

  -- A claim in SOL goes through where the user signs it with the request's own accounts, less than
  -- a day after the draw of a prize of at most 10000 dollars, at a fresh price of exponent -8, of
  -- at least one cent and below 2^63, and where the vault, an account without data, has beyond its
  -- rent what 95% of the prize is worth. It pays that worth, the exact quotient rounded down, and
  -- closes the request. The System program is assumed to carry out a transfer that is signed and
  -- covered.
  pub claim_sol_succeeds :
      (sends : ServesTransfers rt) (args : ClaimArgs) (w : World) (request : MintRequest)
      (config : IpFlowState) (p : ℕ)
      → args.payout_mode ≡ PayoutMode.sol
      → Passes args w request config
      → IsRecent request
      → request.total_won_usd ≤ 10 ^ 10
      → HasPrice w p
      → CanPayOut w p (request.total_won_usd * 95 / 100)
      → (lamports : ℕ) × (claim rt tx a args w ≡ ok (paid_world args request lamports w))
        × IsFloor lamports (request.total_won_usd * 95 / 100 * 10 ^ 17) (p * 10 ^ 6)
  unfolding claim
  claim_sol_succeeds sends args w request config p in_sol passes recent small has pays =
      let payout_usd = request.total_won_usd * 95 / 100 in
      let (q, exact, floor) =
        lamports_at_price_exact p payout_usd has.at_least has.at_most (omega arith) in
      let accounts = passed_accounts args w request config passes in
      let paid =
        pay_lem sends w request config q small passes.at_vault pays.no_data pays.supply
          (available_lem w p payout_usd q floor.0 pays) (price_lem w p payout_usd q has exact) in
      let handled = handler_lem args w request config _ in_sol recent paid in
      (q, ground arith, floor)
