-- ===== src/User/Claim/Tokens.antt =====
-- Claims in tokens through Jupiter that succeed (instructions/user/claim.rs).
use card_machine.Prelude.{ℕ, ◌≡◌, inl, inr, Option, some, Option-cases, arith, List}
use card_machine.Constants.{default_slippage_bps}
use card_machine.Errors.{ok, map_err-eq-ok, jupiter_swap_failed}
use card_machine.State.{MintRequest, IpFlowState, PayoutMode, SwapRouter}
use card_machine.Runtime.{Runtime, World, Transaction, close_account, emit}
use card_machine.Pyth.{get_lamports_for_micro_usd}
use card_machine.Jupiter.{calculate_min_output}
use card_machine.Jupiter.Swap.{Swaps, swap_via_jupiter_lem}
use card_machine.User.Claim.{
  ClaimAccounts, ClaimArgs, Payout, remaining_key, pay_out_jupiter, swap_by, claim,
}
use card_machine.User.Claim.Swapped.{SwapsBy, token_payout_lem}
use card_machine.User.Claim.Paid.{Accepts, InTime, event_of, claimed_lem}

module _ (rt : Runtime) (tx : Transaction) (a : ClaimAccounts) where
  -- A payout in tokens: what it was asked for, its price and bound, and the swap.
  pub record TokensPaid (args : ClaimArgs) (request : MintRequest) (payout : Payout) (w : World)
      : Type 0 where
    pub expected : ℕ
    pub amount_in : ℕ
    pub minimum_out : ℕ
    pub asked : args.expected_token_output ≡ some expected
    pub priced :
        get_lamports_for_micro_usd rt tx.clock w a.pyth_price_update request.total_won_usd
        ≡ ok amount_in
    pub bounded :
        calculate_min_output rt.overflow_checks expected default_slippage_bps ≡ ok minimum_out
    pub swapped :
        Swaps a.remaining_accounts a.vault
          (remaining_key rt tx a 2)
          minimum_out
          amount_in
          w
          payout.world
    pub recorded : payout.final_paid_amount ≡ amount_in

  jupiter_swaps :
      (swap_data : Option (List ℕ)) (config : IpFlowState) (amount_in minimum_out : ℕ)
      (w w' : World)
      → swap_by rt tx a SwapRouter.jupiter swap_data config amount_in minimum_out w ≡ ok w'
      → Swaps a.remaining_accounts a.vault (remaining_key rt tx a 2) minimum_out amount_in w w'
  unfolding swap_by pay_out_jupiter
  jupiter_swaps swap_data config amount_in minimum_out w w' h = elim (Option-cases swap_data) [
    | inl missing ↦ absurd (ground arith)
    | inr (bytes, e) ↦
        swap_via_jupiter_lem rt tx a.remaining_accounts bytes a.vault config.vault_bump
          (remaining_key rt tx a 2) minimum_out amount_in w w'
          (map_err-eq-ok jupiter_swap_failed _ (ground arith))
  ]

  -- The swap of a payout through Jupiter.
  tokens_paid :
      (args : ClaimArgs) (config : IpFlowState) (request : MintRequest) (w : World)
      (payout : Payout)
      → SwapsBy rt tx a SwapRouter.jupiter args config request payout w
      → TokensPaid args request payout w
  tokens_paid args config request w payout x = record {
    expected = x.expected;
    amount_in = x.amount_in;
    minimum_out = x.minimum_out;
    asked = x.asked;
    priced = x.priced;
    bounded = x.bounded;
    swapped =
        jupiter_swaps args.swap_data config x.amount_in x.minimum_out w payout.world x.swapped;
    recorded = x.recorded;
  }

-- What a claim through Jupiter has done.
abbrev pub PaysTokens : Runtime → Transaction → ClaimAccounts → ClaimArgs → World → World → Type 0
PaysTokens rt tx a args w w' =
    (request : MintRequest) × (config : IpFlowState) × (payout : Payout) × Accepts rt tx a args w
      request config
    × InTime rt tx a request
    × TokensPaid rt tx a args request payout w
    × (w'
        ≡ close_account a.mint_request a.user
            (emit (event_of rt tx a args request payout) payout.world))

-- A claim in tokens through Jupiter that succeeds was made by the request's own user, who signed
-- it, less than a day after the draw. The account that the user names has gained at least the
-- bound on the expected output, the vault's only WSOL account among those passed has lost at most
-- the lamports of the whole prize, and the request's account is closed in favour of the user.
pub claim_jupiter_pays :
    (rt : Runtime) (tx : Transaction) (a : ClaimAccounts) (args : ClaimArgs) (w w' : World)
    → args.payout_mode ≡ PayoutMode.token
    → args.swap_router ≡ some SwapRouter.jupiter
    → claim rt tx a args w ≡ ok w'
    → PaysTokens rt tx a args w w'
claim_jupiter_pays rt tx a args w w' token router h =
    let (request, config, payout, c) = claimed_lem rt tx a args w w' h in
    let x =
      token_payout_lem rt tx a SwapRouter.jupiter args config request w payout token router
        c.paid in
    (
      request,
      config,
      payout,
      c.accepts,
      c.in_time,
      tokens_paid rt tx a args config request w payout x,
      c.result,
    )
