-- ===== src/User/Claim/Swapped.antt =====
-- Claims in tokens (instructions/user/claim.rs): the steps before the swap, for either router.
use card_machine.Prelude.{ℕ, ◌≡◌, inl, inr, some, Option-cases, arith}
use card_machine.Constants.{default_slippage_bps}
use card_machine.Errors.{ok, Result-cases}
use card_machine.State.{MintRequest, IpFlowState, PayoutMode, SwapRouter}
use card_machine.Runtime.{Runtime, World, Transaction}
use card_machine.Pyth.{get_lamports_for_micro_usd}
use card_machine.Jupiter.{calculate_min_output}
use card_machine.User.Claim.{ClaimAccounts, ClaimArgs, Payout, swap_by, pay_out_token, pay_out}

module _ (rt : Runtime) (tx : Transaction) (a : ClaimAccounts) where
  -- A payout in tokens: what it was asked for, its price and bound, and the swap.
  pub record SwapsBy (router : SwapRouter) (args : ClaimArgs) (config : IpFlowState)
      (request : MintRequest) (payout : Payout) (w : World) : Type 0 where
    pub expected : ℕ
    pub amount_in : ℕ
    pub minimum_out : ℕ
    pub asked : args.expected_token_output ≡ some expected
    pub priced :
        get_lamports_for_micro_usd rt tx.clock w a.pyth_price_update request.total_won_usd
        ≡ ok amount_in
    pub bounded :
        calculate_min_output rt.overflow_checks expected default_slippage_bps ≡ ok minimum_out
    pub swapped :
        swap_by rt tx a router args.swap_data config amount_in minimum_out w ≡ ok payout.world
    pub recorded : payout.final_paid_amount ≡ amount_in

  pay_out_token_lem :
      (router : SwapRouter) (args : ClaimArgs) (config : IpFlowState) (request : MintRequest)
      (w : World) (payout : Payout)
      → args.swap_router ≡ some router
      → pay_out_token rt tx a args config request w ≡ ok payout
      → SwapsBy router args config request payout w
  unfolding pay_out_token
  pay_out_token_lem router args config request w payout routed h =
      elim (Option-cases args.expected_token_output) [
        | inl unsaid ↦ absurd (ground arith)
        | inr (expected, asked) ↦
            elim (Result-cases (
              get_lamports_for_micro_usd rt tx.clock w a.pyth_price_update request.total_won_usd)) [
                | inr (x, unpriced) ↦ absurd (ground arith)
                | inl (amount_in, priced) ↦
                    elim (Result-cases
                      (calculate_min_output rt.overflow_checks expected default_slippage_bps)) [
                        | inr (y, unbounded) ↦ absurd (ground arith)
                        | inl (minimum_out, bounded) ↦
                            elim (Result-cases (
                              swap_by rt tx a router args.swap_data config amount_in minimum_out
                                w)) [
                                  | inr (z, unswapped) ↦ absurd (ground arith)
                                  | inl (after, swapped) ↦ record {
                                    expected = expected;
                                    amount_in = amount_in;
                                    minimum_out = minimum_out;
                                    asked = asked;
                                    priced = priced;
                                    bounded = bounded;
                                    swapped = ground arith;
                                    recorded = ground arith;
                                  }
                                ]
                      ]
              ]
      ]

  pay_out_of_token :
      (args : ClaimArgs) (config : IpFlowState) (request : MintRequest) (w : World)
      (payout : Payout)
      → args.payout_mode ≡ PayoutMode.token
      → pay_out rt tx a args.payout_mode args config request w ≡ ok payout
      → pay_out_token rt tx a args config request w ≡ ok payout
  unfolding pay_out
  pay_out_of_token args config request w payout token h = ground arith

  pub token_payout_lem :
      (router : SwapRouter) (args : ClaimArgs) (config : IpFlowState) (request : MintRequest)
      (w : World) (payout : Payout)
      → args.payout_mode ≡ PayoutMode.token
      → args.swap_router ≡ some router
      → pay_out rt tx a args.payout_mode args config request w ≡ ok payout
      → SwapsBy router args config request payout w
  token_payout_lem router args config request w payout token routed h =
      pay_out_token_lem router args config request w payout routed
        (pay_out_of_token args config request w payout token h)
