-- ===== src/User/Claim/Raydium.antt =====
-- Claims in tokens through Raydium that succeed (instructions/user/claim.rs).

use card_machine.Prelude.{
  ℕ, ◌≡◌, ◌≤◌, ◌<◌, inl, inr, Option, some, arith, List, length, length-map, Bool, true, false, [],
  ◌∷◌, map, get_elem?, get_elem?-get_or,
}
use card_machine.Errors.{
  ok, Result-cases, map_err, map_err-eq-ok, wsol_wrap_failed, raydium_swap_failed,
}
use card_machine.Constants.{default_slippage_bps, raydium_swap_accounts_count}
use card_machine.Words.{u64_mod}
use card_machine.State.{MintRequest, IpFlowState, PayoutMode, SwapRouter}
use card_machine.Runtime.{
  Runtime, World, Transaction, Seeds, AccountMeta, AccountInfo, close_account, emit,
}
use card_machine.Runtime.Laws.{RuntimeLaws}
use card_machine.Pyth.{get_lamports_for_micro_usd, lamports_at_price}
use card_machine.Jupiter.{calculate_min_output}
use card_machine.Wsol.{wrap_sol}
use card_machine.Wsol.Wrap.{Wraps, wrap_sol_lem}
use card_machine.Raydium.{swap_metas}
use card_machine.Raydium.Call.{CallsRaydium, swap_base_input_lem}
use card_machine.User.Claim.{
  ClaimAccounts, ClaimArgs, Payout, remaining_key, raydium_accounts, pay_out_raydium, swap_by,
  claim,
}
use card_machine.User.Claim.Swapped.{SwapsBy, token_payout_lem}
use card_machine.User.Claim.Paid.{Accepts, InTime, event_of, claimed_lem}

module _ (rt : Runtime) (tx : Transaction) (a : ClaimAccounts) where
  -- An account at a position of those passed, writable or read only, that does not sign.
  abbrev passed : ℕ → Bool → AccountMeta
  passed i is_writable = record {
    pubkey = remaining_key rt tx a i;
    is_signer = false;
    is_writable = is_writable;
  }

  -- The thirteen accounts of Raydium's swap: the payer, which is the vault and signs, the
  -- authority, the pool's configuration and state, the input and output token accounts and vaults,
  -- the two token programs, the two mints, and the observations.
  abbrev account_metas : List AccountMeta
  account_metas =
      record { pubkey = a.vault; is_signer = true; is_writable = true }
      ∷ passed 1 false
      ∷ passed 2 false
      ∷ passed 3 true
      ∷ passed 4 true
      ∷ passed 5 true
      ∷ passed 6 true
      ∷ passed 7 true
      ∷ passed 8 false
      ∷ passed 9 false
      ∷ passed 10 false
      ∷ passed 11 false
      ∷ passed 12 true
      ∷ []

  -- The lamports are wrapped into the input account, and Raydium is called with it.
  pub record RaydiumSwaps (amount_in minimum_out : ℕ) (w w' : World) : Type 0 where
    pub enough_accounts : raydium_swap_accounts_count ≤ length a.remaining_accounts
    pub wrapped : World
    pub wraps :
        Wraps rt tx a.vault (remaining_key rt tx a 4) (remaining_key rt tx a 8) amount_in w wrapped
    pub positions :
        (i : ℕ)
        → i < length a.remaining_accounts
        → get_elem? (map (λ (acc : AccountInfo). acc.key) a.remaining_accounts) i
          ≡ some (remaining_key rt tx a i)
    pub calls :
        CallsRaydium rt tx
          (remaining_key rt tx a 0)
          account_metas
          amount_in
          minimum_out
          a.vault
          wrapped
          w'

  raydium_swaps :
      (laws : RuntimeLaws rt) (swap_data : Option (List ℕ)) (config : IpFlowState)
      (amount_in minimum_out : ℕ) (w w' : World)
      → amount_in < u64_mod
      → minimum_out < u64_mod
      → rt.create_program_address Seeds.vault config.vault_bump ≡ some a.vault
      → swap_by rt tx a SwapRouter.raydium swap_data config amount_in minimum_out w ≡ ok w'
      → RaydiumSwaps amount_in minimum_out w w'
  unfolding swap_by pay_out_raydium swap_metas raydium_accounts
  raydium_swaps laws swap_data config amount_in minimum_out w w' small_in small_out address h =
      elim (Result-cases (
        map_err wsol_wrap_failed (
          wrap_sol rt tx a.vault (remaining_key rt tx a 4) (remaining_key rt tx a 8) amount_in
            Seeds.vault config.vault_bump w))) [
              | inr (e, unwrapped) ↦ absurd (ground arith)
              | inl (wrapped, done) ↦ record {
                enough_accounts = ground arith;
                wrapped = wrapped;
                positions = λ i h.
                    get_elem?-get_or (map (λ (acc : AccountInfo). acc.key) a.remaining_accounts) i 0
                      (omega (
                        arith,
                        h,
                        length-map (λ (acc : AccountInfo). acc.key) a.remaining_accounts,
                      ));
                wraps =
                    wrap_sol_lem rt laws tx a.vault (remaining_key rt tx a 4)
                      (remaining_key rt tx a 8) amount_in Seeds.vault config.vault_bump w wrapped
                      (map_err-eq-ok wsol_wrap_failed _ done);
                calls =
                    swap_base_input_lem rt tx (raydium_accounts rt tx a) amount_in minimum_out
                      Seeds.vault config.vault_bump a.vault wrapped w' small_in small_out address
                      (map_err-eq-ok raydium_swap_failed _ (ground arith));
              }
            ]

-- What a claim through Raydium has done.
abbrev pub PaysRaydium : Runtime → Transaction → ClaimAccounts → ClaimArgs → World → World → Type 0
PaysRaydium rt tx a args w w' =
    (request : MintRequest) × (config : IpFlowState) × (payout : Payout) × Accepts rt tx a args w
      request config
    × InTime rt tx a request
    × (swap : SwapsBy rt tx a SwapRouter.raydium args config request payout w) × RaydiumSwaps rt tx
        a swap.amount_in swap.minimum_out w payout.world
    × (w'
        ≡ close_account a.mint_request a.user
            (emit (event_of rt tx a args request payout) payout.world))

priced-lt :
    (rt : Runtime) (tx : Transaction) (w : World) (key micro_usd lamports : ℕ)
    → get_lamports_for_micro_usd rt tx.clock w key micro_usd ≡ ok lamports
    → lamports < u64_mod
unfolding get_lamports_for_micro_usd lamports_at_price
priced-lt rt tx w key micro_usd lamports h = ground arith

min_output-lt :
    (checks : _) (expected minimum_out : ℕ)
    → calculate_min_output checks expected default_slippage_bps ≡ ok minimum_out
    → minimum_out < u64_mod
unfolding calculate_min_output
min_output-lt checks expected minimum_out h = ground arith

-- A claim in tokens through Raydium that succeeds was made by the request's own user, who signed
-- it, less than a day after the draw. It wraps the lamports of the whole prize from the vault into
-- the input account, and calls one of the two Raydium programs, signed by the vault, with the
-- thirteen accounts of its swap: the vault, and those that the user passes at the positions 1 to
-- 12, in this order, of which it may write 3 to 7 and 12. The program stands at the position 0.
-- The data encodes these lamports and the bound on the expected output. The request's account is
-- closed in favour of the user.
pub claim_raydium_pays :
    (rt : Runtime) (laws : RuntimeLaws rt) (tx : Transaction) (a : ClaimAccounts) (args : ClaimArgs)
    (w w' : World)
    → args.payout_mode ≡ PayoutMode.token
    → args.swap_router ≡ some SwapRouter.raydium
    → claim rt tx a args w ≡ ok w'
    → PaysRaydium rt tx a args w w'
claim_raydium_pays rt laws tx a args w w' token router h =
    let (request, config, payout, c) = claimed_lem rt tx a args w w' h in
    let x =
      token_payout_lem rt tx a SwapRouter.raydium args config request w payout token router
        c.paid in
    (
      request,
      config,
      payout,
      c.accepts,
      c.in_time,
      x,
      raydium_swaps rt tx a laws args.swap_data config x.amount_in x.minimum_out w payout.world
          (priced-lt rt tx w a.pyth_price_update request.total_won_usd x.amount_in x.priced)
          (min_output-lt rt.overflow_checks x.expected x.minimum_out x.bounded) c.accepts.at_vault
          x.swapped,
      c.result,
    )
