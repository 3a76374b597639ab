-- ===== src/Lifecycle/Payday.antt =====
-- A claim in SOL that follows the callback (instructions/oracle/consume_randomness.rs, then
-- instructions/user/claim.rs).
use card_machine.Prelude.{
  ℕ, ◌+◌, ◌*◌, ◌/◌, ◌≤◌, ◌<◌, ◌^◌, ◌≡◌, refl, subst, ap, ◌∙◌, true, some, List, arith,
}
use card_machine.Prelude.Int.{pos}
use card_machine.Constants.{claim_timeout_seconds}
use card_machine.Errors.{ok}
use card_machine.State.{MintRequest, IpFlowState, PayoutMode}
use card_machine.Runtime.{Runtime, World, Transaction, AccountData, contains, Seeds}
use card_machine.Runtime.Laws.{ServesTransfers}
use card_machine.Vrf.{LotteryResult}
use card_machine.Vrf.Draw.{prizes, prizes_bounds}
use card_machine.Oracle.{ConsumeAccounts, reveal, consume_lottery_randomness}
use card_machine.Oracle.Reveal.{consumed}
use card_machine.Pyth.Rates.{IsFloor}
use card_machine.User.Claim.{ClaimAccounts, ClaimArgs, claim}
use card_machine.User.Claim.Available.{
  Passes, IsRecent, HasPrice, CanPayOut, paid_world, claim_sol_succeeds,
}

module _ (rt : Runtime) (draw_tx : Transaction) (b : ConsumeAccounts) (tx : Transaction)
    (a : ClaimAccounts) where
  -- The user of a request of at most 100 cards claims with the request's own accounts.
  pub record Claims (args : ClaimArgs) (w later : World) (request : MintRequest)
      (config : IpFlowState) : Type 0 where
    pub signed : contains tx.signers a.user ≡ true
    pub stored : w.account a.mint_request ≡ AccountData.mint_request request
    pub configured : later.account a.config ≡ AccountData.config config
    pub price_account : rt.is_price_update later a.pyth_price_update ≡ true
    pub system : a.system_program ≡ rt.system_program_id
    pub owned : request.user ≡ a.user
    pub same_slot : request.vrf_request_slot ≡ args.vrf_request_slot
    pub at_request :
        a.mint_request
        ≡ (rt.find_program_address (Seeds.mint_request a.user args.vrf_request_slot)).0
    pub at_config : a.config ≡ (rt.find_program_address Seeds.global_config).0
    pub at_vault : rt.create_program_address Seeds.vault config.vault_bump ≡ some a.vault
    pub user_mut : tx.is_writable a.user ≡ true
    pub request_mut : tx.is_writable a.mint_request ≡ true
    pub vault_mut : tx.is_writable a.vault ≡ true
    pub same_request : b.mint_request ≡ a.mint_request
    pub in_sol : args.payout_mode ≡ PayoutMode.sol
    pub cards : request.amount_of_cards ≤ 100

  -- The claim is made after the callback, and less than a day after it.
  pub record Follows : Type 0 where
    pub now : ℕ
    pub drawn_at : ℕ
    pub clock : tx.clock.unix_timestamp ≡ pos now
    pub draw_clock : draw_tx.clock.unix_timestamp ≡ pos drawn_at
    pub order : drawn_at ≤ now
    pub soon : now < drawn_at + claim_timeout_seconds
    pub in_range : now < 2 ^ 63

  -- The request after the callback.
  drawn_account :
      (randomness : List ℕ) (args : ClaimArgs) (w w' later : World) (request : MintRequest)
      (config : IpFlowState)
      → consume_lottery_randomness rt draw_tx b randomness w ≡ ok w'
      → Claims args w later request config
      → (result : LotteryResult) × (result.total_won_usd
          ≡ prizes randomness request.amount_of_cards)
        × (w'.account a.mint_request
            ≡ AccountData.mint_request (reveal rt draw_tx b result request))
  drawn_account randomness args w w' later request config h c =
      let (r, s, result, acc, total, drawn_as, e) = consumed rt draw_tx b randomness w w' h in
      let same_request = c.same_request in
      let stored = c.stored in
      let held = acc.stored in
      let same : r ≡ request = ground arith in
      (
        result,
        total ∙ ap (λ q. prizes randomness (MintRequest.amount_of_cards q)) same,
        ground arith,
      )

  Passes-after :
      (args : ClaimArgs) (w later : World) (request : MintRequest) (config : IpFlowState)
      (result : LotteryResult)
      → later.account a.mint_request ≡ AccountData.mint_request (reveal rt draw_tx b result request)
      → Claims args w later request config
      → Passes rt tx a args later (reveal rt draw_tx b result request) config
  unfolding reveal
  Passes-after args w later request config result stored c = record {
    signed = c.signed;
    stored = stored;
    configured = c.configured;
    price_account = c.price_account;
    system = c.system;
    owned = c.owned;
    drawn = refl;
    same_slot = c.same_slot;
    at_request = c.at_request;
    at_config = c.at_config;
    at_vault = c.at_vault;
    user_mut = c.user_mut;
    request_mut = c.request_mut;
    vault_mut = c.vault_mut;
  }

  -- After a callback that succeeds for a request of at most 100 cards, the user who signs with the
  -- request's own accounts, less than a day later, claims in SOL with success, in any later world
  -- that still stores the request as it was drawn: 95% of the sum of the cards' prizes, the exact
  -- quotient rounded down. The price in that world is fresh, of exponent -8, of at least one cent
  -- and below 2^63, and the vault, an account without data, has that worth beyond its rent. The
  -- System program is assumed to carry out a transfer that is signed and covered.
  pub draw_then_claim :
      (sends : ServesTransfers rt) (randomness : List ℕ) (args : ClaimArgs) (w w' later : World)
      (request : MintRequest) (config : IpFlowState) (p : ℕ)
      → consume_lottery_randomness rt draw_tx b randomness w ≡ ok w'
      → later.account a.mint_request ≡ w'.account a.mint_request
      → Claims args w later request config
      → Follows
      → HasPrice rt tx a later p
      → CanPayOut rt tx a later p (prizes randomness request.amount_of_cards * 95 / 100)
      → (result : LotteryResult) × (lamports : ℕ) × (result.total_won_usd
          ≡ prizes randomness request.amount_of_cards)
        × (claim rt tx a args later
            ≡ ok (paid_world rt tx a args (reveal rt draw_tx b result request) lamports later))
        × IsFloor lamports
            (prizes randomness request.amount_of_cards * 95 / 100 * 10 ^ 17)
            (p * 10 ^ 6)
  unfolding reveal
  draw_then_claim sends randomness args w w' later request config p h kept c f price pays =
      let (result, won, stored) = drawn_account randomness args w w' later request config h c in
      let drawn = reveal rt draw_tx b result request in
      let small = prizes_bounds randomness request.amount_of_cards in
      let recent : IsRecent rt tx a drawn = record {
        now = f.now;
        drawn_at = f.drawn_at;
        clock = f.clock;
        revealed_at = f.draw_clock;
        order = f.order;
        soon = f.soon;
        in_range = f.in_range;
      } in
      let (lamports, claimed, floor) =
        claim_sol_succeeds rt tx a sends args later drawn config p c.in_sol
          (Passes-after args w later request config result (kept ∙ stored) c) recent
          (omega (arith, small, won, c.cards)) price (rw won pays) in
      let exact =
        subst (λ total. IsFloor lamports (total * 95 / 100 * 10 ^ 17) (p * 10 ^ 6)) won floor in
      (result, lamports, won, claimed, exact)
