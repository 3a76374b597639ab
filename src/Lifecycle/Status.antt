-- ===== src/Lifecycle/Status.antt =====
-- How a request may change in one step (lib.rs).
use card_machine.Prelude.{
  ℕ, ◌*◌, ◌≤◌, ◌≡◌, ◌⊎◌, inl, inr, refl, Option, none, some, List, arith, ℕ_discrete,
}
use card_machine.Constants.{Pubkey, tier1_min_usd, tier4_max_usd}
use card_machine.Errors.{ok}
use card_machine.State.{MintRequest, IpFlowState, PaymentMode, pending, revealed}
use card_machine.Runtime.{Runtime, World, Transaction}
use card_machine.Runtime.Laws.{RuntimeLaws}
use card_machine.Runtime.Requests.{request_at, KeepsRequests, own_requests}
use card_machine.Vrf.{LotteryResult}
use card_machine.Vrf.Draw.{prizes, prizes_bounds}
use card_machine.Oracle.{ConsumeAccounts, reveal}
use card_machine.User.RequestMint.{RequestMintAccounts, new_request}
use card_machine.User.RequestMint.Accepted.{Allowed}
use card_machine.Lifecycle.Effects.{
  Writes, claim-Writes, refund-Writes, consume-Writes, request-Writes, kept-requests,
}
use card_machine.Lifecycle.{
  ProgramCall, request_mint_call, consume_call, claim_call, refund_call, execute, Step, run,
  outside,
}

-- A request that has just been made.
pub record IsFresh (r : MintRequest) : Type 0 where
  pub waiting : r.status ≡ pending
  pub nothing_won : r.total_won_usd ≡ 0
  pub some_cards : 1 ≤ r.amount_of_cards
  pub at_most : r.amount_of_cards ≤ 100

-- A draw: 5.0 to 99.9 dollars for each card, and nothing that was paid for changes.
pub record Draws (r r' : MintRequest) : Type 0 where
  pub was : r.status ≡ pending
  pub is : r'.status ≡ revealed
  pub least : r.amount_of_cards * tier1_min_usd ≤ r'.total_won_usd
  pub most : r'.total_won_usd ≤ r.amount_of_cards * tier4_max_usd
  pub same_user : r'.user ≡ r.user
  pub same_cards : r'.amount_of_cards ≡ r.amount_of_cards
  pub same_mode : r'.payment_mode ≡ r.payment_mode
  pub same_payment : r'.paid_amount ≡ r.paid_amount
  pub same_slot : r'.vrf_request_slot ≡ r.vrf_request_slot

-- What the address of a request may hold before and after a step. A request disappears when it is
-- revealed and claimed, or pending and refunded.
abbrev pub Evolves : Option MintRequest → Option MintRequest → Type 0
Evolves none none = Unit {0}
Evolves none (some r) = IsFresh r
Evolves (some r) none = (r.status ≡ revealed) ⊎ (r.status ≡ pending)
Evolves (some r) (some r') = (r' ≡ r) ⊎ Draws r r'

Evolves-same : (o : Option MintRequest) → Evolves o o
Evolves-same none = tt
Evolves-same (some r) = inl refl

kept-Evolves :
    (w w' : World)
    → KeepsRequests w w'
    → (key : Pubkey) → Evolves (request_at w key) (request_at w' key)
kept-Evolves w w' h key = rw (h key) (Evolves-same (request_at w key))

Writes-Evolves :
    (w w' : World) (address : Pubkey) (before after : Option MintRequest)
    → Writes w w' address before after
    → Evolves before after
    → (key : Pubkey) → Evolves (request_at w key) (request_at w' key)
Writes-Evolves w w' address before after x e key =
    let held = x.held in
    let written = x.written key in
    elim (ℕ_discrete key address) [
      | yes same ↦
          let was : request_at w key ≡ before = ground arith in
          let is : request_at w' key ≡ after = ground arith in rw (was, is) e
      | no other ↦
          let is : request_at w' key ≡ request_at w key = ground arith in
          rw is (Evolves-same (request_at w key))
    ]

module _ (rt : Runtime) (laws : RuntimeLaws rt) (tx : Transaction) where
  reveal-Draws :
      (a : ConsumeAccounts) (result : LotteryResult) (r : MintRequest) (randomness : List ℕ)
      → r.status ≡ pending
      → result.total_won_usd ≡ prizes randomness r.amount_of_cards
      → Draws r (reveal rt tx a result r)
  unfolding reveal
  reveal-Draws a result r randomness waiting total =
      let bounds = prizes_bounds randomness r.amount_of_cards in
      record {
        was = waiting;
        is = refl;
        least = rw total bounds.0;
        most = rw total bounds.1;
        same_user = refl;
        same_cards = refl;
        same_mode = refl;
        same_payment = refl;
        same_slot = refl;
      }

  new_request-IsFresh :
      (a : RequestMintAccounts) (cards : ℕ) (mode : PaymentMode) (slot amount : ℕ)
      (config : IpFlowState)
      → Allowed rt tx a cards slot config
      → IsFresh (new_request rt tx a cards mode slot amount)
  unfolding new_request
  new_request-IsFresh a cards mode slot amount config allow = record {
    waiting = refl;
    nothing_won = refl;
    some_cards = allow.some_cards;
    at_most = allow.at_most;
  }

  execute-Evolves :
      (c : ProgramCall) (w w' : World)
      → execute rt tx c w ≡ ok w'
      → (key : Pubkey) → Evolves (request_at w key) (request_at w' key)
  unfolding execute
  execute-Evolves (request_mint_call a cards mode seed slot) w w' h =
      let (amount, config, allow, x) = request-Writes rt laws tx a cards mode seed slot w w' h in
      Writes-Evolves w w' a.mint_request none (some (new_request rt tx a cards mode slot amount)) x
        (new_request-IsFresh a cards mode slot amount config allow)
  execute-Evolves (consume_call a randomness) w w' h =
      let (r, result, waiting, total, x) = consume-Writes rt laws tx a randomness w w' h in
      Writes-Evolves w w' a.mint_request (some r) (some (reveal rt tx a result r)) x
        (inr (reveal-Draws a result r randomness waiting total))
  execute-Evolves (claim_call a args) w w' h =
      let (r, drawn, x) = claim-Writes rt laws tx a args w w' h in
      Writes-Evolves w w' a.mint_request (some r) none x (inl drawn)
  execute-Evolves (refund_call a slot) w w' h =
      let (r, waiting, x) = refund-Writes rt laws tx a slot w w' h in
      Writes-Evolves w w' a.mint_request (some r) none x (inr waiting)
  execute-Evolves c w w' h = kept-Evolves w w' (kept-requests rt laws tx c w w' tt h)

-- Over a step, each address keeps the request that it holds, or opens one that is pending, with 1
-- to 100 cards and no prize; or its pending request is revealed, with 5.0 to 99.9 dollars for each
-- card and user, cards and payment as they were; or its request, revealed or pending, is closed.
pub Step-Evolves :
    (rt : Runtime) (laws : RuntimeLaws rt) (w w' : World)
    → Step rt w w'
    → (key : Pubkey) → Evolves (request_at w key) (request_at w' key)
Step-Evolves rt laws w w' (run tx c h) key = execute-Evolves rt laws tx c w w' h key
Step-Evolves rt laws w w' (outside keeps) key = kept-Evolves w w' (own_requests keeps) key
