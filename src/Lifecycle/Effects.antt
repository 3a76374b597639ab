-- ===== src/Lifecycle/Effects.antt =====
-- What each instruction on requests does to the request of every address (lib.rs).
use card_machine.Prelude.{if◌then◌else◌, ◌==◌, ℕ, ◌≡◌, Option, none, some, List, arith}
use card_machine.Constants.{Pubkey}
use card_machine.Errors.{ok}
use card_machine.State.{MintRequest, IpFlowState, PaymentMode, pending, revealed}
use card_machine.Runtime.{Runtime, World, Transaction, AccountData}
use card_machine.Runtime.Laws.{RuntimeLaws}
use card_machine.Runtime.Requests.{request_in, request_at, KeepsRequests, own_requests}
use card_machine.Vrf.{LotteryResult}
use card_machine.Vrf.Draw.{prizes}
use card_machine.Oracle.{ConsumeAccounts, reveal, consume_lottery_randomness}
use card_machine.User.Claim.{ClaimAccounts, ClaimArgs, claim}
use card_machine.User.Refund.{RefundAccounts, refund}
use card_machine.User.RequestMint.{RequestMintAccounts, request_mint, new_request}
use card_machine.User.RequestMint.Accepted.{Allowed}
use card_machine.Admin.Frame.{
  initialize-keeps, migrate_config-keeps, close_config-keeps, withdraw_sol-keeps,
  withdraw_token-keeps, add_prize_pool-keeps, remove_prize_pool-keeps, update_prize_pool-keeps,
}
use card_machine.Lifecycle.Leaves.{
  Leaves, claim-Leaves, refund-Leaves, consume-Leaves, request-Leaves,
}
use card_machine.Lifecycle.{
  ProgramCall, initialize_call, migrate_config_call, close_config_call, request_mint_call,
  consume_call, claim_call, refund_call, withdraw_sol_call, withdraw_token_call,
  add_prize_pool_call, remove_prize_pool_call, update_prize_pool_call, execute,
}

-- The request at one address is `before`, and becomes `after`; no other request changes.
pub record Writes (w w' : World) (address : Pubkey) (before after : Option MintRequest)
    : Type 0 where
  pub held : request_at w address ≡ before
  pub written :
      (key : Pubkey) → request_at w' key ≡ (if key == address then after else request_at w key)

Leaves-Writes :
    (w w' : World) (address : Pubkey) (d : AccountData) (before : Option MintRequest)
    → Leaves w w' address d
    → request_at w address ≡ before
    → Writes w w' address before (request_in d)
Leaves-Writes w w' address d before x held = record {
  held = held;
  written = λ key. let same = own_requests x.keeps key in let left = x.left key in ground arith;
}

-- A call that is not about a request.
abbrev pub IsAdministrative : ProgramCall → Type 0
IsAdministrative (request_mint_call a cards mode seed slot) = ⊥
IsAdministrative (consume_call a randomness) = ⊥
IsAdministrative (claim_call a args) = ⊥
IsAdministrative (refund_call a slot) = ⊥
IsAdministrative _ = Unit {0}

module _ (rt : Runtime) (laws : RuntimeLaws rt) (tx : Transaction) where
  pub claim-Writes :
      (a : ClaimAccounts) (args : ClaimArgs) (w w' : World)
      → claim rt tx a args w ≡ ok w'
      → (r : MintRequest) × (r.status ≡ revealed) × Writes w w' a.mint_request (some r) none
  claim-Writes a args w w' h =
      let (r, drawn, held, x) = claim-Leaves rt laws tx a args w w' h in
      (r, drawn, Leaves-Writes w w' a.mint_request _ (some r) x held)

  pub refund-Writes :
      (a : RefundAccounts) (slot : ℕ) (w w' : World)
      → refund rt tx a slot w ≡ ok w'
      → (r : MintRequest) × (r.status ≡ pending) × Writes w w' a.mint_request (some r) none
  refund-Writes a slot w w' h =
      let (r, waiting, held, x) = refund-Leaves rt laws tx a slot w w' h in
      (r, waiting, Leaves-Writes w w' a.mint_request _ (some r) x held)

  pub consume-Writes :
      (a : ConsumeAccounts) (randomness : List ℕ) (w w' : World)
      → consume_lottery_randomness rt tx a randomness w ≡ ok w'
      → (r : MintRequest) × (result : LotteryResult) × (r.status ≡ pending)
        × (result.total_won_usd ≡ prizes randomness r.amount_of_cards)
        × Writes w w' a.mint_request (some r) (some (reveal rt tx a result r))
  consume-Writes a randomness w w' h =
      let (r, result, waiting, total, held, x) = consume-Leaves rt laws tx a randomness w w' h in
      (r, result, waiting, total, Leaves-Writes w w' a.mint_request _ (some r) x held)

  pub request-Writes :
      (a : RequestMintAccounts) (cards : ℕ) (mode : PaymentMode) (seed slot : ℕ) (w w' : World)
      → request_mint rt tx a cards mode seed slot w ≡ ok w'
      → (amount : ℕ) × (config : IpFlowState) × Allowed rt tx a cards slot config
        × Writes w w' a.mint_request none (some (new_request rt tx a cards mode slot amount))
  request-Writes a cards mode seed slot w w' h =
      let (amount, config, allow, held, x) =
        request-Leaves rt laws tx a cards mode seed slot w w' h in
      (amount, config, allow, Leaves-Writes w w' a.mint_request _ none x held)

  pub kept-requests :
      (c : ProgramCall) (w w' : World)
      → IsAdministrative c
      → execute rt tx c w ≡ ok w'
      → KeepsRequests w w'
  unfolding execute
  kept-requests (request_mint_call a cards mode seed slot) w w' is h = absurd is
  kept-requests (consume_call a randomness) w w' is h = absurd is
  kept-requests (claim_call a args) w w' is h = absurd is
  kept-requests (refund_call a slot) w w' is h = absurd is
  kept-requests (initialize_call a fee) w w' is h = initialize-keeps rt laws tx a fee w w' h
  kept-requests (migrate_config_call a count) w w' is h =
      migrate_config-keeps rt laws tx a count w w' h
  kept-requests (close_config_call a) w w' is h = close_config-keeps rt laws tx a w w' h
  kept-requests (withdraw_sol_call a amount) w w' is h =
      withdraw_sol-keeps rt laws tx a amount w w' h
  kept-requests (withdraw_token_call a amount) w w' is h =
      withdraw_token-keeps rt laws tx a amount w w' h
  kept-requests (add_prize_pool_call a pool type name) w w' is h =
      add_prize_pool-keeps rt laws tx a pool type name w w' h
  kept-requests (remove_prize_pool_call a) w w' is h = remove_prize_pool-keeps rt laws tx a w w' h
  kept-requests (update_prize_pool_call a pool type name) w w' is h =
      update_prize_pool-keeps rt laws tx a pool type name w w' h
