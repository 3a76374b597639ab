-- ===== src/Lifecycle/Leaves.antt =====
-- What each instruction on requests writes to the accounts of the program (lib.rs).
use card_machine.Prelude.{if◌then◌else◌, ◌==◌, ℕ, ◌+◌, ◌≡◌, refl, none, some, List, arith}
use card_machine.Constants.{Pubkey}
use card_machine.Errors.{ok}
use card_machine.State.{MintRequest, IpFlowState, PaymentMode, pending, revealed}
use card_machine.Runtime.{Runtime, World, Transaction, AccountData, Seeds, request_randomness}
use card_machine.Runtime.Laws.{RuntimeLaws, KeepsOwn, keeps_same, keeps_trans}
use card_machine.Runtime.Transfers.{invoke_signed-keeps}
use card_machine.Runtime.Requests.{request_at}
use card_machine.Vrf.{LotteryResult}
use card_machine.Vrf.Draw.{prizes}
use card_machine.Oracle.{ConsumeAccounts, reveal, consume_lottery_randomness}
use card_machine.Oracle.Reveal.{consumed}
use card_machine.User.Claim.{ClaimAccounts, ClaimArgs, claim}
use card_machine.User.Claim.Paid.{claimed_lem}
use card_machine.User.Claim.Frame.{pay_out-keeps}
use card_machine.User.Refund.{RefundAccounts, refund}
use card_machine.User.Refund.Timeout.{TookBack, refund_pays_back}
use card_machine.User.RequestMint.{
  RequestMintAccounts, request_mint, new_request, vrf_params, mint_request_space,
}
use card_machine.User.RequestMint.Accepted.{Allowed}
use card_machine.User.RequestMint.Paid.{Paid, request_mint_pays}

-- One account has the contents `d`, and every other account of the program is as it was.
pub record Leaves (w w' : World) (address : Pubkey) (d : AccountData) : Type 0 where
  pub kept : World
  pub keeps : KeepsOwn w kept
  pub left : (key : Pubkey) → w'.account key ≡ (if key == address then d else kept.account key)

module _ (rt : Runtime) (laws : RuntimeLaws rt) (tx : Transaction) where
  TookBack-keeps :
      (a : RefundAccounts) (mode : PaymentMode) (amount : ℕ) (w w' : World)
      → TookBack rt tx a mode amount w w'
      → KeepsOwn w w'
  TookBack-keeps a PaymentMode.sol amount w w' (enough, moved) =
      rw moved (record { accounts = λ k. refl; events = refl })
  TookBack-keeps a PaymentMode.usdt amount w w' (v, u, back) = laws.invoke_keeps _ _ w w' back.sent

  Paid-keeps :
      (a : RequestMintAccounts) (mode : PaymentMode) (cards amount : ℕ) (loaded w w' : World)
      → Paid rt tx a mode cards amount loaded w w'
      → KeepsOwn w w'
  Paid-keeps a PaymentMode.sol cards amount loaded w w' (price, enough, moved) =
      rw moved (record { accounts = λ k. refl; events = refl })
  Paid-keeps a PaymentMode.usdt cards amount loaded w w' (v, u, paid) =
      laws.invoke_keeps _ _ w w' paid.sent

  pub claim-Leaves :
      (a : ClaimAccounts) (args : ClaimArgs) (w w' : World)
      → claim rt tx a args w ≡ ok w'
      → (r : MintRequest) × (r.status ≡ revealed)
        × (request_at w a.mint_request ≡ some r)
        × Leaves w w' a.mint_request AccountData.vacant
  claim-Leaves a args w w' h =
      let (request, config, payout, c) = claimed_lem rt tx a args w w' h in
      let stored = c.accepts.stored in
      let result = c.result in
      (
        request,
        c.accepts.drawn,
        ground arith,
        record {
          kept = payout.world;
          keeps = pay_out-keeps rt laws tx a args.payout_mode args config request w payout c.paid;
          left = λ key. ground arith;
        },
      )

  pub refund-Leaves :
      (a : RefundAccounts) (slot : ℕ) (w w' : World)
      → refund rt tx a slot w ≡ ok w'
      → (r : MintRequest) × (r.status ≡ pending)
        × (request_at w a.mint_request ≡ some r)
        × Leaves w w' a.mint_request AccountData.vacant
  refund-Leaves a slot w w' h =
      let (request, config, paid, acc, late, took, e) = refund_pays_back rt laws tx a slot w w' h in
      let stored = acc.stored in
      (
        request,
        late.waiting,
        ground arith,
        record {
          kept = paid;
          keeps = TookBack-keeps a request.payment_mode request.paid_amount w paid took;
          left = λ key. ground arith;
        },
      )

  pub consume-Leaves :
      (a : ConsumeAccounts) (randomness : List ℕ) (w w' : World)
      → consume_lottery_randomness rt tx a randomness w ≡ ok w'
      → (r : MintRequest) × (result : LotteryResult) × (r.status ≡ pending)
        × (result.total_won_usd ≡ prizes randomness r.amount_of_cards)
        × (request_at w a.mint_request ≡ some r)
        × Leaves w w' a.mint_request (AccountData.mint_request (reveal rt tx a result r))
  consume-Leaves a randomness w w' h =
      let (request, config, result, acc, total, drawn_as, e) = consumed rt tx a randomness w w' h in
      let stored = acc.stored in
      (
        request,
        result,
        acc.waiting,
        total,
        ground arith,
        record { kept = w; keeps = keeps_same w; left = λ key. ground arith },
      )

  pub request-Leaves :
      (a : RequestMintAccounts) (cards : ℕ) (mode : PaymentMode) (seed slot : ℕ) (w w' : World)
      → request_mint rt tx a cards mode seed slot w ≡ ok w'
      → (amount : ℕ) × (config : IpFlowState) × Allowed rt tx a cards slot config
        × (request_at w a.mint_request ≡ none)
        × Leaves w w' a.mint_request
            (AccountData.mint_request (new_request rt tx a cards mode slot amount))
  request-Leaves a cards mode seed slot w w' h =
      let (
        config, created, paid, requested, amount, acc, free, allow, payment, params, asked, records,
        e,
      ) =
        request_mint_pays rt laws tx a cards mode seed slot w w' h in
      let opened =
        (laws.create_keeps a.user a.mint_request (8 + mint_request_space) w created acc.opened).0 in
      (
        amount,
        config,
        allow,
        ground arith,
        record {
          kept = requested;
          keeps = keeps_trans opened (
              keeps_trans (Paid-keeps a mode cards amount w created paid payment) (
                invoke_signed-keeps rt laws (request_randomness (vrf_params rt tx a seed)) tx
                  Seeds.identity (rt.find_program_address Seeds.identity).1 paid requested asked));
          left = λ key. ground arith;
        },
      )
