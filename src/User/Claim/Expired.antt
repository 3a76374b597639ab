-- ===== src/User/Claim/Expired.antt =====
-- Requests whose prize was not claimed within a day (instructions/user/claim.rs, refund.rs).
use card_machine.Prelude.{ℕ, ◌≡◌, ◌≢◌, false, arith}
use card_machine.Prelude.Int.{ℤ, pos, ltb_ℤ}
use card_machine.Constants.{claim_timeout_seconds}
use card_machine.Errors.{ok}
use card_machine.Words.{sub_i64}
use card_machine.State.{MintRequest, revealed}
use card_machine.Runtime.{Runtime, World, Transaction, AccountData}
use card_machine.Runtime.Laws.{RuntimeLaws}
use card_machine.User.Claim.{ClaimAccounts, ClaimArgs, claim}
use card_machine.User.Claim.Paid.{claimed_lem}
use card_machine.User.Refund.{RefundAccounts, refund}
use card_machine.User.Refund.Timeout.{refund_pays_back}

-- A revealed request whose draw is a day old or older.
pub record IsExpired (rt : Runtime) (tx : Transaction) (r : MintRequest) : Type 0 where
  pub drawn : r.status ≡ revealed
  pub age : ℤ
  pub waited : sub_i64 rt.overflow_checks tx.clock.unix_timestamp r.revealed_at ≡ ok age
  pub late : ltb_ℤ age (pos claim_timeout_seconds) ≡ false

expired-claim :
    (rt : Runtime) (tx : Transaction) (r : MintRequest) (a : ClaimAccounts) (args : ClaimArgs)
    (w w' : World)
    → w.account a.mint_request ≡ AccountData.mint_request r
    → IsExpired rt tx r
    → claim rt tx a args w ≢ ok w'
expired-claim rt tx r a args w w' stored x h =
    let (request, config, payout, c) = claimed_lem rt tx a args w w' h in
    let here = c.accepts.stored in
    let age = c.in_time.age in
    let soon = c.in_time.soon in let late = x.late in let waited = x.waited in ground arith

expired-refund :
    (rt : Runtime) (laws : RuntimeLaws rt) (tx : Transaction) (r : MintRequest) (b : RefundAccounts)
    (slot : ℕ) (w w' : World)
    → w.account b.mint_request ≡ AccountData.mint_request r
    → IsExpired rt tx r
    → refund rt tx b slot w ≢ ok w'
expired-refund rt laws tx r b slot w w' stored x h =
    let (request, config, paid, acc, late, took, e) = refund_pays_back rt laws tx b slot w w' h in
    let here = acc.stored in let waiting = late.waiting in let drawn = x.drawn in ground arith

-- A request that was revealed a day ago or earlier can be neither claimed nor refunded, whatever
-- accounts and arguments are passed with it.
pub expired_stuck :
    (rt : Runtime) (laws : RuntimeLaws rt) (tx : Transaction) (r : MintRequest) (a : ClaimAccounts)
    (args : ClaimArgs) (b : RefundAccounts) (slot : ℕ) (w w' : World)
    → w.account a.mint_request ≡ AccountData.mint_request r
    → w.account b.mint_request ≡ AccountData.mint_request r
    → IsExpired rt tx r
    → (claim rt tx a args w ≢ ok w') × (refund rt tx b slot w ≢ ok w')
expired_stuck rt laws tx r a args b slot w w' at_claim at_refund x = (
  expired-claim rt tx r a args w w' at_claim x,
  expired-refund rt laws tx r b slot w w' at_refund x,
)
