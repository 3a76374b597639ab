-- ===== src/Lifecycle/Accounting.antt =====
-- How often a request is made, drawn, claimed and refunded (lib.rs).
use card_machine.Prelude.{ℕ, ◌+◌, ◌≡◌, refl, Option, none, some, arith, ◌==◌, if◌then◌else◌}
use card_machine.Constants.{Pubkey}
use card_machine.Errors.{ok}
use card_machine.State.{MintRequest, is_revealed}
use card_machine.Runtime.{Runtime, World, Transaction}
use card_machine.Runtime.Laws.{RuntimeLaws}
use card_machine.Runtime.Requests.{request_at, own_requests}
use card_machine.Oracle.{reveal}
use card_machine.User.RequestMint.{new_request}
use card_machine.Lifecycle.{
  ProgramCall, request_mint_call, consume_call, claim_call, refund_call, execute, Step, run,
  outside, Trace, begin, next,
}
use card_machine.Lifecycle.Effects.{
  claim-Writes, refund-Writes, consume-Writes, request-Writes, kept-requests,
}

-- 1 for a call that does one thing to the request of an address, 0 for any other.
abbrev pub requests_by : Pubkey → ProgramCall → ℕ
requests_by key (request_mint_call a cards mode seed slot) = if key == a.mint_request then 1 else 0
requests_by key _ = 0

abbrev pub draws_by : Pubkey → ProgramCall → ℕ
draws_by key (consume_call a randomness) = if key == a.mint_request then 1 else 0
draws_by key _ = 0

abbrev pub claims_by : Pubkey → ProgramCall → ℕ
claims_by key (claim_call a args) = if key == a.mint_request then 1 else 0
claims_by key _ = 0

abbrev pub refunds_by : Pubkey → ProgramCall → ℕ
refunds_by key (refund_call a slot) = if key == a.mint_request then 1 else 0
refunds_by key _ = 0

-- Whether an address holds a request, and whether it holds a revealed one.
abbrev pub is_open : Option MintRequest → ℕ
is_open none = 0
is_open (some r) = 1

abbrev pub is_drawn : Option MintRequest → ℕ
is_drawn none = 0
is_drawn (some r) = if is_revealed r.status then 1 else 0

-- What the calls have done so far, and what the world holds, at one address.
pub record Balance (requests draws claims refunds : ℕ) (before after : Option MintRequest)
    : Type 0 where
  pub ends : is_open before + requests ≡ is_open after + claims + refunds
  pub payouts : is_drawn before + draws ≡ is_drawn after + claims

-- The balance of one call.
abbrev CallBalance : Pubkey → ProgramCall → World → World → Type 0
CallBalance key c w w' =
    Balance (requests_by key c) (draws_by key c) (claims_by key c) (refunds_by key c)
      (request_at w key) (request_at w' key)

kept-Balance :
    (w w' : World) (key : Pubkey)
    → request_at w' key ≡ request_at w key
    → Balance 0 0 0 0 (request_at w key) (request_at w' key)
kept-Balance w w' key e = rw e (record { ends = omega arith; payouts = omega arith })

module _ (rt : Runtime) (laws : RuntimeLaws rt) (tx : Transaction) (key : Pubkey) where
  call_balance :
      (c : ProgramCall) (w w' : World) → execute rt tx c w ≡ ok w' → CallBalance key c w w'
  unfolding execute reveal new_request
  call_balance (request_mint_call a cards mode seed slot) w w' h =
      let (amount, config, allow, x) = request-Writes rt laws tx a cards mode seed slot w w' h in
      let held = x.held in let written = x.written key in ground arith
  call_balance (consume_call a randomness) w w' h =
      let (r, result, waiting, total, x) = consume-Writes rt laws tx a randomness w w' h in
      let held = x.held in let written = x.written key in ground arith
  call_balance (claim_call a args) w w' h =
      let (r, drawn, x) = claim-Writes rt laws tx a args w w' h in
      let held = x.held in let written = x.written key in ground arith
  call_balance (refund_call a slot) w w' h =
      let (r, waiting, x) = refund-Writes rt laws tx a slot w w' h in
      let held = x.held in let written = x.written key in ground arith
  call_balance c w w' h = kept-Balance w w' key (kept-requests rt laws tx c w w' tt h key)

step_sum : {rt : Runtime} {w w' : World} → (ProgramCall → ℕ) → Step rt w w' → ℕ
step_sum f (run tx c h) = f c
step_sum f (outside keeps) = 0

-- A quantity added up over the calls of a trace.
pub trace_sum : {rt : Runtime} {start w : World} → (ProgramCall → ℕ) → Trace rt start w → ℕ
trace_sum f begin = 0
trace_sum f (next t s) = trace_sum f t + step_sum f s

-- The balance of a trace at one address.
abbrev pub TraceBalance : (rt : Runtime) (start w : World) → Trace rt start w → Pubkey → Type 0
TraceBalance rt start w t key =
    Balance (trace_sum (requests_by key) t) (trace_sum (draws_by key) t)
      (trace_sum (claims_by key) t) (trace_sum (refunds_by key) t) (request_at start key)
      (request_at w key)

join-Balance :
    (r d c f r' d' c' f' : ℕ) (before between after : Option MintRequest)
    → Balance r d c f before between
    → Balance r' d' c' f' between after
    → Balance (r + r') (d + d') (c + c') (f + f') before after
join-Balance r d c f r' d' c' f' before between after x y = record {
  ends = omega (arith, x.ends, y.ends);
  payouts = omega (arith, x.payouts, y.payouts);
}

Step-Balance :
    (rt : Runtime) (laws : RuntimeLaws rt) (w w' : World) (s : Step rt w w') (key : Pubkey)
    → Balance
        (step_sum (requests_by key) s)
        (step_sum (draws_by key) s)
        (step_sum (claims_by key) s)
        (step_sum (refunds_by key) s)
        (request_at w key)
        (request_at w' key)
unfolding step_sum
Step-Balance rt laws w w' (run tx c h) key = call_balance rt laws tx key c w w' h
Step-Balance rt laws w w' (outside keeps) key = kept-Balance w w' key (own_requests keeps key)

-- Along every trace of the program's instructions and of other transactions, at every address: the
-- requests open before and the requests made are as many as the requests open after, the claims
-- and the refunds together; the drawn requests before and the draws are as many as the drawn
-- requests after and the claims together. So no request ends twice, and each claim has a draw of
-- its own.
pub trace_balance :
    (rt : Runtime) (laws : RuntimeLaws rt) (start w : World) (t : Trace rt start w) (key : Pubkey)
    → TraceBalance rt start w t key
unfolding trace_sum
trace_balance rt laws start w begin key = kept-Balance start start key refl
trace_balance rt laws start w' (next {w} t s) key =
    join-Balance (trace_sum (requests_by key) t) (trace_sum (draws_by key) t)
      (trace_sum (claims_by key) t) (trace_sum (refunds_by key) t) (step_sum (requests_by key) s)
      (step_sum (draws_by key) s) (step_sum (claims_by key) s) (step_sum (refunds_by key) s)
      (request_at start key) (request_at w key) (request_at w' key)
      (trace_balance rt laws start w t key) (Step-Balance rt laws w w' s key)
