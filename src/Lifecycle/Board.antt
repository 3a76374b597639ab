-- ===== src/Lifecycle/Board.antt =====
-- An abstract machine of requests: a board says of each address whether a request waits there for
-- its draw, is drawn, or is absent. An instruction of lib.rs moves at most one address.
use card_machine.Prelude.{
  ◌≡◌, refl, ap, sym, ◌∙◌, fun_ext, Bool, true, false, if◌then◌else◌, Option, none, some, List, [],
  ◌∷◌, arith,
}
use card_machine.Constants.{Pubkey}
use card_machine.Errors.{ok}
use card_machine.State.{MintRequest, RequestStatus}
use card_machine.Runtime.{Runtime, World, Transaction, update}
use card_machine.Runtime.Laws.{RuntimeLaws}
use card_machine.Runtime.Requests.{request_at, KeepsRequests, own_requests}
use card_machine.Oracle.{reveal}
use card_machine.User.RequestMint.{new_request}
use card_machine.Lifecycle.Effects.{
  Writes, claim-Writes, refund-Writes, consume-Writes, request-Writes, kept-requests,
}
use card_machine.Lifecycle.{
  ProgramCall, request_mint_call, consume_call, claim_call, refund_call, execute, run, outside,
  Trace, begin, next,
}

pub data Phase : Type 0 where
  absent waiting drawn finished : Phase

abbrev phase_of : RequestStatus → Phase
phase_of RequestStatus.pending = waiting
phase_of RequestStatus.revealed = drawn
phase_of _ = finished

abbrev phase_in : Option MintRequest → Phase
phase_in none = absent
phase_in (some r) = phase_of r.status

abbrev pub Board : Type 0
Board = Pubkey → Phase

abbrev pub board_of : World → Board
board_of w key = phase_in (request_at w key)

abbrev same_phase : Phase → Phase → Bool
same_phase absent absent = true
same_phase waiting waiting = true
same_phase drawn drawn = true
same_phase finished finished = true
same_phase _ _ = false

-- An address goes from one phase to another, if it is in the first.
abbrev move : Pubkey → Phase → Phase → Board → Option Board
move key from to b = if same_phase (b key) from then some (update b key to) else none

-- What a call does to the board.
abbrev pub move_of : ProgramCall → Board → Option Board
move_of (request_mint_call a cards mode seed slot) b = move a.mint_request absent waiting b
move_of (consume_call a randomness) b = move a.mint_request waiting drawn b
move_of (claim_call a args) b = move a.mint_request drawn absent b
move_of (refund_call a slot) b = move a.mint_request waiting absent b
move_of _ b = some b

-- Calls one after another, the latest first.
abbrev pub play : List ProgramCall → Board → Option Board
play [] b = some b
play (c ∷ earlier) b = elim (play earlier b) [ none ↦ none | some between ↦ move_of c between ]

abbrev pub calls_of : {rt : Runtime} {start w : World} → Trace rt start w → List ProgramCall
calls_of begin = []
calls_of (next t (run tx c h)) = c ∷ calls_of t
calls_of (next t (outside keeps)) = calls_of t

-- A write that moves the address from one phase to another.
written_move :
    (w w' : World) (key : Pubkey) (before after : Option MintRequest) (from to : Phase)
    → Writes w w' key before after
    → same_phase (phase_in before) from ≡ true
    → phase_in after ≡ to
    → move key from to (board_of w) ≡ some (board_of w')
written_move w w' key before after from to x is e =
    let test : same_phase (board_of w key) from ≡ true = rw x.held is in
    let moved : update (board_of w) key to ≡ board_of w' =
      fun_ext (λ k. let written = x.written k in ground arith) in
    rw test (ap some moved)

kept_board : (w w' : World) → KeepsRequests w w' → some (board_of w) ≡ some (board_of w')
kept_board w w' keeps = ap some (fun_ext (λ key. ap phase_in (sym (keeps key))))

module _ (rt : Runtime) (laws : RuntimeLaws rt) where
  execute_move :
      (tx : Transaction) (c : ProgramCall) (w w' : World)
      → execute rt tx c w ≡ ok w'
      → move_of c (board_of w) ≡ some (board_of w')
  unfolding execute new_request reveal
  execute_move tx (request_mint_call a cards mode seed slot) w w' h =
      let (amount, config, allow, x) = request-Writes rt laws tx a cards mode seed slot w w' h in
      written_move w w' a.mint_request none _ absent waiting x refl refl
  execute_move tx (consume_call a randomness) w w' h =
      let (r, result, is, total, x) = consume-Writes rt laws tx a randomness w w' h in
      written_move w w' a.mint_request (some r) _ waiting drawn x (ground arith) refl
  execute_move tx (claim_call a args) w w' h =
      let (r, is, x) = claim-Writes rt laws tx a args w w' h in
      written_move w w' a.mint_request (some r) none drawn absent x (ground arith) refl
  execute_move tx (refund_call a slot) w w' h =
      let (r, is, x) = refund-Writes rt laws tx a slot w w' h in
      written_move w w' a.mint_request (some r) none waiting absent x (ground arith) refl
  execute_move tx c w w' h = kept_board w w' (kept-requests rt laws tx c w w' tt h)

  -- Whatever instructions of the program and other transactions follow, the calls among them,
  -- played on the board of requests of the first world, are all legal and give the board of the
  -- last world. On the board a request makes an absent address waiting, the callback makes a
  -- waiting one drawn, a claim makes a drawn one absent and a refund a waiting one, and no other
  -- instruction moves.
  pub trace_plays :
      (start w : World) (t : Trace rt start w)
      → play (calls_of t) (board_of start) ≡ some (board_of w)
  trace_plays start w begin = refl
  trace_plays start w' (next {w} t (run tx c h)) =
      rw (trace_plays start w t) (execute_move tx c w w' h)
  trace_plays start w' (next {w} t (outside keeps)) =
      trace_plays start w t ∙ kept_board w w' (own_requests keeps)
