-- ===== src/Runtime/Requests.antt =====
-- The requests that a world stores, and what leaves them as they are.
use card_machine.Prelude.{◌≡◌, ap, sym, ◌∙◌, Option, none, some, arith}
use card_machine.Constants.{Pubkey}
use card_machine.State.{MintRequest}
use card_machine.Runtime.{World, AccountData}
use card_machine.Runtime.Laws.{KeepsOwn, own}

abbrev pub request_in : AccountData → Option MintRequest
request_in (AccountData.mint_request r) = some r
request_in _ = none

abbrev pub request_at : World → Pubkey → Option MintRequest
request_at w key = request_in (w.account key)

-- Every account that holds a request goes on to hold it, and no other begins to.
abbrev pub KeepsRequests : World → World → Type 0
KeepsRequests w w' = (key : Pubkey) → request_at w' key ≡ request_at w key

request_in-own : (d : AccountData) → request_in (own d) ≡ request_in d
request_in-own d = ground arith

pub own_requests : {w w' : World} → KeepsOwn w w' → KeepsRequests w w'
own_requests {w} {w'} h key =
    sym (request_in-own (w'.account key))
    ∙ (ap request_in (h.accounts key) ∙ request_in-own (w.account key))
