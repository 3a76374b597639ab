-- ===== src/Lifecycle/Invariant.antt =====
-- Valid requests, along the steps of the ledger (lib.rs).
use card_machine.Prelude.{◌*◌, ◌≤◌, ◌≡◌, ◌⊎◌, inl, inr, Option, none, some}
use card_machine.Constants.{Pubkey, tier1_min_usd, tier4_max_usd}
use card_machine.State.{MintRequest, pending, revealed}
use card_machine.Runtime.{Runtime, World}
use card_machine.Runtime.Laws.{RuntimeLaws}
use card_machine.Runtime.Requests.{request_at}
use card_machine.Lifecycle.{Trace, begin, next, Step}
use card_machine.Lifecycle.Status.{IsFresh, Draws, Evolves, Step-Evolves}

-- A request is valid when it is for 1 to 100 cards, and either waits with no prize or is revealed
-- with a prize in range.
pub record RequestIsValid (r : MintRequest) : Type 0 where
  pub some_cards : 1 ≤ r.amount_of_cards
  pub at_most : r.amount_of_cards ≤ 100
  pub prize :
      ((r.status ≡ pending) × (r.total_won_usd ≡ 0))
      ⊎ ((r.status ≡ revealed)
          × (r.amount_of_cards * tier1_min_usd ≤ r.total_won_usd)
          × (r.total_won_usd ≤ r.amount_of_cards * tier4_max_usd))

abbrev pub StoredIsValid : Option MintRequest → Type 0
StoredIsValid none = Unit {0}
StoredIsValid (some r) = RequestIsValid r

-- Every request in the world is valid.
abbrev pub WorldIsValid : World → Type 0
WorldIsValid w = (key : Pubkey) → StoredIsValid (request_at w key)

fresh_valid : (r : MintRequest) → IsFresh r → RequestIsValid r
fresh_valid r f = record {
  some_cards = f.some_cards;
  at_most = f.at_most;
  prize = inl (f.waiting, f.nothing_won);
}

drawn_valid : (r r' : MintRequest) → Draws r r' → RequestIsValid r → RequestIsValid r'
drawn_valid r r' d v = record {
  some_cards = rw d.same_cards v.some_cards;
  at_most = rw d.same_cards v.at_most;
  prize = inr (d.is, rw d.same_cards d.least, rw d.same_cards d.most);
}

evolved_valid : (o o' : Option MintRequest) → Evolves o o' → StoredIsValid o → StoredIsValid o'
evolved_valid none none e v = tt
evolved_valid none (some r) e v = fresh_valid r e
evolved_valid (some r) none e v = tt
evolved_valid (some r) (some r') (inl same) v = rw same v
evolved_valid (some r) (some r') (inr d) v = drawn_valid r r' d v

Step-WorldIsValid :
    (rt : Runtime) (laws : RuntimeLaws rt) (w w' : World)
    → Step rt w w'
    → WorldIsValid w
    → WorldIsValid w'
Step-WorldIsValid rt laws w w' s v key =
    evolved_valid (request_at w key) (request_at w' key) (Step-Evolves rt laws w w' s key) (v key)

-- Whatever instructions of the program and other transactions follow, in any order, on a world of
-- valid requests, every request that is stored is for 1 to 100 cards, and it either waits with no
-- prize or is revealed with 5.0 to 99.9 dollars for each card.
pub Trace-WorldIsValid :
    (rt : Runtime) (laws : RuntimeLaws rt) (start w : World)
    → Trace rt start w
    → WorldIsValid start
    → WorldIsValid w
Trace-WorldIsValid rt laws start w begin v = v
Trace-WorldIsValid rt laws start w' (next {w} before s) v =
    Step-WorldIsValid rt laws w w' s (Trace-WorldIsValid rt laws start w before v)
