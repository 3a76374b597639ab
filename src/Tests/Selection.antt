-- ===== src/Tests/Selection.antt =====
-- A draw among the pools that have an account.
use card_machine.Prelude.{◌≡◌, refl, true, [], ◌∷◌, ◌==◌, Bool-cases, inl, inr, arith}
use card_machine.Constants.{Pubkey}
use card_machine.Errors.{Result}
use card_machine.State.{MintRequest, pending}
use card_machine.Runtime.{World, AccountData, store}
use card_machine.Runtime.Requests.{request_in}
use card_machine.Runtime.Sample.{sample}
use card_machine.Runtime.Sample.Lawful.{sample-RuntimeLaws}
use card_machine.Vrf.{
  derive_random_result, map_to_tiered_distribution, tier_of_roll, prize_of_step, draw_cards,
  select_active_prize_pool, process_vrf_result,
}
use card_machine.Oracle.{reveal, consume_handler, consume_lottery_randomness}
use card_machine.Lifecycle.Invariant.{WorldIsValid, StoredIsValid, RequestIsValid}
use card_machine.Lifecycle.Settings.{written_valid}
use card_machine.Lifecycle.PoolAccounts.{SettingsHold}
use card_machine.Lifecycle.Selection.{HasPrize, consume-HasPrize}
use card_machine.Tests.{
  is_ok, settings, empty_world, request_key, signed_by, request_with, world_after, succeeded,
}
use card_machine.Tests.Draws.{bytes, callback}
use card_machine.Tests.Calls.{pool_of, pools_world, pools-AllValid}
use card_machine.Tests.Admin.{settings-Represents}
use card_machine.Tests.Traces.{empty_valid}

stored_valid :
    (w : World) (key : Pubkey) (d : AccountData)
    → WorldIsValid w
    → StoredIsValid (request_in d)
    → WorldIsValid (store key d w)
stored_valid w key d all this k = elim (Bool-cases (k == key)) [
  | inl here ↦ rw here this
  | inr other ↦ rw other (all k)
]

abbrev waiting : MintRequest
waiting = request_with pending 0

abbrev ready_world : World
ready_world = store request_key (AccountData.mint_request waiting) pools_world

waiting-RequestIsValid : RequestIsValid waiting
waiting-RequestIsValid = record {
  some_cards = omega arith;
  at_most = omega arith;
  prize = inl (refl, refl);
}

ready_valid : WorldIsValid ready_world
ready_valid =
    stored_valid pools_world request_key (AccountData.mint_request waiting)
      (stored_valid (store 202 (pool_of 2) (store 203 (pool_of 3) empty_world)) 200 (pool_of 0)
        (stored_valid (store 203 (pool_of 3) empty_world) 202 (pool_of 2)
          (stored_valid empty_world 203 (pool_of 3) empty_valid tt) tt)
        tt)
      waiting-RequestIsValid

ready-SettingsHold : SettingsHold sample ready_world
ready-SettingsHold = record {
  valid =
      written_valid pools_world request_key (AccountData.mint_request waiting) pools-AllValid tt;
  consistent = record {
    pools = 0 ∷ 2 ∷ 3 ∷ [];
    active = settings-Represents;
    stored = (refl, (refl, (refl, tt)));
    distinct = ground arith;
  };
}

abbrev drawn : Result World
drawn = consume_lottery_randomness sample (signed_by 10) callback bytes ready_world

drawn_runs : is_ok drawn ≡ true
unfolding consume_lottery_randomness consume_handler reveal process_vrf_result draw_cards
    select_active_prize_pool map_to_tiered_distribution tier_of_roll prize_of_step
    derive_random_result
drawn_runs = refl

consume-HasPrize_example :
    (r : MintRequest) × HasPrize sample request_key (world_after drawn ready_world) r
consume-HasPrize_example =
    consume-HasPrize sample sample-RuntimeLaws (signed_by 10) callback bytes settings ready_world
      (world_after drawn ready_world) ready-SettingsHold ready_valid refl (omega arith)
      (succeeded drawn ready_world drawn_runs)
