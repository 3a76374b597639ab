-- ===== src/Tests/Commute.antt =====
-- Two callbacks in either order.
use card_machine.Prelude.{ℕ, ◌≡◌, refl, true, List, replicate, arith}
use card_machine.Errors.{Result, ok}
use card_machine.State.{pending}
use card_machine.Runtime.{World, AccountData, store}
use card_machine.Runtime.Sample.{sample}
use card_machine.Vrf.{
  derive_random_result, map_to_tiered_distribution, tier_of_roll, prize_of_step, draw_cards,
  select_active_prize_pool, process_vrf_result,
}
use card_machine.Oracle.{ConsumeAccounts, reveal, consume_handler, consume_lottery_randomness}
use card_machine.Oracle.Commute.{SameLedger, consume-commute}
use card_machine.Tests.{is_ok, pending_world, request_with, signed_by, world_after, succeeded}
use card_machine.Tests.Draws.{bytes, callback}

abbrev other_callback : ConsumeAccounts
other_callback = record { vrf_program_identity = 10; mint_request = 2000; config = 101 }

abbrev other_bytes : List ℕ
other_bytes = replicate 32 7

abbrev two_waiting : World
two_waiting = store 2000 (AccountData.mint_request (request_with pending 0)) pending_world

abbrev first_drawn : Result World
first_drawn = consume_lottery_randomness sample (signed_by 10) callback bytes two_waiting

first_drawn_runs : is_ok first_drawn ≡ true
unfolding consume_lottery_randomness consume_handler reveal process_vrf_result draw_cards
    select_active_prize_pool map_to_tiered_distribution tier_of_roll prize_of_step
    derive_random_result
first_drawn_runs = refl

abbrev one_drawn : World
one_drawn = world_after first_drawn two_waiting

abbrev both_drawn : Result World
both_drawn = consume_lottery_randomness sample (signed_by 10) other_callback other_bytes one_drawn

both_drawn_runs : is_ok both_drawn ≡ true
unfolding consume_lottery_randomness consume_handler reveal process_vrf_result draw_cards
    select_active_prize_pool map_to_tiered_distribution tier_of_roll prize_of_step
    derive_random_result
both_drawn_runs = refl

two_requests : ¬ ◌≡◌ {A = ℕ} callback.mint_request other_callback.mint_request
two_requests = ground arith

consume-commute_example :
    (v : World) × (u : World) × (consume_lottery_randomness sample
        (signed_by 10)
        other_callback
        other_bytes
        two_waiting
      ≡ ok v)
    × (consume_lottery_randomness sample (signed_by 10) callback bytes v ≡ ok u)
    × SameLedger (world_after both_drawn one_drawn) u
consume-commute_example =
    consume-commute sample (signed_by 10) (signed_by 10) callback other_callback bytes other_bytes
      two_waiting one_drawn (world_after both_drawn one_drawn) two_requests
      (succeeded first_drawn two_waiting first_drawn_runs)
      (succeeded both_drawn one_drawn both_drawn_runs)
