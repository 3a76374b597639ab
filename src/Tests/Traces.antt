-- ===== src/Tests/Traces.antt =====
-- A request that is made, drawn and claimed.
use card_machine.Prelude.{◌≡◌, refl, true, ◌==◌, none, some, inl, inr, Bool-cases, arith}
use card_machine.Errors.{Result}
use card_machine.State.{PaymentMode}
use card_machine.Words.{sub_i64, mul_u64}
use card_machine.Runtime.{World}
use card_machine.Runtime.Sample.{sample}
use card_machine.Runtime.Sample.Lawful.{sample-RuntimeLaws}
use card_machine.Runtime.Requests.{request_at}
use card_machine.Pyth.{lamports_at_price, get_lamports_for_micro_usd, get_lamports_for_usd}
use card_machine.Vrf.{
  derive_random_result, map_to_tiered_distribution, tier_of_roll, prize_of_step, draw_cards,
  select_active_prize_pool, process_vrf_result,
}
use card_machine.Oracle.{reveal, consume_handler, consume_lottery_randomness}
use card_machine.User.RequestMint.{
  pay_sol, pay, new_request, vrf_params, request_mint_accounts, request_mint_constraints,
  check_request, request_mint,
}
use card_machine.User.Claim.{pay_out_sol, pay_out, claim_handler, claim_accounts, claim}
use card_machine.Lifecycle.{
  request_mint_call, consume_call, claim_call, execute, Step, run, Trace, begin, next,
}
use card_machine.Lifecycle.Status.{Evolves, Step-Evolves}
use card_machine.Lifecycle.Accounting.{TraceBalance, trace_balance}
use card_machine.Lifecycle.Board.{play, calls_of, board_of, trace_plays}
use card_machine.Lifecycle.Invariant.{WorldIsValid, Trace-WorldIsValid}
use card_machine.Tests.{
  is_ok, world_after, succeeded, user, slot, request_key, empty_world, signed_by,
}
use card_machine.Tests.User.{mint_accounts, claim_keys, in_sol}
use card_machine.Tests.Draws.{bytes, callback}

abbrev first : Result World
first =
    execute sample (signed_by user) (request_mint_call mint_accounts 2 PaymentMode.sol 1 slot)
      empty_world

abbrev requested_world : World
requested_world = world_after first empty_world

abbrev second : Result World
second = execute sample (signed_by 10) (consume_call callback bytes) requested_world

abbrev drawn_world : World
drawn_world = world_after second requested_world

abbrev third : Result World
third = execute sample (signed_by user) (claim_call claim_keys in_sol) drawn_world

abbrev claimed_world : World
claimed_world = world_after third drawn_world

first_runs : is_ok first ≡ true
unfolding execute request_mint request_mint_accounts request_mint_constraints check_request pay
    pay_sol get_lamports_for_usd get_lamports_for_micro_usd lamports_at_price new_request vrf_params
    mul_u64
first_runs = refl

second_runs : is_ok second ≡ true
unfolding execute request_mint request_mint_accounts request_mint_constraints check_request pay
    pay_sol get_lamports_for_usd get_lamports_for_micro_usd lamports_at_price new_request vrf_params
    mul_u64 consume_lottery_randomness consume_handler reveal process_vrf_result draw_cards
    select_active_prize_pool map_to_tiered_distribution tier_of_roll prize_of_step
    derive_random_result
second_runs = refl

third_runs : is_ok third ≡ true
unfolding execute request_mint request_mint_accounts request_mint_constraints check_request pay
    pay_sol get_lamports_for_usd get_lamports_for_micro_usd lamports_at_price new_request vrf_params
    mul_u64 consume_lottery_randomness consume_handler reveal process_vrf_result draw_cards
    select_active_prize_pool map_to_tiered_distribution tier_of_roll prize_of_step
    derive_random_result claim claim_accounts claim_handler pay_out pay_out_sol sub_i64
third_runs = refl

first-Step : Step sample empty_world requested_world
first-Step =
    run (signed_by user) (request_mint_call mint_accounts 2 PaymentMode.sol 1 slot)
      (succeeded first empty_world first_runs)

second-Step : Step sample requested_world drawn_world
second-Step =
    run (signed_by 10) (consume_call callback bytes) (succeeded second requested_world second_runs)

third-Step : Step sample drawn_world claimed_world
third-Step =
    run (signed_by user) (claim_call claim_keys in_sol) (succeeded third drawn_world third_runs)

story : Trace sample empty_world claimed_world
story = next (next (next begin first-Step) second-Step) third-Step

pub empty_valid : WorldIsValid empty_world
empty_valid key = elim (Bool-cases (key == 101)) [
  | inl is ↦ let none_here : request_at empty_world key ≡ none = ground arith in rw none_here tt
  | inr other ↦ let none_here : request_at empty_world key ≡ none = ground arith in rw none_here tt
]

Trace-WorldIsValid_example : WorldIsValid claimed_world
Trace-WorldIsValid_example =
    Trace-WorldIsValid sample sample-RuntimeLaws empty_world claimed_world story empty_valid

Step-Evolves_example :
    Evolves (request_at requested_world request_key) (request_at drawn_world request_key)
Step-Evolves_example =
    Step-Evolves sample sample-RuntimeLaws requested_world drawn_world second-Step request_key

trace_balance_example : TraceBalance sample empty_world claimed_world story request_key
trace_balance_example =
    trace_balance sample sample-RuntimeLaws empty_world claimed_world story request_key

trace_plays_example : play (calls_of story) (board_of empty_world) ≡ some (board_of claimed_world)
trace_plays_example = trace_plays sample sample-RuntimeLaws empty_world claimed_world story
