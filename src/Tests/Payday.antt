-- ===== src/Tests/Payday.antt =====
-- A request that is drawn and then claimed.
use card_machine.Prelude.{ℕ, ◌*◌, ◌/◌, ◌^◌, ◌≡◌, refl, arith}
use card_machine.Errors.{ok}
use card_machine.State.{MintRequest, pending}
use card_machine.Vrf.{
  LotteryResult, derive_random_result, map_to_tiered_distribution, tier_of_roll, prize_of_step,
  draw_cards, select_active_prize_pool, process_vrf_result,
}
use card_machine.Vrf.Draw.{prizes, prizes_bounds}
use card_machine.Runtime.{World, move_lamports}
use card_machine.Runtime.Sample.{sample}
use card_machine.Runtime.Sample.Lawful.{sample-ServesTransfers}
use card_machine.Oracle.{reveal, consume_handler, consume_lottery_randomness}
use card_machine.Pyth.Rates.{IsFloor}
use card_machine.User.Claim.{claim}
use card_machine.User.Claim.Available.{HasPrice, CanPayOut, paid_world}
use card_machine.Lifecycle.Payday.{Claims, Follows, draw_then_claim}
use card_machine.Tests.{
  settings, user, pending_world, signed_by, request_with, world_after, succeeded,
}
use card_machine.Tests.User.{claim_keys, in_sol}
use card_machine.Tests.Draws.{bytes, callback, called_back, callback_runs}

abbrev waiting : MintRequest
waiting = request_with pending 0

abbrev drawn_world : World
drawn_world = world_after called_back pending_world

-- Someone has paid the vault in the meantime.
abbrev later_world : World
later_world = move_lamports 700 102 5_000_000 drawn_world

claims :
    Claims sample
      (signed_by 10)
      callback
      (signed_by user)
      claim_keys
      in_sol
      pending_world
      later_world
      waiting
      settings
unfolding consume_lottery_randomness consume_handler process_vrf_result draw_cards
    map_to_tiered_distribution derive_random_result select_active_prize_pool
claims = record {
  signed = refl;
  stored = refl;
  configured = refl;
  price_account = refl;
  system = refl;
  owned = refl;
  same_slot = refl;
  at_request = refl;
  at_config = refl;
  at_vault = refl;
  user_mut = refl;
  request_mut = refl;
  vault_mut = refl;
  same_request = refl;
  in_sol = refl;
  cards = omega arith;
}

follows : Follows sample (signed_by 10) callback (signed_by user) claim_keys
follows = record {
  now = 1000;
  drawn_at = 1000;
  clock = refl;
  draw_clock = refl;
  order = omega arith;
  soon = omega arith;
  in_range = omega arith;
}

priced : HasPrice sample (signed_by user) claim_keys later_world 15_000_000_000
priced = record { fresh = refl; at_least = omega arith; at_most = omega arith }

can_pay_out :
    CanPayOut sample
      (signed_by user)
      claim_keys
      later_world
      15_000_000_000
      (prizes bytes 2 * 95 / 100)
unfolding consume_lottery_randomness consume_handler reveal process_vrf_result draw_cards
    select_active_prize_pool map_to_tiered_distribution tier_of_roll prize_of_step
    derive_random_result
can_pay_out = record {
  no_data = refl;
  covered = omega (arith, prizes_bounds bytes 2);
  supply = omega arith;
}

draw_then_claim_example :
    (result : LotteryResult) × (lamports : ℕ) × (result.total_won_usd ≡ prizes bytes 2)
    × (claim sample (signed_by user) claim_keys in_sol later_world
        ≡ ok (
            paid_world sample
              (signed_by user)
              claim_keys
              in_sol
              (reveal sample (signed_by 10) callback result waiting)
              lamports
              later_world))
    × IsFloor lamports (prizes bytes 2 * 95 / 100 * 10 ^ 17) (15_000_000_000 * 10 ^ 6)
draw_then_claim_example =
    draw_then_claim sample (signed_by 10) callback (signed_by user) claim_keys
      sample-ServesTransfers bytes in_sol pending_world drawn_world later_world waiting settings
      15_000_000_000 (succeeded called_back pending_world callback_runs) refl claims follows priced
      can_pay_out
