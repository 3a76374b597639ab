-- ===== src/Tests/Available.antt =====
-- A claim and a refund whose conditions hold.
use card_machine.Prelude.{ℕ, ◌*◌, ◌/◌, ◌^◌, ◌≡◌, refl, arith}
use card_machine.Errors.{ok}
use card_machine.State.{MintRequest, pending, revealed}
use card_machine.Runtime.{close_account, move_lamports}
use card_machine.Runtime.Sample.{sample}
use card_machine.Runtime.Sample.Lawful.{sample-ServesTransfers}
use card_machine.Pyth.Rates.{IsFloor}
use card_machine.User.Claim.{claim}
use card_machine.User.Claim.Available.{
  Passes, IsRecent, HasPrice, CanPayOut, paid_world, claim_sol_succeeds,
}
use card_machine.User.Refund.{refund}
use card_machine.User.Refund.Available.{PassesSol, IsLate, CanPay, refund_sol_succeeds}
use card_machine.Tests.{
  settings, user, slot, request_key, pending_world, revealed_world, signed_by, request_with,
}
use card_machine.Tests.User.{claim_keys, in_sol, refund_keys}

abbrev waiting : MintRequest
waiting = request_with pending 0

abbrev won : MintRequest
won = request_with revealed 20_000_000

passes_refund : PassesSol sample (signed_by user) refund_keys slot pending_world waiting settings
passes_refund = record {
  signed = refl;
  stored = refl;
  configured = refl;
  system = refl;
  no_program = refl;
  no_vault_account = refl;
  no_user_account = refl;
  owned = refl;
  same_slot = refl;
  at_request = refl;
  at_config = refl;
  at_vault = refl;
  user_mut = refl;
  request_mut = refl;
  vault_mut = refl;
}

late : IsLate sample (signed_by user) refund_keys waiting settings
late = record {
  now = 1000;
  created = 900;
  wait = 45;
  clock = refl;
  created_at = refl;
  timeout = refl;
  over = omega arith;
  in_range = omega arith;
  waiting = refl;
  in_sol = refl;
}

can_pay : CanPay sample (signed_by user) refund_keys pending_world 133_333_333
can_pay = record { no_data = refl; covered = omega arith; supply = omega arith }

refund_sol_succeeds_example :
    refund sample (signed_by user) refund_keys slot pending_world
    ≡ ok (close_account request_key user (move_lamports 102 user 133_333_333 pending_world))
refund_sol_succeeds_example =
    refund_sol_succeeds sample (signed_by user) refund_keys sample-ServesTransfers slot
      pending_world waiting settings passes_refund late can_pay

Passes-claim : Passes sample (signed_by user) claim_keys in_sol revealed_world won settings
Passes-claim = record {
  signed = refl;
  stored = refl;
  configured = refl;
  price_account = refl;
  system = refl;
  owned = refl;
  drawn = refl;
  same_slot = refl;
  at_request = refl;
  at_config = refl;
  at_vault = refl;
  user_mut = refl;
  request_mut = refl;
  vault_mut = refl;
}

recent : IsRecent sample (signed_by user) claim_keys won
recent = record {
  now = 1000;
  drawn_at = 950;
  clock = refl;
  revealed_at = refl;
  order = omega arith;
  soon = omega arith;
  in_range = omega arith;
}

has_price : HasPrice sample (signed_by user) claim_keys revealed_world 15_000_000_000
has_price = record { fresh = refl; at_least = omega arith; at_most = omega arith }

can_pay_out :
    CanPayOut sample
      (signed_by user)
      claim_keys
      revealed_world
      15_000_000_000
      (20_000_000 * 95 / 100)
can_pay_out = record { no_data = refl; covered = omega arith; supply = omega arith }

claim_sol_succeeds_example :
    (lamports : ℕ) × (claim sample (signed_by user) claim_keys in_sol revealed_world
      ≡ ok (paid_world sample (signed_by user) claim_keys in_sol won lamports revealed_world))
    × IsFloor lamports (20_000_000 * 95 / 100 * 10 ^ 17) (15_000_000_000 * 10 ^ 6)
claim_sol_succeeds_example =
    claim_sol_succeeds sample (signed_by user) claim_keys sample-ServesTransfers in_sol
      revealed_world won settings 15_000_000_000 refl Passes-claim recent (omega arith) has_price
      can_pay_out
