-- ===== src/Tests/Refundable.antt =====
-- A request that is made and, as no callback comes, refunded.
use card_machine.Prelude.{◌≡◌, refl, true, [], ◌∷◌, subst, arith}
use card_machine.Prelude.Int.{pos}
use card_machine.State.{MintRequest}
use card_machine.Words.{mul_u64}
use card_machine.Runtime.{World, Transaction, AccountData}
use card_machine.Runtime.Sample.{sample}
use card_machine.Runtime.Sample.Lawful.{sample-RuntimeLaws, sample-ServesTransfers}
use card_machine.Pyth.{lamports_at_price, get_lamports_for_micro_usd, get_lamports_for_usd}
use card_machine.User.RequestMint.{
  pay_sol, pay, new_request, vrf_params, request_mint_accounts, request_mint_constraints,
  check_request, request_mint,
}
use card_machine.User.Refund.Available.{CanPay}
use card_machine.Lifecycle.Refundable.{Asks, Waits, Returned, request_then_refund}
use card_machine.Tests.{
  user, slot, request_key, settings, empty_world, signed_by, world_after, succeeded,
}
use card_machine.Tests.User.{mint_accounts, refund_keys, requested, request_runs}

-- The user's transaction 100 seconds after the request.
abbrev late_tx : Transaction
late_tx = record {
  signers = user ∷ [];
  is_writable = λ key. true;
  clock = record { unix_timestamp = pos 1100; slot = 330 };
}

abbrev waiting_world : World
waiting_world = world_after requested empty_world

asks : Asks sample (signed_by user) mint_accounts late_tx refund_keys waiting_world settings
unfolding request_mint request_mint_accounts request_mint_constraints check_request pay pay_sol
    get_lamports_for_usd get_lamports_for_micro_usd lamports_at_price new_request vrf_params mul_u64
asks = record {
  signed = refl;
  configured = refl;
  system = refl;
  no_program = refl;
  no_vault_account = refl;
  no_user_account = refl;
  same_user = refl;
  same_request = refl;
  at_config = refl;
  at_vault = refl;
  user_mut = refl;
  request_mut = refl;
  vault_mut = refl;
}

waits : Waits sample (signed_by user) mint_accounts late_tx refund_keys settings
waits = record {
  now = 1100;
  created = 1000;
  wait = 45;
  clock = refl;
  make_clock = refl;
  timeout = refl;
  over = omega arith;
  in_range = omega arith;
}

-- The vault covers the amount of the request in an account.
abbrev Covers : AccountData → Type 0
Covers (AccountData.mint_request r) = CanPay sample late_tx refund_keys waiting_world r.paid_amount
Covers _ = Unit {0}

stored-Covers : Covers (waiting_world.account request_key)
unfolding request_mint request_mint_accounts request_mint_constraints check_request pay pay_sol
    get_lamports_for_usd get_lamports_for_micro_usd lamports_at_price new_request vrf_params mul_u64
stored-Covers = record { no_data = refl; covered = omega arith; supply = omega arith }

funded :
    (r : MintRequest)
    → waiting_world.account request_key ≡ AccountData.mint_request r
    → CanPay sample late_tx refund_keys waiting_world r.paid_amount
funded r e = subst Covers e stored-Covers

request_then_refund_example :
    Returned sample
      (signed_by user)
      mint_accounts
      late_tx
      refund_keys
      2
      slot
      empty_world
      waiting_world
request_then_refund_example =
    request_then_refund sample (signed_by user) mint_accounts late_tx refund_keys sample-RuntimeLaws
      sample-ServesTransfers 2 1 slot empty_world waiting_world waiting_world settings
      (succeeded requested empty_world request_runs) refl asks waits funded
