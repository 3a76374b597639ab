-- ===== src/Tests/Legacy.antt =====
-- The migration of an account that ends behind the first six fields.
use card_machine.Prelude.{ℕ, ◌≡◌, refl, true, List, replicate, take, arith}
use card_machine.Prelude.Int.{pos}
use card_machine.Prelude.Bytes.{to_le_bytes, from_le_bytes}
use card_machine.Errors.{Result}
use card_machine.State.{IpFlowState}
use card_machine.Layout.{
  encode, decode, expect, read_key, read_word, read_byte, read_bool, split_at,
}
use card_machine.Layout.RoundTrip.{Fits}
use card_machine.Runtime.{World, AccountData, store}
use card_machine.Runtime.Sample.{sample}
use card_machine.Runtime.Sample.Lawful.{sample-RuntimeLaws, sample-ConfigLayout}
use card_machine.Admin.Config.{migrate_config, top_up, check_admin, data_of, realloc, migrated}
use card_machine.Admin.Config.Legacy.{Extends, IsBlank, Fills, migrate_config-Fills}
use card_machine.Tests.{is_ok, world_after, succeeded, settings, empty_world, signed_by}
use card_machine.Tests.Admin.{admin_keys}

abbrev blank : IpFlowState
blank = record settings {
  prize_pool_count = 0;
  active_pool_count = 0;
  active_pool_indices = replicate 50 0;
  oracle_queue = 0;
  request_timeout_seconds = pos 0;
}

abbrev earlier_bytes : List ℕ
earlier_bytes = take 53 (sample.serialize_config blank)

abbrev earlier_world : World
earlier_world = store 101 (AccountData.raw earlier_bytes) empty_world

abbrev migration : Result World
migration = migrate_config sample (signed_by 1) admin_keys 5 earlier_world

migration_runs : is_ok migration ≡ true
unfolding migrate_config top_up check_admin data_of realloc encode decode expect read_key read_word
    read_byte read_bool split_at to_le_bytes from_le_bytes migrated
migration_runs = refl

blank-Fits : Fits blank
blank-Fits = record {
  admin = omega arith;
  total_collected = omega arith;
  platform_fee_bps = omega arith;
  indices = refl;
  oracle_queue = omega arith;
  timeout = (omega arith, omega arith);
}

blank-IsBlank : IsBlank blank
blank-IsBlank = record { no_pool = refl; no_queue = refl; no_timeout = refl }

earlier-Extends : Extends sample (data_of sample (earlier_world.account 101)) blank
unfolding data_of encode to_le_bytes
earlier-Extends = record { short = omega arith; padded = refl }

migrate_config-Fills_example :
    Fills sample sample-RuntimeLaws
      (signed_by 1)
      admin_keys
      5
      blank
      earlier_world
      (world_after migration earlier_world)
migrate_config-Fills_example =
    migrate_config-Fills sample sample-RuntimeLaws (signed_by 1) admin_keys 5 blank earlier_world
      (world_after migration earlier_world) sample-ConfigLayout blank-Fits blank-IsBlank
      earlier-Extends (succeeded migration earlier_world migration_runs)
