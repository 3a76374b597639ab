-- ===== src/Tests/Admin.antt =====
-- The administrator's instructions on concrete settings.
use card_machine.Prelude.{◌≡◌, refl, true, [], ◌∷◌, arith}
use card_machine.Errors.{Result}
use card_machine.Runtime.{World}
use card_machine.Runtime.Sample.{sample}
use card_machine.Runtime.Sample.Lawful.{sample-RuntimeLaws, sample-ConfigLayout}
use card_machine.Admin.Config.{
  ConfigAccounts, migrate_config, top_up, check_admin, data_of, realloc, migrated,
}
use card_machine.Admin.Config.Migrate.{Migrates, migrate_config_keeps}
use card_machine.Layout.{
  encode, decode, expect, read_key, read_word, read_byte, read_bool, split_at,
}
use card_machine.Layout.RoundTrip.{Fits}
use card_machine.Prelude.Bytes.{to_le_bytes, from_le_bytes}
use card_machine.Admin.PrizePool.{push_pool, drop_pool}
use card_machine.Admin.PrizePool.Active.{Represents}
use card_machine.Admin.PrizePool.Addition.{IsAddition, push_pool-IsAddition}
use card_machine.Admin.PrizePool.Removal.{IsRemoval, drop_pool-IsRemoval}
use card_machine.Admin.Withdraw.{WithdrawSolAccounts, withdraw_sol}
use card_machine.Admin.Withdraw.Balance.{Withdraws, withdraw_sol_moves}
use card_machine.Tests.{is_ok, world_after, succeeded, settings, empty_world, signed_by}

pub settings-Represents : Represents settings (0 ∷ 2 ∷ 3 ∷ [])
settings-Represents = record { counted = refl; fits = omega arith; padded = refl }

push_pool-IsAddition_example : IsAddition true settings (0 ∷ 2 ∷ 3 ∷ []) (push_pool true settings)
push_pool-IsAddition_example =
    push_pool-IsAddition true settings (0 ∷ 2 ∷ 3 ∷ []) settings-Represents (omega arith)

drop_pool-IsRemoval_example : IsRemoval settings (0 ∷ 2 ∷ 3 ∷ []) 2 (drop_pool 2 settings)
drop_pool-IsRemoval_example = drop_pool-IsRemoval settings (0 ∷ 2 ∷ 3 ∷ []) 2 settings-Represents

abbrev withdraw_keys : WithdrawSolAccounts
withdraw_keys = record { admin = 1; config = 101; vault = 102; recipient = 55; system_program = 0 }

abbrev withdrawn : Result World
withdrawn = withdraw_sol sample (signed_by 1) withdraw_keys 1_000_000 empty_world

withdraw_runs : is_ok withdrawn ≡ true
unfolding withdraw_sol
withdraw_runs = refl

withdraw_sol_moves_example :
    Withdraws sample
      (signed_by 1)
      withdraw_keys
      1_000_000
      empty_world
      (world_after withdrawn empty_world)
withdraw_sol_moves_example =
    withdraw_sol_moves sample sample-RuntimeLaws (signed_by 1) withdraw_keys 1_000_000 empty_world
      (world_after withdrawn empty_world) (succeeded withdrawn empty_world withdraw_runs)

pub settings-Fits : Fits settings
settings-Fits = record {
  admin = omega arith;
  total_collected = omega arith;
  platform_fee_bps = omega arith;
  indices = refl;
  oracle_queue = omega arith;
  timeout = (omega arith, omega arith);
}

abbrev pub admin_keys : ConfigAccounts
admin_keys = record { admin = 1; config = 101; system_program = 0 }

abbrev migration : Result World
migration = migrate_config sample (signed_by 1) admin_keys 5 empty_world

migration_runs : is_ok migration ≡ true
unfolding migrate_config top_up check_admin data_of realloc encode decode expect read_key read_word
    read_byte read_bool split_at to_le_bytes from_le_bytes migrated
migration_runs = refl

migrate_config_keeps_example :
    Migrates sample sample-RuntimeLaws
      (signed_by 1)
      admin_keys
      5
      settings
      empty_world
      (world_after migration empty_world)
migrate_config_keeps_example =
    migrate_config_keeps sample sample-RuntimeLaws (signed_by 1) admin_keys 5 settings empty_world
      (world_after migration empty_world) sample-ConfigLayout settings-Fits refl
      (succeeded migration empty_world migration_runs)
