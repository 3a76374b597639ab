-- ===== src/Tests/Calls.antt =====
-- Instructions on the stored settings: who may run them, and what they leave.
use card_machine.Prelude.{◌≡◌, refl, true, [], ◌∷◌, ◌==◌, Bool-cases, inl, inr, ℕ, ◌+◌, arith}
use card_machine.Errors.{Result}
use card_machine.Words.{add_u8}
use card_machine.State.{PoolType}
use card_machine.Runtime.{World, AccountData, store}
use card_machine.Runtime.Sample.{sample}
use card_machine.Runtime.Sample.Lawful.{sample-RuntimeLaws, sample-ConfigLayout}
use card_machine.Admin.PrizePool.{PrizePoolAccounts, add_prize_pool, push_pool}
use card_machine.Admin.Config.Valid.{IsValid}
use card_machine.Lifecycle.{ProgramCall, add_prize_pool_call, execute, Trace, begin, next, run}
use card_machine.Lifecycle.Access.{IsAllowed, execute-IsAllowed}
use card_machine.Lifecycle.Settings.{AllValid, written_valid}
use card_machine.Lifecycle.PoolAccounts.{SettingsHold, Trace-SettingsHold}
use card_machine.Tests.{
  is_ok, world_after, succeeded, settings, request_key, empty_world, signed_by,
}
use card_machine.Tests.Admin.{settings-Fits, settings-Represents}

abbrev pool_keys : ℕ → PrizePoolAccounts
pool_keys index = record { admin = 1; config = 101; prize_pool = 200 + index; system_program = 0 }

abbrev adding : ProgramCall
adding = add_prize_pool_call (pool_keys 4) 900 PoolType.raydium_cpmm (65 ∷ 66 ∷ [])

abbrev added : Result World
added = execute sample (signed_by 1) adding empty_world

added_runs : is_ok added ≡ true
unfolding execute add_prize_pool push_pool add_u8
added_runs = refl

execute-IsAllowed_example : IsAllowed sample (signed_by 1) settings adding
execute-IsAllowed_example =
    execute-IsAllowed sample sample-RuntimeLaws (signed_by 1) settings sample-ConfigLayout
      settings-Fits adding empty_world (world_after added empty_world) refl
      (succeeded added empty_world added_runs)

settings-IsValid : IsValid settings
settings-IsValid = record {
  fits = settings-Fits;
  bytes = record {
    vault_bump = omega arith;
    pool_count = omega arith;
    prize_pool_count = omega arith;
    active_pool_count = omega arith;
    indices = ground arith;
  };
  pools = 0 ∷ 2 ∷ 3 ∷ [];
  active = settings-Represents;
}

empty-AllValid : AllValid empty_world
empty-AllValid key = elim (Bool-cases (key == 101)) [
  | inl is ↦ rw is settings-IsValid
  | inr other ↦ rw other (elim (Bool-cases (key == request_key)) [
    | inl here ↦ rw here tt
    | inr vacant_here ↦ rw vacant_here tt
  ])
]

-- ==================== A trace ====================

abbrev pub pool_of : ℕ → AccountData
pool_of index = AccountData.prize_pool (record {
  index = index;
  swap_pool = 900;
  pool_type = PoolType.raydium_cpmm;
  name = [];
  bump = 255;
})

-- The active pools 0, 2 and 3 with their accounts.
abbrev pub pools_world : World
pools_world = store 200 (pool_of 0) (store 202 (pool_of 2) (store 203 (pool_of 3) empty_world))

abbrev fifth : Result World
fifth = execute sample (signed_by 1) adding pools_world

fifth_runs : is_ok fifth ≡ true
unfolding execute add_prize_pool push_pool add_u8
fifth_runs = refl

abbrev pools_Trace : Trace sample pools_world (world_after fifth pools_world)
pools_Trace = next begin (run (signed_by 1) adding (succeeded fifth pools_world fifth_runs))

pub pools-AllValid : AllValid pools_world
pools-AllValid =
    written_valid (store 202 (pool_of 2) (store 203 (pool_of 3) empty_world)) 200 (pool_of 0)
      (written_valid (store 203 (pool_of 3) empty_world) 202 (pool_of 2)
        (written_valid empty_world 203 (pool_of 3) empty-AllValid tt) tt)
      tt

pools-SettingsHold : SettingsHold sample pools_world
pools-SettingsHold = record {
  valid = pools-AllValid;
  consistent = record {
    pools = 0 ∷ 2 ∷ 3 ∷ [];
    active = settings-Represents;
    stored = (refl, (refl, (refl, tt)));
    distinct = ground arith;
  };
}

Trace-SettingsHold_example : SettingsHold sample (world_after fifth pools_world)
Trace-SettingsHold_example =
    Trace-SettingsHold sample sample-RuntimeLaws pools_world (world_after fifth pools_world)
      pools_Trace sample-ConfigLayout (tt, tt) pools-SettingsHold
