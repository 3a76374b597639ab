-- ===== src/Lifecycle/PoolAccounts.antt =====
-- The accounts of the active pools under every instruction of lib.rs.
use card_machine.Prelude.{◌≡◌, subst, [], refl, arith}
use card_machine.Errors.{ok}
use card_machine.State.{IpFlowState}
use card_machine.Runtime.{Runtime, World, Transaction, AccountData}
use card_machine.Runtime.Laws.{ConfigLayout, RuntimeLaws}
use card_machine.Admin.Config.{
  ConfigAccounts, data_of, check_admin, close_config, migrated, initial,
}
use card_machine.Admin.Config.Valid.{initial-Represents, migrated-Represents}
use card_machine.Admin.PrizePool.Accounts.{
  add_prize_pool-Adds, remove_prize_pool-Removes, update_prize_pool-Updates,
}
use card_machine.Admin.Withdraw.Balance.{withdraw_sol_moves}
use card_machine.Admin.Withdraw.Tokens.{withdraw_token_sends}
use card_machine.User.RequestMint.Paid.{request_mint_pays}
use card_machine.Lifecycle.ConfigLeaves.{
  initialize-Leaves, close_config-Leaves, migrate_config-Leaves,
}
use card_machine.Lifecycle.Leaves.{claim-Leaves, refund-Leaves, consume-Leaves, request-Leaves}
use card_machine.Lifecycle.Settings.{AllValid, Suits, IsValid-at, kept_valid, execute-AllValid}
use card_machine.Lifecycle.Stored.{
  HoldsIndex, NoPool, left_pools, ListsPools, PoolsStored, PoolsStored-kept, Consistent,
  config_address, request-NoPool,
}
use card_machine.Lifecycle.Consistent.{kept-Consistent, left-Consistent}
use card_machine.Lifecycle.Pools.{add-Consistent, update-Consistent, remove-Consistent}
use card_machine.Lifecycle.{
  ProgramCall, initialize_call, migrate_config_call, close_config_call, request_mint_call,
  consume_call, claim_call, refund_call, withdraw_sol_call, withdraw_token_call,
  add_prize_pool_call, remove_prize_pool_call, update_prize_pool_call, execute, Trace, begin, next,
  run, outside,
}

vacant-NoPool : (d : AccountData) → d ≡ AccountData.vacant → NoPool d
vacant-NoPool d e i = subst (HoldsIndex i) e

config-NoPool : (d : AccountData) (c : IpFlowState) → d ≡ AccountData.config c → NoPool d
config-NoPool d c e i = subst (HoldsIndex i) e

module _ (rt : Runtime) (laws : RuntimeLaws rt) (tx : Transaction) where
  -- No pool's account is closed as the configuration.
  close_config-NoPool :
      (a : ConfigAccounts) (w w' : World) (d : AccountData)
      → w.account a.config ≡ d
      → close_config rt tx a w ≡ ok w'
      → NoPool d
  unfolding close_config data_of check_admin
  close_config-NoPool a w w' (AccountData.prize_pool p) e h i held = absurd (ground arith)
  close_config-NoPool a w w' (AccountData.config c) e h i held = held
  close_config-NoPool a w w' (AccountData.mint_request r) e h i held = held
  close_config-NoPool a w w' _ e h i held = held

  pub execute-Consistent :
      (c : ProgramCall) (w w' : World)
      → ConfigLayout rt
      → Suits w c
      → AllValid w
      → Consistent rt w
      → execute rt tx c w ≡ ok w'
      → Consistent rt w'
  unfolding execute
  execute-Consistent (initialize_call a fee) w w' layout suits valid ok_before h =
      let (free, x) = initialize-Leaves rt laws tx a fee w w' h in
      let new : PoolsStored rt w' (AccountData.config (initial rt tx a fee)) = record {
        pools = [];
        active = initial-Represents rt tx a fee;
        stored = tt;
        distinct = tt;
      } in
      left-Consistent rt w w' a.config _ x (vacant-NoPool _ free) (λ here. new) ok_before
  execute-Consistent (migrate_config_call a count) w w' layout (byte, c, stored) valid ok_before h =
      let x =
        migrate_config-Leaves rt laws tx a count c w w' layout
          (IsValid-at w a.config c valid stored) stored h in
      let free = config-NoPool (w.account a.config) c stored in
      let new : config_address rt ≡ a.config
          → PoolsStored rt w' (AccountData.config (migrated count c)) =
        λ here.
          let before : ListsPools rt w c =
            subst (PoolsStored rt w) stored
              (subst (λ k. PoolsStored rt w (w.account k)) here ok_before) in
          let l : ListsPools rt w' c =
            PoolsStored-kept rt w w' (AccountData.config c) (left_pools w w' a.config _ x free)
              before in
          record {
            pools = l.pools;
            active = migrated-Represents count c l.pools l.active;
            stored = l.stored;
            distinct = l.distinct;
          } in
      left-Consistent rt w w' a.config _ x free new ok_before
  execute-Consistent (close_config_call a) w w' layout suits valid ok_before h =
      let (bytes, x) = close_config-Leaves rt laws tx a w w' h in
      left-Consistent rt w w' a.config _ x (close_config-NoPool a w w' _ refl h) (λ here. tt)
        ok_before
  execute-Consistent (request_mint_call a cards mode seed slot) w w' layout suits valid ok_before
        h =
      let (amount, config, allow, held, x) =
        request-Leaves rt laws tx a cards mode seed slot w w' h in
      let (_, _, _, _, _, _, free, _, _, _, _, _, _) =
        request_mint_pays rt laws tx a cards mode seed slot w w' h in
      left-Consistent rt w w' a.mint_request _ x (vacant-NoPool _ free) (λ here. tt) ok_before
  execute-Consistent (consume_call a randomness) w w' layout suits valid ok_before h =
      let (r, result, waiting, total, held, x) = consume-Leaves rt laws tx a randomness w w' h in
      left-Consistent rt w w' a.mint_request _ x (request-NoPool _ r held) (λ here. tt) ok_before
  execute-Consistent (claim_call a args) w w' layout suits valid ok_before h =
      let (r, drawn, held, x) = claim-Leaves rt laws tx a args w w' h in
      left-Consistent rt w w' a.mint_request _ x (request-NoPool _ r held) (λ here. tt) ok_before
  execute-Consistent (refund_call a slot) w w' layout suits valid ok_before h =
      let (r, waiting, held, x) = refund-Leaves rt laws tx a slot w w' h in
      left-Consistent rt w w' a.mint_request _ x (request-NoPool _ r held) (λ here. tt) ok_before
  execute-Consistent (withdraw_sol_call a amount) w w' layout suits valid ok_before h =
      let (config, e, admin, signed, cap, moved) = withdraw_sol_moves rt laws tx a amount w w' h in
      kept-Consistent rt w w' (rw moved (record { accounts = λ k. refl; events = refl })) ok_before
  execute-Consistent (withdraw_token_call a amount) w w' layout suits valid ok_before h =
      let x = withdraw_token_sends rt tx a amount w w' h in
      kept-Consistent rt w w' (laws.invoke_keeps _ _ w w' x.sent) ok_before
  execute-Consistent (add_prize_pool_call a pool type name) w w' layout suits valid ok_before h =
      add-Consistent rt tx a laws pool type name w w'
        (add_prize_pool-Adds rt tx a pool type name w w' h) ok_before
  execute-Consistent (remove_prize_pool_call a) w w' layout suits valid ok_before h =
      remove-Consistent rt tx a w w' (remove_prize_pool-Removes rt tx a w w' h) ok_before
  execute-Consistent (update_prize_pool_call a pool type name) w w' layout suits valid ok_before h =
      update-Consistent rt tx a pool type name w w'
        (update_prize_pool-Updates rt tx a pool type name w w' h) ok_before

-- The settings that a world stores are valid, and their pools have their accounts.
pub record SettingsHold (rt : Runtime) (w : World) : Type 0 where
  pub valid : AllValid w
  pub consistent : Consistent rt w

-- Every instruction of a trace suits the world that it runs on.
abbrev pub IsSuited : {rt : Runtime} {start w : World} → Trace rt start w → Type 0
IsSuited begin = Unit {0}
IsSuited (next {w} t (run tx c h)) = Suits w c × IsSuited t
IsSuited (next t (outside keeps)) = IsSuited t

-- With the documented layout of the configuration's account, whatever instructions of the program
-- and other transactions follow on a world whose settings hold, they still hold. Every stored
-- configuration is valid: its fields are in the ranges of their types, each entry of its array is
-- a byte, and the array is a list of at most 50 indices followed by 255 in every free place. The
-- list of the configuration at its own address has no index twice, and each of its indices has the
-- account of a pool with that index. The instructions suit the worlds that they run on: the
-- arguments of an initialization and of a migration are in their types, and a migration is one of
-- the current layout.
pub Trace-SettingsHold :
    (rt : Runtime) (laws : RuntimeLaws rt) (start w : World) (t : Trace rt start w)
    → ConfigLayout rt
    → IsSuited t
    → SettingsHold rt start
    → SettingsHold rt w
Trace-SettingsHold rt laws start w begin layout suits x = x
Trace-SettingsHold rt laws start w' (next {w} t (run tx c h)) layout (suits, before) x =
    let y = Trace-SettingsHold rt laws start w t layout before x in
    record {
      valid = execute-AllValid rt laws tx c w w' layout suits y.valid h;
      consistent = execute-Consistent rt laws tx c w w' layout suits y.valid y.consistent h;
    }
Trace-SettingsHold rt laws start w' (next {w} t (outside keeps)) layout suits x =
    let y = Trace-SettingsHold rt laws start w t layout suits x in
    record {
      valid = kept_valid keeps y.valid;
      consistent = kept-Consistent rt w w' keeps y.consistent;
    }
