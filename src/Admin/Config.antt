-- ===== src/Admin/Config.antt =====
-- instructions/admin/initialize.rs: creating, migrating and closing the configuration account,
-- with the account checks of `Initialize`, `MigrateConfig` and `CloseConfig` in lib.rs.
pub mod Migrate
pub mod Ranges
pub mod Valid
pub mod Legacy
use card_machine.Prelude.{
  ℕ, zero, ◌+◌, ◌-◌, false, List, [], ◌++◌, ltb, leb, ◌==◌, if◌then◌else◌, length, take, drop,
  replicate, map,
}
use mathlib.Core.List.{reverse}
use card_machine.Prelude.Bytes.{from_le_bytes}
use card_machine.Prelude.Int.{ℤ, pos}
use card_machine.Constants.{Pubkey, oracle_queue_devnet, request_timeout_seconds, max_prize_pools}
use card_machine.Errors.{
  Result, ok, ok_or, ◌>>=◌, ◌>>◌, require, custom, anchor, unauthorized, math_overflow,
  account_did_not_deserialize,
}
use card_machine.Words.{u64_mod, checked_add}
use card_machine.State.{IpFlowState}
use card_machine.Layout.{init_space}
use card_machine.Runtime.{
  Runtime, World, Transaction, AccountData, system_transfer, Seeds, store, update, check_signer,
  check_program, check_seeds, check_mut,
}

-- The accounts of the three instructions.
pub record ConfigAccounts : Type 0 where
  pub admin : Pubkey
  pub config : Pubkey
  pub system_program : Pubkey

abbrev empty_indices : List ℕ
empty_indices = replicate max_prize_pools 255

-- The account's bytes. No other kind of account of the program has this address.
unfoldable pub data_of : Runtime → AccountData → List ℕ
data_of rt (AccountData.config c) = rt.serialize_config c
data_of rt (AccountData.raw bytes) = bytes
data_of rt _ = []

-- `data[8..40]` as a public key, which stores its most significant byte first.
abbrev pub stored_admin : List ℕ → Pubkey
stored_admin bytes = from_le_bytes (reverse (take 32 (drop 8 bytes)))

-- The check of the administrator on the raw bytes.
unfoldable pub check_admin : List ℕ → Pubkey → Result (Unit {0})
check_admin bytes admin = do
  require (leb 40 (length bytes)) unauthorized
  require (stored_admin bytes == admin) unauthorized

-- `realloc(new_space, false)`: cut, or extended by zeros.
unfoldable pub realloc : ℕ → List ℕ → List ℕ
realloc space bytes = take space (bytes ++ replicate (space - length bytes) 0)

-- The fields that `migrate_config` sets.
unfoldable pub migrated : ℕ → IpFlowState → IpFlowState
migrated prize_pool_count c = record c {
  prize_pool_count = prize_pool_count;
  active_pool_count = if ltb 0 c.active_pool_count then c.active_pool_count else 0;
  active_pool_indices = if ltb 0 c.active_pool_count then c.active_pool_indices else empty_indices;
  oracle_queue = if c.oracle_queue == 0 then oracle_queue_devnet else c.oracle_queue;
  request_timeout_seconds = timeout_or_default c.request_timeout_seconds;
}
  where
    timeout_or_default : ℤ → ℤ
    timeout_or_default (pos zero) = pos request_timeout_seconds
    timeout_or_default t = t

module _ (rt : Runtime) (tx : Transaction) (a : ConfigAccounts) where
  -- The new configuration.
  unfoldable pub initial : ℕ → IpFlowState
  initial platform_fee_bps = record {
    admin = a.admin;
    vault_bump = (rt.find_program_address Seeds.vault).1;
    total_collected = 0;
    platform_fee_bps = platform_fee_bps;
    is_paused = false;
    pool_count = 0;
    prize_pool_count = 0;
    active_pool_count = 0;
    active_pool_indices = empty_indices;
    oracle_queue = oracle_queue_devnet;
    request_timeout_seconds = pos request_timeout_seconds;
  }

  unfoldable pub initialize : ℕ → World → Result World
  initialize platform_fee_bps w = do
    check_signer tx a.admin
    check_program a.system_program rt.system_program_id
    check_seeds rt a.config Seeds.global_config
    created ← rt.create_account a.admin a.config (8 + init_space) w
    check_mut tx a.admin
    ok (store a.config (AccountData.config (initial platform_fee_bps)) created)

  -- The lamports that the larger account still lacks come from the administrator.
  unfoldable pub top_up : World → Result World
  top_up w =
      let required_lamports = rt.minimum_balance (8 + init_space) in
      let current_lamports = w.lamports a.config in
      let paid =
        rt.invoke (system_transfer a.admin a.config (required_lamports - current_lamports))
          tx.signers w in
      if ltb current_lamports required_lamports then paid else ok w

  unfoldable pub migrate_config : ℕ → World → Result World
  migrate_config prize_pool_count w = do
    check_signer tx a.admin
    check_program a.system_program rt.system_program_id
    check_mut tx a.admin
    check_seeds rt a.config Seeds.global_config
    check_mut tx a.config
    check_admin (data_of rt (w.account a.config)) a.admin
    w' ← top_up w
    let resized = realloc (8 + init_space) (data_of rt (w'.account a.config))
    state ← ok_or (rt.deserialize_config resized) (anchor account_did_not_deserialize)
    ok (store a.config (AccountData.config (migrated prize_pool_count state)) w')

  unfoldable pub close_config : World → Result World
  close_config w = do
    check_signer tx a.admin
    check_program a.system_program rt.system_program_id
    check_mut tx a.admin
    check_seeds rt a.config Seeds.global_config
    check_mut tx a.config
    let bytes = data_of rt (w.account a.config)
    check_admin bytes a.admin
    total ←
        ok_or (checked_add u64_mod (w.lamports a.admin) (w.lamports a.config))
          (custom math_overflow)
    let credited = update w.lamports a.admin total
    ok (record w {
      lamports = update credited a.config 0;
      account = update w.account a.config (AccountData.raw (map (λ b. 0) bytes));
    })
