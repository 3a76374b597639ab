-- ===== src/Admin/PrizePool.antt =====
-- instructions/admin/prize_pool.rs: the list of active prize pools, with `AddPrizePool`,
-- `RemovePrizePool` and `UpdatePrizePool` of lib.rs.
pub mod Active
pub mod Addition
pub mod Removal
pub mod Steps
pub mod Accounts
use card_machine.Prelude.{
  ℕ, zero, suc, ◌+◌, ◌-◌, Bool, Option, none, some, List, ltb, leb, ◌==◌, if◌then◌else◌, length,
  get_elem?, set,
}
use card_machine.Constants.{Pubkey, max_prize_pools}
use card_machine.Errors.{
  Result, ok, err, ok_or, ◌>>=◌, ◌>>◌, require, check, account_did_not_serialize, custom, panicked,
  unauthorized, max_prize_pools_reached, invalid_prize_pool_index, no_prize_pool_to_remove,
}
use card_machine.Words.{add_u8, unwrap_or}
use card_machine.State.{
  IpFlowState, PrizePoolAccount, PoolType, prize_pool_added, prize_pool_removed, prize_pool_updated,
}
use card_machine.Runtime.{
  Runtime, World, Transaction, AccountData, Seeds, store, emit, close_account, check_signer,
  check_mut, check_program, check_seeds, check_seeds_bump, as_config, as_prize_pool,
}

-- `#[max_len(16)]`: the account has no room for a longer name.
abbrev max_name_len : ℕ
max_name_len = 16

-- `PrizePoolAccount::INIT_SPACE`
abbrev pub prize_pool_space : ℕ
prize_pool_space = 1 + 32 + 1 + (4 + max_name_len) + 1

abbrev check_name : List ℕ → Result (Unit {0})
check_name name = check (leb (length name) max_name_len) account_did_not_serialize

-- `indices[i]`, and `indices[i] = value`: out of range is a panic.
abbrev index_at : List ℕ → ℕ → Result ℕ
index_at indices i = ok_or (get_elem? indices i) panicked

abbrev pub write_at : List ℕ → ℕ → ℕ → Result (List ℕ)
write_at indices i value = if ltb i (length indices) then ok (set indices i value) else err panicked

-- The configuration after a pool is added, and the pool's index.
unfoldable pub push_pool : Bool → IpFlowState → Result (ℕ × IpFlowState)
push_pool overflow_checks config = do
  let index = config.prize_pool_count
  require (ltb config.active_pool_count max_prize_pools) max_prize_pools_reached
  indices ← write_at config.active_pool_indices config.active_pool_count index
  active_count ← add_u8 overflow_checks config.active_pool_count 1
  pool_count ← add_u8 overflow_checks config.prize_pool_count 1
  ok (
    index,
    record config {
      prize_pool_count = pool_count;
      active_pool_count = active_count;
      active_pool_indices = indices;
    },
  )

-- The search for `index`: `rounds` positions are left, the next one is `i`.
unfoldable pub find_position : List ℕ → ℕ → ℕ → ℕ → Result (Option ℕ)
find_position indices index zero i = ok none
find_position indices index (suc rounds) i = do
  let rest = find_position indices index rounds (i + 1)
  entry ← index_at indices i
  if entry == index then ok (some i) else rest

-- Every entry from `i` on is replaced by the one after it, `rounds` times.
unfoldable pub shift_left : ℕ → ℕ → List ℕ → Result (List ℕ)
shift_left zero i indices = ok indices
shift_left (suc rounds) i indices = do
  following ← index_at indices (i + 1)
  shifted ← write_at indices i following
  shift_left rounds (i + 1) shifted

-- The configuration after the pool of that index is removed. The subtractions follow a test of
-- `active_pool_count > 0`.
unfoldable pub drop_pool : ℕ → IpFlowState → Result IpFlowState
drop_pool index config = do
  require (ltb 0 config.active_pool_count) no_prize_pool_to_remove
  found_pos ← find_position config.active_pool_indices index config.active_pool_count 0
  pos ← ok_or found_pos (custom invalid_prize_pool_index)
  let last_active = config.active_pool_count - 1
  shifted ← shift_left (last_active - pos) pos config.active_pool_indices
  cleared ← write_at shifted last_active 255
  ok (record config {
    active_pool_count = config.active_pool_count - 1;
    active_pool_indices = cleared;
  })

pub record PrizePoolAccounts : Type 0 where
  pub admin : Pubkey
  pub config : Pubkey
  pub prize_pool : Pubkey
  pub system_program : Pubkey

module _ (rt : Runtime) (tx : Transaction) (a : PrizePoolAccounts) where
  unfoldable pub add_prize_pool : Pubkey → PoolType → List ℕ → World → Result World
  add_prize_pool swap_pool pool_type name w = do
    check_signer tx a.admin
    config ← as_config (w.account a.config)
    check_program a.system_program rt.system_program_id
    check_seeds rt a.prize_pool (Seeds.prize_pool config.prize_pool_count)
    created ← rt.create_account a.admin a.prize_pool (8 + prize_pool_space) w
    check_mut tx a.admin
    check_seeds rt a.config Seeds.global_config
    check_mut tx a.config
    require (config.admin == a.admin) unauthorized
    (index, config') ← push_pool rt.overflow_checks config
    let pool : PrizePoolAccount = record {
      index = index;
      swap_pool = swap_pool;
      pool_type = pool_type;
      name = name;
      bump = (rt.find_program_address (Seeds.prize_pool config.prize_pool_count)).1;
    }
    let event = prize_pool_added (record {
      admin = a.admin;
      index = index;
      swap_pool = swap_pool;
      pool_type = pool_type;
      name = name;
    })
    check_name name
    ok (
        store a.prize_pool (AccountData.prize_pool pool)
          (store a.config (AccountData.config config') (emit event created)))

  -- Anchor's `bump = prize_pool.bump`.
  unfoldable pub remove_prize_pool : World → Result World
  remove_prize_pool w = do
    check_signer tx a.admin
    config ← as_config (w.account a.config)
    pool ← as_prize_pool (w.account a.prize_pool)
    check_mut tx a.admin
    check_seeds rt a.config Seeds.global_config
    check_mut tx a.config
    require (config.admin == a.admin) unauthorized
    check_seeds_bump rt a.prize_pool (Seeds.prize_pool pool.index) pool.bump
    check_mut tx a.prize_pool
    config' ← drop_pool pool.index config
    let event =
        prize_pool_removed
          (record { admin = a.admin; index = pool.index; swap_pool = pool.swap_pool })
    ok (
        close_account a.prize_pool a.admin
          (store a.config (AccountData.config config') (emit event w)))

  unfoldable pub update_prize_pool :
      Option Pubkey → Option PoolType → Option (List ℕ) → World → Result World
  update_prize_pool swap_pool pool_type name w = do
    check_signer tx a.admin
    config ← as_config (w.account a.config)
    pool ← as_prize_pool (w.account a.prize_pool)
    check_seeds rt a.config Seeds.global_config
    require (config.admin == a.admin) unauthorized
    check_seeds_bump rt a.prize_pool (Seeds.prize_pool pool.index) pool.bump
    check_mut tx a.prize_pool
    let pool' = record pool {
      swap_pool = unwrap_or swap_pool pool.swap_pool;
      pool_type = unwrap_or pool_type pool.pool_type;
      name = unwrap_or name pool.name;
    }
    let event = prize_pool_updated (record {
      admin = a.admin;
      index = pool.index;
      old_swap_pool = pool.swap_pool;
      new_swap_pool = pool'.swap_pool;
    })
    check_name pool'.name
    ok (store a.prize_pool (AccountData.prize_pool pool') (emit event w))
