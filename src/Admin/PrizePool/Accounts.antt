-- ===== src/Admin/PrizePool/Accounts.antt =====
-- Pools that are added, removed and updated (instructions/admin/prize_pool.rs): who may do it, and
-- what is stored.
use card_machine.Prelude.{
  ℕ, ◌+◌, ◌≤◌, ◌≡◌, inl, inr, true, Option, some, List, length, Option-cases, arith,
}
use card_machine.Constants.{Pubkey}
use card_machine.Errors.{ok, Result-cases}
use card_machine.Words.{unwrap_or}
use card_machine.State.{
  PoolType, PrizePoolAccount, IpFlowState, Event, prize_pool_added, prize_pool_removed,
  prize_pool_updated,
}
use card_machine.Runtime.{
  Runtime, World, Transaction, AccountData, Seeds, contains, store, emit, close_account,
}
use card_machine.Runtime.Inversion.{as_config-cases, as_prize_pool-cases}
use card_machine.Admin.PrizePool.Steps.{push_pool_index}
use card_machine.Admin.PrizePool.{
  PrizePoolAccounts, push_pool, drop_pool, prize_pool_space, add_prize_pool, remove_prize_pool,
  update_prize_pool,
}

module _ (rt : Runtime) (tx : Transaction) (a : PrizePoolAccounts) where
  -- The signer is the administrator of the configuration, which stands at its own address.
  pub record IsAdmin (w : World) (config : IpFlowState) : Type 0 where
    pub signed : contains tx.signers a.admin ≡ true
    pub stored : w.account a.config ≡ AccountData.config config
    pub admin : config.admin ≡ a.admin
    pub at_config : a.config ≡ (rt.find_program_address Seeds.global_config).0

  -- The account of a new pool.
  abbrev new_pool : ℕ → Pubkey → PoolType → List ℕ → PrizePoolAccount
  new_pool index swap_pool pool_type name = record {
    index = index;
    swap_pool = swap_pool;
    pool_type = pool_type;
    name = name;
    bump = (rt.find_program_address (Seeds.prize_pool index)).1;
  }

  abbrev added_event : ℕ → Pubkey → PoolType → List ℕ → Event
  added_event index swap_pool pool_type name = prize_pool_added (record {
    admin = a.admin;
    index = index;
    swap_pool = swap_pool;
    pool_type = pool_type;
    name = name;
  })

  pub record Adds (swap_pool : Pubkey) (pool_type : PoolType) (name : List ℕ) (w w' : World)
      : Type 0 where
    pub config : IpFlowState
    pub config' : IpFlowState
    pub created : World
    pub index : ℕ
    pub allowed : IsAdmin w config
    pub short_name : length name ≤ 16
    pub opened : rt.create_account a.admin a.prize_pool (8 + prize_pool_space) w ≡ ok created
    pub at_index : a.prize_pool ≡ (rt.find_program_address (Seeds.prize_pool index)).0
    pub pushed : push_pool rt.overflow_checks config ≡ ok (index, config')
    pub next_index : index ≡ config.prize_pool_count
    pub result :
        w'
        ≡ store a.prize_pool (AccountData.prize_pool (new_pool index swap_pool pool_type name)) (
            store a.config
              (AccountData.config config')
              (emit (added_event index swap_pool pool_type name) created))

  add_steps :
      (swap_pool : Pubkey) (pool_type : PoolType) (name : List ℕ) (w w' created : World)
      (config config' : IpFlowState) (index : ℕ)
      → w.account a.config ≡ AccountData.config config
      → rt.create_account a.admin a.prize_pool (8 + prize_pool_space) w ≡ ok created
      → push_pool rt.overflow_checks config ≡ ok (index, config')
      → index ≡ config.prize_pool_count
      → add_prize_pool rt tx a swap_pool pool_type name w ≡ ok w'
      → Adds swap_pool pool_type name w w'
  unfolding add_prize_pool
  add_steps swap_pool pool_type name w w' created config config' index ec opened pushed next h =
      record {
        config = config;
        config' = config';
        created = created;
        index = index;
        allowed = record {
          signed = ground arith;
          stored = ec;
          admin = ground arith;
          at_config = ground arith;
        };
        short_name = ground arith;
        opened = opened;
        at_index = ground arith;
        pushed = pushed;
        next_index = next;
        result = ground arith;
      }

  -- An addition of a pool that succeeds is signed by the administrator of the configuration, which
  -- stands at its own address, and has a name of at most 16 bytes. At the address of the next
  -- index it opens an account, in which it stores the pool with that index and the canonical bump;
  -- it stores the configuration that `push_pool` gives, emits the event, and changes nothing else
  -- after the account is opened.
  pub add_prize_pool-Adds :
      (swap_pool : Pubkey) (pool_type : PoolType) (name : List ℕ) (w w' : World)
      → add_prize_pool rt tx a swap_pool pool_type name w ≡ ok w'
      → Adds swap_pool pool_type name w w'
  unfolding add_prize_pool
  add_prize_pool-Adds swap_pool pool_type name w w' h =
      elim (as_config-cases (w.account a.config)) [
        | inr (e, fails) ↦ absurd (ground arith)
        | inl (config, ec) ↦
            elim (Result-cases (rt.create_account a.admin a.prize_pool (8 + prize_pool_space) w)) [
              | inr (x, unopened) ↦ absurd (ground arith)
              | inl (created, opened) ↦ elim (Result-cases (push_pool rt.overflow_checks config)) [
                | inr (y, full) ↦ absurd (ground arith)
                | inl ((index, config'), pushed) ↦
                    add_steps swap_pool pool_type name w w' created config config' index ec opened
                      pushed (push_pool_index rt.overflow_checks config config' index pushed) h
              ]
            ]
      ]

  -- The pool's account stands at the address of its index and bump.
  pub record HasPool (w : World) (pool : PrizePoolAccount) : Type 0 where
    pub stored : w.account a.prize_pool ≡ AccountData.prize_pool pool
    pub at_index :
        rt.create_program_address (Seeds.prize_pool pool.index) pool.bump ≡ some a.prize_pool

  abbrev removed_event : PrizePoolAccount → Event
  removed_event pool =
      prize_pool_removed
        (record { admin = a.admin; index = pool.index; swap_pool = pool.swap_pool })

  pub record Removes (w w' : World) : Type 0 where
    pub config : IpFlowState
    pub config' : IpFlowState
    pub pool : PrizePoolAccount
    pub allowed : IsAdmin w config
    pub has_pool : HasPool w pool
    pub dropped : drop_pool pool.index config ≡ ok config'
    pub result :
        w'
        ≡ close_account a.prize_pool a.admin
            (store a.config (AccountData.config config') (emit (removed_event pool) w))

  -- A removal of a pool that succeeds is signed by the administrator of the configuration, which
  -- stands at its own address, for a pool that stands at the address of its index and bump. It
  -- stores the configuration that `drop_pool` gives for that index, emits the event, closes the
  -- pool's account in favour of the administrator, and changes nothing else.
  pub remove_prize_pool-Removes :
      (w w' : World) → remove_prize_pool rt tx a w ≡ ok w' → Removes w w'
  unfolding remove_prize_pool
  remove_prize_pool-Removes w w' h = elim (as_config-cases (w.account a.config)) [
    | inr (e, fails) ↦ absurd (ground arith)
    | inl (config, ec) ↦ elim (as_prize_pool-cases (w.account a.prize_pool)) [
      | inr (e, no_pool) ↦ absurd (ground arith)
      | inl (pool, ep) ↦
          elim (Option-cases (rt.create_program_address (Seeds.prize_pool pool.index) pool.bump)) [
            | inl no_address ↦ absurd (ground arith)
            | inr (address, ea) ↦ elim (Result-cases (drop_pool pool.index config)) [
              | inr (y, fails) ↦ absurd (ground arith)
              | inl (config', dropped) ↦ record {
                config = config;
                config' = config';
                pool = pool;
                allowed = record {
                  signed = ground arith;
                  stored = ec;
                  admin = ground arith;
                  at_config = ground arith;
                };
                has_pool = record { stored = ep; at_index = ground arith };
                dropped = dropped;
                result = ground arith;
              }
            ]
          ]
    ]
  ]

  abbrev updated_pool :
      Option Pubkey → Option PoolType → Option (List ℕ) → PrizePoolAccount → PrizePoolAccount
  updated_pool swap_pool pool_type name pool = record pool {
    swap_pool = unwrap_or swap_pool pool.swap_pool;
    pool_type = unwrap_or pool_type pool.pool_type;
    name = unwrap_or name pool.name;
  }

  abbrev updated_event : Option Pubkey → PrizePoolAccount → Event
  updated_event swap_pool pool = prize_pool_updated (record {
    admin = a.admin;
    index = pool.index;
    old_swap_pool = pool.swap_pool;
    new_swap_pool = unwrap_or swap_pool pool.swap_pool;
  })

  pub record Updates (swap_pool : Option Pubkey) (pool_type : Option PoolType)
      (name : Option (List ℕ)) (w w' : World) : Type 0 where
    pub config : IpFlowState
    pub pool : PrizePoolAccount
    pub allowed : IsAdmin w config
    pub has_pool : HasPool w pool
    pub short_name : length (unwrap_or name pool.name) ≤ 16
    pub result :
        w'
        ≡ store a.prize_pool
            (AccountData.prize_pool (updated_pool swap_pool pool_type name pool))
            (emit (updated_event swap_pool pool) w)

  pub update_prize_pool-Updates :
      (swap_pool : Option Pubkey) (pool_type : Option PoolType) (name : Option (List ℕ))
      (w w' : World)
      → update_prize_pool rt tx a swap_pool pool_type name w ≡ ok w'
      → Updates swap_pool pool_type name w w'
  unfolding update_prize_pool
  update_prize_pool-Updates swap_pool pool_type name w w' h =
      elim (as_config-cases (w.account a.config)) [
        | inr (e, fails) ↦ absurd (ground arith)
        | inl (config, ec) ↦ elim (as_prize_pool-cases (w.account a.prize_pool)) [
          | inr (e, no_pool) ↦ absurd (ground arith)
          | inl (pool, ep) ↦
              elim (Option-cases
                (rt.create_program_address (Seeds.prize_pool pool.index) pool.bump)) [
                  | inl no_address ↦ absurd (ground arith)
                  | inr (address, ea) ↦ record {
                    config = config;
                    pool = pool;
                    allowed = record {
                      signed = ground arith;
                      stored = ec;
                      admin = ground arith;
                      at_config = ground arith;
                    };
                    has_pool = record { stored = ep; at_index = ground arith };
                    short_name = ground arith;
                    result = ground arith;
                  }
                ]
        ]
      ]
