-- ===== src/Lifecycle/Stored.antt =====
-- The accounts of the active pools (state/global_config.rs, state/prize_pool.rs): each index of the
-- list of active pools has its account, and no index stands in the list twice.
use card_machine.Prelude.{
  ℕ, ◌≡◌, refl, sym, ap, ◌∙◌, subst, Bool-cases, ◌==◌, ==_iff, inl, inr, some, List, All,
}
use card_machine.Prelude.Distinct.{Distinct, All-map}
use card_machine.Constants.{Pubkey}
use card_machine.State.{MintRequest, IpFlowState}
use card_machine.Runtime.{Runtime, World, AccountData, Seeds}
use card_machine.Runtime.Laws.{KeepsOwn, own}
use card_machine.Runtime.Requests.{request_in}
use card_machine.Admin.PrizePool.Active.{Represents}
use card_machine.Lifecycle.Leaves.{Leaves}

-- An account holds the pool of an index.
abbrev pub HoldsIndex : ℕ → AccountData → Type 0
HoldsIndex i (AccountData.prize_pool pool) = pool.index ≡ i
HoldsIndex i _ = ⊥

-- Every account that holds a pool goes on to hold one, of the same index.
abbrev pub KeepsPools : World → World → Type 0
KeepsPools w w' = (key i : ℕ) → HoldsIndex i (w.account key) → HoldsIndex i (w'.account key)

abbrev pub NoPool : AccountData → Type 0
NoPool d = (i : ℕ) → HoldsIndex i d → ⊥

HoldsIndex-own : (i : ℕ) (d : AccountData) → HoldsIndex i (own d) ≡ HoldsIndex i d
HoldsIndex-own i (AccountData.config c) = refl
HoldsIndex-own i (AccountData.mint_request r) = refl
HoldsIndex-own i (AccountData.prize_pool p) = refl
HoldsIndex-own i _ = refl

pub same_pool : (i : ℕ) (d d' : AccountData) → own d' ≡ own d → HoldsIndex i d → HoldsIndex i d'
same_pool i d d' e =
    subst (λ T. T) (sym (HoldsIndex-own i d) ∙ ap (HoldsIndex i) (sym e) ∙ HoldsIndex-own i d')

pub kept_pools : {w w' : World} → KeepsOwn w w' → KeepsPools w w'
kept_pools {w} {w'} keeps key i = same_pool i (w.account key) (w'.account key) (keeps.accounts key)

-- One account without a pool is written.
pub left_pools :
    (w w' : World) (address : Pubkey) (d : AccountData)
    → Leaves w w' address d
    → NoPool (w.account address)
    → KeepsPools w w'
left_pools w w' address d x free key i held = elim (Bool-cases (key == address)) [
  | inl here ↦
      absurd (free i (subst (λ k. HoldsIndex i (w.account k)) ((==_iff key address).0 here) held))
  | inr elsewhere ↦ rw (x.left key, elsewhere) (kept_pools x.keeps key i held)
]

pub request-NoPool : (d : AccountData) (r : MintRequest) → request_in d ≡ some r → NoPool d
request-NoPool (AccountData.prize_pool p) r e i h = absurd cc
request-NoPool (AccountData.mint_request q) r e i h = h
request-NoPool (AccountData.config c) r e i h = h
request-NoPool _ r e i h = h

module _ (rt : Runtime) where
  -- The address of the configuration, and of the pool of an index.
  abbrev pub config_address : Pubkey
  config_address = (rt.find_program_address Seeds.global_config).0

  abbrev pub pool_address : ℕ → Pubkey
  pool_address i = (rt.find_program_address (Seeds.prize_pool i)).0

  abbrev pub HasPool : World → ℕ → Type 0
  HasPool w i = HoldsIndex i (w.account (pool_address i))

  -- A configuration's list of active pools, without repetition, and each with its account.
  pub record ListsPools (w : World) (c : IpFlowState) : Type 0 where
    pub pools : List ℕ
    pub active : Represents c pools
    pub stored : All (HasPool w) pools
    pub distinct : Distinct pools

  abbrev pub PoolsStored : World → AccountData → Type 0
  PoolsStored w (AccountData.config c) = ListsPools w c
  PoolsStored w _ = Unit {0}

  -- What the invariant says of a world.
  abbrev pub Consistent : World → Type 0
  Consistent w = PoolsStored w (w.account config_address)

  PoolsStored-own : (w : World) (d : AccountData) → PoolsStored w (own d) ≡ PoolsStored w d
  PoolsStored-own w (AccountData.config c) = refl
  PoolsStored-own w (AccountData.mint_request r) = refl
  PoolsStored-own w (AccountData.prize_pool p) = refl
  PoolsStored-own w _ = refl

  -- It reads accounts of the program only.
  pub own_stored :
      (w : World) (d d' : AccountData) → own d' ≡ own d → PoolsStored w d → PoolsStored w d'
  own_stored w d d' e =
      subst (λ T. T) (sym (PoolsStored-own w d) ∙ ap (PoolsStored w) (sym e) ∙ PoolsStored-own w d')

  pub PoolsStored-kept :
      (w w' : World) (d : AccountData) → KeepsPools w w' → PoolsStored w d → PoolsStored w' d
  PoolsStored-kept w w' (AccountData.config c) keeps x = record {
    pools = x.pools;
    active = x.active;
    stored = All-map (HasPool w) (HasPool w') x.pools (λ i. keeps (pool_address i) i) x.stored;
    distinct = x.distinct;
  }
  PoolsStored-kept w w' _ keeps x = tt
