-- ===== src/Lifecycle/Pools.antt =====
-- The accounts of the active pools under the instructions on pools (instructions/admin/prize_pool.rs).
use card_machine.Prelude.{
  ℕ, ◌≡◌, ◌≢◌, refl, sym, ap, ◌∙◌, subst, Bool-cases, ◌==◌, ==_iff, ==_self, if◌then◌else◌, inl,
  inr, Option, List, [], ◌∷◌, ◌++◌, All, arith,
}
use card_machine.Prelude.Distinct.{
  Distinct, All-map, All-both, All-snoc, All-without, Distinct-snoc, Distinct-without,
}
use card_machine.Constants.{Pubkey}
use card_machine.State.{IpFlowState, PoolType}
use card_machine.Runtime.{Runtime, World, Transaction, AccountData}
use card_machine.Runtime.Laws.{RuntimeLaws, KeepsOwn, keeps_same}
use card_machine.Admin.PrizePool.{PrizePoolAccounts}
use card_machine.Admin.PrizePool.Addition.{push_pool-Represents}
use card_machine.Admin.PrizePool.Removal.{drop_pool-Represents_without}
use card_machine.Admin.PrizePool.Accounts.{Adds, Removes, Updates}
use card_machine.Lifecycle.Stored.{
  HoldsIndex, KeepsPools, same_pool, HasPool, ListsPools, PoolsStored, PoolsStored-kept, Consistent,
  config_address, pool_address,
}
use card_machine.Lifecycle.Consistent.{lists}

-- Two accounts are written, one that holds a pool afterwards or held one, and the configuration.
abbrev Writes2 : World → World → Pubkey → AccountData → Pubkey → AccountData → Type 0
Writes2 kept w' pool d config c =
    (k : Pubkey)
    → w'.account k ≡ (if k == pool then d else if k == config then c else kept.account k)

module _ (kept w w' : World) (pool config : Pubkey) (d c : AccountData)
    (e : Writes2 kept w' pool d config c) (s : IpFlowState)
    (stored : w.account config ≡ AccountData.config s) where
  -- An index that is held elsewhere is held on.
  held_on :
      (k i : ℕ)
      → KeepsOwn w kept
      → (HoldsIndex i (w.account pool) → HoldsIndex i d)
      → HoldsIndex i (w.account k)
      → HoldsIndex i (w'.account k)
  held_on k i keeps moved held = elim (Bool-cases (k == pool)) [
    | inl here ↦
        rw (e k)
          (rw here (moved (subst (λ j. HoldsIndex i (w.account j)) ((==_iff k pool).0 here) held)))
    | inr elsewhere ↦ elim (Bool-cases (k == config)) [
      | inl there ↦ absurd (
          subst (HoldsIndex i) stored
            (subst (λ j. HoldsIndex i (w.account j)) ((==_iff k config).0 there) held))
      | inr nowhere ↦ rw (e k) (
          rw elsewhere
            (rw nowhere (same_pool i (w.account k) (kept.account k) (keeps.accounts k) held)))
    ]
  ]

  -- The configuration that is written is found at its address.
  written_config : (pool ≡ config → ⊥) → w'.account config ≡ c
  written_config other = elim (Bool-cases (config == pool)) [
    | inl here ↦ absurd (other (sym ((==_iff config pool).0 here)))
    | inr elsewhere ↦ e config ∙ rw elsewhere (rw (==_self config) refl)
  ]

module _ (rt : Runtime) (tx : Transaction) (a : PrizePoolAccounts) where
  at_config :
      (w' : World) (c : IpFlowState)
      → a.config ≡ config_address rt
      → w'.account a.config ≡ AccountData.config c
      → ListsPools rt w' c
      → Consistent rt w'
  at_config w' c at e l =
      subst (λ k. PoolsStored rt w' (w'.account k)) at (subst (PoolsStored rt w') (sym e) l)

  pub add-Consistent :
      (laws : RuntimeLaws rt) (swap_pool : Pubkey) (pool_type : PoolType) (name : List ℕ)
      (w w' : World)
      → Adds rt tx a swap_pool pool_type name w w'
      → Consistent rt w
      → Consistent rt w'
  add-Consistent laws swap_pool pool_type name w w' x c =
      let l = lists rt w a.config x.config x.allowed.at_config x.allowed.stored c in
      let (keeps, free) = laws.create_keeps _ a.prize_pool _ w x.created x.opened in
      let e : Writes2 x.created w' a.prize_pool _ a.config (AccountData.config x.config') =
        λ k. ap (λ v. World.account v k) x.result in
      let new : (i : ℕ) → HoldsIndex i (w.account a.prize_pool) → ⊥ =
        λ i h. subst (HoldsIndex i) free h in
      let fresh : (i : ℕ) → HasPool rt w i → i ≢ x.index = λ i h same.
        new i (
          subst (λ k. HoldsIndex i (w.account k)) (ap (pool_address rt) same ∙ sym x.at_index) h) in
      let other : a.prize_pool ≡ a.config → ⊥ = λ q.
        let both =
          subst (λ k. w.account k ≡ AccountData.config x.config) (sym q) x.allowed.stored in
        ground arith in
      let pools' = l.pools ++ x.index ∷ [] in
      let on : (i : ℕ) → HasPool rt w i → HasPool rt w' i = λ i.
        held_on x.created w w' a.prize_pool a.config _ _ e x.config x.allowed.stored
          (pool_address rt i) i keeps (λ h. absurd (new i h)) in
      let opened : HasPool rt w' x.index =
        subst (λ k. HoldsIndex x.index (w'.account k)) x.at_index
          (rw (e a.prize_pool) (rw (==_self a.prize_pool) refl)) in
      at_config w' x.config' x.allowed.at_config
        (written_config x.created w w' a.prize_pool a.config _ _ e x.config x.allowed.stored other)
        (record {
          pools = pools';
          active =
              push_pool-Represents rt.overflow_checks x.config x.config' x.index l.pools x.pushed
                x.next_index l.active;
          stored =
              All-snoc (HasPool rt w') l.pools x.index
                (All-map (HasPool rt w) (HasPool rt w') l.pools on l.stored) opened;
          distinct =
              Distinct-snoc l.pools x.index l.distinct
                (All-map (HasPool rt w) (λ i. i ≢ x.index) l.pools fresh l.stored);
        })

  pub update-Consistent :
      (swap_pool : Option Pubkey) (pool_type : Option PoolType) (name : Option (List ℕ))
      (w w' : World)
      → Updates rt tx a swap_pool pool_type name w w'
      → Consistent rt w
      → Consistent rt w'
  update-Consistent swap_pool pool_type name w w' x c =
      let key = config_address rt in
      let e : (k : Pubkey) → w'.account k ≡ (if k == a.prize_pool then _ else w.account k) =
        λ k. ap (λ v. World.account v k) x.result in
      let keeps : KeepsPools w w' = λ k i held. elim (Bool-cases (k == a.prize_pool)) [
        | inl here ↦ rw (e k) (
            rw here (
              subst (HoldsIndex i) x.has_pool.stored
                (subst (λ j. HoldsIndex i (w.account j)) ((==_iff k a.prize_pool).0 here) held)))
        | inr elsewhere ↦ rw (e k) (rw elsewhere held)
      ] in
      elim (Bool-cases (key == a.prize_pool)) [
        | inl here ↦ rw (e key) (rw here tt)
        | inr elsewhere ↦
            rw (e key) (rw elsewhere (PoolsStored-kept rt w w' (w.account key) keeps c))
      ]

  pub remove-Consistent : (w w' : World) → Removes rt tx a w w' → Consistent rt w → Consistent rt w'
  remove-Consistent w w' x c =
      let l = lists rt w a.config x.config x.allowed.at_config x.allowed.stored c in
      let e : Writes2 w w' a.prize_pool AccountData.vacant a.config (AccountData.config x.config') =
        λ k. ap (λ v. World.account v k) x.result in
      let index = x.pool.index in
      let (before, after, here, active) =
        drop_pool-Represents_without x.config x.config' index l.pools x.dropped l.active in
      let (distinct, others) =
        Distinct-without before index after (subst Distinct here l.distinct) in
      let still =
        All-without (HasPool rt w) before index after (subst (All (HasPool rt w)) here l.stored) in
      let other : a.prize_pool ≡ a.config → ⊥ = λ q.
        let both =
          subst (λ k. w.account k ≡ AccountData.config x.config) (sym q) x.allowed.stored in
        let held = x.has_pool.stored in ground arith in
      let on : (i : ℕ) → HasPool rt w i → i ≢ index → HasPool rt w' i = λ i h differs.
        held_on w w w' a.prize_pool a.config _ _ e x.config x.allowed.stored (pool_address rt i) i
          (keeps_same w) (λ g. differs (sym (subst (HoldsIndex i) x.has_pool.stored g))) h in
      at_config w' x.config' x.allowed.at_config
        (written_config w w w' a.prize_pool a.config _ _ e x.config x.allowed.stored other)
        (record {
          pools = before ++ after;
          active = active;
          stored =
              All-both (HasPool rt w) (λ i. i ≢ index) (HasPool rt w') (before ++ after) on still
                others;
          distinct = distinct;
        })
