-- ===== src/Admin/PrizePool/Removal.antt =====
-- `drop_pool` of instructions/admin/prize_pool.rs, with all its ways to end.
use card_machine.Prelude.{
  ℕ, ◌<◌, ◌≡◌, ◌≢◌, ◌⊎◌, inl, inr, refl, ap, subst, All, List, [], ◌∷◌, ◌++◌, length, ℕ_discrete,
  arith,
}
use card_machine.Errors.{Result, ok, err, custom, invalid_prize_pool_index, no_prize_pool_to_remove}
use card_machine.State.{IpFlowState}
use card_machine.Admin.PrizePool.{drop_pool}
use card_machine.Admin.PrizePool.Active.{Represents, drop_pool-Represents, drop_pool_absent}

-- An index is in a list, after entries that differ from it, or it is not.
pub first_place :
    (index : ℕ) (pools : List ℕ)
    → All (λ x. x ≢ index) pools
      ⊎ ((before : List ℕ) × (after : List ℕ) × (pools ≡ before ++ index ∷ after)
          × All (λ x. x ≢ index) before)
first_place index [] = inl tt
first_place index (x ∷ pools) = elim (ℕ_discrete x index) [
  | yes e ↦ inr ([], pools, ap (λ y. y ∷ pools) e, tt)
  | no other ↦ elim (first_place index pools) [
    | inl absent ↦ inl (other, absent)
    | inr (before, after, e, absent) ↦ inr (x ∷ before, after, ap (λ ys. x ∷ ys) e, (other, absent))
  ]
]

-- Every way in which a removal ends, by the list of active pools.
abbrev pub IsRemoval : IpFlowState → List ℕ → ℕ → Result IpFlowState → Type 0
IsRemoval config pools index result =
    ((pools ≡ []) × (result ≡ err (custom no_prize_pool_to_remove)))
    ⊎ ((0 < length pools)
        × All (λ x. x ≢ index) pools
        × (result ≡ err (custom invalid_prize_pool_index)))
    ⊎ ((before : List ℕ) × (after : List ℕ) × (config' : IpFlowState) × (pools
          ≡ before ++ index ∷ after)
        × All (λ x. x ≢ index) before
        × (result ≡ ok config')
        × Represents config' (before ++ after)
        × (config'.prize_pool_count ≡ config.prize_pool_count))

drop_pool_empty :
    (config : IpFlowState) (index : ℕ)
    → Represents config []
    → drop_pool index config ≡ err (custom no_prize_pool_to_remove)
unfolding drop_pool
drop_pool_empty config index r = let none_active = r.counted in ground arith

-- Where the array represents a list of active pools, a removal fails for the lack of pools when
-- the list is empty, and for an invalid index when the index is not in it. Otherwise it takes out
-- the first place of the index, keeps the order of the others, and leaves the counter of indices
-- alone.
pub drop_pool-IsRemoval :
    (config : IpFlowState) (pools : List ℕ) (index : ℕ)
    → Represents config pools
    → IsRemoval config pools index (drop_pool index config)
drop_pool-IsRemoval config [] index r = inl (refl, drop_pool_empty config index r)
drop_pool-IsRemoval config (x ∷ pools) index r = elim (first_place index (x ∷ pools)) [
  | inl absent ↦
      inr (
        inl (omega arith, absent, drop_pool_absent config (x ∷ pools) index r (omega arith) absent))
  | inr (before, after, here, absent) ↦
      let (config', dropped, r', same) =
        drop_pool-Represents config before after index (subst (Represents config) here r) absent in
      inr (inr (before, after, config', here, absent, dropped, r', same))
]

-- A removal that succeeds takes its index out of the list.
pub drop_pool-Represents_without :
    (config config' : IpFlowState) (index : ℕ) (pools : List ℕ)
    → drop_pool index config ≡ ok config'
    → Represents config pools
    → (before : List ℕ) × (after : List ℕ) × (pools ≡ before ++ index ∷ after)
      × Represents config' (before ++ after)
drop_pool-Represents_without config config' index pools h r =
    elim (drop_pool-IsRemoval config pools index r) [
      | inl (empty, fails) ↦ absurd (ground arith)
      | inr (inl (some_active, absent, fails)) ↦ absurd (ground arith)
      | inr (inr (before, after, c, here, absent, dropped, r', same)) ↦
          let equal : c ≡ config' = ground arith in
          (before, after, here, subst (λ x. Represents x (before ++ after)) equal r')
    ]
