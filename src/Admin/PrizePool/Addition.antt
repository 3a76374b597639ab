-- ===== src/Admin/PrizePool/Addition.antt =====
-- `push_pool` of instructions/admin/prize_pool.rs, with all its ways to end.
use card_machine.Prelude.{
  ℕ, ◌+◌, ◌≤◌, ◌<◌, ◌≡◌, ◌⊎◌, inl, inr, refl, sym, subst, set, ◌%◌, Bool-cases, dec_lt, Bool, true,
  false, List, [], ◌∷◌, ◌++◌, length, arith,
}
use card_machine.Constants.{max_prize_pools}
use card_machine.Errors.{Result, ok, err, custom, panicked, max_prize_pools_reached}
use card_machine.Words.{add_u8}
use card_machine.State.{IpFlowState}
use card_machine.Admin.PrizePool.{push_pool}
use card_machine.Admin.PrizePool.Steps.{push_pool_lem}
use card_machine.Admin.PrizePool.Active.{Represents, length-padded, pushed-Represents}

-- Every way in which an addition ends, by the list of active pools and the counter of indices.
abbrev pub IsAddition : Bool → IpFlowState → List ℕ → Result (ℕ × IpFlowState) → Type 0
IsAddition checks config pools result =
    ((length pools ≡ max_prize_pools) × (result ≡ err (custom max_prize_pools_reached)))
    ⊎ ((length pools < max_prize_pools)
        × (config.prize_pool_count ≡ 255)
        × (checks ≡ true)
        × (result ≡ err panicked))
    ⊎ ((length pools < max_prize_pools)
        × ((config.prize_pool_count < 255) ⊎ (checks ≡ false))
        × (config' : IpFlowState) × (result ≡ ok (config.prize_pool_count, config'))
        × Represents config' (pools ++ config.prize_pool_count ∷ [])
        × (config'.prize_pool_count ≡ (config.prize_pool_count + 1) % 256))

-- The configuration that an addition leaves, with `n` as its counter.
abbrev pushed : IpFlowState → ℕ → IpFlowState
pushed config n = record config {
  prize_pool_count = n;
  active_pool_count = config.active_pool_count + 1;
  active_pool_indices =
      set config.active_pool_indices config.active_pool_count config.prize_pool_count;
}

module _ (checks : Bool) (config : IpFlowState) (pools : List ℕ) (r : Represents config pools) where
  push_pool_full :
      length pools ≡ max_prize_pools
      → push_pool checks config ≡ err (custom max_prize_pools_reached)
  unfolding push_pool
  push_pool_full full = ground (arith, r.counted)

  push_pool_over :
      length pools < max_prize_pools
      → config.prize_pool_count ≡ 255
      → checks ≡ true
      → push_pool checks config ≡ err panicked
  unfolding push_pool add_u8
  push_pool_over room last checked = ground (arith, r.counted, length-padded config pools r)

  push_pool_fits :
      length pools < max_prize_pools
      → config.prize_pool_count ≤ 255
      → (config.prize_pool_count < 255) ⊎ (checks ≡ false)
      → push_pool checks config
        ≡ ok (config.prize_pool_count, pushed config ((config.prize_pool_count + 1) % 256))
  unfolding push_pool add_u8
  push_pool_fits room byte counts = ground (arith, r.counted, length-padded config pools r)

  -- Where the array represents a list of active pools and the counter of indices is a `u8`, an
  -- addition fails when the list has 50 pools, and panics at the counter 255 in a build that
  -- checks overflow. Otherwise it returns the counter, appends it to the list, and raises the
  -- counter by one modulo 256.
  pub push_pool-IsAddition :
      config.prize_pool_count ≤ 255 → IsAddition checks config pools (push_pool checks config)
  push_pool-IsAddition byte = elim (dec_lt (length pools) max_prize_pools) [
    | no full ↦
        let all : length pools ≡ max_prize_pools = omega (arith, r.fits) in
        inl (all, push_pool_full all)
    | yes room ↦ elim (dec_lt config.prize_pool_count 255) [
      | yes small ↦ added room byte (inl small)
      | no large ↦ elim (Bool-cases checks) [
        | inl checked ↦
            let last : config.prize_pool_count ≡ 255 = omega arith in
            inr (inl (room, last, checked, push_pool_over room last checked))
        | inr unchecked ↦ added room byte (inr unchecked)
      ]
    ]
  ]
    where
      added :
          length pools < max_prize_pools
          → config.prize_pool_count ≤ 255
          → (config.prize_pool_count < 255) ⊎ (checks ≡ false)
          → IsAddition checks config pools (push_pool checks config)
      added room byte counts = inr (
          inr (
            room,
            counts,
            pushed config ((config.prize_pool_count + 1) % 256),
            push_pool_fits room byte counts,
            pushed-Represents config pools _ config.prize_pool_count r room,
            refl,
          ))

-- An addition that succeeds appends its index to the list.
pub push_pool-Represents :
    (checks : Bool) (config config' : IpFlowState) (index : ℕ) (pools : List ℕ)
    → push_pool checks config ≡ ok (index, config')
    → index ≡ config.prize_pool_count
    → Represents config pools
    → Represents config' (pools ++ index ∷ [])
push_pool-Represents checks config config' index pools h next r =
    let (room, n, e) = push_pool_lem checks config config' index h in
    let fewer : length pools < max_prize_pools = omega (arith, room, r.counted) in
    let after = pushed-Represents config pools n config.prize_pool_count r fewer in
    rw next (subst (λ c. Represents c (pools ++ config.prize_pool_count ∷ [])) (sym e) after)
