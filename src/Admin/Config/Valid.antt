-- ===== src/Admin/Config/Valid.antt =====
-- The settings that the instructions of the administrator leave (instructions/admin/): every field
-- in its machine type, and the array of active pools a list with its padding.
use card_machine.Prelude.{
  ℕ, ◌^◌, ◌<◌, ◌≡◌, refl, sym, subst, Bool, true, List, [], ◌∷◌, ◌++◌, arith, ltb, replicate, All,
  lt→ltb,
}
use card_machine.Constants.{max_prize_pools}
use card_machine.Errors.{ok}
use card_machine.State.{IpFlowState}
use card_machine.Layout.RoundTrip.{Fits, IsI64}
use card_machine.Runtime.{Runtime, Transaction, Seeds}
use card_machine.Prelude.Bytes.{Byte}
use card_machine.Prelude.Distinct.{All-snoc, All-without}
use card_machine.Admin.Config.Ranges.{
  HoldsBytes, Represents-Byte, listed-HoldsBytes, push_pool-Byte,
}
use card_machine.Admin.Config.{ConfigAccounts, initial, migrated}
use card_machine.Admin.PrizePool.{push_pool, drop_pool}
use card_machine.Admin.PrizePool.Addition.{push_pool-Represents}
use card_machine.Admin.PrizePool.Removal.{drop_pool-Represents_without}
use card_machine.Admin.PrizePool.Steps.{push_pool_lem, push_pool_index, drop_pool_lem}
use card_machine.Admin.PrizePool.Active.{Represents, length-padded}

pub record IsValid (c : IpFlowState) : Type 0 where
  pub fits : Fits c
  pub bytes : HoldsBytes c
  pub pools : List ℕ
  pub active : Represents c pools

-- Only the counts and the array have changed.
with_pools :
    (c : IpFlowState) (n count : ℕ) (indices pools : List ℕ)
    → Fits c
    → HoldsBytes c
    → Byte n
    → All Byte pools
    → Represents
        (record c {
          prize_pool_count = n;
          active_pool_count = count;
          active_pool_indices = indices;
        })
        pools
    → IsValid (record c {
      prize_pool_count = n;
      active_pool_count = count;
      active_pool_indices = indices;
    })
with_pools c n count indices pools f b small all r = record {
  fits = record {
    admin = f.admin;
    total_collected = f.total_collected;
    platform_fee_bps = f.platform_fee_bps;
    indices = length-padded _ pools r;
    oracle_queue = f.oracle_queue;
    timeout = f.timeout;
  };
  bytes = listed-HoldsBytes c _ pools b refl refl small r all;
  pools = pools;
  active = r;
}

-- ==================== Adding a pool ====================

pub push_pool-IsValid :
    (checks : Bool) (c c' : IpFlowState) (index : ℕ)
    → push_pool checks c ≡ ok (index, c')
    → IsValid c
    → IsValid c'
push_pool-IsValid checks c c' index h v =
    let (room, n, e) = push_pool_lem checks c c' index h in
    let index_lem =
      push_pool-Represents checks c c' index v.pools h (push_pool_index checks c c' index h)
        v.active in
    subst IsValid (sym e) (
      with_pools c n _ _ (v.pools ++ index ∷ []) v.fits v.bytes
        (subst (λ x. Byte (IpFlowState.prize_pool_count x)) e (push_pool-Byte checks c c' index h))
        (All-snoc Byte v.pools index (Represents-Byte c v.pools v.bytes v.active)
          (rw (push_pool_index checks c c' index h) v.bytes.prize_pool_count))
        (subst (λ x. Represents x (v.pools ++ index ∷ [])) e index_lem))

-- ==================== Removing a pool ====================

pub drop_pool-IsValid :
    (index : ℕ) (c c' : IpFlowState) → drop_pool index c ≡ ok c' → IsValid c → IsValid c'
drop_pool-IsValid index c c' h v =
    let (some_active, indices, e) = drop_pool_lem index c c' h in
    let (before, after, here, r) = drop_pool-Represents_without c c' index v.pools h v.active in
    subst IsValid (sym e) (
      with_pools c _ _ indices (before ++ after) v.fits v.bytes v.bytes.prize_pool_count
        (All-without Byte before index after
          (subst (All Byte) here (Represents-Byte c v.pools v.bytes v.active)))
        (subst (λ x. Represents x (before ++ after)) e r))

-- ==================== Creating and migrating ====================

no_pools :
    (c : IpFlowState)
    → c.active_pool_count ≡ 0
    → c.active_pool_indices ≡ replicate max_prize_pools 255
    → Represents c []
no_pools c none_active padding = record {
  counted = none_active;
  fits = omega arith;
  padded = padding;
}

pub initial-Represents :
    (rt : Runtime) (tx : Transaction) (a : ConfigAccounts) (fee : ℕ)
    → Represents (initial rt tx a fee) []
unfolding initial
initial-Represents rt tx a fee = no_pools _ refl refl

pub initial-IsValid :
    (rt : Runtime) (tx : Transaction) (a : ConfigAccounts) (fee : ℕ)
    → a.admin < 256 ^ 32
    → fee < 2 ^ 16
    → Byte (rt.find_program_address Seeds.vault).1
    → IsValid (initial rt tx a fee)
unfolding initial
initial-IsValid rt tx a fee key small bump = record {
  fits = record {
    admin = key;
    total_collected = omega arith;
    platform_fee_bps = small;
    indices = refl;
    oracle_queue = omega arith;
    timeout = (omega arith, omega arith);
  };
  bytes = record {
    vault_bump = bump;
    pool_count = omega arith;
    prize_pool_count = omega arith;
    active_pool_count = omega arith;
    indices = ground arith;
  };
  pools = [];
  active = initial-Represents rt tx a fee;
}

-- The timeout that a migration leaves is an `i64`.
timeout_in_range :
    (n : ℕ) (c : IpFlowState)
    → IsI64 c.request_timeout_seconds
    → IsI64 (migrated n c).request_timeout_seconds
unfolding migrated
timeout_in_range n c h = ground arith

-- A migration keeps the list of active pools.
migrated_count : (n : ℕ) (c : IpFlowState) → (migrated n c).active_pool_count ≡ c.active_pool_count
unfolding migrated
migrated_count n c = ground arith

pub migrated-Represents :
    (n : ℕ) (c : IpFlowState) (pools : List ℕ)
    → Represents c pools
    → Represents (migrated n c) pools
unfolding migrated
migrated-Represents n c [] r =
    let none_active : c.active_pool_count ≡ 0 = r.counted in
    record { counted = ground arith; fits = omega arith; padded = ground arith }
migrated-Represents n c (x ∷ pools) r =
    let some_active : 0 < c.active_pool_count = omega (arith, r.counted) in
    let same : ltb 0 c.active_pool_count ≡ true = lt→ltb 0 c.active_pool_count some_active in
    record { counted = rw same r.counted; fits = r.fits; padded = rw same r.padded }

pub migrated-IsValid : (n : ℕ) (c : IpFlowState) → Byte n → IsValid c → IsValid (migrated n c)
unfolding migrated
migrated-IsValid n c small v =
    let active = migrated-Represents n c v.pools v.active in
    record {
      fits = record {
        admin = v.fits.admin;
        total_collected = v.fits.total_collected;
        platform_fee_bps = v.fits.platform_fee_bps;
        indices = length-padded (migrated n c) v.pools active;
        oracle_queue = let key = v.fits.oracle_queue in ground arith;
        timeout = timeout_in_range n c v.fits.timeout;
      };
      bytes =
          listed-HoldsBytes c _ v.pools v.bytes refl refl small active
            (Represents-Byte c v.pools v.bytes v.active);
      pools = v.pools;
      active = active;
    }
