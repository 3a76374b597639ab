-- ===== src/Admin/Config/Ranges.antt =====
-- The fields of the configuration that are single bytes (state/global_config.rs).
use card_machine.Prelude.{
  ℕ, zero, suc, ◌<◌, ◌≡◌, inl, inr, Bool, List, [], ◌∷◌, ◌++◌, All, arith, subst, sym, replicate,
}
use card_machine.Prelude.Bytes.{Byte}
use card_machine.Errors.{ok, Result-cases}
use card_machine.Words.{add_u8}
use card_machine.State.{IpFlowState}
use card_machine.Admin.PrizePool.{push_pool}
use card_machine.Admin.PrizePool.Active.{Represents}

-- The counts, the bump and each entry of the array are bytes.
pub record HoldsBytes (c : IpFlowState) : Type 0 where
  pub vault_bump : Byte c.vault_bump
  pub pool_count : Byte c.pool_count
  pub prize_pool_count : Byte c.prize_pool_count
  pub active_pool_count : Byte c.active_pool_count
  pub indices : All Byte c.active_pool_indices

All-padding : (pools : List ℕ) (n : ℕ) → All Byte pools → All Byte (pools ++ replicate n 255)
All-padding [] zero h = tt
All-padding [] (suc n) h = (omega arith, All-padding [] n tt)
All-padding (x ∷ pools) n (here, rest) = (here, All-padding pools n rest)

All-front : (pools rest : List ℕ) → All Byte (pools ++ rest) → All Byte pools
All-front [] rest h = tt
All-front (x ∷ pools) rest (here, others) = (here, All-front pools rest others)

-- The listed indices are bytes.
pub Represents-Byte :
    (c : IpFlowState) (pools : List ℕ) → HoldsBytes c → Represents c pools → All Byte pools
Represents-Byte c pools b r = All-front pools _ (subst (All Byte) r.padded b.indices)

-- Another list of bytes, with another counter.
pub listed-HoldsBytes :
    (c c' : IpFlowState) (pools : List ℕ)
    → HoldsBytes c
    → c'.vault_bump ≡ c.vault_bump
    → c'.pool_count ≡ c.pool_count
    → Byte c'.prize_pool_count
    → Represents c' pools
    → All Byte pools
    → HoldsBytes c'
listed-HoldsBytes c c' pools b bump count counter r all = record {
  vault_bump = rw bump b.vault_bump;
  pool_count = rw count b.pool_count;
  prize_pool_count = counter;
  active_pool_count = omega (arith, r.counted, r.fits);
  indices = subst (All Byte) (sym r.padded) (All-padding pools _ all);
}

pub push_pool-Byte :
    (checks : Bool) (c c' : IpFlowState) (index : ℕ)
    → push_pool checks c ≡ ok (index, c')
    → Byte c'.prize_pool_count
unfolding push_pool add_u8
push_pool-Byte checks c c' index h = elim (Result-cases (add_u8 checks c.prize_pool_count 1)) [
  | inr (e, over) ↦ absurd (ground arith)
  | inl (n, e) ↦ let small : n < 256 = ground arith in ground arith
]
