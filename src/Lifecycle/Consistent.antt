-- ===== src/Lifecycle/Consistent.antt =====
-- The accounts of the active pools under every instruction of lib.rs.
use card_machine.Prelude.{◌≡◌, sym, subst, Bool-cases, ◌==◌, ==_iff, inl, inr}
use card_machine.Constants.{Pubkey}
use card_machine.State.{IpFlowState}
use card_machine.Runtime.{Runtime, World, AccountData}
use card_machine.Runtime.Laws.{KeepsOwn}
use card_machine.Lifecycle.Leaves.{Leaves}
use card_machine.Lifecycle.Stored.{
  NoPool, kept_pools, left_pools, ListsPools, PoolsStored, Consistent, own_stored, PoolsStored-kept,
  config_address,
}

module _ (rt : Runtime) where
  pub kept-Consistent : (w w' : World) → KeepsOwn w w' → Consistent rt w → Consistent rt w'
  kept-Consistent w w' keeps x =
      let key = config_address rt in
      own_stored rt w' (w.account key) (w'.account key) (keeps.accounts key)
        (PoolsStored-kept rt w w' (w.account key) (kept_pools keeps) x)

  -- One account without a pool is written.
  pub left-Consistent :
      (w w' : World) (address : Pubkey) (d : AccountData)
      → Leaves w w' address d
      → NoPool (w.account address)
      → (config_address rt ≡ address → PoolsStored rt w' d)
      → Consistent rt w
      → Consistent rt w'
  left-Consistent w w' address d x free new c =
      let key = config_address rt in
      elim (Bool-cases (key == address)) [
        | inl here ↦ rw (x.left key, here) (new ((==_iff key address).0 here))
        | inr elsewhere ↦
            let still =
              own_stored rt w' (w.account key) (x.kept.account key) (x.keeps.accounts key) in
            rw (x.left key) (
              rw elsewhere (
                still
                  (PoolsStored-kept rt w w' (w.account key) (left_pools w w' address d x free) c)))
      ]

  -- The list of a configuration that stands at its address.
  pub lists :
      (w : World) (key : Pubkey) (c : IpFlowState)
      → key ≡ config_address rt
      → w.account key ≡ AccountData.config c
      → Consistent rt w
      → ListsPools rt w c
  lists w key c at stored x =
      subst (PoolsStored rt w) stored (subst (λ k. PoolsStored rt w (w.account k)) (sym at) x)
