-- ===== src/Lifecycle/ConfigLeaves.antt =====
-- What the instructions on the configuration write (instructions/admin/initialize.rs).
use card_machine.Prelude.{ℕ, ◌+◌, ◌≡◌, List, map, inl, inr, arith}
use card_machine.Errors.{ok, Result-cases}
use card_machine.State.{IpFlowState}
use card_machine.Layout.{init_space}
use card_machine.Runtime.{Runtime, World, Transaction, AccountData}
use card_machine.Runtime.Laws.{ConfigLayout, RuntimeLaws, keeps_same}
use card_machine.Admin.Config.{
  ConfigAccounts, initial, migrated, initialize, close_config, data_of, check_admin, migrate_config,
}
use card_machine.Admin.Config.Migrate.{migrate_config_keeps, top_up-KeepsOwn}
use card_machine.Admin.Config.Valid.{IsValid}
use card_machine.Lifecycle.Leaves.{Leaves}

module _ (rt : Runtime) (laws : RuntimeLaws rt) (tx : Transaction) where
  pub initialize-Leaves :
      (a : ConfigAccounts) (fee : ℕ) (w w' : World)
      → initialize rt tx a fee w ≡ ok w'
      → (w.account a.config ≡ AccountData.vacant)
        × Leaves w w' a.config (AccountData.config (initial rt tx a fee))
  unfolding initialize
  initialize-Leaves a fee w w' h =
      elim (Result-cases (rt.create_account a.admin a.config (8 + init_space) w)) [
        | inr (e, unopened) ↦ absurd (ground arith)
        | inl (created, opened) ↦
            let (keeps, free) =
              laws.create_keeps a.admin a.config (8 + init_space) w created opened in
            (free, record { kept = created; keeps = keeps; left = λ key. ground arith })
      ]

  pub close_config-Leaves :
      (a : ConfigAccounts) (w w' : World)
      → close_config rt tx a w ≡ ok w'
      → (bytes : List ℕ) × Leaves w w' a.config (AccountData.raw bytes)
  unfolding close_config
  close_config-Leaves a w w' h =
      let bytes = data_of rt (w.account a.config) in
      elim (Result-cases (check_admin bytes a.admin)) [
        | inr (e, refused) ↦ absurd (ground arith)
        | inl (x, checked) ↦ (
          map (λ b. 0) bytes,
          record { kept = w; keeps = keeps_same w; left = λ key. ground arith },
        )
      ]

  pub migrate_config-Leaves :
      (a : ConfigAccounts) (count : ℕ) (c : IpFlowState) (w w' : World)
      → ConfigLayout rt
      → IsValid c
      → w.account a.config ≡ AccountData.config c
      → migrate_config rt tx a count w ≡ ok w'
      → Leaves w w' a.config (AccountData.config (migrated count c))
  migrate_config-Leaves a count c w w' layout v stored h =
      let (signed, admin, paid, topped, up, fields, e) =
        migrate_config_keeps rt laws tx a count c w w' layout v.fits stored h in
      record {
        kept = paid;
        keeps = top_up-KeepsOwn rt laws tx a w paid topped;
        left = λ key. ground arith;
      }
