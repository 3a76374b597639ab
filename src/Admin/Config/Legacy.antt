-- ===== src/Admin/Config/Legacy.antt =====
-- `migrate_config` of instructions/admin/initialize.rs, on an account of an earlier layout, which
-- is shorter than the current one.
use card_machine.Prelude.{
  ℕ, ◌+◌, ◌-◌, ◌≤◌, ◌≡◌, ap, sym, ◌∙◌, inl, inr, List, ◌++◌, Bool-cases, true, arith, length,
  length-drop, take, drop, take_all, take-append_left, drop-append_left, replicate, ltb, some,
}
use mathlib.Core.List.{reverse}
use card_machine.Prelude.Int.{pos}
use card_machine.Prelude.Bytes.{from_le_bytes}
use card_machine.Constants.{max_prize_pools, oracle_queue_devnet, request_timeout_seconds}
use card_machine.Errors.{ok, Result-cases}
use card_machine.State.{IpFlowState}
use card_machine.Layout.{init_space}
use card_machine.Layout.RoundTrip.{Fits}
use card_machine.Runtime.{Runtime, World, Transaction, AccountData, store, contains}
use card_machine.Runtime.Laws.{ConfigLayout, RuntimeLaws}
use card_machine.Admin.Config.{
  ConfigAccounts, data_of, stored_admin, check_admin, realloc, migrated, top_up, migrate_config,
}
use card_machine.Admin.Config.Migrate.{migrate_steps}

-- The bytes, extended by zeros, are those of the configuration.
pub record Extends (rt : Runtime) (bytes : List ℕ) (c : IpFlowState) : Type 0 where
  pub short : length bytes ≤ 8 + init_space
  pub padded : bytes ++ replicate (8 + init_space - length bytes) 0 ≡ rt.serialize_config c

-- What an earlier layout had no place for reads as zero.
pub record IsBlank (c : IpFlowState) : Type 0 where
  pub no_pool : c.active_pool_count ≡ 0
  pub no_queue : c.oracle_queue ≡ 0
  pub no_timeout : c.request_timeout_seconds ≡ pos 0

-- The configuration with its new fields filled in.
abbrev pub filled : ℕ → IpFlowState → IpFlowState
filled count c = record c {
  prize_pool_count = count;
  active_pool_count = 0;
  active_pool_indices = replicate max_prize_pools 255;
  oracle_queue = oracle_queue_devnet;
  request_timeout_seconds = pos request_timeout_seconds;
}

migrated_blank : (count : ℕ) (c : IpFlowState) → IsBlank c → migrated count c ≡ filled count c
unfolding migrated
migrated_blank count c b =
    let no_pool = b.no_pool in
    let no_queue = b.no_queue in let no_timeout = b.no_timeout in ground arith

realloc-Extends :
    (rt : Runtime) (bytes : List ℕ) (c : IpFlowState)
    → Extends rt bytes c
    → length (rt.serialize_config c) ≡ 8 + init_space
    → realloc (8 + init_space) bytes ≡ rt.serialize_config c
unfolding realloc
realloc-Extends rt bytes c x whole =
    ap (take (8 + init_space)) x.padded
    ∙ ap (λ k. take k (rt.serialize_config c)) (sym whole)
    ∙ take_all (rt.serialize_config c)

admin-Extends :
    (rt : Runtime) (bytes : List ℕ) (c : IpFlowState)
    → ConfigLayout rt
    → Fits c
    → Extends rt bytes c
    → 40 ≤ length bytes
    → stored_admin bytes ≡ c.admin
admin-Extends rt bytes c layout f x enough =
    let pad = replicate {A = ℕ} (8 + init_space - length bytes) 0 in
    let same : take 32 (drop 8 bytes) ≡ take 32 (drop 8 (rt.serialize_config c)) =
      sym (take-append_left 32 (drop 8 bytes) pad (omega (arith, length-drop 8 bytes)))
      ∙ ap (take 32) (sym (drop-append_left 8 bytes pad (omega arith)))
      ∙ ap (λ bs. take 32 (drop 8 bs)) x.padded in
    ap (λ bs. from_le_bytes (reverse bs)) same ∙ layout.admin_at c f

module _ (rt : Runtime) (laws : RuntimeLaws rt) (tx : Transaction) (a : ConfigAccounts) where
  top_up_keeps : (w w' : World) → top_up rt tx a w ≡ ok w' → w'.account ≡ w.account
  unfolding top_up
  top_up_keeps w w' h =
      elim (Bool-cases (ltb (w.lamports a.config) (rt.minimum_balance (8 + init_space)))) [
        | inl more ↦
            let (moved, covered) =
              laws.transfer a.admin a.config
                (rt.minimum_balance (8 + init_space) - w.lamports a.config) tx.signers w w'
                (ground arith) in
            ap World.account moved
        | inr enough ↦ let same : w' ≡ w = ground arith in ap World.account same
      ]

  -- What a migration has done.
  pub record Fills (count : ℕ) (c : IpFlowState) (w w' : World) : Type 0 where
    pub signed : contains tx.signers a.admin ≡ true
    pub admin : c.admin ≡ a.admin
    pub paid : World
    pub topped : top_up rt tx a w ≡ ok paid
    pub result : w' ≡ store a.config (AccountData.config (filled count c)) paid

  checked_lem :
      (bytes : List ℕ) (x : Unit {0})
      → check_admin bytes a.admin ≡ ok x
      → (40 ≤ length bytes) × (stored_admin bytes ≡ a.admin)
  unfolding check_admin
  checked_lem bytes x h = ground arith

  -- With the documented layout of the configuration's account, a migration that succeeds on an
  -- account of an earlier layout, whose bytes extended by zeros are those of a configuration with
  -- no active pool, no oracle queue and no time-out, is signed by the administrator that the
  -- account names. After the top-up of its lamports it stores that configuration with an empty
  -- list of pools, the default queue and time-out, and the given counter of indices.
  pub migrate_config-Fills :
      (count : ℕ) (c : IpFlowState) (w w' : World)
      → ConfigLayout rt
      → Fits c
      → IsBlank c
      → Extends rt (data_of rt (w.account a.config)) c
      → migrate_config rt tx a count w ≡ ok w'
      → Fills count c w w'
  unfolding migrate_config
  migrate_config-Fills count c w w' layout f blank x h =
      let bytes = data_of rt (w.account a.config) in
      elim (Result-cases (check_admin bytes a.admin)) [
        | inr (e, refused) ↦ absurd (ground arith)
        | inl (u, checked) ↦ elim (Result-cases (top_up rt tx a w)) [
          | inr (e, unpaid) ↦ absurd (ground arith)
          | inl (paid, topped) ↦
              let (enough, named) = checked_lem bytes u checked in
              let whole = layout.size c f in
              let still : data_of rt (paid.account a.config) ≡ bytes =
                ap (λ accounts. data_of rt (accounts a.config)) (top_up_keeps w paid topped) in
              let read : rt.deserialize_config
                    (realloc (8 + init_space) (data_of rt (paid.account a.config)))
                  ≡ some c =
                ap (λ bs. rt.deserialize_config (realloc (8 + init_space) bs)) still
                ∙ ap (rt.deserialize_config) (realloc-Extends rt bytes c x whole)
                ∙ layout.reads_back c f in
              let (signed, result) =
                migrate_steps rt laws tx a count c w w' paid u checked topped read h in
              record {
                signed = signed;
                admin = sym (admin-Extends rt bytes c layout f x enough) ∙ named;
                paid = paid;
                topped = topped;
                result =
                    result
                    ∙ ap (λ s. store a.config (AccountData.config s) paid)
                        (migrated_blank count c blank);
              }
        ]
      ]
