-- ===== src/Admin/Config/Migrate.antt =====
-- `migrate_config` of instructions/admin/initialize.rs, on an account of the current layout.
use mathlib.Core.List.{append-nil}
use card_machine.Prelude.{
  ℕ, ◌+◌, ◌-◌, ◌≡◌, refl, ap, sym, ◌∙◌, inl, inr, List, [], Bool-cases, true, arith, length, take,
  take-length, ltb, some, ◌≤◌, ◌<◌, ◌⊎◌, replicate, zero, suc,
}
use card_machine.Errors.{ok, Result-cases}
use card_machine.State.{IpFlowState}
use card_machine.Constants.{oracle_queue_devnet}
use card_machine.Prelude.Int.{ℤ, pos, negsuc}
use card_machine.Layout.{init_space}
use card_machine.Layout.RoundTrip.{Fits}
use card_machine.Runtime.{
  Runtime, World, Transaction, AccountData, system_transfer, store, contains, move_lamports,
}
use card_machine.Runtime.Laws.{ConfigLayout, RuntimeLaws, KeepsOwn, own, keeps_same}
use card_machine.Admin.Config.{
  ConfigAccounts, data_of, stored_admin, check_admin, realloc, migrated, top_up, migrate_config,
}

-- A full account stays as it is.
realloc_same : (bytes : List ℕ) (n : ℕ) → length bytes ≡ n → realloc n bytes ≡ bytes
unfolding realloc
realloc_same bytes n e =
    let none_left : n - length bytes ≡ 0 = omega arith in
    rw (none_left, append-nil bytes)
      (ap (λ k. take k bytes) (sym e)
        ∙ ap (λ xs. take (length bytes) xs) (sym (append-nil bytes))
        ∙ take-length bytes [])

own-config :
    (d : AccountData) (c : IpFlowState) → own d ≡ AccountData.config c → d ≡ AccountData.config c
own-config d c h = ground arith

module _ (rt : Runtime) (laws : RuntimeLaws rt) (tx : Transaction) (a : ConfigAccounts) where
  pub top_up-KeepsOwn : (w w' : World) → top_up rt tx a w ≡ ok w' → KeepsOwn w w'
  unfolding top_up
  top_up-KeepsOwn w w' h =
      elim (Bool-cases (ltb (w.lamports a.config) (rt.minimum_balance (8 + init_space)))) [
        | inl more ↦
            laws.invoke_keeps
              (system_transfer a.admin a.config
                (rt.minimum_balance (8 + init_space) - w.lamports a.config))
              tx.signers w w' (ground arith)
        | inr enough ↦ let same : w' ≡ w = ground arith in rw same (keeps_same w)
      ]

  pub check_admin_lem :
      (c : IpFlowState) (x : Unit {0})
      → ConfigLayout rt
      → Fits c
      → check_admin (rt.serialize_config c) a.admin ≡ ok x
      → c.admin ≡ a.admin
  unfolding check_admin
  check_admin_lem c x layout f h =
      let e = layout.admin_at c f in
      let same : stored_admin (rt.serialize_config c) ≡ a.admin = ground arith in sym e ∙ same

  -- The administrator pays the lamports that the account lacks for the rent of its current size.
  abbrev pub ToppedUp : World → World → Type 0
  ToppedUp w paid =
      let required = rt.minimum_balance (8 + init_space) in
      ((required ≤ w.lamports a.config) × (paid ≡ w))
      ⊎ ((w.lamports a.config < required)
          × (paid ≡ move_lamports a.admin a.config (required - w.lamports a.config) w)
          × (required - w.lamports a.config ≤ w.lamports a.admin))

  ToppedUp-of : (w paid : World) → top_up rt tx a w ≡ ok paid → ToppedUp w paid
  unfolding top_up
  ToppedUp-of w paid h =
      elim (Bool-cases (ltb (w.lamports a.config) (rt.minimum_balance (8 + init_space)))) [
        | inl more ↦
            let (moved, covered) =
              laws.transfer a.admin a.config
                (rt.minimum_balance (8 + init_space) - w.lamports a.config) tx.signers w paid
                (ground arith) in
            inr (ground arith, moved, covered)
        | inr enough ↦ inl (ground arith, ground arith)
      ]

  -- The configuration after a migration: the given counter of indices, the list of pools emptied
  -- where none is active, the default queue and time-out where there was none, and the rest as it
  -- was.
  pub record IsMigrated (count : ℕ) (c c' : IpFlowState) : Type 0 where
    pub counter : c'.prize_pool_count ≡ count
    pub same_count : c'.active_pool_count ≡ c.active_pool_count
    pub pools :
        ((0 < c.active_pool_count) × (c'.active_pool_indices ≡ c.active_pool_indices))
        ⊎ ((c.active_pool_count ≡ 0) × (c'.active_pool_indices ≡ replicate 50 255))
    pub queue :
        ((c.oracle_queue ≡ 0) × (c'.oracle_queue ≡ oracle_queue_devnet))
        ⊎ (¬ (c.oracle_queue ≡ 0) × (c'.oracle_queue ≡ c.oracle_queue))
    pub timeout :
        ((c.request_timeout_seconds ≡ pos 0) × (c'.request_timeout_seconds ≡ pos 45))
        ⊎ (¬ (c.request_timeout_seconds ≡ pos 0)
            × (c'.request_timeout_seconds ≡ c.request_timeout_seconds))
    pub same_admin : (c'.admin ≡ c.admin) × (c'.vault_bump ≡ c.vault_bump)
    pub same_fees :
        (c'.total_collected ≡ c.total_collected) × (c'.platform_fee_bps ≡ c.platform_fee_bps)
    pub same_flags : (c'.is_paused ≡ c.is_paused) × (c'.pool_count ≡ c.pool_count)

  migrated_timeout :
      (count : ℕ) (c : IpFlowState) (t : ℤ)
      → c.request_timeout_seconds ≡ t
      → ((t ≡ pos 0) × ((migrated count c).request_timeout_seconds ≡ pos 45))
        ⊎ (¬ (t ≡ pos 0) × ((migrated count c).request_timeout_seconds ≡ t))
  unfolding migrated
  migrated_timeout count c (pos zero) e = inl (refl, ground arith)
  migrated_timeout count c (pos (suc n)) e = inr (ground arith, ground arith)
  migrated_timeout count c (negsuc n) e = inr (ground arith, ground arith)

  migrated-IsMigrated : (count : ℕ) (c : IpFlowState) → IsMigrated count c (migrated count c)
  unfolding migrated
  migrated-IsMigrated count c = record {
    counter = refl;
    same_count = ground arith;
    pools = ground arith;
    queue = ground arith;
    timeout = migrated_timeout count c c.request_timeout_seconds refl;
    same_admin = (refl, refl);
    same_fees = (refl, refl);
    same_flags = (refl, refl);
  }

  -- What a migration has done.
  abbrev pub Migrates : ℕ → IpFlowState → World → World → Type 0
  Migrates count c w w' =
      (contains tx.signers a.admin ≡ true)
      × (c.admin ≡ a.admin)
      × (paid : World) × (top_up rt tx a w ≡ ok paid)
      × ToppedUp w paid
      × IsMigrated count c (migrated count c)
      × (w' ≡ store a.config (AccountData.config (migrated count c)) paid)

  pub migrate_steps :
      (count : ℕ) (c : IpFlowState) (w w' paid : World) (x : Unit {0})
      → check_admin (data_of rt (w.account a.config)) a.admin ≡ ok x
      → top_up rt tx a w ≡ ok paid
      → rt.deserialize_config (realloc (8 + init_space) (data_of rt (paid.account a.config)))
        ≡ some c
      → migrate_config rt tx a count w ≡ ok w'
      → (contains tx.signers a.admin ≡ true)
        × (w' ≡ store a.config (AccountData.config (migrated count c)) paid)
  unfolding migrate_config
  migrate_steps count c w w' paid x checked topped read h = (ground arith, ground arith)

  pub data_of_config : (c : IpFlowState) → data_of rt (AccountData.config c) ≡ rt.serialize_config c
  unfolding data_of
  data_of_config c = refl

  -- The configuration is read back after the top-up.
  read_again :
      (c : IpFlowState) (w paid : World)
      → ConfigLayout rt
      → Fits c
      → w.account a.config ≡ AccountData.config c
      → top_up rt tx a w ≡ ok paid
      → rt.deserialize_config (realloc (8 + init_space) (data_of rt (paid.account a.config)))
        ≡ some c
  read_again c w paid layout f holds topped =
      let keeps = (top_up-KeepsOwn w paid topped).accounts a.config in
      let still : paid.account a.config ≡ AccountData.config c =
        own-config (paid.account a.config) c (keeps ∙ ap own holds) in
      rw still (
        rw (data_of_config c) (
          rw (realloc_same (rt.serialize_config c) (8 + init_space) (layout.size c f))
            (layout.reads_back c f)))

-- With the documented layout of the configuration's account, a migration that succeeds on an
-- account of the current layout is signed by the administrator that the account names, who pays
-- the lamports that the account lacks for its rent, and nothing where it lacks none. It stores the
-- account's own configuration with the given counter of indices. A queue or a time-out that is
-- set, and a list of active pools that is not empty, are kept; an unset one becomes the default
-- queue, 45 seconds, or 50 free places. All other fields are kept.
pub migrate_config_keeps :
    (rt : Runtime) (laws : RuntimeLaws rt) (tx : Transaction) (a : ConfigAccounts) (count : ℕ)
    (c : IpFlowState) (w w' : World)
    → ConfigLayout rt
    → Fits c
    → w.account a.config ≡ AccountData.config c
    → migrate_config rt tx a count w ≡ ok w'
    → Migrates rt laws tx a count c w w'
unfolding migrate_config
migrate_config_keeps rt laws tx a count c w w' layout f holds h =
    let bytes : data_of rt (w.account a.config) ≡ rt.serialize_config c =
      ap (data_of rt) holds ∙ data_of_config rt laws tx a c in
    elim (Result-cases (check_admin (data_of rt (w.account a.config)) a.admin)) [
      | inr (e, refused) ↦ absurd (ground arith)
      | inl (x, checked) ↦ elim (Result-cases (top_up rt tx a w)) [
        | inr (e, unpaid) ↦ absurd (ground arith)
        | inl (paid, topped) ↦
            let read = read_again rt laws tx a c w paid layout f holds topped in
            let (signed, result) =
              migrate_steps rt laws tx a count c w w' paid x checked topped read h in
            (
              signed,
              check_admin_lem rt laws tx a c x layout f (rw bytes at checked),
              paid,
              topped,
              ToppedUp-of rt laws tx a w paid topped,
              migrated-IsMigrated rt laws tx a count c,
              result,
            )
      ]
    ]
