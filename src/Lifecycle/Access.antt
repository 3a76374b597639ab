-- ===== src/Lifecycle/Access.antt =====
-- Who may run each instruction of lib.rs, on a configuration that the program has stored.
use card_machine.Prelude.{◌≡◌, true, false, inl, inr, arith, ap, ◌∙◌, sym}
use card_machine.Constants.{Pubkey}
use card_machine.Errors.{ok, Result-cases}
use card_machine.State.{IpFlowState}
use card_machine.Layout.RoundTrip.{Fits}
use card_machine.Runtime.{Runtime, World, Transaction, AccountData, contains}
use card_machine.Runtime.Laws.{ConfigLayout, RuntimeLaws}
use card_machine.Admin.Config.{ConfigAccounts, data_of, check_admin, close_config}
use card_machine.Admin.Config.Migrate.{migrate_config_keeps, check_admin_lem, data_of_config}
use card_machine.Admin.Withdraw.Balance.{withdraw_sol_moves}
use card_machine.Admin.Withdraw.Tokens.{withdraw_token_sends}
use card_machine.Admin.PrizePool.Accounts.{
  add_prize_pool-Adds, remove_prize_pool-Removes, update_prize_pool-Updates,
}
use card_machine.User.RequestMint.Paid.{request_mint_pays}
use card_machine.User.Claim.Paid.{claimed_lem}
use card_machine.User.Refund.Timeout.{refund_pays_back}
use card_machine.Oracle.Reveal.{consumed}
use card_machine.Lifecycle.ConfigLeaves.{initialize-Leaves}
use card_machine.Lifecycle.{
  ProgramCall, execute, initialize_call, migrate_config_call, close_config_call, request_mint_call,
  consume_call, claim_call, refund_call, withdraw_sol_call, withdraw_token_call,
  add_prize_pool_call, remove_prize_pool_call, update_prize_pool_call,
}

-- The configuration account that an instruction is given.
abbrev pub config_key : ProgramCall → Pubkey
config_key (initialize_call a fee) = a.config
config_key (migrate_config_call a count) = a.config
config_key (close_config_call a) = a.config
config_key (request_mint_call a cards mode seed slot) = a.config
config_key (consume_call a randomness) = a.config
config_key (claim_call a args) = a.config
config_key (refund_call a slot) = a.config
config_key (withdraw_sol_call a amount) = a.config
config_key (withdraw_token_call a amount) = a.config
config_key (add_prize_pool_call a pool type name) = a.config
config_key (remove_prize_pool_call a) = a.config
config_key (update_prize_pool_call a pool type name) = a.config

module _ (rt : Runtime) (tx : Transaction) (settings : IpFlowState) where
  abbrev Signed : Pubkey → Type 0
  Signed key = contains tx.signers key ≡ true

  -- `admin` has signed, and is the administrator that the settings name.
  abbrev ByAdmin : Pubkey → Type 0
  ByAdmin admin = Signed admin × (settings.admin ≡ admin)

  -- Who has signed an instruction: the administrator for the administrator's instructions, the
  -- oracle for the callback, a user for the others. Nobody may initialize the settings again, and
  -- no request is made while they are paused.
  abbrev pub IsAllowed : ProgramCall → Type 0
  IsAllowed (initialize_call a fee) = ⊥
  IsAllowed (migrate_config_call a count) = ByAdmin a.admin
  IsAllowed (close_config_call a) = ByAdmin a.admin
  IsAllowed (request_mint_call a cards mode seed slot) =
      Signed a.user × (settings.is_paused ≡ false)
  IsAllowed (consume_call a randomness) = Signed rt.vrf_program_identity
  IsAllowed (claim_call a args) = Signed a.user
  IsAllowed (refund_call a slot) = Signed a.user
  IsAllowed (withdraw_sol_call a amount) = ByAdmin a.admin
  IsAllowed (withdraw_token_call a amount) = ByAdmin a.admin
  IsAllowed (add_prize_pool_call a pool type name) = ByAdmin a.admin
  IsAllowed (remove_prize_pool_call a) = ByAdmin a.admin
  IsAllowed (update_prize_pool_call a pool type name) = ByAdmin a.admin

config-eq :
    (d : AccountData) (c s : IpFlowState)
    → d ≡ AccountData.config c
    → d ≡ AccountData.config s
    → c ≡ s
config-eq d c s h k = ground arith

module _ (rt : Runtime) (laws : RuntimeLaws rt) (tx : Transaction) (settings : IpFlowState)
    (layout : ConfigLayout rt) (fits : Fits settings) where
  close_config_admin :
      (a : ConfigAccounts) (w w' : World)
      → w.account a.config ≡ AccountData.config settings
      → close_config rt tx a w ≡ ok w'
      → (contains tx.signers a.admin ≡ true) × (settings.admin ≡ a.admin)
  unfolding close_config
  close_config_admin a w w' stored h =
      let bytes : data_of rt (w.account a.config) ≡ rt.serialize_config settings =
        ap (data_of rt) stored ∙ data_of_config rt laws tx a settings in
      elim (Result-cases (check_admin (data_of rt (w.account a.config)) a.admin)) [
        | inr (e, refused) ↦ absurd (ground arith)
        | inl (x, checked) ↦ (
          ground arith,
          check_admin_lem rt laws tx a settings x layout fits (rw bytes at checked),
        )
      ]

  -- On settings that the program has stored, with fields in the ranges of their types and the
  -- documented layout of the configuration's account, an instruction that succeeds is signed by
  -- the administrator that the settings name when it migrates, closes, withdraws or changes the
  -- pools, by the oracle when it is the callback, and by its user when it requests, claims or
  -- refunds. No request is made while the settings are paused, and none of them initializes the
  -- settings again.
  pub execute-IsAllowed :
      (c : ProgramCall) (w w' : World)
      → w.account (config_key c) ≡ AccountData.config settings
      → execute rt tx c w ≡ ok w'
      → IsAllowed rt tx settings c
  unfolding execute
  execute-IsAllowed (initialize_call a fee) w w' stored h =
      let free = (initialize-Leaves rt laws tx a fee w w' h).0 in ground arith
  execute-IsAllowed (migrate_config_call a count) w w' stored h =
      let m = migrate_config_keeps rt laws tx a count settings w w' layout fits stored h in
      (m.0, m.1)
  execute-IsAllowed (close_config_call a) w w' stored h = close_config_admin a w w' stored h
  execute-IsAllowed (request_mint_call a cards mode seed slot) w w' stored h =
      let (
        config, created, paid, requested, amount, acc, free, allow, payment, params, asked, records,
        e,
      ) =
        request_mint_pays rt laws tx a cards mode seed slot w w' h in
      let running = acc.running in
      let same = config-eq (w.account a.config) config settings acc.configured stored in
      (acc.signed, ground arith)
  execute-IsAllowed (consume_call a randomness) w w' stored h =
      let (request, config, result, acc, total, drawn_as, e) = consumed rt tx a randomness w w' h in
      let signed = acc.signed in let by_oracle = acc.by_oracle in ground arith
  execute-IsAllowed (claim_call a args) w w' stored h =
      let (request, config, payout, c) = claimed_lem rt tx a args w w' h in c.accepts.signed
  execute-IsAllowed (refund_call a slot) w w' stored h =
      let (request, config, paid, acc, late, took, e) = refund_pays_back rt laws tx a slot w w' h in
      acc.signed
  execute-IsAllowed (withdraw_sol_call a amount) w w' stored h =
      let (config, e, admin, signed, cap, moved) = withdraw_sol_moves rt laws tx a amount w w' h in
      let same = config-eq (w.account a.config) config settings e stored in (signed, ground arith)
  execute-IsAllowed (withdraw_token_call a amount) w w' stored h =
      let x = withdraw_token_sends rt tx a amount w w' h in
      let same = config-eq (w.account a.config) x.config settings x.configured stored in
      (x.signed, ap IpFlowState.admin (sym same) ∙ x.admin)
  execute-IsAllowed (add_prize_pool_call a pool type name) w w' stored h =
      let x = add_prize_pool-Adds rt tx a pool type name w w' h in
      let same = config-eq (w.account a.config) x.config settings x.allowed.stored stored in
      (x.allowed.signed, ap IpFlowState.admin (sym same) ∙ x.allowed.admin)
  execute-IsAllowed (remove_prize_pool_call a) w w' stored h =
      let x = remove_prize_pool-Removes rt tx a w w' h in
      let same = config-eq (w.account a.config) x.config settings x.allowed.stored stored in
      (x.allowed.signed, ap IpFlowState.admin (sym same) ∙ x.allowed.admin)
  execute-IsAllowed (update_prize_pool_call a pool type name) w w' stored h =
      let x = update_prize_pool-Updates rt tx a pool type name w w' h in
      let same = config-eq (w.account a.config) x.config settings x.allowed.stored stored in
      (x.allowed.signed, ap IpFlowState.admin (sym same) ∙ x.allowed.admin)
