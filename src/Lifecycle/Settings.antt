-- ===== src/Lifecycle/Settings.antt =====
-- The stored configuration under every instruction of lib.rs.
use card_machine.Prelude.{
  ◌^◌, ◌<◌, ◌≡◌, refl, sym, ap, ◌∙◌, subst, Bool-cases, ◌==◌, if◌then◌else◌, inl, inr,
}
use card_machine.Constants.{Pubkey}
use card_machine.Errors.{ok}
use card_machine.State.{IpFlowState}
use card_machine.Runtime.{Seeds, Runtime, World, Transaction, AccountData, store}
use card_machine.Runtime.Laws.{ConfigLayout, RuntimeLaws, KeepsOwn, own}
use card_machine.Admin.Config.Valid.{
  IsValid, push_pool-IsValid, drop_pool-IsValid, initial-IsValid, migrated-IsValid,
}
use card_machine.Admin.PrizePool.Accounts.{
  add_prize_pool-Adds, remove_prize_pool-Removes, update_prize_pool-Updates,
}
use card_machine.Admin.Withdraw.Balance.{withdraw_sol_moves}
use card_machine.Admin.Withdraw.Tokens.{withdraw_token_sends}
use card_machine.Lifecycle.ConfigLeaves.{
  initialize-Leaves, close_config-Leaves, migrate_config-Leaves,
}
use card_machine.Lifecycle.Leaves.{
  Leaves, claim-Leaves, refund-Leaves, consume-Leaves, request-Leaves,
}
use card_machine.Lifecycle.{
  ProgramCall, execute, initialize_call, migrate_config_call, close_config_call, request_mint_call,
  consume_call, claim_call, refund_call, withdraw_sol_call, withdraw_token_call,
  add_prize_pool_call, remove_prize_pool_call, update_prize_pool_call,
}

-- A configuration in an account is valid.
abbrev pub HoldsValid : AccountData → Type 0
HoldsValid (AccountData.config c) = IsValid c
HoldsValid _ = Unit {0}

abbrev pub AllValid : World → Type 0
AllValid w = (key : Pubkey) → HoldsValid (w.account key)

-- The arguments are in their machine types, and a migration is one of the current layout.
abbrev pub Suits : World → ProgramCall → Type 0
Suits w (initialize_call a fee) = (a.admin < 256 ^ 32) × (fee < 2 ^ 16)
Suits w (migrate_config_call a count) =
    (count < 256) × (c : IpFlowState) × (w.account a.config ≡ AccountData.config c)
Suits w _ = Unit {0}

HoldsValid-own : (d : AccountData) → HoldsValid (own d) ≡ HoldsValid d
HoldsValid-own (AccountData.config c) = refl
HoldsValid-own (AccountData.mint_request r) = refl
HoldsValid-own (AccountData.prize_pool p) = refl
HoldsValid-own _ = refl

pub kept_valid : {w w' : World} → KeepsOwn w w' → AllValid w → AllValid w'
kept_valid {w} {w'} keeps valid key =
    subst (λ T. T)
      (sym (HoldsValid-own (w.account key))
        ∙ ap HoldsValid (sym (keeps.accounts key))
        ∙ HoldsValid-own (w'.account key))
      (valid key)

-- One account is written.
pub written_valid :
    (kept : World) (address : Pubkey) (d : AccountData)
    → AllValid kept
    → HoldsValid d
    → (key : Pubkey) → HoldsValid (if key == address then d else kept.account key)
written_valid kept address d valid new key = elim (Bool-cases (key == address)) [
  | inl here ↦ rw here new
  | inr elsewhere ↦ rw elsewhere (valid key)
]

left_valid :
    (w w' : World) (address : Pubkey) (d : AccountData)
    → AllValid w
    → HoldsValid d
    → Leaves w w' address d
    → AllValid w'
left_valid w w' address d valid new x key =
    rw (x.left key) (written_valid x.kept address d (kept_valid x.keeps valid) new key)

-- What an account that holds a configuration says of it.
pub IsValid-at :
    (w : World) (key : Pubkey) (c : IpFlowState)
    → AllValid w
    → w.account key ≡ AccountData.config c
    → IsValid c
IsValid-at w key c valid e = subst HoldsValid e (valid key)

module _ (rt : Runtime) (laws : RuntimeLaws rt) (tx : Transaction) where
  -- With the documented layout of its account, an instruction that succeeds on a world of valid
  -- configurations leaves a world of valid configurations: the fields in the ranges of their
  -- types, and the array of active pools a list of at most 50 indices followed by 255 in every
  -- free place. The arguments of an initialization and of a migration are in their types, and a
  -- migration is one of the current layout.
  pub execute-AllValid :
      (c : ProgramCall) (w w' : World)
      → ConfigLayout rt
      → Suits w c
      → AllValid w
      → execute rt tx c w ≡ ok w'
      → AllValid w'
  unfolding execute
  execute-AllValid (initialize_call a fee) w w' layout (key, small) valid h =
      left_valid w w' a.config _ valid
        (initial-IsValid rt tx a fee key small (laws.bump_in_range Seeds.vault))
        (initialize-Leaves rt laws tx a fee w w' h).1
  execute-AllValid (migrate_config_call a count) w w' layout (byte, c, stored) valid h =
      let v = IsValid-at w a.config c valid stored in
      left_valid w w' a.config _ valid (migrated-IsValid count c byte v)
        (migrate_config-Leaves rt laws tx a count c w w' layout v stored h)
  execute-AllValid (close_config_call a) w w' layout suits valid h =
      let (bytes, x) = close_config-Leaves rt laws tx a w w' h in
      left_valid w w' a.config _ valid tt x
  execute-AllValid (request_mint_call a cards mode seed slot) w w' layout suits valid h =
      let (amount, config, allow, held, x) =
        request-Leaves rt laws tx a cards mode seed slot w w' h in
      left_valid w w' a.mint_request _ valid tt x
  execute-AllValid (consume_call a randomness) w w' layout suits valid h =
      let (r, result, waiting, total, held, x) = consume-Leaves rt laws tx a randomness w w' h in
      left_valid w w' a.mint_request _ valid tt x
  execute-AllValid (claim_call a args) w w' layout suits valid h =
      let (r, drawn, held, x) = claim-Leaves rt laws tx a args w w' h in
      left_valid w w' a.mint_request _ valid tt x
  execute-AllValid (refund_call a slot) w w' layout suits valid h =
      let (r, waiting, held, x) = refund-Leaves rt laws tx a slot w w' h in
      left_valid w w' a.mint_request _ valid tt x
  execute-AllValid (withdraw_sol_call a amount) w w' layout suits valid h =
      let (config, e, admin, signed, cap, moved) = withdraw_sol_moves rt laws tx a amount w w' h in
      rw moved (λ key. valid key)
  execute-AllValid (withdraw_token_call a amount) w w' layout suits valid h =
      let x = withdraw_token_sends rt tx a amount w w' h in
      kept_valid (laws.invoke_keeps _ _ w w' x.sent) valid
  execute-AllValid (add_prize_pool_call a pool type name) w w' layout suits valid h =
      let x = add_prize_pool-Adds rt tx a pool type name w w' h in
      let opened = kept_valid (laws.create_keeps _ _ _ w x.created x.opened).0 valid in
      let v =
        push_pool-IsValid _ _ _ _ x.pushed
          (IsValid-at w a.config x.config valid x.allowed.stored) in
      rw x.result (
        written_valid (store a.config _ x.created) a.prize_pool _
          (written_valid x.created a.config (AccountData.config x.config') opened v) tt)
  execute-AllValid (remove_prize_pool_call a) w w' layout suits valid h =
      let x = remove_prize_pool-Removes rt tx a w w' h in
      let v =
        drop_pool-IsValid _ _ _ x.dropped (IsValid-at w a.config x.config valid x.allowed.stored) in
      rw x.result (
        written_valid (store a.config _ w) a.prize_pool _
          (written_valid w a.config (AccountData.config x.config') valid v) tt)
  execute-AllValid (update_prize_pool_call a pool type name) w w' layout suits valid h =
      let x = update_prize_pool-Updates rt tx a pool type name w w' h in
      rw x.result (written_valid w a.prize_pool _ valid tt)
