-- ===== src/Lifecycle.antt =====
-- lib.rs: the program's instructions, and the steps that the ledger takes.
pub mod Leaves
pub mod ConfigLeaves
pub mod Effects
pub mod Status
pub mod Invariant
pub mod Accounting
pub mod Access
pub mod Settings
pub mod Board
pub mod Stored
pub mod Consistent
pub mod Pools
pub mod PoolAccounts
pub mod Payday
pub mod Selection
pub mod Refundable
use card_machine.Prelude.{ℕ, ◌≡◌, List, Option}
use card_machine.Constants.{Pubkey}
use card_machine.Errors.{Result, ok}
use card_machine.State.{PoolType, PaymentMode}
use card_machine.Runtime.{Runtime, World, Transaction}
use card_machine.Runtime.Laws.{KeepsOwn}
use card_machine.Admin.Config.{ConfigAccounts, initialize, migrate_config, close_config}
use card_machine.Admin.Withdraw.{
  WithdrawSolAccounts, WithdrawTokenAccounts, withdraw_sol, withdraw_token,
}
use card_machine.Admin.PrizePool.{
  PrizePoolAccounts, add_prize_pool, remove_prize_pool, update_prize_pool,
}
use card_machine.User.RequestMint.{RequestMintAccounts, request_mint}
use card_machine.User.Claim.{ClaimAccounts, ClaimArgs, claim}
use card_machine.User.Refund.{RefundAccounts, refund}
use card_machine.Oracle.{ConsumeAccounts, consume_lottery_randomness}

-- An instruction of the program: its accounts and its arguments.
pub data ProgramCall : Type 0 where
  initialize_call : ConfigAccounts → ℕ → ProgramCall
  migrate_config_call : ConfigAccounts → ℕ → ProgramCall
  close_config_call : ConfigAccounts → ProgramCall
  request_mint_call : RequestMintAccounts → ℕ → PaymentMode → ℕ → ℕ → ProgramCall
  consume_call : ConsumeAccounts → List ℕ → ProgramCall
  claim_call : ClaimAccounts → ClaimArgs → ProgramCall
  refund_call : RefundAccounts → ℕ → ProgramCall
  withdraw_sol_call : WithdrawSolAccounts → ℕ → ProgramCall
  withdraw_token_call : WithdrawTokenAccounts → ℕ → ProgramCall
  add_prize_pool_call : PrizePoolAccounts → Pubkey → PoolType → List ℕ → ProgramCall
  remove_prize_pool_call : PrizePoolAccounts → ProgramCall
  update_prize_pool_call :
      PrizePoolAccounts → Option Pubkey → Option PoolType → Option (List ℕ) → ProgramCall

unfoldable pub execute : Runtime → Transaction → ProgramCall → World → Result World
execute rt tx (initialize_call a fee) w = initialize rt tx a fee w
execute rt tx (migrate_config_call a count) w = migrate_config rt tx a count w
execute rt tx (close_config_call a) w = close_config rt tx a w
execute rt tx (request_mint_call a cards mode seed slot) w =
    request_mint rt tx a cards mode seed slot w
execute rt tx (consume_call a randomness) w = consume_lottery_randomness rt tx a randomness w
execute rt tx (claim_call a args) w = claim rt tx a args w
execute rt tx (refund_call a slot) w = refund rt tx a slot w
execute rt tx (withdraw_sol_call a amount) w = withdraw_sol rt tx a amount w
execute rt tx (withdraw_token_call a amount) w = withdraw_token rt tx a amount w
execute rt tx (add_prize_pool_call a pool type name) w = add_prize_pool rt tx a pool type name w
execute rt tx (remove_prize_pool_call a) w = remove_prize_pool rt tx a w
execute rt tx (update_prize_pool_call a pool type name) w =
    update_prize_pool rt tx a pool type name w

-- A step of the ledger: an instruction of the program that succeeds, in a transaction at any
-- time, or whatever else happens, which leaves the program's own accounts alone.
pub data Step (rt : Runtime) (w w' : World) : Type 0 where
  run : (tx : Transaction) (c : ProgramCall) → execute rt tx c w ≡ ok w' → Step rt w w'
  outside : KeepsOwn w w' → Step rt w w'

pub data Trace (rt : Runtime) (start : World) : World → Type 0 where
  begin : Trace rt start start
  next : {w w' : World} → Trace rt start w → Step rt w w' → Trace rt start w'
