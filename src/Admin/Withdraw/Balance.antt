-- ===== src/Admin/Withdraw/Balance.antt =====
-- `withdraw_sol` of instructions/admin/withdraw.rs: who makes a withdrawal, and what it moves.
use card_machine.Prelude.{ℕ, ◌-◌, ◌≤◌, ◌≡◌, true, inl, inr, arith}
use card_machine.Errors.{ok}
use card_machine.State.{IpFlowState}
use card_machine.Runtime.{
  Runtime, World, Transaction, AccountData, contains, invoke_signed, move_lamports, system_transfer,
  Seeds,
}
use card_machine.Runtime.Inversion.{as_config-cases}
use card_machine.Runtime.Laws.{RuntimeLaws}
use card_machine.Runtime.Transfers.{invoke_signed-transfer}
use card_machine.Admin.Withdraw.{WithdrawSolAccounts, withdraw_sol}

withdraw_sol_steps :
    (rt : Runtime) (tx : Transaction) (a : WithdrawSolAccounts) (amount : ℕ) (w w' : World)
    → withdraw_sol rt tx a amount w ≡ ok w'
    → (config : IpFlowState) × (w.account a.config ≡ AccountData.config config)
      × (config.admin ≡ a.admin)
      × (contains tx.signers a.admin ≡ true)
      × (amount ≤ w.lamports a.vault - rt.minimum_balance 0)
      × (invoke_signed rt
            (system_transfer a.vault a.recipient amount)
            tx
            Seeds.vault
            config.vault_bump
            w
          ≡ ok w')
unfolding withdraw_sol
withdraw_sol_steps rt tx a amount w w' h = elim (as_config-cases (w.account a.config)) [
  | inr (e, fails) ↦ absurd (ground arith)
  | inl (config, e) ↦ (config, e, ground arith, ground arith, ground arith, ground arith)
]

-- What a withdrawal has done.
abbrev pub Withdraws : Runtime → Transaction → WithdrawSolAccounts → ℕ → World → World → Type 0
Withdraws rt tx a amount w w' =
    (config : IpFlowState) × (w.account a.config ≡ AccountData.config config)
    × (config.admin ≡ a.admin)
    × (contains tx.signers a.admin ≡ true)
    × (amount ≤ w.lamports a.vault - rt.minimum_balance 0)
    × (w' ≡ move_lamports a.vault a.recipient amount w)

-- A withdrawal of SOL that succeeds is signed by the administrator of the configuration. It moves
-- the amount from the vault to the recipient and nothing else, and the amount is at most what the
-- vault has beyond its rent.
pub withdraw_sol_moves :
    (rt : Runtime) (laws : RuntimeLaws rt) (tx : Transaction) (a : WithdrawSolAccounts) (amount : ℕ)
    (w w' : World)
    → withdraw_sol rt tx a amount w ≡ ok w'
    → Withdraws rt tx a amount w w'
withdraw_sol_moves rt laws tx a amount w w' h =
    let (config, e, admin, signed, cap, sent) = withdraw_sol_steps rt tx a amount w w' h in
    (
      config,
      e,
      admin,
      signed,
      cap,
      (invoke_signed-transfer rt laws tx Seeds.vault config.vault_bump a.vault a.recipient amount w
          w' sent).0,
    )
