-- ===== src/Wsol/Wrap.antt =====
-- `wrap_sol` of utils/wsol_helper.rs: the transfer and the synchronization.
use card_machine.Prelude.{ℕ, ◌≤◌, ◌≡◌, inl, inr, arith}
use card_machine.Constants.{Pubkey}
use card_machine.Errors.{ok, Result-cases}
use card_machine.Runtime.{
  Runtime, World, Transaction, Seeds, system_transfer, sync_native, move_lamports, invoke_signed,
}
use card_machine.Runtime.Laws.{RuntimeLaws}
use card_machine.Runtime.Transfers.{invoke_signed-transfer}
use card_machine.Wsol.{wrap_sol}

-- The lamports are moved to the WSOL account, whose balance is then synchronized.
pub record Wraps (rt : Runtime) (tx : Transaction)
    (vault wsol_token_account token_program amount : ℕ) (w w' : World) : Type 0 where
  pub covered : amount ≤ w.lamports vault
  pub spl_token : token_program ≡ rt.token_program_id
  pub synchronized :
      rt.invoke
        (sync_native token_program wsol_token_account)
        tx.signers
        (move_lamports vault wsol_token_account amount w)
      ≡ ok w'

pub wrap_sol_lem :
    (rt : Runtime) (laws : RuntimeLaws rt) (tx : Transaction)
    (vault wsol_token_account token_program : Pubkey) (amount : ℕ) (seeds : Seeds) (bump : ℕ)
    (w w' : World)
    → wrap_sol rt tx vault wsol_token_account token_program amount seeds bump w ≡ ok w'
    → Wraps rt tx vault wsol_token_account token_program amount w w'
unfolding wrap_sol
wrap_sol_lem rt laws tx vault wsol_token_account token_program amount seeds bump w w' h =
    elim (Result-cases
      (invoke_signed rt (system_transfer vault wsol_token_account amount) tx seeds bump w)) [
        | inr (e, unsent) ↦ absurd (ground arith)
        | inl (moved, sent) ↦
            let (same, covered) =
              invoke_signed-transfer rt laws tx seeds bump vault wsol_token_account amount w moved
                sent in
            record { covered = covered; spl_token = ground arith; synchronized = ground arith }
      ]
