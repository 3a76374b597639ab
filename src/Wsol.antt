-- ===== src/Wsol.antt =====
-- utils/wsol_helper.rs: wrapping SOL, and closing a WSOL account.
pub mod Wrap
use card_machine.Prelude.{ℕ, ◌==◌, if◌then◌else◌}
use card_machine.Constants.{Pubkey}
use card_machine.Errors.{Result, ok, err, ◌>>=◌, ◌>>◌, program, other}
use card_machine.Runtime.{
  Runtime, World, Transaction, system_transfer, sync_native, close_token_account, Seeds,
  invoke_signed,
}

module _ (rt : Runtime) (tx : Transaction) where
  -- The builders of `spl_token::instruction` refuse another program than SPL Token.
  abbrev check_token_program : Pubkey → Result (Unit {0})
  check_token_program key = if key == rt.token_program_id then ok tt else err (program other)

  unfoldable pub wrap_sol : Pubkey → Pubkey → Pubkey → ℕ → Seeds → ℕ → World → Result World
  wrap_sol vault wsol_token_account token_program amount seeds bump w = do
    w' ← invoke_signed rt (system_transfer vault wsol_token_account amount) tx seeds bump w
    check_token_program token_program
    rt.invoke (sync_native token_program wsol_token_account) tx.signers w'

  unfoldable close_wsol_account :
      Pubkey → Pubkey → Pubkey → Pubkey → Seeds → ℕ → World → Result World
  close_wsol_account wsol_token_account destination authority token_program seeds bump w = do
    check_token_program token_program
    invoke_signed rt (close_token_account token_program wsol_token_account destination authority) tx
        seeds bump w
