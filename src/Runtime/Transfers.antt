-- ===== src/Runtime/Transfers.antt =====
-- Invocations that the program signs.
use card_machine.Prelude.{
  ℕ, ◌≤◌, ◌≡◌, inl, inr, arith, Option-cases, ◌∷◌, ◌+◌, ◌<◌, some, true, ==_self,
}
use card_machine.Errors.{ok}
use card_machine.Constants.{Pubkey}
use card_machine.Words.{u64_mod}
use card_machine.Runtime.{
  Runtime, World, Transaction, Seeds, Instruction, invoke_signed, system_transfer, move_lamports,
  vacant, contains,
}
use card_machine.Runtime.Laws.{RuntimeLaws, KeepsOwn, ServesTransfers}

pub invoke_signed-transfer :
    (rt : Runtime) (laws : RuntimeLaws rt) (tx : Transaction) (seeds : Seeds)
    (bump from to amount : ℕ) (w w' : World)
    → invoke_signed rt (system_transfer from to amount) tx seeds bump w ≡ ok w'
    → (w' ≡ move_lamports from to amount w) × (amount ≤ w.lamports from)
invoke_signed-transfer rt laws tx seeds bump from to amount w w' h =
    elim (Option-cases (rt.create_program_address seeds bump)) [
      | inl fails ↦ absurd (ground arith)
      | inr (address, e) ↦ laws.transfer from to amount (address ∷ tx.signers) w w' (ground arith)
    ]

pub invoke_signed-keeps :
    (rt : Runtime) (laws : RuntimeLaws rt) (ix : Instruction) (tx : Transaction) (seeds : Seeds)
    (bump : ℕ) (w w' : World)
    → invoke_signed rt ix tx seeds bump w ≡ ok w'
    → KeepsOwn w w'
invoke_signed-keeps rt laws ix tx seeds bump w w' h =
    elim (Option-cases (rt.create_program_address seeds bump)) [
      | inl fails ↦ absurd (ground arith)
      | inr (address, e) ↦ laws.invoke_keeps ix (address ∷ tx.signers) w w' (ground arith)
    ]

-- The derived address `from` signs.
pub invoke_signed-serves :
    (rt : Runtime) (sends : ServesTransfers rt) (tx : Transaction) (seeds : Seeds) (bump : ℕ)
    (from to : Pubkey) (amount : ℕ) (w : World)
    → rt.create_program_address seeds bump ≡ some from
    → w.account from ≡ vacant
    → amount ≤ w.lamports from
    → w.lamports to + amount < u64_mod
    → invoke_signed rt (system_transfer from to amount) tx seeds bump w
      ≡ ok (move_lamports from to amount w)
invoke_signed-serves rt sends tx seeds bump from to amount w address empty covered fits =
    let signed : contains (from ∷ tx.signers) from ≡ true = ground (arith, ==_self from) in
    let sent = sends.serves from to amount (from ∷ tx.signers) w signed empty covered fits in
    ground arith
