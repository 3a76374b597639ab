-- ===== src/Runtime/Laws.antt =====
-- The documented behaviour of the runtime, of Anchor's `init`, and of the System and SPL Token
-- programs, as far as a theorem relies on it.
use card_machine.Prelude.{ℕ, ◌+◌, ◌≤◌, ◌<◌, ◌≡◌, refl, ◌∙◌, List, true, length, take, drop, some}
use mathlib.Core.List.{reverse}
use card_machine.Prelude.Bytes.{from_le_bytes}
use card_machine.State.{IpFlowState}
use card_machine.Layout.{init_space}
use card_machine.Layout.RoundTrip.{Fits}
use card_machine.Constants.{Pubkey}
use card_machine.Errors.{ok}
use card_machine.Words.{u64_mod}
use card_machine.Runtime.{
  Runtime, World, AccountData, vacant, config, mint_request, prize_pool, Instruction,
  system_transfer, move_lamports, contains, Seeds,
}

-- An account of this program as it stands, and any other as `vacant`.
abbrev pub own : AccountData → AccountData
own (config c) = config c
own (mint_request r) = mint_request r
own (prize_pool p) = prize_pool p
own _ = vacant

-- The accounts of this program, and its events, are as they were.
pub record KeepsOwn (w w' : World) : Type 0 where
  pub accounts : (k : Pubkey) → own (w'.account k) ≡ own (w.account k)
  pub events : w'.events ≡ w.events

pub keeps_same : (w : World) → KeepsOwn w w
keeps_same w = record { accounts = λ k. refl; events = refl }

pub keeps_trans : {u v w : World} → KeepsOwn u v → KeepsOwn v w → KeepsOwn u w
keeps_trans p q = record {
  accounts = λ k. q.accounts k ∙ p.accounts k;
  events = q.events ∙ p.events;
}

pub record RuntimeLaws (rt : Runtime) : Type 0 where
  -- A transfer that succeeds is covered by its source, and moves its amount and nothing else.
  pub transfer :
      (from to : Pubkey) (amount : ℕ) (signers : List Pubkey) (w w' : World)
      → rt.invoke (system_transfer from to amount) signers w ≡ ok w'
      → (w' ≡ move_lamports from to amount w) × (amount ≤ w.lamports from)
  -- A program changes the data of its own accounts only, and cannot call back: no other program
  -- writes, opens or closes an account of this one.
  pub invoke_keeps :
      (ix : Instruction) (signers : List Pubkey) (w w' : World)
      → rt.invoke ix signers w ≡ ok w'
      → KeepsOwn w w'
  -- `init` wants an address that is not in use, and leaves there an account with no value yet.
  pub create_keeps :
      (payer address : Pubkey) (space : ℕ) (w w' : World)
      → rt.create_account payer address space w ≡ ok w'
      → KeepsOwn w w' × (w.account address ≡ vacant)
  -- A bump is a `u8`.
  pub bump_in_range : (seeds : Seeds) → (rt.find_program_address seeds).1 < 256

-- The account of a configuration whose fields are in the ranges of their types: eight bytes of a
-- discriminator, then `INIT_SPACE` bytes, the administrator's key first; and it reads back.
pub record ConfigLayout (rt : Runtime) : Type 0 where
  pub size : (c : IpFlowState) → Fits c → length (rt.serialize_config c) ≡ 8 + init_space
  pub admin_at :
      (c : IpFlowState)
      → Fits c
      → from_le_bytes (reverse (take 32 (drop 8 (rt.serialize_config c)))) ≡ c.admin
  pub reads_back :
      (c : IpFlowState) → Fits c → rt.deserialize_config (rt.serialize_config c) ≡ some c

-- The System program carries out a transfer from an account without data that has signed and has
-- the lamports, where the receiver's balance stays a `u64`.
pub record ServesTransfers (rt : Runtime) : Type 0 where
  pub serves :
      (from to : Pubkey) (amount : ℕ) (signers : List Pubkey) (w : World)
      → contains signers from ≡ true
      → w.account from ≡ vacant
      → amount ≤ w.lamports from
      → w.lamports to + amount < u64_mod
      → rt.invoke (system_transfer from to amount) signers w ≡ ok (move_lamports from to amount w)
