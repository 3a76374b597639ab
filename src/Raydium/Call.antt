-- ===== src/Raydium/Call.antt =====
-- `swap_base_input` of utils/raydium_cpi.rs: the instruction that Raydium is sent.
use mathlib.Core.List.{append-nil}
use card_machine.Prelude.{ℕ, ◌<◌, ◌≡◌, ap, sym, ◌⊎◌, ◌∙◌, ◌∷◌, [], List, some, arith}
use card_machine.Prelude.Bytes.{to_le_bytes}
use card_machine.Constants.{Pubkey, raydium_cp_swap_program, raydium_cp_swap_program_devnet}
use card_machine.Errors.{ok}
use card_machine.Words.{u64_mod}
use card_machine.Layout.{read_word}
use card_machine.Layout.RoundTrip.{read_word-append}
use card_machine.Runtime.{Runtime, World, Transaction, Seeds, AccountMeta, call}
use card_machine.Raydium.{SwapAccounts, SwapBaseInputArgs, serialize, swap_metas, swap_base_input}

-- Two little-endian words stand in the bytes, one behind the other.
pub record Encodes (bytes : List ℕ) (amount_in minimum_amount_out : ℕ) : Type 0 where
  pub rest : List ℕ
  pub first : read_word 8 bytes ≡ some (amount_in, rest)
  pub second : read_word 8 rest ≡ some (minimum_amount_out, [])

pub serialize-Encodes :
    (args : SwapBaseInputArgs)
    → args.amount_in < u64_mod
    → args.minimum_amount_out < u64_mod
    → Encodes (serialize args) args.amount_in args.minimum_amount_out
unfolding serialize
serialize-Encodes args small_in small_out = record {
  rest = to_le_bytes 8 args.minimum_amount_out;
  first = read_word-append 8 args.amount_in (to_le_bytes 8 args.minimum_amount_out) small_in;
  second =
      ap (read_word 8) (sym (append-nil (to_le_bytes 8 args.minimum_amount_out)))
      ∙ read_word-append 8 args.minimum_amount_out [] small_out;
}

pub record CallsRaydium (rt : Runtime) (tx : Transaction) (program : Pubkey)
    (metas : List AccountMeta) (amount_in minimum_amount_out : ℕ) (signer : Pubkey) (w w' : World)
    : Type 0 where
  pub args : List ℕ
  pub encoded : Encodes args amount_in minimum_amount_out
  pub known : (program ≡ raydium_cp_swap_program) ⊎ (program ≡ raydium_cp_swap_program_devnet)
  pub called :
      rt.invoke
        (call program metas (143 ∷ 190 ∷ 90 ∷ 218 ∷ 196 ∷ 30 ∷ 51 ∷ 222 ∷ args))
        (signer ∷ tx.signers)
        w
      ≡ ok w'

pub swap_base_input_lem :
    (rt : Runtime) (tx : Transaction) (a : SwapAccounts) (amount_in minimum_amount_out : ℕ)
    (seeds : Seeds) (bump : ℕ) (signer : Pubkey) (w w' : World)
    → amount_in < u64_mod
    → minimum_amount_out < u64_mod
    → rt.create_program_address seeds bump ≡ some signer
    → swap_base_input rt tx a amount_in minimum_amount_out seeds bump w ≡ ok w'
    → CallsRaydium rt tx a.cp_swap_program (swap_metas a) amount_in minimum_amount_out signer w w'
unfolding swap_base_input
swap_base_input_lem rt tx a amount_in minimum_amount_out seeds bump signer w w' small_in small_out
      address h =
    record {
      args = serialize (record { amount_in = amount_in; minimum_amount_out = minimum_amount_out });
      encoded = serialize-Encodes _ small_in small_out;
      known = ground arith;
      called = ground arith;
    }
