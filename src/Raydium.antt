-- ===== src/Raydium.antt =====
-- utils/raydium_cpi.rs: a swap through Raydium's constant-product pools.
pub mod Call
use card_machine.Prelude.{ℕ, Bool, true, false, ◌||◌, ◌==◌, List, [], ◌∷◌, ◌++◌}
use card_machine.Prelude.Bytes.{to_le_bytes}
use card_machine.Constants.{Pubkey, raydium_cp_swap_program, raydium_cp_swap_program_devnet}
use card_machine.Errors.{Result, ◌>>◌, require, invalid_raydium_program}
use card_machine.Runtime.{Runtime, World, Transaction, AccountMeta, call, Seeds, invoke_signed}

pub record SwapBaseInputArgs : Type 0 where
  pub amount_in : ℕ  -- u64
  pub minimum_amount_out : ℕ  -- u64

-- The arguments' encoding: two little-endian words.
pub serialize : SwapBaseInputArgs → List ℕ
unfolding to_le_bytes
serialize args = to_le_bytes 8 args.amount_in ++ to_le_bytes 8 args.minimum_amount_out

-- The accounts that `swap_base_input` is given.
pub record SwapAccounts : Type 0 where
  pub cp_swap_program : Pubkey
  pub payer : Pubkey
  pub authority : Pubkey
  pub amm_config : Pubkey
  pub pool_state : Pubkey
  pub input_token_account : Pubkey
  pub output_token_account : Pubkey
  pub input_vault : Pubkey
  pub output_vault : Pubkey
  pub input_token_program : Pubkey
  pub output_token_program : Pubkey
  pub input_token_mint : Pubkey
  pub output_token_mint : Pubkey
  pub observation_state : Pubkey

-- `AccountMeta::new` and `AccountMeta::new_readonly`.
abbrev writable : Pubkey → Bool → AccountMeta
writable key is_signer = record { pubkey = key; is_signer = is_signer; is_writable = true }

abbrev read_only : Pubkey → Bool → AccountMeta
read_only key is_signer = record { pubkey = key; is_signer = is_signer; is_writable = false }

unfoldable pub swap_metas : SwapAccounts → List AccountMeta
swap_metas a =
    writable a.payer true
    ∷ read_only a.authority false
    ∷ read_only a.amm_config false
    ∷ writable a.pool_state false
    ∷ writable a.input_token_account false
    ∷ writable a.output_token_account false
    ∷ writable a.input_vault false
    ∷ writable a.output_vault false
    ∷ read_only a.input_token_program false
    ∷ read_only a.output_token_program false
    ∷ read_only a.input_token_mint false
    ∷ read_only a.output_token_mint false
    ∷ writable a.observation_state false
    ∷ []

abbrev pub swap_base_input_discriminator : List ℕ
swap_base_input_discriminator = 143 ∷ 190 ∷ 90 ∷ 218 ∷ 196 ∷ 30 ∷ 51 ∷ 222 ∷ []

abbrev pub is_raydium_program : Pubkey → Bool
is_raydium_program key = key == raydium_cp_swap_program || key == raydium_cp_swap_program_devnet

unfoldable pub swap_base_input :
    Runtime → Transaction → SwapAccounts → ℕ → ℕ → Seeds → ℕ → World → Result World
unfolding swap_metas serialize
swap_base_input rt tx a amount_in minimum_amount_out seeds bump w = do
  require (is_raydium_program a.cp_swap_program) invalid_raydium_program
  let args : SwapBaseInputArgs = record {
    amount_in = amount_in;
    minimum_amount_out = minimum_amount_out;
  }
  let ix = call a.cp_swap_program (swap_metas a) (swap_base_input_discriminator ++ serialize args)
  invoke_signed rt ix tx seeds bump w
