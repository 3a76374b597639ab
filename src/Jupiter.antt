-- ===== src/Jupiter.antt =====
-- utils/jupiter_cpi.rs: a swap through Jupiter, with the checks before and after the call.
pub mod Swap
pub mod Find
pub mod MinOutput
use card_machine.Prelude.{
  ℕ, ◌-◌, Bool, ◌&&◌, ◌||◌, true, false, not, Option, none, some, List, [], ◌∷◌, map, leb, ◌==◌,
  if◌then◌else◌, length, get_elem?, take, drop,
}
use card_machine.Prelude.Bytes.{same_bytes}
use card_machine.Constants.{Pubkey, jupiter_program_id, native_sol_mint}
use card_machine.Errors.{
  Result, ok, err, ok_or, ◌>>=◌, ◌>>◌, require, custom, panicked, invalid_swap_data,
  invalid_token_account, missing_swap_accounts, invalid_jupiter_program, math_overflow,
  slippage_exceeded, excessive_swap_input,
}
use card_machine.Words.{u64_mod, checked_sub, checked_mul, checked_div, sub_u64}
use card_machine.Runtime.{
  Runtime, World, Transaction, AccountData, TokenAccount, AccountInfo, AccountMeta, call, Seeds,
  parse_token, invoke_signed,
}

abbrev pub jupiter_route_discriminator : List ℕ
jupiter_route_discriminator = 229 ∷ 100 ∷ 247 ∷ 91 ∷ 30 ∷ 192 ∷ 179 ∷ 237 ∷ []

abbrev jupiter_shared_accounts_route_discriminator : List ℕ
jupiter_shared_accounts_route_discriminator = 193 ∷ 32 ∷ 155 ∷ 51 ∷ 65 ∷ 214 ∷ 156 ∷ 129 ∷ []

abbrev jupiter_exact_out_route_discriminator : List ℕ
jupiter_exact_out_route_discriminator = 208 ∷ 51 ∷ 239 ∷ 151 ∷ 123 ∷ 43 ∷ 237 ∷ 92 ∷ []

unfoldable pub is_valid_discriminator : List ℕ → Bool
is_valid_discriminator discriminator =
    same_bytes discriminator jupiter_route_discriminator
    || same_bytes discriminator jupiter_shared_accounts_route_discriminator
    || same_bytes discriminator jupiter_exact_out_route_discriminator

unfoldable pub get_token_amount : World → Pubkey → Result ℕ
get_token_amount w account = do
  token_account ← parse_token (w.account account)
  ok token_account.amount

-- Whether an account's data is that of a WSOL account of the vault.
abbrev pub is_vault_wsol : Pubkey → AccountData → Bool
is_vault_wsol vault (AccountData.token t) = t.owner == vault && t.mint == native_sol_mint
is_vault_wsol vault (AccountData.foreign_token t) = t.owner == vault && t.mint == native_sol_mint
is_vault_wsol vault _ = false

abbrev found_already : Option AccountInfo → Result (Unit {0})
found_already none = ok tt
found_already (some _) = err (custom invalid_token_account)

-- The loop of `find_vault_wsol_account`, on the accounts after the first.
find_vault_wsol_from : World → Pubkey → Option AccountInfo → List AccountInfo → Result AccountInfo
find_vault_wsol_from w vault found [] = ok_or found (custom missing_swap_accounts)
find_vault_wsol_from w vault found (acc ∷ rest) =
    let others = find_vault_wsol_from w vault found rest in
    let again = find_vault_wsol_from w vault (some acc) rest in
    let taken : Result AccountInfo =
      require acc.is_writable invalid_token_account >> (found_already found >> again) in
    if is_vault_wsol vault (w.account acc.key) then taken else others

unfoldable pub find_vault_wsol_account : World → List AccountInfo → Pubkey → Result AccountInfo
unfolding find_vault_wsol_from
find_vault_wsol_account w remaining_accounts vault =
    find_vault_wsol_from w vault none (drop 1 remaining_accounts)

abbrev pub as_meta : Pubkey → AccountInfo → AccountMeta
as_meta vault acc = record {
  pubkey = acc.key;
  is_signer = acc.key == vault;
  is_writable = acc.is_writable;
}

module _ (rt : Runtime) (tx : Transaction) where
  -- What is checked when the call has returned.
  unfoldable pub check_swap : World → ℕ → Pubkey → ℕ → Pubkey → ℕ → ℕ → Result World
  check_swap w balance_before user_output input_balance_before vault_input minimum_amount_out
        max_input_amount =
      do
        balance_after ← get_token_amount w user_output
        actual_output ← ok_or (checked_sub balance_after balance_before) (custom math_overflow)
        require (leb minimum_amount_out actual_output) slippage_exceeded
        input_balance_after ← get_token_amount w vault_input
        let input_spent = input_balance_before - input_balance_after
        require (leb input_spent max_input_amount) excessive_swap_input
        ok w

  -- The checks of the program's account, and the call.
  unfoldable pub call_jupiter : List AccountInfo → List ℕ → Pubkey → ℕ → World → Result World
  call_jupiter remaining_accounts swap_data vault vault_bump w = do
    require (leb 2 (length remaining_accounts)) missing_swap_accounts
    jupiter_program ← ok_or (get_elem? remaining_accounts 0) panicked
    require (jupiter_program.key == jupiter_program_id) invalid_jupiter_program
    let ix = call jupiter_program.key (map (as_meta vault) (drop 1 remaining_accounts)) swap_data
    invoke_signed rt ix tx Seeds.vault vault_bump w

  unfoldable pub swap_via_jupiter :
      List AccountInfo → List ℕ → Pubkey → ℕ → Pubkey → ℕ → ℕ → World → Result World
  swap_via_jupiter remaining_accounts swap_data vault vault_bump user_output minimum_amount_out
        max_input_amount w =
      do
        require (leb 8 (length swap_data)) invalid_swap_data
        require (is_valid_discriminator (take 8 swap_data)) invalid_swap_data
        balance_before ← get_token_amount w user_output
        vault_input ← find_vault_wsol_account w remaining_accounts vault
        require (not (vault_input.key == user_output)) invalid_token_account
        input_balance_before ← get_token_amount w vault_input.key
        w' ← call_jupiter remaining_accounts swap_data vault vault_bump w
        check_swap w' balance_before user_output input_balance_before vault_input.key
            minimum_amount_out max_input_amount

unfoldable pub calculate_min_output : Bool → ℕ → ℕ → Result ℕ
calculate_min_output overflow_checks expected_output slippage_bps = do
  factor ← sub_u64 overflow_checks 10000 slippage_bps
  product ← ok_or (checked_mul u64_mod expected_output factor) (custom math_overflow)
  ok_or (checked_div product 10000) (custom math_overflow)
