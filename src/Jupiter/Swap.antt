-- ===== src/Jupiter/Swap.antt =====
-- `swap_via_jupiter` of utils/jupiter_cpi.rs: its accounts, and the balances before and after.
use card_machine.Prelude.{
  ℕ, ◌+◌, ◌≤◌, ◌≡◌, ◌≢◌, ◌⊎◌, Bool, true, false, Option, none, some, List, [], ◌∷◌, arith, drop,
  refl, if◌then◌else◌, inl, inr,
}
use card_machine.Constants.{Pubkey}
use card_machine.Errors.{ok, Result-cases}
use card_machine.Runtime.{Runtime, World, Transaction, AccountInfo, AccountData}
use card_machine.Jupiter.{
  get_token_amount, is_vault_wsol, find_vault_wsol_from, find_vault_wsol_account, check_swap,
  call_jupiter, swap_via_jupiter,
}

-- An account is one of a list.
abbrev IsIn : AccountInfo → List AccountInfo → Type 0
IsIn acc [] = ⊥
IsIn acc (a ∷ rest) = (acc ≡ a) ⊎ IsIn acc rest

pub record IsVaultInput (w : World) (vault : Pubkey) (accounts : List AccountInfo)
    (acc : AccountInfo) : Type 0 where
  pub listed : IsIn acc accounts
  pub wsol : is_vault_wsol vault (w.account acc.key) ≡ true
  pub may_write : acc.is_writable ≡ true

find_vault_wsol_from_none :
    (w : World) (vault : Pubkey) (found : Option AccountInfo) (accounts : List AccountInfo)
    (acc : AccountInfo)
    → find_vault_wsol_from w vault found accounts ≡ ok acc
    → (found ≡ some acc) ⊎ IsVaultInput w vault accounts acc
unfolding find_vault_wsol_from
find_vault_wsol_from_none w vault found [] acc h = ground arith
find_vault_wsol_from_none w vault found (a ∷ rest) acc h = ground (
  arith,
  find_vault_wsol_from_none w vault found rest acc,
  find_vault_wsol_from_none w vault (some a) rest acc,
)

abbrev is_none : Option AccountInfo → Bool
is_none none = true
is_none (some _) = false

abbrev balance_in : AccountData → ℕ
balance_in (AccountData.token t) = t.amount
balance_in (AccountData.foreign_token t) = t.amount
balance_in _ = 0

-- How many of the listed accounts are WSOL accounts of the vault.
abbrev vault_wsol_count : World → Pubkey → List AccountInfo → ℕ
vault_wsol_count w vault [] = 0
vault_wsol_count w vault (a ∷ rest) =
    (if is_vault_wsol vault (w.account a.key) then 1 else 0) + vault_wsol_count w vault rest

find_vault_wsol_from_once :
    (w : World) (vault : Pubkey) (found : Option AccountInfo) (accounts : List AccountInfo)
    (acc : AccountInfo)
    → find_vault_wsol_from w vault found accounts ≡ ok acc
    → vault_wsol_count w vault accounts ≡ (if is_none found then 1 else 0)
unfolding find_vault_wsol_from
find_vault_wsol_from_once w vault none [] acc h = cc
find_vault_wsol_from_once w vault (some f) [] acc h = refl
find_vault_wsol_from_once w vault none (a ∷ rest) acc h = ground (
  arith,
  find_vault_wsol_from_once w vault none rest acc,
  find_vault_wsol_from_once w vault (some a) rest acc,
)
find_vault_wsol_from_once w vault (some f) (a ∷ rest) acc h =
    ground (arith, find_vault_wsol_from_once w vault (some f) rest acc)

-- The account that is found is the only WSOL account of the vault in the list, and is writable.
find_vault_wsol_account_lem :
    (w : World) (accounts : List AccountInfo) (vault : Pubkey) (acc : AccountInfo)
    → find_vault_wsol_account w accounts vault ≡ ok acc
    → IsVaultInput w vault (drop 1 accounts) acc × (vault_wsol_count w vault (drop 1 accounts) ≡ 1)
unfolding find_vault_wsol_account
find_vault_wsol_account_lem w accounts vault acc h = (
  elim (find_vault_wsol_from_none w vault none (drop 1 accounts) acc h) [ inl e ↦ cc | inr v ↦ v ],
  find_vault_wsol_from_once w vault none (drop 1 accounts) acc h,
)

-- The balance of a token account, 0 where there is none.
abbrev token_balance : World → Pubkey → ℕ
token_balance w key = balance_in (w.account key)

-- What a swap that returned is known to have done to the two accounts that are watched.
pub record IsSafeSwap (before after : World) (output input : Pubkey) (minimum_out maximum_in : ℕ)
    : Type 0 where
  pub delivered : token_balance before output + minimum_out ≤ token_balance after output
  pub capped : token_balance before input ≤ token_balance after input + maximum_in

check_swap_lem :
    (rt : Runtime) (tx : Transaction) (before called after : World) (output input : Pubkey)
    (minimum_out maximum_in out_before in_before : ℕ)
    → get_token_amount before output ≡ ok out_before
    → get_token_amount before input ≡ ok in_before
    → check_swap rt tx called out_before output in_before input minimum_out maximum_in ≡ ok after
    → IsSafeSwap before after output input minimum_out maximum_in
unfolding check_swap get_token_amount
check_swap_lem rt tx before called after output input minimum_out maximum_in ob ib eo ei h =
    ground arith

-- What a swap from `w` to `w'` has done to the accounts that are watched.
abbrev pub Swaps : List AccountInfo → Pubkey → Pubkey → ℕ → ℕ → World → World → Type 0
Swaps remaining vault output minimum_out maximum_in w w' =
    (input : AccountInfo) × IsVaultInput w vault (drop 1 remaining) input
    × (vault_wsol_count w vault (drop 1 remaining) ≡ 1)
    × (input.key ≢ output)
    × IsSafeSwap w w' output input.key minimum_out maximum_in

-- A swap that returns has exactly one WSOL account of the vault among its accounts, which is
-- writable and not the output. Whatever the called program does, the output account has gained at
-- least the minimum, and that WSOL account has lost at most the maximum.
pub swap_via_jupiter_lem :
    (rt : Runtime) (tx : Transaction) (remaining : List AccountInfo) (swap_data : List ℕ)
    (vault : Pubkey) (bump : ℕ) (output : Pubkey) (minimum_out maximum_in : ℕ) (w w' : World)
    → swap_via_jupiter rt tx remaining swap_data vault bump output minimum_out maximum_in w ≡ ok w'
    → Swaps remaining vault output minimum_out maximum_in w w'
unfolding swap_via_jupiter
swap_via_jupiter_lem rt tx remaining swap_data vault bump output minimum_out maximum_in w w' h =
    elim (Result-cases (find_vault_wsol_account w remaining vault)) [
      | inr (e, fails) ↦ absurd (ground arith)
      | inl (input, finds) ↦
          elim (Result-cases (call_jupiter rt tx remaining swap_data vault bump w)) [
            | inr (e, fails) ↦ absurd (ground arith)
            | inl (called, calls) ↦ elim (Result-cases (get_token_amount w output)) [
              | inr (e, fails) ↦ absurd (ground arith)
              | inl (out_before, e_out) ↦ elim (Result-cases (get_token_amount w input.key)) [
                | inr (e, fails) ↦ absurd (ground arith)
                | inl (in_before, e_in) ↦
                    let (is_input, once) =
                      find_vault_wsol_account_lem w remaining vault input finds in
                    (
                      input,
                      is_input,
                      once,
                      ground arith,
                      check_swap_lem rt tx w called w' output input.key minimum_out maximum_in
                          out_before in_before e_out e_in (ground arith),
                    )
              ]
            ]
          ]
    ]
