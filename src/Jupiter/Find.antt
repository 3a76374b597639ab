-- ===== src/Jupiter/Find.antt =====
-- `find_vault_wsol_account` of utils/jupiter_cpi.rs, beside a description of it without a loop.
use card_machine.Prelude.{◌≡◌, refl, none, some, List, [], ◌∷◌, drop, if◌then◌else◌, arith}
use card_machine.Constants.{Pubkey}
use card_machine.Errors.{Result, ok, err, custom, missing_swap_accounts, invalid_token_account}
use card_machine.Runtime.{World, AccountInfo}
use card_machine.Jupiter.{is_vault_wsol, find_vault_wsol_from, find_vault_wsol_account}

-- The WSOL accounts of the vault in a list, in order.
abbrev pub vault_wsol : World → Pubkey → List AccountInfo → List AccountInfo
vault_wsol w vault [] = []
vault_wsol w vault (acc ∷ rest) =
    let others = vault_wsol w vault rest in
    if is_vault_wsol vault (w.account acc.key) then acc ∷ others else others

-- The only one of them, which is to be writable.
abbrev pub only_one : List AccountInfo → Result AccountInfo
only_one [] = err (custom missing_swap_accounts)
only_one (acc ∷ []) = if acc.is_writable then ok acc else err (custom invalid_token_account)
only_one (acc ∷ another ∷ rest) = err (custom invalid_token_account)

-- The same, once one has been found.
abbrev one_more : AccountInfo → List AccountInfo → Result AccountInfo
one_more found [] = ok found
one_more found (acc ∷ rest) = err (custom invalid_token_account)

find_after :
    (w : World) (vault : Pubkey) (found : AccountInfo) (accounts : List AccountInfo)
    → find_vault_wsol_from w vault (some found) accounts
      ≡ one_more found (vault_wsol w vault accounts)
unfolding find_vault_wsol_from
find_after w vault found [] = refl
find_after w vault found (acc ∷ rest) = ground (arith, find_after w vault found rest)

find_first :
    (w : World) (vault : Pubkey) (accounts : List AccountInfo)
    → find_vault_wsol_from w vault none accounts ≡ only_one (vault_wsol w vault accounts)
unfolding find_vault_wsol_from
find_first w vault [] = refl
find_first w vault (acc ∷ rest) =
    ground (arith, find_first w vault rest, find_after w vault acc rest)

-- The search for the vault's WSOL account chooses the only one among the accounts after the first:
-- where there is none it fails for missing accounts, and where there are several, or the only one
-- is not writable, for an invalid account.
pub find_vault_wsol_account_only :
    (w : World) (accounts : List AccountInfo) (vault : Pubkey)
    → find_vault_wsol_account w accounts vault ≡ only_one (vault_wsol w vault (drop 1 accounts))
unfolding find_vault_wsol_account
find_vault_wsol_account_only w accounts vault = find_first w vault (drop 1 accounts)
