-- ===== src/Errors.antt =====
-- errors.rs: the program's error codes, and the result of a fallible step. Besides these codes an
-- instruction fails with an error of Anchor's account validation, a `ProgramError` of the runtime,
-- or a panic; each of them aborts the transaction.
use card_machine.Prelude.{◌≡◌, refl, Bool, true, false, Option, none, some, ◌⊎◌, inl, inr}

pub data IpFlowError : Type 0 where
  pyth_error pyth_price_stale pyth_price_invalid math_overflow program_paused : IpFlowError
  invalid_card_amount invalid_randomness_account switchboard_commit_failed : IpFlowError
  invalid_choice unauthorized invalid_switchboard_account invalid_usdt_mint : IpFlowError
  invalid_token_account missing_usdt_accounts invalid_request_status claim_expired : IpFlowError
  missing_swap_accounts swap_failed slippage_exceeded invalid_jupiter_program : IpFlowError
  missing_expected_output jupiter_swap_failed invalid_swap_data invalid_raydium_program :
      IpFlowError
  raydium_swap_failed wsol_wrap_failed refund_not_allowed insufficient_vault_balance : IpFlowError
  max_prize_pools_reached invalid_prize_pool_index no_prize_pool_to_remove : IpFlowError
  invalid_slot invalid_vrf_callback invalid_slot_hashes_sysvar invalid_oracle_queue : IpFlowError
  excessive_swap_input : IpFlowError

-- The checks that Anchor derives from `#[derive(Accounts)]`.
pub data AnchorError : Type 0 where
  account_not_signer constraint_seeds constraint_mut constraint_address invalid_program_id :
      AnchorError
  account_not_initialized account_already_in_use account_did_not_deserialize
        account_did_not_serialize :
      AnchorError

pub data ProgramError : Type 0 where
  arithmetic_overflow invalid_account_data insufficient_funds missing_signature : ProgramError
  -- an error of an invoked program, by its code
  other : ProgramError

pub data Error : Type 0 where
  custom : IpFlowError → Error
  anchor : AnchorError → Error
  program : ProgramError → Error
  panicked : Error

-- `Result<A>`, with a panic as an error.
pub data Result {ℓ} (A : Type ℓ) : Type ℓ where
  err : Error → Result A
  ok : A → Result A

-- The `?` operator: an error ends the function.
infixl 5 ◌>>=◌
abbrev pub ◌>>=◌ {ℓ κ} : {A : Type ℓ} {B : Type κ} → Result A → (A → Result B) → Result B
err reason >>= next = err reason
ok value >>= next = next value

-- A check, and what follows it.
infixl 5 ◌>>◌
abbrev pub ◌>>◌ {ℓ} : {A : Type ℓ} → Result (Unit {0}) → Result A → Result A
test >> rest = test >>= λ passed. rest

-- `require!(test, error)`.
abbrev pub require : Bool → IpFlowError → Result (Unit {0})
require true e = ok tt
require false e = err (custom e)

-- A check of Anchor's own.
abbrev pub check : Bool → AnchorError → Result (Unit {0})
check true e = ok tt
check false e = err (anchor e)

-- `ok_or(error)?`.
abbrev pub ok_or {ℓ} : {A : Type ℓ} → Option A → Error → Result A
ok_or none e = err e
ok_or (some a) e = ok a

-- `map_err(|_| error)`: a panic is no value and is not caught.
abbrev pub map_err {ℓ} : {A : Type ℓ} → IpFlowError → Result A → Result A
map_err e (ok a) = ok a
map_err e (err panicked) = err panicked
map_err e (err (custom _)) = err (custom e)
map_err e (err (anchor _)) = err (custom e)
map_err e (err (program _)) = err (custom e)

pub map_err-eq-ok {ℓ} :
    {A : Type ℓ} (e : IpFlowError) (m : Result A) {a : A} → map_err e m ≡ ok a → m ≡ ok a
map_err-eq-ok e (ok a) h = h
map_err-eq-ok e (err panicked) h = cc
map_err-eq-ok e (err (custom _)) h = cc
map_err-eq-ok e (err (anchor _)) h = cc
map_err-eq-ok e (err (program _)) h = cc

pub Result-cases {ℓ} :
    {A : Type ℓ} (m : Result A) → ((a : A) × (m ≡ ok a)) ⊎ ((e : Error) × (m ≡ err e))
Result-cases (ok a) = inl (a, refl)
Result-cases (err e) = inr (e, refl)
