-- ===== src/Runtime.antt =====
-- The ledger that an instruction runs on, and what the program uses of the Solana runtime, of
-- Anchor and of the programs that it calls. None of that code is in the repository: `Runtime` is
-- a parameter of every instruction, and what a theorem relies on of it is in `Runtime/Laws`.
pub mod Laws
pub mod Inversion
pub mod Passed
pub mod Transfers
pub mod Requests
pub mod Sample
use card_machine.Prelude.{
  ℕ, ◌+◌, ◌-◌, Bool, true, false, ◌||◌, List, [], ◌∷◌, Option, none, some, ◌==◌, if◌then◌else◌,
}
use card_machine.Prelude.Int.{ℤ}
use card_machine.Constants.{Pubkey}
use card_machine.Errors.{
  Result, ok, err, ok_or, ◌>>=◌, ◌>>◌, check, anchor, account_not_signer, account_not_initialized,
  account_did_not_deserialize, constraint_seeds, constraint_mut, invalid_program_id,
}
use card_machine.State.{MintRequest, IpFlowState, PrizePoolAccount, Event}

-- ==================== The ledger ====================

-- An SPL token account, as far as the program reads it.
pub record TokenAccount : Type 0 where
  pub mint : Pubkey
  pub owner : Pubkey
  pub amount : ℕ  -- u64

-- What an account holds. An account of the program is given by the value that its data encodes;
-- `raw` is any other data.
pub data AccountData : Type 0 where
  vacant : AccountData
  config : IpFlowState → AccountData
  mint_request : MintRequest → AccountData
  prize_pool : PrizePoolAccount → AccountData
  token : TokenAccount → AccountData
  -- data of a token account's layout under another program than SPL Token
  foreign_token : TokenAccount → AccountData
  mint : AccountData
  raw : List ℕ → AccountData

pub record World : Type 0 where
  pub lamports : Pubkey → ℕ
  pub account : Pubkey → AccountData
  -- the events emitted so far, the latest first
  pub events : List Event

abbrev pub update {ℓ} : {A : Type ℓ} → (Pubkey → A) → Pubkey → A → Pubkey → A
update f k v j = if j == k then v else f j

-- Lamports that go from one account to another, or back to the same.
abbrev pub move_lamports : Pubkey → Pubkey → ℕ → World → World
move_lamports from to amount w =
    let debited = update w.lamports from (w.lamports from - amount) in
    record w { lamports = update debited to (debited to + amount) }

abbrev pub store : Pubkey → AccountData → World → World
store key contents w = record w { account = update w.account key contents }

abbrev pub emit : Event → World → World
emit event w = record w { events = event ∷ w.events }

-- Anchor's `close = destination`: the account's lamports go to `destination`, and its data goes.
abbrev pub close_account : Pubkey → Pubkey → World → World
close_account key destination w =
    store key vacant (move_lamports key destination (w.lamports key) w)

-- ==================== Clock, addresses, instructions ====================

pub record Clock : Type 0 where
  pub unix_timestamp : ℤ  -- i64
  pub slot : ℕ  -- u64

-- The seeds of the program's derived addresses: the byte strings `global_config`, `vault`,
-- `identity`, `mint_request` with a user and a slot, and `prize_pool` with an index.
pub data Seeds : Type 0 where
  global_config vault identity : Seeds
  mint_request : Pubkey → ℕ → Seeds
  prize_pool : ℕ → Seeds

pub record AccountMeta : Type 0 where
  pub pubkey : Pubkey
  pub is_signer : Bool
  pub is_writable : Bool

-- `RequestRandomnessParams`; the callback's discriminator is fixed by the instruction's name.
pub record RandomnessParams : Type 0 where
  pub payer : Pubkey
  pub oracle_queue : Pubkey
  pub caller_seed : List ℕ
  pub accounts_metas : List AccountMeta

-- The instructions that the program sends to others.
pub data Instruction : Type 0 where
  system_transfer : Pubkey → Pubkey → ℕ → Instruction
  token_transfer : Pubkey → Pubkey → Pubkey → ℕ → Instruction
  sync_native : Pubkey → Pubkey → Instruction
  close_token_account : Pubkey → Pubkey → Pubkey → Pubkey → Instruction
  request_randomness : RandomnessParams → Instruction
  -- program, accounts, data
  call : Pubkey → List AccountMeta → List ℕ → Instruction

-- A Pyth price: `price` times ten to the power `exponent`.
pub record Price : Type 0 where
  pub price : ℤ  -- i64
  pub exponent : ℤ  -- i32

-- ==================== The runtime ====================

pub record Runtime : Type 0 where
  -- whether the build checks the overflow of `+`, `-` and `*`
  pub overflow_checks : Bool
  pub system_program_id : Pubkey
  pub token_program_id : Pubkey
  pub slot_hashes_id : Pubkey
  -- ephemeral_vrf_sdk::consts
  pub vrf_program_id : Pubkey
  pub vrf_program_identity : Pubkey
  -- `Pubkey::find_program_address` and `create_program_address`
  pub find_program_address : Seeds → Pubkey × ℕ
  pub create_program_address : Seeds → ℕ → Option Pubkey
  -- `Rent::minimum_balance`, by the size of the data
  pub minimum_balance : ℕ → ℕ
  -- the bytes of an `IPFlowState` account, which Anchor and Borsh derive, and
  -- `IPFlowState::try_deserialize`, which leaves trailing bytes unread
  pub serialize_config : IpFlowState → List ℕ
  pub deserialize_config : List ℕ → Option IpFlowState
  pub hash : List ℕ → List ℕ
  -- whether an account holds a `PriceUpdateV2`, and `get_price_no_older_than` on it
  pub is_price_update : World → Pubkey → Bool
  pub get_price_no_older_than : World → Pubkey → Clock → ℕ → ℕ → Option Price
  -- Anchor's `init`: payer, address, size
  pub create_account : Pubkey → Pubkey → ℕ → World → Result World
  -- an invocation with the accounts that have signed it
  pub invoke : Instruction → List Pubkey → World → Result World

-- A transaction: who signed it, which accounts it may write, and the clock of its slot.
pub record Transaction : Type 0 where
  pub signers : List Pubkey
  -- whether an account is passed as writable
  pub is_writable : Pubkey → Bool
  pub clock : Clock

abbrev pub contains : List Pubkey → Pubkey → Bool
contains [] key = false
contains (k ∷ ks) key = k == key || contains ks key

-- ==================== Anchor's checks ====================

-- `Signer<'info>`.
abbrev pub check_signer : Transaction → Pubkey → Result (Unit {0})
check_signer tx key = check (contains tx.signers key) account_not_signer

-- `#[account(mut)]`.
abbrev pub check_mut : Transaction → Pubkey → Result (Unit {0})
check_mut tx key = check (tx.is_writable key) constraint_mut

-- `#[account(mut)]` of an account that need not be passed.
abbrev pub check_mut_passed : Transaction → Option Pubkey → Result (Unit {0})
check_mut_passed tx none = ok tt
check_mut_passed tx (some key) = check_mut tx key

-- `Program<'info, T>`.
abbrev pub check_program : Pubkey → Pubkey → Result (Unit {0})
check_program key program_id = check (key == program_id) invalid_program_id

-- `Account<'info, T>`.
abbrev pub as_config : AccountData → Result IpFlowState
as_config (config c) = ok c
as_config vacant = err (anchor account_not_initialized)
as_config _ = err (anchor account_did_not_deserialize)

abbrev pub as_mint_request : AccountData → Result MintRequest
as_mint_request (mint_request r) = ok r
as_mint_request vacant = err (anchor account_not_initialized)
as_mint_request _ = err (anchor account_did_not_deserialize)

abbrev pub as_prize_pool : AccountData → Result PrizePoolAccount
as_prize_pool (prize_pool p) = ok p
as_prize_pool vacant = err (anchor account_not_initialized)
as_prize_pool _ = err (anchor account_did_not_deserialize)

abbrev pub as_token : AccountData → Result TokenAccount
as_token (token t) = ok t
as_token vacant = err (anchor account_not_initialized)
as_token _ = err (anchor account_did_not_deserialize)

abbrev pub as_mint : AccountData → Result (Unit {0})
as_mint mint = ok tt
as_mint vacant = err (anchor account_not_initialized)
as_mint _ = err (anchor account_did_not_deserialize)

-- `Option<…>` in a struct of accounts: the account is checked if it is passed.
abbrev pub optional {ℓ} :
    {A : Type ℓ} → Option Pubkey → (Pubkey → Result A) → Result (Option (Pubkey × A))
optional none read = ok none
optional (some key) read = read key >>= λ a. ok (some (key, a))

-- `TokenAccount::try_deserialize`, which does not look at the account's owner.
abbrev pub parse_token : AccountData → Result TokenAccount
parse_token (token t) = ok t
parse_token (foreign_token t) = ok t
parse_token vacant = err (anchor account_not_initialized)
parse_token _ = err (anchor account_did_not_deserialize)

-- A writable or read-only account of an instruction, by its key.
pub record AccountInfo : Type 0 where
  pub key : Pubkey
  pub is_writable : Bool

module _ (rt : Runtime) where
  -- `seeds = […], bump`: the canonical bump.
  abbrev pub check_seeds : Pubkey → Seeds → Result (Unit {0})
  check_seeds key seeds = check (key == (rt.find_program_address seeds).0) constraint_seeds

  -- `seeds = […], bump = stored`.
  abbrev pub check_seeds_bump : Pubkey → Seeds → ℕ → Result (Unit {0})
  check_seeds_bump key seeds bump = do
    address ← ok_or (rt.create_program_address seeds bump) (anchor constraint_seeds)
    check (key == address) constraint_seeds

  -- `invoke_signed` with one derived signer besides those of the transaction.
  abbrev pub invoke_signed : Instruction → Transaction → Seeds → ℕ → World → Result World
  invoke_signed ix tx seeds bump w = do
    address ← ok_or (rt.create_program_address seeds bump) (anchor constraint_seeds)
    rt.invoke ix (address ∷ tx.signers) w
