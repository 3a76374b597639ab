-- ===== src/Runtime/Sample.antt =====
-- A runtime that runs, for the tests: addresses by arithmetic, the System and SPL Token programs
-- as they are documented, and an exchange that pays 1000 tokens for 500.
pub mod Lawful
use card_machine.Prelude.{
  ℕ, ◌+◌, ◌-◌, ◌*◌, ◌^◌, Bool, true, false, ◌&&◌, Option, none, some, List, [], ◌∷◌, leb, ltb, ◌==◌,
  if◌then◌else◌, replicate,
}
use card_machine.Prelude.Int.{pos, negsuc}
use card_machine.Constants.{Pubkey}
use card_machine.Layout.{encode, decode}
use card_machine.Errors.{
  Result, ok, err, program, insufficient_funds, missing_signature, anchor, account_already_in_use,
  invalid_account_data,
}
use card_machine.Runtime.{
  Runtime, World, AccountData, TokenAccount, vacant, token, raw, Instruction, system_transfer,
  token_transfer, call, AccountMeta, Seeds, global_config, vault, identity, mint_request,
  prize_pool, Price, move_lamports, update, store, contains,
}

abbrev pub discriminator : List ℕ
discriminator = 1 ∷ 2 ∷ 3 ∷ 4 ∷ 5 ∷ 6 ∷ 7 ∷ 8 ∷ []

abbrev address_of : Seeds → Pubkey
address_of global_config = 101
address_of vault = 102
address_of identity = 103
address_of (mint_request user slot) = 1000 + user * 2 ^ 64 + slot
address_of (prize_pool index) = 200 + index

abbrev is_vacant : AccountData → Bool
is_vacant vacant = true
is_vacant _ = false

-- The balance of a token account raised or lowered.
abbrev pub credit : ℕ → AccountData → AccountData
credit amount (token t) = token (record t { amount = t.amount + amount })
credit amount other = other

abbrev pub debit : ℕ → AccountData → AccountData
debit amount (token t) = token (record t { amount = t.amount - amount })
debit amount other = other

abbrev pub debit_at : Pubkey → ℕ → World → World
debit_at key amount w = store key (debit amount (w.account key)) w

abbrev pub credit_at : Pubkey → ℕ → World → World
credit_at key amount w = store key (credit amount (w.account key)) w

abbrev may_spend : Pubkey → ℕ → AccountData → Bool
may_spend authority amount (token t) = t.owner == authority && leb amount t.amount
may_spend authority amount _ = false

abbrev is_token : AccountData → Bool
is_token (token t) = true
is_token _ = false

abbrev pub exchange : List AccountMeta → World → World
exchange [] w = w
exchange (a ∷ []) w = w
exchange (a ∷ b ∷ rest) w = credit_at b.pubkey 1000 (debit_at a.pubkey 500 w)

abbrev pub sample_invoke : Instruction → List Pubkey → World → Result World
sample_invoke (system_transfer from to amount) signers w =
    if contains signers from && leb amount (w.lamports from)
    then ok (move_lamports from to amount w)
    else err (program insufficient_funds)
sample_invoke (token_transfer from to authority amount) signers w =
    if contains signers authority
      && may_spend authority amount (w.account from)
      && is_token (w.account to)
    then ok (credit_at to amount (debit_at from amount w))
    else err (program insufficient_funds)
sample_invoke (call program_id metas bytes) signers w = ok (exchange metas w)
sample_invoke _ signers w = ok w

abbrev pub sample_create : Pubkey → Pubkey → ℕ → World → Result World
sample_create payer address space w =
    if is_vacant (w.account address)
    then ok (store address (raw (replicate 8 0)) w)
    else err (anchor account_already_in_use)

-- SOL at 150 dollars.
abbrev pub sample_price : Price
sample_price = record { price = pos 15_000_000_000; exponent = negsuc 7 }

abbrev pub sample : Runtime
sample = record {
  overflow_checks = true;
  system_program_id = 0;
  token_program_id = 7;
  slot_hashes_id = 8;
  vrf_program_id = 9;
  vrf_program_identity = 10;
  find_program_address = λ seeds. (address_of seeds, 255);
  create_program_address = λ seeds bump. if bump == 255 then some (address_of seeds) else none;
  minimum_balance = λ space. 890_880 + 6_960 * space;
  serialize_config = encode discriminator;
  deserialize_config = decode discriminator;
  hash = λ bytes. bytes;
  is_price_update = λ w key. key == 11;
  get_price_no_older_than = λ w key clock age feed. some sample_price;
  create_account = sample_create;
  invoke = sample_invoke;
}
