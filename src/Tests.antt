-- ===== src/Tests.antt =====
-- Worlds and accounts that the tests run on.
pub mod User
pub mod Draws
pub mod Swaps
pub mod Admin
pub mod Available
pub mod Exchange
pub mod Calls
pub mod Selection
pub mod Commute
pub mod Usdt
pub mod Refundable
pub mod Legacy
pub mod Payday
pub mod Traces
use card_machine.Prelude.{
  ℕ, ◌+◌, ◌*◌, ◌^◌, ◌≡◌, refl, Bool, true, false, Option, none, some, List, [], ◌∷◌, ◌++◌, ◌==◌,
  if◌then◌else◌, replicate,
}
use card_machine.Prelude.Int.{pos}
use card_machine.Constants.{Pubkey}
use card_machine.Errors.{Result, ok, err}
use card_machine.State.{MintRequest, IpFlowState, PaymentMode, RequestStatus, pending, revealed}
use card_machine.Runtime.{World, Transaction, AccountData}

abbrev pub is_ok {ℓ} : {A : Type ℓ} → Result A → Bool
is_ok (ok a) = true
is_ok (err e) = false

-- The world after an instruction, or before one that fails.
abbrev pub world_after : Result World → World → World
world_after (ok w') w = w'
world_after (err e) w = w

pub succeeded : (r : Result World) (w : World) → is_ok r ≡ true → r ≡ ok (world_after r w)
succeeded (ok w') w h = refl
succeeded (err e) w h = cc

abbrev pub user : ℕ
user = 5

abbrev pub slot : ℕ
slot = 77

abbrev pub request_key : ℕ
request_key = 1000 + 5 * 2 ^ 64 + 77

abbrev pub settings : IpFlowState
settings = record {
  admin = 1;
  vault_bump = 255;
  total_collected = 0;
  platform_fee_bps = 0;
  is_paused = false;
  pool_count = 0;
  prize_pool_count = 4;
  active_pool_count = 3;
  active_pool_indices = 0 ∷ 2 ∷ 3 ∷ replicate 47 255;
  oracle_queue = 66;
  request_timeout_seconds = pos 45;
}

-- A request for two cards, paid in SOL.
abbrev pub request_with : RequestStatus → ℕ → MintRequest
request_with status total_won_usd = record {
  user = user;
  randomness_account = 0;
  amount_of_cards = 2;
  status = status;
  payment_mode = PaymentMode.sol;
  total_won_usd = total_won_usd;
  paid_amount = 133_333_333;
  created_at = pos 900;
  revealed_at = pos 950;
  selected_pool_index = 0;
  commit_slot = slot;
  reveal_slot = 0;
  vrf_request_slot = slot;
}

abbrev world_with : AccountData → World
world_with request = record {
  lamports = λ key. 10 ^ 12;
  account = λ key.
      if key == 101
      then AccountData.config settings
      else if key == request_key
      then request
      else AccountData.vacant;
  events = [];
}

abbrev pub empty_world : World
empty_world = world_with AccountData.vacant

abbrev pub pending_world : World
pending_world = world_with (AccountData.mint_request (request_with pending 0))

abbrev pub revealed_world : World
revealed_world = world_with (AccountData.mint_request (request_with revealed 20_000_000))

abbrev pub signed_by : Pubkey → Transaction
signed_by key = record {
  signers = key ∷ [];
  is_writable = λ key. true;
  clock = record { unix_timestamp = pos 1000; slot = 80 };
}
