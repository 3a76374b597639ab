-- ===== src/State.antt =====
-- state/: the accounts that the program keeps, and events.rs.
use card_machine.Prelude.{ℕ, Bool, true, false, List, Option}
use card_machine.Prelude.Int.{ℤ}
use card_machine.Constants.{Pubkey}

-- ==================== mint_request.rs ====================

pub data RequestStatus : Type 0 where
  pending revealed claimed failed : RequestStatus

pub data PayoutMode : Type 0 where
  sol token : PayoutMode

pub data PaymentMode : Type 0 where
  sol usdt : PaymentMode

pub data SwapRouter : Type 0 where
  jupiter raydium : SwapRouter

abbrev pub is_pending : RequestStatus → Bool
is_pending pending = true
is_pending _ = false

abbrev pub is_revealed : RequestStatus → Bool
is_revealed revealed = true
is_revealed _ = false

pub record MintRequest : Type 0 where
  pub user : Pubkey
  pub randomness_account : Pubkey
  pub amount_of_cards : ℕ  -- u32
  pub status : RequestStatus
  pub payment_mode : PaymentMode
  pub total_won_usd : ℕ  -- u64
  pub paid_amount : ℕ  -- u64
  pub created_at : ℤ  -- i64
  pub revealed_at : ℤ  -- i64
  pub selected_pool_index : ℕ  -- u8
  pub commit_slot : ℕ  -- u64
  pub reveal_slot : ℕ  -- u64
  pub vrf_request_slot : ℕ  -- u64

-- ==================== global_config.rs ====================

pub record IpFlowState : Type 0 where
  pub admin : Pubkey
  pub vault_bump : ℕ  -- u8
  pub total_collected : ℕ  -- u64
  pub platform_fee_bps : ℕ  -- u16
  pub is_paused : Bool
  pub pool_count : ℕ  -- u8
  pub prize_pool_count : ℕ  -- u8
  pub active_pool_count : ℕ  -- u8
  pub active_pool_indices : List ℕ  -- [u8; 50]
  pub oracle_queue : Pubkey
  pub request_timeout_seconds : ℤ  -- i64

-- ==================== prize_pool.rs ====================

pub data PoolType : Type 0 where
  raydium_cpmm raydium_amm jupiter orca : PoolType

pub record PrizePoolAccount : Type 0 where
  pub index : ℕ  -- u8
  pub swap_pool : Pubkey
  pub pool_type : PoolType
  pub name : List ℕ  -- the bytes of the `String`
  pub bump : ℕ  -- u8

-- ==================== events.rs, consume_randomness.rs ====================

pub record ClaimCompleted : Type 0 where
  pub user : Pubkey
  pub total_won_usd : ℕ
  pub payout_mode : PayoutMode
  pub payment_mode : PaymentMode
  pub swap_router : Option SwapRouter
  pub paid_amount : ℕ
  pub amount_of_cards : ℕ
  pub timestamp : ℤ

pub record LotteryRevealed : Type 0 where
  pub user : Pubkey
  pub mint_request : Pubkey
  pub total_won_usd : ℕ
  pub selected_pool_index : ℕ
  pub revealed_at : ℤ

pub record PrizePoolAdded : Type 0 where
  pub admin : Pubkey
  pub index : ℕ
  pub swap_pool : Pubkey
  pub pool_type : PoolType
  pub name : List ℕ

pub record PrizePoolRemoved : Type 0 where
  pub admin : Pubkey
  pub index : ℕ
  pub swap_pool : Pubkey

pub record PrizePoolUpdated : Type 0 where
  pub admin : Pubkey
  pub index : ℕ
  pub old_swap_pool : Pubkey
  pub new_swap_pool : Pubkey

pub data Event : Type 0 where
  claim_completed : ClaimCompleted → Event
  lottery_revealed : LotteryRevealed → Event
  prize_pool_added : PrizePoolAdded → Event
  prize_pool_removed : PrizePoolRemoved → Event
  prize_pool_updated : PrizePoolUpdated → Event
