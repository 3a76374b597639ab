-- ===== src/Layout.antt =====
-- The size of the configuration account (state/global_config.rs), and the layout that Anchor and
-- Borsh document for it, by which the sample runtime reads and writes it: a discriminator and then
-- the fields in order, integers little-endian.
pub mod RoundTrip
use card_machine.Prelude.{
  ℕ, ◌+◌, ◌-◌, ◌%◌, Bool, true, false, Option, none, some, List, [], ◌∷◌, ◌++◌, leb, ltb, ◌==◌,
  if◌then◌else◌, length, take, drop,
}
use mathlib.Core.List.{reverse}
use card_machine.Prelude.Int.{ℤ, pos, negsuc, pos_part, neg_part}
use card_machine.Prelude.Bytes.{from_le_bytes, to_le_bytes, same_bytes}
use card_machine.Words.{u64_mod}
use card_machine.Constants.{Pubkey, max_prize_pools}
use card_machine.State.{IpFlowState}

-- 32 (admin) + 1 (vault_bump) + 8 (total_collected) + 2 (platform_fee_bps) + 1 (is_paused)
-- + 1 (pool_count) + 1 (prize_pool_count) + 1 (active_pool_count) + 50 (active_pool_indices)
-- + 32 (oracle_queue) + 8 (request_timeout_seconds)
abbrev pub init_space : ℕ
init_space = 32 + 1 + 8 + 2 + 1 + 1 + 1 + 1 + max_prize_pools + 32 + 8

-- The two's complement bits of an `i64`.
abbrev to_bits : ℤ → ℕ
to_bits a = (pos_part a + u64_mod - neg_part a) % u64_mod

abbrev of_bits : ℕ → ℤ
of_bits n = if ltb n 0x8000000000000000 then pos n else negsuc (u64_mod - n - 1)

abbrev bool_byte : Bool → ℕ
bool_byte true = 1
bool_byte false = 0

-- A public key is stored with its most significant byte first.
abbrev key_bytes : Pubkey → List ℕ
key_bytes key = reverse (to_le_bytes 32 key)

unfoldable pub encode : List ℕ → IpFlowState → List ℕ
encode discriminator c =
    discriminator
    ++ (key_bytes c.admin
        ++ (c.vault_bump
            ∷ (to_le_bytes 8 c.total_collected
                ++ (to_le_bytes 2 c.platform_fee_bps
                    ++ (bool_byte c.is_paused
                        ∷ c.pool_count
                        ∷ c.prize_pool_count
                        ∷ c.active_pool_count
                        ∷ (c.active_pool_indices
                            ++ (key_bytes c.oracle_queue
                                ++ to_le_bytes 8 (to_bits c.request_timeout_seconds))))))))

infixl 5 ◌>>=◌
abbrev pub ◌>>=◌ : {A B : Type 0} → Option A → (A → Option B) → Option B
none >>= f = none
some a >>= f = f a

-- The first `k` bytes and the rest.
unfoldable pub split_at : ℕ → List ℕ → Option (List ℕ × List ℕ)
split_at k bytes = if leb k (length bytes) then some (take k bytes, drop k bytes) else none

unfoldable pub read_byte : List ℕ → Option (ℕ × List ℕ)
read_byte [] = none
read_byte (b ∷ bytes) = some (b, bytes)

unfoldable pub read_word : ℕ → List ℕ → Option (ℕ × List ℕ)
read_word k bytes = do (word, rest) ← split_at k bytes; some (from_le_bytes word, rest)

unfoldable pub read_key : List ℕ → Option (Pubkey × List ℕ)
read_key bytes = do (key, rest) ← split_at 32 bytes; some (from_le_bytes (reverse key), rest)

-- Any other byte than 0 and 1 is refused.
unfoldable pub read_bool : List ℕ → Option (Bool × List ℕ)
read_bool [] = none
read_bool (b ∷ bytes) =
    if b == 0 then some (false, bytes) else if b == 1 then some (true, bytes) else none

unfoldable pub expect : List ℕ → List ℕ → Option (List ℕ)
expect discriminator bytes = do
  (start, rest) ← split_at 8 bytes
  if same_bytes start discriminator then some rest else none

-- `IPFlowState::try_deserialize`, which leaves trailing bytes unread.
unfoldable pub decode : List ℕ → List ℕ → Option IpFlowState
decode discriminator bytes = do
  b₀ ← expect discriminator bytes
  (admin, b₁) ← read_key b₀
  (vault_bump, b₂) ← read_byte b₁
  (total_collected, b₃) ← read_word 8 b₂
  (platform_fee_bps, b₄) ← read_word 2 b₃
  (is_paused, b₅) ← read_bool b₄
  (pool_count, b₆) ← read_byte b₅
  (prize_pool_count, b₇) ← read_byte b₆
  (active_pool_count, b₈) ← read_byte b₇
  (active_pool_indices, b₉) ← split_at max_prize_pools b₈
  (oracle_queue, b₁₀) ← read_key b₉
  (timeout, _) ← read_word 8 b₁₀
  some (record {
    admin = admin;
    vault_bump = vault_bump;
    total_collected = total_collected;
    platform_fee_bps = platform_fee_bps;
    is_paused = is_paused;
    pool_count = pool_count;
    prize_pool_count = prize_pool_count;
    active_pool_count = active_pool_count;
    active_pool_indices = active_pool_indices;
    oracle_queue = oracle_queue;
    request_timeout_seconds = of_bits timeout;
  })
