-- ===== src/Layout/RoundTrip.antt =====
-- Writing and reading the configuration account (state/global_config.rs).
use mathlib.Core.List.{reverse, reverse_aux, reverse-reverse, append-nil}
use card_machine.Prelude.{
  ℕ, ◌+◌, ◌^◌, ◌≤◌, ◌<◌, ◌≡◌, refl, ap, ap₂, sym, ◌∙◌, Bool, true, false, some, List, [], ◌∷◌, ◌++◌,
  arith, length, length-append, take, drop, leb, take-length, drop-length,
}
use card_machine.Prelude.Int.{ℤ, pos, negsuc, pos_part, neg_part}
use card_machine.Prelude.Bytes.{
  from_le_bytes, to_le_bytes, same_bytes, length-to_le_bytes, from_le_bytes-to_le_bytes,
}
use card_machine.Constants.{Pubkey, max_prize_pools}
use card_machine.State.{IpFlowState}
use card_machine.Layout.{
  init_space, encode, decode, split_at, read_byte, read_word, read_key, read_bool, expect, to_bits,
  of_bits, key_bytes, bool_byte,
}

leb_append : (xs ys : List ℕ) → leb (length xs) (length (xs ++ ys)) ≡ true
leb_append xs ys = let e = length-append xs ys in ground arith

split_at-append : (k : ℕ) (xs ys : List ℕ) → length xs ≡ k → split_at k (xs ++ ys) ≡ some (xs, ys)
unfolding split_at
split_at-append k xs ys e =
    rw (← e)
      (rw (leb_append xs ys) (ap₂ (λ s t. some (s, t)) (take-length xs ys) (drop-length xs ys)))

pub read_word-append :
    (k n : ℕ) (rest : List ℕ) → n < 256 ^ k → read_word k (to_le_bytes k n ++ rest) ≡ some (n, rest)
unfolding read_word
read_word-append k n rest h =
    rw (split_at-append k (to_le_bytes k n) rest (length-to_le_bytes k n))
      (ap (λ m. some (m, rest)) (from_le_bytes-to_le_bytes k n h))

length-reverse_aux : (xs ys : List ℕ) → length (reverse_aux xs ys) ≡ length xs + length ys
length-reverse_aux [] ys = omega arith
length-reverse_aux (x ∷ xs) ys = omega (arith, length-reverse_aux xs (x ∷ ys))

length-key_bytes : (key : Pubkey) → length (key_bytes key) ≡ 32
length-key_bytes key =
    omega (arith, length-reverse_aux (to_le_bytes 32 key) [], length-to_le_bytes 32 key)

read_key-append :
    (key : Pubkey) (rest : List ℕ)
    → key < 256 ^ 32
    → read_key (key_bytes key ++ rest) ≡ some (key, rest)
unfolding read_key
read_key-append key rest h = rw (split_at-append 32 (key_bytes key) rest (length-key_bytes key)) (
    rw (reverse-reverse (to_le_bytes 32 key))
      (ap (λ m. some (m, rest)) (from_le_bytes-to_le_bytes 32 key h)))

same_bytes_refl : (xs : List ℕ) → same_bytes xs xs ≡ true
same_bytes_refl [] = refl
same_bytes_refl (x ∷ xs) = ground (arith, same_bytes_refl xs)

expect-append :
    (discriminator rest : List ℕ)
    → length discriminator ≡ 8
    → expect discriminator (discriminator ++ rest) ≡ some rest
unfolding expect
expect-append discriminator rest e =
    rw (split_at-append 8 discriminator rest e) (rw (same_bytes_refl discriminator) refl)

read_bool-byte : (b : Bool) (rest : List ℕ) → read_bool (bool_byte b ∷ rest) ≡ some (b, rest)
unfolding read_bool
read_bool-byte true rest = refl
read_bool-byte false rest = refl

-- An `i64`.
abbrev pub IsI64 : ℤ → Type 0
IsI64 a = (pos_part a < 2 ^ 63) × (neg_part a ≤ 2 ^ 63)

of_bits-to_bits : (a : ℤ) → IsI64 a → of_bits (to_bits a) ≡ a
of_bits-to_bits (pos n) h = ground (arith, h.0)
of_bits-to_bits (negsuc n) h = ground (arith, h.1)

to_bits-lt : (a : ℤ) → to_bits a < 256 ^ 8
to_bits-lt a = omega arith

-- The keys, the words and the time-out are in the ranges of their machine types, and the array has
-- its length. Those of the single bytes are in Admin/Config/Ranges.
pub record Fits (c : IpFlowState) : Type 0 where
  pub admin : c.admin < 256 ^ 32
  pub total_collected : c.total_collected < 256 ^ 8
  pub platform_fee_bps : c.platform_fee_bps < 256 ^ 2
  pub indices : length c.active_pool_indices ≡ max_prize_pools
  pub oracle_queue : c.oracle_queue < 256 ^ 32
  pub timeout : IsI64 c.request_timeout_seconds

-- What is written from each field on.
abbrev from_timeout : IpFlowState → List ℕ
from_timeout c = to_le_bytes 8 (to_bits c.request_timeout_seconds)

abbrev from_queue : IpFlowState → List ℕ
from_queue c = key_bytes c.oracle_queue ++ from_timeout c

abbrev from_indices : IpFlowState → List ℕ
from_indices c = c.active_pool_indices ++ from_queue c

abbrev from_paused : IpFlowState → List ℕ
from_paused c =
    bool_byte c.is_paused ∷ c.pool_count ∷ c.prize_pool_count ∷ c.active_pool_count ∷ from_indices c

abbrev from_fee : IpFlowState → List ℕ
from_fee c = to_le_bytes 2 c.platform_fee_bps ++ from_paused c

abbrev from_total : IpFlowState → List ℕ
from_total c = to_le_bytes 8 c.total_collected ++ from_fee c

abbrev from_admin : IpFlowState → List ℕ
from_admin c = key_bytes c.admin ++ c.vault_bump ∷ from_total c

last_word :
    (k n : ℕ) → n < 256 ^ k → (rest : List ℕ) × (read_word k (to_le_bytes k n) ≡ some (n, rest))
last_word k n h =
    ([], ap (read_word k) (sym (append-nil (to_le_bytes k n))) ∙ read_word-append k n [] h)

-- A configuration whose fields are in the ranges of their types is read back from its bytes as it
-- was written, after a discriminator of eight bytes.
pub decode-encode :
    (discriminator : List ℕ) (c : IpFlowState)
    → length discriminator ≡ 8
    → Fits c
    → decode discriminator (encode discriminator c) ≡ some c
unfolding decode encode read_byte
decode-encode discriminator c eight f =
    let (rest, read) =
      last_word 8 (to_bits c.request_timeout_seconds) (to_bits-lt c.request_timeout_seconds) in
    rw (expect-append discriminator (from_admin c) eight) (
      rw (read_key-append c.admin (c.vault_bump ∷ from_total c) f.admin) (
        rw (read_word-append 8 c.total_collected (from_fee c) f.total_collected) (
          rw (read_word-append 2 c.platform_fee_bps (from_paused c) f.platform_fee_bps) (
            rw
              (read_bool-byte c.is_paused
                (c.pool_count ∷ c.prize_pool_count ∷ c.active_pool_count ∷ from_indices c))
              (rw (split_at-append max_prize_pools c.active_pool_indices (from_queue c) f.indices) (
                rw (read_key-append c.oracle_queue (from_timeout c) f.oracle_queue)
                  (rw read (rw (of_bits-to_bits c.request_timeout_seconds f.timeout) refl))))))))

-- The account has as many bytes as its space allows for.
pub length-encode :
    (discriminator : List ℕ) (c : IpFlowState)
    → length discriminator ≡ 8
    → Fits c
    → length (encode discriminator c) ≡ 8 + init_space
unfolding encode
length-encode discriminator c eight f = omega (
  arith,
  length-append discriminator (from_admin c),
  length-append (key_bytes c.admin) (c.vault_bump ∷ from_total c),
  length-key_bytes c.admin,
  length-append (to_le_bytes 8 c.total_collected) (from_fee c),
  length-to_le_bytes 8 c.total_collected,
  length-append (to_le_bytes 2 c.platform_fee_bps) (from_paused c),
  length-to_le_bytes 2 c.platform_fee_bps,
  length-append c.active_pool_indices (from_queue c),
  f.indices,
  length-append (key_bytes c.oracle_queue) (from_timeout c),
  length-key_bytes c.oracle_queue,
  length-to_le_bytes 8 (to_bits c.request_timeout_seconds),
)

-- Bytes 8 to 39 hold the administrator.
pub admin-encode :
    (discriminator : List ℕ) (c : IpFlowState)
    → length discriminator ≡ 8
    → Fits c
    → from_le_bytes (reverse (take 32 (drop 8 (encode discriminator c)))) ≡ c.admin
unfolding encode
admin-encode discriminator c eight f =
    let rest = c.vault_bump ∷ from_total c in
    let dropped : drop 8 (discriminator ++ from_admin c) ≡ from_admin c =
      ap (λ k. drop k (discriminator ++ from_admin c)) (sym eight)
      ∙ drop-length discriminator (from_admin c) in
    let taken : take 32 (key_bytes c.admin ++ rest) ≡ key_bytes c.admin =
      ap (λ k. take k (key_bytes c.admin ++ rest)) (sym (length-key_bytes c.admin))
      ∙ take-length (key_bytes c.admin) rest in
    rw dropped (
      rw taken (
        rw (reverse-reverse (to_le_bytes 32 c.admin))
          (from_le_bytes-to_le_bytes 32 c.admin f.admin)))
