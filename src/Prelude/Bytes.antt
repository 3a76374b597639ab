-- ===== src/Prelude/Bytes.antt =====
-- Bytes: exclusive or over the 256 values, and little-endian words.
use native.Mathlib.Nat.{pow-suc}
use card_machine.Prelude.{
  ℕ, zero, suc, ◌+◌, ◌*◌, ◌/◌, ◌%◌, ◌^◌, ◌<◌, bit_xor, ◌≡◌, refl, Bool, true, false, ◌&&◌, List, [],
  ◌∷◌, arith, ap, ltb, ◌==◌, length, All,
}

abbrev pub Byte : ℕ → Type 0
Byte b = b < 256

-- `u8::wrapping_add` and `u8::wrapping_mul`.
abbrev pub wrapping_add : ℕ → ℕ → ℕ
wrapping_add a b = (a + b) % 256

abbrev pub wrapping_mul : ℕ → ℕ → ℕ
wrapping_mul a b = a * b % 256

-- `from_le_bytes`: the first byte is the least significant.
unfoldable pub from_le_bytes : List ℕ → ℕ
from_le_bytes [] = 0
from_le_bytes (b ∷ bs) = b + 256 * from_le_bytes bs

pub from_le_bytes-lt : (bs : List ℕ) → All Byte bs → from_le_bytes bs < 256 ^ length bs
unfolding from_le_bytes
from_le_bytes-lt [] h = omega arith
from_le_bytes-lt (b ∷ bs) h = omega (arith, pow-suc 256 (length bs), from_le_bytes-lt bs h.1)

-- `to_le_bytes` of a word of `k` bytes.
unfoldable pub to_le_bytes : ℕ → ℕ → List ℕ
to_le_bytes zero n = []
to_le_bytes (suc k) n = n % 256 ∷ to_le_bytes k (n / 256)

pub to_le_bytes-Byte : (k n : ℕ) → All Byte (to_le_bytes k n)
unfolding to_le_bytes
to_le_bytes-Byte zero n = tt
to_le_bytes-Byte (suc k) n = (omega arith, to_le_bytes-Byte k (n / 256))

pub length-to_le_bytes : (k n : ℕ) → length (to_le_bytes k n) ≡ k
unfolding to_le_bytes
length-to_le_bytes zero n = refl
length-to_le_bytes (suc k) n = ap suc (length-to_le_bytes k (n / 256))

pub from_le_bytes-to_le_bytes : (k n : ℕ) → n < 256 ^ k → from_le_bytes (to_le_bytes k n) ≡ n
unfolding from_le_bytes to_le_bytes
from_le_bytes-to_le_bytes zero n h = omega arith
from_le_bytes-to_le_bytes (suc k) n h =
    let p = pow-suc 256 k in
    let small : n / 256 < 256 ^ k = omega (arith, p) in
    omega (arith, from_le_bytes-to_le_bytes k (n / 256) small)

-- Equality of byte arrays.
abbrev pub same_bytes : List ℕ → List ℕ → Bool
same_bytes [] [] = true
same_bytes [] (y ∷ ys) = false
same_bytes (x ∷ xs) [] = false
same_bytes (x ∷ xs) (y ∷ ys) = x == y && same_bytes xs ys

-- Whether a test holds of every number below a bound.
every : (ℕ → Bool) → ℕ → Bool
every test zero = true
every test (suc bound) = every test bound && test bound

every_at : (test : ℕ → Bool) (bound b : ℕ) → b < bound → every test bound ≡ true → test b ≡ true
unfolding every
every_at test zero b below e = absurd (omega arith)
every_at test (suc bound) b below e = ground (arith, every_at test bound b)

abbrev xor_row : ℕ → ℕ → Bool
xor_row a b = (bit_xor (bit_xor a b) b == a) && ltb (bit_xor a b) 256

xor_table : every (λ a. every (λ b. xor_row a b) 256) 256 ≡ true
unfolding every
xor_table = refl

xor_row_lem : (a b : ℕ) → Byte a → Byte b → xor_row a b ≡ true
xor_row_lem a b ha hb =
    every_at (λ b. xor_row a b) 256 b hb
      (every_at (λ a. every (λ b. xor_row a b) 256) 256 a ha xor_table)

pub bit_xor-Byte : (a b : ℕ) → Byte a → Byte b → Byte (bit_xor a b)
bit_xor-Byte a b ha hb = ground (arith, xor_row_lem a b ha hb)

pub bit_xor_cancel : (a b : ℕ) → Byte a → Byte b → bit_xor (bit_xor a b) b ≡ a
bit_xor_cancel a b ha hb = ground (arith, xor_row_lem a b ha hb)
