-- ===== src/Vrf/Derive.antt =====
-- `derive_random_result` of utils/vrf_helper.rs: the derived bytes, their seed and their index.
use card_machine.Prelude.{
  ℕ, zero, suc, ◌+◌, ◌/◌, ◌%◌, ◌≤◌, ◌<◌, bit_xor, ◌≡◌, refl, ap, ap₂, ◌∙◌, List, [], ◌∷◌, arith,
  get_or, length, All,
}
use card_machine.Prelude.Bytes.{
  Byte, wrapping_add, wrapping_mul, to_le_bytes, to_le_bytes-Byte, bit_xor-Byte, bit_xor_cancel,
}
use card_machine.Vrf.{mix_index, chain, mix_previous, derive_random_result}

get_or-Byte : (bs : List ℕ) (i : ℕ) → All Byte bs → Byte (get_or bs i 0)
get_or-Byte [] i h = omega arith
get_or-Byte (b ∷ bs) zero h = h.0
get_or-Byte (b ∷ bs) (suc i) h = get_or-Byte bs i h.1

abbrev key : ℕ → ℕ → ℕ
key index i = get_or (to_le_bytes 4 index) (i % 4) 0

key-Byte : (index i : ℕ) → Byte (key index i)
key-Byte index i = get_or-Byte (to_le_bytes 4 index) (i % 4) (to_le_bytes-Byte 4 index)

bit_xor_inj : (x y k : ℕ) → Byte x → Byte y → Byte k → bit_xor x k ≡ bit_xor y k → x ≡ y
bit_xor_inj x y k hx hy hk e = cc (bit_xor_cancel x k hx hk, bit_xor_cancel y k hy hk)

wrapping_add_inj : (x y c : ℕ) → Byte x → Byte y → wrapping_add x c ≡ wrapping_add y c → x ≡ y
wrapping_add_inj x y c hx hy e = omega arith

module _ (index : ℕ) where
  mix_index-Byte : (i : ℕ) (xs : List ℕ) → All Byte (mix_index index i xs)
  unfolding mix_index
  mix_index-Byte i [] = tt
  mix_index-Byte i (x ∷ xs) = (omega arith, mix_index-Byte (i + 1) xs)

  length-mix_index : (i : ℕ) (xs : List ℕ) → length (mix_index index i xs) ≡ length xs
  unfolding mix_index
  length-mix_index i [] = refl
  length-mix_index i (x ∷ xs) = ap suc (length-mix_index (i + 1) xs)

  mix_index_inj :
      (i : ℕ) (xs ys : List ℕ)
      → All Byte xs
      → All Byte ys
      → mix_index index i xs ≡ mix_index index i ys
      → xs ≡ ys
  unfolding mix_index
  mix_index_inj i [] [] hx hy e = refl
  mix_index_inj i [] (y ∷ ys) hx hy e = cc
  mix_index_inj i (x ∷ xs) [] hx hy e = cc
  mix_index_inj i (x ∷ xs) (y ∷ ys) hx hy e =
      let k = key index i in
      let c = wrapping_mul (index % 256) ((i + 1) % 256) in
      let heads : wrapping_add (bit_xor x k) c ≡ wrapping_add (bit_xor y k) c = cc in
      let bx = bit_xor-Byte x k hx.0 (key-Byte index i) in
      let by = bit_xor-Byte y k hy.0 (key-Byte index i) in
      ap₂ (λ b bs. b ∷ bs)
        (bit_xor_inj x y k hx.0 hy.0 (key-Byte index i)
          (wrapping_add_inj (bit_xor x k) (bit_xor y k) c bx by heads))
        (mix_index_inj (i + 1) xs ys hx.1 hy.1 (cc))

chain-Byte : (p : ℕ) (xs : List ℕ) → All Byte xs → All Byte (chain p xs)
unfolding chain
chain-Byte p [] h = tt
chain-Byte p (x ∷ xs) h = (
  bit_xor-Byte x (wrapping_mul p 31) h.0 (omega arith),
  chain-Byte (bit_xor x (wrapping_mul p 31)) xs h.1,
)

length-chain : (p : ℕ) (xs : List ℕ) → length (chain p xs) ≡ length xs
unfolding chain
length-chain p [] = refl
length-chain p (x ∷ xs) = ap suc (length-chain (bit_xor x (wrapping_mul p 31)) xs)

chain_inj : (p : ℕ) (xs ys : List ℕ) → All Byte xs → All Byte ys → chain p xs ≡ chain p ys → xs ≡ ys
unfolding chain
chain_inj p [] [] hx hy e = refl
chain_inj p [] (y ∷ ys) hx hy e = cc
chain_inj p (x ∷ xs) [] hx hy e = cc
chain_inj p (x ∷ xs) (y ∷ ys) hx hy e =
    let k = wrapping_mul p 31 in
    let heads : bit_xor x k ≡ bit_xor y k = cc in
    let same : x ≡ y = bit_xor_inj x y k hx.0 hy.0 (omega arith) heads in
    let tails : chain (bit_xor x k) xs ≡ chain (bit_xor y k) ys = cc in
    ap₂ (λ b bs. b ∷ bs) same (chain_inj (bit_xor x k) xs ys hx.1 hy.1 (cc))

mix_previous_inj :
    (xs ys : List ℕ) → All Byte xs → All Byte ys → mix_previous xs ≡ mix_previous ys → xs ≡ ys
unfolding mix_previous
mix_previous_inj [] [] hx hy e = refl
mix_previous_inj [] (y ∷ ys) hx hy e = cc
mix_previous_inj (x ∷ xs) [] hx hy e = cc
mix_previous_inj (x ∷ xs) (y ∷ ys) hx hy e =
    let same : x ≡ y = cc in
    let tails : chain x xs ≡ chain y ys = cc in
    ap₂ (λ b bs. b ∷ bs) same (chain_inj x xs ys hx.1 hy.1 (cc))

mix_previous-Byte : (xs : List ℕ) → All Byte xs → All Byte (mix_previous xs)
unfolding mix_previous
mix_previous-Byte [] h = tt
mix_previous-Byte (x ∷ xs) h = (h.0, chain-Byte x xs h.1)

length-mix_previous : (xs : List ℕ) → length (mix_previous xs) ≡ length xs
unfolding mix_previous
length-mix_previous [] = refl
length-mix_previous (x ∷ xs) = ap suc (length-chain x xs)

derive-Byte : (seed : List ℕ) (index : ℕ) → All Byte (derive_random_result seed index)
unfolding derive_random_result
derive-Byte seed index = mix_previous-Byte _ (mix_index-Byte index 0 seed)

length-derive : (seed : List ℕ) (index : ℕ) → length (derive_random_result seed index) ≡ length seed
unfolding derive_random_result
length-derive seed index =
    length-mix_previous (mix_index index 0 seed) ∙ length-mix_index index 0 seed

-- For each card, two seeds of bytes that derive the same result are the same.
pub derive_inj_seed :
    (index : ℕ) (seed other : List ℕ)
    → All Byte seed
    → All Byte other
    → derive_random_result seed index ≡ derive_random_result other index
    → seed ≡ other
unfolding derive_random_result
derive_inj_seed index seed other hs ho e = mix_index_inj index 0 seed other hs ho (
    mix_previous_inj (mix_index index 0 seed) (mix_index index 0 other)
      (mix_index-Byte index 0 seed) (mix_index-Byte index 0 other) e)

-- The third byte is moved by 3 * index, and 3 is a unit modulo 256.
third_byte_inj :
    (x i j : ℕ)
    → i < 256
    → j < 256
    → wrapping_add x (wrapping_mul (i % 256) 3) ≡ wrapping_add x (wrapping_mul (j % 256) 3)
    → i ≡ j
third_byte_inj x i j hi hj e = omega arith

-- Among the first 256 cards no two derive the same bytes, from any seed of three bytes or more.
pub derive_inj_index :
    (i j : ℕ) (seed : List ℕ)
    → All Byte seed
    → 3 ≤ length seed
    → i < 256
    → j < 256
    → derive_random_result seed i ≡ derive_random_result seed j
    → i ≡ j
unfolding derive_random_result
derive_inj_index i j [] hs hl hi hj e = absurd (omega arith)
derive_inj_index i j (a ∷ []) hs hl hi hj e = absurd (omega arith)
derive_inj_index i j (a ∷ b ∷ []) hs hl hi hj e = absurd (omega arith)
derive_inj_index i j (a ∷ b ∷ c ∷ seed) hs hl hi hj e =
    let mixed =
      mix_previous_inj (mix_index i 0 (a ∷ b ∷ c ∷ seed)) (mix_index j 0 (a ∷ b ∷ c ∷ seed))
        (mix_index-Byte i 0 (a ∷ b ∷ c ∷ seed)) (mix_index-Byte j 0 (a ∷ b ∷ c ∷ seed)) e in
    let zi : i / 256 / 256 % 256 ≡ 0 = omega arith in
    let zj : j / 256 / 256 % 256 ≡ 0 = omega arith in
    let thirds : wrapping_add (bit_xor c (i / 256 / 256 % 256)) (wrapping_mul (i % 256) 3)
        ≡ wrapping_add (bit_xor c (j / 256 / 256 % 256)) (wrapping_mul (j % 256) 3) =
      cc in
    third_byte_inj (bit_xor c 0) i j hi hj (rw (zi, zj) at thirds)
