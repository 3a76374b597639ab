-- ===== src/Vrf/Pools.antt =====
-- `select_active_prize_pool` of utils/vrf_helper.rs: how often each active pool is selected.
use native.Mathlib.Nat.{mod-eq_of_lt, mul-add-mod_self_right, suc-mul, add-suc, add-zero, zero-mul}
use card_machine.Prelude.{
  ℕ, zero, suc, ◌+◌, ◌*◌, ◌%◌, ◌≤◌, ◌<◌, ◌≡◌, ap, ◌∙◌, sym, some, List, [], ◌∷◌, ◌++◌, arith,
  length, get_elem?, get_elem?_total, get_elem?-append, take, drop, take-length, take_all,
  drop-length,
}
use card_machine.Prelude.Bytes.{
  from_le_bytes, to_le_bytes, length-to_le_bytes, from_le_bytes-to_le_bytes,
}
use card_machine.Prelude.Sums.{sum_below, sum_below_zero, sum_below_next}
use card_machine.Errors.{Result, ok}
use card_machine.Words.{u64_mod}
use card_machine.Vrf.{second_word, select_active_prize_pool}

-- A quantity added up over a list of pools.
pub pool_sum : (ℕ → ℕ) → List ℕ → ℕ
pool_sum f [] = 0
pool_sum f (x ∷ pools) = f x + pool_sum f pools

pool_sum-take :
    (f : ℕ → ℕ) (pools : List ℕ) (r p : ℕ)
    → get_elem? pools r ≡ some p
    → pool_sum f (take (suc r) pools) ≡ pool_sum f (take r pools) + f p
unfolding pool_sum
pool_sum-take f [] r p h = absurd cc
pool_sum-take f (x ∷ pools) zero p h = let e : x ≡ p = ground arith in rw e (omega arith)
pool_sum-take f (x ∷ pools) (suc r) p h = omega (arith, pool_sum-take f pools r p h)

module _ (first rest : List ℕ) where
  -- Random bytes with `word` as their second word.
  abbrev pub bytes_with : ℕ → List ℕ
  bytes_with word = first ++ (to_le_bytes 8 word ++ rest)

  second_word_lem :
      (word : ℕ) → length first ≡ 8 → word < u64_mod → second_word (bytes_with word) ≡ word
  second_word_lem word eight small =
      ap (λ k. from_le_bytes (take 8 (drop k (bytes_with word)))) (sym eight)
      ∙ ap (λ bs. from_le_bytes (take 8 bs)) (drop-length first (to_le_bytes 8 word ++ rest))
      ∙ ap (λ k. from_le_bytes (take k (to_le_bytes 8 word ++ rest)))
          (sym (length-to_le_bytes 8 word))
      ∙ ap from_le_bytes (take-length (to_le_bytes 8 word) rest)
      ∙ from_le_bytes-to_le_bytes 8 word small

module _ (f : Result ℕ → ℕ) (first rest pools padding : List ℕ) (eight : length first ≡ 8) where
  -- What is selected by the bytes with a second word.
  abbrev pub selected : ℕ → Result ℕ
  selected word =
      select_active_prize_pool (bytes_with first rest word) (length pools) (pools ++ padding)

  selected_lem :
      (q r p : ℕ)
      → q * length pools + r < u64_mod
      → r < length pools
      → get_elem? pools r ≡ some p
      → selected (q * length pools + r) ≡ ok p
  unfolding select_active_prize_pool
  selected_lem q r p small under found =
      let word = second_word_lem first rest (q * length pools + r) eight small in
      let place : (q * length pools + r) % length pools ≡ r =
        mul-add-mod_self_right q (length pools) r ∙ mod-eq_of_lt under in
      let entry = get_elem?-append pools padding r p found in ground (arith, word, place, entry)

  -- A stretch of words that starts at a multiple of the number of pools.
  stretch :
      (q r : ℕ)
      → r ≤ length pools
      → q * length pools + r ≤ u64_mod
      → sum_below (q * length pools + r) (λ word. f (selected word))
        ≡ sum_below (q * length pools) (λ word. f (selected word))
          + pool_sum (λ p. f (ok p)) (take r pools)
  unfolding pool_sum sum_below
  stretch q zero h small =
      let same = add-zero (q * length pools) in
      let sums = ap (λ n. sum_below n (λ word. f (selected word))) same in omega (arith, sums)
  stretch q (suc r) h small =
      let (p, found) = get_elem?_total pools r (omega arith) in
      let g : ℕ → ℕ = λ word. f (selected word) in
      let here : g (q * length pools + r) ≡ f (ok p) =
        ap f (selected_lem q r p (omega arith) (omega arith) found) in
      rw add-suc (
        omega (
          arith,
          sum_below_next (q * length pools + r) g,
          here,
          stretch q r (omega arith) (omega arith),
          pool_sum-take (λ x. f (ok x)) pools r p found,
        ))

  rounds_lem :
      (q : ℕ)
      → q * length pools ≤ u64_mod
      → sum_below (q * length pools) (λ word. f (selected word))
        ≡ q * pool_sum (λ p. f (ok p)) pools
  rounds_lem zero small =
      rw (zero-mul (length pools)) (omega (arith, sum_below_zero (λ word. f (selected word))))
  rounds_lem (suc q) small =
      let n = length pools in
      let fits : q * n + n ≤ u64_mod = omega (arith, suc-mul q n) in
      let all = ap (pool_sum (λ p. f (ok p))) (take_all pools) in
      rw (suc-mul q n)
        (omega (arith, stretch q n (omega arith) fits, rounds_lem q (omega (arith, fits)), all))

  -- Over the first `q * n + r` values of the second word, at most 2^64, with `n` active pools and
  -- `r` below `n`, any quantity that depends on the result of the selection adds up to `q` times
  -- its sum over the pools and once more over the first `r`: each pool is selected `q` times, and
  -- the first `r` of them once more.
  pub pool_distribution :
      (q r : ℕ)
      → r < length pools
      → q * length pools + r ≤ u64_mod
      → sum_below (q * length pools + r) (λ word. f (selected word))
        ≡ q * pool_sum (λ p. f (ok p)) pools + pool_sum (λ p. f (ok p)) (take r pools)
  pool_distribution q r under small =
      omega (arith, stretch q r (omega arith) small, rounds_lem q (omega arith))
