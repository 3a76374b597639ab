-- ===== src/Admin/PrizePool/Active.antt =====
-- The list of active pools (instructions/admin/prize_pool.rs): an array of 50 with a count stands
-- for a list of at most 50 indices.
use card_machine.Prelude.{
  ℕ, suc, ◌+◌, ◌-◌, ◌≤◌, ◌<◌, ◌≡◌, refl, ap, ap₂, ◌∙◌, ◌≢◌, All, lt→ltb, none, some, List, [], ◌∷◌,
  ◌++◌, arith, length, length-append, length-snoc, get_elem?-append_head, set-append_head,
  length-replicate, replicate, set, get_elem?,
}
use native.Mathlib.Nat.{zero-add, suc-add}
use mathlib.Core.List.{append_assoc}
use card_machine.Constants.{max_prize_pools}
use card_machine.Errors.{ok, err, custom, invalid_prize_pool_index}
use card_machine.State.{IpFlowState}
use card_machine.Admin.PrizePool.{drop_pool, find_position, write_at, shift_left}

-- The array holds `pools` in order and 255 in every free place.
pub record Represents (config : IpFlowState) (pools : List ℕ) : Type 0 where
  pub counted : config.active_pool_count ≡ length pools
  pub fits : length pools ≤ max_prize_pools
  pub padded : config.active_pool_indices ≡ pools ++ replicate (max_prize_pools - length pools) 255

-- Writing just behind the list, over the padding.
set-append :
    (xs : List ℕ) (n v : ℕ)
    → set (xs ++ replicate (suc n) 255) (length xs) v ≡ (xs ++ v ∷ []) ++ replicate n 255
set-append [] n v = refl
set-append (x ∷ xs) n v = ap (λ t. x ∷ t) (set-append xs n v)

-- The length of the array.
pub length-padded :
    (config : IpFlowState) (pools : List ℕ)
    → Represents config pools
    → length config.active_pool_indices ≡ max_prize_pools
length-padded config pools r =
    rw (r.padded, length-append pools (replicate (max_prize_pools - length pools) 255))
      (omega (arith, length-replicate {A = ℕ} (max_prize_pools - length pools) 255, r.fits))

set_padded :
    (pools : List ℕ) (v : ℕ)
    → length pools < max_prize_pools
    → set (pools ++ replicate (max_prize_pools - length pools) 255) (length pools) v
      ≡ (pools ++ v ∷ []) ++ replicate (max_prize_pools - length (pools ++ v ∷ [])) 255
set_padded pools v h =
    let free : max_prize_pools - length pools ≡ suc (49 - length pools) = omega arith in
    let left : 49 - length pools ≡ max_prize_pools - length (pools ++ v ∷ []) =
      omega (arith, length-snoc pools v) in
    ap (λ k. set (pools ++ replicate k 255) (length pools) v) free
    ∙ set-append pools (49 - length pools) v
    ∙ ap (λ k. (pools ++ v ∷ []) ++ replicate k 255) left

-- The array and its count after an index is written behind the list; the counter is any number.
pub pushed-Represents :
    (config : IpFlowState) (pools : List ℕ) (n v : ℕ)
    → Represents config pools
    → length pools < max_prize_pools
    → Represents
        (record config {
          prize_pool_count = n;
          active_pool_count = config.active_pool_count + 1;
          active_pool_indices = set config.active_pool_indices config.active_pool_count v;
        })
        (pools ++ v ∷ [])
pushed-Represents config pools n v r room = record {
  counted = omega (arith, r.counted, length-snoc pools v);
  fits = omega (arith, length-snoc pools v);
  padded = rw (r.padded, r.counted) (set_padded pools v room);
}

-- The search, from a position on: the entries before it do not matter.
find_position_absent :
    (index : ℕ) (pre rest pad : List ℕ)
    → All (λ x. x ≢ index) rest
    → find_position (pre ++ (rest ++ pad)) index (length rest) (length pre) ≡ ok none
unfolding find_position
find_position_absent index pre [] pad h = refl
find_position_absent index pre (x ∷ rest) pad h =
    let ih : find_position (pre ++ x ∷ (rest ++ pad)) index (length rest) (length pre + 1)
        ≡ ok none =
      rw (append_assoc, length-snoc) at (find_position_absent index (pre ++ x ∷ []) rest pad h.1) in
    rw (get_elem?-append_head pre (rest ++ pad) x) (ground (arith, ih))

find_position_found :
    (index : ℕ) (pre before rest : List ℕ)
    → All (λ x. x ≢ index) before
    → (rounds : ℕ)
    → find_position
        (pre ++ (before ++ index ∷ rest))
        index
        (length before + suc rounds)
        (length pre)
      ≡ ok (some (length pre + length before))
unfolding find_position
find_position_found index pre [] rest h rounds =
    rw (zero-add (suc rounds)) (rw (get_elem?-append_head pre rest index) (ground arith))
find_position_found index pre (x ∷ before) rest h rounds =
    let ih : find_position (pre ++ x ∷ (before ++ index ∷ rest)) index (length before + suc rounds)
          (length pre + 1)
        ≡ ok (some (length pre + 1 + length before)) =
      rw (append_assoc, length-snoc) at
        (find_position_found index (pre ++ x ∷ []) before rest h.1 rounds) in
    rw (suc-add (length before) (suc rounds))
      (rw (get_elem?-append_head pre (before ++ index ∷ rest) x) (ground (arith, ih)))

read_second : (pre ys : List ℕ) (x y : ℕ) → get_elem? (pre ++ x ∷ y ∷ ys) (length pre + 1) ≡ some y
read_second pre ys x y =
    rw (append_assoc, length-snoc) at (get_elem?-append_head (pre ++ x ∷ []) ys y)

write_at_head :
    (pre ys : List ℕ) (x v : ℕ) → write_at (pre ++ x ∷ ys) (length pre) v ≡ ok (pre ++ v ∷ ys)
write_at_head pre ys x v = rw (
  lt→ltb (length pre) (length (pre ++ x ∷ ys)) (omega (arith, length-append pre (x ∷ ys))),
  set-append_head pre ys x v,
)

shift_left_lem :
    (pre rest pad : List ℕ) (x : ℕ)
    → (l : ℕ) × (shift_left (length rest) (length pre) (pre ++ x ∷ (rest ++ pad))
        ≡ ok (pre ++ (rest ++ l ∷ pad)))
unfolding shift_left
shift_left_lem pre [] pad x = (x, refl)
shift_left_lem pre (y ∷ rest) pad x =
    let (l, ih) = shift_left_lem (pre ++ y ∷ []) rest pad y in
    let ih' : shift_left (length rest) (length pre + 1) (pre ++ y ∷ y ∷ (rest ++ pad))
        ≡ ok (pre ++ y ∷ (rest ++ l ∷ pad)) =
      rw (append_assoc, length-snoc, append_assoc) at ih in
    (l, rw (read_second pre (rest ++ pad) x y) (rw (write_at_head pre (y ∷ (rest ++ pad)) x y) ih'))

array-remove :
    (before after : List ℕ) (index n : ℕ)
    → (before ++ index ∷ after) ++ replicate n 255 ≡ before ++ index ∷ (after ++ replicate n 255)
array-remove before after index n = append_assoc before (index ∷ after) (replicate n 255)

length-parts :
    (before after : List ℕ) (index : ℕ)
    → length (before ++ index ∷ after) ≡ length before + suc (length after)
length-parts before after index = length-append before (index ∷ after)

-- The array after the shift and the clearing of the last place.
cleared_lem :
    (before after : List ℕ) (l n : ℕ)
    → write_at (before ++ (after ++ l ∷ replicate n 255)) (length before + length after) 255
      ≡ ok ((before ++ after) ++ replicate (suc n) 255)
cleared_lem before after l n =
    rw (← append_assoc before after (l ∷ replicate n 255), ← length-append before after)
      (write_at_head (before ++ after) (replicate n 255) l 255)

-- The steps of `drop_pool`, put together.
drop_steps :
    (index : ℕ) (config : IpFlowState) (pos : ℕ) (shifted cleared : List ℕ)
    → 0 < config.active_pool_count
    → find_position config.active_pool_indices index config.active_pool_count 0 ≡ ok (some pos)
    → shift_left (config.active_pool_count - 1 - pos) pos config.active_pool_indices ≡ ok shifted
    → write_at shifted (config.active_pool_count - 1) 255 ≡ ok cleared
    → drop_pool index config
      ≡ ok (record config {
        active_pool_count = config.active_pool_count - 1;
        active_pool_indices = cleared;
      })
unfolding drop_pool
drop_steps index config pos shifted cleared some_active e₁ e₂ e₃ =
    rw (lt→ltb 0 config.active_pool_count some_active, e₁) (rw e₂ (rw e₃))

-- Where the array represents a list of active pools, removing an index takes out its first place,
-- keeps the order of the others, and leaves the counter of indices alone.
pub drop_pool-Represents :
    (config : IpFlowState) (before after : List ℕ) (index : ℕ)
    → Represents config (before ++ index ∷ after)
    → All (λ x. x ≢ index) before
    → (config' : IpFlowState) × (drop_pool index config ≡ ok config')
      × Represents config' (before ++ after)
      × (config'.prize_pool_count ≡ config.prize_pool_count)
unfolding drop_pool
drop_pool-Represents config before after index r h =
    let n = max_prize_pools - length (before ++ index ∷ after) in
    let count = config.active_pool_count in
    let e_count : count ≡ length before + suc (length after) =
      r.counted ∙ length-parts before after index in
    let e_array : config.active_pool_indices ≡ before ++ index ∷ (after ++ replicate n 255) =
      r.padded ∙ array-remove before after index n in
    let (l, shifted) = shift_left_lem before after (replicate n 255) index in
    let found = find_position_found index [] before (after ++ replicate n 255) h (length after) in
    let e_rounds : count - 1 - length before ≡ length after = omega arith in
    let room : suc n ≡ max_prize_pools - length (before ++ after) =
      omega (arith, length-append before after, r.fits, length-parts before after index) in
    let e_last : count - 1 ≡ length before + length after = omega arith in
    (
      record config {
        active_pool_count = config.active_pool_count - 1;
        active_pool_indices = (before ++ after) ++ replicate (suc n) 255;
      },
      drop_steps index config (length before) (before ++ (after ++ l ∷ replicate n 255))
          ((before ++ after) ++ replicate (suc n) 255) (omega arith)
          (ap₂ (λ xs c. find_position xs index c 0) e_array e_count
            ∙ found
            ∙ ap (λ p. ok (some p)) (zero-add (length before)))
          (ap₂ (λ k xs. shift_left k (length before) xs) e_rounds e_array ∙ shifted)
          (ap (λ k. write_at (before ++ (after ++ l ∷ replicate n 255)) k 255) e_last
            ∙ cleared_lem before after l n),
      record {
        counted =
            omega (arith, length-append before after, r.counted, length-parts before after index);
        fits = omega (arith, length-append before after, r.fits, length-parts before after index);
        padded = ap (λ k. (before ++ after) ++ replicate k 255) room;
      },
      refl,
    )

-- Where the array represents a list with an active pool, an index that is not in the list is
-- refused.
pub drop_pool_absent :
    (config : IpFlowState) (pools : List ℕ) (index : ℕ)
    → Represents config pools
    → 0 < length pools
    → All (λ x. x ≢ index) pools
    → drop_pool index config ≡ err (custom invalid_prize_pool_index)
unfolding drop_pool
drop_pool_absent config pools index r some_active h =
    let absent : find_position config.active_pool_indices index config.active_pool_count 0
        ≡ ok none =
      ap₂ (λ xs c. find_position xs index c 0) r.padded r.counted
      ∙ find_position_absent index [] pools (replicate (max_prize_pools - length pools) 255) h in
    rw absent (ground (arith, r.counted))
