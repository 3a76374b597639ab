-- ===== src/Admin/PrizePool/Steps.antt =====
-- What `push_pool` and `drop_pool` (instructions/admin/prize_pool.rs) write when they succeed.
use card_machine.Prelude.{ℕ, ◌+◌, ◌-◌, ◌<◌, ◌≡◌, Bool, inl, inr, set, List, arith, some, none}
use card_machine.Constants.{max_prize_pools}
use card_machine.Errors.{ok, Result-cases}
use card_machine.Words.{add_u8}
use card_machine.State.{IpFlowState}
use card_machine.Admin.PrizePool.{push_pool, drop_pool, find_position, shift_left, write_at}

pub push_pool_lem :
    (checks : Bool) (c c' : IpFlowState) (index : ℕ)
    → push_pool checks c ≡ ok (index, c')
    → (c.active_pool_count < max_prize_pools)
      × (n : ℕ) × (c' ≡ record c {
        prize_pool_count = n;
        active_pool_count = c.active_pool_count + 1;
        active_pool_indices = set c.active_pool_indices c.active_pool_count c.prize_pool_count;
      })
unfolding push_pool add_u8
push_pool_lem checks c c' index h = elim (Result-cases (add_u8 checks c.prize_pool_count 1)) [
  | inr (e, over) ↦ absurd (ground arith)
  | inl (n, e) ↦ (ground arith, n, ground arith)
]

pub push_pool_index :
    (checks : Bool) (c c' : IpFlowState) (index : ℕ)
    → push_pool checks c ≡ ok (index, c')
    → index ≡ c.prize_pool_count
unfolding push_pool
push_pool_index checks c c' index h = ground arith

pub drop_pool_lem :
    (index : ℕ) (c c' : IpFlowState)
    → drop_pool index c ≡ ok c'
    → (0 < c.active_pool_count)
      × (indices : List ℕ) × (c'
          ≡ record c { active_pool_count = c.active_pool_count - 1; active_pool_indices = indices })
unfolding drop_pool
drop_pool_lem index c c' h =
    let last = c.active_pool_count - 1 in
    elim (Result-cases (find_position c.active_pool_indices index c.active_pool_count 0)) [
      | inr (e, fails) ↦ absurd (ground arith)
      | inl (none, absent) ↦ absurd (ground arith)
      | inl (some pos, found) ↦
          elim (Result-cases (shift_left (last - pos) pos c.active_pool_indices)) [
            | inr (e, out) ↦ absurd (ground arith)
            | inl (shifted, es) ↦ elim (Result-cases (write_at shifted last 255)) [
              | inr (e, out) ↦ absurd (ground arith)
              | inl (cleared, ec) ↦ (ground arith, cleared, ground arith)
            ]
          ]
    ]
