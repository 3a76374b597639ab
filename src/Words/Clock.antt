-- ===== src/Words/Clock.antt =====
-- The difference of two times (`-` on `i64`).
use card_machine.Prelude.{ℕ, ◌-◌, ◌≤◌, ◌<◌, ◌^◌, ◌≡◌, Bool, arith}
use card_machine.Prelude.Int.{pos, ◌-ℤ◌}
use card_machine.Errors.{ok}
use card_machine.Words.{sub_i64}

-- Of two times from the epoch on, the later minus the earlier stays in range.
pub sub_i64_exact :
    (checks : Bool) (now before : ℕ)
    → before ≤ now
    → now < 2 ^ 63
    → sub_i64 checks (pos now) (pos before) ≡ ok (pos (now - before))
unfolding sub_i64 ◌-ℤ◌
sub_i64_exact checks now before order range = ground arith
