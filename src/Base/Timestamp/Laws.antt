-- ===== src/Base/Timestamp/Laws.antt =====
-- The arithmetic of time stamps.
use tools_cxx.Prelude.{ℕ, ◌+◌, ◌*◌, ◌/◌, ◌≤◌, ◌<◌, ◌≡◌, ◌↔◌, refl, true, arith}
use tools_cxx.Prelude.Int.{ℤ, pos, negsuc, ◌+ℤ◌, ◌*ℤ◌, int_laws, eqb_ℤ_iff}
use tools_cxx.Base.Timestamp.{
  Timestamp, Seconds, get_period, add_time, get_difference, quotient, remainder, eqb, before,
}

pub difference-add_time : (t : Timestamp) (s : Seconds) → get_difference (add_time t s) t ≡ s.micros
unfolding get_difference add_time
difference-add_time t s = omega int_laws

-- Quotient and remainder rebuild the number, and the remainder has its sign and is smaller than `d`.
pub quotient-remainder : (i : ℤ) (d : ℕ) → 0 < d → quotient i d *ℤ pos d +ℤ remainder i d ≡ i
unfolding quotient remainder ◌*ℤ◌ ◌+ℤ◌
quotient-remainder (pos n) d h = grind arith
quotient-remainder (negsuc n) d h = grind arith

-- The period of a time stamp at or after the epoch is the number of the day of 86400 seconds that holds it.
pub period_bounds :
    (t : Timestamp) (n : ℕ)
    → t.microseconds_since_epoch ≡ pos n
    → (d : ℕ) × (get_period t ≡ pos d) × (d * 86400000000 ≤ n) × (n < (d + 1) * 86400000000)
unfolding get_period quotient
period_bounds t n e = rw e (n / 1000000 / 86400, refl, omega arith, omega arith)

pub eqb_iff : (s t : Timestamp) → (eqb s t ≡ true) ↔ (s ≡ t)
unfolding eqb
eqb_iff s t = ground (arith, eqb_ℤ_iff s.microseconds_since_epoch t.microseconds_since_epoch)

pub before_trans : (r s t : Timestamp) → before r s ≡ true → before s t ≡ true → before r t ≡ true
before_trans r s t h k = ground arith
