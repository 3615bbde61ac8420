-- ===== src/Timer/State/Wait.antt =====
-- How long the timerfd waits.
use tools_cxx.Prelude.{
  ℕ, ◌+◌, ◌*◌, ◌/◌, ◌%◌, ◌≤◌, ◌<◌, ◌≡◌, refl, arith, if◌then◌else◌, Bool-cases, inl, inr,
}
use tools_cxx.Prelude.Int.{ℤ, pos, negsuc, ltb_ℤ, ◌*ℤ◌}
use tools_cxx.Base.Timestamp.{Timestamp, get_difference, quotient, remainder}
use tools_cxx.Timer.State.{get_time_from_now}

wait_of : ℤ → ℤ
wait_of i = if ltb_ℤ i (pos 100) then pos 100 else i

wait_bounds :
    (i : ℤ) → (n : ℕ) × (wait_of i ≡ pos n) × (100 ≤ n) × ((m : ℕ) → i ≡ pos m → 100 ≤ m → n ≡ m)
unfolding wait_of
wait_bounds (pos m) = elim (Bool-cases (ltb_ℤ (pos m) (pos 100))) [
  | inl e ↦ (100, rw e refl, omega arith, λ k q h. ground arith)
  | inr e ↦ (m, rw e refl, ground arith, λ k q h. ground arith)
]
wait_bounds (negsuc m) = (100, ground arith, omega arith, λ k q h. cc)

pos-times : (n : ℕ) → pos n *ℤ pos 1000 ≡ pos (n * 1000)
unfolding ◌*ℤ◌
pos-times n = ground arith

-- The timerfd is set to a valid time of at least 100 microseconds, which is never off; a difference of
-- at least that much is kept to the microsecond.
pub get_time_from_now-bounds :
    (when now : Timestamp)
    → (sec nsec : ℕ) × (get_time_from_now when now
        ≡ record { tv_sec = pos sec; tv_nsec = pos nsec })
      × (nsec < 1000000000)
      × (100000 ≤ sec * 1000000000 + nsec)
      × ((m : ℕ) → get_difference when now ≡ pos m → 100 ≤ m → sec * 1000000000 + nsec ≡ m * 1000)
unfolding get_time_from_now wait_of quotient remainder
get_time_from_now-bounds when now =
    let (n, e, low, exact) = wait_bounds (get_difference when now) in
    (
      n / 1000000,
      n % 1000000 * 1000,
      rw (e, pos-times (n % 1000000)) refl,
      omega arith,
      omega arith,
      λ m q h. omega (arith, exact m q h),
    )
