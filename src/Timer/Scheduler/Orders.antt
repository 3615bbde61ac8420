-- ===== src/Timer/Scheduler/Orders.antt =====
-- The orders of the two kinds of entries.
use tools_cxx.Prelude.{◌≡◌, false, arith, ap}
use tools_cxx.Prelude.Int.{eq_of_parts}
use tools_cxx.Base.Timestamp.{Timestamp, before}
use tools_cxx.Timer.Ordered.{IsOrder}
use tools_cxx.Timer.State.{entry_before, active_before}

pub before_connected : (a b : Timestamp) → before a b ≡ false → before b a ≡ false → a ≡ b
before_connected a b h k =
    ap (λ i. record { microseconds_since_epoch = i })
      (eq_of_parts a.microseconds_since_epoch b.microseconds_since_epoch (ground arith))

pub entry-IsOrder : IsOrder entry_before
unfolding entry_before
entry-IsOrder = record {
  irreflexive = λ a. ground arith;
  transitive = λ a b c h k. ground arith;
  connected = λ a b h k. ground (arith, before_connected a.when b.when);
}

pub active-IsOrder : IsOrder active_before
unfolding active_before
active-IsOrder = record {
  irreflexive = λ a. ground arith;
  transitive = λ a b c h k. ground arith;
  connected = λ a b h k. ground arith;
}
