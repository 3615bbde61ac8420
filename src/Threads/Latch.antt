-- ===== src/Threads/Latch.antt =====
-- tools/base/CountDownLatch.h and CountDownLatch.cpp. Each call holds the latch's mutex throughout, so it
-- is one step.
use tools_cxx.Prelude.{Bool, not}
use tools_cxx.Prelude.Int.{ℤ, pos, ◌-ℤ◌, ltb_ℤ}

pub record CountDownLatch : Type 0 where
  pub count : ℤ

unfoldable pub make_latch : ℤ → CountDownLatch
make_latch count = record { count = count }

unfoldable pub get_count : CountDownLatch → ℤ
get_count latch = latch.count

-- Whether `wait` returns: its loop goes on while the count is positive.
unfoldable pub passes : CountDownLatch → Bool
passes latch = not (ltb_ℤ (pos 0) latch.count)

-- Waiting threads look at the count again whether they are notified or not.
unfoldable pub count_down : CountDownLatch → CountDownLatch
unfolding ◌-ℤ◌
count_down latch = record { count = latch.count -ℤ pos 1 }
