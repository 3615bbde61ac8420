-- ===== src/Timer/Scheduler.antt =====
-- tools/timer/TimerScheduler.cpp: adding, cancelling and expiry. Timers lie on the heap, by address. A
-- failed assertion and the use of an address that holds no timer are `none`. The address that `new`
-- returns is an argument.
pub mod Orders
pub mod Invariant
pub mod Cancel
pub mod Erased
pub mod Expiry
use tools_cxx.Prelude.{
  ℕ, suc, ◌-◌, ◌^◌, Bool, true, false, not, Option, none, some, List, [], ◌∷◌, ◌++◌, ◌==◌,
  if◌then◌else◌, length, update_at, assert, ◌>>=◌, ◌>>◌,
}
use tools_cxx.Prelude.Int.{pos}
use tools_cxx.Base.Timestamp.{Timestamp, Seconds, before, add_time}
use tools_cxx.Timer.Ordered.{find, insert, erase, below, from}
use tools_cxx.Timer.State.{
  Timer, make, TimerId, TimerEntry, ActiveTimerEntry, entry_before, active_before, inserting,
  cancelling, TimerScheduler,
}

abbrev pub timer_entry : ℕ → Timer → TimerEntry
timer_entry address timer = record { when = timer.expiration; timer = address }

abbrev pub active_entry : ℕ → Timer → ActiveTimerEntry
active_entry address timer = record { timer = address; sequence = timer.sequence }

-- `reset_timerfd` when the set is empty or begins later than `when`.
abbrev pub arm_before : List TimerEntry → Timestamp → Option Timestamp → Option Timestamp
arm_before [] when armed = some when
arm_before (first ∷ timers) when armed = if before when first.when then some when else armed

abbrev pub same_size : TimerScheduler → Bool
same_size s = length s.timers == length s.active

-- The scheduler once the timer at `address` is in both sets.
abbrev pub inserted : TimerScheduler → ℕ → Timer → TimerScheduler
inserted s address timer = record s {
  armed = arm_before s.timers timer.expiration s.armed;
  timers = insert entry_before s.timers (timer_entry address timer);
  active = insert active_before s.active (active_entry address timer);
}

unfoldable pub insert_timer : TimerScheduler → ℕ → Option TimerScheduler
insert_timer s address = do
  assert (same_size s)
  timer ← s.memory address
  assert (not (find entry_before s.timers (timer_entry address timer)))
  assert (not (find active_before s.active (active_entry address timer)))
  let next = inserted s address timer
  assert (same_size next)
  some next

-- The scheduler once the timer of an active entry is erased and deleted.
abbrev pub deleted : TimerScheduler → ActiveTimerEntry → Timer → TimerScheduler
deleted s entry timer = record s {
  memory = update_at s.memory entry.timer none;
  timers = erase entry_before s.timers (timer_entry entry.timer timer);
  active = erase active_before s.active entry;
}

unfoldable pub drop_timer : TimerScheduler → ActiveTimerEntry → Option TimerScheduler
drop_timer s entry = do timer ← s.memory entry.timer; some (deleted s entry timer)

unfoldable pub cancel_timer : TimerScheduler → TimerId → Option TimerScheduler
cancel_timer s id = do
  assert (same_size s)
  let entry : ActiveTimerEntry = record { timer = id.timer; sequence = id.sequence }
  next ←
      if find active_before s.active entry
      then drop_timer s entry
      else if s.calling
      then some (record s { canceling = insert active_before s.canceling entry })
      else some s
  assert (same_size next)
  some next

-- The new timer lies at `address`; `here` says whether the caller runs in the scheduler's thread. The call is
-- one step: it is not modelled that, where another thread calls, the scheduler's thread may insert, run and
-- delete the timer before the call reads its sequence number at the end, which is then undefined behaviour.
unfoldable pub add_timer :
    TimerScheduler → Bool → ℕ → ℕ → Timestamp → Seconds → Option (TimerScheduler × TimerId)
add_timer s here address callback when interval = do
  let timer = make callback when interval s.created
  let made = record s { memory = update_at s.memory address (some timer); created = suc s.created }
  next ←
      if here
      then insert_timer made address
      else some (record made {
        pending = made.pending ++ inserting address ∷ [];
        eventfd = suc made.eventfd;
      })
  some (next, record { timer = address; sequence = timer.sequence })

unfoldable pub cancel : TimerScheduler → Bool → TimerId → Option TimerScheduler
cancel s here id =
    if here
    then cancel_timer s id
    else some (record s { pending = s.pending ++ cancelling id ∷ []; eventfd = suc s.eventfd })

unfoldable pub run_at :
    TimerScheduler → Bool → ℕ → Timestamp → ℕ → Option (TimerScheduler × TimerId)
run_at s here address time callback =
    add_timer s here address callback time (record { micros = pos 0; is_positive = false })

-- `now` is the clock reading of the call.
unfoldable pub run_after :
    TimerScheduler → Bool → ℕ → Timestamp → Seconds → ℕ → Option (TimerScheduler × TimerId)
run_after s here address now delay callback = run_at s here address (add_time now delay) callback

unfoldable pub run_every :
    TimerScheduler → Bool → ℕ → Timestamp → Seconds → ℕ → Option (TimerScheduler × TimerId)
run_every s here address now interval callback =
    add_timer s here address callback (add_time now interval) interval

-- The active entries of expired timers go.
unfoldable pub erase_active : TimerScheduler → List TimerEntry → Option TimerScheduler
erase_active s [] = some s
erase_active s (entry ∷ expired) = do
  timer ← s.memory entry.timer
  erase_active (record s { active = erase active_before s.active (active_entry entry.timer timer) })
      expired

abbrev pub is_later : List TimerEntry → Timestamp → Bool
is_later [] now = true
is_later (first ∷ timers) now = before now first.when

-- `reinterpret_cast<Timer*>(UINTPTR_MAX)`
abbrev pub last_address : ℕ
last_address = 2 ^ 64 - 1

abbrev pub sentry : Timestamp → TimerEntry
sentry now = record { when = now; timer = last_address }

unfoldable pub get_expired : TimerScheduler → Timestamp → Option (List TimerEntry × TimerScheduler)
get_expired s now = do
  assert (same_size s)
  assert (is_later (from entry_before s.timers (sentry now)) now)
  let expired = below entry_before s.timers (sentry now)
  next ← erase_active (record s { timers = from entry_before s.timers (sentry now) }) expired
  assert (same_size next)
  some (expired, next)
