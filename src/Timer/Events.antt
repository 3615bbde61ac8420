-- ===== src/Timer/Events.antt =====
-- tools/timer/TimerScheduler.cpp: what the scheduler does when its two descriptors can be read.
pub mod Loose
pub mod Calls
pub mod Runs
pub mod Rearm
pub mod Handle
pub mod Reset
use tools_cxx.Prelude.{
  ℕ, true, false, ◌&&◌, not, Option, none, some, List, [], ◌∷◌, if◌then◌else◌, update_at, ◌>>=◌,
}
use tools_cxx.Base.Timestamp.{Timestamp, Seconds, is_valid}
use tools_cxx.Timer.Ordered.{find}
use tools_cxx.Timer.State.{
  Timer, restart, TimerId, TimerEntry, active_before, Functor, inserting, cancelling,
  TimerScheduler,
}
use tools_cxx.Timer.Scheduler.{
  insert_timer, active_entry, cancel_timer, add_timer, cancel, get_expired,
}

-- One round of the loop of `reset`: a repeated timer that no callback cancelled starts again, any other
-- is deleted.
unfoldable pub reset_stored :
    TimerScheduler → TimerEntry → Timer → Timestamp → Option TimerScheduler
reset_stored s entry timer now =
    if timer.repeat && not (find active_before s.canceling (active_entry entry.timer timer))
    then insert_timer
        (record s { memory = update_at s.memory entry.timer (some (restart timer now)) })
        entry.timer
    else some (record s { memory = update_at s.memory entry.timer none })

unfoldable pub reset_timer : TimerScheduler → TimerEntry → Timestamp → Option TimerScheduler
reset_timer s entry now = do timer ← s.memory entry.timer; reset_stored s entry timer now

unfoldable pub reset_all : TimerScheduler → List TimerEntry → Timestamp → Option TimerScheduler
reset_all s [] now = some s
reset_all s (entry ∷ expired) now = do next ← reset_timer s entry now; reset_all next expired now

-- The timerfd is set for the first timer, if its time is valid.
unfoldable pub rearm : TimerScheduler → Option TimerScheduler
rearm s = elim s.timers [
  | [] ↦ some s
  | first ∷ timers ↦ do
    timer ← s.memory first.timer
    some (if is_valid timer.expiration then record s { armed = some timer.expiration } else s)
]

unfoldable pub reset : TimerScheduler → List TimerEntry → Timestamp → Option TimerScheduler
reset s expired now = do next ← reset_all s expired now; rearm next

-- What a callback calls on its scheduler, in whose thread it runs.
pub data Call : Type 0 where
  adding : ℕ → ℕ → Timestamp → Seconds → Call
  cancelling_id : TimerId → Call

unfoldable pub run_call : TimerScheduler → Call → Option TimerScheduler
run_call s (adding address callback when interval) = do
  added ← add_timer s true address callback when interval
  some added.0
run_call s (cancelling_id id) = cancel s true id

unfoldable pub run_calls : TimerScheduler → List Call → Option TimerScheduler
run_calls s [] = some s
run_calls s (call ∷ calls) = do next ← run_call s call; run_calls next calls

-- `program` says what each callback calls.
unfoldable pub run_expired :
    (ℕ → List Call) → TimerScheduler → List TimerEntry → Option TimerScheduler
run_expired program s [] = some s
run_expired program s (entry ∷ expired) = do
  timer ← s.memory entry.timer
  next ← run_calls s (program timer.callback)
  run_expired program next expired

-- The timerfd has gone off, at the clock reading `now`.
unfoldable pub handle_event : (ℕ → List Call) → TimerScheduler → Timestamp → Option TimerScheduler
handle_event program s now = do
  got ← get_expired (record s { armed = none }) now
  next ← run_expired program (record got.1 { calling = true; canceling = [] }) got.0
  reset (record next { calling = false }) got.0 now

unfoldable pub run_functor : TimerScheduler → Functor → Option TimerScheduler
run_functor s (inserting address) = insert_timer s address
run_functor s (cancelling id) = cancel_timer s id

unfoldable pub run_functors : TimerScheduler → List Functor → Option TimerScheduler
run_functors s [] = some s
run_functors s (functor ∷ functors) = do next ← run_functor s functor; run_functors next functors

unfoldable pub handle_pending_functor : TimerScheduler → Option TimerScheduler
handle_pending_functor s = run_functors (record s { pending = [] }) s.pending
