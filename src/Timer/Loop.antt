-- ===== src/Timer/Loop.antt =====
-- tools/timer/TimerScheduler.cpp: the loop of `start`, with what other threads call meanwhile, and the
-- destructor. A round takes what poll(2) or epoll_wait(2) returns.
pub mod Pending
pub mod Others
pub mod Rounds
pub mod Destroy
mod Tests
use tools_cxx.Prelude.{
  ℕ, suc, Bool, true, false, ◌||◌, Option, none, some, List, [], ◌∷◌, if◌then◌else◌, update_at,
  assert, is_none, ◌>>=◌, ◌>>◌,
}
use tools_cxx.Base.Timestamp.{Timestamp, Seconds}
use tools_cxx.Poller.Channel
use tools_cxx.Poller.Channel.{Callback, on_read, on_write, on_close, on_error, Callbacks}
use tools_cxx.Timer.State.{TimerId, TimerEntry, TimerScheduler}
use tools_cxx.Timer.Scheduler.{add_timer, cancel}
use tools_cxx.Timer.Events.{Call, handle_event, handle_pending_functor}

-- The poller, as far as the constructor uses it: `enable_reading` of the channel at an address.
pub record Watcher : Type 1 where
  pub State : Type 0
  pub watch : State → ℕ → Option State

abbrev pub new_scheduler : TimerScheduler
new_scheduler = record {
  memory = λ address. none;
  created = 0;
  timers = [];
  active = [];
  canceling = [];
  calling = false;
  armed = none;
  pending = [];
  eventfd = 0;
}

-- The constructor at an address: a thread may have one scheduler only. `current` is `tTimerScheduler`, and
-- the two addresses are those of the channels.
unfoldable pub construct :
    (w : Watcher) → w.State → Option ℕ → ℕ → ℕ → ℕ → Option (TimerScheduler × w.State × Option ℕ)
construct w poller current address timerfd_channel eventfd_channel = do
  assert (is_none current)
  with_timerfd ← w.watch poller timerfd_channel
  with_eventfd ← w.watch with_timerfd eventfd_channel
  some (new_scheduler, with_eventfd, some address)

-- What another thread calls.
pub data Other : Type 0 where
  adds : ℕ → ℕ → Timestamp → Seconds → Other
  cancels : TimerId → Other
  quits : Other

-- The counter of the eventfd grows by 1.
abbrev pub write_eventfd : TimerScheduler → TimerScheduler
write_eventfd s = record s { eventfd = suc s.eventfd }

-- A read returns the counter and sets it to 0. The descriptor is ready only while the counter is not 0, so
-- the read does not fail.
abbrev pub read_eventfd : TimerScheduler → TimerScheduler
read_eventfd s = record s { eventfd = 0 }

-- `quit` beside its flag; `here` says whether the caller runs in the scheduler's thread.
unfoldable pub quit : TimerScheduler → Bool → TimerScheduler
quit s here = if here then s else write_eventfd s

unfoldable pub run_other : TimerScheduler → Other → Option TimerScheduler
run_other s (adds address callback when interval) = do
  added ← add_timer s false address callback when interval
  some added.0
run_other s (cancels id) = cancel s false id
run_other s quits = some (quit s false)

unfoldable pub run_others : TimerScheduler → List Other → Option TimerScheduler
run_others s [] = some s
run_others s (call ∷ calls) = do next ← run_other s call; run_others next calls

abbrev pub has_quit : List Other → Bool
has_quit [] = false
has_quit (adds address callback when interval ∷ calls) = has_quit calls
has_quit (cancels id ∷ calls) = has_quit calls
has_quit (quits ∷ calls) = true

-- The two channels of the scheduler, which have a read callback only.
pub data Descriptor : Type 0 where
  timerfd eventfd : Descriptor

abbrev pub read_only : Callbacks
read_only = record { has_read = true; has_write = false; has_close = false; has_error = false }

-- An active channel, its events, and the clock reading of its handler.
pub record Ready : Type 0 where
  pub descriptor : Descriptor
  pub revents : ℕ
  pub now : Timestamp

-- `callbacks_quit` is whether a callback calls `quit` in the round.
pub record Round : Type 0 where
  pub earlier : List Other
  pub ready : List Ready
  pub later : List Other
  pub callbacks_quit : Bool

-- `program` says what the callback of a timer calls.
module _ (program : ℕ → List Call) where
  abbrev pub read_callback : TimerScheduler → Descriptor → Timestamp → Option TimerScheduler
  read_callback s timerfd now = handle_event program s now
  read_callback s eventfd now = some (read_eventfd s)

  -- The callbacks that are not set are never called.
  unfoldable pub run_callbacks : TimerScheduler → Ready → List Callback → Option TimerScheduler
  run_callbacks s r [] = some s
  run_callbacks s r (on_read ∷ calls) = do
    next ← read_callback s r.descriptor r.now
    run_callbacks next r calls
  run_callbacks s r (on_write ∷ calls) = none
  run_callbacks s r (on_close ∷ calls) = none
  run_callbacks s r (on_error ∷ calls) = none

  unfoldable pub handle_ready : TimerScheduler → Ready → Option TimerScheduler
  handle_ready s r = run_callbacks s r (Channel.handle_event read_only r.revents)

  unfoldable pub handle_all : TimerScheduler → List Ready → Option TimerScheduler
  handle_all s [] = some s
  handle_all s (r ∷ rs) = do next ← handle_ready s r; handle_all next rs

  unfoldable pub round : TimerScheduler → Round → Option TimerScheduler
  round s r = do
    called ← run_others s r.earlier
    handled ← handle_all called r.ready
    left ← run_others handled r.later
    handle_pending_functor left

  abbrev pub is_over : Round → Bool
  is_over r = r.callbacks_quit || (has_quit r.earlier || has_quit r.later)

  -- The rounds still to come; the flag is read behind each.
  unfoldable pub loop : TimerScheduler → List Round → Option TimerScheduler
  loop s [] = some s
  loop s (r ∷ rs) = do
    next ← round s r
    let rest = loop next rs
    if is_over r then some next else rest

-- The loop of the destructor; the delete of an address without a timer is none.
unfoldable pub delete_all : TimerScheduler → List TimerEntry → Option TimerScheduler
delete_all s [] = some s
delete_all s (entry ∷ entries) = do
  timer ← s.memory entry.timer
  delete_all (record s { memory = update_at s.memory entry.timer none }) entries

unfoldable pub destroy : TimerScheduler → Option TimerScheduler
destroy s = delete_all s s.timers
