-- ===== src/Poller/Choice.antt =====
-- tools/poller/Poller.cpp, with the methods of Channel.h: the poller that the environment chooses, and
-- what channels call on it.
pub mod Agrees
pub mod Steps
pub mod Calls
pub mod Same
mod Tests
use tools_cxx.Prelude.{ℕ, Bool, Option, none, some, List, [], ◌∷◌, if◌then◌else◌, update_at, ◌>>=◌}
use tools_cxx.Poller.Channel.{Channel, add_reading, drop_reading, add_writing, drop_writing}
use tools_cxx.Poller.Poll
use tools_cxx.Poller.Poll.{PollPoller}
use tools_cxx.Poller.Poll.Methods
use tools_cxx.Poller.EPoll
use tools_cxx.Poller.EPoll.{Epoll, EPollPoller, Outcome, done, failed}

-- The methods of a channel that call its poller.
pub data Method : Type 0 where
  enables_reading disables_reading enables_writing disables_writing removes : Method

-- A call of a method, on the channel at an address.
pub record Call : Type 0 where
  pub channel : ℕ
  pub method : Method

abbrev pub call_poll : PollPoller → ℕ → Method → Option PollPoller
call_poll p c enables_reading = Methods.enable_reading p c
call_poll p c disables_reading = Methods.disable_reading p c
call_poll p c enables_writing = Methods.enable_writing p c
call_poll p c disables_writing = Methods.disable_writing p c
call_poll p c removes = Methods.remove p c

unfoldable pub run_poll : PollPoller → List Call → Option PollPoller
run_poll p [] = some p
run_poll p (call ∷ calls) = do next ← call_poll p call.channel call.method; run_poll next calls

module _ (os : Epoll) where
  -- The channel at an address, changed in memory.
  abbrev pub change : (Channel → Channel) → EPollPoller os → ℕ → EPollPoller os
  change f q c = record q { channels = update_at q.channels c (f (q.channels c)) }

  abbrev pub call_epoll : EPollPoller os → ℕ → Method → Outcome (EPollPoller os)
  call_epoll q c enables_reading = EPoll.update_channel os (change add_reading q c) c
  call_epoll q c disables_reading = EPoll.update_channel os (change drop_reading q c) c
  call_epoll q c enables_writing = EPoll.update_channel os (change add_writing q c) c
  call_epoll q c disables_writing = EPoll.update_channel os (change drop_writing q c) c
  call_epoll q c removes = EPoll.remove_channel os q c

  unfoldable pub run_epoll : EPollPoller os → List Call → Outcome (EPollPoller os)
  run_epoll q [] = done q
  run_epoll q (call ∷ calls) =
      EPoll.◌>>=◌ (call_epoll q call.channel call.method) (λ next. run_epoll next calls)

  pub data Poller : Type 0 where
    polls : PollPoller → Poller
    epolls : EPollPoller os → Poller

  -- `use_poll` is whether the environment has the variable USE_POLL.
  unfoldable pub create_poller : Bool → os.Kernel → (ℕ → Channel) → Poller
  create_poller use_poll kernel channels =
      if use_poll then polls (Poll.make channels) else epolls (EPoll.make os kernel channels)

  abbrev pub outcome_of : Option PollPoller → Outcome Poller
  outcome_of none = failed
  outcome_of (some p) = done (polls p)

  unfoldable pub run_calls : Poller → List Call → Outcome Poller
  run_calls (polls p) calls = outcome_of (run_poll p calls)
  run_calls (epolls q) calls = EPoll.◌>>=◌ (run_epoll q calls) (λ next. done (epolls next))
