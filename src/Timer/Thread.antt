-- ===== src/Timer/Thread.antt =====
-- tools/timer/TimerSchedulerThread.h and TimerSchedulerThread.cpp, with the loop and `quit` of
-- TimerScheduler.cpp: a thread that runs a scheduler, and the thread that owns it. No callback calls `quit`.
pub mod Quit
mod Tests
use tools_cxx.Prelude.{◌≡◌, Bool, true, false}

-- Where the new thread stands in `thread_func` and in the loop of `TimerScheduler::start`.
pub data ThreadPc : Type 0 where
  unborn constructing publishing notifying : ThreadPc
  resetting : ThreadPc  -- before `m_quit = false`
  testing polling handling_pending ended : ThreadPc

-- Where the owner stands in `start` and in the destructor.
pub data OwnerPc : Type 0 where
  constructed waiting returned : OwnerPc
  quitting waking joining gone : OwnerPc

-- `published` is whether `m_scheduler` is set, and `quit` the scheduler's flag.
pub record SchedulerThread : Type 0 where
  pub published : Bool
  pub quit : Bool
  pub thread : ThreadPc
  pub owner : OwnerPc

unfoldable pub make_thread : SchedulerThread
make_thread = record { published = false; quit = false; thread = unborn; owner = constructed }

-- One step of the new thread.
pub data ThreadMove (s : SchedulerThread) : ThreadPc → SchedulerThread → Type 0 where
  construct : ThreadMove s constructing (record s { quit = false; thread = publishing })
  publish : ThreadMove s publishing (record s { published = true; thread = notifying })
  notify : ThreadMove s notifying (record s { thread = resetting })
  reset : ThreadMove s resetting (record s { quit = false; thread = testing })
  go_on : s.quit ≡ false → ThreadMove s testing (record s { thread = polling })
  leave : s.quit ≡ true → ThreadMove s testing (record s { thread = ended })
  poll : ThreadMove s polling (record s { thread = handling_pending })
  handle_pending : ThreadMove s handling_pending (record s { thread = testing })

-- One step of the owner; a wait for the condition ends once the pointer is set.
pub data OwnerMove (s : SchedulerThread) : OwnerPc → SchedulerThread → Type 0 where
  create : OwnerMove s constructed (record s { thread = constructing; owner = waiting })
  see : s.published ≡ true → OwnerMove s waiting (record s { owner = returned })
  destroy : s.published ≡ true → OwnerMove s returned (record s { owner = quitting })
  destroy_unstarted : s.published ≡ false → OwnerMove s constructed (record s { owner = gone })
  set_quit : OwnerMove s quitting (record s { quit = true; owner = waking })
  wake : OwnerMove s waking (record s { owner = joining })
  join : s.thread ≡ ended → OwnerMove s joining (record s { owner = gone })

pub data Step (s : SchedulerThread) : SchedulerThread → Type 0 where
  runs : (next : SchedulerThread) → ThreadMove s s.thread next → Step s next
  acts : (next : SchedulerThread) → OwnerMove s s.owner next → Step s next

pub data Reaches : SchedulerThread → SchedulerThread → Type 0 where
  stays : (s : SchedulerThread) → Reaches s s
  goes : (s mid next : SchedulerThread) → Step s mid → Reaches mid next → Reaches s next
