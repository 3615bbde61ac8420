-- ===== src/Coroutine/Thread.antt =====
-- tools/coroutine/CoSchedulerThread.h and CoSchedulerThread.cpp, with the loop and `quit` of
-- CoScheduler.cpp: a thread that runs a scheduler, and the thread that owns it.
pub mod Order
pub mod Ending
mod Tests
use tools_cxx.Prelude.{ℕ, suc, ◌+◌, ◌-◌, ◌≡◌, Bool, true, false}

-- Where the new thread stands in `thread_func` and in `CoScheduler::start`.
pub data ThreadPc : Type 0 where
  unborn constructing publishing notifying : ThreadPc
  resetting : ThreadPc  -- before `m_quit = false`
  testing handling_tasks ended : ThreadPc
  -- in the visit of the coroutines, with so many entries of the store from `pos` on
  visiting : ℕ → ThreadPc
  -- a coroutine has control, with so many entries behind its own
  running : ℕ → ThreadPc

-- Where the owner stands in `start` and in the destructor.
pub data OwnerPc : Type 0 where
  constructed waiting returned : OwnerPc
  quitting joining gone : OwnerPc

-- `published` is whether `m_scheduler` is set, `quit` the scheduler's flag, and `stored` the size of its
-- store.
pub record CoSchedulerThread : Type 0 where
  pub published : Bool
  pub quit : Bool
  pub stored : ℕ
  pub thread : ThreadPc
  pub owner : OwnerPc

unfoldable pub make_thread : CoSchedulerThread
make_thread = record {
  published = false;
  quit = false;
  stored = 0;
  thread = unborn;
  owner = constructed;
}

-- One step of the new thread. A round of `start` visits the entries of the store one by one and then makes
-- coroutines of the pending tasks. An entry whose coroutine is neither ready nor suspended is passed over.
-- Any other gets control, computes as long as it likes, for ever if it never yields, may call `quit` where
-- `others` says so, and may give control back by `yield` or by its end, which takes its entry out of the
-- store. When `start` returns, the scheduler is gone.
pub data ThreadMove (others : Bool) (s : CoSchedulerThread)
    : ThreadPc → CoSchedulerThread → Type 0 where
  construct :
      ThreadMove others s constructing (record s { quit = false; stored = 0; thread = publishing })
  publish : ThreadMove others s publishing (record s { published = true; thread = notifying })
  notify : ThreadMove others s notifying (record s { thread = resetting })
  reset : ThreadMove others s resetting (record s { quit = false; thread = testing })
  go_on : s.quit ≡ false → ThreadMove others s testing (record s { thread = visiting s.stored })
  leave : s.quit ≡ true → ThreadMove others s testing (record s { thread = ended })
  pass : (n : ℕ) → ThreadMove others s (visiting (suc n)) (record s { thread = visiting n })
  give_control : (n : ℕ) → ThreadMove others s (visiting (suc n)) (record s { thread = running n })
  compute : (n : ℕ) → ThreadMove others s (running n) (record s { thread = running n })
  quit_inside :
      (n : ℕ)
      → others ≡ true
      → ThreadMove others s (running n) (record s { quit = true; thread = running n })
  yield : (n : ℕ) → ThreadMove others s (running n) (record s { thread = visiting n })
  finish :
      (n : ℕ)
      → ThreadMove others s (running n) (record s { stored = s.stored - 1; thread = visiting n })
  visited : ThreadMove others s (visiting 0) (record s { thread = handling_tasks })
  handle_tasks :
      (tasks : ℕ)
      → ThreadMove others s handling_tasks
          (record s { stored = s.stored + tasks; thread = testing })

-- One step of the owner; a wait for the condition ends once the pointer is set. Behind `start` it may
-- call `quit` of the scheduler itself where `others` says so.
pub data OwnerMove (others : Bool) (s : CoSchedulerThread)
    : OwnerPc → CoSchedulerThread → Type 0 where
  create : OwnerMove others s constructed (record s { thread = constructing; owner = waiting })
  see : s.published ≡ true → OwnerMove others s waiting (record s { owner = returned })
  quit_early : others ≡ true → OwnerMove others s returned (record s { quit = true })
  destroy : s.published ≡ true → OwnerMove others s returned (record s { owner = quitting })
  destroy_unstarted :
      s.published ≡ false → OwnerMove others s constructed (record s { owner = gone })
  set_quit : OwnerMove others s quitting (record s { quit = true; owner = joining })
  join : s.thread ≡ ended → OwnerMove others s joining (record s { owner = gone })

pub data Step (others : Bool) (s : CoSchedulerThread) : CoSchedulerThread → Type 0 where
  runs : (next : CoSchedulerThread) → ThreadMove others s s.thread next → Step others s next
  acts : (next : CoSchedulerThread) → OwnerMove others s s.owner next → Step others s next

pub data Reaches (others : Bool) : CoSchedulerThread → CoSchedulerThread → Type 0 where
  stays : (s : CoSchedulerThread) → Reaches others s s
  goes :
      (s mid next : CoSchedulerThread)
      → Step others s mid
      → Reaches others mid next
      → Reaches others s next
