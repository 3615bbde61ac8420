-- ===== src/Threads/Pool.antt =====
-- tools/threadpool/ThreadPool.h and ThreadPool.cpp: the threads of a pool, its owner and its callers,
-- interleaved in any order. A wait for a condition may end at any time, as pthread_cond_wait(3) may, so
-- signals need no state. Tasks are known by their names.
pub mod Invariant
pub mod Safety
pub mod Join
use tools_cxx.Prelude.{
  ℕ, ◌+◌, ◌<◌, ◌≤◌, ◌≡◌, ◌≢◌, Bool, true, false, Option, none, some, List, [], ◌∷◌, ◌++◌, update_at,
  replicate,
}
use tools_cxx.Prelude.Int.{ℤ, pos, ◌+ℤ◌, ◌-ℤ◌}
use tools_cxx.Threads.Latch.{CountDownLatch, make_latch, get_count, count_down, passes}

-- Where a thread stands in `thread_func`. From `testing` to `taking` it holds the mutex.
pub data Pc : Type 0 where
  absent locking : Pc
  testing : Pc  -- reads `m_stop` at the head of the inner loop
  looking : Pc  -- reads whether the queue is empty
  counting : Pc  -- reads the latch
  counting_down entering_wait : Pc
  waiting : Pc
  leaving : Pc  -- reads `m_stop` behind the inner loop
  taking : Pc  -- takes the front of the queue
  beginning running : ℕ → Pc
  ended : Pc

-- Where the owner of the pool stands in `start` and `stop`; `undefined` is the use of a handle that is
-- none.
pub data Owner : Type 0 where
  creating : ℕ → Owner
  awaiting serving setting : Owner
  joining : List (Option ℕ) → Owner
  stopped undefined : Owner

-- `called` and `taken` are the tasks ever put into the queue and ever taken out of it, in order.
pub record ThreadPool : Type 0 where
  pub thread_num : ℕ
  pub stop : Bool
  pub running_num : ℤ
  pub latch : CountDownLatch
  pub threads : List (Option ℕ)
  pub mutex : Option ℕ
  pub task_que : List ℕ
  pub called : List ℕ
  pub taken : List ℕ
  pub pc : ℕ → Pc
  pub owner : Owner

-- The constructor; the vector of handles begins with as many handles of no thread.
unfoldable pub make_pool : ℕ → ThreadPool
make_pool n = record {
  thread_num = n;
  stop = false;
  running_num = pos 0;
  latch = make_latch (pos n);
  threads = replicate n none;
  mutex = none;
  task_que = [];
  called = [];
  taken = [];
  pc = λ _. absent;
  owner = creating 0;
}

abbrev pub at_pc : ThreadPool → ℕ → Pc → ThreadPool
at_pc s i p = record s { pc = update_at s.pc i p }

-- One step of `thread_func` in thread `i`.
pub data Move (s : ThreadPool) (i : ℕ) : Pc → ThreadPool → Type 0 where
  lock : s.mutex ≡ none → Move s i locking (record (at_pc s i testing) { mutex = some i })
  see_stop : s.stop ≡ true → Move s i testing (at_pc s i leaving)
  see_running : s.stop ≡ false → Move s i testing (at_pc s i looking)
  see_empty : s.task_que ≡ [] → Move s i looking (at_pc s i counting)
  see_task : s.task_que ≢ [] → Move s i looking (at_pc s i leaving)
  see_count : get_count s.latch ≢ pos 0 → Move s i counting (at_pc s i counting_down)
  see_zero : get_count s.latch ≡ pos 0 → Move s i counting (at_pc s i entering_wait)
  count_one :
      Move s i counting_down (record (at_pc s i entering_wait) { latch = count_down s.latch })
  wait : Move s i entering_wait (record (at_pc s i waiting) { mutex = none })
  wake : Move s i waiting (at_pc s i locking)
  leave : s.stop ≡ true → Move s i leaving (record (at_pc s i ended) { mutex = none })
  stay : s.stop ≡ false → Move s i leaving (at_pc s i taking)
  take :
      (t : ℕ) (rest : List ℕ)
      → s.task_que ≡ t ∷ rest
      → Move s i taking (record (at_pc s i (beginning t)) {
        task_que = rest;
        taken = s.taken ++ t ∷ [];
        mutex = none;
      })
  begin :
      (t : ℕ)
      → Move s i
          (beginning t)
          (record (at_pc s i (running t)) { running_num = s.running_num +ℤ pos 1 })
  finish :
      (t : ℕ)
      → Move s i (running t) (record (at_pc s i locking) { running_num = s.running_num -ℤ pos 1 })

-- One step of `start` and `stop`.
pub data OwnerMove (s : ThreadPool) : Owner → ThreadPool → Type 0 where
  create :
      (i : ℕ)
      → i < s.thread_num
      → OwnerMove s (creating i) (record (at_pc s i locking) {
        threads = s.threads ++ some i ∷ [];
        owner = creating (i + 1);
      })
  created : (i : ℕ) → s.thread_num ≤ i → OwnerMove s (creating i) (record s { owner = awaiting })
  started : passes s.latch ≡ true → OwnerMove s awaiting (record s { owner = serving })
  already : s.stop ≡ true → OwnerMove s serving (record s { owner = serving })
  begin_stop : s.stop ≡ false → OwnerMove s serving (record s { owner = setting })
  set_stop : OwnerMove s setting (record s { stop = true; owner = joining s.threads })
  join :
      (i : ℕ) (rest : List (Option ℕ))
      → s.pc i ≡ ended
      → OwnerMove s (joining (some i ∷ rest)) (record s { owner = joining rest })
  join_none :
      (rest : List (Option ℕ))
      → OwnerMove s (joining (none ∷ rest)) (record s { owner = undefined })
  joined : OwnerMove s (joining []) (record s { threads = []; owner = stopped })

-- `call` holds the mutex while it touches the queue, and only then.
unfoldable pub call_task : ThreadPool → ℕ → ThreadPool
call_task s t = record s { task_que = s.task_que ++ t ∷ []; called = s.called ++ t ∷ [] }

pub data Step (s : ThreadPool) : ThreadPool → Type 0 where
  moves : (i : ℕ) (next : ThreadPool) → Move s i (s.pc i) next → Step s next
  owner_moves : (next : ThreadPool) → OwnerMove s s.owner next → Step s next
  calls : (t : ℕ) → s.mutex ≡ none → Step s (call_task s t)

pub data Reach (n : ℕ) : ThreadPool → Type 0 where
  start : Reach n (make_pool n)
  later : (s next : ThreadPool) → Reach n s → Step s next → Reach n next
