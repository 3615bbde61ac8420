-- ===== src/Coroutine/Thread/Ending.antt =====
-- What becomes of a call of `quit`.
use tools_cxx.Prelude.{
  inl, inr, ◌⊎◌, ◌≡◌, ◌≢◌, refl, sym, subst, Bool, true, ℕ, zero, suc, ◌+◌, ◌*◌, ◌≤◌, ◌<◌, arith,
}
use tools_cxx.Coroutine.Thread.{
  ThreadPc, unborn, constructing, publishing, notifying, resetting, testing, visiting, running,
  handling_tasks, ended, joining, gone, CoSchedulerThread, ThreadMove, go_on, leave, pass,
  give_control, compute, quit_inside, yield, finish, visited, handle_tasks, OwnerMove, join, runs,
  acts, Reaches, stays, goes,
}

-- The thread is in the loop of `start` or has left it.
pub data IsLooping : ThreadPc → Type 0 where
  tests : IsLooping testing
  visits : (n : ℕ) → IsLooping (visiting n)
  hands_over : (n : ℕ) → IsLooping (running n)
  handles : IsLooping handling_tasks
  has_ended : IsLooping ended

-- The entries of the store that a visit has not yet left behind.
abbrev pub unvisited : ThreadPc → ℕ
unvisited (visiting n) = n
unvisited (running n) = suc n
unvisited t = 0

-- The turns that the thread has still to take once the flag is set.
abbrev left : ThreadPc → ℕ
left testing = 1
left handling_tasks = 2
left (visiting n) = 2 * n + 3
left (running n) = 2 * n + 4
left t = 0

-- A run of the thread by itself, in which it gets to another place so many times. The steps that a
-- coroutine takes while it keeps control do not count.
pub data RunsAlone (others : Bool) : ℕ → CoSchedulerThread → CoSchedulerThread → Type 0 where
  rests : (s : CoSchedulerThread) → RunsAlone others 0 s s
  moves :
      (n : ℕ) (s mid next : CoSchedulerThread)
      → ThreadMove others s s.thread mid
      → mid.thread ≢ s.thread
      → RunsAlone others n mid next
      → RunsAlone others (suc n) s next
  keeps :
      (n : ℕ) (s mid next : CoSchedulerThread)
      → ThreadMove others s s.thread mid
      → mid.thread ≡ s.thread
      → RunsAlone others n mid next
      → RunsAlone others n s next

-- The state of a thread that has been told to quit while the owner joins.
pub record IsTold (s : CoSchedulerThread) (t : ThreadPc) : Type 0 where
  pub quit : s.quit ≡ true
  pub looping : IsLooping t
  pub owner : s.owner ≡ joining

module _ (others : Bool) where
  ThreadMove-IsTold :
      (s : CoSchedulerThread) (t : ThreadPc) (next : CoSchedulerThread)
      → IsTold s t
      → IsLooping t
      → ThreadMove others s t next
      → IsTold next next.thread × ((next.thread ≡ t) ⊎ (left next.thread < left t))
  ThreadMove-IsTold s t next i tests (go_on e) = absurd (cc (i.quit, e))
  ThreadMove-IsTold s t next i tests (leave e) =
      (record { quit = i.quit; looping = has_ended; owner = i.owner }, inr (omega arith))
  ThreadMove-IsTold s t next i (visits _) (pass n) =
      (record { quit = i.quit; looping = visits n; owner = i.owner }, inr (omega arith))
  ThreadMove-IsTold s t next i (visits _) (give_control n) =
      (record { quit = i.quit; looping = hands_over n; owner = i.owner }, inr (omega arith))
  ThreadMove-IsTold s t next i (visits _) visited =
      (record { quit = i.quit; looping = handles; owner = i.owner }, inr (omega arith))
  ThreadMove-IsTold s t next i (hands_over _) (compute n) =
      (record { quit = i.quit; looping = hands_over n; owner = i.owner }, inl refl)
  ThreadMove-IsTold s t next i (hands_over _) (quit_inside n e) =
      (record { quit = refl; looping = hands_over n; owner = i.owner }, inl refl)
  ThreadMove-IsTold s t next i (hands_over _) (yield n) =
      (record { quit = i.quit; looping = visits n; owner = i.owner }, inr (omega arith))
  ThreadMove-IsTold s t next i (hands_over _) (finish n) =
      (record { quit = i.quit; looping = visits n; owner = i.owner }, inr (omega arith))
  ThreadMove-IsTold s t next i handles (handle_tasks tasks) =
      (record { quit = i.quit; looping = tests; owner = i.owner }, inr (omega arith))
  ThreadMove-IsTold s _ next i has_ended move = elim move [ ]

  RunsAlone-bound :
      (k : ℕ) (s next : CoSchedulerThread)
      → IsTold s s.thread
      → RunsAlone others k s next
      → (k ≤ left s.thread) × IsTold next next.thread
  RunsAlone-bound k s next i (rests _) = (omega arith, i)
  RunsAlone-bound k s next i (moves j _ mid _ move ne rest) =
      let (told, way) = ThreadMove-IsTold s s.thread mid i i.looping move in
      let (bound, out) = RunsAlone-bound j mid next told rest in
      (elim way [ inl e ↦ absurd (ne e) | inr less ↦ omega (arith, bound, less) ], out)
  RunsAlone-bound k s next i (keeps _ _ mid _ move e rest) =
      let (told, way) = ThreadMove-IsTold s s.thread mid i i.looping move in
      let (bound, out) = RunsAlone-bound k mid next told rest in
      (subst (λ t. k ≤ left t) e bound, out)

  left-unvisited : (t : ThreadPc) → left t ≤ 2 * unvisited t + 3
  left-unvisited unborn = omega arith
  left-unvisited constructing = omega arith
  left-unvisited publishing = omega arith
  left-unvisited notifying = omega arith
  left-unvisited resetting = omega arith
  left-unvisited testing = omega arith
  left-unvisited handling_tasks = omega arith
  left-unvisited ended = omega arith
  left-unvisited (visiting n) = omega arith
  left-unvisited (running n) = omega arith

  -- The join can return.
  abbrev CanReturn : CoSchedulerThread → Type 0
  CanReturn s = (next : CoSchedulerThread) × Reaches others s next × (next.owner ≡ gone)

  joined : (s : CoSchedulerThread) → s.thread ≡ ended → s.owner ≡ joining → CanReturn s
  joined s e o = (
    record s { owner = gone },
    goes s (record s { owner = gone }) _
        (acts _ (subst (λ x. OwnerMove others s x (record s { owner = gone })) (sym o) (join e)))
        (stays _),
    refl,
  )

  -- One more step of the thread in front.
  first_runs :
      (s mid : CoSchedulerThread) (t : ThreadPc)
      → s.thread ≡ t
      → ThreadMove others s t mid
      → CanReturn mid
      → CanReturn s
  first_runs s mid t e move (next, reached, o) = (
    next,
    goes s mid next (runs mid (subst (λ x. ThreadMove others s x mid) (sym e) move)) reached,
    o,
  )

  tested-CanReturn :
      (s : CoSchedulerThread) → s.quit ≡ true → s.thread ≡ testing → s.owner ≡ joining → CanReturn s
  tested-CanReturn s q e o =
      first_runs s (record s { thread = ended }) testing e (leave q)
        (joined (record s { thread = ended }) refl o)

  handled-CanReturn :
      (s : CoSchedulerThread)
      → s.quit ≡ true
      → s.thread ≡ handling_tasks
      → s.owner ≡ joining
      → CanReturn s
  handled-CanReturn s q e o =
      let next : CoSchedulerThread = record s { stored = s.stored + 0; thread = testing } in
      first_runs s next handling_tasks e (handle_tasks 0) (tested-CanReturn next q refl o)

  -- The coroutine that has control gives it back.
  handed_back :
      (n : ℕ) (s : CoSchedulerThread)
      → s.thread ≡ running n
      → CanReturn (record s { thread = visiting n })
      → CanReturn s
  handed_back n s e there =
      first_runs s (record s { thread = visiting n }) (running n) e (yield n) there

  visited-CanReturn :
      (n : ℕ) (s : CoSchedulerThread)
      → s.quit ≡ true
      → s.thread ≡ visiting n
      → s.owner ≡ joining
      → CanReturn s
  visited-CanReturn zero s q e o =
      let next : CoSchedulerThread = record s { thread = handling_tasks } in
      first_runs s next (visiting 0) e visited (handled-CanReturn next q refl o)
  visited-CanReturn (suc n) s q e o =
      let one : CoSchedulerThread = record s { thread = running n } in
      first_runs s one (visiting (suc n)) e (give_control n)
        (handed_back n one refl (visited-CanReturn n (record s { thread = visiting n }) q refl o))

  -- Wherever the thread stands, it can leave the loop.
  told-CanReturn :
      (s : CoSchedulerThread) (t : ThreadPc) → s.thread ≡ t → IsTold s t → IsLooping t → CanReturn s
  told-CanReturn s t e i has_ended = joined s e i.owner
  told-CanReturn s t e i tests = tested-CanReturn s i.quit e i.owner
  told-CanReturn s t e i handles = handled-CanReturn s i.quit e i.owner
  told-CanReturn s t e i (visits n) = visited-CanReturn n s i.quit e i.owner
  told-CanReturn s t e i (hands_over n) =
      handed_back n s e (visited-CanReturn n (record s { thread = visiting n }) i.quit refl i.owner)

  -- When the destructor joins, the flag is set and the thread is in the loop of `start` or has left it,
  -- then in every run of the thread it changes its place at most twice for each entry of the store that the
  -- visit has still to leave behind, and 3 times more; the steps that a coroutine takes while it keeps
  -- control are not counted and not bounded. From wherever such a run has led there are steps after which
  -- the join has returned, in which each coroutine that has or gets control gives it back.
  pub quit-heard :
      (s : CoSchedulerThread)
      → s.quit ≡ true
      → IsLooping s.thread
      → s.owner ≡ joining
      → (k : ℕ) (mid : CoSchedulerThread) → RunsAlone others k s mid
      → (k ≤ 2 * unvisited s.thread + 3)
        × (next : CoSchedulerThread) × Reaches others mid next
        × (next.owner ≡ gone)
  quit-heard s q looping o k mid run =
      let (bound, told) =
        RunsAlone-bound k s mid (record { quit = q; looping = looping; owner = o }) run in
      let (next, reached, out) = told-CanReturn mid mid.thread refl told told.looping in
      (omega (arith, bound, left-unvisited s.thread), next, reached, out)
