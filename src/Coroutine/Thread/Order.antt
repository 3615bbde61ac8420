-- ===== src/Coroutine/Thread/Order.antt =====
-- The handshake of `start`, and what the destructor finds.
use tools_cxx.Prelude.{ℕ, ◌⊎◌, inl, inr, ◌≡◌, ◌≢◌, refl, sym, ◌∙◌, subst, true, false}
use tools_cxx.Coroutine.Thread.{
  ThreadPc, unborn, constructing, publishing, notifying, resetting, testing, visiting, running,
  handling_tasks, ended, OwnerPc, constructed, waiting, returned, quitting, joining, gone,
  CoSchedulerThread, make_thread, ThreadMove, construct, publish, notify, reset, go_on, leave, pass,
  give_control, compute, quit_inside, yield, finish, visited, handle_tasks, OwnerMove, create, see,
  quit_early, destroy, destroy_unstarted, set_quit, join, Step, runs, acts, Reaches, stays, goes,
}

-- The scheduler is not yet published, or it is, and `start` has not returned.
data IsStarting : ThreadPc → Type 0 where
  constructs : IsStarting constructing
  publishes : IsStarting publishing

pub data IsWorking : ThreadPc → Type 0 where
  notifies : IsWorking notifying
  resets : IsWorking resetting
  tests : IsWorking testing
  visits : (n : ℕ) → IsWorking (visiting n)
  hands_over : (n : ℕ) → IsWorking (running n)
  handles : IsWorking handling_tasks

working-ended : (t : ThreadPc) → IsWorking t → t ≢ ended
working-ended t notifies e = cc e
working-ended t resets e = cc e
working-ended t tests e = cc e
working-ended t (visits n) e = cc e
working-ended t (hands_over n) e = cc e
working-ended t handles e = cc e

-- The owner has not yet told the scheduler to quit.
data IsBefore : OwnerPc → Type 0 where
  waits : IsBefore waiting
  has_returned : IsBefore returned
  quits : IsBefore quitting

data IsOrderly (s : CoSchedulerThread) : ThreadPc → OwnerPc → Type 0 where
  idle : s.published ≡ false → s.quit ≡ false → IsOrderly s unborn constructed
  dropped : s.published ≡ false → IsOrderly s unborn gone
  begins :
      (t : ThreadPc) → s.published ≡ false → s.quit ≡ false → IsStarting t → IsOrderly s t waiting
  works :
      (t : ThreadPc) (o : OwnerPc)
      → s.published ≡ true
      → s.quit ≡ false
      → IsWorking t
      → IsBefore o
      → IsOrderly s t o
  told : (t : ThreadPc) → s.published ≡ true → IsWorking t → IsOrderly s t joining
  stopped : s.published ≡ true → IsOrderly s ended joining
  over : s.published ≡ true → IsOrderly s ended gone

ThreadMove-IsOrderly :
    (s : CoSchedulerThread) (t : ThreadPc) (o : OwnerPc) (next : CoSchedulerThread)
    → IsOrderly s t o
    → ThreadMove false s t next
    → IsOrderly next next.thread o × (next.owner ≡ s.owner)
ThreadMove-IsOrderly s t o next (begins _ p q constructs) construct =
    (begins publishing p refl publishes, refl)
ThreadMove-IsOrderly s t o next (begins _ p q publishes) publish =
    (works notifying waiting refl q notifies waits, refl)
ThreadMove-IsOrderly s t o next (works _ _ p q notifies b) notify =
    (works resetting o p q resets b, refl)
ThreadMove-IsOrderly s t o next (works _ _ p q resets b) reset =
    (works testing o p refl tests b, refl)
ThreadMove-IsOrderly s t o next (works _ _ p q tests b) (go_on e) =
    (works (visiting s.stored) o p q (visits s.stored) b, refl)
ThreadMove-IsOrderly s t o next (told _ p tests) (go_on e) =
    (told (visiting s.stored) p (visits s.stored), refl)
ThreadMove-IsOrderly s t o next (works _ _ p q tests b) (leave e) = absurd (cc (q, e))
ThreadMove-IsOrderly s t o next (told _ p tests) (leave e) = (stopped p, refl)
ThreadMove-IsOrderly s t o next (works _ _ p q (visits _) b) (pass n) =
    (works (visiting n) o p q (visits n) b, refl)
ThreadMove-IsOrderly s t o next (told _ p (visits _)) (pass n) =
    (told (visiting n) p (visits n), refl)
ThreadMove-IsOrderly s t o next (works _ _ p q (visits _) b) (give_control n) =
    (works (running n) o p q (hands_over n) b, refl)
ThreadMove-IsOrderly s t o next (told _ p (visits _)) (give_control n) =
    (told (running n) p (hands_over n), refl)
ThreadMove-IsOrderly s t o next (works _ _ p q (hands_over _) b) (compute n) =
    (works (running n) o p q (hands_over n) b, refl)
ThreadMove-IsOrderly s t o next (told _ p (hands_over _)) (compute n) =
    (told (running n) p (hands_over n), refl)
ThreadMove-IsOrderly s t o next (works _ _ p q (hands_over _) b) (quit_inside n e) = absurd (cc e)
ThreadMove-IsOrderly s t o next (told _ p (hands_over _)) (quit_inside n e) = absurd (cc e)
ThreadMove-IsOrderly s t o next (works _ _ p q (hands_over _) b) (yield n) =
    (works (visiting n) o p q (visits n) b, refl)
ThreadMove-IsOrderly s t o next (told _ p (hands_over _)) (yield n) =
    (told (visiting n) p (visits n), refl)
ThreadMove-IsOrderly s t o next (works _ _ p q (hands_over _) b) (finish n) =
    (works (visiting n) o p q (visits n) b, refl)
ThreadMove-IsOrderly s t o next (told _ p (hands_over _)) (finish n) =
    (told (visiting n) p (visits n), refl)
ThreadMove-IsOrderly s t o next (works _ _ p q (visits _) b) visited =
    (works handling_tasks o p q handles b, refl)
ThreadMove-IsOrderly s t o next (told _ p (visits _)) visited =
    (told handling_tasks p handles, refl)
ThreadMove-IsOrderly s t o next (works _ _ p q handles b) (handle_tasks tasks) =
    (works testing o p q tests b, refl)
ThreadMove-IsOrderly s t o next (told _ p handles) (handle_tasks tasks) =
    (told testing p tests, refl)
ThreadMove-IsOrderly s t o next (told _ p notifies) notify = (told resetting p resets, refl)
ThreadMove-IsOrderly s t o next (told _ p resets) reset = (told testing p tests, refl)
ThreadMove-IsOrderly s _ _ next (idle _ _) move = elim move [ ]
ThreadMove-IsOrderly s _ _ next (dropped _) move = elim move [ ]
ThreadMove-IsOrderly s _ _ next (stopped _) move = elim move [ ]
ThreadMove-IsOrderly s _ _ next (over _) move = elim move [ ]

OwnerMove-IsOrderly :
    (s : CoSchedulerThread) (t : ThreadPc) (o : OwnerPc) (next : CoSchedulerThread)
    → IsOrderly s t o
    → s.thread ≡ t
    → OwnerMove false s o next
    → IsOrderly next next.thread next.owner
OwnerMove-IsOrderly s t o next (idle p q) e create = begins constructing p q constructs
OwnerMove-IsOrderly s t o next (idle p q) e (destroy_unstarted h) =
    subst (λ x. IsOrderly next x gone) (sym e) (dropped p)
OwnerMove-IsOrderly s t o next (begins _ p q b) e (see h) = absurd (cc (p, h))
OwnerMove-IsOrderly s t o next (works _ _ p q w waits) e (see h) =
    subst (λ x. IsOrderly next x returned) (sym e) (works t returned p q w has_returned)
OwnerMove-IsOrderly s t o next (works _ _ p q w has_returned) e (quit_early h) = absurd (cc h)
OwnerMove-IsOrderly s t o next (works _ _ p q w has_returned) e (destroy h) =
    subst (λ x. IsOrderly next x quitting) (sym e) (works t quitting p q w quits)
OwnerMove-IsOrderly s t o next (works _ _ p q w quits) e set_quit =
    subst (λ x. IsOrderly next x joining) (sym e) (told t p w)
OwnerMove-IsOrderly s t o next (told _ p w) e (join h) = absurd (working-ended t w (sym e ∙ h))
OwnerMove-IsOrderly s t o next (stopped p) e (join h) =
    subst (λ x. IsOrderly next x gone) (sym e) (over p)
OwnerMove-IsOrderly s _ _ next (dropped _) e move = elim move [ ]
OwnerMove-IsOrderly s _ _ next (over _) e move = elim move [ ]

Step-IsOrderly :
    (s next : CoSchedulerThread)
    → IsOrderly s s.thread s.owner
    → Step false s next
    → IsOrderly next next.thread next.owner
Step-IsOrderly s next is (runs _ move) =
    let (kept, same) = ThreadMove-IsOrderly s s.thread s.owner next is move in
    subst (IsOrderly next next.thread) (sym same) kept
Step-IsOrderly s next is (acts _ move) = OwnerMove-IsOrderly s s.thread s.owner next is refl move

Reaches-IsOrderly :
    (s next : CoSchedulerThread)
    → IsOrderly s s.thread s.owner
    → Reaches false s next
    → IsOrderly next next.thread next.owner
Reaches-IsOrderly s next is (stays _) = is
Reaches-IsOrderly s next is (goes _ mid _ step rest) =
    Reaches-IsOrderly mid next (Step-IsOrderly s mid is step) rest

-- What the owner finds where it stands.
abbrev pub Finds : CoSchedulerThread → OwnerPc → Type 0
Finds s constructed = s.published ≡ false
Finds s waiting = s.thread ≢ ended
Finds s returned = (s.published ≡ true) × IsWorking s.thread
Finds s quitting = (s.published ≡ true) × IsWorking s.thread
Finds s joining = IsWorking s.thread ⊎ (s.thread ≡ ended)
Finds s gone = (s.thread ≡ unborn) ⊎ (s.thread ≡ ended)

orderly-Finds :
    (s : CoSchedulerThread) (t : ThreadPc) (o : OwnerPc)
    → s.thread ≡ t
    → IsOrderly s t o
    → Finds s o
orderly-Finds s t o e (idle p q) = p
orderly-Finds s t o e (dropped p) = inl e
orderly-Finds s t o e (begins _ p q constructs) = λ h. cc (e, h)
orderly-Finds s t o e (begins _ p q publishes) = λ h. cc (e, h)
orderly-Finds s t o e (works _ _ p q w waits) = λ h. working-ended t w (sym e ∙ h)
orderly-Finds s t o e (works _ _ p q w has_returned) = (p, subst IsWorking (sym e) w)
orderly-Finds s t o e (works _ _ p q w quits) = (p, subst IsWorking (sym e) w)
orderly-Finds s t o e (told _ p w) = inl (subst IsWorking (sym e) w)
orderly-Finds s t o e (stopped p) = inr e
orderly-Finds s t o e (over p) = inr e

-- In every interleaving of the new thread and its owner in which nothing but the destructor calls `quit`,
-- the scheduler that `start` returns is published and works, and so it does where the destructor calls
-- `quit` of it; and once the destructor is through, the thread has ended or was never started.
pub Reaches-Finds : (s : CoSchedulerThread) → Reaches false make_thread s → Finds s s.owner
unfolding make_thread
Reaches-Finds s reached =
    orderly-Finds s s.thread s.owner refl (Reaches-IsOrderly make_thread s (idle refl refl) reached)
