-- ===== src/Timer/Thread/Quit.antt =====
-- A call of `quit` that comes before the scheduler's loop.
use tools_cxx.Prelude.{◌⊎◌, inl, inr, ◌≡◌, ◌≢◌, refl, sym, subst, Bool, false}
use tools_cxx.Timer.Thread.{
  ThreadPc, notifying, resetting, testing, polling, handling_pending, ended, OwnerPc, waking,
  joining, gone, SchedulerThread, ThreadMove, notify, reset, go_on, leave, poll, handle_pending,
  OwnerMove, wake, join, Step, runs, acts, Reaches, stays, goes,
}

-- The thread is before the reset of the flag, or in its loop with the flag reset.
data IsUnheard (quit : Bool) : ThreadPc → Type 0 where
  early : IsUnheard quit notifying
  ready : IsUnheard quit resetting
  tests : quit ≡ false → IsUnheard quit testing
  polls : quit ≡ false → IsUnheard quit polling
  handles : quit ≡ false → IsUnheard quit handling_pending

-- The owner has set the flag and does not set it again.
data HasQuit : OwnerPc → Type 0 where
  wakes : HasQuit waking
  joins : HasQuit joining

record IsLost (s : SchedulerThread) : Type 0 where
  unheard : IsUnheard s.quit s.thread
  has_quit : HasQuit s.owner

ThreadMove-IsLost :
    (s : SchedulerThread) (t : ThreadPc) (next : SchedulerThread)
    → IsUnheard s.quit t
    → ThreadMove s t next
    → IsUnheard next.quit next.thread × (next.owner ≡ s.owner)
ThreadMove-IsLost s t next early notify = (ready, refl)
ThreadMove-IsLost s t next ready reset = (tests refl, refl)
ThreadMove-IsLost s t next (tests e) (go_on h) = (polls e, refl)
ThreadMove-IsLost s t next (tests e) (leave h) = absurd (cc (e, h))
ThreadMove-IsLost s t next (polls e) poll = (handles e, refl)
ThreadMove-IsLost s t next (handles e) handle_pending = (tests e, refl)

unheard-ended : {quit : Bool} {t : ThreadPc} → IsUnheard quit t → t ≢ ended
unheard-ended early e = cc e
unheard-ended ready e = cc e
unheard-ended (tests h) e = cc e
unheard-ended (polls h) e = cc e
unheard-ended (handles h) e = cc e

OwnerMove-IsLost :
    (s : SchedulerThread) (o : OwnerPc) (next : SchedulerThread)
    → IsUnheard s.quit s.thread
    → HasQuit o
    → OwnerMove s o next
    → IsLost next
OwnerMove-IsLost s o next u wakes wake = record { unheard = u; has_quit = joins }
OwnerMove-IsLost s o next u joins (join e) = absurd (unheard-ended u e)

Step-IsLost : (s next : SchedulerThread) → IsLost s → Step s next → IsLost next
Step-IsLost s next v (runs _ m) =
    let (unheard, same) = ThreadMove-IsLost s s.thread next v.unheard m in
    record { unheard = unheard; has_quit = subst HasQuit (sym same) v.has_quit }
Step-IsLost s next v (acts _ m) = OwnerMove-IsLost s s.owner next v.unheard v.has_quit m

Reaches-IsLost : (s next : SchedulerThread) → IsLost s → Reaches s next → IsLost next
Reaches-IsLost s next v (stays _) = v
Reaches-IsLost s next v (goes _ mid _ step rest) =
    Reaches-IsLost mid next (Step-IsLost s mid v step) rest

HasQuit-gone : {o : OwnerPc} → HasQuit o → o ≢ gone
HasQuit-gone wakes e = cc e
HasQuit-gone joins e = cc e

-- When the owner has called `quit` and the thread has published the scheduler but not yet reset the
-- flag in `start`, then, whatever steps follow, the thread does not end and the join does not return.
pub quit-lost :
    (s next : SchedulerThread)
    → (s.thread ≡ notifying) ⊎ (s.thread ≡ resetting)
    → s.owner ≡ joining
    → Reaches s next
    → (next.thread ≢ ended) × (next.owner ≢ gone)
quit-lost s next at past reached =
    let unheard : IsUnheard s.quit s.thread = elim at [
      | inl e ↦ subst (IsUnheard s.quit) (sym e) early
      | inr e ↦ subst (IsUnheard s.quit) (sym e) ready
    ] in
    let before : IsLost s = record {
      unheard = unheard;
      has_quit = subst HasQuit (sym past) joins;
    } in
    let lost = Reaches-IsLost s next before reached in
    (unheard-ended lost.unheard, HasQuit-gone lost.has_quit)
