-- ===== src/Timer/Thread/Tests.antt =====
-- An owner that destroys its scheduler at once.
use tools_cxx.Prelude.{inr, ◌≢◌, refl, true, false}
use tools_cxx.Timer.Thread.{
  ended, resetting, handling_pending, joining, gone, make_thread, construct, publish, notify, reset,
  go_on, poll, create, see, destroy, set_quit, wake, SchedulerThread, runs, acts, Reaches, stays,
  goes,
}
use tools_cxx.Timer.Thread.Quit.{quit-lost}

abbrev hurried : SchedulerThread
hurried = record { published = true; quit = true; thread = resetting; owner = joining }

abbrev turning : SchedulerThread
turning = record { published = true; quit = false; thread = handling_pending; owner = joining }

-- The state is reached from the constructor.
hurried-Reaches : Reaches make_thread hurried
unfolding make_thread
hurried-Reaches = goes _ _ _ (acts _ create) (
    goes _ _ _ (runs _ construct) (
      goes _ _ _ (runs _ publish) (
        goes _ _ _ (runs _ notify) (
          goes _ _ _ (acts _ (see refl)) (
            goes _ _ _ (acts _ (destroy refl)) (
              goes _ _ _ (acts _ set_quit)
                (goes _ _ hurried (acts hurried wake) (stays hurried))))))))

quit-lost_example : (turning.thread ≢ ended) × (turning.owner ≢ gone)
quit-lost_example = quit-lost hurried turning (inr refl) refl (
    goes _ _ _ (runs _ reset)
      (goes _ _ _ (runs _ (go_on refl)) (goes _ _ turning (runs turning poll) (stays turning))))
