-- ===== src/Coroutine/Thread/Tests.antt =====
-- An owner that starts its scheduler, and one that destroys it while a round is on.
use tools_cxx.Prelude.{◌≡◌, ◌≤◌, refl, true, false}
use tools_cxx.Coroutine.Thread.{
  notifying, visiting, running, compute, yield, returned, joining, gone, make_thread,
  CoSchedulerThread, construct, publish, create, see, runs, acts, Reaches, stays, goes,
}
use tools_cxx.Coroutine.Thread.Order.{Finds, Reaches-Finds}
use tools_cxx.Coroutine.Thread.Ending.{RunsAlone, rests, moves, keeps, hands_over, quit-heard}

abbrev started : CoSchedulerThread
started = record {
  published = true;
  quit = false;
  stored = 0;
  thread = notifying;
  owner = returned;
}

started-Reaches : Reaches false make_thread started
unfolding make_thread
started-Reaches = goes _ _ _ (acts _ create) (
    goes _ _ _ (runs _ construct)
      (goes _ _ _ (runs _ publish) (goes _ _ started (acts started (see refl)) (stays started))))

Reaches-Finds_example : Finds started returned
Reaches-Finds_example = Reaches-Finds started started-Reaches

-- A coroutine has control, and two entries are behind its own.
abbrev told : CoSchedulerThread
told = record { published = true; quit = true; stored = 3; thread = running 2; owner = joining }

abbrev yielded : CoSchedulerThread
yielded = record told { thread = visiting 2 }

yielded-RunsAlone : RunsAlone true 1 told yielded
yielded-RunsAlone =
    keeps 1 told told yielded (compute 2) refl
      (moves 0 told yielded yielded (yield 2) (λ e. cc e) (rests yielded))

quit-heard_example :
    (1 ≤ 9) × (next : CoSchedulerThread) × Reaches true yielded next × (next.owner ≡ gone)
quit-heard_example = quit-heard true told refl (hands_over 2) refl 1 yielded yielded-RunsAlone
