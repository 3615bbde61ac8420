-- ===== src/Threads/Tests.antt =====
-- A pool of one thread that is given a task, and one that is stopped.
use tools_cxx.Prelude.{refl, arith, true, none, some, [], ◌∷◌}
use tools_cxx.Prelude.Int.{pos}
use tools_cxx.Threads.Latch.{make_latch, get_count, count_down, passes}
use tools_cxx.Threads.Pool.{
  locking, creating, testing, looking, counting, counting_down, entering_wait, waiting, leaving,
  taking, beginning, awaiting, joining, ThreadPool, make_pool, lock, see_running, see_empty,
  see_task, see_count, count_one, wait, stay, take, create, created, started, begin_stop, set_stop,
  call_task, moves, owner_moves, calls, Reach, start, later, at_pc,
}
use tools_cxx.Threads.Pool.Invariant.{IsSafe}
use tools_cxx.Threads.Pool.Safety.{Reach-IsSafe}
use tools_cxx.Threads.Pool.Join.{StartsNull, join-StartsNull}

abbrev one_created : ThreadPool
one_created = record (at_pc (make_pool 1) 0 locking) {
  threads = none ∷ some 0 ∷ [];
  owner = creating 1;
}

one_created-Reach : Reach 1 one_created
unfolding make_pool
one_created-Reach =
    later (make_pool 1) one_created start (owner_moves one_created (create 0 (omega arith)))

abbrev looks_3 : ThreadPool
looks_3 = record (at_pc (at_pc (call_task one_created 3) 0 testing) 0 looking) { mutex = some 0 }

abbrev took_3 : ThreadPool
took_3 = record (at_pc (at_pc (at_pc looks_3 0 leaving) 0 taking) 0 (beginning 3)) {
  task_que = [];
  taken = 3 ∷ [];
  mutex = none;
}

took_3-Reach : Reach 1 took_3
unfolding make_pool call_task
took_3-Reach =
    later _ took_3
      (later _ _
        (later _ _
          (later _ looks_3
            (later _ _ (later _ _ one_created-Reach (calls 3 refl)) (moves 0 _ (lock refl)))
            (moves 0 _ (see_running refl)))
          (moves 0 _ (see_task (λ e. absurd (cc e)))))
        (moves 0 _ (stay refl)))
      (moves 0 _ (take 3 [] refl))

Reach-IsSafe_example : IsSafe took_3
Reach-IsSafe_example = Reach-IsSafe 1 took_3 took_3-Reach

abbrev awaits : ThreadPool
awaits = record one_created { owner = awaiting }

abbrev sleeps : ThreadPool
sleeps =
    record (at_pc
      (at_pc (at_pc (at_pc (at_pc (at_pc awaits 0 testing) 0 looking) 0 counting) 0 counting_down) 0
        entering_wait)
      0 waiting) { latch = make_latch (pos 0) }

sleeps-Reach : Reach 1 sleeps
unfolding make_pool make_latch get_count count_down
sleeps-Reach =
    later _ sleeps
      (later _ _
        (later _ _
          (later _ _
            (later _ _
              (later _ _
                (later _ awaits one_created-Reach (owner_moves _ (created 1 (omega arith))))
                (moves 0 _ (lock refl)))
              (moves 0 _ (see_running refl)))
            (moves 0 _ (see_empty refl)))
          (moves 0 _ (see_count (λ e. absurd (cc e)))))
        (moves 0 _ count_one))
      (moves 0 _ wait)

abbrev stops : ThreadPool
stops = record sleeps { stop = true; owner = joining (none ∷ some 0 ∷ []) }

stops-Reach : Reach 1 stops
unfolding make_pool make_latch passes
stops-Reach =
    later _ stops
      (later _ _ (later _ _ sleeps-Reach (owner_moves _ (started refl)))
        (owner_moves _ (begin_stop refl)))
      (owner_moves _ set_stop)

join-StartsNull_example : StartsNull (none ∷ some 0 ∷ [])
join-StartsNull_example = join-StartsNull 0 stops (none ∷ some 0 ∷ []) stops-Reach refl
