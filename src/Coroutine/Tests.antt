-- ===== src/Coroutine/Tests.antt =====
-- A task that creates another, yields and returns.
use tools_cxx.Prelude.{ℕ, zero, suc, ◌≡◌, ◌⊎◌, refl, arith, false, true, none, some, [], ◌∷◌}
use tools_cxx.Coroutine.Scheduler.{
  creating, Body, returns, yields, CoScheduler, new_coroutine, find, round, loop,
}
use tools_cxx.Coroutine.Scheduler.Rounds.{IsValid, IsRound, round-IsRound}
use tools_cxx.Coroutine.Scheduler.Ends.{loop-ends}

abbrev two_tasks : ℕ → Body
two_tasks zero = yields (creating 1 ∷ []) (returns [])
two_tasks (suc n) = returns []

abbrev one_waiting : CoScheduler
one_waiting = record {
  quit = false;
  co_num = 1;
  cur_co = none;
  co_store = record { key = 0; co = new_coroutine two_tasks 0 } ∷ [];
  pending = [];
}

one_waiting-IsValid : IsValid two_tasks one_waiting
one_waiting-IsValid = record { ascending = (tt, tt); below = (omega arith, tt); waiting = (tt, tt) }

round-IsRound_example :
    (next : CoScheduler) × (round two_tasks one_waiting (creating 5 ∷ []) ≡ some next)
    × IsRound two_tasks one_waiting (creating 5 ∷ []) next
round-IsRound_example = round-IsRound two_tasks one_waiting (creating 5 ∷ []) one_waiting-IsValid

loop-ends_example :
    (next : CoScheduler) × (loop two_tasks one_waiting ([] ∷ [] ∷ []) ≡ some next)
    × ((next.quit ≡ true) ⊎ (find next.co_store 0 ≡ none))
loop-ends_example =
    loop-ends two_tasks one_waiting ([] ∷ [] ∷ []) 0 (new_coroutine two_tasks 0) one_waiting-IsValid
      refl (omega arith)
