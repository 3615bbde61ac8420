-- ===== src/Threads/Pool/Safety.antt =====
-- What holds in every state of a pool.
use tools_cxx.Prelude.{
  ℕ, ◌≡◌, inl, inr, refl, sym, ap, ◌∙◌, subst, Bool, true, false, Option, none, some, List, [], ◌∷◌,
  ◌++◌, append_assoc, Bool-cases,
}
use tools_cxx.Threads.Latch.{CountDownLatch, get_count, count_down}
use tools_cxx.Threads.Pool.{
  Pc, Owner, locking, testing, looking, counting, counting_down, entering_wait, waiting, leaving,
  taking, beginning, running, ended, ThreadPool, at_pc, Move, lock, see_stop, see_running,
  see_empty, see_task, see_count, see_zero, count_one, wait, wake, leave, stay, take, begin, finish,
  OwnerMove, create, created, started, already, begin_stop, set_stop, join, join_none, joined,
  call_task, moves, owner_moves, calls, Reach, start, later,
}
use tools_cxx.Threads.Pool.Invariant.{
  holds_mutex, Knows, idle, tests, looks, counts, counts_down, enters, leaves, takes, IsSafe,
  make_pool-IsSafe, step-IsSafe, held-IsSafe, goes-IsSafe, leaving_knows, counting_knows,
  positive_down,
}

Move-IsSafe :
    (s : ThreadPool) (i : ℕ) (p : Pc) (next : ThreadPool)
    → IsSafe s
    → s.pc i ≡ p
    → Move s i p next
    → IsSafe next
unfolding count_down get_count
Move-IsSafe s i p next v at (lock unlocked) =
    step-IsSafe v i testing (record (at_pc s i testing) { mutex = some i }) refl v.order v.latch
      (λ _. refl) tests (λ j ne e. absurd (cc (unlocked, v.alone j e))) (λ j ne. v.knows j)
Move-IsSafe s i p next v at (see_stop e) =
    goes-IsSafe v i leaving (λ _. ap holds_mutex at) (leaves (inl e))
Move-IsSafe s i p next v at (see_running e) = goes-IsSafe v i looking (λ _. ap holds_mutex at) looks
Move-IsSafe s i p next v at (see_empty e) = goes-IsSafe v i counting (λ _. ap holds_mutex at) counts
Move-IsSafe s i p next v at (see_task e) =
    goes-IsSafe v i leaving (λ _. ap holds_mutex at) (leaves (inr e))
Move-IsSafe s i p next v at (see_count e) =
    goes-IsSafe v i counting_down (λ _. ap holds_mutex at) (counts_down e)
Move-IsSafe s i p next v at (see_zero e) =
    goes-IsSafe v i entering_wait (λ _. ap holds_mutex at) enters
Move-IsSafe s i p next v at count_one =
    let known = counting_knows (subst (Knows s.stop s.task_que s.latch) at (v.knows i)) in
    held-IsSafe v i entering_wait (record (at_pc s i entering_wait) { latch = count_down s.latch })
      refl (ap holds_mutex at) v.order (positive_down s.latch.count v.latch known)
      (λ _. v.alone i (ap holds_mutex at)) enters
Move-IsSafe s i p next v at wait =
    held-IsSafe v i waiting (record (at_pc s i waiting) { mutex = none }) refl (ap holds_mutex at)
      v.order v.latch (λ e. absurd (cc e)) (idle refl)
Move-IsSafe s i p next v at wake = goes-IsSafe v i locking (λ e. absurd (cc e)) (idle refl)
Move-IsSafe s i p next v at (leave e) =
    held-IsSafe v i ended (record (at_pc s i ended) { mutex = none }) refl (ap holds_mutex at)
      v.order v.latch (λ e. absurd (cc e)) (idle refl)
Move-IsSafe s i p next v at (stay e) =
    goes-IsSafe v i taking (λ _. ap holds_mutex at)
      (takes (elim (leaving_knows (subst (Knows s.stop s.task_que s.latch) at (v.knows i))) [
        | inl stops ↦ absurd (cc (e, stops))
        | inr some_task ↦ some_task
      ]))
Move-IsSafe s i p next v at (take t rest e) =
    held-IsSafe v i (beginning t) _ refl (ap holds_mutex at)
      (v.order ∙ ap (λ q. s.taken ++ q) e ∙ sym (append_assoc s.taken (t ∷ []) rest)) v.latch
      (λ e. absurd (cc e)) (idle refl)
Move-IsSafe s i p next v at (begin t) =
    step-IsSafe v i (running t) _ refl v.order v.latch (λ e. absurd (cc e)) (idle refl)
      (λ j ne e. v.alone j e) (λ j ne. v.knows j)
Move-IsSafe s i p next v at (finish t) =
    step-IsSafe v i locking _ refl v.order v.latch (λ e. absurd (cc e)) (idle refl)
      (λ j ne e. v.alone j e) (λ j ne. v.knows j)

-- The handles and the owner say nothing about what the mutex guards.
same-IsSafe :
    {s : ThreadPool} (v : IsSafe s) (threads : List (Option ℕ)) (owner : Owner)
    → IsSafe (record s { threads = threads; owner = owner })
same-IsSafe v threads owner = record {
  order = v.order;
  alone = v.alone;
  knows = v.knows;
  latch = v.latch;
}

stopped_knows :
    (stop : Bool) (que : List ℕ) (latch : CountDownLatch) (p : Pc)
    → Knows stop que latch p
    → Knows true que latch p
stopped_knows stop que latch p (idle e) = idle e
stopped_knows stop que latch p tests = tests
stopped_knows stop que latch p looks = looks
stopped_knows stop que latch p counts = counts
stopped_knows stop que latch p (counts_down h) = counts_down h
stopped_knows stop que latch p enters = enters
stopped_knows stop que latch p (leaves h) = leaves (inl refl)
stopped_knows stop que latch p (takes h) = takes h

OwnerMove-IsSafe :
    (s : ThreadPool) (o : Owner) (next : ThreadPool) → IsSafe s → OwnerMove s o next → IsSafe next
OwnerMove-IsSafe s o next v (create i h) =
    same-IsSafe (goes-IsSafe v i locking (λ e. absurd (cc e)) (idle refl)) _ _
OwnerMove-IsSafe s o next v (created i h) = same-IsSafe v s.threads _
OwnerMove-IsSafe s o next v (started e) = same-IsSafe v s.threads _
OwnerMove-IsSafe s o next v (already e) = same-IsSafe v s.threads _
OwnerMove-IsSafe s o next v (begin_stop e) = same-IsSafe v s.threads _
OwnerMove-IsSafe s o next v set_stop = record {
  order = v.order;
  alone = v.alone;
  knows = λ i. stopped_knows s.stop s.task_que s.latch (s.pc i) (v.knows i);
  latch = v.latch;
}
OwnerMove-IsSafe s o next v (join i rest e) = same-IsSafe v s.threads _
OwnerMove-IsSafe s o next v (join_none rest) = same-IsSafe v s.threads _
OwnerMove-IsSafe s o next v joined = same-IsSafe v _ _

call_task-IsSafe : (s : ThreadPool) (t : ℕ) → IsSafe s → s.mutex ≡ none → IsSafe (call_task s t)
unfolding call_task
call_task-IsSafe s t v unlocked =
    let all_idle : (i : ℕ) → holds_mutex (s.pc i) ≡ false = λ i.
      elim (Bool-cases (holds_mutex (s.pc i))) [
        | inl e ↦ absurd (cc (unlocked, v.alone i e))
        | inr e ↦ e
      ] in
    record {
      order = ap (λ q. q ++ t ∷ []) v.order ∙ append_assoc s.taken s.task_que (t ∷ []);
      alone = v.alone;
      knows = λ i. idle (all_idle i);
      latch = v.latch;
    }

-- In every state that a pool reaches, however its threads, its owner and its callers are interleaved:
-- the tasks taken and then those in the queue are those ever called, in order; at most one thread stands
-- between the lock and the unlock; a thread that takes a task finds the queue not empty; and the latch
-- does not fall below zero.
pub Reach-IsSafe : (n : ℕ) (s : ThreadPool) → Reach n s → IsSafe s
Reach-IsSafe n s start = make_pool-IsSafe n
Reach-IsSafe n s (later r _ before (moves i _ m)) =
    Move-IsSafe r i (r.pc i) s (Reach-IsSafe n r before) refl m
Reach-IsSafe n s (later r _ before (owner_moves _ m)) =
    OwnerMove-IsSafe r r.owner s (Reach-IsSafe n r before) m
Reach-IsSafe n s (later r _ before (calls t unlocked)) =
    call_task-IsSafe r t (Reach-IsSafe n r before) unlocked
