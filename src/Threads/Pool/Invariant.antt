-- ===== src/Threads/Pool/Invariant.antt =====
-- What a thread of a pool may rely on, and steps that keep it.
use tools_cxx.Prelude.{
  ℕ, zero, suc, ◌≡◌, ◌≢◌, ◌⊎◌, inl, inr, refl, sym, ap, ◌∙◌, subst, arith, Bool, true, false, some,
  List, [], ◌++◌, update_at, update_at_hit, update_at-ne, equal_or_not, Bool-cases,
}
use tools_cxx.Prelude.Int.{ℤ, pos, negsuc, ◌≤ℤ◌, ◌-ℤ◌}
use tools_cxx.Threads.Latch.{CountDownLatch, make_latch}
use tools_cxx.Threads.Pool.{
  Pc, absent, locking, testing, looking, counting, counting_down, entering_wait, waiting, leaving,
  taking, beginning, running, ended, ThreadPool, make_pool, at_pc,
}

-- Whether a thread holds the mutex.
abbrev pub holds_mutex : Pc → Bool
holds_mutex testing = true
holds_mutex looking = true
holds_mutex counting = true
holds_mutex counting_down = true
holds_mutex entering_wait = true
holds_mutex leaving = true
holds_mutex taking = true
holds_mutex absent = false
holds_mutex locking = false
holds_mutex waiting = false
holds_mutex (beginning t) = false
holds_mutex (running t) = false
holds_mutex ended = false

-- What a thread may rely on where it stands.
pub data Knows (stop : Bool) (que : List ℕ) (latch : CountDownLatch) : Pc → Type 0 where
  idle : {p : Pc} → holds_mutex p ≡ false → Knows stop que latch p
  tests : Knows stop que latch testing
  looks : Knows stop que latch looking
  counts : Knows stop que latch counting
  counts_down : latch.count ≢ pos 0 → Knows stop que latch counting_down
  enters : Knows stop que latch entering_wait
  leaves : (stop ≡ true) ⊎ (que ≢ []) → Knows stop que latch leaving
  takes : que ≢ [] → Knows stop que latch taking

pub record IsSafe (s : ThreadPool) : Type 0 where
  pub order : s.called ≡ s.taken ++ s.task_que
  pub alone : (i : ℕ) → holds_mutex (s.pc i) ≡ true → s.mutex ≡ some i
  pub knows : (i : ℕ) → Knows s.stop s.task_que s.latch (s.pc i)
  pub latch : pos 0 ≤ℤ s.latch.count

pub make_pool-IsSafe : (n : ℕ) → IsSafe (make_pool n)
unfolding make_pool make_latch
make_pool-IsSafe n = record {
  order = refl;
  alone = λ i e. absurd (cc e);
  knows = λ i. idle refl;
  latch = omega arith;
}

module _ {s : ThreadPool} (v : IsSafe s) (i : ℕ) (p : Pc) (next : ThreadPool)
    (goes : next.pc ≡ update_at s.pc i p) where
  at_own : next.pc i ≡ p
  at_own = ap (λ f. f i) goes ∙ update_at_hit s.pc i p i refl

  at_other : (j : ℕ) → j ≢ i → next.pc j ≡ s.pc j
  at_other j ne = ap (λ f. f j) goes ∙ update_at-ne s.pc i p j ne

  -- A step that keeps what the others rely on.
  pub step-IsSafe :
      next.called ≡ next.taken ++ next.task_que
      → pos 0 ≤ℤ next.latch.count
      → (holds_mutex p ≡ true → next.mutex ≡ some i)
      → Knows next.stop next.task_que next.latch p
      → ((j : ℕ) → j ≢ i → holds_mutex (s.pc j) ≡ true → next.mutex ≡ some j)
      → ((j : ℕ) → j ≢ i → Knows next.stop next.task_que next.latch (s.pc j))
      → IsSafe next
  step-IsSafe ordered counted own knowing others known = record {
    order = ordered;
    alone = λ j e. elim (equal_or_not j i) [
      | inl same ↦ own (sym (ap holds_mutex (ap next.pc same ∙ at_own)) ∙ e) ∙ ap some (sym same)
      | inr ne ↦ others j ne (sym (ap holds_mutex (at_other j ne)) ∙ e)
    ];
    knows = λ j. elim (equal_or_not j i) [
      | inl same ↦
          subst (Knows next.stop next.task_que next.latch) (sym (ap next.pc same ∙ at_own)) knowing
      | inr ne ↦ subst (Knows next.stop next.task_que next.latch) (sym (at_other j ne)) (known j ne)
    ];
    latch = counted;
  }

  -- When a thread holds the mutex, no other does, and it may change all that the mutex guards.
  pub held-IsSafe :
      holds_mutex (s.pc i) ≡ true
      → next.called ≡ next.taken ++ next.task_que
      → pos 0 ≤ℤ next.latch.count
      → (holds_mutex p ≡ true → next.mutex ≡ some i)
      → Knows next.stop next.task_que next.latch p
      → IsSafe next
  held-IsSafe mine ordered counted own knowing =
      let other_idle : (j : ℕ) → j ≢ i → holds_mutex (s.pc j) ≡ false = λ j ne.
        elim (Bool-cases (holds_mutex (s.pc j))) [
          | inl e ↦ absurd (ne (cc (v.alone j e, v.alone i mine)))
          | inr e ↦ e
        ] in
      step-IsSafe ordered counted own knowing (λ j ne e. absurd (cc (e, other_idle j ne)))
        (λ j ne. idle (other_idle j ne))

pub leaving_knows :
    {stop : Bool} {que : List ℕ} {latch : CountDownLatch}
    → Knows stop que latch leaving
    → (stop ≡ true) ⊎ (que ≢ [])
leaving_knows (idle e) = absurd (cc e)
leaving_knows (leaves h) = h

pub counting_knows :
    {stop : Bool} {que : List ℕ} {latch : CountDownLatch}
    → Knows stop que latch counting_down
    → latch.count ≢ pos 0
counting_knows (idle e) = absurd (cc e)
counting_knows (counts_down h) = h

pub taking_knows :
    {stop : Bool} {que : List ℕ} {latch : CountDownLatch} → Knows stop que latch taking → que ≢ []
taking_knows (idle e) = absurd (cc e)
taking_knows (takes h) = h

pub positive_down : (n : ℤ) → pos 0 ≤ℤ n → n ≢ pos 0 → pos 0 ≤ℤ (n -ℤ pos 1)
unfolding ◌-ℤ◌
positive_down (pos zero) h ne = absurd (ne refl)
positive_down (pos (suc n)) h ne = ground arith
positive_down (negsuc n) h ne = absurd (omega (arith, h))

-- A step of a thread that changes nothing but where it stands.
pub goes-IsSafe :
    {s : ThreadPool} (v : IsSafe s) (i : ℕ) (p : Pc)
    → (holds_mutex p ≡ true → holds_mutex (s.pc i) ≡ true)
    → Knows s.stop s.task_que s.latch p
    → IsSafe (at_pc s i p)
goes-IsSafe {s = s} v i p holds knowing =
    step-IsSafe v i p (at_pc s i p) refl v.order v.latch (λ e. v.alone i (holds e)) knowing
      (λ j ne e. v.alone j e) (λ j ne. v.knows j)
