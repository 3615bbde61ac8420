-- ===== src/Coroutine/Scheduler/Rounds.antt =====
-- One round of the scheduler: every coroutine has one turn, in the order of the keys, and then the
-- pending tasks become coroutines.
use tools_cxx.Prelude.{
  ℕ, suc, ◌+◌, ◌≡◌, ◌<◌, ◌≤◌, inl, refl, sym, ap, ◌∙◌, Bool, true, false, ◌||◌, some, List, [], ◌∷◌,
  ◌++◌, arith, All-append, append-nil, append_assoc, length,
}
use tools_cxx.Coroutine.Scheduler.{
  CoCall, Body, Entry, CoScheduler, new_coroutine, add_coroutine, call_all, visit_all, add_all,
  handle_pending_tasks, keys, round,
}
use tools_cxx.Coroutine.Scheduler.Middle.{AreApart, created, quits}
use tools_cxx.Coroutine.Scheduler.Turns.{call_all_lem, IsWaiting, turn_calls, turn, visit-IsTurn}
use tools_cxx.Coroutine.Scheduler.Keys.{
  IsAscending, Precedes, none_before, turns, turns_created, turns_quit, AreWaiting, Precedes-turn,
  new_entries, AreApart-turns, IsAscending-turns, AreWaiting-turns, AreWaiting-new, AreApart-new,
  AreApart-le, IsAscending-append-new,
}

module _ (program : ℕ → Body) where
  record IsPass (s : CoScheduler) (pre todo : List Entry) (next : CoScheduler) : Type 0 where
    store : next.co_store ≡ pre ++ turns program todo
    pending : next.pending ≡ s.pending ++ turns_created program todo
    quit : next.quit ≡ s.quit || turns_quit program todo
    number : next.co_num ≡ s.co_num

  or_assoc : (a b c : Bool) → (a || b) || c ≡ a || (b || c)
  or_assoc true b c = refl
  or_assoc false b c = refl

  visit_all-IsPass :
      (s : CoScheduler) (pre todo : List Entry)
      → s.co_store ≡ pre ++ todo
      → Precedes pre todo
      → IsAscending todo
      → AreWaiting program todo
      → (next : CoScheduler) × (visit_all program s (keys program todo) ≡ some next)
        × IsPass s pre todo next
  unfolding visit_all
  visit_all-IsPass s pre [] at h a w = (
    s,
    refl,
    record { store = at; pending = sym (append-nil s.pending); quit = ground arith; number = refl },
  )
  visit_all-IsPass s pre (e ∷ es) at h a w =
      let (mid, first, t) = visit-IsTurn program s pre e es at h.0 w.0 in
      let (next, last, p) =
        visit_all-IsPass mid (pre ++ turn program e) es
          (t.store ∙ sym (append_assoc pre (turn program e) es))
          (Precedes-turn program pre e es h.1 a.0) a.1 w.1 in
      (
        next,
        rw first last,
        record {
          store = p.store ∙ append_assoc pre (turn program e) (turns program es);
          pending =
              p.pending
              ∙ ap (λ l. l ++ turns_created program es) t.pending
              ∙ append_assoc s.pending (created (turn_calls program e)) (turns_created program es);
          quit =
              p.quit
              ∙ ap (λ b. b || turns_quit program es) t.quit
              ∙ or_assoc s.quit (quits (turn_calls program e)) (turns_quit program es);
          number = p.number ∙ t.number;
        },
      )

  add_all_lem :
      (s : CoScheduler) (ts : List ℕ)
      → add_all program s ts ≡ record s {
        co_store = s.co_store ++ new_entries program s.co_num ts;
        co_num = s.co_num + length ts;
      }
  unfolding add_all add_coroutine
  add_all_lem s [] =
      ap (λ l. record s { co_store = l }) (sym (append-nil s.co_store))
      ∙ ap (λ n. record s { co_store = s.co_store ++ []; co_num = n }) (omega arith)
  add_all_lem s (t ∷ ts) =
      let e : Entry = record { key = s.co_num; co = new_coroutine program t } in
      add_all_lem (record s { co_store = s.co_store ++ e ∷ []; co_num = suc s.co_num }) ts
      ∙ ap (λ l. record s { co_store = l; co_num = suc s.co_num + length ts })
          (append_assoc s.co_store (e ∷ []) (new_entries program (suc s.co_num) ts))
      ∙ ap
          (λ n. record s {
            co_store = s.co_store ++ e ∷ new_entries program (suc s.co_num) ts;
            co_num = n;
          })
          (omega arith)

  -- The store is in the order of its keys, which are below the next one, and each coroutine waits for
  -- its turn.
  pub record IsValid (s : CoScheduler) : Type 0 where
    pub ascending : IsAscending s.co_store
    pub below : AreApart s.co_num s.co_store
    pub waiting : AreWaiting program s.co_store

  -- What a round does: each coroutine has had one turn and is gone if its task has returned, and the
  -- tasks pending, those created in the turns program and those of other threads become coroutines, in order.
  pub record IsRound (s : CoScheduler) (calls : List CoCall) (next : CoScheduler) : Type 0 where
    pub valid : IsValid next
    pub store :
        next.co_store
        ≡ turns program s.co_store
          ++ new_entries program s.co_num
              (s.pending ++ turns_created program s.co_store ++ created calls)
    pub pending : next.pending ≡ []
    pub quit : next.quit ≡ (s.quit || turns_quit program s.co_store) || quits calls
    pub number : s.co_num ≤ next.co_num

  -- The end of a round.
  abbrev ended : CoScheduler → List CoCall → CoScheduler
  ended mid calls = record mid {
    quit = mid.quit || quits calls;
    pending = [];
    co_store = mid.co_store ++ new_entries program mid.co_num (mid.pending ++ created calls);
    co_num = mid.co_num + length (mid.pending ++ created calls);
  }

  ended_lem :
      (mid : CoScheduler) (calls : List CoCall)
      → handle_pending_tasks program (call_all program mid false calls) ≡ ended mid calls
  unfolding handle_pending_tasks
  ended_lem mid calls =
      ap (handle_pending_tasks program) (call_all_lem program mid false calls (inl refl))
      ∙ add_all_lem (record mid { quit = mid.quit || quits calls; pending = [] })
          (mid.pending ++ created calls)

  ended-IsValid :
      (mid : CoScheduler) (es : List Entry) (n : ℕ) (calls : List CoCall)
      → mid.co_store ≡ turns program es
      → mid.co_num ≡ n
      → IsAscending es
      → AreApart n es
      → IsValid (ended mid calls)
  ended-IsValid mid es n calls at num a b =
      let tasks : List ℕ = mid.pending ++ created calls in
      record {
        ascending =
            rw (at, num)
              (IsAscending-append-new program (turns program es) n tasks
                (IsAscending-turns program es a) (AreApart-turns program n es b));
        below =
            rw (at, num)
              (All-append (λ e. e.key < n + length tasks) (turns program es)
                (new_entries program n tasks)
                (AreApart-le program n (n + length tasks) (turns program es) (omega arith)
                  (AreApart-turns program n es b))
                (AreApart-new program n tasks));
        waiting =
            rw (at, num)
              (All-append (λ e. IsWaiting program e.co.status) (turns program es)
                (new_entries program n tasks) (AreWaiting-turns program es)
                (AreWaiting-new program n tasks));
      }

  -- A round of a scheduler whose coroutines wait, in the order of their keys, fails no assertion: each
  -- of them has exactly one turn, in that order, the finished ones are erased, and then all pending
  -- tasks become coroutines under new keys.
  pub round-IsRound :
      (s : CoScheduler) (calls : List CoCall)
      → IsValid s
      → (next : CoScheduler) × (round program s calls ≡ some next) × IsRound s calls next
  unfolding round
  round-IsRound s calls v =
      let (mid, first, p) =
        visit_all-IsPass s [] s.co_store refl (none_before s.co_store) v.ascending v.waiting in
      (
        ended mid calls,
        rw first (ap some (ended_lem mid calls)),
        record {
          valid = ended-IsValid mid s.co_store s.co_num calls p.store p.number v.ascending v.below;
          store = rw (p.store, p.number, p.pending) refl;
          pending = refl;
          quit = ap (λ b. b || quits calls) p.quit;
          number = omega (arith, p.number);
        },
      )
