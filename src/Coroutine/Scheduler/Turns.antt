-- ===== src/Coroutine/Scheduler/Turns.antt =====
-- What one turn of a coroutine does.
use tools_cxx.Prelude.{
  ℕ, ◌≡◌, ◌⊎◌, inl, inr, refl, ap, ◌∙◌, Bool, true, false, ◌||◌, none, some, List, [], ◌∷◌, ◌++◌,
  arith, append-nil, append_assoc,
}
use tools_cxx.Coroutine.Scheduler.{
  CoCall, creating, quitting, Body, returns, yields, Status, ready, suspended, running, finished,
  Coroutine, Entry, CoScheduler, find, put, create_coroutine, call, call_all, suspend, finish,
  switch_to, set_running, resume, sweep, visit,
}
use tools_cxx.Coroutine.Scheduler.Middle.{
  AreApart, find-middle, put-middle, erase-middle, created, quits,
}

module _ (program : ℕ → Body) where
  -- Another thread calls, or a coroutine runs.
  abbrev pub IsDeferred : CoScheduler → Bool → Type 0
  IsDeferred s here = (here ≡ false) ⊎ ((k : ℕ) × (s.cur_co ≡ some k))

  create_deferred :
      (s : CoScheduler) (here : Bool) (task : ℕ)
      → IsDeferred s here
      → create_coroutine program s here task ≡ record s { pending = s.pending ++ task ∷ [] }
  unfolding create_coroutine
  create_deferred s here task (inl e) = rw e refl
  create_deferred s true task (inr (k, e)) = rw e refl
  create_deferred s false task (inr (k, e)) = refl

  -- Such calls leave new tasks pending.
  pub call_all_lem :
      (s : CoScheduler) (here : Bool) (calls : List CoCall)
      → IsDeferred s here
      → call_all program s here calls
        ≡ record s { pending = s.pending ++ created calls; quit = s.quit || quits calls }
  unfolding call_all call
  call_all_lem s here [] h = ground (arith, append-nil s.pending)
  call_all_lem s here (creating task ∷ calls) h =
      ap (λ n. call_all program n here calls) (create_deferred s here task h)
      ∙ call_all_lem (record s { pending = s.pending ++ task ∷ [] }) here calls h
      ∙ ap (λ l. record s { pending = l; quit = s.quit || quits calls })
          (append_assoc s.pending (task ∷ []) (created calls))
  call_all_lem s here (quitting ∷ calls) h =
      call_all_lem (record s { quit = true }) here calls h
      ∙ ap (λ b. record s { pending = s.pending ++ created calls; quit = b }) (quit_last s.quit)
    where
      quit_last : (b : Bool) → true ≡ b || true
      quit_last true = refl
      quit_last false = refl

  -- What a waiting coroutine does next, and what it is afterwards: `none` when it has returned.
  abbrev pub IsWaiting : Status → Type 0
  IsWaiting ready = Unit
  IsWaiting suspended = Unit
  IsWaiting running = ⊥
  IsWaiting finished = ⊥

  abbrev pub body_of : Status → Coroutine → Body
  body_of ready co = program co.task
  body_of suspended co = co.context
  body_of running co = co.context
  body_of finished co = co.context

  abbrev pub calls_of : Body → List CoCall
  calls_of (returns calls) = calls
  calls_of (yields calls rest) = calls

  abbrev pub turn_calls : Entry → List CoCall
  turn_calls e = calls_of (body_of e.co.status e.co)

  abbrev pub advanced : Entry → Body → List Entry
  advanced e (returns calls) = []
  advanced e (yields calls rest) =
      record e { co = record (e.co) { status = suspended; context = rest } } ∷ []

  abbrev pub turn : Entry → List Entry
  turn e = advanced e (body_of e.co.status e.co)

  -- A turn of the coroutine between the entries `pre` and `post`.
  pub record IsTurn (s : CoScheduler) (pre : List Entry) (e : Entry) (post : List Entry)
      (next : CoScheduler) : Type 0 where
    pub store : next.co_store ≡ pre ++ (turn e ++ post)
    pub pending : next.pending ≡ s.pending ++ created (turn_calls e)
    pub quit : next.quit ≡ s.quit || quits (turn_calls e)
    pub number : next.co_num ≡ s.co_num

  module _ (s : CoScheduler) (pre : List Entry) (e : Entry) (post : List Entry)
      (apart : AreApart e.key pre) where
    with_co : Coroutine → Entry
    with_co co = record e { co = co }

    -- Control is in the coroutine `co`.
    inside : Coroutine → CoScheduler
    inside co = record s { cur_co = some e.key; co_store = pre ++ record e { co = co } ∷ post }

    after_calls : Coroutine → List CoCall → CoScheduler
    after_calls co calls = record (inside co) {
      pending = s.pending ++ created calls;
      quit = s.quit || quits calls;
    }

    calls_lem :
        (co : Coroutine) (calls : List CoCall)
        → call_all program (inside co) true calls ≡ after_calls co calls
    unfolding inside after_calls
    calls_lem co calls = call_all_lem (inside co) true calls (inr (e.key, refl))

    found : (co : Coroutine) → find (pre ++ record e { co = co } ∷ post) e.key ≡ some co
    found co = find-middle (record e { co = co }) post pre apart

    replaced :
        (co c : Coroutine)
        → put (pre ++ record e { co = co } ∷ post) e.key c ≡ pre ++ record e { co = c } ∷ post
    replaced co c = put-middle (record e { co = co }) post pre c apart

    suspend_lem :
        (co : Coroutine) (calls : List CoCall) (rest : Body)
        → suspend program (after_calls co calls) e.key rest
          ≡ some (after_calls (record co { status = suspended; context = rest }) calls)
    unfolding suspend after_calls inside
    suspend_lem co calls rest =
        rw (found co) (rw (replaced co (record co { status = suspended; context = rest })) refl)

    finish_lem :
        (co : Coroutine) (calls : List CoCall)
        → finish program (after_calls co calls) e.key
          ≡ some (record (after_calls (record co { status = finished }) calls) { cur_co = none })
    unfolding finish after_calls inside
    finish_lem co calls = rw (found co) (rw (replaced co (record co { status = finished })) refl)

    sweep_suspended :
        (co : Coroutine) (calls : List CoCall) (rest : Body)
        → sweep program (after_calls (record co { status = suspended; context = rest }) calls) e.key
          ≡ some (after_calls (record co { status = suspended; context = rest }) calls)
    unfolding sweep after_calls inside
    sweep_suspended co calls rest =
        rw (found (record co { status = suspended; context = rest })) refl

    sweep_finished :
        (co : Coroutine) (calls : List CoCall)
        → sweep program
            (record (after_calls (record co { status = finished }) calls) { cur_co = none })
            e.key
          ≡ some (record (after_calls co calls) { cur_co = none; co_store = pre ++ post })
    unfolding sweep after_calls inside
    sweep_finished co calls =
        rw (found (record co { status = finished })) (
          rw (erase-middle (record e { co = record co { status = finished } }) post pre apart) refl)

    -- What a turn with the given body leaves.
    left_by : Coroutine → Body → CoScheduler
    left_by co (returns calls) = record (after_calls co calls) {
      cur_co = none;
      co_store = pre ++ post;
    }
    left_by co (yields calls rest) =
        after_calls (record co { status = suspended; context = rest }) calls

    switch_lem :
        (co : Coroutine) (body : Body)
        → (mid : CoScheduler) × (switch_to program (inside co) e.key body ≡ some mid)
          × (sweep program mid e.key ≡ some (left_by co body))
    unfolding switch_to left_by after_calls inside
    switch_lem co (returns calls) = (
      record (after_calls (record co { status = finished }) calls) { cur_co = none },
      ap (λ n. finish program n e.key) (calls_lem co calls) ∙ finish_lem co calls,
      sweep_finished co calls,
    )
    switch_lem co (yields calls rest) = (
      after_calls (record co { status = suspended; context = rest }) calls,
      rw (switch_to, calls_lem co calls)
          (ap (λ n. suspend program n e.key rest) (calls_lem co calls) ∙ suspend_lem co calls rest),
      sweep_suspended co calls rest,
    )

    start_of : CoScheduler
    start_of = record s { co_store = pre ++ e ∷ post }

    running_lem :
        (body : Body)
        → switch_to program (set_running program start_of e.key e.co) e.key body
          ≡ switch_to program (inside (record (e.co) { status = running })) e.key body
    unfolding start_of inside
    running_lem body =
        ap (λ l. switch_to program (record s { cur_co = some e.key; co_store = l }) e.key body)
          (replaced e.co (record (e.co) { status = running }))

    -- The coroutine under the key runs its next part.
    resume_by :
        (status : Status)
        → e.co.status ≡ status
        → IsWaiting status
        → resume program start_of e.key e.co
          ≡ switch_to program
              (inside (record (e.co) { status = running }))
              e.key
              (body_of status e.co)
    unfolding resume inside
    resume_by ready q w = rw (resume, q) (running_lem (program e.co.task))
    resume_by suspended q w = rw (resume, q) (running_lem e.co.context)
    resume_by running q w = elim w [ ]
    resume_by finished q w = elim w [ ]

    left : CoScheduler
    left = left_by (record (e.co) { status = running }) (body_of e.co.status e.co)

    visit-left : IsWaiting e.co.status → visit program start_of e.key ≡ some left
    unfolding visit start_of left
    visit-left w =
        let (mid, switched, swept) =
          switch_lem (record (e.co) { status = running }) (body_of e.co.status e.co) in
        rw (found e.co) (rw (resume_by e.co.status refl w ∙ switched) swept)

    IsTurn-left_by :
        (body : Body)
        → body_of e.co.status e.co ≡ body
        → IsTurn s pre e post (left_by (record (e.co) { status = running }) body)
    unfolding left_by after_calls inside
    IsTurn-left_by (returns calls) q = record {
      store = rw q refl;
      pending = rw q refl;
      quit = rw q refl;
      number = refl;
    }
    IsTurn-left_by (yields calls rest) q = record {
      store = rw q refl;
      pending = rw q refl;
      quit = rw q refl;
      number = refl;
    }

  -- A waiting coroutine between two parts of the store has its turn.
  pub visit-IsTurn :
      (s : CoScheduler) (pre : List Entry) (e : Entry) (post : List Entry)
      → s.co_store ≡ pre ++ e ∷ post
      → AreApart e.key pre
      → IsWaiting e.co.status
      → (next : CoScheduler) × (visit program s e.key ≡ some next) × IsTurn s pre e post next
  unfolding left start_of
  visit-IsTurn s pre e post at apart w = (
    left s pre e post apart,
    ap (λ l. visit program (record s { co_store = l }) e.key) at ∙ visit-left s pre e post apart w,
    IsTurn-left_by s pre e post apart (body_of e.co.status e.co) refl,
  )
