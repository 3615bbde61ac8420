-- ===== src/Timer/Loop/Rounds.antt =====
-- The loop of the scheduler: no round fails an assertion.
use tools_cxx.Prelude.{
  ℕ, ◌≡◌, refl, sym, inl, inr, none, some, List, [], ◌∷◌, Bool-cases, subst, if◌then◌else◌, arith,
}
use tools_cxx.Base.Timestamp.{Timestamp}
use tools_cxx.Poller.Channel
use tools_cxx.Poller.Channel.{Callback, on_read, any_of, read_event}
use tools_cxx.Timer.Ordered.{Has}
use tools_cxx.Timer.State.{TimerEntry, TimerScheduler}
use tools_cxx.Timer.Scheduler.{get_expired}
use tools_cxx.Timer.Scheduler.Invariant.{IsValid-sets}
use tools_cxx.Timer.Events.{Call, handle_event, handle_pending_functor}
use tools_cxx.Timer.Events.Loose.{IsLoose-same}
use tools_cxx.Timer.Events.Runs.{CanRunAll}
use tools_cxx.Timer.Events.Handle.{begin_calls, handle_event-IsHandled}
use tools_cxx.Timer.Loop.{
  run_others, Descriptor, timerfd, eventfd, Ready, Round, read_only, run_callbacks, read_callback,
  read_eventfd, handle_ready, handle_all, round, loop, is_over,
}
use tools_cxx.Timer.Loop.Pending.{waiting, AreApart, AreReady, IsDone, run_functors-IsDone}
use tools_cxx.Timer.Loop.Others.{IsReady, IsReady-same, CanOthers, run_others-IsReady}

-- The scheduler's channels call their read callbacks for reading events, and nothing else.
calls_read :
    (revents : ℕ)
    → Channel.handle_event read_only revents
      ≡ (if any_of revents read_event then on_read ∷ [] else [])
unfolding Channel.handle_event
calls_read revents = ground arith

module _ (program : ℕ → List Call) where
  -- Each address that `new` returns to a callback is free.
  abbrev pub CanHandle : TimerScheduler → Timestamp → Type 0
  CanHandle s now =
      (expired : List TimerEntry) (taken : TimerScheduler)
      → get_expired (record s { armed = none }) now ≡ some (expired, taken)
      → CanRunAll program (begin_calls taken) expired

  abbrev pub CanHandleAll : TimerScheduler → List Ready → Type 0
  CanHandleAll s [] = Unit
  CanHandleAll s (r ∷ rs) =
      CanHandle s r.now
      × ((next : TimerScheduler) → handle_ready program s r ≡ some next → CanHandleAll next rs)

  pub record CanRound (s : TimerScheduler) (r : Round) : Type 0 where
    pub earlier : CanOthers s r.earlier
    pub ready :
        (called : TimerScheduler)
        → run_others s r.earlier ≡ some called
        → CanHandleAll called r.ready
    pub later :
        (called handled : TimerScheduler)
        → run_others s r.earlier ≡ some called
        → handle_all program called r.ready ≡ some handled
        → CanOthers handled r.later

  abbrev pub CanLoop : TimerScheduler → List Round → Type 0
  CanLoop s [] = Unit
  CanLoop s (r ∷ rs) =
      CanRound s r × ((next : TimerScheduler) → round program s r ≡ some next → CanLoop next rs)

  event-IsReady :
      (s : TimerScheduler) (now : Timestamp)
      → IsReady s
      → CanHandle s now
      → (next : TimerScheduler) × (handle_event program s now ≡ some next) × IsReady next
  event-IsReady s now is can =
      let (expired, called, next, runs, h) = handle_event-IsHandled program s now is.valid can in
      (
        next,
        runs,
        record {
          valid = h.valid;
          pending = record {
            loose =
                λ a m. h.keeps a (is.pending.loose a (subst (λ l. Has (waiting l) a) h.pending m));
            apart = subst (λ l. AreApart (waiting l)) (sym h.pending) is.pending.apart;
          };
        },
      )

  callback-IsReady :
      (s : TimerScheduler) (d : Descriptor) (now : Timestamp)
      → IsReady s
      → CanHandle s now
      → (next : TimerScheduler) × (read_callback program s d now ≡ some next) × IsReady next
  callback-IsReady s timerfd now is can = event-IsReady s now is can
  callback-IsReady s eventfd now is can =
      (read_eventfd s, refl, IsReady-same s (read_eventfd s) refl refl refl refl is)

  handle_ready-IsReady :
      (s : TimerScheduler) (r : Ready)
      → IsReady s
      → CanHandle s r.now
      → (next : TimerScheduler) × (handle_ready program s r ≡ some next) × IsReady next
  unfolding handle_ready run_callbacks
  handle_ready-IsReady s r is can = elim (Bool-cases (any_of r.revents read_event)) [
    | inl reads ↦
        let (next, runs, n) = callback-IsReady s r.descriptor r.now is can in
        (next, rw (calls_read r.revents, reads) (rw runs refl), n)
    | inr quiet ↦ (s, rw (calls_read r.revents, quiet) refl, is)
  ]

  handle_all-IsReady :
      (s : TimerScheduler) (rs : List Ready)
      → IsReady s
      → CanHandleAll s rs
      → (next : TimerScheduler) × (handle_all program s rs ≡ some next) × IsReady next
  unfolding handle_all
  handle_all-IsReady s [] is can = (s, refl, is)
  handle_all-IsReady s (r ∷ rs) is can =
      let (mid, first, m) = handle_ready-IsReady s r is can.0 in
      let (next, last, n) = handle_all-IsReady mid rs m (can.1 mid first) in
      (next, rw first last, n)

  -- The timers that wait when the functors are taken, and what becomes of them.
  functors-IsReady :
      (s : TimerScheduler)
      → IsReady s
      → (next : TimerScheduler) × (handle_pending_functor s ≡ some next)
        × IsReady next
        × (next.pending ≡ [])
        × IsDone (record s { pending = [] }) s.pending next
  unfolding handle_pending_functor
  functors-IsReady s is =
      let taken : TimerScheduler = record s { pending = [] } in
      let ready : AreReady taken s.pending = record {
        loose = λ a m. IsLoose-same s taken a refl refl (is.pending.loose a m);
        apart = is.pending.apart;
      } in
      let (next, runs, d) =
        run_functors-IsDone taken s.pending (IsValid-sets s taken refl refl refl is.valid) ready in
      (
        next,
        runs,
        record {
          valid = d.valid;
          pending =
              subst (AreReady next) (sym d.pending)
                (record { loose = λ a m. elim m [ ]; apart = tt });
        },
        d.pending,
        d,
      )

  -- What a round does, where `left` is the scheduler when the functors are taken.
  pub record IsEmptied (s : TimerScheduler) (r : Round) (left next : TimerScheduler) : Type 0 where
    pub calls :
        (called handled : TimerScheduler) × (run_others s r.earlier ≡ some called)
        × (handle_all program called r.ready ≡ some handled)
        × (run_others handled r.later ≡ some left)
    pub ready : IsReady next
    pub empty : next.pending ≡ []
    pub done : IsDone (record left { pending = [] }) left.pending next

  -- Where the sets agree and the timers that wait are on the heap, and every address that `new` returns
  -- is free, a round meets no failed assertion and no dangling pointer. Behind it the same holds, no
  -- functor is left, and every timer that waited and that no functor cancels is active.
  pub round-IsEmptied :
      (s : TimerScheduler) (r : Round)
      → IsReady s
      → CanRound s r
      → (left next : TimerScheduler) × (round program s r ≡ some next) × IsEmptied s r left next
  unfolding round
  round-IsEmptied s r is can =
      let (called, first, a) = run_others-IsReady s r.earlier is can.earlier in
      let (handled, second, b) = handle_all-IsReady called r.ready a (can.ready called first) in
      let (left, third, c) =
        run_others-IsReady handled r.later b (can.later called handled first second) in
      let (next, last, d, empty, done) = functors-IsReady left c in
      (
        left,
        next,
        rw (first, second, third) last,
        record {
          calls = (called, handled, first, second, third);
          ready = d;
          empty = empty;
          done = done;
        },
      )

  -- So the loop meets no failed assertion and no dangling pointer in any number of rounds, whatever the
  -- callbacks and other threads add and cancel, when every address that `new` returns is free.
  pub loop-IsReady :
      (s : TimerScheduler) (rounds : List Round)
      → IsReady s
      → CanLoop s rounds
      → (next : TimerScheduler) × (loop program s rounds ≡ some next) × IsReady next
  unfolding loop
  loop-IsReady s [] is can = (s, refl, is)
  loop-IsReady s (r ∷ rounds) is can =
      let (left, mid, first, m) = round-IsEmptied s r is can.0 in
      let (next, last, n) = loop-IsReady mid rounds m.ready (can.1 mid first) in
      elim (Bool-cases (is_over program r)) [
        | inl over ↦ (mid, rw (first, over) refl, m.ready)
        | inr more ↦ (next, rw (first, more) last, n)
      ]
