-- ===== src/Timer/Events/Handle.antt =====
-- The timerfd has gone off: expiry, callbacks and reset together.
use tools_cxx.Prelude.{
  ℕ, ◌≡◌, ◌≢◌, ◌⊎◌, refl, sym, ap, ◌∙◌, inl, inr, true, false, none, some, List, [], ◌∷◌, ◌++◌,
  subst,
}
use tools_cxx.Base.Timestamp.{Timestamp, before}
use tools_cxx.Timer.Ordered.{Has, IsSorted}
use tools_cxx.Timer.Ordered.Laws.{Has-All, All-Has}
use tools_cxx.Timer.State.{Timer, TimerEntry, entry_before, TimerScheduler}
use tools_cxx.Timer.Scheduler.{get_expired, timer_entry, active_entry}
use tools_cxx.Timer.Scheduler.Orders.{entry-IsOrder}
use tools_cxx.Timer.Scheduler.Invariant.{IsScheduled, IsValid, IsValid-sets}
use tools_cxx.Timer.Scheduler.Expiry.{IsExpiry, get_expired-IsExpiry, Has-append, Has-append_right}
use tools_cxx.Timer.Events.{Call, run_expired, reset, handle_event}
use tools_cxx.Timer.Events.Loose.{IsLoose, IsLoose-same, AreLoose, AreDistinct}
use tools_cxx.Timer.Events.Reset.{is_again, IsSettled, reset_all-IsReset}
use tools_cxx.Timer.Events.Rearm.{IsArmed, rearm-IsRearmed, IsSettled-moved, IsRearmed-IsValid}
use tools_cxx.Timer.Events.Runs.{CanRunAll, run_expired-IsRun}

-- Scheduled timers have different addresses.
pub AreDistinct-IsScheduled :
    (s : TimerScheduler) (l r : List TimerEntry)
    → IsSorted entry_before (l ++ r)
    → ((e : TimerEntry) → Has (l ++ r) e → (t : Timer) × IsScheduled s e t)
    → AreDistinct l
AreDistinct-IsScheduled s [] r sorted h = tt
AreDistinct-IsScheduled s (e ∷ l) r sorted h = (
  All-Has (λ f. f.timer ≢ e.timer) l
      (λ f m q.
        let there = Has-append l r f m in
        let far : entry_before e f ≡ true =
          Has-All (λ y. entry_before e y ≡ true) (l ++ r) sorted.0 f there in
        let (t, at) = h e (inl refl) in
        let (u, is) = h f (inr there) in
        let same : f ≡ e = cc (q, at.entry, at.stored, is.stored, is.entry) in
        cc (same, far, entry-IsOrder.irreflexive e)),
  AreDistinct-IsScheduled s l r sorted.1 (λ f m. h f (inr m)),
)

-- The scheduler when the callbacks begin.
abbrev pub begin_calls : TimerScheduler → TimerScheduler
begin_calls s = record s { calling = true; canceling = [] }

AreLoose-IsExpiry :
    (s : TimerScheduler) (now : Timestamp) (expired : List TimerEntry) (next : TimerScheduler)
    → IsValid s
    → IsExpiry s now expired next
    → AreLoose (begin_calls next) expired
AreLoose-IsExpiry s now expired next v x e m =
    let (t, is) = v.scheduled e (x.here e m) in
    record {
      timer = t;
      stored = ap (λ n. n.memory e.timer) x.rest ∙ is.stored;
      absent = x.absent e m;
      in_range = is.in_range;
    }

-- A loose address is none of the expired timers'.
apart_expired :
    (s : TimerScheduler) (now : Timestamp) (expired : List TimerEntry) (next : TimerScheduler)
    → IsValid s
    → IsExpiry s now expired next
    → (address : ℕ) → IsLoose s address
    → (e : TimerEntry) → Has expired e
    → address ≢ e.timer
apart_expired s now expired next v x address loose e m q =
    let (t, is) = v.scheduled e (x.here e m) in
    loose.absent (active_entry e.timer t) is.active (sym q)

loose_begin :
    (s : TimerScheduler) (now : Timestamp) (expired : List TimerEntry) (next : TimerScheduler)
    → IsValid s
    → IsExpiry s now expired next
    → (address : ℕ) → IsLoose s address
    → IsLoose (begin_calls next) address
loose_begin s now expired next v x address is = record {
  timer = is.timer;
  stored = ap (λ n. n.memory address) x.rest ∙ is.stored;
  absent = λ b h.
      let (u, at) = x.valid.known b h in
      let old : Has s.timers (timer_entry b.timer u) =
        subst (λ l. Has l (timer_entry b.timer u)) x.whole
          (Has-append_right expired next.timers (timer_entry b.timer u) at.scheduled) in
      let (t, was) = v.scheduled (timer_entry b.timer u) old in
      is.absent (active_entry b.timer t) was.active;
  in_range = is.in_range;
}

-- What the handler does, where `expired` are the timers taken and `called` the scheduler when their
-- callbacks have run.
pub record IsHandled (program : ℕ → List Call) (s : TimerScheduler) (now : Timestamp)
    (expired : List TimerEntry) (called next : TimerScheduler) : Type 0 where
  pub valid : IsValid next
  pub armed : IsArmed next
  pub calling : next.calling ≡ false
  pub pending : next.pending ≡ s.pending
  pub keeps : (address : ℕ) → IsLoose s address → IsLoose next address
  pub ran :
      (taken : TimerScheduler) × (get_expired (record s { armed = none }) now
        ≡ some (expired, taken))
      × (run_expired program (begin_calls taken) expired ≡ some called)
  pub due : (e : TimerEntry) → Has s.timers e → before now e.when ≡ false → Has expired e
  pub settled :
      (e : TimerEntry)
      → Has expired e
      → (t : Timer) → s.memory e.timer ≡ some t
      → IsSettled next e.timer t now (is_again called.canceling e.timer t)

pub Has-parts : {A : Type 0} (xs ys : List A) (a : A) → Has (xs ++ ys) a → Has xs a ⊎ Has ys a
Has-parts [] ys a m = inr m
Has-parts (x ∷ xs) ys a (inl e) = inl (inl e)
Has-parts (x ∷ xs) ys a (inr m) = elim (Has-parts xs ys a m) [ inl h ↦ inl (inr h) | inr h ↦ inr h ]

due-IsExpiry :
    (s : TimerScheduler) (now : Timestamp) (expired : List TimerEntry) (next : TimerScheduler)
    → IsExpiry s now expired next
    → (e : TimerEntry) → Has s.timers e
    → before now e.when ≡ false
    → Has expired e
due-IsExpiry s now expired next x e m b =
    elim (Has-parts expired next.timers e (subst (λ l. Has l e) (sym x.whole) m)) [
      | inl h ↦ h
      | inr h ↦
          let late : before now e.when ≡ true =
            Has-All (λ e. before now e.when ≡ true) next.timers x.later e h in
          absurd (cc (late, b))
    ]

idle : TimerScheduler → TimerScheduler
idle s = record s { calling = false }

loose_idle : (s : TimerScheduler) (l : List TimerEntry) → AreLoose s l → AreLoose (idle s) l
unfolding idle
loose_idle s l h e m = record {
  timer = (h e m).timer;
  stored = (h e m).stored;
  absent = (h e m).absent;
  in_range = (h e m).in_range;
}

-- On sets that agree, and when every address that `new` returns to a callback is free, the handler
-- meets no failed assertion and no dangling pointer, whatever timers the callbacks add and cancel.
-- Afterwards the sets agree, the timerfd is set to the first timer unless its time is not valid, and
-- every timer that was due is settled: a repeated one that no callback cancelled is scheduled anew, its
-- interval after `now`, and any other is deleted.
pub handle_event-IsHandled :
    (program : ℕ → List Call) (s : TimerScheduler) (now : Timestamp)
    → IsValid s
    → ((expired : List TimerEntry) (taken : TimerScheduler)
        → get_expired (record s { armed = none }) now ≡ some (expired, taken)
        → CanRunAll program (begin_calls taken) expired)
    → (expired : List TimerEntry) × (called next : TimerScheduler) × (handle_event program s now
        ≡ some next)
      × IsHandled program s now expired called next
unfolding handle_event reset idle
handle_event-IsHandled program s now v can =
    let off : TimerScheduler = record s { armed = none } in
    let v_off : IsValid off = IsValid-sets s off refl refl refl v in
    let (expired, taken, got, x) = get_expired-IsExpiry off now v_off in
    let v_begin : IsValid (begin_calls taken) =
      IsValid-sets taken (begin_calls taken) refl refl refl x.valid in
    let (called, ran, h) =
      run_expired-IsRun program (begin_calls taken) expired expired v_begin
        (AreLoose-IsExpiry off now expired taken v_off x) (λ e m. m) (can expired taken got) in
    let distinct : AreDistinct expired =
      AreDistinct-IsScheduled off expired taken.timers
        (subst (IsSorted entry_before) (sym x.whole) v.timers_sorted)
        (λ e m. v_off.scheduled e (subst (λ l. Has l e) x.whole m)) in
    let v_idle : IsValid (idle called) = IsValid-sets called (idle called) refl refl refl h.valid in
    let (mid, all, r) =
      reset_all-IsReset (idle called) expired now v_idle (loose_idle called expired h.loose)
        distinct in
    let (next, set, k) = rearm-IsRearmed mid r.valid in
    (
      expired,
      called,
      next,
      rw (got, ran, all, set) refl,
      record {
        valid = IsRearmed-IsValid mid next k r.valid;
        armed = k.armed;
        calling = k.calling ∙ r.calling;
        pending = k.pending ∙ r.pending ∙ h.pending ∙ ap (λ n. n.pending) x.rest;
        keeps = λ address is. IsLoose-same mid next address k.memory k.active (
            r.loose address
              (apart_expired off now expired taken v_off x address
                (IsLoose-same s off address refl refl is))
              (IsLoose-same called (idle called) address refl refl (
                h.keeps address (
                  loose_begin off now expired taken v_off x address
                    (IsLoose-same s off address refl refl is)))));
        ran = (taken, got, ran);
        due = due-IsExpiry off now expired taken x;
        settled = λ e m t stored.
            IsSettled-moved mid next e.timer t now (is_again called.canceling e.timer t) k
              (r.settled e m t (h.stored e m ∙ ap (λ n. n.memory e.timer) x.rest ∙ stored));
      },
    )
