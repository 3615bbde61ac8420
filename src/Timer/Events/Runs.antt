-- ===== src/Timer/Events/Runs.antt =====
-- The callbacks of the expired timers, one after the other.
use tools_cxx.Prelude.{ℕ, ◌≡◌, ◌≢◌, refl, sym, ◌∙◌, inl, inr, some, List, [], ◌∷◌, subst}
use tools_cxx.Timer.Ordered.{Has}
use tools_cxx.Timer.State.{Timer, TimerId, TimerEntry, ActiveTimerEntry, TimerScheduler}
use tools_cxx.Timer.Scheduler.{cancel}
use tools_cxx.Timer.Scheduler.Invariant.{IsValid}
use tools_cxx.Timer.Scheduler.Cancel.{entry_of_id, IsCancelled, cancel_timer-IsCancelled}
use tools_cxx.Timer.Events.{Call, adding, cancelling_id, run_call, run_calls, run_expired}
use tools_cxx.Timer.Events.Loose.{IsLoose, AreLoose}
use tools_cxx.Timer.Events.Calls.{IsFree, add_timer-IsAdded}

-- Each address that `new` returns is free at that moment.
abbrev pub CanCall : TimerScheduler → Call → Type 0
CanCall s (adding address callback when interval) = IsFree s address
CanCall s (cancelling_id id) = Unit

abbrev pub CanRun : TimerScheduler → List Call → Type 0
CanRun s [] = Unit
CanRun s (call ∷ calls) =
    CanCall s call × ((next : TimerScheduler) → run_call s call ≡ some next → CanRun next calls)

abbrev pub CanRunAll : (ℕ → List Call) → TimerScheduler → List TimerEntry → Type 0
CanRunAll program s [] = Unit
CanRunAll program s (e ∷ l) =
    (t : Timer)
    → s.memory e.timer ≡ some t
    → CanRun s (program t.callback)
      × ((next : TimerScheduler)
          → run_calls s (program t.callback) ≡ some next
          → CanRunAll program next l)

-- What callbacks leave: sets that agree, the expired timers untouched, and every note that was taken.
pub record IsRun (s : TimerScheduler) (l : List TimerEntry) (next : TimerScheduler) : Type 0 where
  pub valid : IsValid next
  pub loose : AreLoose next l
  pub stored : (e : TimerEntry) → Has l e → next.memory e.timer ≡ s.memory e.timer
  pub still_noted : (b : ActiveTimerEntry) → Has s.canceling b → Has next.canceling b
  pub keeps : (address : ℕ) → IsLoose s address → IsLoose next address
  pub pending : next.pending ≡ s.pending

IsRun-none : (s : TimerScheduler) (l : List TimerEntry) → IsValid s → AreLoose s l → IsRun s l s
IsRun-none s l v loose = record {
  valid = v;
  loose = loose;
  stored = λ e m. refl;
  still_noted = λ b m. m;
  keeps = λ address is. is;
  pending = refl;
}

IsRun-trans :
    (r s t : TimerScheduler) (l : List TimerEntry) → IsRun r l s → IsRun s l t → IsRun r l t
IsRun-trans r s t l h k = record {
  valid = k.valid;
  loose = k.loose;
  stored = λ e m. k.stored e m ∙ h.stored e m;
  still_noted = λ b m. k.still_noted b (h.still_noted b m);
  keeps = λ address is. k.keeps address (h.keeps address is);
  pending = k.pending ∙ h.pending;
}

pub IsLoose-cancelled :
    (s : TimerScheduler) (id : TimerId) (next : TimerScheduler)
    → IsCancelled s (entry_of_id id) next
    → (address : ℕ) → IsLoose s address
    → IsLoose next address
IsLoose-cancelled s id next c address is = record {
  timer = is.timer;
  stored = c.untouched address is.absent ∙ is.stored;
  absent = λ a h. is.absent a (c.no_more a h);
  in_range = is.in_range;
}

run_call-IsRun :
    (s : TimerScheduler) (call : Call) (l : List TimerEntry)
    → IsValid s
    → AreLoose s l
    → CanCall s call
    → (next : TimerScheduler) × (run_call s call ≡ some next) × IsRun s l next
unfolding run_call cancel
run_call-IsRun s (adding address callback when interval) l v loose free =
    let (next, id, same, a) = add_timer-IsAdded s address callback when interval v free in
    let apart : (e : TimerEntry) → Has l e → e.timer ≢ address =
      λ e m q. cc (q, free.0, (loose e m).stored) in
    (
      next,
      rw same refl,
      record {
        valid = a.valid;
        loose = λ e m. a.loose e.timer (apart e m) (loose e m);
        stored = λ e m. a.others e.timer (apart e m);
        still_noted = λ b m. subst (λ c. Has c b) (sym a.canceling) m;
        keeps = λ other is. a.loose other (λ q. cc (q, free.0, is.stored)) is;
        pending = a.pending;
      },
    )
run_call-IsRun s (cancelling_id id) l v loose can =
    let (next, same, c) = cancel_timer-IsCancelled s id v in
    let kept : (e : TimerEntry) → Has l e → next.memory e.timer ≡ s.memory e.timer =
      λ e m. c.untouched e.timer (loose e m).absent in
    (
      next,
      same,
      record {
        valid = c.valid;
        loose = λ e m. IsLoose-cancelled s id next c e.timer (loose e m);
        stored = kept;
        still_noted = c.still_noted;
        keeps = IsLoose-cancelled s id next c;
        pending = c.pending;
      },
    )

run_calls-IsRun :
    (s : TimerScheduler) (calls : List Call) (l : List TimerEntry)
    → IsValid s
    → AreLoose s l
    → CanRun s calls
    → (next : TimerScheduler) × (run_calls s calls ≡ some next) × IsRun s l next
unfolding run_calls
run_calls-IsRun s [] l v loose can = (s, refl, IsRun-none s l v loose)
run_calls-IsRun s (call ∷ calls) l v loose can =
    let (mid, first, h) = run_call-IsRun s call l v loose can.0 in
    let (next, last, k) = run_calls-IsRun mid calls l h.valid h.loose (can.1 mid first) in
    (next, rw first last, IsRun-trans s mid next l h k)

-- `l` are all the expired timers, of which those of `rest` still have to run.
pub run_expired-IsRun :
    (program : ℕ → List Call) (s : TimerScheduler) (l rest : List TimerEntry)
    → IsValid s
    → AreLoose s l
    → ((e : TimerEntry) → Has rest e → Has l e)
    → CanRunAll program s rest
    → (next : TimerScheduler) × (run_expired program s rest ≡ some next) × IsRun s l next
unfolding run_expired
run_expired-IsRun program s l [] v loose part can = (s, refl, IsRun-none s l v loose)
run_expired-IsRun program s l (e ∷ rest) v loose part can =
    let is = loose e (part e (inl refl)) in
    let (calls, later) = can is.timer is.stored in
    let (mid, first, h) = run_calls-IsRun s (program is.timer.callback) l v loose calls in
    let (next, last, k) =
      run_expired-IsRun program mid l rest h.valid h.loose (λ f m. part f (inr m))
        (later mid first) in
    (next, rw (is.stored, first) last, IsRun-trans s mid next l h k)
