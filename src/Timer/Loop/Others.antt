-- ===== src/Timer/Loop/Others.antt =====
-- What other threads call on the scheduler.
use tools_cxx.Prelude.{
  ℕ, suc, ◌≡◌, ◌≢◌, refl, sym, ap, ◌∙◌, inl, inr, some, List, [], ◌∷◌, ◌++◌, update_at,
  update_at_self, update_at-ne, subst,
}
use tools_cxx.Base.Timestamp.{Timestamp, Seconds}
use tools_cxx.Timer.Ordered.{Has}
use tools_cxx.Timer.Ordered.Laws.{Has-All, All-Has}
use tools_cxx.Timer.State.{Timer, make, TimerId, Functor, inserting, cancelling, TimerScheduler}
use tools_cxx.Timer.Scheduler.{cancel, add_timer}
use tools_cxx.Timer.Scheduler.Invariant.{IsValid, IsValid-sets}
use tools_cxx.Timer.Events.Loose.{IsLoose, IsLoose-same, store, IsValid-store, IsAbsent-none}
use tools_cxx.Timer.Events.Calls.{IsFree}
use tools_cxx.Timer.Events.Handle.{Has-parts}
use tools_cxx.Timer.Loop.{Other, adds, cancels, quits, run_other, run_others, quit}
use tools_cxx.Timer.Loop.Pending.{waiting, AreApart, AreReady}

-- The sets agree, and the timers that wait for their insertion are on the heap and in neither set.
pub record IsReady (s : TimerScheduler) : Type 0 where
  pub valid : IsValid s
  pub pending : AreReady s s.pending

-- Each address that `new` returns is free at that moment.
abbrev pub CanOther : TimerScheduler → Other → Type 0
CanOther s (adds address callback when interval) = IsFree s address
CanOther s (cancels id) = Unit
CanOther s quits = Unit

abbrev pub CanOthers : TimerScheduler → List Other → Type 0
CanOthers s [] = Unit
CanOthers s (call ∷ calls) =
    CanOther s call
    × ((next : TimerScheduler) → run_other s call ≡ some next → CanOthers next calls)

waiting-append : (l : List Functor) (a : ℕ) → waiting (l ++ inserting a ∷ []) ≡ waiting l ++ a ∷ []
waiting-append [] a = refl
waiting-append (inserting b ∷ l) a = ap (λ w. b ∷ w) (waiting-append l a)
waiting-append (cancelling id ∷ l) a = waiting-append l a

waiting-cancelling :
    (l : List Functor) (id : TimerId) → waiting (l ++ cancelling id ∷ []) ≡ waiting l
waiting-cancelling [] id = refl
waiting-cancelling (inserting b ∷ l) id = ap (λ w. b ∷ w) (waiting-cancelling l id)
waiting-cancelling (cancelling other ∷ l) id = waiting-cancelling l id

AreApart-append :
    (l : List ℕ) (a : ℕ) → AreApart l → ((b : ℕ) → Has l b → b ≢ a) → AreApart (l ++ a ∷ [])
AreApart-append [] a h ne = (tt, tt)
AreApart-append (b ∷ l) a h ne = (
  All-Has (λ c. c ≢ b) (l ++ a ∷ [])
      (λ c m. elim (Has-parts l (a ∷ []) c m) [
        | inl old ↦ Has-All (λ x. x ≢ b) l h.0 c old
        | inr new ↦ elim new [ inl e ↦ λ q. ne b (inl refl) (sym q ∙ e) | inr nil ↦ elim nil [ ] ]
      ]),
  AreApart-append l a h.1 (λ c m. ne c (inr m)),
)

pub IsReady-same :
    (s n : TimerScheduler)
    → s.memory ≡ n.memory
    → s.timers ≡ n.timers
    → s.active ≡ n.active
    → waiting s.pending ≡ waiting n.pending
    → IsReady s
    → IsReady n
IsReady-same s n hm ht ha hw r = record {
  valid = IsValid-sets s n hm ht ha r.valid;
  pending = record {
    loose = λ a m. IsLoose-same s n a hm ha (r.pending.loose a (subst (λ l. Has l a) (sym hw) m));
    apart = subst AreApart hw r.pending.apart;
  };
}

-- A timer that another thread has made and left for its insertion.
abbrev left_over : TimerScheduler → ℕ → ℕ → Timestamp → Seconds → TimerScheduler
left_over s address callback when interval = record s {
  memory = update_at s.memory address (some (make callback when interval s.created));
  created = suc s.created;
  pending = s.pending ++ inserting address ∷ [];
  eventfd = suc s.eventfd;
}

module _ (s : TimerScheduler) (address callback : ℕ) (when : Timestamp) (interval : Seconds)
    (r : IsReady s) (free : IsFree s address) where
  abbrev next : TimerScheduler
  next = left_over s address callback when interval

  abbrev new_timer : Timer
  new_timer = make callback when interval s.created

  apart_new : (a : ℕ) → IsLoose s a → a ≢ address
  apart_new a is q = cc (q, free.0, is.stored)

  old-IsLoose : (a : ℕ) → IsLoose s a → IsLoose next a
  old-IsLoose a is = record {
    timer = is.timer;
    stored = update_at-ne s.memory address (some new_timer) a (apart_new a is) ∙ is.stored;
    absent = is.absent;
    in_range = is.in_range;
  }

  new-IsLoose : IsLoose next address
  new-IsLoose = record {
    timer = new_timer;
    stored = update_at_self s.memory address (some new_timer);
    absent = IsAbsent-none s address r.valid free.0;
    in_range = free.1;
  }

  next-loose : (a : ℕ) → Has (waiting s.pending ++ address ∷ []) a → IsLoose next a
  next-loose a m = elim (Has-parts (waiting s.pending) (address ∷ []) a m) [
    | inl old ↦ old-IsLoose a (r.pending.loose a old)
    | inr new ↦ elim new [
      | inl e ↦ subst (IsLoose next) (sym e) new-IsLoose
      | inr nil ↦ elim nil [ ]
    ]
  ]

  added-IsReady : IsReady next
  added-IsReady = record {
    valid =
        IsValid-sets (store s address (some new_timer)) next refl refl refl (
          IsValid-store s address (some new_timer) (IsAbsent-none s address r.valid free.0)
            r.valid);
    pending = record {
      loose = λ a m. next-loose a (subst (λ l. Has l a) (waiting-append s.pending address) m);
      apart = subst AreApart (sym (waiting-append s.pending address)) (
          AreApart-append (waiting s.pending) address r.pending.apart
            (λ b m. apart_new b (r.pending.loose b m)));
    };
  }

run_other-IsReady :
    (s : TimerScheduler) (call : Other)
    → IsReady s
    → CanOther s call
    → (next : TimerScheduler) × (run_other s call ≡ some next) × IsReady next
unfolding run_other cancel quit add_timer
run_other-IsReady s (adds address callback when interval) r free =
    (_, refl, added-IsReady s address callback when interval r free)
run_other-IsReady s (cancels id) r can =
    (_, refl, IsReady-same s _ refl refl refl (sym (waiting-cancelling s.pending id)) r)
run_other-IsReady s quits r can = (_, refl, IsReady-same s _ refl refl refl refl r)

pub run_others-IsReady :
    (s : TimerScheduler) (calls : List Other)
    → IsReady s
    → CanOthers s calls
    → (next : TimerScheduler) × (run_others s calls ≡ some next) × IsReady next
unfolding run_others
run_others-IsReady s [] r can = (s, refl, r)
run_others-IsReady s (call ∷ calls) r can =
    let (mid, first, m) = run_other-IsReady s call r can.0 in
    let (next, last, n) = run_others-IsReady mid calls m (can.1 mid first) in
    (next, rw first last, n)
