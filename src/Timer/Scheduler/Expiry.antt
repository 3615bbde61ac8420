-- ===== src/Timer/Scheduler/Expiry.antt =====
-- Which timers expire.
use tools_cxx.Prelude.{
  ◌≡◌, ◌<◌, refl, sym, inl, inr, true, false, some, List, [], ◌∷◌, ◌++◌, subst, arith, All,
}
use tools_cxx.Base.Timestamp.{Timestamp, before}
use tools_cxx.Timer.Ordered.{below, from, Has}
use tools_cxx.Timer.Ordered.Laws.{below-append-from, below-All, from-All, All-Has, Has-All}
use tools_cxx.Timer.State.{Timer, TimerEntry, ActiveTimerEntry, entry_before, TimerScheduler}
use tools_cxx.Timer.Scheduler.{timer_entry, get_expired, is_later, sentry, last_address}
use tools_cxx.Timer.Scheduler.Orders.{entry-IsOrder}
use tools_cxx.Timer.Scheduler.Invariant.{
  IsScheduled, IsValid, IsAbsent, same_size-IsValid, IsValid-sets,
}
use tools_cxx.Timer.Scheduler.Erased.{with_sets, erase_active-IsValid}

-- What expiry at `now` does: `expired` are the entries not after `now`, those after it stay, no timer
-- moves, and the expired ones are no longer active.
pub record IsExpiry (s : TimerScheduler) (now : Timestamp) (expired : List TimerEntry)
    (next : TimerScheduler) : Type 0 where
  pub valid : IsValid next
  pub due : All (λ e. before now e.when ≡ false) expired
  pub later : All (λ e. before now e.when ≡ true) next.timers
  pub whole : expired ++ next.timers ≡ s.timers
  pub rest : next ≡ with_sets s next.timers next.active
  pub here : (e : TimerEntry) → Has expired e → Has s.timers e
  pub absent : (e : TimerEntry) → Has expired e → IsAbsent next e.timer

due_of_before :
    (e : TimerEntry) (now : Timestamp)
    → entry_before e (sentry now) ≡ true
    → before now e.when ≡ false
unfolding entry_before
due_of_before e now h = ground arith

later_of_before :
    (e : TimerEntry) (now : Timestamp)
    → e.timer < last_address
    → entry_before e (sentry now) ≡ false
    → before now e.when ≡ true
unfolding entry_before
later_of_before e now r h = ground arith

pub Has-append : {A : Type 0} (xs ys : List A) (a : A) → Has xs a → Has (xs ++ ys) a
Has-append [] ys a m = elim m [ ]
Has-append (x ∷ xs) ys a (inl e) = inl e
Has-append (x ∷ xs) ys a (inr m) = inr (Has-append xs ys a m)

pub Has-append_right : {A : Type 0} (xs ys : List A) (a : A) → Has ys a → Has (xs ++ ys) a
Has-append_right [] ys a m = m
Has-append_right (x ∷ xs) ys a m = inr (Has-append_right xs ys a m)

is_later-All :
    (l : List TimerEntry) (now : Timestamp)
    → All (λ e. before now e.when ≡ true) l
    → is_later l now ≡ true
is_later-All [] now h = refl
is_later-All (e ∷ l) now h = h.0

module _ (s : TimerScheduler) (now : Timestamp) (v : IsValid s) where
  taken : List TimerEntry
  taken = below entry_before s.timers (sentry now)

  kept : List TimerEntry
  kept = from entry_before s.timers (sentry now)

  all_here : taken ++ kept ≡ s.timers
  unfolding taken kept
  all_here = below-append-from entry_before s.timers (sentry now)

  kept-later : All (λ e. before now e.when ≡ true) kept
  unfolding kept
  kept-later =
      All-Has (λ e. before now e.when ≡ true) kept
        (λ e m.
          let old : Has s.timers e =
            subst (λ l. Has l e) all_here (Has-append_right taken kept e m) in
          let (t, is) = v.scheduled e old in
          later_of_before e now is.in_range (
            Has-All (λ x. entry_before x (sentry now) ≡ false) kept
              (from-All entry_before entry-IsOrder s.timers (sentry now) v.timers_sorted) e m))

  taken-due : (e : TimerEntry) → Has taken e → before now e.when ≡ false
  unfolding taken
  taken-due e m = due_of_before e now (
      Has-All (λ x. entry_before x (sentry now) ≡ true) taken
        (below-All entry_before s.timers (sentry now)) e m)

  taken-IsScheduled : (e : TimerEntry) → Has taken e → (t : Timer) × IsScheduled s e t
  taken-IsScheduled e m = v.scheduled e (subst (λ l. Has l e) all_here (Has-append taken kept e m))

  split-IsValid : IsValid (with_sets s (taken ++ kept) s.active)
  split-IsValid = IsValid-sets s (with_sets s (taken ++ kept) s.active) refl (sym all_here) refl v

  taken-IsAbsent :
      (left : List ActiveTimerEntry)
      → IsValid (with_sets s kept left)
      → (e : TimerEntry) → Has taken e
      → IsAbsent (with_sets s kept left) e.timer
  taken-IsAbsent left valid e m a h q =
      let (u, at) = valid.known a h in
      let (t, is) = taken-IsScheduled e m in
      let same : timer_entry a.timer u ≡ e = cc (q, at.stored, is.stored, is.entry) in
      let late : before now e.when ≡ true =
        Has-All (λ e. before now e.when ≡ true) kept kept-later e
          (subst (Has kept) same at.scheduled) in
      cc (late, taken-due e m)

  -- On sets that agree, `get_expired` meets no failed assertion and no dangling pointer: it takes
  -- exactly the timers that are not after `now` out of both sets, in order.
  pub get_expired-IsExpiry :
      (expired : List TimerEntry) × (next : TimerScheduler) × (get_expired s now
        ≡ some (expired, next))
      × IsExpiry s now expired next
  unfolding get_expired taken kept
  get_expired-IsExpiry =
      let (left, same, valid) = erase_active-IsValid s taken kept s.active split-IsValid in
      (
        taken,
        with_sets s kept left,
        rw (same_size-IsValid v, is_later-All kept now kept-later, same, same_size-IsValid valid)
            refl,
        record {
          valid = valid;
          due = All-Has (λ e. before now e.when ≡ false) taken taken-due;
          later = kept-later;
          whole = all_here;
          rest = refl;
          here = λ e m. subst (λ l. Has l e) all_here (Has-append taken kept e m);
          absent = taken-IsAbsent left valid;
        },
      )
