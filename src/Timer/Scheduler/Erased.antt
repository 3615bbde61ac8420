-- ===== src/Timer/Scheduler/Erased.antt =====
-- Taking expired entries out of the active set.
use tools_cxx.Prelude.{◌≡◌, ◌≢◌, refl, ap, inl, inr, true, some, List, [], ◌∷◌, ◌++◌, arith}
use tools_cxx.Timer.Ordered.{erase, Has}
use tools_cxx.Timer.Ordered.Laws.{
  length-erase, find-Has, Has-erase, Has-erase_other, IsSorted-erase, Has-All,
}
use tools_cxx.Timer.State.{
  Timer, TimerEntry, ActiveTimerEntry, entry_before, active_before, TimerScheduler,
}
use tools_cxx.Timer.Scheduler.{active_entry, erase_active}
use tools_cxx.Timer.Scheduler.Orders.{entry-IsOrder, active-IsOrder}
use tools_cxx.Timer.Scheduler.Invariant.{IsScheduled, IsActive, IsValid}

abbrev pub with_sets : TimerScheduler → List TimerEntry → List ActiveTimerEntry → TimerScheduler
with_sets s timers active = record s { timers = timers; active = active }

-- The first timer leaves both sets.
module _ (s : TimerScheduler) (e : TimerEntry) (l : List TimerEntry)
    (active : List ActiveTimerEntry) (v : IsValid (with_sets s (e ∷ l) active)) (t : Timer)
    (is : IsScheduled (with_sets s (e ∷ l) active) e t) where
  rest-IsScheduled :
      (f : TimerEntry)
      → Has l f
      → (u : Timer) × IsScheduled
          (with_sets s l (erase active_before active (active_entry e.timer t)))
          f
          u
  rest-IsScheduled f m =
      let (u, at) = v.scheduled f (inr m) in
      let far : entry_before e f ≡ true =
        Has-All (λ y. entry_before e y ≡ true) l v.timers_sorted.0 f m in
      let other : f.timer ≢ e.timer = λ q.
        let same : f ≡ e = cc (q, at.entry, at.stored, is.stored, is.entry) in
        cc (same, far, entry-IsOrder.irreflexive e) in
      (
        u,
        record {
          stored = at.stored;
          entry = at.entry;
          active =
              Has-erase_other active_before active-IsOrder active (active_entry e.timer t)
                (active_entry f.timer u) at.active (λ q. other (ap (λ b. b.timer) q));
          in_range = at.in_range;
        },
      )

  rest_known :
      (b : ActiveTimerEntry)
      → Has (erase active_before active (active_entry e.timer t)) b
      → (u : Timer) × IsActive
          (with_sets s l (erase active_before active (active_entry e.timer t)))
          b
          u
  rest_known b h =
      let (old, ne) =
        Has-erase active_before active-IsOrder active (active_entry e.timer t) b v.active_sorted
          h in
      let (u, at) = v.known b old in
      elim at.scheduled [
        | inl same ↦
            let q : b.timer ≡ e.timer = ap (λ f. f.timer) same in
            absurd (ne (cc (q, at.entry, at.stored, is.stored)))
        | inr m ↦ (u, record { stored = at.stored; entry = at.entry; scheduled = m })
      ]

  rest-IsValid : IsValid (with_sets s l (erase active_before active (active_entry e.timer t)))
  rest-IsValid = record {
    timers_sorted = v.timers_sorted.1;
    active_sorted =
        IsSorted-erase active_before active-IsOrder active (active_entry e.timer t) v.active_sorted;
    sizes = omega (
      arith,
      v.sizes,
      length-erase active_before active (active_entry e.timer t) (
          find-Has active_before active-IsOrder active (active_entry e.timer t) v.active_sorted
            is.active),
    );
    scheduled = rest-IsScheduled;
    known = rest_known;
  }

pub erase_active-IsValid :
    (s : TimerScheduler) (expired rest : List TimerEntry) (active : List ActiveTimerEntry)
    → IsValid (with_sets s (expired ++ rest) active)
    → (left : List ActiveTimerEntry) × (erase_active (with_sets s rest active) expired
        ≡ some (with_sets s rest left))
      × IsValid (with_sets s rest left)
unfolding erase_active
erase_active-IsValid s [] rest active v = (active, refl, v)
erase_active-IsValid s (e ∷ expired) rest active v =
    let (t, is) = v.scheduled e (inl refl) in
    let (left, same, valid) =
      erase_active-IsValid s expired rest (erase active_before active (active_entry e.timer t))
        (rest-IsValid s e (expired ++ rest) active v t is) in
    (left, rw is.stored same, valid)
