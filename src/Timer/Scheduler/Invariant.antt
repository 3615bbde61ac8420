-- ===== src/Timer/Scheduler/Invariant.antt =====
-- The invariant of the scheduler's sets: both are sorted, they have the same size, and they hold the
-- same timers, each one on the heap.
use tools_cxx.Prelude.{
  ℕ, suc, ◌≡◌, ◌≢◌, ◌<◌, refl, sym, ap, ◌∙◌, inl, inr, true, false, ==_iff, some, length, subst,
}
use tools_cxx.Timer.Ordered.{find, insert, IsSorted, Has}
use tools_cxx.Timer.Ordered.Laws.{
  length-insert, Has-insert, Has-insert_new, Has-insert_old, IsSorted-insert, find-absent,
}
use tools_cxx.Timer.State.{
  Timer, TimerEntry, ActiveTimerEntry, entry_before, active_before, TimerScheduler,
}
use tools_cxx.Timer.Scheduler.{
  timer_entry, active_entry, same_size, inserted, insert_timer, last_address,
}
use tools_cxx.Timer.Scheduler.Orders.{entry-IsOrder, active-IsOrder}

-- The entry of `timers` is that of a timer on the heap, which is active.
pub record IsScheduled (s : TimerScheduler) (e : TimerEntry) (t : Timer) : Type 0 where
  pub stored : s.memory e.timer ≡ some t
  pub entry : e ≡ timer_entry e.timer t
  pub active : Has s.active (active_entry e.timer t)
  pub in_range : e.timer < last_address

-- The entry of `active` is that of a timer on the heap, which is in `timers`.
pub record IsActive (s : TimerScheduler) (a : ActiveTimerEntry) (t : Timer) : Type 0 where
  pub stored : s.memory a.timer ≡ some t
  pub entry : a ≡ active_entry a.timer t
  pub scheduled : Has s.timers (timer_entry a.timer t)

pub record IsValid (s : TimerScheduler) : Type 0 where
  pub timers_sorted : IsSorted entry_before s.timers
  pub active_sorted : IsSorted active_before s.active
  pub sizes : length s.timers ≡ length s.active
  pub scheduled : (e : TimerEntry) → Has s.timers e → (t : Timer) × IsScheduled s e t
  pub known : (a : ActiveTimerEntry) → Has s.active a → (t : Timer) × IsActive s a t

-- No active timer lies at the address.
abbrev pub IsAbsent : TimerScheduler → ℕ → Type 0
IsAbsent s address = (a : ActiveTimerEntry) → Has s.active a → a.timer ≢ address

-- The sizes are the same, as the assertions test it.
pub same_size-IsValid : {s : TimerScheduler} → IsValid s → same_size s ≡ true
same_size-IsValid {s = s} v = (==_iff (length s.timers) (length s.active)).1 v.sizes

-- The invariant reads the heap and the two sets only.
pub IsValid-sets :
    (s n : TimerScheduler)
    → s.memory ≡ n.memory
    → s.timers ≡ n.timers
    → s.active ≡ n.active
    → IsValid s
    → IsValid n
IsValid-sets s n hm ht ha v = record {
  timers_sorted = subst (IsSorted entry_before) ht v.timers_sorted;
  active_sorted = subst (IsSorted active_before) ha v.active_sorted;
  sizes = sym (ap length ht) ∙ v.sizes ∙ ap length ha;
  scheduled = λ e m.
      let (t, is) = v.scheduled e (subst (λ l. Has l e) (sym ht) m) in
      (
        t,
        record {
          stored = sym (ap (λ f. f e.timer) hm) ∙ is.stored;
          entry = is.entry;
          active = subst (λ l. Has l (active_entry e.timer t)) ha is.active;
          in_range = is.in_range;
        },
      );
  known = λ a m.
      let (t, is) = v.known a (subst (λ l. Has l a) (sym ha) m) in
      (
        t,
        record {
          stored = sym (ap (λ f. f a.timer) hm) ∙ is.stored;
          entry = is.entry;
          scheduled = subst (λ l. Has l (timer_entry a.timer t)) ht is.scheduled;
        },
      );
}

module _ (s : TimerScheduler) (address : ℕ) (t : Timer) (v : IsValid s) where
  pub timers-absent : IsAbsent s address → Has s.timers (timer_entry address t) → ⊥
  timers-absent absent m =
      let (u, is) = v.scheduled (timer_entry address t) m in
      absent (active_entry address u) is.active refl

  module _ (stored : s.memory address ≡ some t) (absent : IsAbsent s address)
      (h : address < last_address) where
    inserted-IsScheduled :
        (e : TimerEntry)
        → Has (insert entry_before s.timers (timer_entry address t)) e
        → (u : Timer) × IsScheduled (inserted s address t) e u
    inserted-IsScheduled e m =
        elim (Has-insert entry_before entry-IsOrder s.timers (timer_entry address t) e m) [
          | inl same ↦
              subst (λ f. (u : Timer) × IsScheduled (inserted s address t) f u) (sym same)
                (
                  t,
                  record {
                    stored = stored;
                    entry = refl;
                    active =
                        Has-insert_new active_before active-IsOrder s.active
                          (active_entry address t);
                    in_range = h;
                  },
                )
          | inr old ↦
              let (u, is) = v.scheduled e old in
              (
                u,
                record {
                  stored = is.stored;
                  entry = is.entry;
                  active =
                      Has-insert_old active_before active-IsOrder s.active (active_entry address t)
                        (active_entry e.timer u) is.active;
                  in_range = is.in_range;
                },
              )
        ]

    inserted_known :
        (a : ActiveTimerEntry)
        → Has (insert active_before s.active (active_entry address t)) a
        → (u : Timer) × IsActive (inserted s address t) a u
    inserted_known a m =
        elim (Has-insert active_before active-IsOrder s.active (active_entry address t) a m) [
          | inl same ↦
              subst (λ b. (u : Timer) × IsActive (inserted s address t) b u) (sym same)
                (
                  t,
                  record {
                    stored = stored;
                    entry = refl;
                    scheduled =
                        Has-insert_new entry_before entry-IsOrder s.timers (timer_entry address t);
                  },
                )
          | inr old ↦
              let (u, is) = v.known a old in
              (
                u,
                record {
                  stored = is.stored;
                  entry = is.entry;
                  scheduled =
                      Has-insert_old entry_before entry-IsOrder s.timers (timer_entry address t)
                        (timer_entry a.timer u) is.scheduled;
                },
              )
        ]

    not_scheduled : find entry_before s.timers (timer_entry address t) ≡ false
    not_scheduled =
        find-absent entry_before entry-IsOrder s.timers (timer_entry address t)
          (timers-absent absent)

    not_active : find active_before s.active (active_entry address t) ≡ false
    not_active =
        find-absent active_before active-IsOrder s.active (active_entry address t)
          (λ m. absent (active_entry address t) m refl)

    pub inserted-IsValid : IsValid (inserted s address t)
    inserted-IsValid = record {
      timers_sorted =
          IsSorted-insert entry_before entry-IsOrder s.timers (timer_entry address t)
            v.timers_sorted;
      active_sorted =
          IsSorted-insert active_before active-IsOrder s.active (active_entry address t)
            v.active_sorted;
      sizes =
          length-insert entry_before s.timers (timer_entry address t) not_scheduled
          ∙ ap suc v.sizes
          ∙ sym (length-insert active_before s.active (active_entry address t) not_active);
      scheduled = inserted-IsScheduled;
      known = inserted_known;
    }

    -- No assertion of `insert` fails.
    pub insert_timer-some : insert_timer s address ≡ some (inserted s address t)
    unfolding insert_timer
    insert_timer-some =
        rw
          (
            same_size-IsValid v,
            stored,
            not_scheduled,
            not_active,
            same_size-IsValid inserted-IsValid,
          )
          refl
