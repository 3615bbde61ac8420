-- ===== src/Timer/Scheduler/Cancel.antt =====
-- Cancelling a timer.
use tools_cxx.Prelude.{
  ℕ, ◌≡◌, ◌≢◌, refl, sym, ap, ◌∙◌, inl, inr, true, false, none, some, length, update_at-ne, arith,
  Bool-cases,
}
use tools_cxx.Timer.Ordered.{find, insert, erase, Has}
use tools_cxx.Timer.Ordered.Laws.{
  length-erase, find-Has, Has-find, Has-insert_new, Has-insert_old, Has-erase, Has-erase_other,
  IsSorted-erase,
}
use tools_cxx.Timer.State.{
  Timer, TimerId, TimerEntry, ActiveTimerEntry, entry_before, active_before, TimerScheduler,
}
use tools_cxx.Timer.Scheduler.{timer_entry, active_entry, deleted, drop_timer, cancel_timer}
use tools_cxx.Timer.Scheduler.Orders.{entry-IsOrder, active-IsOrder}
use tools_cxx.Timer.Scheduler.Invariant.{
  IsScheduled, IsActive, IsValid, IsAbsent, same_size-IsValid, IsValid-sets,
}

module _ (s : TimerScheduler) (a : ActiveTimerEntry) (t : Timer) (v : IsValid s)
    (m : Has s.active a) (is : IsActive s a t) where
  deleted-IsScheduled :
      (e : TimerEntry)
      → Has (erase entry_before s.timers (timer_entry a.timer t)) e
      → (u : Timer) × IsScheduled (deleted s a t) e u
  deleted-IsScheduled e h =
      let (old, ne) =
        Has-erase entry_before entry-IsOrder s.timers (timer_entry a.timer t) e v.timers_sorted h in
      let (u, at) = v.scheduled e old in
      let other : e.timer ≢ a.timer = λ q. ne (cc (q, at.entry, at.stored, is.stored)) in
      (
        u,
        record {
          stored = update_at-ne s.memory a.timer none e.timer other ∙ at.stored;
          entry = at.entry;
          active =
              Has-erase_other active_before active-IsOrder s.active a (active_entry e.timer u)
                at.active (λ q. other (ap (λ b. b.timer) q));
          in_range = at.in_range;
        },
      )

  deleted_known :
      (b : ActiveTimerEntry)
      → Has (erase active_before s.active a) b
      → (u : Timer) × IsActive (deleted s a t) b u
  deleted_known b h =
      let (old, ne) = Has-erase active_before active-IsOrder s.active a b v.active_sorted h in
      let (u, at) = v.known b old in
      let other : b.timer ≢ a.timer = λ q. ne (cc (q, at.entry, at.stored, is.stored, is.entry)) in
      (
        u,
        record {
          stored = update_at-ne s.memory a.timer none b.timer other ∙ at.stored;
          entry = at.entry;
          scheduled =
              Has-erase_other entry_before entry-IsOrder s.timers (timer_entry a.timer t)
                (timer_entry b.timer u) at.scheduled (λ q. other (ap (λ b. b.timer) q));
        },
      )

  sizes_erased :
      length (erase entry_before s.timers (timer_entry a.timer t))
      ≡ length (erase active_before s.active a)
  sizes_erased = omega (
    arith,
    v.sizes,
    length-erase entry_before s.timers (timer_entry a.timer t) (
        find-Has entry_before entry-IsOrder s.timers (timer_entry a.timer t) v.timers_sorted
          is.scheduled),
    length-erase active_before s.active a
        (find-Has active_before active-IsOrder s.active a v.active_sorted m),
  )

  pub deleted-IsValid : IsValid (deleted s a t)
  deleted-IsValid = record {
    timers_sorted =
        IsSorted-erase entry_before entry-IsOrder s.timers (timer_entry a.timer t) v.timers_sorted;
    active_sorted = IsSorted-erase active_before active-IsOrder s.active a v.active_sorted;
    sizes = sizes_erased;
    scheduled = deleted-IsScheduled;
    known = deleted_known;
  }

-- What cancelling leaves: the entry is not active, every other is as before, and during the callbacks
-- an entry that was not active is noted.
pub record IsCancelled (s : TimerScheduler) (a : ActiveTimerEntry) (next : TimerScheduler)
    : Type 0 where
  pub valid : IsValid next
  pub gone : Has next.active a → ⊥
  pub kept : (b : ActiveTimerEntry) → b ≢ a → Has s.active b → Has next.active b
  pub no_more : (b : ActiveTimerEntry) → Has next.active b → Has s.active b
  pub others : (address : ℕ) → address ≢ a.timer → next.memory address ≡ s.memory address
  pub untouched : (address : ℕ) → IsAbsent s address → next.memory address ≡ s.memory address
  pub calling : next.calling ≡ s.calling
  pub pending : next.pending ≡ s.pending
  pub still_noted : (b : ActiveTimerEntry) → Has s.canceling b → Has next.canceling b
  pub noted : s.calling ≡ true → find active_before s.active a ≡ false → Has next.canceling a

abbrev pub entry_of_id : TimerId → ActiveTimerEntry
entry_of_id id = record { timer = id.timer; sequence = id.sequence }

abbrev note : TimerScheduler → ActiveTimerEntry → TimerScheduler
note s a = record s { canceling = insert active_before s.canceling a }

cancel_unknown :
    (s : TimerScheduler) (id : TimerId)
    → IsValid s
    → find active_before s.active (entry_of_id id) ≡ false
    → (next : TimerScheduler) × (cancel_timer s id ≡ some next)
      × IsCancelled s (entry_of_id id) next
unfolding cancel_timer
cancel_unknown s id v f =
    let a = entry_of_id id in
    let absent : Has s.active a → ⊥ =
      λ m. cc (f, find-Has active_before active-IsOrder s.active a v.active_sorted m) in
    elim (Bool-cases s.calling) [
      | inl c ↦ (
        note s a,
        rw (same_size-IsValid v, f, c, same_size-IsValid v) refl,
        record {
          valid = IsValid-sets s (note s a) refl refl refl v;
          gone = absent;
          kept = λ b ne m. m;
          no_more = λ b m. m;
          others = λ address ne. refl;
          untouched = λ address absent. refl;
          calling = refl;
          pending = refl;
          still_noted = λ b m. Has-insert_old active_before active-IsOrder s.canceling a b m;
          noted = λ c f. Has-insert_new active_before active-IsOrder s.canceling a;
        },
      )
      | inr c ↦ (
        s,
        rw (same_size-IsValid v, f, c, same_size-IsValid v) refl,
        record {
          valid = v;
          gone = absent;
          kept = λ b ne m. m;
          no_more = λ b m. m;
          others = λ address ne. refl;
          untouched = λ address absent. refl;
          calling = refl;
          pending = refl;
          still_noted = λ b m. m;
          noted = λ d f. cc (c, d);
        },
      )
    ]

-- On sets that agree, cancelling any identifier meets no failed assertion and no dangling pointer. It
-- leaves sets that agree, without its entry and with every other timer as it was; and during the callbacks an
-- entry that is not active is noted.
pub cancel_timer-IsCancelled :
    (s : TimerScheduler) (id : TimerId)
    → IsValid s
    → (next : TimerScheduler) × (cancel_timer s id ≡ some next)
      × IsCancelled s (entry_of_id id) next
unfolding cancel_timer drop_timer
cancel_timer-IsCancelled s id v =
    let a = entry_of_id id in
    elim (Bool-cases (find active_before s.active a)) [
      | inl f ↦
          let m = Has-find active_before active-IsOrder s.active a f in
          let (t, is) = v.known a m in
          let valid = deleted-IsValid s a t v m is in
          (
            deleted s a t,
            rw (same_size-IsValid v, f, is.stored, same_size-IsValid valid) refl,
            record {
              valid = valid;
              gone = λ h.
                  (Has-erase active_before active-IsOrder s.active a a v.active_sorted h).1 refl;
              kept = λ b ne h. Has-erase_other active_before active-IsOrder s.active a b h ne;
              no_more =
                  λ b h. (Has-erase active_before active-IsOrder s.active a b v.active_sorted h).0;
              others = λ address ne. update_at-ne s.memory a.timer none address ne;
              untouched = λ address absent.
                  update_at-ne s.memory a.timer none address (λ q. absent a m (sym q));
              calling = refl;
              pending = refl;
              still_noted = λ b m. m;
              noted = λ c g. cc (f, g);
            },
          )
      | inr f ↦ cancel_unknown s id v f
    ]
