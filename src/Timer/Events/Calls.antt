-- ===== src/Timer/Events/Calls.antt =====
-- What callbacks do to the scheduler by adding and cancelling timers.
use tools_cxx.Prelude.{
  ℕ, suc, ◌≡◌, ◌≢◌, ◌<◌, refl, true, none, some, update_at, update_at-ne, update_at_self,
}
use tools_cxx.Base.Timestamp.{Timestamp, Seconds}
use tools_cxx.Timer.Ordered.{Has}
use tools_cxx.Timer.Ordered.Laws.{Has-insert_new, Has-insert_old}
use tools_cxx.Timer.State.{
  Timer, make, TimerId, ActiveTimerEntry, entry_before, active_before, TimerScheduler,
}
use tools_cxx.Timer.Scheduler.{timer_entry, active_entry, last_address, inserted, add_timer}
use tools_cxx.Timer.Scheduler.Orders.{entry-IsOrder, active-IsOrder}
use tools_cxx.Timer.Scheduler.Invariant.{
  IsValid, IsAbsent, inserted-IsValid, insert_timer-some, IsValid-sets,
}
use tools_cxx.Timer.Scheduler.Cancel.{entry_of_id}
use tools_cxx.Timer.Events.Loose.{IsLoose, store, IsValid-store, IsLoose-inserted, IsAbsent-none}

-- `new` may return the address.
abbrev pub IsFree : TimerScheduler → ℕ → Type 0
IsFree s address = (s.memory address ≡ none) × (address < last_address)

abbrev timer_of : TimerScheduler → ℕ → Timestamp → Seconds → Timer
timer_of s callback when interval = make callback when interval s.created

abbrev made : TimerScheduler → ℕ → ℕ → Timestamp → Seconds → TimerScheduler
made s address callback when interval = record s {
  memory = update_at s.memory address (some (timer_of s callback when interval));
  created = suc s.created;
}

-- What adding a timer leaves: the identifier is that of a timer in both sets, the others stay.
pub record IsAdded (s : TimerScheduler) (address : ℕ) (when : Timestamp) (next : TimerScheduler)
    (id : TimerId) : Type 0 where
  pub valid : IsValid next
  pub scheduled : Has next.timers (record { when = when; timer = address })
  pub active : Has next.active (entry_of_id id)
  pub kept : (b : ActiveTimerEntry) → Has s.active b → Has next.active b
  pub others : (other : ℕ) → other ≢ address → next.memory other ≡ s.memory other
  pub loose : (other : ℕ) → other ≢ address → IsLoose s other → IsLoose next other
  pub calling : next.calling ≡ s.calling
  pub canceling : next.canceling ≡ s.canceling
  pub pending : next.pending ≡ s.pending

IsLoose-created :
    (s : TimerScheduler) (count other : ℕ)
    → IsLoose s other
    → IsLoose (record s { created = count }) other
IsLoose-created s count other is = record {
  timer = is.timer;
  stored = is.stored;
  absent = is.absent;
  in_range = is.in_range;
}

module _ (s : TimerScheduler) (address callback : ℕ) (when : Timestamp) (interval : Seconds)
    (v : IsValid s) (free : IsFree s address) where
  made-IsValid : IsValid (made s address callback when interval)
  made-IsValid =
      IsValid-sets (store s address (some (timer_of s callback when interval)))
        (made s address callback when interval) refl refl refl
        (IsValid-store s address (some (timer_of s callback when interval))
          (IsAbsent-none s address v free.0) v)

  -- Adding a timer in the scheduler's thread, on sets that agree and at an address that is free, meets
  -- no failed assertion; the sets agree, hold the new timer under its identifier, and keep the others.
  pub add_timer-IsAdded :
      (next : TimerScheduler) × (id : TimerId) × (add_timer s true address callback when interval
        ≡ some (next, id))
      × IsAdded s address when next id
  unfolding add_timer
  add_timer-IsAdded =
      let t = timer_of s callback when interval in
      let m = made s address callback when interval in
      let stored : m.memory address ≡ some t = update_at_self s.memory address (some t) in
      let absent : IsAbsent m address = IsAbsent-none s address v free.0 in
      (
        inserted m address t,
        record { timer = address; sequence = suc s.created },
        rw (insert_timer-some m address t made-IsValid stored absent free.1) refl,
        record {
          valid = inserted-IsValid m address t made-IsValid stored absent free.1;
          scheduled = Has-insert_new entry_before entry-IsOrder s.timers (timer_entry address t);
          active = Has-insert_new active_before active-IsOrder s.active (active_entry address t);
          kept = λ b m.
              Has-insert_old active_before active-IsOrder s.active (active_entry address t) b m;
          others = λ other ne. update_at-ne s.memory address (some t) other ne;
          loose = λ other ne is.
              IsLoose-inserted (record s { created = suc s.created }) address t other ne
                (IsLoose-created s (suc s.created) other is);
          calling = refl;
          canceling = refl;
          pending = refl;
        },
      )
