-- ===== src/Timer/Events/Loose.antt =====
-- Timers that are on the heap and in neither set, as the expired ones are while callbacks run.
use tools_cxx.Prelude.{
  ℕ, ◌≡◌, ◌≢◌, ◌<◌, sym, ap, ◌∙◌, inl, inr, Option, none, some, List, [], ◌∷◌, update_at,
  update_at-ne, All, subst,
}
use tools_cxx.Timer.Ordered.{Has}
use tools_cxx.Timer.Ordered.Laws.{Has-insert}
use tools_cxx.Timer.State.{Timer, TimerEntry, active_before, TimerScheduler}
use tools_cxx.Timer.Scheduler.{active_entry, last_address, inserted}
use tools_cxx.Timer.Scheduler.Orders.{active-IsOrder}
use tools_cxx.Timer.Scheduler.Invariant.{IsValid, IsAbsent}

pub record IsLoose (s : TimerScheduler) (address : ℕ) : Type 0 where
  pub timer : Timer
  pub stored : s.memory address ≡ some timer
  pub absent : IsAbsent s address
  pub in_range : address < last_address

-- Being loose reads the heap and the active set only.
pub IsLoose-same :
    (s n : TimerScheduler) (address : ℕ)
    → s.memory ≡ n.memory
    → s.active ≡ n.active
    → IsLoose s address
    → IsLoose n address
IsLoose-same s n address hm ha is = record {
  timer = is.timer;
  stored = sym (ap (λ f. f address) hm) ∙ is.stored;
  absent = λ a m. is.absent a (subst (λ l. Has l a) (sym ha) m);
  in_range = is.in_range;
}

abbrev pub store : TimerScheduler → ℕ → Option Timer → TimerScheduler
store s address o = record s { memory = update_at s.memory address o }

-- A write to an address of no active timer leaves the sets agreeing.
pub IsValid-store :
    (s : TimerScheduler) (address : ℕ) (o : Option Timer)
    → IsAbsent s address
    → IsValid s
    → IsValid (store s address o)
IsValid-store s address o absent v = record {
  timers_sorted = v.timers_sorted;
  active_sorted = v.active_sorted;
  sizes = v.sizes;
  scheduled = λ e m.
      let (t, is) = v.scheduled e m in
      (
        t,
        record {
          stored =
              update_at-ne s.memory address o e.timer (absent (active_entry e.timer t) is.active)
              ∙ is.stored;
          entry = is.entry;
          active = is.active;
          in_range = is.in_range;
        },
      );
  known = λ a m.
      let (t, is) = v.known a m in
      (
        t,
        record {
          stored = update_at-ne s.memory address o a.timer (absent a m) ∙ is.stored;
          entry = is.entry;
          scheduled = is.scheduled;
        },
      );
}

-- An address without a timer is that of no active timer.
pub IsAbsent-none :
    (s : TimerScheduler) (address : ℕ) → IsValid s → s.memory address ≡ none → IsAbsent s address
IsAbsent-none s address v e a m q = let (t, is) = v.known a m in cc (q, e, is.stored)

-- Another timer that is written and inserted leaves a loose one loose.
pub IsLoose-inserted :
    (s : TimerScheduler) (address : ℕ) (t : Timer) (other : ℕ)
    → other ≢ address
    → IsLoose s other
    → IsLoose (inserted (store s address (some t)) address t) other
IsLoose-inserted s address t other ne is = record {
  timer = is.timer;
  stored = update_at-ne s.memory address (some t) other ne ∙ is.stored;
  absent = λ a m.
      elim (Has-insert active_before active-IsOrder s.active (active_entry address t) a m) [
        | inl same ↦ λ q. ne (sym q ∙ ap (λ b. b.timer) same)
        | inr old ↦ is.absent a old
      ];
  in_range = is.in_range;
}

pub IsLoose-deleted :
    (s : TimerScheduler) (address other : ℕ)
    → other ≢ address
    → IsLoose s other
    → IsLoose (store s address none) other
IsLoose-deleted s address other ne is = record {
  timer = is.timer;
  stored = update_at-ne s.memory address none other ne ∙ is.stored;
  absent = is.absent;
  in_range = is.in_range;
}

-- The addresses of the entries are different.
abbrev pub AreDistinct : List TimerEntry → Type 0
AreDistinct [] = Unit
AreDistinct (e ∷ l) = All (λ f. f.timer ≢ e.timer) l × AreDistinct l

abbrev pub AreLoose : TimerScheduler → List TimerEntry → Type 0
AreLoose s l = (e : TimerEntry) → Has l e → IsLoose s e.timer
