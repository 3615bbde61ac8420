-- ===== src/Timer/Tests.antt =====
-- Schedulers with no timer and with one, on which the theorems are applied.
use tools_cxx.Prelude.{
  ℕ, ◌≡◌, ◌<◌, ◌≤◌, ◌+◌, ◌*◌, refl, true, false, none, some, List, [], ◌∷◌, arith,
}
use tools_cxx.Prelude.Int.{pos}
use tools_cxx.Base.Timestamp.{Timestamp, Seconds, get_difference}
use tools_cxx.Timer.State.{Timer, make, TimerId, TimerEntry, TimerScheduler, get_time_from_now}
use tools_cxx.Timer.State.Wait.{get_time_from_now-bounds}
use tools_cxx.Timer.Scheduler.{inserted, add_timer, cancel_timer, get_expired}
use tools_cxx.Timer.Scheduler.Invariant.{IsValid, inserted-IsValid}
use tools_cxx.Timer.Scheduler.Cancel.{entry_of_id, IsCancelled, cancel_timer-IsCancelled}
use tools_cxx.Timer.Scheduler.Expiry.{IsExpiry, get_expired-IsExpiry}
use tools_cxx.Timer.Events.{Call, cancelling_id, handle_event}
use tools_cxx.Timer.Events.Loose.{store, IsValid-store}
use tools_cxx.Timer.Events.Calls.{IsAdded, add_timer-IsAdded}
use tools_cxx.Timer.Events.Runs.{CanRunAll}
use tools_cxx.Timer.Events.Handle.{IsHandled, handle_event-IsHandled}

abbrev at_micros : ℕ → Timestamp
at_micros n = record { microseconds_since_epoch = pos n }

abbrev second : Seconds
second = record { micros = pos 1000000; is_positive = true }

abbrev empty : TimerScheduler
empty = record {
  memory = λ n. none;
  created = 0;
  timers = [];
  active = [];
  canceling = [];
  calling = false;
  armed = none;
  pending = [];
  eventfd = 0;
}

empty-IsValid : IsValid empty
empty-IsValid = record {
  timers_sorted = tt;
  active_sorted = tt;
  sizes = refl;
  scheduled = λ e m. elim m [ ];
  known = λ a m. elim m [ ];
}

abbrev ticker : Timer
ticker = make 7 (at_micros 5000) second 0

abbrev one_timer : TimerScheduler
one_timer = inserted (store empty 4096 (some ticker)) 4096 ticker

one_timer-IsValid : IsValid one_timer
one_timer-IsValid =
    inserted-IsValid (store empty 4096 (some ticker)) 4096 ticker
      (IsValid-store empty 4096 (some ticker) (λ a m. elim m [ ]) empty-IsValid) refl
      (λ a m. elim m [ ]) (omega arith)

abbrev own_id : TimerId
own_id = record { timer = 4096; sequence = 1 }

cancel_timer-IsCancelled_example :
    (next : TimerScheduler) × (cancel_timer one_timer own_id ≡ some next)
    × IsCancelled one_timer (entry_of_id own_id) next
cancel_timer-IsCancelled_example = cancel_timer-IsCancelled one_timer own_id one_timer-IsValid

two_due :
    (expired : List TimerEntry) × (next : TimerScheduler) × (get_expired one_timer (at_micros 6000)
      ≡ some (expired, next))
    × IsExpiry one_timer (at_micros 6000) expired next
two_due = get_expired-IsExpiry one_timer (at_micros 6000) one_timer-IsValid

one-IsAdded :
    (next : TimerScheduler) × (id : TimerId) × (add_timer one_timer true 8192 9
        (at_micros 4000)
        second
      ≡ some (next, id))
    × IsAdded one_timer 8192 (at_micros 4000) next id
one-IsAdded =
    add_timer-IsAdded one_timer 8192 9 (at_micros 4000) second one_timer-IsValid (refl, omega arith)

-- Each callback cancels the first timer.
abbrev cancel_own : ℕ → List Call
cancel_own n = cancelling_id own_id ∷ []

cancel_own-CanRunAll : (s : TimerScheduler) (l : List TimerEntry) → CanRunAll cancel_own s l
cancel_own-CanRunAll s [] = tt
cancel_own-CanRunAll s (e ∷ l) = λ t q. ((tt, λ next h. tt), λ next h. cancel_own-CanRunAll next l)

handle_event-IsHandled_example :
    (expired : List TimerEntry) × (called next : TimerScheduler) × (handle_event cancel_own
        one_timer
        (at_micros 6000)
      ≡ some next)
    × IsHandled cancel_own one_timer (at_micros 6000) expired called next
handle_event-IsHandled_example =
    handle_event-IsHandled cancel_own one_timer (at_micros 6000) one_timer-IsValid
      (λ expired taken q. cancel_own-CanRunAll _ expired)

one_millisecond :
    (sec nsec : ℕ) × (get_time_from_now (at_micros 5000) (at_micros 6000)
      ≡ record { tv_sec = pos sec; tv_nsec = pos nsec })
    × (nsec < 1000000000)
    × (100000 ≤ sec * 1000000000 + nsec)
    × ((m : ℕ)
        → get_difference (at_micros 5000) (at_micros 6000) ≡ pos m
        → 100 ≤ m
        → sec * 1000000000 + nsec ≡ m * 1000)
one_millisecond = get_time_from_now-bounds (at_micros 5000) (at_micros 6000)
