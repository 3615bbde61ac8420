-- ===== src/Timer/Loop/Tests.antt =====
-- A scheduler to which another thread adds a timer, in a round in which both descriptors can be read.
use tools_cxx.Prelude.{
  ℕ, ◌≡◌, refl, false, some, List, [], ◌∷◌, arith, inl, inr, update_at, update_at_hit,
}
use tools_cxx.Prelude.Int.{pos}
use tools_cxx.Base.Timestamp.{Timestamp, Seconds}
use tools_cxx.Timer.State.{inserting, TimerEntry, TimerScheduler, make}
use tools_cxx.Timer.Events.{Call}
use tools_cxx.Timer.Events.Runs.{CanRunAll}
use tools_cxx.Timer.Loop.{new_scheduler, adds, timerfd, eventfd, Round, round, loop, destroy}
use tools_cxx.Timer.Loop.Others.{IsReady}
use tools_cxx.Timer.Loop.Rounds.{CanRound, IsEmptied, round-IsEmptied, loop-IsReady}
use tools_cxx.Timer.Loop.Destroy.{IsDestroyed, destroy-IsDestroyed}

new_scheduler-IsReady : IsReady new_scheduler
new_scheduler-IsReady = record {
  valid = record {
    timers_sorted = tt;
    active_sorted = tt;
    sizes = refl;
    scheduled = λ e m. elim m [ ];
    known = λ a m. elim m [ ];
  };
  pending = record { loose = λ a m. elim m [ ]; apart = tt };
}

abbrev silent : ℕ → List Call
silent n = []

silent-CanRunAll : (s : TimerScheduler) (l : List TimerEntry) → CanRunAll silent s l
silent-CanRunAll s [] = tt
silent-CanRunAll s (e ∷ l) = λ t q. (tt, λ next h. silent-CanRunAll next l)

abbrev soon : Timestamp
soon = record { microseconds_since_epoch = pos 5000 }

abbrev once : Seconds
once = record { micros = pos 0; is_positive = false }

abbrev busy_round : Round
busy_round = record {
  earlier = adds 4096 7 soon once ∷ [];
  ready =
      record { descriptor = timerfd; revents = 1; now = soon }
      ∷ record { descriptor = eventfd; revents = 1; now = soon }
      ∷ [];
  later = [];
  callbacks_quit = false;
}

busy_round-CanRound : CanRound silent new_scheduler busy_round
busy_round-CanRound = record {
  earlier = ((refl, omega arith), λ next h. tt);
  ready = λ called h. (
    λ expired taken g. silent-CanRunAll _ expired,
    λ next g. (λ expired taken k. silent-CanRunAll _ expired, λ last k. tt),
  );
  later = λ called handled h k. tt;
}

round-IsEmptied_example :
    (left next : TimerScheduler) × (round silent new_scheduler busy_round ≡ some next)
    × IsEmptied silent new_scheduler busy_round left next
round-IsEmptied_example =
    round-IsEmptied silent new_scheduler busy_round new_scheduler-IsReady busy_round-CanRound

loop-IsReady_example :
    (next : TimerScheduler) × (loop silent new_scheduler (busy_round ∷ []) ≡ some next)
    × IsReady next
loop-IsReady_example =
    loop-IsReady silent new_scheduler (busy_round ∷ []) new_scheduler-IsReady
      (busy_round-CanRound, λ next h. tt)

-- A timer that another thread has left for its insertion.
abbrev expectant : TimerScheduler
expectant = record new_scheduler {
  memory = update_at new_scheduler.memory 4096 (some (make 7 soon once 0));
  created = 1;
  pending = inserting 4096 ∷ [];
}

expectant-IsReady : IsReady expectant
expectant-IsReady = record {
  valid = record {
    timers_sorted = tt;
    active_sorted = tt;
    sizes = refl;
    scheduled = λ e m. elim m [ ];
    known = λ a m. elim m [ ];
  };
  pending = record {
    loose = λ a m. elim m [
      | inl e ↦ record {
        timer = make 7 soon once 0;
        stored = update_at_hit new_scheduler.memory 4096 (some (make 7 soon once 0)) a e;
        absent = λ b h. elim h [ ];
        in_range = omega (arith, e);
      }
      | inr nil ↦ elim nil [ ]
    ];
    apart = (tt, tt);
  };
}

destroy-IsDestroyed_example :
    (next : TimerScheduler) × (destroy expectant ≡ some next) × IsDestroyed expectant next
destroy-IsDestroyed_example = destroy-IsDestroyed expectant expectant-IsReady
