-- ===== src/Timer/Events/Rearm.antt =====
-- Setting the timerfd again.
use tools_cxx.Prelude.{
  ℕ, ◌≡◌, refl, sym, ap, ◌∙◌, inl, inr, Bool, true, false, some, List, [], ◌∷◌, subst, Bool-cases,
}
use tools_cxx.Base.Timestamp.{Timestamp, is_valid}
use tools_cxx.Timer.Ordered.{Has}
use tools_cxx.Timer.State.{Timer, restart, TimerEntry, TimerScheduler}
use tools_cxx.Timer.Scheduler.{timer_entry}
use tools_cxx.Timer.Scheduler.Invariant.{IsValid, IsValid-sets}
use tools_cxx.Timer.Events.{rearm}
use tools_cxx.Timer.Events.Reset.{IsSettled}

-- The timerfd is set to the first timer, if that one's time is valid.
abbrev pub IsArmed : TimerScheduler → Type 0
IsArmed s =
    (e : TimerEntry) (l : List TimerEntry)
    → s.timers ≡ e ∷ l
    → is_valid e.when ≡ true
    → s.armed ≡ some e.when

pub record IsRearmed (s next : TimerScheduler) : Type 0 where
  pub memory : s.memory ≡ next.memory
  pub timers : s.timers ≡ next.timers
  pub active : s.active ≡ next.active
  pub calling : next.calling ≡ s.calling
  pub armed : IsArmed next
  pub pending : next.pending ≡ s.pending

rearm_by :
    (s : TimerScheduler)
    → IsValid s
    → (l : List TimerEntry) → s.timers ≡ l
    → (next : TimerScheduler) × (rearm s ≡ some next) × IsRearmed s next
unfolding rearm
rearm_by s v [] e = (
  s,
  rw e refl,
  record {
    memory = refl;
    timers = refl;
    active = refl;
    calling = refl;
    pending = refl;
    armed = λ f l same. cc (e, same);
  },
)
rearm_by s v (f ∷ l) e =
    let (t, is) = v.scheduled f (subst (λ l. Has l f) (sym e) (inl refl)) in
    let when : t.expiration ≡ f.when = ap (λ f. f.when) (sym is.entry) in
    elim (Bool-cases (is_valid t.expiration)) [
      | inl b ↦ (
        record s { armed = some t.expiration },
        rw (e, is.stored, b) refl,
        record {
          memory = refl;
          timers = refl;
          active = refl;
          calling = refl;
          pending = refl;
          armed = λ g m same b. cc (e, same, when);
        },
      )
      | inr b ↦ (
        s,
        rw (e, is.stored, b) refl,
        record {
          memory = refl;
          timers = refl;
          active = refl;
          calling = refl;
          pending = refl;
          armed = λ g m same c. cc (e, same, when, b, c);
        },
      )
    ]

pub rearm-IsRearmed :
    (s : TimerScheduler)
    → IsValid s
    → (next : TimerScheduler) × (rearm s ≡ some next) × IsRearmed s next
rearm-IsRearmed s v = rearm_by s v s.timers refl

pub IsSettled-moved :
    (m n : TimerScheduler) (address : ℕ) (t : Timer) (now : Timestamp) (b : Bool)
    → IsRearmed m n
    → IsSettled m address t now b
    → IsSettled n address t now b
IsSettled-moved m n address t now true r (h, k) = (
  subst (λ l. Has l (timer_entry address (restart t now))) r.timers h,
  sym (ap (λ f. f address) r.memory) ∙ k,
)
IsSettled-moved m n address t now false r h = sym (ap (λ f. f address) r.memory) ∙ h

pub IsRearmed-IsValid : (m n : TimerScheduler) → IsRearmed m n → IsValid m → IsValid n
IsRearmed-IsValid m n r v = IsValid-sets m n r.memory r.timers r.active v
