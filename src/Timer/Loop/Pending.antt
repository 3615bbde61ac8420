-- ===== src/Timer/Loop/Pending.antt =====
-- The functors that other threads leave for the scheduler's.
use tools_cxx.Prelude.{ℕ, ◌≡◌, ◌≢◌, refl, sym, ap, ◌∙◌, inl, inr, some, List, [], ◌∷◌, All, subst}
use tools_cxx.Timer.Ordered.{Has}
use tools_cxx.Timer.Ordered.Laws.{Has-All, Has-insert, Has-insert_new, Has-insert_old}
use tools_cxx.Timer.State.{
  Timer, TimerId, ActiveTimerEntry, active_before, Functor, inserting, cancelling, TimerScheduler,
}
use tools_cxx.Timer.Scheduler.{active_entry, inserted}
use tools_cxx.Timer.Scheduler.Orders.{active-IsOrder}
use tools_cxx.Timer.Scheduler.Invariant.{IsValid, inserted-IsValid, insert_timer-some}
use tools_cxx.Timer.Scheduler.Cancel.{cancel_timer-IsCancelled}
use tools_cxx.Timer.Events.{run_functor, run_functors}
use tools_cxx.Timer.Events.Loose.{IsLoose}
use tools_cxx.Timer.Events.Runs.{IsLoose-cancelled}

-- The addresses of the timers that wait for their insertion.
abbrev pub waiting : List Functor → List ℕ
waiting [] = []
waiting (inserting address ∷ l) = address ∷ waiting l
waiting (cancelling id ∷ l) = waiting l

abbrev pub AreApart : List ℕ → Type 0
AreApart [] = Unit
AreApart (a ∷ l) = All (λ b. b ≢ a) l × AreApart l

-- No functor cancels a timer at the address.
abbrev pub IsSpared : List Functor → ℕ → Type 0
IsSpared l address = (id : TimerId) → Has l (cancelling id) → id.timer ≢ address

-- The timers that wait are loose, each at an address of its own.
pub record AreReady (s : TimerScheduler) (l : List Functor) : Type 0 where
  pub loose : (a : ℕ) → Has (waiting l) a → IsLoose s a
  pub apart : AreApart (waiting l)

-- What running the functors leaves: every timer that waited and that none of them cancels is active,
-- and no other timer is lost.
pub record IsDone (s : TimerScheduler) (l : List Functor) (next : TimerScheduler) : Type 0 where
  pub valid : IsValid next
  pub pending : next.pending ≡ s.pending
  pub kept : (b : ActiveTimerEntry) → Has s.active b → IsSpared l b.timer → Has next.active b
  pub active :
      (a : ℕ) (t : Timer)
      → Has (waiting l) a
      → s.memory a ≡ some t
      → IsSpared l a
      → Has next.active (active_entry a t)

IsLoose-insert :
    (s : TimerScheduler) (address : ℕ) (t : Timer) (other : ℕ)
    → other ≢ address
    → IsLoose s other
    → IsLoose (inserted s address t) other
IsLoose-insert s address t other ne is = record {
  timer = is.timer;
  stored = is.stored;
  absent = λ a m.
      elim (Has-insert active_before active-IsOrder s.active (active_entry address t) a m) [
        | inl same ↦ λ q. ne (sym q ∙ ap (λ b. b.timer) same)
        | inr old ↦ is.absent a old
      ];
  in_range = is.in_range;
}

module _ (s : TimerScheduler) (address : ℕ) (l : List Functor) (v : IsValid s)
    (ready : AreReady s (inserting address ∷ l)) where
  abbrev first : IsLoose s address
  first = ready.loose address (inl refl)

  abbrev next_inserted : TimerScheduler
  next_inserted = inserted s address first.timer

  others : (a : ℕ) → Has (waiting l) a → a ≢ address
  others a m = Has-All (λ b. b ≢ address) (waiting l) ready.apart.0 a m

  inserting-AreReady : AreReady next_inserted l
  inserting-AreReady = record {
    loose = λ a m. IsLoose-insert s address first.timer a (others a m) (ready.loose a (inr m));
    apart = ready.apart.1;
  }

  inserting-IsDone :
      (next : TimerScheduler) → IsDone next_inserted l next → IsDone s (inserting address ∷ l) next
  inserting-IsDone next d = record {
    valid = d.valid;
    pending = d.pending;
    kept = λ b m spared.
        d.kept b
          (Has-insert_old active_before active-IsOrder s.active (active_entry address first.timer) b
            m)
          (λ id h. spared id (inr h));
    active = λ a t m stored spared. elim m [
      | inl at ↦
          let same : first.timer ≡ t = cc (at, stored, first.stored) in
          let new =
            Has-insert_new active_before active-IsOrder s.active
              (active_entry address first.timer) in
          subst (λ u. Has next.active (active_entry a u)) same
            (subst (λ b. Has next.active (active_entry b first.timer)) (sym at)
              (d.kept (active_entry address first.timer) new
                (λ id h q. spared id (inr h) (q ∙ sym at))))
      | inr later ↦ d.active a t later stored (λ id h. spared id (inr h))
    ];
  }

pub run_functors-IsDone :
    (s : TimerScheduler) (l : List Functor)
    → IsValid s
    → AreReady s l
    → (next : TimerScheduler) × (run_functors s l ≡ some next) × IsDone s l next
unfolding run_functors run_functor
run_functors-IsDone s [] v ready = (
  s,
  refl,
  record { valid = v; pending = refl; kept = λ b m spared. m; active = λ a t m. elim m [ ] },
)
run_functors-IsDone s (inserting address ∷ l) v ready =
    let is = ready.loose address (inl refl) in
    let (next, last, d) =
      run_functors-IsDone (inserted s address is.timer) l
        (inserted-IsValid s address is.timer v is.stored is.absent is.in_range)
        (inserting-AreReady s address l v ready) in
    (
      next,
      rw (insert_timer-some s address is.timer v is.stored is.absent is.in_range) last,
      inserting-IsDone s address l v ready next d,
    )
run_functors-IsDone s (cancelling id ∷ l) v ready =
    let (mid, first, c) = cancel_timer-IsCancelled s id v in
    let (next, last, d) = run_functors-IsDone mid l c.valid (record {
      loose = λ a m. IsLoose-cancelled s id mid c a (ready.loose a m);
      apart = ready.apart;
    }) in
    (
      next,
      rw first last,
      record {
        valid = d.valid;
        pending = d.pending ∙ c.pending;
        kept = λ b m spared.
            d.kept b (c.kept b (λ q. spared id (inl refl) (sym (ap (λ e. e.timer) q))) m)
              (λ other h. spared other (inr h));
        active = λ a t m stored spared.
            d.active a t m (c.untouched a (ready.loose a m).absent ∙ stored)
              (λ other h. spared other (inr h));
      },
    )
