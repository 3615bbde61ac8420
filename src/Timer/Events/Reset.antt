-- ===== src/Timer/Events/Reset.antt =====
-- What becomes of the expired timers when their callbacks have run.
use tools_cxx.Prelude.{
  ℕ, ◌≡◌, ◌≢◌, refl, sym, ap, ◌∙◌, inl, inr, Bool, true, false, ◌&&◌, not, Option, none, some, List,
  [], ◌∷◌, subst, update_at-ne, update_at_self, Bool-cases,
}
use tools_cxx.Base.Timestamp.{Timestamp}
use tools_cxx.Timer.Ordered.{find, Has}
use tools_cxx.Timer.Ordered.Laws.{Has-insert_new, Has-insert_old, Has-All}
use tools_cxx.Timer.State.{
  Timer, restart, TimerEntry, ActiveTimerEntry, entry_before, active_before, TimerScheduler,
}
use tools_cxx.Timer.Scheduler.{timer_entry, active_entry, inserted}
use tools_cxx.Timer.Scheduler.Orders.{entry-IsOrder}
use tools_cxx.Timer.Scheduler.Invariant.{IsValid, inserted-IsValid, insert_timer-some}
use tools_cxx.Timer.Events.{reset_stored, reset_timer, reset_all}
use tools_cxx.Timer.Events.Loose.{
  IsLoose, AreLoose, AreDistinct, store, IsValid-store, IsLoose-inserted, IsLoose-deleted,
}

-- Does the timer start again? It must be repeated, and not cancelled during the callbacks.
abbrev pub is_again : List ActiveTimerEntry → ℕ → Timer → Bool
is_again canceling address t =
    t.repeat && not (find active_before canceling (active_entry address t))

-- A timer that starts again is scheduled from `now` on; any other is deleted.
abbrev pub IsSettled : TimerScheduler → ℕ → Timer → Timestamp → Bool → Type 0
IsSettled next address t now true =
    Has next.timers (timer_entry address (restart t now))
    × (next.memory address ≡ some (restart t now))
IsSettled next address t now false = next.memory address ≡ none

record IsStep (s : TimerScheduler) (address : ℕ) (t : Timer) (now : Timestamp)
    (next : TimerScheduler) : Type 0 where
  valid : IsValid next
  canceling : next.canceling ≡ s.canceling
  calling : next.calling ≡ s.calling
  pending : next.pending ≡ s.pending
  settled : IsSettled next address t now (is_again s.canceling address t)
  kept : (f : TimerEntry) → Has s.timers f → Has next.timers f
  others : (other : ℕ) → other ≢ address → next.memory other ≡ s.memory other
  loose : (other : ℕ) → other ≢ address → IsLoose s other → IsLoose next other

module _ (s : TimerScheduler) (e : TimerEntry) (now : Timestamp) (v : IsValid s)
    (is : IsLoose s e.timer) where
  from_stored :
      {o : Option TimerScheduler} → reset_stored s e is.timer now ≡ o → reset_timer s e now ≡ o
  unfolding reset_timer
  from_stored q = rw is.stored q

  again_once :
      is_again s.canceling e.timer is.timer ≡ true
      → (next : TimerScheduler) × (reset_timer s e now ≡ some next)
        × IsStep s e.timer is.timer now next
  unfolding reset_stored
  again_once b =
      let t = restart is.timer now in
      let made = store s e.timer (some t) in
      let made_valid : IsValid made = IsValid-store s e.timer (some t) is.absent v in
      let stored : made.memory e.timer ≡ some t = update_at_self s.memory e.timer (some t) in
      (
        inserted made e.timer t,
        from_stored
            (rw b (insert_timer-some made e.timer t made_valid stored is.absent is.in_range)),
        record {
          valid = inserted-IsValid made e.timer t made_valid stored is.absent is.in_range;
          canceling = refl;
          calling = refl;
          pending = refl;
          settled =
              rw b (
                Has-insert_new entry_before entry-IsOrder s.timers (timer_entry e.timer t),
                stored,
              );
          kept =
              λ f m. Has-insert_old entry_before entry-IsOrder s.timers (timer_entry e.timer t) f m;
          others = λ other ne. update_at-ne s.memory e.timer (some t) other ne;
          loose = λ other ne l. IsLoose-inserted s e.timer t other ne l;
        },
      )

  deleted_once :
      is_again s.canceling e.timer is.timer ≡ false
      → (next : TimerScheduler) × (reset_timer s e now ≡ some next)
        × IsStep s e.timer is.timer now next
  unfolding reset_stored
  deleted_once b = (
    store s e.timer none,
    from_stored (rw b refl),
    record {
      valid = IsValid-store s e.timer none is.absent v;
      canceling = refl;
      calling = refl;
      pending = refl;
      settled = rw b (update_at_self s.memory e.timer none);
      kept = λ f m. m;
      others = λ other ne. update_at-ne s.memory e.timer none other ne;
      loose = λ other ne l. IsLoose-deleted s e.timer other ne l;
    },
  )

  step :
      (next : TimerScheduler) × (reset_timer s e now ≡ some next)
      × IsStep s e.timer is.timer now next
  step = elim (Bool-cases (is_again s.canceling e.timer is.timer)) [
    | inl b ↦ again_once b
    | inr b ↦ deleted_once b
  ]

-- What the loop of `reset` does: every expired timer is settled, and every other stays as it is.
pub record IsReset (s : TimerScheduler) (l : List TimerEntry) (now : Timestamp)
    (next : TimerScheduler) : Type 0 where
  pub valid : IsValid next
  pub settled :
      (e : TimerEntry)
      → Has l e
      → (t : Timer) → s.memory e.timer ≡ some t
      → IsSettled next e.timer t now (is_again s.canceling e.timer t)
  pub kept : (f : TimerEntry) → Has s.timers f → Has next.timers f
  pub calling : next.calling ≡ s.calling
  pub others :
      (other : ℕ)
      → ((f : TimerEntry) → Has l f → other ≢ f.timer)
      → next.memory other ≡ s.memory other
  pub pending : next.pending ≡ s.pending
  pub loose :
      (other : ℕ)
      → ((f : TimerEntry) → Has l f → other ≢ f.timer)
      → IsLoose s other
      → IsLoose next other

-- Later rounds leave a settled timer as it is.
IsSettled-still :
    (m n : TimerScheduler) (address : ℕ) (t : Timer) (now : Timestamp) (b : Bool)
    → ((f : TimerEntry) → Has m.timers f → Has n.timers f)
    → n.memory address ≡ m.memory address
    → IsSettled m address t now b
    → IsSettled n address t now b
IsSettled-still m n address t now true kept e (h, k) = (kept _ h, e ∙ k)
IsSettled-still m n address t now false kept e h = e ∙ h

pub reset_all-IsReset :
    (s : TimerScheduler) (l : List TimerEntry) (now : Timestamp)
    → IsValid s
    → AreLoose s l
    → AreDistinct l
    → (next : TimerScheduler) × (reset_all s l now ≡ some next) × IsReset s l now next
unfolding reset_all
reset_all-IsReset s [] now v loose distinct = (
  s,
  refl,
  record {
    valid = v;
    settled = λ e m t stored. elim m [ ];
    kept = λ f m. m;
    calling = refl;
    others = λ other ne. refl;
    pending = refl;
    loose = λ other ne is. is;
  },
)
reset_all-IsReset s (e ∷ l) now v loose (ne, distinct) =
    let is = loose e (inl refl) in
    let (mid, first, st) = step s e now v is in
    let apart : (f : TimerEntry) → Has l f → f.timer ≢ e.timer =
      Has-All (λ f. f.timer ≢ e.timer) l ne in
    let (next, last, r) =
      reset_all-IsReset mid l now st.valid (λ f m. st.loose f.timer (apart f m) (loose f (inr m)))
        distinct in
    (
      next,
      rw first last,
      record {
        valid = r.valid;
        settled = λ f m t stored. elim m [
          | inl same ↦
              let at : f.timer ≡ e.timer = ap (λ f. f.timer) same in
              let which : t ≡ is.timer = cc (at, stored, is.stored) in
              let done : IsSettled next e.timer is.timer now
                  (is_again s.canceling e.timer is.timer) =
                IsSettled-still mid next e.timer is.timer now
                  (is_again s.canceling e.timer is.timer) r.kept
                  (r.others e.timer (λ g h q. apart g h (sym q))) st.settled in
              subst (λ a. IsSettled next a t now (is_again s.canceling a t)) (sym at)
                (subst (λ u. IsSettled next e.timer u now (is_again s.canceling e.timer u))
                  (sym which) done)
          | inr h ↦
              subst (λ c. IsSettled next f.timer t now (is_again c f.timer t)) st.canceling
                (r.settled f h t (st.others f.timer (apart f h) ∙ stored))
        ];
        kept = λ f m. r.kept f (st.kept f m);
        calling = r.calling ∙ st.calling;
        others =
            λ other no. r.others other (λ f m. no f (inr m)) ∙ st.others other (no e (inl refl));
        pending = r.pending ∙ st.pending;
        loose = λ other no is.
            r.loose other (λ f m. no f (inr m)) (st.loose other (no e (inl refl)) is);
      },
    )
