-- ===== src/Timer/Loop/Destroy.antt =====
-- The destructor of the scheduler.
use tools_cxx.Prelude.{
  ℕ, ◌≡◌, ◌≢◌, refl, sym, ap, ◌∙◌, inl, inr, none, some, List, [], ◌∷◌, append-nil, update_at_self,
  update_at-ne, subst,
}
use tools_cxx.Timer.Ordered.{Has, IsSorted}
use tools_cxx.Timer.Ordered.Laws.{Has-All}
use tools_cxx.Timer.State.{Timer, TimerEntry, entry_before, TimerScheduler}
use tools_cxx.Timer.Scheduler.{active_entry}
use tools_cxx.Timer.Events.Loose.{AreDistinct, store}
use tools_cxx.Timer.Events.Handle.{AreDistinct-IsScheduled}
use tools_cxx.Timer.Loop.{delete_all, destroy}
use tools_cxx.Timer.Loop.Pending.{waiting}
use tools_cxx.Timer.Loop.Others.{IsReady}

-- What the deletes leave: nothing at the entries' addresses, and all else as it was.
record AreDeleted (s : TimerScheduler) (l : List TimerEntry) (next : TimerScheduler) : Type 0 where
  gone : (e : TimerEntry) → Has l e → next.memory e.timer ≡ none
  others : (a : ℕ) → ((e : TimerEntry) → Has l e → a ≢ e.timer) → next.memory a ≡ s.memory a

delete_all-AreDeleted :
    (s : TimerScheduler) (l : List TimerEntry)
    → AreDistinct l
    → ((e : TimerEntry) → Has l e → (t : Timer) × (s.memory e.timer ≡ some t))
    → (next : TimerScheduler) × (delete_all s l ≡ some next) × AreDeleted s l next
unfolding delete_all
delete_all-AreDeleted s [] distinct stored =
    (s, refl, record { gone = λ e m. elim m [ ]; others = λ a ne. refl })
delete_all-AreDeleted s (e ∷ l) (ne, distinct) stored =
    let (t, is) = stored e (inl refl) in
    let apart : (f : TimerEntry) → Has l f → f.timer ≢ e.timer =
      Has-All (λ f. f.timer ≢ e.timer) l ne in
    let (next, runs, d) = delete_all-AreDeleted (store s e.timer none) l distinct (λ f m.
      let (u, at) = stored f (inr m) in
      (u, update_at-ne s.memory e.timer none f.timer (apart f m) ∙ at)) in
    (
      next,
      rw is runs,
      record {
        gone = λ f m. elim m [
          | inl same ↦
              ap next.memory (ap (λ g. g.timer) same)
              ∙ d.others e.timer (λ g h q. apart g h (sym q))
              ∙ update_at_self s.memory e.timer none
          | inr later ↦ d.gone f later
        ];
        others = λ a no.
            d.others a (λ f m. no f (inr m))
            ∙ update_at-ne s.memory e.timer none a (no e (inl refl));
      },
    )

pub record IsDestroyed (s next : TimerScheduler) : Type 0 where
  pub freed : (e : TimerEntry) → Has s.timers e → next.memory e.timer ≡ none
  pub leaked : (a : ℕ) → Has (waiting s.pending) a → (t : Timer) × (next.memory a ≡ some t)

-- The destructor deletes every scheduled timer once and touches no dangling pointer, where the sets
-- agree and the timers that wait for their insertion are on the heap; but those are not deleted.
pub destroy-IsDestroyed :
    (s : TimerScheduler)
    → IsReady s
    → (next : TimerScheduler) × (destroy s ≡ some next) × IsDestroyed s next
unfolding destroy
destroy-IsDestroyed s r =
    let distinct : AreDistinct s.timers =
      AreDistinct-IsScheduled s s.timers []
        (subst (IsSorted entry_before) (sym (append-nil s.timers)) r.valid.timers_sorted)
        (λ e m. r.valid.scheduled e (subst (λ l. Has l e) (append-nil s.timers) m)) in
    let (next, runs, d) =
      delete_all-AreDeleted s s.timers distinct
        (λ e m. let (t, is) = r.valid.scheduled e m in (t, is.stored)) in
    (
      next,
      runs,
      record {
        freed = d.gone;
        leaked = λ a m.
            let is = r.pending.loose a m in
            let apart : (e : TimerEntry) → Has s.timers e → a ≢ e.timer = λ e h q.
              let (t, at) = r.valid.scheduled e h in
              is.absent (active_entry e.timer t) at.active (sym q) in
            (is.timer, d.others a apart ∙ is.stored);
      },
    )
