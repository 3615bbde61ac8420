-- ===== src/Poller/Choice/Calls.antt =====
-- Any sequence of calls keeps the two pollers in agreement.
use tools_cxx.Prelude.{
  ℕ, ◌≡◌, ◌⊎◌, inl, inr, refl, sym, ap, ◌∙◌, Option, none, some, List, [], ◌∷◌, Option-cases, arith,
}
use tools_cxx.Poller.Channel.{Channel, add_reading, drop_reading, add_writing, drop_writing}
use tools_cxx.Poller.Poll
use tools_cxx.Poller.Poll.{PollPoller}
use tools_cxx.Poller.Poll.Methods
use tools_cxx.Poller.Poll.Methods.{
  KeepsPlace, add_reading-KeepsPlace, drop_reading-KeepsPlace, add_writing-KeepsPlace,
  drop_writing-KeepsPlace,
}
use tools_cxx.Poller.Poll.Update.{update_channel-IsValid}
use tools_cxx.Poller.Poll.Remove.{remove_channel-IsRemoved}
use tools_cxx.Poller.EPoll
use tools_cxx.Poller.EPoll.{
  Epoll, EpollEvent, Op, add, modify, delete, EPollPoller, event_of, done, Outcome,
}
use tools_cxx.Poller.EPoll.Invariant.{IsWatched}
use tools_cxx.Poller.EPoll.Update.{add_new, change_old, IsUpdated}
use tools_cxx.Poller.EPoll.Remove.{remove_channel-IsDropped}
use tools_cxx.Poller.Choice.{
  Method, enables_reading, disables_reading, enables_writing, disables_writing, removes, Call,
  call_poll, run_poll, change, call_epoll, run_epoll,
}
use tools_cxx.Poller.Choice.Agrees.{Agrees}
use tools_cxx.Poller.Choice.Steps.{updated-Agrees, removed-Agrees}

-- The operation fits the descriptor: it is added when it is not listed, else changed or deleted.
abbrev pub Fits : Op → Option EpollEvent → Type 0
Fits add listed = listed ≡ none
Fits modify listed = (event : EpollEvent) × (listed ≡ some event)
Fits delete listed = (event : EpollEvent) × (listed ≡ some event)

-- epoll_ctl(2) refuses no operation that fits: the descriptors are open and no limit is met.
abbrev pub Accepts : Epoll → Type 0
Accepts os =
    (op : Op) (fd : ℕ) (event : EpollEvent) (k : os.Kernel)
    → Fits op (os.interest k fd)
    → (next : os.Kernel) × (os.epoll_ctl op fd event k ≡ some next)

-- The channel may call: it is registered or, unless it is removed, new.
abbrev pub CanCall : PollPoller → ℕ → Method → Type 0
CanCall p c enables_reading = Poll.Invariant.IsNew p c ⊎ Poll.Invariant.IsRegistered p c
CanCall p c disables_reading = Poll.Invariant.IsNew p c ⊎ Poll.Invariant.IsRegistered p c
CanCall p c enables_writing = Poll.Invariant.IsNew p c ⊎ Poll.Invariant.IsRegistered p c
CanCall p c disables_writing = Poll.Invariant.IsNew p c ⊎ Poll.Invariant.IsRegistered p c
CanCall p c removes = Poll.Invariant.IsRegistered p c

abbrev pub CanCallAll : PollPoller → List Call → Type 0
CanCallAll p [] = Unit
CanCallAll p (call ∷ calls) =
    CanCall p call.channel call.method
    × ((next : PollPoller)
        → call_poll p call.channel call.method ≡ some next
        → CanCallAll next calls)

module _ (os : Epoll) (accepts : Accepts os) where
  -- Two calls that return pollers in agreement.
  abbrev pub BothAgree : Option PollPoller → Outcome (EPollPoller os) → Type 0
  BothAgree o r =
      (p : PollPoller) × (q : EPollPoller os) × (o ≡ some p) × (r ≡ done q) × Agrees os p q

  module _ (p : PollPoller) (q : EPollPoller os) (a : Agrees os p q) (c : ℕ) where
    registered_lem : Poll.Invariant.IsRegistered p c → EPoll.Invariant.IsRegistered os q c
    registered_lem r = ap q.channel_store (a.same_fd c) ∙ a.same_store (p.channels c).fd ∙ r

    new_lem : Poll.Invariant.IsNew p c → EPoll.Invariant.IsNew os q c
    new_lem n = record {
      unused = a.same_new c n.negative;
      absent = ap q.channel_store (a.same_fd c) ∙ a.same_store (p.channels c).fd ∙ n.absent;
    }

    epoll_update :
        Poll.Invariant.IsNew p c ⊎ Poll.Invariant.IsRegistered p c
        → (next : EPollPoller os) × (EPoll.update_channel os q c ≡ done next)
          × IsUpdated os q c next
    epoll_update (inl n) = elim (add_new os q c a.epoll_valid (new_lem n)) [
      | inl ok ↦ ok
      | inr (stop, refused) ↦
          let quiet : os.interest q.kernel (q.channels c).fd ≡ none =
            elim (Option-cases (os.interest q.kernel (q.channels c).fd)) [
              | inl none_listed ↦ none_listed
              | inr (event, listed) ↦ absurd (
                  cc (
                    (a.epoll_valid.listed (q.channels c).fd event listed).stored,
                    (new_lem n).absent,
                  ))
            ] in
          let (k, ok) = accepts add (q.channels c).fd (event_of os q c) q.kernel quiet in
          absurd (cc (ok, refused))
    ]
    epoll_update (inr r) = elim (change_old os q c a.epoll_valid (registered_lem r)) [
      | inl ok ↦ ok
      | inr (stop, refused) ↦
          let (event, w) = a.epoll_valid.table (q.channels c).fd c (registered_lem r) in
          let (k, ok) =
            accepts modify (q.channels c).fd (event_of os q c) q.kernel (event, w.waits) in
          absurd (cc (ok, refused))
    ]

    update-Agrees :
        Poll.Invariant.IsNew p c ⊎ Poll.Invariant.IsRegistered p c
        → BothAgree (Poll.update_channel p c) (EPoll.update_channel os q c)
    update-Agrees ready =
        let (after, i, runs, valid, at, f) = update_channel-IsValid p c a.poll_valid ready in
        let (next, both, u) = epoll_update ready in
        (after, next, runs, both, updated-Agrees os p q a c after i valid at f next u)

    remove-Agrees :
        Poll.Invariant.IsRegistered p c
        → BothAgree (Poll.remove_channel p c) (EPoll.remove_channel os q c)
    remove-Agrees r =
        let (after, runs, removed) = remove_channel-IsRemoved p c a.poll_valid r in
        let (event, w) = a.epoll_valid.table (q.channels c).fd c (registered_lem r) in
        let (k, ok) =
          accepts delete (q.channels c).fd (event_of os q c) q.kernel (event, w.waits) in
        let (next, both, dropped) =
          remove_channel-IsDropped os q c a.epoll_valid (registered_lem r) k ok in
        (after, next, runs, both, removed-Agrees os p q a c after removed next dropped)

    -- Changing the mask of a channel in memory.
    module _ (f : Channel → Channel) (k : KeepsPlace f) where
      kept_fd : (d : ℕ) → ((change os f q c).channels d).fd ≡ (q.channels d).fd
      kept_fd d = ground (arith, k.fd (q.channels c))

      kept_index : (d : ℕ) → ((change os f q c).channels d).index ≡ (q.channels d).index
      kept_index d = ground (arith, k.index (q.channels c))

      changed_events :
          (d : ℕ)
          → ((change os f q c).channels d).events ≡ ((Methods.change f p c).channels d).events
      unfolding Methods.change
      changed_events d =
          ground (arith, k.events (q.channels c) (p.channels c) (a.same_events c), a.same_events d)

      change-IsWatched :
          (fd d : ℕ) (e : EpollEvent)
          → IsWatched os q fd d e
          → IsWatched os (change os f q c) fd d e
      change-IsWatched fd d e w = record {
        stored = w.stored;
        named = kept_fd d ∙ w.named;
        added = kept_index d ∙ w.added;
        waits = w.waits;
        handed = w.handed;
      }

      change-Agrees : Agrees os (Methods.change f p c) (change os f q c)
      unfolding Methods.change
      change-Agrees = record {
        poll_valid = Methods.change-IsValid f k p c a.poll_valid;
        epoll_valid = record {
          table =
              λ fd d s. (let (e, w) = a.epoll_valid.table fd d s in (e, change-IsWatched fd d e w));
          listed = λ fd e s. change-IsWatched fd e.ptr e (a.epoll_valid.listed fd e s);
        };
        same_fd = λ d. kept_fd d ∙ a.same_fd d ∙ sym (Methods.same_fd f k p c d);
        same_events = changed_events;
        same_store = a.same_store;
        same_new = λ d new. kept_index d ∙ a.same_new d (sym (Methods.same_index f k p c d) ∙ new);
        masks = a.masks;
      }

  method-Agrees :
      (f : Channel → Channel) (k : KeepsPlace f) (p : PollPoller) (q : EPollPoller os)
      → Agrees os p q
      → (c : ℕ) → Poll.Invariant.IsNew p c ⊎ Poll.Invariant.IsRegistered p c
      → BothAgree
          (Poll.update_channel (Methods.change f p c) c)
          (EPoll.update_channel os (change os f q c) c)
  method-Agrees f k p q a c ready =
      update-Agrees (Methods.change f p c) (change os f q c) (change-Agrees p q a c f k) c
        (Methods.change-ready f k p c ready)

  call-Agrees :
      (p : PollPoller) (q : EPollPoller os)
      → Agrees os p q
      → (c : ℕ) (m : Method) → CanCall p c m
      → BothAgree (call_poll p c m) (call_epoll os q c m)
  unfolding Methods.enable_reading Methods.disable_reading Methods.enable_writing
      Methods.disable_writing Methods.remove
  call-Agrees p q a c enables_reading can =
      method-Agrees add_reading add_reading-KeepsPlace p q a c can
  call-Agrees p q a c disables_reading can =
      method-Agrees drop_reading drop_reading-KeepsPlace p q a c can
  call-Agrees p q a c enables_writing can =
      method-Agrees add_writing add_writing-KeepsPlace p q a c can
  call-Agrees p q a c disables_writing can =
      method-Agrees drop_writing drop_writing-KeepsPlace p q a c can
  call-Agrees p q a c removes can = remove-Agrees p q a c can

  -- A PollPoller and an EPollPoller that agree meet no failed assertion and do not abort in any sequence
  -- of calls in which each channel is new or registered, and registered where it is removed, when
  -- epoll_ctl(2) accepts what fits; and they agree behind it: poll(2) and epoll_wait(2) are asked for the
  -- same events of the same descriptors, up to the 16 bits of a mask that poll(2) takes.
  pub run-Agrees :
      (p : PollPoller) (q : EPollPoller os) (calls : List Call)
      → Agrees os p q
      → CanCallAll p calls
      → BothAgree (run_poll p calls) (run_epoll os q calls)
  unfolding run_poll run_epoll
  run-Agrees p q [] a can = (p, q, refl, refl, a)
  run-Agrees p q (call ∷ calls) a can =
      let (after, next, first, second, b) = call-Agrees p q a call.channel call.method can.0 in
      let (last, end, third, fourth, e) = run-Agrees after next calls b (can.1 after first) in
      (last, end, rw first third, rw second fourth, e)
