-- ===== src/Poller/EPoll/Filled.antt =====
-- The loop over the events that the kernel has written.
use tools_cxx.Prelude.{
  ℕ, true, ◌≡◌, refl, sym, ap, ◌∙◌, subst, some, List, [], ◌∷◌, ◌++◌, map, append-nil, append_assoc,
  All, arith, update_at,
}
use tools_cxx.Poller.Poll.{maps_to}
use tools_cxx.Poller.EPoll.{Epoll, EpollEvent, done, EPollPoller, fill_loop}
use tools_cxx.Poller.EPoll.Invariant.{IsWatched, IsValid}
use tools_cxx.Poller.EPoll.Local.{maps_to_self}

module _ (os : Epoll) where
  -- Each event carries the address of a channel that the kernel watches.
  abbrev pub AreHanded : EPollPoller os → List EpollEvent → Type 0
  AreHanded p es =
      All (λ e. (fd : ℕ) × (f : EpollEvent) × (os.interest p.kernel fd ≡ some f) × (f.ptr ≡ e.ptr))
        es

  -- What the loop keeps: everything but the returned events of channels and the list of active ones.
  pub record IsFilled (p : EPollPoller os) (es : List EpollEvent) (q : EPollPoller os)
      : Type 0 where
    pub valid : IsValid os q
    pub active : q.active_channels ≡ p.active_channels ++ map (λ e. e.ptr) es
    pub kernel : q.kernel ≡ p.kernel
    pub store : q.channel_store ≡ p.channel_store
    pub events : q.event_list ≡ p.event_list
    pub fds : (d : ℕ) → (q.channels d).fd ≡ (p.channels d).fd
    pub masks : (d : ℕ) → (q.channels d).events ≡ (p.channels d).events

  module _ (p : EPollPoller os) (e : EpollEvent) (v : IsValid os p) where
    marked : EPollPoller os
    marked = record p {
      channels = update_at p.channels e.ptr (record (p.channels e.ptr) { revents = e.events });
      active_channels = p.active_channels ++ e.ptr ∷ [];
    }

    same_fd : (d : ℕ) → (marked.channels d).fd ≡ (p.channels d).fd
    unfolding marked
    same_fd d = ground arith

    same_index : (d : ℕ) → (marked.channels d).index ≡ (p.channels d).index
    unfolding marked
    same_index d = ground arith

    same_mask : (d : ℕ) → (marked.channels d).events ≡ (p.channels d).events
    unfolding marked
    same_mask d = ground arith

    IsWatched-marked :
        (fd c : ℕ) (f : EpollEvent) → IsWatched os p fd c f → IsWatched os marked fd c f
    unfolding marked
    IsWatched-marked fd c f w = record {
      stored = w.stored;
      named = same_fd c ∙ w.named;
      added = same_index c ∙ w.added;
      waits = w.waits;
      handed = w.handed;
    }

    marked-IsValid : IsValid os marked
    unfolding marked
    marked-IsValid = record {
      table = λ fd c s. let (f, w) = v.table fd c s in (f, IsWatched-marked fd c f w);
      listed = λ fd f s. IsWatched-marked fd f.ptr f (v.listed fd f s);
    }

    found :
        (fd : ℕ) (f : EpollEvent)
        → os.interest p.kernel fd ≡ some f
        → f.ptr ≡ e.ptr
        → maps_to p.channel_store (p.channels e.ptr).fd e.ptr ≡ true
    found fd f s q =
        let w = v.listed fd f s in
        subst (λ c. maps_to p.channel_store (p.channels c).fd c ≡ true) q
          (maps_to_self p.channel_store (p.channels f.ptr).fd f.ptr
            (ap p.channel_store w.named ∙ w.stored))

  pub fill_loop-IsFilled :
      (es : List EpollEvent) (p : EPollPoller os)
      → IsValid os p
      → AreHanded p es
      → (q : EPollPoller os) × (fill_loop os es p ≡ done q) × IsFilled p es q
  unfolding fill_loop marked
  fill_loop-IsFilled [] p v h = (
    p,
    refl,
    record {
      valid = v;
      active = sym (append-nil _);
      kernel = refl;
      store = refl;
      events = refl;
      fds = λ d. refl;
      masks = λ d. refl;
    },
  )
  fill_loop-IsFilled (e ∷ es) p v ((fd, f, s, at), rest) =
      let (q, same, r) = fill_loop-IsFilled es (marked p e v) (marked-IsValid p e v) rest in
      (
        q,
        rw (fill_loop, found p e v fd f s at) same,
        record {
          valid = r.valid;
          active = r.active ∙ append_assoc p.active_channels (e.ptr ∷ []) (map (λ e. e.ptr) es);
          kernel = r.kernel;
          store = r.store;
          events = r.events;
          fds = λ d. r.fds d ∙ same_fd p e v d;
          masks = λ d. r.masks d ∙ same_mask p e v d;
        },
      )
