-- ===== src/Poller/Choice/Agrees.antt =====
-- A PollPoller and an EPollPoller that ask the kernel for the same events.
use tools_cxx.Prelude.{ℕ, ◌≡◌, ◌^◌, ◌%◌, refl, sym, ◌∙◌, subst, none, some, get_elem?}
use tools_cxx.Prelude.Int.{negsuc}
use tools_cxx.Poller.Channel.{Channel}
use tools_cxx.Poller.Poll
use tools_cxx.Poller.Poll.{PollFd, PollPoller}
use tools_cxx.Poller.Poll.Invariant
use tools_cxx.Poller.EPoll
use tools_cxx.Poller.EPoll.{Epoll, EpollEvent, EPollPoller, k_new}

module _ (os : Epoll) where
  -- The tables are the same, and so are the channels, but for their indices; each entry of the array
  -- has a counterpart in the interest list, with the same mask.
  pub record Agrees (p : PollPoller) (q : EPollPoller os) : Type 0 where
    pub poll_valid : Invariant.IsValid p
    pub epoll_valid : EPoll.Invariant.IsValid os q
    pub same_fd : (d : ℕ) → (q.channels d).fd ≡ (p.channels d).fd
    pub same_events : (d : ℕ) → (q.channels d).events ≡ (p.channels d).events
    pub same_store : (fd : ℕ) → q.channel_store fd ≡ p.channel_store fd
    pub same_new : (d : ℕ) → (p.channels d).index ≡ negsuc 0 → (q.channels d).index ≡ k_new
    pub masks :
        (i : ℕ) (e : PollFd)
        → get_elem? p.pollfd_list i ≡ some e
        → (event : EpollEvent) × (os.interest q.kernel e.fd ≡ some event)
          × (e.events ≡ event.events % 2 ^ 16)

  -- And each element of the interest list has a counterpart in the array, with the same mask.
  pub Agrees-masks :
      (p : PollPoller) (q : EPollPoller os)
      → Agrees p q
      → (fd : ℕ) (event : EpollEvent) → os.interest q.kernel fd ≡ some event
      → (i : ℕ) × (e : PollFd) × (get_elem? p.pollfd_list i ≡ some e)
        × (e.fd ≡ fd)
        × (e.events ≡ event.events % 2 ^ 16)
  Agrees-masks p q a fd event listed =
      let w = a.epoll_valid.listed fd event listed in
      let (i, e, named, at) = a.poll_valid.placed fd event.ptr (sym (a.same_store fd) ∙ w.stored) in
      let (other, waits, same) = a.masks i e at.entry in
      let same_event : other ≡ event = cc (waits, listed, named) in
      (i, e, at.entry, named, subst (λ x. e.events ≡ x.events % 2 ^ 16) same_event same)

  -- Pollers that have just been made agree, where the interest list is empty and no channel has an
  -- index.
  pub make-Agrees :
      (kernel : os.Kernel) (channels : ℕ → Channel)
      → ((fd : ℕ) → os.interest kernel fd ≡ none)
      → Agrees (Poll.make channels) (EPoll.make os kernel channels)
  unfolding Poll.make EPoll.make
  make-Agrees kernel channels empty = record {
    poll_valid = record { placed = λ fd c s. cc; held = λ i e s. cc };
    epoll_valid = record {
      table = λ fd c s. absurd cc;
      listed = λ fd e s. absurd (cc (s, empty fd));
    };
    same_fd = λ d. refl;
    same_events = λ d. refl;
    same_store = λ fd. refl;
    same_new = λ d new. new;
    masks = λ i e s. absurd cc;
  }
