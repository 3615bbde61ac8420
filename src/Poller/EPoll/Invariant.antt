-- ===== src/Poller/EPoll/Invariant.antt =====
-- The poller's table and the kernel's interest list hold the same channels.
use tools_cxx.Prelude.{ℕ, ◌≡◌, none, some}
use tools_cxx.Poller.EPoll.{Epoll, EpollEvent, EPollPoller, k_new, k_added}

module _ (os : Epoll) where
  -- The channel is in the table under its descriptor, has been added, and the kernel waits for its
  -- descriptor's events and will hand out its address.
  pub record IsWatched (p : EPollPoller os) (fd c : ℕ) (e : EpollEvent) : Type 0 where
    pub stored : p.channel_store fd ≡ some c
    pub named : (p.channels c).fd ≡ fd
    pub added : (p.channels c).index ≡ k_added
    pub waits : os.interest p.kernel fd ≡ some e
    pub handed : e.ptr ≡ c

  pub record IsValid (p : EPollPoller os) : Type 0 where
    pub table : (fd c : ℕ) → p.channel_store fd ≡ some c → (e : EpollEvent) × IsWatched p fd c e
    pub listed :
        (fd : ℕ) (e : EpollEvent) → os.interest p.kernel fd ≡ some e → IsWatched p fd e.ptr e

  -- A channel that is not registered, and whose descriptor no channel has registered.
  pub record IsNew (p : EPollPoller os) (c : ℕ) : Type 0 where
    pub unused : (p.channels c).index ≡ k_new
    pub absent : p.channel_store (p.channels c).fd ≡ none

  abbrev pub IsRegistered : EPollPoller os → ℕ → Type 0
  IsRegistered p c = p.channel_store (p.channels c).fd ≡ some c
