-- ===== src/Poller/EPoll/Remove.antt =====
-- Removing a channel.
use tools_cxx.Prelude.{
  ℕ, ◌≡◌, ◌≢◌, refl, ap, ◌∙◌, none, some, update_at, update_at_self, update_at-ne,
}
use tools_cxx.Poller.EPoll.{
  Epoll, delete, done, EPollPoller, event_of, set_index, remove_channel, k_new,
}
use tools_cxx.Poller.EPoll.Invariant.{IsValid, IsNew, IsRegistered}
use tools_cxx.Poller.EPoll.Local.{maps_to_self, IsLocal, IsValid-absent, update-some, with_index}

module _ (os : Epoll) where
  -- What removing leaves: nothing under the channel's descriptor, and the rest as it was.
  pub record IsDropped (p : EPollPoller os) (c : ℕ) (q : EPollPoller os) : Type 0 where
    pub valid : IsValid os q
    pub gone : IsNew os q c
    pub unwatched : os.interest q.kernel (p.channels c).fd ≡ none
    pub others :
        (fd : ℕ) → fd ≢ (p.channels c).fd → os.interest q.kernel fd ≡ os.interest p.kernel fd
    pub store : (fd : ℕ) → fd ≢ (p.channels c).fd → q.channel_store fd ≡ p.channel_store fd
    pub kept : (d : ℕ) → d ≢ c → q.channels d ≡ p.channels d
    pub same_fd : (q.channels c).fd ≡ (p.channels c).fd
    pub same_events : (q.channels c).events ≡ (p.channels c).events

  module _ (p : EPollPoller os) (c : ℕ) (v : IsValid os p) where
    removed_lem :
        IsRegistered os p c
        → (k : os.Kernel)
        → os.epoll_ctl delete (p.channels c).fd (event_of os p c) p.kernel ≡ some k
        → IsDropped p c (record p {
          channel_store = update_at p.channel_store (p.channels c).fd none;
          kernel = k;
          channels = set_index os p c k_new;
        })
    removed_lem r k ok =
        let q : EPollPoller os = record p {
          channel_store = update_at p.channel_store (p.channels c).fd none;
          kernel = k;
          channels = set_index os p c k_new;
        } in
        let lists =
          os.interest-epoll_ctl delete (p.channels c).fd (event_of os p c) p.kernel k ok in
        let local : IsLocal os p c q = record {
          store = λ fd ne. update_at-ne p.channel_store (p.channels c).fd none fd ne;
          interest =
              λ fd ne. lists fd ∙ update_at-ne (os.interest p.kernel) (p.channels c).fd none fd ne;
          channels =
              λ d ne. update_at-ne p.channels c (record (p.channels c) { index = k_new }) d ne;
        } in
        let gone : q.channel_store (p.channels c).fd ≡ none =
          update_at_self p.channel_store (p.channels c).fd none in
        let quiet : os.interest q.kernel (p.channels c).fd ≡ none =
          lists (p.channels c).fd ∙ update_at_self (os.interest p.kernel) (p.channels c).fd none in
        record {
          valid = IsValid-absent os p c q v local gone quiet;
          gone = record {
            unused = ap (λ ch. ch.index) (with_index os c p k_new);
            absent = ap q.channel_store (ap (λ ch. ch.fd) (with_index os c p k_new)) ∙ gone;
          };
          unwatched = quiet;
          others = local.interest;
          store = local.store;
          kept = local.channels;
          same_fd = ap (λ ch. ch.fd) (with_index os c p k_new);
          same_events = ap (λ ch. ch.events) (with_index os c p k_new);
        }

    -- Removing a registered channel fails no assertion. If epoll_ctl(2) takes it off the interest list,
    -- the table and the list agree, the channel is new again, the kernel does not wait for its
    -- descriptor, and all other entries and channels are as they were.
    pub remove_channel-IsDropped :
        IsRegistered os p c
        → (k : os.Kernel)
        → os.epoll_ctl delete (p.channels c).fd (event_of os p c) p.kernel ≡ some k
        → (q : EPollPoller os) × (remove_channel os p c ≡ done q) × IsDropped p c q
    unfolding remove_channel
    remove_channel-IsDropped r k e =
        let (f, old) = v.table (p.channels c).fd c r in
        let less : EPollPoller os = record p {
          channel_store = update_at p.channel_store (p.channels c).fd none;
        } in
        (
          record p {
            channel_store = update_at p.channel_store (p.channels c).fd none;
            kernel = k;
            channels = set_index os p c k_new;
          },
          rw (old.added, maps_to_self p.channel_store (p.channels c).fd c r)
              (rw (update-some os delete less c k e) refl),
          removed_lem r k e,
        )
