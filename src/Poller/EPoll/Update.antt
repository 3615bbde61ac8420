-- ===== src/Poller/EPoll/Update.antt =====
-- Adding a channel and changing its mask.
use tools_cxx.Prelude.{
  ℕ, ◌≡◌, ◌≢◌, ◌⊎◌, inl, inr, refl, ap, ◌∙◌, none, some, update_at_self, update_at-ne, Option-cases,
}
use tools_cxx.Poller.EPoll.{
  Epoll, Op, add, modify, done, undefined, EPollPoller, event_of, stored, update_channel, k_added,
  to_uint,
}
use tools_cxx.Poller.EPoll.Invariant.{IsWatched, IsValid, IsNew, IsRegistered}
use tools_cxx.Poller.EPoll.Local.{
  maps_to_self, IsLocal, IsValid-watched, update-some, update-none, with_index,
}

module _ (os : Epoll) where
  -- What updating leaves: the channel is watched with its present mask, and every other entry of the
  -- interest list and every other channel is as it was.
  pub record IsUpdated (p : EPollPoller os) (c : ℕ) (q : EPollPoller os) : Type 0 where
    pub valid : IsValid os q
    pub watched : IsWatched os q (p.channels c).fd c (event_of os p c)
    pub others :
        (fd : ℕ) → fd ≢ (p.channels c).fd → os.interest q.kernel fd ≡ os.interest p.kernel fd
    pub store : (fd : ℕ) → fd ≢ (p.channels c).fd → q.channel_store fd ≡ p.channel_store fd
    pub kept : (d : ℕ) → d ≢ c → q.channels d ≡ p.channels d
    pub same_events : (q.channels c).events ≡ (p.channels c).events

  module _ (p : EPollPoller os) (c : ℕ) (v : IsValid os p) where
    added_lem :
        IsNew os p c
        → (k : os.Kernel) → os.epoll_ctl add (p.channels c).fd (event_of os p c) p.kernel ≡ some k
        → IsUpdated p c (record (stored os p c) { kernel = k })
    added_lem n k ok =
        let q : EPollPoller os = record (stored os p c) { kernel = k } in
        let lists = os.interest-epoll_ctl add (p.channels c).fd (event_of os p c) p.kernel k ok in
        let local : IsLocal os p c q = record {
          store = λ fd ne. update_at-ne p.channel_store (p.channels c).fd (some c) fd ne;
          interest = λ fd ne.
              lists fd
              ∙ update_at-ne (os.interest p.kernel) (p.channels c).fd (some (event_of os p c)) fd
                  ne;
          channels =
              λ d ne. update_at-ne p.channels c (record (p.channels c) { index = k_added }) d ne;
        } in
        let watched : IsWatched os q (p.channels c).fd c (event_of os p c) = record {
          stored = update_at_self p.channel_store (p.channels c).fd (some c);
          named = ap (λ ch. ch.fd) (with_index os c p k_added);
          added = ap (λ ch. ch.index) (with_index os c p k_added);
          waits =
              lists (p.channels c).fd
              ∙ update_at_self (os.interest p.kernel) (p.channels c).fd (some (event_of os p c));
          handed = refl;
        } in
        record {
          valid = IsValid-watched os p c q v local (event_of os p c) watched;
          watched = watched;
          others = local.interest;
          store = local.store;
          kept = local.channels;
          same_events = ap (λ ch. ch.events) (with_index os c p k_added);
        }

    changed_lem :
        IsRegistered os p c
        → (k : os.Kernel)
        → os.epoll_ctl modify (p.channels c).fd (event_of os p c) p.kernel ≡ some k
        → IsUpdated p c (record p { kernel = k })
    changed_lem r k ok =
        let q : EPollPoller os = record p { kernel = k } in
        let lists =
          os.interest-epoll_ctl modify (p.channels c).fd (event_of os p c) p.kernel k ok in
        let (e, old) = v.table (p.channels c).fd c r in
        let local : IsLocal os p c q = record {
          store = λ fd ne. refl;
          interest = λ fd ne.
              lists fd
              ∙ update_at-ne (os.interest p.kernel) (p.channels c).fd (some (event_of os p c)) fd
                  ne;
          channels = λ d ne. refl;
        } in
        let watched : IsWatched os q (p.channels c).fd c (event_of os p c) = record {
          stored = r;
          named = refl;
          added = old.added;
          waits =
              lists (p.channels c).fd
              ∙ update_at_self (os.interest p.kernel) (p.channels c).fd (some (event_of os p c));
          handed = refl;
        } in
        record {
          valid = IsValid-watched os p c q v local (event_of os p c) watched;
          watched = watched;
          others = local.interest;
          store = local.store;
          kept = local.channels;
          same_events = refl;
        }

    ctl_stored :
        (op : Op)
        → os.epoll_ctl op ((stored os p c).channels c).fd (event_of os (stored os p c) c) p.kernel
          ≡ os.epoll_ctl op (p.channels c).fd (event_of os p c) p.kernel
    ctl_stored op =
        ap (λ ch. os.epoll_ctl op ch.fd (record { events = to_uint ch.events; ptr = c }) p.kernel)
          (with_index os c p k_added)

    pub add_new :
        IsNew os p c
        → ((q : EPollPoller os) × (update_channel os p c ≡ done q) × IsUpdated p c q)
          ⊎ ((update_channel os p c ≡ undefined)
              × (os.epoll_ctl add (p.channels c).fd (event_of os p c) p.kernel ≡ none))
    unfolding update_channel
    add_new n =
        elim (Option-cases (os.epoll_ctl add (p.channels c).fd (event_of os p c) p.kernel)) [
          | inl e ↦ inr (
            rw (n.unused, n.absent) (update-none os add (stored os p c) c (ctl_stored add ∙ e)),
            e,
          )
          | inr (k, e) ↦ inl (
            record (stored os p c) { kernel = k },
            rw (n.unused, n.absent) (update-some os add (stored os p c) c k (ctl_stored add ∙ e)),
            added_lem n k e,
          )
        ]

    pub change_old :
        IsRegistered os p c
        → ((q : EPollPoller os) × (update_channel os p c ≡ done q) × IsUpdated p c q)
          ⊎ ((update_channel os p c ≡ undefined)
              × (os.epoll_ctl modify (p.channels c).fd (event_of os p c) p.kernel ≡ none))
    unfolding update_channel
    change_old r =
        let (f, old) = v.table (p.channels c).fd c r in
        elim (Option-cases (os.epoll_ctl modify (p.channels c).fd (event_of os p c) p.kernel)) [
          | inl e ↦ inr (
            rw (old.added, maps_to_self p.channel_store (p.channels c).fd c r)
                (update-none os modify p c e),
            e,
          )
          | inr (k, e) ↦ inl (
            record p { kernel = k },
            rw (old.added, maps_to_self p.channel_store (p.channels c).fd c r)
                (update-some os modify p c k e),
            changed_lem r k e,
          )
        ]
