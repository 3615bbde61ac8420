-- ===== src/Poller/Choice/Steps.antt =====
-- Each call of a method keeps the two pollers in agreement.
use native.Mathlib.Decide.{ℕ_discrete}
use tools_cxx.Prelude.{ℕ, ◌≡◌, ◌≢◌, ◌^◌, ◌%◌, sym, ap, ◌∙◌, none, some, get_elem?, arith}
use tools_cxx.Prelude.Int.{negsuc}
use tools_cxx.Poller.Channel.{Channel}
use tools_cxx.Poller.Poll
use tools_cxx.Poller.Poll.{PollFd, PollPoller, pollfd_of, to_short}
use tools_cxx.Poller.Poll.Invariant.{IsPlaced, IsFramed}
use tools_cxx.Poller.Poll.Remove.{IsRemoved}
use tools_cxx.Poller.EPoll.{Epoll, EpollEvent, EPollPoller, event_of, to_uint, k_new}
use tools_cxx.Poller.EPoll.Update.{IsUpdated}
use tools_cxx.Poller.EPoll.Remove.{IsDropped}
use tools_cxx.Poller.Choice.Agrees.{Agrees}

short_uint : (n : ℕ) → to_short n ≡ to_uint n % 2 ^ 16
short_uint n = omega arith

-- What two memories say of each channel stays the same when a call changes neither.
kept_field {ℓ} :
    {A : Type ℓ} (field : Channel → A) (c : ℕ) (ps after qs next : ℕ → Channel)
    → ((d : ℕ) → field (qs d) ≡ field (ps d))
    → ((d : ℕ) → field (after d) ≡ field (ps d))
    → field (next c) ≡ field (qs c)
    → ((d : ℕ) → d ≢ c → next d ≡ qs d)
    → (d : ℕ) → field (next d) ≡ field (after d)
kept_field field c ps after qs next same framed at kept d = elim (ℕ_discrete d c) [
  | yes e ↦
      ap (λ x. field (next x)) e ∙ at ∙ sym (ap (λ x. field (qs x)) e) ∙ same d ∙ sym (framed d)
  | no other ↦ ap field (kept d other) ∙ same d ∙ sym (framed d)
]

module _ (os : Epoll) (p : PollPoller) (q : EPollPoller os) (a : Agrees os p q) (c : ℕ) where
  -- The two pollers behind an update.
  module _ (after : PollPoller) (i : ℕ) (valid : Poll.Invariant.IsValid after)
      (at : IsPlaced after c i (pollfd_of (p.channels c))) (f : IsFramed p c after)
      (next : EPollPoller os) (u : IsUpdated os q c next) where
    updated_store : (fd : ℕ) → next.channel_store fd ≡ after.channel_store fd
    updated_store fd = elim (ℕ_discrete fd (p.channels c).fd) [
      | yes same ↦
          ap next.channel_store (same ∙ sym (a.same_fd c))
          ∙ u.watched.stored
          ∙ sym (ap after.channel_store same ∙ at.stored)
      | no other ↦
          u.store fd (λ e. other (e ∙ a.same_fd c)) ∙ a.same_store fd ∙ sym (f.store fd other)
    ]

    updated_new : (d : ℕ) → (after.channels d).index ≡ negsuc 0 → (next.channels d).index ≡ k_new
    updated_new d new = elim (ℕ_discrete d c) [
      | yes same ↦ absurd (cc (new, same, at.indexed))
      | no other ↦ ap (λ ch. ch.index) (u.kept d other) ∙ a.same_new d (f.negative d other new)
    ]

    updated_masks :
        (j : ℕ) (e : PollFd)
        → get_elem? after.pollfd_list j ≡ some e
        → (event : EpollEvent) × (os.interest next.kernel e.fd ≡ some event)
          × (e.events ≡ event.events % 2 ^ 16)
    updated_masks j e s = elim (ℕ_discrete e.fd (p.channels c).fd) [
      | yes same ↦
          let (d, place) = valid.held j e s in
          let same_c : d ≡ c = cc (place.stored, at.stored, same) in
          let same_j : j ≡ i = cc (place.indexed, at.indexed, same_c) in
          let entry : e ≡ pollfd_of (p.channels c) = cc (s, at.entry, same_j) in
          (
            event_of os q c,
            ap (os.interest next.kernel) (same ∙ sym (a.same_fd c)) ∙ u.watched.waits,
            ap (λ x. x.events) entry
                ∙ ap to_short (sym (a.same_events c))
                ∙ short_uint (q.channels c).events,
          )
      | no other ↦
          let (k, old) = f.entries j e s other in
          let (event, waits, mask) = a.masks k e old in
          (event, u.others e.fd (λ x. other (x ∙ a.same_fd c)) ∙ waits, mask)
    ]

    pub updated-Agrees : Agrees os after next
    updated-Agrees = record {
      poll_valid = valid;
      epoll_valid = u.valid;
      same_fd =
          kept_field (λ ch. ch.fd) c p.channels after.channels q.channels next.channels a.same_fd
            f.same_fd u.watched.named u.kept;
      same_events =
          kept_field (λ ch. ch.events) c p.channels after.channels q.channels next.channels
            a.same_events f.same_events u.same_events u.kept;
      same_store = updated_store;
      same_new = updated_new;
      masks = updated_masks;
    }

  -- The two pollers behind a removal.
  module _ (after : PollPoller) (r : IsRemoved p after c) (next : EPollPoller os)
      (u : IsDropped os q c next) where
    removed_absent : after.channel_store (p.channels c).fd ≡ none
    removed_absent = ap after.channel_store (sym (r.frame.same_fd c)) ∙ r.fresh.absent

    removed_store : (fd : ℕ) → next.channel_store fd ≡ after.channel_store fd
    removed_store fd = elim (ℕ_discrete fd (p.channels c).fd) [
      | yes same ↦
          ap next.channel_store (same ∙ sym (a.same_fd c) ∙ sym u.same_fd)
          ∙ u.gone.absent
          ∙ sym (ap after.channel_store same ∙ removed_absent)
      | no other ↦
          u.store fd (λ e. other (e ∙ a.same_fd c)) ∙ a.same_store fd ∙ sym (r.frame.store fd other)
    ]

    removed_new : (d : ℕ) → (after.channels d).index ≡ negsuc 0 → (next.channels d).index ≡ k_new
    removed_new d new = elim (ℕ_discrete d c) [
      | yes same ↦ ap (λ x. (next.channels x).index) same ∙ u.gone.unused
      | no other ↦
          ap (λ ch. ch.index) (u.kept d other) ∙ a.same_new d (r.frame.negative d other new)
    ]

    removed_masks :
        (j : ℕ) (e : PollFd)
        → get_elem? after.pollfd_list j ≡ some e
        → (event : EpollEvent) × (os.interest next.kernel e.fd ≡ some event)
          × (e.events ≡ event.events % 2 ^ 16)
    removed_masks j e s = elim (ℕ_discrete e.fd (p.channels c).fd) [
      | yes same ↦
          let (d, place) = r.valid.held j e s in absurd (cc (place.stored, removed_absent, same))
      | no other ↦
          let (k, old) = r.frame.entries j e s other in
          let (event, waits, mask) = a.masks k e old in
          (event, u.others e.fd (λ x. other (x ∙ a.same_fd c)) ∙ waits, mask)
    ]

    pub removed-Agrees : Agrees os after next
    removed-Agrees = record {
      poll_valid = r.valid;
      epoll_valid = u.valid;
      same_fd =
          kept_field (λ ch. ch.fd) c p.channels after.channels q.channels next.channels a.same_fd
            r.frame.same_fd u.same_fd u.kept;
      same_events =
          kept_field (λ ch. ch.events) c p.channels after.channels q.channels next.channels
            a.same_events r.frame.same_events u.same_events u.kept;
      same_store = removed_store;
      same_new = removed_new;
      masks = removed_masks;
    }
