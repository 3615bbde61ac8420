-- ===== src/Poller/Poll/Modify.antt =====
-- A registered channel's entry with its present mask.
use native.Mathlib.Decide.{ℕ_discrete}
use tools_cxx.Prelude.{
  ℕ, ◌≡◌, ◌≢◌, refl, sym, ap, ◌∙◌, subst, inl, inr, some, arith, get_elem?, set, get_elem?-set_self,
  get_elem?-set_ne,
}
use tools_cxx.Poller.Poll.Places.{get_elem?-lt, get_elem?-set}
use tools_cxx.Prelude.{◌>>=◌}
use tools_cxx.Poller.Poll.{PollFd, PollPoller, pollfd_of, modify_channel, to_short}
use tools_cxx.Poller.Poll.Invariant.{IsPlaced, IsValid, IsFramed, entry_of-some}

unfoldable pub modified : PollPoller → ℕ → ℕ → PollFd → PollPoller
modified p c i e = record p {
  pollfd_list =
      set p.pollfd_list i (record e { events = to_short (p.channels c).events; revents = 0 });
}

pub modify_channel-some :
    (p : PollPoller) (c i : ℕ) (e : PollFd)
    → IsPlaced p c i e
    → modify_channel p c i ≡ some (modified p c i e)
unfolding modify_channel modified
modify_channel-some p c i e at = rw (entry_of-some p c i e at, ◌>>=◌)

module _ (p : PollPoller) (c i : ℕ) (e : PollFd) (at : IsPlaced p c i e) (v : IsValid p) where
  entry_after : PollFd
  entry_after = record e { events = to_short (p.channels c).events; revents = 0 }

  IsPlaced-same : IsPlaced (modified p c i e) c i entry_after
  unfolding modified entry_after
  IsPlaced-same = record {
    stored = at.stored;
    indexed = at.indexed;
    named = at.named;
    entry = get_elem?-set_self p.pollfd_list i _ (get_elem?-lt p.pollfd_list i at.entry);
  }

  IsPlaced-other :
      (d j : ℕ) (f : PollFd) → i ≢ j → IsPlaced p d j f → IsPlaced (modified p c i e) d j f
  unfolding modified
  IsPlaced-other d j f ne old = record {
    stored = old.stored;
    indexed = old.indexed;
    named = old.named;
    entry = get_elem?-set_ne p.pollfd_list _ ne ∙ old.entry;
  }

  IsPlaced-after :
      (fd d : ℕ)
      → p.channel_store fd ≡ some d
      → (j : ℕ) × (f : PollFd) × (f.fd ≡ fd) × IsPlaced (modified p c i e) d j f
  unfolding entry_after
  IsPlaced-after fd d s =
      let (j, f, named, old) = v.placed fd d s in
      elim (ℕ_discrete i j) [
        | yes same ↦
            let same_e : e ≡ f = cc (at.entry, old.entry) in
            let same_c : c ≡ d = cc (at.stored, old.stored) in
            (
              i,
              entry_after,
              ap (λ x. x.fd) same_e ∙ named,
              subst (λ x. IsPlaced (modified p c i e) x i entry_after) same_c IsPlaced-same,
            )
        | no other ↦ (j, f, named, IsPlaced-other d j f other old)
      ]

  held_after :
      (j : ℕ) (f : PollFd)
      → get_elem? (set p.pollfd_list i entry_after) j ≡ some f
      → (d : ℕ) × IsPlaced (modified p c i e) d j f
  held_after j f s = elim (get_elem?-set p.pollfd_list i entry_after j s) [
    | inl (same, new) ↦ (
      c,
      subst (λ x. IsPlaced (modified p c i e) c x f) same
          (subst (IsPlaced (modified p c i e) c i) new IsPlaced-same),
    )
    | inr (other, old) ↦ let (d, was) = v.held j f old in (d, IsPlaced-other d j f other was)
  ]

  pub modified-IsValid : IsValid (modified p c i e)
  unfolding modified entry_after
  modified-IsValid = record { placed = IsPlaced-after; held = held_after }

  pub modified-IsFramed : IsFramed p c (modified p c i e)
  unfolding modified
  modified-IsFramed = record {
    entries = λ j f s ne. elim (get_elem?-set p.pollfd_list i _ j s) [
      | inl (same, new) ↦ absurd (ne (sym (ap (λ x. x.fd) new) ∙ sym at.named))
      | inr (other, old) ↦ (j, old)
    ];
    store = λ fd ne. refl;
    negative = λ d ne old. old;
    same_fd = λ d. refl;
    same_events = λ d. refl;
  }

  pub IsPlaced-entry : IsPlaced (modified p c i e) c i (pollfd_of (p.channels c))
  unfolding entry_after
  IsPlaced-entry =
      let same : entry_after ≡ pollfd_of (p.channels c) = ground (arith, at.named) in
      subst (IsPlaced (modified p c i e) c i) same IsPlaced-same
