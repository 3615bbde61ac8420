-- ===== src/Poller/Poll/Update.antt =====
-- `update_channel` keeps every place right.
use native.Mathlib.Decide.{ℕ_discrete}
use tools_cxx.Prelude.{
  update_at-ne, update_at_self, ℕ, ◌-◌, ◌≡◌, ◌≢◌, sym, ap, ◌∙◌, subst, ◌⊎◌, inl, inr, some, [], ◌∷◌,
  ◌++◌, arith, length, get_elem?, length-append,
}
use tools_cxx.Prelude.Int.{pos}
use tools_cxx.Poller.Poll.Places.{get_elem?-append_left, get_elem?-append_last, get_elem?-push}
use tools_cxx.Prelude.{update_at, ◌>>=◌}
use tools_cxx.Poller.Poll.{PollFd, PollPoller, set_index, pollfd_of, add_channel, update_channel}
use tools_cxx.Poller.Poll.Invariant.{IsPlaced, IsValid, IsNew, IsRegistered, IsFramed, place_of}
use tools_cxx.Poller.Poll.Modify.{
  modified, modify_channel-some, modified-IsValid, modified-IsFramed, IsPlaced-entry,
}

module _ (p : PollPoller) (c : ℕ) (new : IsNew p c) (v : IsValid p) where
  grown : PollPoller
  grown = record p {
    channels =
        set_index p.channels c (pos (length (p.pollfd_list ++ pollfd_of (p.channels c) ∷ []) - 1));
    channel_store = update_at p.channel_store (p.channels c).fd (some c);
    pollfd_list = p.pollfd_list ++ pollfd_of (p.channels c) ∷ [];
  }

  IsPlaced-new : IsPlaced grown c (length p.pollfd_list) (pollfd_of (p.channels c))
  unfolding grown
  IsPlaced-new = record {
    stored = update_at_self p.channel_store (p.channels c).fd (some c);
    indexed = ground (arith, length-append p.pollfd_list (pollfd_of (p.channels c) ∷ []));
    named = ground arith;
    entry = get_elem?-append_last p.pollfd_list (pollfd_of (p.channels c));
  }

  IsPlaced-old : (d j : ℕ) (f : PollFd) → IsPlaced p d j f → IsPlaced grown d j f
  unfolding grown
  IsPlaced-old d j f old =
      let ne_fd : f.fd ≢ (p.channels c).fd = λ q. cc (old.stored, new.absent) in
      let ne : d ≢ c = λ q. cc (old.indexed, new.negative) in
      record {
        stored = update_at-ne p.channel_store (p.channels c).fd (some c) f.fd ne_fd ∙ old.stored;
        indexed = ground (arith, old.indexed);
        named = ground (arith, old.named);
        entry = get_elem?-append_left p.pollfd_list _ j old.entry;
      }

  IsPlaced-grown :
      (fd d : ℕ)
      → grown.channel_store fd ≡ some d
      → (j : ℕ) × (f : PollFd) × (f.fd ≡ fd) × IsPlaced grown d j f
  unfolding grown
  IsPlaced-grown fd d s = elim (ℕ_discrete fd (p.channels c).fd) [
    | yes same ↦
        let same_c : c ≡ d = ground arith in
        (
          length p.pollfd_list,
          pollfd_of (p.channels c),
          sym same,
          subst (λ x. IsPlaced grown x (length p.pollfd_list) (pollfd_of (p.channels c))) same_c
              IsPlaced-new,
        )
    | no other ↦
        let (j, f, named, old) = v.placed fd d (ground arith) in
        (j, f, named, IsPlaced-old d j f old)
  ]

  held_grown :
      (j : ℕ) (f : PollFd) → get_elem? grown.pollfd_list j ≡ some f → (d : ℕ) × IsPlaced grown d j f
  unfolding grown
  held_grown j f s = elim (get_elem?-push p.pollfd_list (pollfd_of (p.channels c)) j s) [
    | inl old ↦ let (d, was) = v.held j f old in (d, IsPlaced-old d j f was)
    | inr (last, last_e) ↦ (
      c,
      subst (λ x. IsPlaced grown c x f) (sym last)
          (subst (IsPlaced grown c (length p.pollfd_list)) last_e IsPlaced-new),
    )
  ]

  grown-IsFramed : IsFramed p c grown
  unfolding grown
  grown-IsFramed = record {
    entries = λ j f s ne. elim (get_elem?-push p.pollfd_list (pollfd_of (p.channels c)) j s) [
      | inl old ↦ (j, old)
      | inr (last, last_e) ↦ absurd (ne (sym (ap (λ x. x.fd) last_e)))
    ];
    store = λ fd ne. update_at-ne p.channel_store (p.channels c).fd (some c) fd ne;
    negative = λ d ne old. ground (arith, old);
    same_fd = λ d. ground arith;
    same_events = λ d. ground arith;
  }

  add_channel-some : add_channel p c ≡ some grown
  unfolding add_channel grown
  add_channel-some = rw (new.absent, ◌>>=◌)

-- Registering a new channel or updating a registered one never fails an assertion, keeps every place
-- right, leaves the channel an entry with its descriptor, its present mask and no returned events, and
-- changes nothing else.
pub update_channel-IsValid :
    (p : PollPoller) (c : ℕ)
    → IsValid p
    → IsNew p c ⊎ IsRegistered p c
    → (q : PollPoller) × (i : ℕ) × (update_channel p c ≡ some q)
      × IsValid q
      × IsPlaced q c i (pollfd_of (p.channels c))
      × IsFramed p c q
unfolding update_channel
update_channel-IsValid p c v (inl new) = (
  grown p c new v,
  length p.pollfd_list,
  (rw (new.negative, update_channel) (add_channel-some p c new v)),
  record { placed = IsPlaced-grown p c new v; held = held_grown p c new v },
  IsPlaced-new p c new v,
  grown-IsFramed p c new v,
)
update_channel-IsValid p c v (inr old) =
    let (i, e, at) = place_of p c v old in
    (
      modified p c i e,
      i,
      (rw (at.indexed, update_channel) (modify_channel-some p c i e at)),
      modified-IsValid p c i e at v,
      IsPlaced-entry p c i e at v,
      modified-IsFramed p c i e at v,
    )
