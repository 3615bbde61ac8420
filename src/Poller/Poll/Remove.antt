-- ===== src/Poller/Poll/Remove.antt =====
-- `remove_channel`: the last entry takes the place of the one that is removed.
use native.Mathlib.Decide.{ℕ_discrete}
use tools_cxx.Prelude.{
  update_at-ne, ℕ, ◌-◌, ◌≡◌, ◌≢◌, refl, sym, ◌∙◌, subst, inl, inr, none, some, arith, length,
  get_elem?,
}
use tools_cxx.Poller.Poll.Places.{
  get_elem?-lt, get_elem?-some, get_elem?-set, get_elem?-take, take-lt,
}
use tools_cxx.Poller.Poll.Invariant.{
  IsPlaced, IsValid, IsNew, IsFramed, IsRegistered, place_of, entry_of-some,
}
use tools_cxx.Poller.Poll.{PollFd, PollPoller, remove_channel}
use tools_cxx.Poller.Poll.Swap.{
  erased, differs, shortened, shortened-IsValid, swapped, swapped-IsValid, read_swapped, in_front,
}

-- What is left of the poller `p` when the channel `c` has been removed: its places are right, `c` is
-- new, and every other channel is registered as before, with its descriptor, mask and entry.
pub record IsRemoved (p q : PollPoller) (c : ℕ) : Type 0 where
  pub valid : IsValid q
  pub fresh : IsNew q c
  pub store : (fd : ℕ) → q.channel_store fd ≡ erased p c fd
  pub frame : IsFramed p c q

module _ (p : PollPoller) (c i : ℕ) (e : PollFd) (at : IsPlaced p c i e) (v : IsValid p) where
  shortened-IsFramed : IsFramed p c (shortened p c i e at v)
  unfolding shortened
  shortened-IsFramed = record {
    entries = λ j f s ne. (
      j,
      sym (
            get_elem?-take (length p.pollfd_list - 1) p.pollfd_list j
              (take-lt (length p.pollfd_list - 1) p.pollfd_list j s))
          ∙ s,
    );
    store = λ fd ne. update_at-ne p.channel_store (p.channels c).fd none fd ne;
    negative = λ d ne old. ground (arith, old);
    same_fd = λ d. ground arith;
    same_events = λ d. ground arith;
  }

  swapped-IsFramed :
      (l : PollFd) (d_l : ℕ) (at_l : IsPlaced p d_l (length p.pollfd_list - 1) l)
      (ne_l : i ≢ length p.pollfd_list - 1)
      → IsFramed p c (swapped p c i e at v l d_l at_l ne_l)
  unfolding swapped
  swapped-IsFramed l d_l at_l ne_l = record {
    entries = λ j f s ne.
        elim (get_elem?-set p.pollfd_list i l j (
          sym (
            read_swapped p c i e at v l d_l at_l ne_l j
              (in_front p c i e at v l d_l at_l ne_l j f s))
          ∙ s)) [
            | inl (same, new) ↦ (
              length p.pollfd_list - 1,
              subst (λ x. get_elem? p.pollfd_list (length p.pollfd_list - 1) ≡ some x) new
                  at_l.entry,
            )
            | inr (other, old) ↦ (j, old)
          ];
    store = λ fd ne. update_at-ne p.channel_store (p.channels c).fd none fd ne;
    negative = λ d ne old. ground (arith, old);
    same_fd = λ d. ground arith;
    same_events = λ d. ground arith;
  }

  shortened-IsRemoved : i ≡ length p.pollfd_list - 1 → IsRemoved p (shortened p c i e at v) c
  unfolding shortened
  shortened-IsRemoved last = record {
    valid = shortened-IsValid p c i e at v last;
    fresh = record { negative = ground arith; absent = ground arith };
    store = λ fd. refl;
    frame = shortened-IsFramed;
  }

  swapped-IsRemoved :
      (l : PollFd) (d_l : ℕ) (at_l : IsPlaced p d_l (length p.pollfd_list - 1) l)
      (ne_l : i ≢ length p.pollfd_list - 1)
      → IsRemoved p (swapped p c i e at v l d_l at_l ne_l) c
  unfolding swapped
  swapped-IsRemoved l d_l at_l ne_l = record {
    valid = swapped-IsValid p c i e at v l d_l at_l ne_l;
    fresh = record { negative = ground arith; absent = ground arith };
    store = λ fd. refl;
    frame = swapped-IsFramed l d_l at_l ne_l;
  }

  remove_last : i ≡ length p.pollfd_list - 1 → remove_channel p c ≡ some (shortened p c i e at v)
  unfolding remove_channel shortened
  remove_last last = ground (arith, entry_of-some p c i e at, at.indexed, last)

  remove_swap :
      (l : PollFd) (d_l : ℕ) (at_l : IsPlaced p d_l (length p.pollfd_list - 1) l)
      (ne_l : i ≢ length p.pollfd_list - 1)
      → remove_channel p c ≡ some (swapped p c i e at v l d_l at_l ne_l)
  unfolding remove_channel swapped
  remove_swap l d_l at_l ne_l = ground (
    arith,
    entry_of-some p c i e at,
    at.indexed,
    at_l.entry,
    at_l.stored,
    differs p c i e at v d_l (length p.pollfd_list - 1) l at_l,
  )

-- Removing a registered channel never fails an assertion nor meets a null pointer.
pub remove_channel-IsRemoved :
    (p : PollPoller) (c : ℕ)
    → IsValid p
    → IsRegistered p c
    → (q : PollPoller) × (remove_channel p c ≡ some q) × IsRemoved p q c
remove_channel-IsRemoved p c v r =
    let (i, e, at) = place_of p c v r in
    let lt = get_elem?-lt p.pollfd_list i at.entry in
    elim (ℕ_discrete i (length p.pollfd_list - 1)) [
      | yes last ↦ (
        shortened p c i e at v,
        remove_last p c i e at v last,
        shortened-IsRemoved p c i e at v last,
      )
      | no ne ↦
          let (l, read) = get_elem?-some p.pollfd_list (length p.pollfd_list - 1) (omega arith) in
          let (d_l, at_l) = v.held (length p.pollfd_list - 1) l read in
          (
            swapped p c i e at v l d_l at_l ne,
            remove_swap p c i e at v l d_l at_l ne,
            swapped-IsRemoved p c i e at v l d_l at_l ne,
          )
    ]
