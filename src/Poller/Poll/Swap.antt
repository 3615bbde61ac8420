-- ===== src/Poller/Poll/Swap.antt =====
-- The array behind a removal: without its last entry, or with the last entry at the removed one's place.
use native.Mathlib.Decide.{ℕ_discrete}
use tools_cxx.Prelude.{
  update_at-ne, ℕ, ◌-◌, ◌<◌, ◌≡◌, ◌≢◌, sym, ap, ◌∙◌, subst, inl, inr, Option, none, some, arith,
  length, get_elem?, set, length-set, get_elem?-set_self, get_elem?-set_ne,
}
use tools_cxx.Prelude.Int.{pos, negsuc}
use tools_cxx.Poller.Poll.Places.{get_elem?-lt, get_elem?-set, get_elem?-take, take-lt}
use tools_cxx.Poller.Poll.Invariant.{IsPlaced, IsValid}
use tools_cxx.Prelude.{update_at}
use tools_cxx.Poller.Poll.{PollFd, PollPoller, set_index, pop_back}

abbrev pub erased : PollPoller → ℕ → ℕ → Option ℕ
erased p c = update_at p.channel_store (p.channels c).fd none

module _ (p : PollPoller) (c i : ℕ) (e : PollFd) (at : IsPlaced p c i e) (v : IsValid p) where
  -- Another place is another channel's, under another descriptor.
  pub differs :
      (d j : ℕ) (f : PollFd) → IsPlaced p d j f → j ≢ i → (d ≢ c) × (f.fd ≢ (p.channels c).fd)
  differs d j f was ne =
      let other : d ≢ c = λ (q : d ≡ c). ne (cc (was.indexed, at.indexed)) in
      (other, λ (q : f.fd ≡ (p.channels c).fd). other (cc (was.stored, at.stored, at.named)))

  -- What the table still holds has its place elsewhere.
  kept_place :
      (fd d : ℕ)
      → erased p c fd ≡ some d
      → (j : ℕ) × (f : PollFd) × (f.fd ≡ fd) × IsPlaced p d j f × (j ≢ i)
  kept_place fd d s = elim (ℕ_discrete fd (p.channels c).fd) [
    | yes same ↦ absurd (ground arith)
    | no other ↦
        let (j, f, named, was) = v.placed fd d (ground arith) in
        (j, f, named, was, λ (q : j ≡ i). other (cc (was.entry, at.entry, at.named, named)))
  ]

  unfoldable pub shortened : PollPoller
  shortened = record p {
    channels = set_index p.channels c (negsuc 0);
    channel_store = erased p c;
    pollfd_list = pop_back p.pollfd_list;
  }

  short_place :
      (d j : ℕ) (f : PollFd)
      → i ≡ length p.pollfd_list - 1
      → j ≢ i
      → IsPlaced p d j f
      → IsPlaced shortened d j f
  unfolding shortened
  short_place d j f last ne was =
      let (other, other_fd) = differs d j f was ne in
      record {
        stored = update_at-ne p.channel_store (p.channels c).fd none f.fd other_fd ∙ was.stored;
        indexed = ground (arith, was.indexed);
        named = ground (arith, was.named);
        entry =
            get_elem?-take (length p.pollfd_list - 1) p.pollfd_list j
              (omega (arith, get_elem?-lt p.pollfd_list j was.entry))
            ∙ was.entry;
      }

  short_held :
      (j : ℕ) (f : PollFd)
      → i ≡ length p.pollfd_list - 1
      → get_elem? (pop_back p.pollfd_list) j ≡ some f
      → (d : ℕ) × IsPlaced shortened d j f
  short_held j f last s =
      let lt = take-lt (length p.pollfd_list - 1) p.pollfd_list j s in
      let old = sym (get_elem?-take (length p.pollfd_list - 1) p.pollfd_list j lt) ∙ s in
      let (d, was) = v.held j f old in (d, short_place d j f last (omega arith) was)

  pub shortened-IsValid : i ≡ length p.pollfd_list - 1 → IsValid shortened
  unfolding shortened
  shortened-IsValid last = record {
    placed = λ fd d s.
        (let (j, f, named, was, ne) = kept_place fd d s in
          (j, f, named, short_place d j f last ne was));
    held = λ j f s. short_held j f last s;
  }

  -- The last entry and its channel.
  module _ (l : PollFd) (d_l : ℕ) (at_l : IsPlaced p d_l (length p.pollfd_list - 1) l)
      (ne_l : i ≢ length p.pollfd_list - 1) where
    unfoldable pub swapped : PollPoller
    swapped = record p {
      channels = set_index (set_index p.channels d_l (pos i)) c (negsuc 0);
      channel_store = erased p c;
      pollfd_list = pop_back (set (set p.pollfd_list i l) (length p.pollfd_list - 1) e);
    }

    size_after :
        length (set (set p.pollfd_list i l) (length p.pollfd_list - 1) e) - 1
        ≡ length p.pollfd_list - 1
    size_after = omega (
      arith,
      length-set (set p.pollfd_list i l) (length p.pollfd_list - 1) e,
      length-set p.pollfd_list i l,
    )

    -- In front of the last place the array is the old one with `l` at `i`.
    pub read_swapped :
        (j : ℕ)
        → j < length p.pollfd_list - 1
        → get_elem? swapped.pollfd_list j ≡ get_elem? (set p.pollfd_list i l) j
    unfolding swapped
    read_swapped j lt =
        get_elem?-take (length (set (set p.pollfd_list i l) (length p.pollfd_list - 1) e) - 1) _ j
          (omega (arith, size_after))
        ∙ get_elem?-set_ne (set p.pollfd_list i l) e (omega arith)

    swap_place :
        (d j : ℕ) (f : PollFd)
        → j ≢ i
        → j ≢ length p.pollfd_list - 1
        → IsPlaced p d j f
        → IsPlaced swapped d j f
    unfolding swapped
    swap_place d j f ne nl was =
        let (other, other_fd) = differs d j f was ne in
        let not_l : d ≢ d_l = λ (q : d ≡ d_l). nl (cc (was.indexed, at_l.indexed)) in
        record {
          stored = update_at-ne p.channel_store (p.channels c).fd none f.fd other_fd ∙ was.stored;
          indexed = ground (arith, was.indexed);
          named = ground (arith, was.named);
          entry =
              read_swapped j (omega (arith, get_elem?-lt p.pollfd_list j was.entry))
              ∙ get_elem?-set_ne p.pollfd_list l (omega arith)
              ∙ was.entry;
        }

    moved_place : IsPlaced swapped d_l i l
    unfolding swapped
    moved_place =
        let lt = get_elem?-lt p.pollfd_list i at.entry in
        let (other, other_fd) = differs d_l (length p.pollfd_list - 1) l at_l (omega arith) in
        record {
          stored = update_at-ne p.channel_store (p.channels c).fd none l.fd other_fd ∙ at_l.stored;
          indexed = ground arith;
          named = ground (arith, at_l.named);
          entry = read_swapped i (omega arith) ∙ get_elem?-set_self p.pollfd_list i l lt;
        }

    swap-IsPlaced :
        (fd d : ℕ)
        → erased p c fd ≡ some d
        → (j : ℕ) × (f : PollFd) × (f.fd ≡ fd) × IsPlaced swapped d j f
    swap-IsPlaced fd d s =
        let (j, f, named, was, ne) = kept_place fd d s in
        elim (ℕ_discrete j (length p.pollfd_list - 1)) [
          | yes same ↦
              let same_l : l ≡ f = cc (at_l.entry, was.entry) in
              let same_d : d_l ≡ d = cc (at_l.stored, was.stored) in
              (
                i,
                l,
                ap (λ x. x.fd) same_l ∙ named,
                subst (λ x. IsPlaced swapped x i l) same_d moved_place,
              )
          | no nl ↦ (j, f, named, swap_place d j f ne nl was)
        ]

    pub in_front :
        (j : ℕ) (f : PollFd)
        → get_elem? swapped.pollfd_list j ≡ some f
        → j < length p.pollfd_list - 1
    unfolding swapped
    in_front j f s = omega (
      arith,
      size_after,
      take-lt (length (set (set p.pollfd_list i l) (length p.pollfd_list - 1) e) - 1)
          (set (set p.pollfd_list i l) (length p.pollfd_list - 1) e) j s,
    )

    swap_held :
        (j : ℕ) (f : PollFd)
        → get_elem? swapped.pollfd_list j ≡ some f
        → (d : ℕ) × IsPlaced swapped d j f
    swap_held j f s =
        let lt = in_front j f s in
        elim (get_elem?-set p.pollfd_list i l j (sym (read_swapped j lt) ∙ s)) [
          | inl (same, new) ↦ (
            d_l,
            subst (λ x. IsPlaced swapped d_l x f) same
                (subst (IsPlaced swapped d_l i) new moved_place),
          )
          | inr (ne, old) ↦
              let (d, was) = v.held j f old in (d, swap_place d j f (omega arith) (omega arith) was)
        ]

    pub swapped-IsValid : IsValid swapped
    unfolding swapped
    swapped-IsValid = record { placed = swap-IsPlaced; held = swap_held }
