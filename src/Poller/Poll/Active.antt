-- ===== src/Poller/Poll/Active.antt =====
-- `poll` and `fill_active_channels`: the active channels are those of the entries with events.
use mathlib.Core.List.{map-append}
use tools_cxx.Prelude.{
  ℕ, zero, suc, ◌≡◌, refl, sym, ap, ◌∙◌, inl, inr, true, false, Option, some, List, [], ◌∷◌, ◌++◌,
  append-nil, append_assoc, map, arith, length, ltb, if◌then◌else◌, get_elem?, All, Bool-cases,
}
use tools_cxx.Poller.Poll.Invariant.{IsValid}
use tools_cxx.Prelude.{update_at}
use tools_cxx.Poller.Poll.{PollFd, PollPoller, fill_loop, fill_in, poll, returned}

-- The entries with events.
unfoldable pub ready : List PollFd → List PollFd
ready [] = []
ready (e ∷ es) = if ltb 0 e.revents then e ∷ ready es else ready es

-- The entry's descriptor has a channel, and it is the channel's descriptor.
abbrev IsLinked : PollPoller → PollFd → Type 0
IsLinked p e = (c : ℕ) × (p.channel_store e.fd ≡ some c) × ((p.channels c).fd ≡ e.fd)

-- What the loop does to one channel.
activated : PollPoller → ℕ → PollFd → PollPoller
activated p c e = record p {
  channels = update_at p.channels c (record (p.channels c) { revents = e.revents });
  active_channels = p.active_channels ++ c ∷ [];
}

activated-IsLinked :
    (p : PollPoller) (c : ℕ) (e f : PollFd) → IsLinked p f → IsLinked (activated p c e) f
unfolding activated
activated-IsLinked p c e f (d, stored, named) = (d, stored, ground (arith, named))

activated-active :
    (p : PollPoller) (c : ℕ) (e : PollFd) (rest : List (Option ℕ))
    → map some (activated p c e).active_channels ++ rest
      ≡ map some p.active_channels ++ some c ∷ rest
unfolding activated
activated-active p c e rest = rw (map-append, append_assoc)

All-IsLinked :
    (p : PollPoller) (c : ℕ) (e : PollFd) (es : List PollFd)
    → All (IsLinked p) es
    → All (IsLinked (activated p c e)) es
All-IsLinked p c e [] h = tt
All-IsLinked p c e (f ∷ fs) h = (activated-IsLinked p c e f h.0, All-IsLinked p c e fs h.1)

abbrev pub channels_of : (ℕ → Option ℕ) → List PollFd → List (Option ℕ)
channels_of store es = map (λ e. store e.fd) es

ready_with :
    (e : PollFd) (es : List PollFd) → ltb 0 e.revents ≡ true → ready (e ∷ es) ≡ e ∷ ready es
unfolding ready
ready_with e es has = rw has

ready_without :
    (e : PollFd) (es : List PollFd) → ltb 0 e.revents ≡ false → ready (e ∷ es) ≡ ready es
unfolding ready
ready_without e es idle = rw idle

ready_none : (es : List PollFd) → 0 ≡ length (ready es) → ready es ≡ []
ready_none es h = length_zero (ready es) h
  where
    length_zero : (xs : List PollFd) → 0 ≡ length xs → xs ≡ []
    length_zero [] h = refl
    length_zero (x ∷ xs) h = absurd (omega arith)

-- A round with events: the channel found becomes active.
fill_round :
    (p : PollPoller) (e : PollFd) (es : List PollFd) (n c : ℕ)
    → ltb 0 e.revents ≡ true
    → p.channel_store e.fd ≡ some c
    → (p.channels c).fd ≡ e.fd
    → fill_loop (e ∷ es) (suc n) p ≡ fill_loop es n (activated p c e)
unfolding fill_loop activated
fill_round p e es n c has stored named = ground arith

fill_skip :
    (p : PollPoller) (e : PollFd) (es : List PollFd) (n : ℕ)
    → ltb 0 e.revents ≡ false
    → fill_loop (e ∷ es) (suc n) p ≡ fill_loop es (suc n) p
unfolding fill_loop
fill_skip p e es n idle = rw (idle, fill_loop)

fill_loop-ready :
    (es : List PollFd) (n : ℕ) (p : PollPoller)
    → All (IsLinked p) es
    → n ≡ length (ready es)
    → (q : PollPoller) × (fill_loop es n p ≡ some q)
      × (map some q.active_channels
          ≡ map some p.active_channels ++ channels_of p.channel_store (ready es))
unfolding activated
fill_loop-ready [] n p linked count =
    (p, unfold fill_loop in refl, unfold ready in sym (append-nil _))
fill_loop-ready (e ∷ es) zero p linked count =
    (p, unfold fill_loop in refl, rw (ready_none (e ∷ es) count) (sym (append-nil _)))
fill_loop-ready (e ∷ es) (suc n) p linked count = elim (Bool-cases (ltb 0 e.revents)) [
  | inl has ↦
      let (c, stored, named) = linked.0 in
      let more : n ≡ length (ready es) = omega (arith, ap length (ready_with e es has)) in
      let (q, run, act) =
        fill_loop-ready es n (activated p c e) (All-IsLinked p c e es linked.1) more in
      (
        q,
        fill_round p e es n c has stored named ∙ run,
        act
            ∙ rw (ready_with e es has, stored)
                (activated-active p c e (channels_of p.channel_store (ready es))),
      )
  | inr idle ↦
      let more : suc n ≡ length (ready es) = omega (arith, ap length (ready_without e es idle)) in
      let (q, run, act) = fill_loop-ready es (suc n) p linked.1 more in
      (q, fill_skip p e es n idle ∙ run, rw (ready_without e es idle) act)
]

-- The entries that poll(2) has filled in have the descriptors that they had.
IsLinked-filled :
    (p : PollPoller) (es : List PollFd) (rs : List ℕ)
    → All (IsLinked p) es
    → All (IsLinked p) (fill_in es rs)
IsLinked-filled p [] rs h = tt
IsLinked-filled p (e ∷ es) [] h = h
IsLinked-filled p (e ∷ es) (r ∷ rs) h = (h.0, IsLinked-filled p es rs h.1)

All-of_places :
    (p : PollPoller) (es : List PollFd)
    → ((i : ℕ) (e : PollFd) → get_elem? es i ≡ some e → IsLinked p e)
    → All (IsLinked p) es
All-of_places p [] h = tt
All-of_places p (e ∷ es) h = (h 0 e refl, All-of_places p es (λ i f g. h (suc i) f g))

valid-IsLinked : (p : PollPoller) → IsValid p → All (IsLinked p) p.pollfd_list
valid-IsLinked p v =
    All-of_places p p.pollfd_list λ i e s. (let (c, at) = v.held i e s in (c, at.stored, at.named))

-- When poll(2) returns the number of entries with events, as it does, no assertion fails and the active
-- channels are exactly the channels registered for those entries' descriptors, in the array's order.
pub poll-active :
    (p : PollPoller) (n : ℕ) (rs : List ℕ)
    → IsValid p
    → n ≡ length (ready (fill_in p.pollfd_list rs))
    → (q : PollPoller) × (poll p (returned n rs) ≡ some q)
      × (map some q.active_channels
          ≡ channels_of p.channel_store (ready (fill_in p.pollfd_list rs)))
unfolding poll
poll-active p n rs v count =
    let filled = fill_in p.pollfd_list rs in
    fill_loop-ready filled n (record p { pollfd_list = filled; active_channels = [] })
      (IsLinked-filled p p.pollfd_list rs (valid-IsLinked p v)) count
