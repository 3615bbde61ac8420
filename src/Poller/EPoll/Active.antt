-- ===== src/Poller/EPoll/Active.antt =====
-- The active channels.
use tools_cxx.Prelude.{
  ℕ, true, ◌≡◌, ◌≤◌, ◌<◌, refl, sym, ap, ◌∙◌, Bool-cases, inl, inr, some, List, [], ◌∷◌, ◌++◌, map,
  arith, leb, length, length-append, length-drop, length-replicate, take-length-append, replicate,
  drop, if◌then◌else◌, if_cases, ◌*◌, ◌==◌,
}
use tools_cxx.Poller.EPoll.{
  Epoll, EpollEvent, done, EPollPoller, filled, grow, fill_active_channels, poll,
}
use tools_cxx.Poller.EPoll.Invariant.{IsWatched, IsValid}
use tools_cxx.Poller.EPoll.Filled.{AreHanded, IsFilled, fill_loop-IsFilled}

module _ (os : Epoll) where
  -- The invariant reads the channels, the table and the kernel only.
  IsValid-same :
      (p q : EPollPoller os)
      → p.channels ≡ q.channels
      → p.channel_store ≡ q.channel_store
      → p.kernel ≡ q.kernel
      → IsValid os p
      → IsValid os q
  IsValid-same p q hc hs hk v =
      let moved : (fd c : ℕ) (e : EpollEvent) → IsWatched os p fd c e → IsWatched os q fd c e =
        λ fd c e w. record {
          stored = sym (ap (λ s. s fd) hs) ∙ w.stored;
          named = sym (ap (λ f. (f c).fd) hc) ∙ w.named;
          added = sym (ap (λ f. (f c).index) hc) ∙ w.added;
          waits = sym (ap (λ k. os.interest k fd) hk) ∙ w.waits;
          handed = w.handed;
        } in
      record {
        table = λ fd c s. let (e, w) = v.table fd c (ap (λ g. g fd) hs ∙ s) in (e, moved fd c e w);
        listed = λ fd e s. moved fd e.ptr e (v.listed fd e (ap (λ k. os.interest k fd) hk ∙ s));
      }

  -- What a call of `poll` leaves when it is handed events.
  pub record IsPolled (p : EPollPoller os) (es : List EpollEvent) (q : EPollPoller os)
      : Type 0 where
    pub valid : IsValid os q
    pub active : q.active_channels ≡ map (λ e. e.ptr) es
    pub kernel : q.kernel ≡ p.kernel
    pub store : q.channel_store ≡ p.channel_store
    pub masks : (d : ℕ) → (q.channels d).events ≡ (p.channels d).events
    pub room : length q.event_list ≡ (
        if length es == length p.event_list then 2 * length p.event_list else length p.event_list)

  grow-room :
      (q : EPollPoller os) (n : ℕ)
      → length (grow os q n).event_list
        ≡ (if n == length q.event_list then 2 * length q.event_list else length q.event_list)
  unfolding grow
  grow-room q n = elim (Bool-cases (n == length q.event_list)) [
    | inl e ↦ rw e (
        omega (
          arith,
          length-append {0} q.event_list
              (replicate (length q.event_list) (record { events = 0; ptr = 0 })),
          length-replicate {0} {A = EpollEvent} (length q.event_list)
              (record { events = 0; ptr = 0 }),
        ))
    | inr e ↦ rw e refl
  ]

  grow-same :
      (q : EPollPoller os) (n : ℕ) (P : EPollPoller os → Type 0)
      → P q
      → P (record q {
        event_list =
            q.event_list ++ replicate (length q.event_list) (record { events = 0; ptr = 0 });
      })
      → P (grow os q n)
  unfolding grow
  grow-same q n P h k = if_cases P (n == length q.event_list) (λ e. k) (λ e. h)

  room_filled :
      (p : EPollPoller os) (es : List EpollEvent)
      → length es ≤ length p.event_list
      → length (filled os p es).event_list ≡ length p.event_list
  room_filled p es h = omega (
    arith,
    length-append {0} es (drop (length es) p.event_list),
    length-drop {0} (length es) p.event_list,
  )

  fill_active_channels-IsFilled :
      (p : EPollPoller os) (es : List EpollEvent)
      → IsValid os p
      → AreHanded os p es
      → length es ≤ length p.event_list
      → (q : EPollPoller os) × (fill_active_channels os (filled os p es) (length es) ≡ done q)
        × IsFilled os (filled os p es) es q
  unfolding fill_active_channels
  fill_active_channels-IsFilled p es v h small =
      let valid = IsValid-same p (filled os p es) refl refl refl v in
      let (q, same, r) = fill_loop-IsFilled os es (filled os p es) valid h in
      let fits : leb (length es) (length (filled os p es).event_list) ≡ true =
        ground (arith, room_filled p es small) in
      (q, rw (fits, take-length-append es (drop (length es) p.event_list)) same, r)

  -- When epoll_wait(2) returns events of watched channels, no more than the array holds, no assertion
  -- fails. The active channels are those of the events in their order, the table and the kernel's list
  -- are as before and agree, no mask changes, and the array is twice as long exactly when it was full.
  pub poll-IsPolled :
      (p : EPollPoller os) (es : List EpollEvent)
      → IsValid os p
      → AreHanded os p es
      → length es ≤ length p.event_list
      → 0 < length p.event_list
      → (q : EPollPoller os) × (poll os p (some es) ≡ done q) × IsPolled p es q
  unfolding poll
  poll-IsPolled p [] v h small room = (
    record p { active_channels = [] },
    refl,
    record {
      valid = IsValid-same p (record p { active_channels = [] }) refl refl refl v;
      active = refl;
      kernel = refl;
      store = refl;
      masks = λ d. refl;
      room = ground arith;
    },
  )
  poll-IsPolled p (e ∷ es) v h small room =
      let (q, same, r) = fill_active_channels-IsFilled p (e ∷ es) v h small in
      let n = length (e ∷ es) in
      let at : length q.event_list ≡ length p.event_list =
        ap length r.events ∙ room_filled p (e ∷ es) small in
      (
        grow os q n,
        rw same refl,
        record {
          valid = grow-same q n (IsValid os) r.valid (IsValid-same q _ refl refl refl r.valid);
          active =
              grow-same q n (λ g. g.active_channels ≡ map (λ e. e.ptr) (e ∷ es)) r.active r.active;
          kernel = grow-same q n (λ g. g.kernel ≡ p.kernel) r.kernel r.kernel;
          store = grow-same q n (λ g. g.channel_store ≡ p.channel_store) r.store r.store;
          masks =
              grow-same q n (λ g. (d : ℕ) → (g.channels d).events ≡ (p.channels d).events) r.masks
                r.masks;
          room = grow-room q n ∙ rw at refl;
        },
      )
