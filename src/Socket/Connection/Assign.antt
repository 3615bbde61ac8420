-- ===== src/Socket/Connection/Assign.antt =====
-- Assignment of connections.
use tools_cxx.Prelude.{
  ℕ, ◌+◌, ◌<◌, ◌≡◌, ◌≢◌, ◌⊎◌, inl, inr, refl, sym, ap, ◌∙◌, arith, Option, none, some, update_at,
  update_at_hit, update_at-ne, update_at_twice, subst, equal_or_not,
}
use tools_cxx.Socket.Calls.{Os, Outcome, done, undefined, and_then}
use tools_cxx.Socket.Connection.{
  SocketGuard, ConnSocket, Store, release, share, assign, with_guard, with_object,
}
use tools_cxx.Socket.Connection.Counts.{holders, IsValid, IsValid-lt}
use tools_cxx.Socket.Connection.Shares.{
  with_guard-some, with_object-some, with_guard-none, guard_eq, put_held-IsValid,
}
use tools_cxx.Socket.Connection.Ends.{
  Closes, Ending, null, last, shared, IsReleased, release-IsReleased,
}

module _ (os : Os) (closes : Closes os) where
  -- What an assignment does after its object has been released.
  abbrev assigned : Store → ℕ → ℕ → Outcome Store
  assigned next at from = with_object next from (λ o. share next at o)

  assign_runs :
      (s next : Store) (at from : ℕ) (old o : ConnSocket)
      → s.objects at ≡ some old
      → s.objects from ≡ some o
      → release os s old.guard ≡ done next
      → next.objects ≡ s.objects
      → assign os s at from ≡ share next at o
  unfolding assign
  assign_runs s next at from old o there source runs same =
      with_object-some s at old _ there
      ∙ ap (λ r. and_then r (λ t. assigned t at from)) runs
      ∙ with_object-some next from o _ (ap (λ f. f from) same ∙ source)

  module _ (s : Store) (n at from : ℕ) (old o : ConnSocket) (g : ℕ) (v : IsValid s n)
      (there : s.objects at ≡ some old) (source : s.objects from ≡ some o)
      (own : o.guard ≡ some g) where
    other_held :
        (next : Store)
        → IsReleased s n at old next
        → at ≢ from
        → (q : SocketGuard) × (next.guards g ≡ some q)
    other_held next is ne =
        is.valid.held from g o
          (update_at-ne next.objects at none from (λ e. ne (sym e))
            ∙ ap (λ f. f from) is.others
            ∙ source)
          own

    -- The object's own guard lives on when others hold it.
    own_held :
        (next : Store)
        → Ending s n old next
        → at ≡ from
        → 1 < holders s.objects g n
        → (q : SocketGuard) × (next.guards g ≡ some q)
    own_held next ending e many =
        let one : ◌≡◌ {A = Option ConnSocket} (some old) (some o) =
          sym there ∙ ap s.objects e ∙ source in
        elim ending [
          | null bare calls ↦ absurd (cc (one, bare, own))
          | last h q held has alone calls gone ↦
              let same : g ≡ h = guard_eq old o h g one held own in
              absurd (omega (arith, many, alone, ap (λ k. holders s.objects k n) same))
          | shared h q held has several calls kept ↦
              let same : g ≡ h = guard_eq old o h g one held own in (_, ap next.guards same ∙ kept)
        ]

    -- Where the counts hold and close(2) does not fail, assigning a live connection that has a socket to a
    -- live one returns and keeps the counts, if the two are different or others hold the socket too.
    pub assign-IsValid :
        (at ≢ from) ⊎ (1 < holders s.objects g n)
        → (next : Store) × (assign os s at from ≡ done next) × IsValid next n
    unfolding share
    assign-IsValid fine =
        let (next, runs, is) = release-IsReleased os closes s n at old v there in
        let (q, has) : (q : SocketGuard) × (next.guards g ≡ some q) = elim fine [
          | inl ne ↦ other_held next is ne
          | inr many ↦ elim (equal_or_not at from) [
            | inl e ↦ own_held next is.ending e many
            | inr ne ↦ other_held next is ne
          ]
        ] in
        let more : SocketGuard = record q { count = q.count + 1 } in
        (
          _,
          assign_runs s next at from old o there source runs is.others
              ∙ with_guard-some next o.guard g q _ own has,
          subst
              (λ f.
                IsValid
                  (record {
                    objects = f;
                    guards = update_at next.guards g (some more);
                    calls = next.calls;
                  })
                  n)
              (update_at_twice next.objects at none (some o))
              (put_held-IsValid is.valid at o g more (IsValid-lt v at old there)
                (update_at_hit next.objects at none at refl) own
                (omega (arith, is.valid.counted g q has))),
        )

  -- Where the counts hold and close(2) does not fail, assigning a live connection to itself, when it is
  -- the only one that holds its socket, has no defined behaviour: it counts up in a freed guard.
  pub assign_self-undefined :
      (s : Store) (n at : ℕ) (o : ConnSocket) (g : ℕ)
      → IsValid s n
      → s.objects at ≡ some o
      → o.guard ≡ some g
      → holders s.objects g n ≡ 1
      → assign os s at at ≡ undefined
  unfolding share
  assign_self-undefined s n at o g v there own alone =
      let (next, runs, is) = release-IsReleased os closes s n at o v there in
      assign_runs s next at at o o there there runs is.others
      ∙ with_guard-none next o.guard g _ own (elim is.ending [
        | null bare calls ↦ absurd (cc (bare, own))
        | last h q held has one calls gone ↦
            ap next.guards (sym (guard_eq o o g h refl own held)) ∙ gone
        | shared h q held has several calls kept ↦ absurd (
            omega (
              arith,
              alone,
              several,
              ap (λ k. holders s.objects k n) (guard_eq o o g h refl own held),
            ))
      ])

  -- Assignment from a connection that has no socket reads through the null pointer.
  pub assign_null-undefined :
      (s : Store) (n at from : ℕ) (old o : ConnSocket)
      → IsValid s n
      → s.objects at ≡ some old
      → s.objects from ≡ some o
      → o.guard ≡ none
      → assign os s at from ≡ undefined
  unfolding share
  assign_null-undefined s n at from old o v there source bare =
      let (next, runs, is) = release-IsReleased os closes s n at old v there in
      assign_runs s next at from old o there source runs is.others ∙ rw (with_guard, bare) refl

  -- Nor can an assignment read an object that is not alive.
  pub assign_dead-undefined :
      (s : Store) (n at from : ℕ) (old : ConnSocket)
      → IsValid s n
      → s.objects at ≡ some old
      → s.objects from ≡ none
      → assign os s at from ≡ undefined
  unfolding assign
  assign_dead-undefined s n at from old v there dead =
      let (next, runs, is) = release-IsReleased os closes s n at old v there in
      with_object-some s at old _ there
      ∙ ap (λ r. and_then r (λ t. assigned t at from)) runs
      ∙ rw (with_object, ap (λ f. f from) is.others ∙ dead) refl
