-- ===== src/Socket/Connection/Ends.antt =====
-- The end of a connection, and assignment: the socket is closed with its last connection.
use tools_cxx.Prelude.{
  ℕ, ◌-◌, ◌<◌, ◌≡◌, inl, inr, refl, sym, ap, ◌∙◌, arith, false, none, some, ◌∷◌, update_at,
  update_at_hit, Option-cases, equal_or_not, ◌==◌,
}
use tools_cxx.Prelude.Int.{ℤ}
use tools_cxx.Socket.Calls.{Os, Calls, sys_close, done, is_negative, close, and_then}
use tools_cxx.Socket.Connection.{
  SocketGuard, ConnSocket, Store, put_object, put_guard, uncounted, release, destroy,
}
use tools_cxx.Socket.Connection.Counts.{holds, holders, holds_null, IsValid, IsValid-lt}
use tools_cxx.Socket.Connection.Shares.{
  counted, with_guard-some, with_object-some, drop-IsValid, null-IsValid,
}

not_zero : (n : ℕ) → 0 < n → (n == 0) ≡ false
not_zero n h = ground arith

-- close(2) of a socket that is open returns no error.
abbrev pub Closes : Os → Type 0
Closes os = (fd : ℤ) (calls : Calls) → is_negative (os.answer (sys_close fd ∷ calls)).ret ≡ false

-- How an object ends: it had no guard, or was the last to hold its guard, whose socket is then closed,
-- or others go on to hold it.
pub data Ending (s : Store) (n : ℕ) (o : ConnSocket) (next : Store) : Type 0 where
  null : o.guard ≡ none → next.calls ≡ s.calls → Ending s n o next
  last :
      (g : ℕ) (q : SocketGuard)
      → o.guard ≡ some g
      → s.guards g ≡ some q
      → holders s.objects g n ≡ 1
      → next.calls ≡ sys_close q.sockfd ∷ s.calls
      → next.guards g ≡ none
      → Ending s n o next
  shared :
      (g : ℕ) (q : SocketGuard)
      → o.guard ≡ some g
      → s.guards g ≡ some q
      → 1 < holders s.objects g n
      → next.calls ≡ s.calls
      → next.guards g ≡ some (record q { count = holders s.objects g n - 1 })
      → Ending s n o next

pub record IsReleased (s : Store) (n at : ℕ) (o : ConnSocket) (next : Store) : Type 0 where
  pub others : next.objects ≡ s.objects
  pub valid : IsValid (put_object next at none) n
  pub ending : Ending s n o next

module _ (os : Os) (closes : Closes os) where
  release_last :
      (s : Store) (g : ℕ) (q : SocketGuard)
      → s.guards g ≡ some q
      → q.count ≡ 1
      → release os s (some g)
        ≡ done
            (record s { guards = update_at s.guards g none; calls = sys_close q.sockfd ∷ s.calls })
  unfolding release close
  release_last s g q has one =
      with_guard-some s (some g) g q (uncounted os s) refl has
      ∙ rw (one, closes q.sockfd s.calls) refl

  release_shared :
      (s : Store) (g : ℕ) (q : SocketGuard)
      → s.guards g ≡ some q
      → 1 < q.count
      → release os s (some g) ≡ done (put_guard s g (some (record q { count = q.count - 1 })))
  unfolding release
  release_shared s g q has many =
      with_guard-some s (some g) g q (uncounted os s) refl has
      ∙ rw (not_zero (q.count - 1) (omega (arith, many))) refl

  pub release-IsReleased :
      (s : Store) (n at : ℕ) (o : ConnSocket)
      → IsValid s n
      → s.objects at ≡ some o
      → (next : Store) × (release os s o.guard ≡ done next) × IsReleased s n at o next
  unfolding release
  release-IsReleased s n at o v there =
      let h = IsValid-lt v at o there in
      elim (Option-cases o.guard) [
        | inl bare ↦ (
          s,
          rw bare refl,
          record {
            others = refl;
            valid =
                null-IsValid v at none h (λ k. ap (λ c. holds c k) there ∙ holds_null o k bare)
                  (λ p e. absurd (cc e));
            ending = null bare refl;
          },
        )
        | inr (g, own) ↦
            let (q, has) = v.held at g o there own in
            elim (equal_or_not q.count 1) [
              | inl one ↦ (
                record s {
                  guards = update_at s.guards g none;
                  calls = sys_close q.sockfd ∷ s.calls;
                },
                rw own (release_last s g q has one),
                record {
                  others = refl;
                  valid =
                      drop-IsValid v at o g none (sys_close q.sockfd ∷ s.calls) h there own
                        (λ p e. absurd (cc e)) (λ _. omega (arith, one, v.counted g q has));
                  ending =
                      last g q own has (sym (v.counted g q has) ∙ one) refl
                        (update_at_hit s.guards g none g refl);
                },
              )
              | inr many ↦ (
                put_guard s g (some (record q { count = q.count - 1 })),
                rw own (release_shared s g q has (omega (arith, v.positive g q has, many))),
                record {
                  others = refl;
                  valid =
                      drop-IsValid v at o g (some (record q { count = q.count - 1 })) s.calls h
                        there own
                        (λ p e.
                          let less : q.count - 1 ≡ p.count = ap counted e in
                          (
                            omega (arith, less, v.positive g q has, many),
                            omega (arith, less, v.counted g q has, v.positive g q has),
                          ))
                        (λ e. absurd (cc e));
                  ending =
                      shared g q own has
                        (omega (arith, v.positive g q has, many, v.counted g q has)) refl
                        (update_at_hit s.guards g (some (record q { count = q.count - 1 })) g refl
                          ∙ ap (λ k. some (record q { count = k - 1 })) (v.counted g q has));
                },
              )
            ]
      ]

  -- Where the counts hold and close(2) does not fail, the end of a live object returns: it is gone and no
  -- other is changed; the counts stay true, and the socket is closed
  -- when it was the last to hold it, and only then.
  pub destroy-IsReleased :
      (s : Store) (n at : ℕ) (o : ConnSocket)
      → IsValid s n
      → s.objects at ≡ some o
      → (next : Store) × (destroy os s at ≡ done (put_object next at none))
        × IsReleased s n at o next
  unfolding destroy
  destroy-IsReleased s n at o v there =
      let (next, runs, is) = release-IsReleased s n at o v there in
      (
        next,
        with_object-some s at o _ there
            ∙ ap (λ r. and_then r (λ t. done (put_object t at none))) runs,
        is,
      )
