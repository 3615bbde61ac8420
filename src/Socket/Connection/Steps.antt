-- ===== src/Socket/Connection/Steps.antt =====
-- Programs that construct, copy, assign and destroy connections.
use tools_cxx.Prelude.{
  ℕ, ◌<◌, ◌≡◌, ◌≢◌, ◌⊎◌, inl, inr, sym, ap, ◌∙◌, arith, Bool-cases, ltb, ltb→lt, not_ltb→le, none,
  some, Option-cases, equal_or_not, subst,
}
use tools_cxx.Prelude.Int.{ℤ}
use tools_cxx.Socket.Endian.{ByteOrder}
use tools_cxx.Socket.Address.{Memory}
use tools_cxx.Socket.Calls.{Os, Outcome, done}
use tools_cxx.Socket.Connection.{
  ConnSocket, Store, put_object, construct, construct_of, share, copy, destroy, assign, with_object,
  with_guard,
}
use tools_cxx.Socket.Connection.Counts.{holders, holders-lt, IsValid, IsValid-lt}
use tools_cxx.Socket.Connection.Shares.{
  construct-IsValid, construct_of-IsValid, copy-IsValid, with_object-some,
}
use tools_cxx.Socket.Connection.Ends.{Closes, destroy-IsReleased}
use tools_cxx.Socket.Connection.Assign.{
  assign-IsValid, assign_self-undefined, assign_null-undefined, assign_dead-undefined,
}

-- What a program does with connections.
pub data Step (os : Os) (n : ℕ) (s next : Store) : Type 0 where
  constructs :
      (order : ByteOrder) (m : Memory) (at : ℕ)
      → at < n
      → s.objects at ≡ none
      → construct order m s at ≡ done next
      → Step os n s next
  constructs_of :
      (at fresh : ℕ) (sockfd : ℤ) (addr : Memory)
      → at < n
      → s.objects at ≡ none
      → s.guards fresh ≡ none
      → construct_of s at fresh sockfd addr ≡ done next
      → Step os n s next
  copies :
      (at from : ℕ) → at < n → s.objects at ≡ none → copy s at from ≡ done next → Step os n s next
  assigns : (at from : ℕ) → assign os s at from ≡ done next → Step os n s next
  destroys : (at : ℕ) → destroy os s at ≡ done next → Step os n s next

pub data Reaches (os : Os) (n : ℕ) : Store → Store → Type 0 where
  stays : (s : Store) → Reaches os n s s
  goes : (s mid next : Store) → Step os n s mid → Reaches os n mid next → Reaches os n s next

-- A run that is known to end in a valid store.
same_end :
    (n : ℕ) (a b : Store) (r : Outcome Store) → r ≡ done a → r ≡ done b → IsValid a n → IsValid b n
same_end n a b r ra rb v = subst (λ t. IsValid t n) (cc (ra, rb)) v

module _ (os : Os) (closes : Closes os) (n : ℕ) where
  copies-IsValid :
      (s next : Store) (at from : ℕ)
      → IsValid s n
      → at < n
      → s.objects at ≡ none
      → copy s at from ≡ done next
      → IsValid next n
  unfolding copy share
  copies-IsValid s next at from v h free runs = elim (Option-cases (s.objects from)) [
    | inl gone ↦ absurd (cc (rw (with_object, gone) at runs))
    | inr (o, there) ↦
        let shared = sym (with_object-some s from o _ there) ∙ runs in
        elim (Option-cases o.guard) [
          | inl bare ↦ absurd (cc (rw (with_guard, bare) at shared))
          | inr (g, own) ↦
              let (end, ends, valid) = copy-IsValid s n at from o g v h free there own in
              same_end n end next (copy s at from) ends runs valid
        ]
  ]

  -- An assignment that returns is none of an only connection to itself.
  several :
      (s next : Store) (at from : ℕ) (o : ConnSocket) (g : ℕ)
      → IsValid s n
      → s.objects from ≡ some o
      → o.guard ≡ some g
      → assign os s at from ≡ done next
      → (at ≢ from) ⊎ (1 < holders s.objects g n)
  several s next at from o g v source own runs = elim (equal_or_not at from) [
    | inr ne ↦ inl ne
    | inl e ↦ elim (Bool-cases (ltb 1 (holders s.objects g n))) [
      | inl many ↦ inr (ltb→lt 1 (holders s.objects g n) many)
      | inr few ↦
          let there = ap s.objects e ∙ source in
          let some_hold = holders-lt s.objects at o g n (IsValid-lt v at o there) there own in
          let alone : holders s.objects g n ≡ 1 =
            omega (arith, some_hold, not_ltb→le 1 (holders s.objects g n) few) in
          let self = assign_self-undefined os closes s n at o g v there own alone in
          absurd (cc (runs, self, e))
    ]
  ]

  assigns_held :
      (s next : Store) (at from : ℕ) (old o : ConnSocket) (g : ℕ)
      → IsValid s n
      → s.objects at ≡ some old
      → s.objects from ≡ some o
      → o.guard ≡ some g
      → assign os s at from ≡ done next
      → IsValid next n
  assigns_held s next at from old o g v there source own runs =
      let fine = several s next at from o g v source own runs in
      let (end, ends, is) = assign-IsValid os closes s n at from old o g v there source own fine in
      same_end n end next (assign os s at from) ends runs is

  assigns-IsValid :
      (s next : Store) (at from : ℕ)
      → IsValid s n
      → assign os s at from ≡ done next
      → IsValid next n
  unfolding assign
  assigns-IsValid s next at from v runs = elim (Option-cases (s.objects at)) [
    | inl gone ↦ absurd (cc (rw (assign, with_object, gone) at runs))
    | inr (old, there) ↦ elim (Option-cases (s.objects from)) [
      | inl dead ↦ absurd (cc (runs, assign_dead-undefined os closes s n at from old v there dead))
      | inr (o, source) ↦ elim (Option-cases o.guard) [
        | inl bare ↦
            absurd
              (cc (runs, assign_null-undefined os closes s n at from old o v there source bare))
        | inr (g, own) ↦ assigns_held s next at from old o g v there source own runs
      ]
    ]
  ]

  destroys-IsValid :
      (s next : Store) (at : ℕ) → IsValid s n → destroy os s at ≡ done next → IsValid next n
  unfolding destroy
  destroys-IsValid s next at v runs = elim (Option-cases (s.objects at)) [
    | inl gone ↦ absurd (cc (rw (with_object, gone) at runs))
    | inr (o, there) ↦
        let (end, ends, is) = destroy-IsReleased os closes s n at o v there in
        same_end n (put_object end at none) next (destroy os s at) ends runs is.valid
  ]

  Step-IsValid : (s next : Store) → IsValid s n → Step os n s next → IsValid next n
  Step-IsValid s next v (constructs order m at h free runs) =
      let (end, ends, is) = construct-IsValid order m s n at v h free in
      same_end n end next (construct order m s at) ends runs is
  Step-IsValid s next v (constructs_of at fresh sockfd addr h free new runs) =
      let (end, ends, is) = construct_of-IsValid s n at fresh sockfd addr v h free new in
      same_end n end next (construct_of s at fresh sockfd addr) ends runs is
  Step-IsValid s next v (copies at from h free runs) = copies-IsValid s next at from v h free runs
  Step-IsValid s next v (assigns at from runs) = assigns-IsValid s next at from v runs
  Step-IsValid s next v (destroys at runs) = destroys-IsValid s next at v runs

  -- Whatever a program does with connections at addresses below a bound, each guard counts the live
  -- connections that hold it, none is freed while one holds it, and a guard that none holds is freed,
  -- when new connections stand at free addresses, `new` returns free ones and close(2) does not fail.
  pub Reaches-IsValid : (s next : Store) → IsValid s n → Reaches os n s next → IsValid next n
  Reaches-IsValid s next v (stays _) = v
  Reaches-IsValid s next v (goes _ mid _ step rest) =
      Reaches-IsValid mid next (Step-IsValid s mid v step) rest
