-- ===== src/Socket/Connection/Shares.antt =====
-- Connections that share a socket: construction, copies, assignment and destruction.
use tools_cxx.Prelude.{
  ℕ, ◌+◌, ◌<◌, ◌≤◌, ◌≡◌, inl, inr, refl, sym, ap, ◌∙◌, arith, false, Option, none, some, update_at,
  update_at_hit, update_at-ne, Option-cases,
}
use tools_cxx.Prelude.Int.{ℤ}
use tools_cxx.Socket.Endian.{ByteOrder}
use tools_cxx.Socket.Address.{Memory, of_port, af_inet}
use tools_cxx.Socket.Calls.{Calls, Outcome, done, undefined}
use tools_cxx.Socket.Connection.{
  SocketGuard, ConnSocket, Store, put_object, put_guard, construct, construct_of, share, copy,
  with_guard, with_object,
}
use tools_cxx.Socket.Connection.Counts.{
  holds, holders, holds_own, holds_null, holds-other, IsValid, IsValid-none, IsValid-put,
}

pub with_guard-some :
    (s : Store) (held : Option ℕ) (g : ℕ) (q : SocketGuard) (f : ℕ → SocketGuard → Outcome Store)
    → held ≡ some g
    → s.guards g ≡ some q
    → with_guard s held f ≡ f g q
with_guard-some s held g q f own has = rw own (rw (with_guard, has) refl)

pub with_guard-none :
    (s : Store) (held : Option ℕ) (g : ℕ) (f : ℕ → SocketGuard → Outcome Store)
    → held ≡ some g
    → s.guards g ≡ none
    → with_guard s held f ≡ undefined
with_guard-none s held g f own gone = rw own (rw (with_guard, gone) refl)

pub with_object-some :
    (s : Store) (at : ℕ) (o : ConnSocket) (f : ConnSocket → Outcome Store)
    → s.objects at ≡ some o
    → with_object s at f ≡ f o
with_object-some s at o f there = rw (with_object, there) refl

abbrev pub counted : Option SocketGuard → ℕ
counted none = 0
counted (some q) = q.count

pub guard_eq :
    (a b : ConnSocket) (g k : ℕ)
    → ◌≡◌ {A = Option ConnSocket} (some a) (some b)
    → a.guard ≡ some g
    → b.guard ≡ some k
    → k ≡ g
guard_eq a b g k e own held = cc (e, own, held)

module _ {s : Store} {n : ℕ} (v : IsValid s n) where
  -- A new object holds a guard that counts it.
  pub put_held-IsValid :
      (at : ℕ) (o : ConnSocket) (g : ℕ) (q : SocketGuard)
      → at < n
      → s.objects at ≡ none
      → o.guard ≡ some g
      → q.count ≡ holders s.objects g n + 1
      → IsValid (put_object (put_guard s g (some q)) at (some o)) n
  put_held-IsValid at o g q h free own counts =
      let nothing : (k : ℕ) → holds (s.objects at) k ≡ 0 = λ k. ap (λ c. holds c k) free in
      let is : update_at s.guards g (some q) g ≡ some q =
        update_at_hit s.guards g (some q) g refl in
      IsValid-put v at (some o) g (update_at s.guards g (some q)) s.calls h
        (λ k ne. update_at-ne s.guards g (some q) k ne)
        (λ k ne. nothing k ∙ sym (holds-other o g k own ne))
        (λ p k e held. guard_eq o p g k e own held)
        (λ p e.
          let same : q.count ≡ p.count = ap counted (sym is ∙ e) in
          let one = holds_own o g own in
          (omega (arith, same, counts), omega (arith, same, counts, one, nothing g)))
        (λ e. absurd (cc (is, e)))

  pub calls-IsValid : (calls : Calls) → IsValid (record s { calls = calls }) n
  calls-IsValid calls = record {
    below = v.below;
    held = v.held;
    counted = v.counted;
    positive = v.positive;
  }

  -- An object is gone, and its guard with it or counts one less.
  pub drop-IsValid :
      (at : ℕ) (o : ConnSocket) (g : ℕ) (x : Option SocketGuard) (calls : Calls)
      → at < n
      → s.objects at ≡ some o
      → o.guard ≡ some g
      → ((q : SocketGuard) → x ≡ some q → (0 < q.count) × (q.count + 1 ≡ holders s.objects g n))
      → (x ≡ none → holders s.objects g n ≤ 1)
      → IsValid
          (record {
            objects = update_at s.objects at none;
            guards = update_at s.guards g x;
            calls = calls;
          })
          n
  drop-IsValid at o g x calls h there own counts left =
      let one : holds (s.objects at) g ≡ 1 = ap (λ c. holds c g) there ∙ holds_own o g own in
      let is : update_at s.guards g x g ≡ x = update_at_hit s.guards g x g refl in
      IsValid-put v at none g (update_at s.guards g x) calls h
        (λ k ne. update_at-ne s.guards g x k ne)
        (λ k ne. ap (λ c. holds c k) there ∙ holds-other o g k own ne) (λ p k e held. absurd (cc e))
        (λ p e. ((counts p (sym is ∙ e)).0, omega (arith, one, (counts p (sym is ∙ e)).1)))
        (λ e. omega (arith, one, left (sym is ∙ e)))

  -- An object with the null pointer is gone or new.
  pub null-IsValid :
      (at : ℕ) (c : Option ConnSocket)
      → at < n
      → ((k : ℕ) → holds (s.objects at) k ≡ 0)
      → ((o : ConnSocket) → c ≡ some o → o.guard ≡ none)
      → IsValid (put_object s at c) n
  null-IsValid at c h before null =
      let now : (k : ℕ) → holds c k ≡ 0 = λ k. elim (Option-cases c) [
        | inl e ↦ rw e refl
        | inr (o, e) ↦ rw e (holds_null o k (null o e))
      ] in
      IsValid-put v at c 0 s.guards s.calls h (λ k ne. refl) (λ k ne. before k ∙ sym (now k))
        (λ o k e held. absurd (cc (null o e, held)))
        (λ q e. (v.positive 0 q e, omega (arith, before 0, now 0, v.counted 0 q e)))
        (λ e. omega (arith, now 0, IsValid-none v 0 e))

-- A connection without a socket can be made anywhere.
pub construct-IsValid :
    (order : ByteOrder) (m : Memory) (s : Store) (n at : ℕ)
    → IsValid s n
    → at < n
    → s.objects at ≡ none
    → (next : Store) × (construct order m s at ≡ done next) × IsValid next n
unfolding construct
construct-IsValid order m s n at v h free = (
  _,
  refl,
  null-IsValid v at (some (record { guard = none; remote_addr = of_port order m 0 af_inet false }))
      h (λ k. ap (λ c. holds c k) free) (λ o e. cc e),
)

-- A new connection holds a new guard, alone.
pub construct_of-IsValid :
    (s : Store) (n at fresh : ℕ) (sockfd : ℤ) (addr : Memory)
    → IsValid s n
    → at < n
    → s.objects at ≡ none
    → s.guards fresh ≡ none
    → (next : Store) × (construct_of s at fresh sockfd addr ≡ done next) × IsValid next n
unfolding construct_of
construct_of-IsValid s n at fresh sockfd addr v h free new = (
  _,
  refl,
  put_held-IsValid v at (record { guard = some fresh; remote_addr = addr }) fresh
      (record { sockfd = sockfd; count = 1 }) h free refl (omega (arith, IsValid-none v fresh new)),
)

-- A connection that takes over the fields of another, where none lived.
pub share-IsValid :
    (s : Store) (n at : ℕ) (o : ConnSocket) (g : ℕ) (q : SocketGuard)
    → IsValid s n
    → at < n
    → s.objects at ≡ none
    → o.guard ≡ some g
    → s.guards g ≡ some q
    → (next : Store) × (share s at o ≡ done next) × IsValid next n
unfolding share
share-IsValid s n at o g q v h free own has = (
  _,
  with_guard-some s o.guard g q _ own has,
  put_held-IsValid v at o g (record q { count = q.count + 1 }) h free own
      (omega (arith, v.counted g q has)),
)

-- A copy of a connection that has a socket.
pub copy-IsValid :
    (s : Store) (n at from : ℕ) (o : ConnSocket) (g : ℕ)
    → IsValid s n
    → at < n
    → s.objects at ≡ none
    → s.objects from ≡ some o
    → o.guard ≡ some g
    → (next : Store) × (copy s at from ≡ done next) × IsValid next n
unfolding copy
copy-IsValid s n at from o g v h free there own =
    let (q, has) = v.held from g o there own in
    let (next, runs, valid) = share-IsValid s n at o g q v h free own has in
    (next, with_object-some s from o _ there ∙ runs, valid)
