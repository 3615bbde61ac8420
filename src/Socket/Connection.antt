-- ===== src/Socket/Connection.antt =====
-- tools/socket/ConnSocket.h and ConnSocket.cpp: connections that share a socket by a counted guard. The
-- objects and the guards lie in memories by address.
pub mod Counts
pub mod Shares
pub mod Ends
pub mod Assign
pub mod Steps
pub mod Io
use tools_cxx.Prelude.{ℕ, ◌+◌, ◌-◌, Bool, false, Option, none, some, ◌==◌, update_at, if◌then◌else◌}
use tools_cxx.Prelude.Int.{ℤ}
use tools_cxx.Socket.Address.{Memory, of_port, af_inet}
use tools_cxx.Socket.Endian.{ByteOrder}
use tools_cxx.Socket.Calls.{Os, Calls, Outcome, done, undefined, and_then, close}

pub record SocketGuard : Type 0 where
  pub sockfd : ℤ
  pub count : ℕ

-- `guard` is none for the null pointer.
pub record ConnSocket : Type 0 where
  pub guard : Option ℕ
  pub remote_addr : Memory

pub record Store : Type 0 where
  pub objects : ℕ → Option ConnSocket
  pub guards : ℕ → Option SocketGuard
  pub calls : Calls

abbrev pub put_object : Store → ℕ → Option ConnSocket → Store
put_object s at o = record s { objects = update_at s.objects at o }

abbrev pub put_guard : Store → ℕ → Option SocketGuard → Store
put_guard s g q = record s { guards = update_at s.guards g q }

-- The guard of an object; the null pointer and a freed guard have no defined behaviour.
abbrev pub with_guard : Store → Option ℕ → (ℕ → SocketGuard → Outcome Store) → Outcome Store
with_guard s none f = undefined
with_guard s (some g) f = elim (s.guards g) [ none ↦ undefined | some q ↦ f g q ]

-- An object that is alive at an address.
abbrev pub with_object : Store → ℕ → (ConnSocket → Outcome Store) → Outcome Store
with_object s at f = elim (s.objects at) [ none ↦ undefined | some o ↦ f o ]

-- `ConnSocket()`; `order` is that of the host, and the address lies over what memory held before.
unfoldable pub construct : ByteOrder → Memory → Store → ℕ → Outcome Store
construct order m s at = done (
    put_object s at (some (record { guard = none; remote_addr = of_port order m 0 af_inet false })))

-- `ConnSocket(sockfd, addr)`; `fresh` is what `new` returns.
unfoldable pub construct_of : Store → ℕ → ℕ → ℤ → Memory → Outcome Store
construct_of s at fresh sockfd addr = done (
    put_object (put_guard s fresh (some (record { sockfd = sockfd; count = 1 }))) at
      (some (record { guard = some fresh; remote_addr = addr })))

-- The fields are taken over, and the guard counts one more.
unfoldable pub share : Store → ℕ → ConnSocket → Outcome Store
share s at o =
    with_guard s o.guard (λ g q.
      done (put_object (put_guard s g (some (record q { count = q.count + 1 }))) at (some o)))

unfoldable pub copy : Store → ℕ → ℕ → Outcome Store
copy s at from = with_object s from (λ o. share s at o)

module _ (os : Os) where
  -- `delete m_guard` runs the destructor of the guard, which closes the socket.
  abbrev pub delete_guard : Store → ℕ → SocketGuard → Outcome Store
  delete_guard s g q =
      and_then (close os q.sockfd s.calls)
        (λ got. done (record s { guards = update_at s.guards g none; calls = got.1 }))

  abbrev pub uncounted : Store → ℕ → SocketGuard → Outcome Store
  uncounted s g q =
      let rest = record q { count = q.count - 1 } in
      if rest.count == 0 then delete_guard s g rest else done (put_guard s g (some rest))

  -- The destructor's body, which assignment also runs.
  unfoldable pub release : Store → Option ℕ → Outcome Store
  release s none = done s
  release s (some g) = with_guard s (some g) (uncounted s)

  unfoldable pub destroy : Store → ℕ → Outcome Store
  destroy s at =
      with_object s at (λ o. and_then (release s o.guard) (λ next. done (put_object next at none)))

  unfoldable pub assign : Store → ℕ → ℕ → Outcome Store
  assign s at from =
      with_object s at (λ old.
        and_then (release s old.guard) (λ next. with_object next from (λ o. share next at o)))
