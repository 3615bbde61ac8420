-- ===== src/Socket/Server/Accept.antt =====
-- The outcomes of `accept`.
use tools_cxx.Prelude.{
  ℕ, ◌<◌, ◌≤◌, ◌≡◌, ◌≢◌, refl, true, false, none, some, ◌∷◌, ap, subst, sym, update_at_hit, arith,
  Bool-cases, inl, inr, Bytes, length,
}
use tools_cxx.Prelude.Int.{pos}
use tools_cxx.Log.Logger.Report.{is_plain}
use tools_cxx.Socket.Address.{sockaddr_in6_size}
use tools_cxx.Socket.Calls
use tools_cxx.Socket.Calls.{
  Os, Answer, Syscall, sys_accept, sys_accept4, errno_number, accept_name, accept_nonblocking_name,
  after_accept, and_then, ◌>>=◌, Outcome, done, undefined, is_negative, Calls,
}
use tools_cxx.Socket.Calls.Messages.{IsDocumented, after_accept-undefined}
use tools_cxx.Socket.Connection.{
  SocketGuard, ConnSocket, Store, put_object, put_guard, construct_of,
}
use tools_cxx.Socket.Connection.Counts.{IsValid, IsValid-none}
use tools_cxx.Socket.Connection.Shares.{put_held-IsValid, calls-IsValid}
use tools_cxx.Socket.Server.{ServerSocket, accept, accept_nonblocking, connection}

-- What comes of an answer: a connection with the new socket; or, of an error, a message whose behaviour is
-- not defined, and neither the exception nor the end of the program.
pub data IsAnswered (s : Store) (n at fresh : ℕ) (call : Syscall) (a : Answer)
    : Outcome Store → Type 0 where
  connected :
      (next : Store)
      → is_negative a.ret ≡ false
      → next.guards fresh ≡ some (record { sockfd = a.ret; count = 1 })
      → next.objects at ≡ some (record { guard = some fresh; remote_addr = a.written })
      → next.calls ≡ call ∷ s.calls
      → IsValid next n
      → IsAnswered s n at fresh call a (done next)
  failed : is_negative a.ret ≡ true → IsAnswered s n at fresh call a undefined

module _ (os : Os) (s : Store) (at fresh : ℕ) (name : Bytes) (a : Answer) (calls : Calls) where
  -- What follows an answer.
  abbrev outcome : Outcome Store
  outcome = and_then (after_accept os name a calls) (connection s at fresh)

  outcome_connected :
      is_negative a.ret ≡ false
      → outcome ≡ construct_of (record s { calls = calls }) at fresh a.ret a.written
  outcome_connected e = rw e (rw (connection, e) refl)

  outcome_failed :
      IsDocumented os
      → is_negative a.ret ≡ true
      → errno_number a.errno ≢ pos 0
      → is_plain name ≡ true
      → length name ≤ 100
      → outcome ≡ undefined
  outcome_failed d e ne flat small =
      ap (λ m. and_then m (connection s at fresh))
        (after_accept-undefined os d name a calls e ne flat small)

module _ (os : Os) (d : IsDocumented os) (s : Store) (n at fresh : ℕ) (v : IsValid s n) (h : at < n)
    (free : s.objects at ≡ none) (new : s.guards fresh ≡ none) where
  answer-IsAnswered :
      (call : Syscall) (name : Bytes)
      → is_plain name ≡ true
      → length name ≤ 100
      → IsAnswered s n at fresh call
          (os.answer (call ∷ s.calls))
          (outcome os s at fresh name (os.answer (call ∷ s.calls)) (call ∷ s.calls))
  unfolding construct_of
  answer-IsAnswered call name flat small =
      let calls : Calls = call ∷ s.calls in
      let a : Answer = os.answer calls in
      elim (Bool-cases (is_negative a.ret)) [
        | inl e ↦
            subst (IsAnswered s n at fresh call a)
              (sym (outcome_failed os s at fresh name a calls d e (d.errno calls e) flat small))
              (failed e)
        | inr e ↦
            let answered : ConnSocket = record { guard = some fresh; remote_addr = a.written } in
            let guard : SocketGuard = record { sockfd = a.ret; count = 1 } in
            let before : Store = record s { calls = call ∷ s.calls } in
            subst (IsAnswered s n at fresh call a)
              (sym (outcome_connected os s at fresh name a calls e))
              (connected (put_object (put_guard before fresh (some guard)) at (some answered)) e
                (update_at_hit s.guards fresh (some guard) fresh refl)
                (update_at_hit s.objects at (some answered) at refl) refl
                (put_held-IsValid (calls-IsValid v (call ∷ s.calls)) at answered fresh guard h free
                  refl (omega (arith, IsValid-none v fresh new))))
      ]

  -- Where the counts hold, the places of the connection and of its guard are free, a call that fails
  -- leaves an errno other than 0, and the texts of the time and of the thread id fit their buffers: a
  -- connection is accepted that alone holds the new socket, and the counts hold again; or accept(2) has
  -- failed, and then the program has no defined behaviour, whatever the error and even if the code means
  -- to throw an exception.
  pub accept-IsAnswered :
      (server : ServerSocket)
      → let call = sys_accept server.sockfd sockaddr_in6_size in
        IsAnswered s n at fresh call (os.answer (call ∷ s.calls)) (accept os server s at fresh)
  unfolding accept Calls.accept
  accept-IsAnswered server =
      answer-IsAnswered (sys_accept server.sockfd sockaddr_in6_size) accept_name refl (omega arith)

  -- The same for `accept_nonblocking`.
  pub accept_nonblocking-IsAnswered :
      (server : ServerSocket)
      → let call = sys_accept4 server.sockfd sockaddr_in6_size in
        IsAnswered s n at fresh call
          (os.answer (call ∷ s.calls))
          (accept_nonblocking os server s at fresh)
  unfolding accept_nonblocking Calls.accept_nonblocking
  accept_nonblocking-IsAnswered server =
      answer-IsAnswered (sys_accept4 server.sockfd sockaddr_in6_size) accept_nonblocking_name refl
        (omega arith)
