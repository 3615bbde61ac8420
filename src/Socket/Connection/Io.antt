-- ===== src/Socket/Connection/Io.antt =====
-- tools/socket/ConnSocket.h and ConnSocket.cpp: what a connection does with its socket.
use tools_cxx.Prelude.{ℕ, Bool, none, some, List, Bytes}
use tools_cxx.Prelude.Int.{ℤ}
use tools_cxx.Socket.Address.{Memory}
use tools_cxx.Socket.Calls
use tools_cxx.Socket.Calls.{Os, Outcome, done, undefined, Call, Answer}
use tools_cxx.Socket.Connection.{Store}

-- The socket of a live connection; a connection without one reads through the null pointer.
abbrev pub on_socket : {A : Type 0} → Store → ℕ → (ℤ → Call A) → Outcome (A × Calls.Calls)
on_socket s at f = elim (s.objects at) [
  | none ↦ undefined
  | some o ↦ elim o.guard [
    | none ↦ undefined
    | some g ↦ elim (s.guards g) [ none ↦ undefined | some q ↦ f q.sockfd s.calls ]
  ]
]

unfoldable pub get_sockfd : Store → ℕ → Outcome (ℤ × Calls.Calls)
get_sockfd s at = on_socket s at Calls.return

unfoldable pub get_remote_address : Store → ℕ → Outcome Memory
get_remote_address s at = elim (s.objects at) [ none ↦ undefined | some o ↦ done o.remote_addr ]

module _ (os : Os) where
  -- The buffer is cleared before the call; what the call writes there is in the answer.
  unfoldable pub read : Store → ℕ → ℤ → Outcome (Answer × Calls.Calls)
  read s at count = on_socket s at (λ fd. Calls.read os fd count)

  unfoldable pub readv : Store → ℕ → List ℕ → Outcome (Answer × Calls.Calls)
  readv s at sizes = on_socket s at (λ fd. Calls.readv os fd sizes)

  unfoldable pub write : Store → ℕ → Bytes → Outcome (Answer × Calls.Calls)
  write s at bytes = on_socket s at (λ fd. Calls.write os fd bytes)

  unfoldable pub shutdown_write : Store → ℕ → Outcome (Unit {0} × Calls.Calls)
  shutdown_write s at = on_socket s at (λ fd. Calls.shutdown_write os fd)

  unfoldable pub set_keep_alive : Store → ℕ → Bool → Outcome (Unit {0} × Calls.Calls)
  set_keep_alive s at on = on_socket s at (λ fd. Calls.set_keep_alive os fd on)

  -- The code calls `set_keep_alive`.
  unfoldable pub set_no_delay : Store → ℕ → Bool → Outcome (Unit {0} × Calls.Calls)
  set_no_delay s at on = on_socket s at (λ fd. Calls.set_keep_alive os fd on)
