-- ===== src/Socket/Server.antt =====
-- tools/socket/ServerSocket.h and ServerSocket.cpp: a listening socket.
pub mod Accept
use tools_cxx.Prelude.{ℕ, ◌%◌, ◌^◌, Bool, true, false, if◌then◌else◌}
use tools_cxx.Prelude.Int.{ℤ}
use tools_cxx.Socket.Endian.{ByteOrder}
use tools_cxx.Socket.Address.{Memory, of_port, get_family, cleared, sockaddr_in6_size}
use tools_cxx.Socket.Calls
use tools_cxx.Socket.Calls.{
  Os, Outcome, done, threw, aborted, and_then, Call, Answer, is_negative, ◌>>=◌, ◌>>◌, return,
  create_socket, create_nonblocking_socket, close,
}
use tools_cxx.Socket.Connection.{Store, construct_of}

pub record ServerSocket : Type 0 where
  pub local_addr : Memory
  pub sockfd : ℤ

-- The new connection, made at `at` with a guard at `fresh`.
abbrev pub connection : Store → ℕ → ℕ → Answer × Calls.Calls → Outcome Store
connection s at fresh got =
    if is_negative got.0.ret
    then threw
    else construct_of (record s { calls = got.1 }) at fresh got.0.ret got.0.written

module _ (os : Os) where
  abbrev pub create : Bool → ℕ → Call ℤ
  create is_blocking family =
      if is_blocking then create_socket os family else create_nonblocking_socket os family

  -- `ServerSocket(port, isBlocking, family)`; the address lies over what memory held before.
  unfoldable pub server_of_port : ByteOrder → Memory → ℕ → Bool → ℕ → Call ServerSocket
  server_of_port order m port is_blocking family = do
    sockfd ← create is_blocking family
    return (record { local_addr = of_port order m (port % 2 ^ 16) family false; sockfd = sockfd })

  -- `ServerSocket(localAddr, isBlocking)`
  unfoldable pub server_of_address : ByteOrder → Memory → Bool → Call ServerSocket
  server_of_address order local_addr is_blocking = do
    sockfd ← create is_blocking (get_family order local_addr)
    return (record { local_addr = local_addr; sockfd = sockfd })

  unfoldable pub destroy : ServerSocket → Call (Unit {0})
  destroy server = close os server.sockfd

  unfoldable pub listen : ServerSocket → Call (Unit {0})
  listen server = do Calls.bind os server.sockfd server.local_addr; Calls.listen os server.sockfd

  unfoldable pub accept : ServerSocket → Store → ℕ → ℕ → Outcome Store
  accept server s at fresh =
      and_then (Calls.accept os server.sockfd s.calls) (connection s at fresh)

  unfoldable pub accept_nonblocking : ServerSocket → Store → ℕ → ℕ → Outcome Store
  accept_nonblocking server s at fresh =
      and_then (Calls.accept_nonblocking os server.sockfd s.calls) (connection s at fresh)

  unfoldable pub set_reuse_address : ServerSocket → Bool → Call (Unit {0})
  set_reuse_address server on = Calls.set_reuse_address os server.sockfd on

  unfoldable pub set_reuse_port : ServerSocket → Bool → Call (Unit {0})
  set_reuse_port server on = Calls.set_reuse_port os server.sockfd on
