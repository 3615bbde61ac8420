-- ===== src/Socket/Calls.antt =====
-- tools/socket/SocketsOps.cpp: the calls of the operating system. What the system answers is any function
-- of the calls made so far. A failure goes to LOG_SYSERR or LOG_SYSFATAL as Log.Logger.Report has them.
pub mod Messages
use tools_cxx.Prelude.{ℕ, Bool, true, false, ◌&&◌, List, ◌∷◌, ◌++◌, if◌then◌else◌, Bytes, codes}
use tools_cxx.Log.Logger.{Context}
use tools_cxx.Log.Logger.Report.{Report, report}
use tools_cxx.Prelude.Int.{ℤ, pos, ltb_ℤ}
use tools_cxx.Socket.Address.{Memory, sockaddr_in_size, sockaddr_in6_size}

-- The errors that `accept` tells apart, and any other.
pub data Errno : Type 0 where
  eagain econnaborted eintr eproto eperm emfile : Errno
  ebadf efault einval enfile enobufs enomem enotsock eopnotsupp : Errno
  other : ℕ → Errno

abbrev pub errno_number : Errno → ℤ
errno_number eagain = pos 11
errno_number econnaborted = pos 103
errno_number eintr = pos 4
errno_number eproto = pos 71
errno_number eperm = pos 1
errno_number emfile = pos 24
errno_number ebadf = pos 9
errno_number efault = pos 14
errno_number einval = pos 22
errno_number enfile = pos 23
errno_number enobufs = pos 105
errno_number enomem = pos 12
errno_number enotsock = pos 88
errno_number eopnotsupp = pos 95
errno_number (other n) = pos n

-- The groups of cases of the switch over errno in `accept`.
pub data ErrorKind : Type 0 where
  expected unexpected unknown : ErrorKind

abbrev pub error_kind : Errno → ErrorKind
error_kind eagain = expected
error_kind econnaborted = expected
error_kind eintr = expected
error_kind eproto = expected
error_kind eperm = expected
error_kind emfile = expected
error_kind ebadf = unexpected
error_kind efault = unexpected
error_kind einval = unexpected
error_kind enfile = unexpected
error_kind enobufs = unexpected
error_kind enomem = unexpected
error_kind enotsock = unexpected
error_kind eopnotsupp = unexpected
error_kind (other n) = unknown

pub data SocketOption : Type 0 where
  so_reuseaddr so_reuseport so_keepalive tcp_nodelay : SocketOption

-- An address goes with its size. The flag of `sys_socket` is SOCK_NONBLOCK | SOCK_CLOEXEC.
pub data Syscall : Type 0 where
  sys_socket : ℕ → Bool → Syscall
  sys_close sys_shutdown sys_listen : ℤ → Syscall
  sys_read : ℤ → ℤ → Syscall
  sys_readv : ℤ → List ℕ → Syscall
  sys_write : ℤ → Bytes → Syscall
  sys_bind sys_connect : ℤ → Memory → ℕ → Syscall
  sys_accept sys_accept4 sys_getsockname sys_getpeername : ℤ → ℕ → Syscall
  sys_setsockopt : ℤ → SocketOption → ℕ → Syscall

-- What a call returns, the errno it leaves, and what the memory at the address it is given holds then; the
-- code clears that memory before.
pub record Answer : Type 0 where
  pub ret : ℤ
  pub errno : Errno
  pub written : Memory

abbrev pub Calls : Type 0
Calls = List Syscall

-- The system's answers; the errno that is left by a message put out after the calls so far; and what such
-- a message shows of the clock and of the thread.
pub record Os : Type 0 where
  pub answer : Calls → Answer
  pub logged : Calls → Errno
  pub context : Calls → Context

-- A call returns, throws, has no defined behaviour, or ends the program by a fatal message.
pub data Outcome (A : Type 0) : Type 0 where
  done : A → Outcome A
  threw undefined aborted : Outcome A

abbrev pub and_then : {A B : Type 0} → Outcome A → (A → Outcome B) → Outcome B
and_then (done a) f = f a
and_then threw f = threw
and_then undefined f = undefined
and_then aborted f = aborted

abbrev pub Call : Type 0 → Type 0
Call A = Calls → Outcome (A × Calls)

infixl 5 ◌>>=◌ ◌>>◌
abbrev pub ◌>>=◌ : {A B : Type 0} → Call A → (A → Call B) → Call B
(m >>= f) calls = and_then (m calls) (λ got. f got.0 got.1)

abbrev pub ◌>>◌ : {B : Type 0} → Call (Unit {0}) → Call B → Call B
m >> k = m >>= λ _. k

abbrev pub return : {A : Type 0} → A → Call A
return a calls = done (a, calls)

abbrev pub is_negative : ℤ → Bool
is_negative n = ltb_ℤ n (pos 0)

abbrev pub opt_val : Bool → ℕ
opt_val on = if on then 1 else 0

-- How the messages of `accept` and `accept_nonblocking` call them.
abbrev pub accept_name : Bytes
accept_name = codes "sockets::accept(int, struct sockaddr_in6*)"

abbrev pub accept_nonblocking_name : Bytes
accept_nonblocking_name = codes "accept_nonblocking(int, struct sockaddr_in6*)"

module _ (os : Os) where
  abbrev pub perform : Syscall → Call Answer
  perform c calls = done (os.answer (c ∷ calls), c ∷ calls)

  -- LOG_SYSERR and LOG_SYSFATAL with the errno that a call has left.
  unfoldable pub message : Bool → Errno → Bytes → Call (Unit {0})
  message to_abort errno text calls =
      elim (report to_abort (errno_number errno) (os.context calls) text) [
        | Report.logged ↦ done (tt, calls)
        | Report.ended ↦ aborted
        | Report.undefined ↦ undefined
      ]

  -- LOG_SYSFATAL under a condition.
  abbrev pub fatal_if : Bool → Answer → Bytes → Call (Unit {0})
  fatal_if true a text = message true a.errno text
  fatal_if false a text = return tt

  -- A call whose failure is fatal.
  abbrev pub checked : Syscall → Bytes → Call (Unit {0})
  checked c text = do a ← perform c; fatal_if (is_negative a.ret) a text

  unfoldable pub create_socket : ℕ → Call ℤ
  create_socket family = do
    a ← perform (sys_socket family false)
    fatal_if (is_negative a.ret) a (codes "Failed to create socket in sockets::create_socket(int)")
    return a.ret

  unfoldable pub create_nonblocking_socket : ℕ → Call ℤ
  create_nonblocking_socket family = do
    a ← perform (sys_socket family true)
    fatal_if (is_negative a.ret) a
        (codes "Failed to create socket in sockets::create_nonblocking_socket(int)")
    return a.ret

  unfoldable pub close : ℤ → Call (Unit {0})
  close fd = checked (sys_close fd) (codes "Failed to close sockfd in sockets::close(int)")

  unfoldable pub shutdown_write : ℤ → Call (Unit {0})
  shutdown_write fd =
      checked (sys_shutdown fd) (codes "Failed to shutdown write in sockets::shutdown_write(int)")

  unfoldable pub read : ℤ → ℤ → Call Answer
  read fd count = perform (sys_read fd count)

  unfoldable pub readv : ℤ → List ℕ → Call Answer
  readv fd sizes = perform (sys_readv fd sizes)

  unfoldable pub write : ℤ → Bytes → Call Answer
  write fd bytes = perform (sys_write fd bytes)

  -- The size is that of `struct sockaddr`, for addresses of both families.
  unfoldable pub bind : ℤ → Memory → Call (Unit {0})
  bind fd addr =
      checked (sys_bind fd addr sockaddr_in_size)
        (codes "Failed to bind addr in sockets::bind(int, const struct sockaddr*)")

  unfoldable pub listen : ℤ → Call (Unit {0})
  listen fd = checked (sys_listen fd) (codes "Failed to listen in sockets::listen(int)")

  unfoldable pub connect : ℤ → Memory → Call (Unit {0})
  connect fd addr =
      checked (sys_connect fd addr sockaddr_in_size)
        (codes "Failed to connect server in sockets::connect(int, const struct sockaddr*)")

  abbrev pub put_errno : Answer → Errno → Answer
  put_errno a errno = record a { errno = errno }

  -- The answer after a message, which may change errno.
  abbrev pub after_message : Answer → Call Answer
  after_message a calls = done (put_errno a (os.logged calls), calls)

  -- What `accept` does with an answer. After the message about an expected error errno is set back.
  abbrev pub after_accept : Bytes → Answer → Call Answer
  after_accept name a =
      if is_negative a.ret
      then (let saved = a.errno in
          elim (error_kind a.errno) [
            | expected ↦ do
              message false a.errno (codes "expected error of ::accept in " ++ name)
              b ← after_message a
              return (put_errno b saved)
            | unexpected ↦ do
              message true a.errno (codes "unexpected error of ::accept in " ++ name)
              after_message a
            | unknown ↦ do
              message true a.errno (codes "unknown error of ::accept in " ++ name)
              after_message a
          ])
      else return a

  unfoldable pub accept : ℤ → Call Answer
  accept fd = do a ← perform (sys_accept fd sockaddr_in6_size); after_accept accept_name a

  unfoldable pub accept_nonblocking : ℤ → Call Answer
  accept_nonblocking fd = do
    a ← perform (sys_accept4 fd sockaddr_in6_size)
    after_accept accept_nonblocking_name a

  -- A failure is fatal only when the option is switched on.
  abbrev pub set_option : SocketOption → Bytes → ℤ → Bool → Call (Unit {0})
  set_option option text fd on = do
    a ← perform (sys_setsockopt fd option (opt_val on))
    fatal_if (is_negative a.ret && on) a text

  unfoldable pub set_reuse_address : ℤ → Bool → Call (Unit {0})
  set_reuse_address fd on =
      set_option so_reuseaddr (codes "Failed to set reuse addr in sockets::set_reuseAddr(bool)") fd
        on

  -- Where the system has SO_REUSEPORT.
  unfoldable pub set_reuse_port : ℤ → Bool → Call (Unit {0})
  set_reuse_port fd on =
      set_option so_reuseport (codes "Failed to set reuse port in sockets::set_reusePort(bool)") fd
        on

  unfoldable pub set_keep_alive : ℤ → Bool → Call (Unit {0})
  set_keep_alive fd on =
      set_option so_keepalive (codes "Failed to set keep alive in sockets::set_reuseAddr(bool)") fd
        on

  unfoldable pub set_no_delay : ℤ → Bool → Call (Unit {0})
  set_no_delay fd on =
      set_option tcp_nodelay (codes "Failed to set TCP no delay in sockets::set_reuseAddr(bool)") fd
        on

  unfoldable pub get_local_addr : ℤ → Call Memory
  get_local_addr fd = do
    a ← perform (sys_getsockname fd sockaddr_in6_size)
    fatal_if (is_negative a.ret) a (codes "Failed to call getsockname in get_local_addr")
    return a.written

  unfoldable pub get_peer_addr : ℤ → Call Memory
  get_peer_addr fd = do
    a ← perform (sys_getpeername fd sockaddr_in6_size)
    fatal_if (is_negative a.ret) a (codes "Failed to call getpeername in get_peer_addr")
    return a.written
