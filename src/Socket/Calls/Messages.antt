-- ===== src/Socket/Calls/Messages.antt =====
-- The messages of tools/socket/SocketsOps.cpp about calls that fail.
use tools_cxx.Prelude.{◌≡◌, ◌≢◌, ◌≤◌, refl, arith, Bool, true, false, Bytes, codes, ◌++◌, length}
use tools_cxx.Prelude.Int.{pos}
use tools_cxx.Log.Logger.Report.{IsShort, is_plain, report-undefined}
use tools_cxx.Socket.Calls.{
  Os, Answer, Calls, Errno, ErrorKind, expected, unexpected, unknown, error_kind, errno_number,
  undefined, is_negative, message, after_accept,
}

-- A call that fails leaves an errno that is not 0, and the clock and the thread id have short texts.
pub record IsDocumented (os : Os) : Type 0 where
  pub errno :
      (calls : Calls)
      → is_negative (os.answer calls).ret ≡ true
      → errno_number (os.answer calls).errno ≢ pos 0
  pub short : (calls : Calls) → IsShort (os.context calls)

module _ (os : Os) (d : IsDocumented os) where
  message-undefined :
      (to_abort : Bool) (errno : Errno) (text : Bytes) (calls : Calls)
      → errno_number errno ≢ pos 0
      → is_plain text ≡ true
      → length text ≤ 200
      → message os to_abort errno text calls ≡ undefined
  unfolding message
  message-undefined to_abort errno text calls ne flat small =
      rw
        (
          message,
          report-undefined to_abort (errno_number errno) (os.context calls) text ne (d.short calls)
              flat small,
        )
        refl

  answered :
      (name : Bytes) (a : Answer) (calls : Calls) (k : ErrorKind)
      → error_kind a.errno ≡ k
      → is_negative a.ret ≡ true
      → errno_number a.errno ≢ pos 0
      → is_plain name ≡ true
      → length name ≤ 100
      → after_accept os name a calls ≡ undefined
  answered name a calls expected q e ne flat small =
      rw
        (
          e,
          q,
          message-undefined false a.errno (codes "expected error of ::accept in " ++ name) calls ne
              flat (omega (arith, small)),
        )
        refl
  answered name a calls unexpected q e ne flat small =
      rw
        (
          e,
          q,
          message-undefined true a.errno (codes "unexpected error of ::accept in " ++ name) calls ne
              flat (omega (arith, small)),
        )
        refl
  answered name a calls unknown q e ne flat small =
      rw
        (
          e,
          q,
          message-undefined true a.errno (codes "unknown error of ::accept in " ++ name) calls ne
              flat (omega (arith, small)),
        )
        refl

  -- What follows an answer that is an error.
  pub after_accept-undefined :
      (name : Bytes) (a : Answer) (calls : Calls)
      → is_negative a.ret ≡ true
      → errno_number a.errno ≢ pos 0
      → is_plain name ≡ true
      → length name ≤ 100
      → after_accept os name a calls ≡ undefined
  after_accept-undefined name a calls e ne flat small =
      answered name a calls (error_kind a.errno) refl e ne flat small
