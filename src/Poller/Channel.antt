-- ===== src/Poller/Channel.antt =====
-- tools/poller/Channel.h and Channel.cpp: the events that a file descriptor waits for, and the
-- callbacks that its events call. Masks are the bit patterns of poll(2).
pub mod Interest
pub mod Dispatch
use Prim.Native.Nat.{bit_and, bit_or}
use tools_cxx.Prelude.{
  ℕ, ◌-◌, ◌^◌, Bool, true, false, not, ◌&&◌, Option, none, some, List, [], ◌∷◌, ◌++◌, ◌==◌,
  if◌then◌else◌,
}
use tools_cxx.Prelude.Int.{ℤ, negsuc}

abbrev pub pollin : ℕ
pollin = 0x001

abbrev pub pollpri : ℕ
pollpri = 0x002

abbrev pub pollout : ℕ
pollout = 0x004

abbrev pub pollerr : ℕ
pollerr = 0x008

abbrev pub pollhup : ℕ
pollhup = 0x010

abbrev pub pollnval : ℕ
pollnval = 0x020

abbrev pub pollrdhup : ℕ
pollrdhup = 0x2000

abbrev pub k_read_event : ℕ
k_read_event = bit_or pollin pollpri

abbrev pub k_write_event : ℕ
k_write_event = pollout

abbrev pub read_event : ℕ
read_event = bit_or (bit_or pollin pollpri) pollrdhup

abbrev pub write_event : ℕ
write_event = pollout

abbrev pub error_event : ℕ
error_event = pollerr

-- `POLLHUP | (!POLLIN)`: the logical negation of 1 is 0.
abbrev pub close_event : ℕ
close_event = bit_or pollhup (if pollin == 0 then 1 else 0)

pub record Channel : Type 0 where
  pub fd : ℕ
  pub events : ℕ
  pub revents : ℕ
  pub index : ℤ

-- The constructor; `negsuc 0` is -1.
unfoldable pub make : ℕ → Channel
make fd = record { fd = fd; events = 0; revents = 0; index = negsuc 0 }

-- `~mask` of an `int`.
abbrev pub complement : ℕ → ℕ
complement mask = 2 ^ 32 - 1 - mask

-- What the four methods do to `m_events` before they call `update`.
unfoldable pub add_reading : Channel → Channel
add_reading c = record c { events = bit_or c.events k_read_event }

unfoldable pub drop_reading : Channel → Channel
drop_reading c = record c { events = bit_and c.events (complement k_read_event) }

unfoldable pub add_writing : Channel → Channel
add_writing c = record c { events = bit_or c.events k_write_event }

unfoldable pub drop_writing : Channel → Channel
drop_writing c = record c { events = bit_and c.events (complement k_write_event) }

-- `value & mask` as a condition.
abbrev pub any_of : ℕ → ℕ → Bool
any_of value mask = not (bit_and value mask == 0)

unfoldable pub is_writing : Channel → Bool
is_writing c = any_of c.events k_write_event

pub data Callback : Type 0 where
  on_read on_write on_close on_error : Callback

-- Which of the callbacks are set.
pub record Callbacks : Type 0 where
  pub has_read : Bool
  pub has_write : Bool
  pub has_close : Bool
  pub has_error : Bool

abbrev pub call_if : Bool → Bool → Callback → List Callback
call_if event set call = if event && set then call ∷ [] else []

-- A test of `handle_event`: its mask, whether the callback behind it is set, and that callback.
pub record EventTest : Type 0 where
  pub mask : ℕ
  pub is_set : Bool
  pub callback : Callback

abbrev pub event_tests : Callbacks → List EventTest
event_tests h =
    record { mask = read_event; is_set = h.has_read; callback = on_read }
    ∷ record { mask = write_event; is_set = h.has_write; callback = on_write }
    ∷ record { mask = error_event; is_set = h.has_error; callback = on_error }
    ∷ record { mask = pollnval; is_set = h.has_error; callback = on_error }
    ∷ record { mask = close_event; is_set = h.has_close; callback = on_close }
    ∷ []

-- A callback may change `m_revents`, which the next test reads, or delete the channel: `effect` says what
-- `m_revents` is behind it, and `none` that the channel is gone. To read it then is undefined behaviour,
-- the outer `none`; behind the last test nothing is read any more.
abbrev pub put_call : Callback → Option (List Callback) → Option (List Callback)
put_call c (some calls) = some (c ∷ calls)
put_call c none = none

abbrev pub deleted_behind : Callback → List EventTest → Option (List Callback)
deleted_behind c [] = some (c ∷ [])
deleted_behind c (t ∷ tests) = none

unfoldable pub run_tests : (Callback → ℕ → Option ℕ) → List EventTest → ℕ → Option (List Callback)
run_tests effect [] revents = some []
run_tests effect (t ∷ tests) revents =
    let kept = run_tests effect tests revents in
    if any_of revents t.mask && t.is_set
    then elim (effect t.callback revents) [
      | some left ↦ put_call t.callback (run_tests effect tests left)
      | none ↦ deleted_behind t.callback tests
    ]
    else kept

-- The callbacks that are called, in order, where no callback changes `m_revents` or deletes the channel
-- (Dispatch relates this to `run_tests`).
unfoldable pub handle_event : Callbacks → ℕ → List Callback
handle_event h revents =
    call_if (any_of revents read_event) h.has_read on_read
    ++ (call_if (any_of revents write_event) h.has_write on_write
        ++ (call_if (any_of revents error_event) h.has_error on_error
            ++ (call_if (any_of revents pollnval) h.has_error on_error
                ++ call_if (any_of revents close_event) h.has_close on_close)))
