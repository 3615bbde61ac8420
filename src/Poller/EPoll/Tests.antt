-- ===== src/Poller/EPoll/Tests.antt =====
-- A kernel that accepts every call, and a poller with one channel.
use tools_cxx.Prelude.{ℕ, ◌≡◌, refl, arith, Option, none, some, [], ◌∷◌, ◌==◌, if◌then◌else◌}
use tools_cxx.Prelude.Int.{pos, negsuc}
use tools_cxx.Poller.Channel.{Channel}
use tools_cxx.Poller.EPoll.{
  Epoll, EpollEvent, Op, delete, after, done, EPollPoller, remove_channel, poll, make,
}
use tools_cxx.Poller.EPoll.Invariant.{IsValid}
use tools_cxx.Poller.EPoll.Remove.{IsDropped, remove_channel-IsDropped}
use tools_cxx.Poller.EPoll.Active.{IsPolled, poll-IsPolled}

pub listed :
    (op : Op) (fd : ℕ) (event : EpollEvent) (k next : ℕ → Option EpollEvent)
    → ◌≡◌ {A = Option (ℕ → Option EpollEvent)} (some (after op fd event k)) (some next)
    → (n : ℕ) → next n ≡ after op fd event k n
listed op fd event k next e n = cc

-- The state of this kernel is its interest list.
abbrev pub listing : Epoll
listing = record {
  Kernel = ℕ → Option EpollEvent;
  interest = λ k. k;
  epoll_ctl = λ op fd event k. some (after op fd event k);
  errno = λ op fd event k. pos 22;
  context = λ k. record { now = []; tid = []; file = []; line = pos 0 };
  errno-epoll_ctl = λ op fd event k e. cc e;
  context-IsShort = λ k. omega arith;
  interest-epoll_ctl = λ op fd event k next e n. listed op fd event k next e n;
}

abbrev sockets : ℕ → Channel
sockets c = record { fd = c; events = 1; revents = 0; index = if c == 7 then pos 1 else negsuc 0 }

abbrev seven : EPollPoller listing
seven =
    record (make listing (λ n. if n == 7 then some (record { events = 1; ptr = 7 }) else none)
      sockets) { channel_store = λ n. if n == 7 then some 7 else none }

seven-IsValid : IsValid listing seven
unfolding make
seven-IsValid = record {
  table = λ fd c s. (
    record { events = 1; ptr = 7 },
    record {
      stored = s;
      named = ground arith;
      added = ground arith;
      waits = ground arith;
      handed = ground arith;
    },
  );
  listed = λ fd e s. record {
    stored = ground arith;
    named = ground arith;
    added = ground arith;
    waits = s;
    handed = refl;
  };
}

seven_gone :
    (q : EPollPoller listing) × (remove_channel listing seven 7 ≡ done q)
    × IsDropped listing seven 7 q
unfolding make
seven_gone =
    remove_channel-IsDropped listing seven 7 seven-IsValid refl
      (after delete 7 (record { events = 1; ptr = 7 }) seven.kernel) refl

poll-IsPolled_example :
    (q : EPollPoller listing) × (poll listing seven (some (record { events = 1; ptr = 7 } ∷ []))
      ≡ done q)
    × IsPolled listing seven (record { events = 1; ptr = 7 } ∷ []) q
unfolding make
poll-IsPolled_example =
    poll-IsPolled listing seven (record { events = 1; ptr = 7 } ∷ []) seven-IsValid
      ((7, record { events = 1; ptr = 7 }, refl, refl), tt) (omega arith) (omega arith)
