-- ===== src/Poller/EPoll.antt =====
-- tools/poller/EPollPoller.h and EPollPoller.cpp: the table from file descriptors to channels, and the
-- kernel's interest list behind it. A channel is known by its address.
pub mod Invariant
pub mod Local
pub mod Update
pub mod Remove
pub mod Filled
pub mod Active
pub mod Tests
use tools_cxx.Prelude.{
  ℕ, ◌*◌, ◌%◌, ◌^◌, ◌≡◌, ◌≢◌, Bool, true, false, Option, none, some, codes, List, [], ◌∷◌, ◌++◌,
  leb, ◌==◌, if◌then◌else◌, length, drop, take, replicate, update_at, is_none,
}
use tools_cxx.Prelude.Int.{ℤ, pos, negsuc, eqb_ℤ}
use tools_cxx.Log.Logger.{Context}
use tools_cxx.Log.Logger.Report.{Report, report, IsShort}
use tools_cxx.Poller.Channel.{Channel}
use tools_cxx.Poller.Poll.{maps_to}

-- `struct epoll_event`, whose `data.ptr` is the address of a channel.
pub record EpollEvent : Type 0 where
  pub events : ℕ
  pub ptr : ℕ

-- EPOLL_CTL_ADD, EPOLL_CTL_MOD and EPOLL_CTL_DEL
pub data Op : Type 0 where
  add modify delete : Op

-- What a successful epoll_ctl(2) makes of the interest list.
abbrev pub after : Op → ℕ → EpollEvent → (ℕ → Option EpollEvent) → ℕ → Option EpollEvent
after add fd event list = update_at list fd (some event)
after modify fd event list = update_at list fd (some event)
after delete fd event list = update_at list fd none

-- The kernel, as far as the poller uses it: its state, the interest list that epoll_wait(2) reads, and
-- epoll_ctl(2), which is `none` when it returns an error and leaves its number in `errno`, which is not 0.
-- `context` is what a message shows of the clock and of the thread.
pub record Epoll : Type 1 where
  pub Kernel : Type 0
  pub interest : Kernel → ℕ → Option EpollEvent
  pub epoll_ctl : Op → ℕ → EpollEvent → Kernel → Option Kernel
  pub errno : Op → ℕ → EpollEvent → Kernel → ℤ
  pub context : Kernel → Context
  pub errno-epoll_ctl :
      (op : Op) (fd : ℕ) (event : EpollEvent) (k : Kernel)
      → epoll_ctl op fd event k ≡ none
      → errno op fd event k ≢ pos 0
  pub context-IsShort : (k : Kernel) → IsShort (context k)
  pub interest-epoll_ctl :
      (op : Op) (fd : ℕ) (event : EpollEvent) (k next : Kernel)
      → epoll_ctl op fd event k ≡ some next
      → (n : ℕ) → interest next n ≡ after op fd event (interest k) n

-- A call returns, fails an assertion, ends the program by a fatal message, or has no defined behaviour.
pub data Outcome (A : Type 0) : Type 0 where
  done : A → Outcome A
  failed : Outcome A
  aborted : Outcome A
  undefined : Outcome A

infixl 5 ◌>>=◌ ◌>>◌
abbrev pub ◌>>=◌ : {A B : Type 0} → Outcome A → (A → Outcome B) → Outcome B
done a >>= f = f a
failed >>= f = failed
aborted >>= f = aborted
undefined >>= f = undefined

abbrev pub ◌>>◌ : {B : Type 0} → Outcome (Unit {0}) → Outcome B → Outcome B
m >> k = m >>= λ _. k

abbrev pub assert : Bool → Outcome (Unit {0})
assert true = done tt
assert false = failed

abbrev pub k_new : ℤ
k_new = negsuc 0

abbrev pub k_added : ℤ
k_added = pos 1

-- `static_cast<uint32_t>` of a mask.
abbrev pub to_uint : ℕ → ℕ
to_uint events = events % 2 ^ 32

module _ (os : Epoll) where
  pub record EPollPoller : Type 0 where
    pub channels : ℕ → Channel
    pub channel_store : ℕ → Option ℕ
    pub kernel : os.Kernel
    pub event_list : List EpollEvent
    pub active_channels : List ℕ

  abbrev pub event_of : EPollPoller → ℕ → EpollEvent
  event_of p c = record { events = to_uint (p.channels c).events; ptr = c }

  abbrev pub is_fatal : Op → Bool
  is_fatal delete = false
  is_fatal op = true

  -- A failure is reported by LOG_SYSFATAL, and that of a deletion by LOG_SYSERR.
  unfoldable pub update : Op → EPollPoller → ℕ → Outcome EPollPoller
  update op p c =
      let event = event_of p c in
      let fd = (p.channels c).fd in
      elim (os.epoll_ctl op fd event p.kernel) [
        | some next ↦ done (record p { kernel = next })
        | none ↦
            elim (report (is_fatal op) (os.errno op fd event p.kernel) (os.context p.kernel)
              (codes "EPollPoller::poll()")) [
                | Report.logged ↦ done p
                | Report.ended ↦ aborted
                | Report.undefined ↦ undefined
              ]
      ]

  abbrev pub set_index : EPollPoller → ℕ → ℤ → ℕ → Channel
  set_index p c i = update_at p.channels c (record (p.channels c) { index = i })

  -- A new channel in the table, before the kernel is told.
  abbrev pub stored : EPollPoller → ℕ → EPollPoller
  stored p c = record p {
    channel_store = update_at p.channel_store (p.channels c).fd (some c);
    channels = set_index p c k_added;
  }

  unfoldable pub update_channel : EPollPoller → ℕ → Outcome EPollPoller
  update_channel p c =
      if eqb_ℤ (p.channels c).index k_new
      then (do assert (is_none (p.channel_store (p.channels c).fd)); update add (stored p c) c)
      else (do
        assert (eqb_ℤ (p.channels c).index k_added)
        assert (maps_to p.channel_store (p.channels c).fd c)
        update modify p c)

  unfoldable pub remove_channel : EPollPoller → ℕ → Outcome EPollPoller
  remove_channel p c = do
    assert (eqb_ℤ (p.channels c).index k_added)
    assert (maps_to p.channel_store (p.channels c).fd c)
    q ←
        update delete
          (record p { channel_store = update_at p.channel_store (p.channels c).fd none }) c
    done (record q { channels = set_index q c k_new })

  -- The loop of `fill_active_channels`, over the events that the kernel has written.
  unfoldable pub fill_loop : List EpollEvent → EPollPoller → Outcome EPollPoller
  fill_loop [] p = done p
  fill_loop (e ∷ es) p = elim (maps_to p.channel_store (p.channels e.ptr).fd e.ptr) [
    | false ↦ failed
    | true ↦ fill_loop es (record p {
      channels = update_at p.channels e.ptr (record (p.channels e.ptr) { revents = e.events });
      active_channels = p.active_channels ++ e.ptr ∷ [];
    })
  ]

  -- The events that epoll_wait(2) writes stand at the front of the array.
  abbrev pub filled : EPollPoller → List EpollEvent → EPollPoller
  filled p es = record p { event_list = es ++ drop (length es) p.event_list; active_channels = [] }

  -- A full array is resized to twice its length.
  unfoldable pub grow : EPollPoller → ℕ → EPollPoller
  grow p num_events =
      if num_events == length p.event_list
      then record p {
        event_list =
            p.event_list ++ replicate (length p.event_list) (record { events = 0; ptr = 0 });
      }
      else p

  unfoldable pub fill_active_channels : EPollPoller → ℕ → Outcome EPollPoller
  fill_active_channels p num_events = do
    assert (leb num_events (length p.event_list))
    fill_loop (take num_events p.event_list) p

  -- `poll`, given the events that epoll_wait(2) returns; `none` is a wait that a signal interrupts, and a
  -- timeout no events. Any other error of epoll_wait(2) goes to LOG_SYSERR, and is not modelled.
  unfoldable pub poll : EPollPoller → Option (List EpollEvent) → Outcome EPollPoller
  poll p none = done (record p { active_channels = [] })
  poll p (some []) = done (record p { active_channels = [] })
  poll p (some (e ∷ es)) = do
    q ← fill_active_channels (filled p (e ∷ es)) (length (e ∷ es))
    done (grow q (length (e ∷ es)))

  abbrev pub k_event_list_size : ℕ
  k_event_list_size = 16

  unfoldable pub make : os.Kernel → (ℕ → Channel) → EPollPoller
  make kernel channels = record {
    channels = channels;
    channel_store = λ fd. none;
    kernel = kernel;
    event_list = replicate k_event_list_size (record { events = 0; ptr = 0 });
    active_channels = [];
  }
