-- ===== src/Poller/Poll.antt =====
-- tools/poller/Poller.h, PollPoller.h and PollPoller.cpp: a table from file descriptors to channels, and
-- the array that is handed to poll(2), in which each channel knows its place. A channel is known by its
-- address; a failed `assert` and a null pointer are `none`.
pub mod Places
pub mod Invariant
pub mod Modify
pub mod Update
pub mod Swap
pub mod Remove
pub mod Methods
pub mod Active
use tools_cxx.Prelude.{
  ℕ, zero, suc, ◌+◌, ◌-◌, ◌%◌, ◌^◌, Bool, true, false, ◌&&◌, Option, none, some, List, [], ◌∷◌,
  ◌++◌, ltb, ◌==◌, if◌then◌else◌, length, get_elem?, set, take,
}
use tools_cxx.Prelude.{update_at, assert, is_none, ◌>>=◌, ◌>>◌}
use tools_cxx.Prelude.Int.{ℤ, pos, negsuc}
use tools_cxx.Poller.Channel.{Channel}

-- `struct pollfd`
pub record PollFd : Type 0 where
  pub fd : ℕ
  pub events : ℕ
  pub revents : ℕ

-- `channels` is the memory that the channels lie in, by address; `channel_store` is the map from
-- descriptors to addresses.
pub record PollPoller : Type 0 where
  pub channels : ℕ → Channel
  pub channel_store : ℕ → Option ℕ
  pub pollfd_list : List PollFd
  pub active_channels : List ℕ

unfoldable pub make : (ℕ → Channel) → PollPoller
make channels = record {
  channels = channels;
  channel_store = λ fd. none;
  pollfd_list = [];
  active_channels = [];
}

-- A map changed at one key.
abbrev pub set_index : (ℕ → Channel) → ℕ → ℤ → ℕ → Channel
set_index channels c i = update_at channels c (record (channels c) { index = i })

-- `static_cast<short>` of a mask.
abbrev pub to_short : ℕ → ℕ
to_short events = events % 2 ^ 16

-- `assert(m_channelStore[fd] == channel)`, behind the assertion that the key is there.
abbrev pub maps_to : (ℕ → Option ℕ) → ℕ → ℕ → Bool
maps_to store fd c = elim (store fd) [ none ↦ false | some d ↦ d == c ]

abbrev pub pollfd_of : Channel → PollFd
pollfd_of ch = record { fd = ch.fd; events = to_short ch.events; revents = 0 }

-- A channel with a negative index is new.
unfoldable pub add_channel : PollPoller → ℕ → Option PollPoller
add_channel p c = do
  let ch = p.channels c
  assert (is_none (p.channel_store ch.fd))
  let list = p.pollfd_list ++ pollfd_of ch ∷ []
  some (record p {
    channels = set_index p.channels c (pos (length list - 1));
    channel_store = update_at p.channel_store ch.fd (some c);
    pollfd_list = list;
  })

-- The assertions on a registered channel, and its entry.
unfoldable pub entry_of : PollPoller → ℕ → ℕ → Option PollFd
entry_of p c i = do
  let ch = p.channels c
  assert (maps_to p.channel_store ch.fd c)
  assert (ltb i (length p.pollfd_list))
  entry ← get_elem? p.pollfd_list i
  assert (entry.fd == ch.fd)
  some entry

unfoldable pub modify_channel : PollPoller → ℕ → ℕ → Option PollPoller
unfolding entry_of
modify_channel p c i = do
  entry ← entry_of p c i
  some (record p {
    pollfd_list =
        set p.pollfd_list i (record entry { events = to_short (p.channels c).events; revents = 0 });
  })

unfoldable pub update_channel : PollPoller → ℕ → Option PollPoller
unfolding add_channel modify_channel
update_channel p c = elim (p.channels c).index [
  | negsuc n ↦ add_channel p c
  | pos i ↦ modify_channel p c i
]

abbrev pub pop_back {ℓ} : {A : Type ℓ} → List A → List A
pop_back xs = take (length xs - 1) xs

-- The removed entry is exchanged with the last one, whose channel gets its place.
unfoldable pub swap_out : PollPoller → ℕ → PollFd → Option PollPoller
swap_out p i entry = do
  last ← get_elem? p.pollfd_list (length p.pollfd_list - 1)
  at_end ← p.channel_store last.fd
  some (record p {
    channels = set_index p.channels at_end (pos i);
    pollfd_list = pop_back (set (set p.pollfd_list i last) (length p.pollfd_list - 1) entry);
  })

unfoldable pub take_out : PollPoller → ℕ → PollFd → Option PollPoller
unfolding swap_out
take_out p i entry =
    if i == length p.pollfd_list - 1
    then some (record p { pollfd_list = pop_back p.pollfd_list })
    else swap_out p i entry

unfoldable pub remove_channel : PollPoller → ℕ → Option PollPoller
unfolding entry_of take_out
remove_channel p c = elim (p.channels c).index [
  | negsuc n ↦ none
  | pos i ↦ do
    entry ← entry_of p c i
    q ←
        take_out (record p { channel_store = update_at p.channel_store (p.channels c).fd none }) i
          entry
    some (record q { channels = set_index q.channels c (negsuc 0) })
]

-- The loop of `fill_active_channels`, over the array as poll(2) has filled it in.
unfoldable pub fill_loop : List PollFd → ℕ → PollPoller → Option PollPoller
fill_loop [] num_events p = some p
fill_loop (e ∷ es) zero p = some p
fill_loop (e ∷ es) (suc num_events) p = elim (ltb 0 e.revents) [
  | false ↦ fill_loop es (suc num_events) p
  | true ↦ elim (p.channel_store e.fd) [
    | none ↦ none
    | some c ↦ elim ((p.channels c).fd == e.fd) [
      | false ↦ none
      | true ↦ fill_loop es num_events (record p {
        channels = update_at p.channels c (record (p.channels c) { revents = e.revents });
        active_channels = p.active_channels ++ c ∷ [];
      })
    ]
  ]
]

-- What poll(2) returns: the number of entries with events and the filled array, or `failed` where a signal
-- interrupts it. Any other error goes to LOG_SYSERR, and is not modelled.
pub data PollResult : Type 0 where
  failed : PollResult
  returned : ℕ → List ℕ → PollResult

-- The kernel writes `revents` alone.
abbrev pub fill_in : List PollFd → List ℕ → List PollFd
fill_in [] rs = []
fill_in (e ∷ es) [] = e ∷ es
fill_in (e ∷ es) (r ∷ rs) = record e { revents = r } ∷ fill_in es rs

-- `poll`, given what the system call does; an interrupted wait or a timeout leaves no active channel.
unfoldable pub poll : PollPoller → PollResult → Option PollPoller
unfolding fill_loop
poll p failed = some (record p { active_channels = [] })
poll p (returned n rs) =
    let filled = fill_in p.pollfd_list rs in
    fill_loop filled n (record p { pollfd_list = filled; active_channels = [] })
