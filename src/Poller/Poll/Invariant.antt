-- ===== src/Poller/Poll/Invariant.antt =====
-- The place of every registered channel: the invariant of the poller.
use tools_cxx.Prelude.{ℕ, ◌≡◌, ◌≢◌, none, some, arith, get_elem?}
use tools_cxx.Prelude.Int.{pos, negsuc}
use tools_cxx.Poller.Poll.Places.{get_elem?-lt}
use tools_cxx.Poller.Poll.{PollFd, PollPoller, entry_of}

-- The channel's entry: the table has it under its descriptor, and its index is the entry's place.
pub record IsPlaced (p : PollPoller) (c i : ℕ) (e : PollFd) : Type 0 where
  pub stored : p.channel_store e.fd ≡ some c
  pub indexed : (p.channels c).index ≡ pos i
  pub named : (p.channels c).fd ≡ e.fd
  pub entry : get_elem? p.pollfd_list i ≡ some e

-- Every channel of the table has an entry, and every entry a channel of the table.
pub record IsValid (p : PollPoller) : Type 0 where
  pub placed :
      (fd c : ℕ)
      → p.channel_store fd ≡ some c
      → (i : ℕ) × (e : PollFd) × (e.fd ≡ fd) × IsPlaced p c i e
  pub held : (i : ℕ) (e : PollFd) → get_elem? p.pollfd_list i ≡ some e → (c : ℕ) × IsPlaced p c i e

-- A channel that is not registered: no index, and no channel has its descriptor.
pub record IsNew (p : PollPoller) (c : ℕ) : Type 0 where
  pub negative : (p.channels c).index ≡ negsuc 0
  pub absent : p.channel_store (p.channels c).fd ≡ none

-- A call on the channel `c` makes `q` of `p`: the entries on other descriptors are old ones, and what
-- the table has under them and what the channels wait for is as it was; no other channel becomes new.
pub record IsFramed (p : PollPoller) (c : ℕ) (q : PollPoller) : Type 0 where
  pub entries :
      (j : ℕ) (f : PollFd)
      → get_elem? q.pollfd_list j ≡ some f
      → f.fd ≢ (p.channels c).fd
      → (i : ℕ) × (get_elem? p.pollfd_list i ≡ some f)
  pub store : (fd : ℕ) → fd ≢ (p.channels c).fd → q.channel_store fd ≡ p.channel_store fd
  pub negative : (d : ℕ) → d ≢ c → (q.channels d).index ≡ negsuc 0 → (p.channels d).index ≡ negsuc 0
  pub same_fd : (d : ℕ) → (q.channels d).fd ≡ (p.channels d).fd
  pub same_events : (d : ℕ) → (q.channels d).events ≡ (p.channels d).events

abbrev pub IsRegistered : PollPoller → ℕ → Type 0
IsRegistered p c = p.channel_store (p.channels c).fd ≡ some c

-- The place of a registered channel.
pub place_of :
    (p : PollPoller) (c : ℕ)
    → IsValid p
    → IsRegistered p c
    → (i : ℕ) × (e : PollFd) × IsPlaced p c i e
place_of p c v r = let (i, e, _, at) = v.placed (p.channels c).fd c r in (i, e, at)

-- Two places of one entry or of one channel are one.
pub same_channel :
    (p : PollPoller) (c d i : ℕ) (e : PollFd) → IsPlaced p c i e → IsPlaced p d i e → c ≡ d
same_channel p c d i e a b = cc (a.stored, b.stored)

pub same_index :
    (p : PollPoller) (c i j : ℕ) (e f : PollFd) → IsPlaced p c i e → IsPlaced p c j f → i ≡ j
same_index p c i j e f a b = cc (a.indexed, b.indexed)

-- The assertions of a registered channel hold.
pub entry_of-some :
    (p : PollPoller) (c i : ℕ) (e : PollFd) → IsPlaced p c i e → entry_of p c i ≡ some e
unfolding entry_of
entry_of-some p c i e at =
    ground (arith, at.stored, at.indexed, at.named, at.entry, get_elem?-lt p.pollfd_list i at.entry)
