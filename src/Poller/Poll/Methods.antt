-- ===== src/Poller/Poll/Methods.antt =====
-- The methods of a channel that change its mask and then hand it to its poller (Channel.h).
use tools_cxx.Prelude.{ℕ, ◌≡◌, refl, ap, ◌∙◌, ◌⊎◌, inl, inr, Bool, true, false, Option, some, arith}
use tools_cxx.Poller.Channel.{Channel, add_reading, drop_reading, add_writing, drop_writing}
use tools_cxx.Poller.Channel.Interest.{mask_of, Waits, switches}
use tools_cxx.Poller.Poll.Invariant.{IsPlaced, IsValid, IsNew, IsRegistered}
use tools_cxx.Poller.Poll.Update.{update_channel-IsValid}
use tools_cxx.Prelude.{update_at}
use tools_cxx.Poller.Poll.{PollFd, PollPoller, update_channel, remove_channel, pollfd_of, to_short}

-- The channel at an address, changed in memory.
unfoldable pub change : (Channel → Channel) → PollPoller → ℕ → PollPoller
change f p c = record p { channels = update_at p.channels c (f (p.channels c)) }

unfoldable pub enable_reading : PollPoller → ℕ → Option PollPoller
unfolding change
enable_reading p c = update_channel (change add_reading p c) c

unfoldable pub disable_reading : PollPoller → ℕ → Option PollPoller
unfolding change
disable_reading p c = update_channel (change drop_reading p c) c

unfoldable pub enable_writing : PollPoller → ℕ → Option PollPoller
unfolding change
enable_writing p c = update_channel (change add_writing p c) c

unfoldable pub disable_writing : PollPoller → ℕ → Option PollPoller
unfolding change
disable_writing p c = update_channel (change drop_writing p c) c

unfoldable pub remove : PollPoller → ℕ → Option PollPoller
remove p c = remove_channel p c

-- A change of the mask alone.
pub record KeepsPlace (f : Channel → Channel) : Type 0 where
  pub fd : (ch : Channel) → (f ch).fd ≡ ch.fd
  pub index : (ch : Channel) → (f ch).index ≡ ch.index
  pub events : (a b : Channel) → a.events ≡ b.events → (f a).events ≡ (f b).events

module _ (f : Channel → Channel) (k : KeepsPlace f) (p : PollPoller) (c : ℕ) where
  pub same_fd : (d : ℕ) → ((change f p c).channels d).fd ≡ (p.channels d).fd
  unfolding change
  same_fd d = ground (arith, k.fd (p.channels c))

  pub same_index : (d : ℕ) → ((change f p c).channels d).index ≡ (p.channels d).index
  unfolding change
  same_index d = ground (arith, k.index (p.channels c))

  change-IsPlaced : (d i : ℕ) (e : PollFd) → IsPlaced p d i e → IsPlaced (change f p c) d i e
  unfolding change
  change-IsPlaced d i e at = record {
    stored = at.stored;
    indexed = same_index d ∙ at.indexed;
    named = same_fd d ∙ at.named;
    entry = at.entry;
  }

  pub change-IsValid : IsValid p → IsValid (change f p c)
  unfolding change
  change-IsValid v = record {
    placed = λ fd d s.
        (let (i, e, named, at) = v.placed fd d s in (i, e, named, change-IsPlaced d i e at));
    held = λ i e s. (let (d, at) = v.held i e s in (d, change-IsPlaced d i e at));
  }

  pub change-ready :
      IsNew p c ⊎ IsRegistered p c → IsNew (change f p c) c ⊎ IsRegistered (change f p c) c
  unfolding change
  change-ready (inl n) =
      inl (record { negative = same_index c ∙ n.negative; absent = rw (same_fd c) n.absent })
  change-ready (inr r) = inr (rw (same_fd c) r)

  pub changed_mask : ((change f p c).channels c).events ≡ (f (p.channels c)).events
  unfolding change
  changed_mask = ground arith

-- The outcome of a method: no assertion fails, every place is right, and the channel's entry asks
-- poll(2) for the switches `r` and `w` on the channel's descriptor.
abbrev pub Asks : PollPoller → ℕ → Bool → Bool → Option PollPoller → Type 0
Asks p c r w o =
    (q : PollPoller) × (i : ℕ) × (e : PollFd) × (o ≡ some q)
    × IsValid q
    × IsPlaced q c i e
    × (e.fd ≡ (p.channels c).fd)
    × (e.events ≡ mask_of r w)
    × (e.revents ≡ 0)

short_mask : (r w : Bool) → to_short (mask_of r w) ≡ mask_of r w
short_mask true true = refl
short_mask true false = refl
short_mask false true = refl
short_mask false false = refl

method-Asks :
    (f : Channel → Channel) (k : KeepsPlace f) (p : PollPoller) (c : ℕ) (r w : Bool)
    → IsValid p
    → IsNew p c ⊎ IsRegistered p c
    → Waits (f (p.channels c)) r w
    → Asks p c r w (update_channel (change f p c) c)
method-Asks f k p c r w v ready waits =
    let (q, i, run, valid, at, _) =
      update_channel-IsValid (change f p c) c (change-IsValid f k p c v)
        (change-ready f k p c ready) in
    (
      q,
      i,
      pollfd_of ((change f p c).channels c),
      run,
      valid,
      at,
      same_fd f k p c c,
      ap to_short (changed_mask f k p c ∙ waits) ∙ short_mask r w,
      refl,
    )

pub add_reading-KeepsPlace : KeepsPlace add_reading
unfolding add_reading
add_reading-KeepsPlace = record { fd = λ ch. refl; index = λ ch. refl; events = λ a b e. rw e refl }

pub drop_reading-KeepsPlace : KeepsPlace drop_reading
unfolding drop_reading
drop_reading-KeepsPlace = record {
  fd = λ ch. refl;
  index = λ ch. refl;
  events = λ a b e. rw e refl;
}

pub add_writing-KeepsPlace : KeepsPlace add_writing
unfolding add_writing
add_writing-KeepsPlace = record { fd = λ ch. refl; index = λ ch. refl; events = λ a b e. rw e refl }

pub drop_writing-KeepsPlace : KeepsPlace drop_writing
unfolding drop_writing
drop_writing-KeepsPlace = record {
  fd = λ ch. refl;
  index = λ ch. refl;
  events = λ a b e. rw e refl;
}

-- On a channel that is new or registered and waits as the switches `r` and `w` say, each method sets
-- its own switch and leaves the other, in the channel's entry as in the channel.
pub methods-Asks :
    (p : PollPoller) (c : ℕ) (r w : Bool)
    → IsValid p
    → IsNew p c ⊎ IsRegistered p c
    → Waits (p.channels c) r w
    → Asks p c true w (enable_reading p c)
      × Asks p c false w (disable_reading p c)
      × Asks p c r true (enable_writing p c)
      × Asks p c r false (disable_writing p c)
unfolding enable_reading disable_reading enable_writing disable_writing
methods-Asks p c r w v ready waits =
    let (_, reads, no_reads, writes, no_writes, _) = switches (p.channels c) r w 0 waits in
    (
      method-Asks add_reading add_reading-KeepsPlace p c true w v ready reads,
      method-Asks drop_reading drop_reading-KeepsPlace p c false w v ready no_reads,
      method-Asks add_writing add_writing-KeepsPlace p c r true v ready writes,
      method-Asks drop_writing drop_writing-KeepsPlace p c r false v ready no_writes,
    )
