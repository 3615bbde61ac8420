-- ===== src/Poller/Tests.antt =====
-- The theorems on the poller at concrete inputs.
use tools_cxx.Prelude.{
  ℕ, suc, ◌+◌, ◌≡◌, refl, subst, inl, inr, true, false, ◌||◌, none, some, [], ◌∷◌, ◌++◌, map, arith,
  get_elem?, ◌==◌, if◌then◌else◌,
}
use tools_cxx.Prelude.Int.{pos, negsuc}
use tools_cxx.Poller.Channel.{
  Channel, Callbacks, on_read, on_write, on_error, on_close, call_if, handle_event,
}
use tools_cxx.Poller.Channel.Dispatch.{bit, handle_event-bits, handle_event-hangup}
use tools_cxx.Poller.Poll.Invariant.{IsPlaced, IsValid, IsNew, IsFramed}
use tools_cxx.Poller.Poll.Update.{update_channel-IsValid}
use tools_cxx.Poller.Poll.Remove.{IsRemoved, remove_channel-IsRemoved}
use tools_cxx.Poller.Poll.Methods.{
  Asks, enable_reading, disable_reading, enable_writing, disable_writing, methods-Asks,
}
use tools_cxx.Poller.Poll.Active.{ready, channels_of, poll-active}
use tools_cxx.Poller.Poll.{
  PollFd, PollPoller, update_channel, remove_channel, pollfd_of, poll, returned, fill_in,
}

-- Channel `a` has descriptor `a + 3` in these tests.
abbrev fresh_channels : ℕ → Channel
fresh_channels a = record { fd = a + 3; events = 0; revents = 0; index = negsuc 0 }

abbrev empty : PollPoller
empty = record {
  channels = fresh_channels;
  channel_store = λ fd. none;
  pollfd_list = [];
  active_channels = [];
}

empty-IsValid : IsValid empty
empty-IsValid = record { placed = λ fd c s. cc; held = λ i e s. cc }

empty-IsNew : IsNew empty 1
empty-IsNew = record { negative = refl; absent = refl }

-- One channel, at address 1 with descriptor 4, that waits for reading.
abbrev entry : PollFd
entry = record { fd = 4; events = 3; revents = 0 }

abbrev single : PollPoller
single = record {
  channels = λ a. record {
    fd = a + 3;
    events = 3;
    revents = 0;
    index = if a == 1 then pos 0 else negsuc 0;
  };
  channel_store = λ fd. if fd == 4 then some 1 else none;
  pollfd_list = entry ∷ [];
  active_channels = [];
}

single-IsPlaced : IsPlaced single 1 0 entry
single-IsPlaced = record { stored = refl; indexed = refl; named = refl; entry = refl }

single-placed : (fd c : ℕ) → single.channel_store fd ≡ some c → (fd ≡ 4) × (c ≡ 1)
single-placed fd c s = ground arith

single-IsValid : IsValid single
single-IsValid = record {
  placed =
      λ fd c s. (let (e, e') = single-placed fd c s in (0, entry, (rw e), rw e' single-IsPlaced));
  held = single_held;
}
  where
    single_held :
        (i : ℕ) (e : PollFd)
        → get_elem? single.pollfd_list i ≡ some e
        → (c : ℕ) × IsPlaced single c i e
    single_held ℕ.zero e s = (1, subst (IsPlaced single 1 0) (cc) single-IsPlaced)
    single_held (suc i) e s = cc

update_channel-IsValid_example :
    (q : PollPoller) × (i : ℕ) × (update_channel empty 1 ≡ some q)
    × IsValid q
    × IsPlaced q 1 i (pollfd_of (fresh_channels 1))
    × IsFramed empty 1 q
update_channel-IsValid_example = update_channel-IsValid empty 1 empty-IsValid (inl empty-IsNew)

remove_channel-IsRemoved_example :
    (q : PollPoller) × (remove_channel single 1 ≡ some q) × IsRemoved single q 1
remove_channel-IsRemoved_example = remove_channel-IsRemoved single 1 single-IsValid refl

read_then_write :
    Asks single 1 true false (enable_reading single 1)
    × Asks single 1 false false (disable_reading single 1)
    × Asks single 1 true true (enable_writing single 1)
    × Asks single 1 true false (disable_writing single 1)
read_then_write = methods-Asks single 1 true false single-IsValid (inr refl) refl

poll-active_example :
    (q : PollPoller) × (poll single (returned 1 (1 ∷ [])) ≡ some q)
    × (map some q.active_channels
        ≡ channels_of single.channel_store (ready (fill_in single.pollfd_list (1 ∷ []))))
poll-active_example = poll-active single 1 (1 ∷ []) single-IsValid (unfold ready in refl)

abbrev all_set : Callbacks
all_set = record { has_read = true; has_write = true; has_close = true; has_error = true }

read_and_write_bits :
    handle_event all_set 5
    ≡ call_if (bit 5 0 || bit 5 1 || bit 5 13) true on_read
      ++ (call_if (bit 5 2) true on_write
          ++ (call_if (bit 5 3) true on_error
              ++ (call_if (bit 5 5) true on_error ++ call_if (bit 5 4) true on_close)))
read_and_write_bits = handle_event-bits all_set 5 (omega arith)

handle_event-hangup_example : handle_event all_set 0x11 ≡ on_read ∷ on_close ∷ []
handle_event-hangup_example =
    handle_event-hangup 0x11 (omega arith) refl refl refl refl refl all_set refl refl
