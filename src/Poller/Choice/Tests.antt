-- ===== src/Poller/Choice/Tests.antt =====
-- Two channels that call their poller.
use tools_cxx.Prelude.{ℕ, ◌≡◌, refl, sym, inl, some, none, [], ◌∷◌, List, Option, true, false}
use tools_cxx.Prelude.Int.{negsuc}
use tools_cxx.Poller.Channel
use tools_cxx.Poller.Channel.{Channel}
use tools_cxx.Poller.Poll
use tools_cxx.Poller.Poll.Methods
use tools_cxx.Poller.Poll.{PollPoller}
use tools_cxx.Poller.EPoll.{after, done}
use tools_cxx.Poller.EPoll.Tests.{listing}
use tools_cxx.Poller.Choice.{
  Call, Method, enables_reading, enables_writing, removes, call_poll, Poller, create_poller,
  run_calls,
}
use tools_cxx.Poller.Choice.Calls.{Accepts, CanCallAll}
use tools_cxx.Poller.Choice.Same.{AsksFor, create_poller-AsksFor}

listing-Accepts : Accepts listing
listing-Accepts op fd event k fits = (after op fd event k, refl)

-- The channels lie at their descriptors.
abbrev idle : ℕ → Channel
idle c = record { fd = c; events = 0; revents = 0; index = negsuc 0 }

abbrev last_call : List Call
last_call = record { channel = 5; method = removes } ∷ []

abbrev later_calls : List Call
later_calls = record { channel = 6; method = enables_writing } ∷ last_call

abbrev all_calls : List Call
all_calls = record { channel = 5; method = enables_reading } ∷ later_calls

can_next :
    (p q : PollPoller) (c : ℕ) (m : Method) (calls : List Call)
    → call_poll p c m ≡ some q
    → CanCallAll q calls
    → (next : PollPoller) → call_poll p c m ≡ some next
    → CanCallAll next calls
can_next p q c m calls first can next second =
    let same : q ≡ next = cc (first, second) in rw (sym same) can

abbrev or_fresh : Option PollPoller → PollPoller
or_fresh none = Poll.make idle
or_fresh (some p) = p

abbrev after_one : PollPoller
after_one = or_fresh (call_poll (Poll.make idle) 5 enables_reading)

abbrev after_two : PollPoller
after_two = or_fresh (call_poll after_one 6 enables_writing)

all_calls-CanCallAll : CanCallAll (Poll.make idle) all_calls
unfolding Poll.make Methods.enable_reading Methods.enable_writing Methods.change Poll.update_channel
    Poll.add_channel Channel.add_reading Channel.add_writing
all_calls-CanCallAll = (
  inl (record { negative = refl; absent = refl }),
  can_next (Poll.make idle) after_one 5 enables_reading later_calls refl (
    inl (record { negative = refl; absent = refl }),
    can_next after_one after_two 6 enables_writing last_call refl (refl, λ next h. tt),
  ),
)

create_poller-AsksFor_example :
    (x y : Poller listing) × (run_calls listing
        (create_poller listing true (λ fd. none) idle)
        all_calls
      ≡ done x)
    × (run_calls listing (create_poller listing false (λ fd. none) idle) all_calls ≡ done y)
    × ((fd mask : ℕ)
        → (AsksFor listing x fd mask → AsksFor listing y fd mask)
          × (AsksFor listing y fd mask → AsksFor listing x fd mask))
create_poller-AsksFor_example =
    create_poller-AsksFor listing listing-Accepts (λ fd. none) idle all_calls (λ fd. refl)
      all_calls-CanCallAll
