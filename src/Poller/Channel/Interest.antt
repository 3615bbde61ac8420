-- ===== src/Poller/Channel/Interest.antt =====
-- The masks that a channel can wait for are those of two switches, reading and writing.
use tools_cxx.Prelude.{ℕ, ◌+◌, ◌≡◌, refl, Bool, true, false, if◌then◌else◌}
use tools_cxx.Poller.Channel.{
  Channel, make, add_reading, drop_reading, add_writing, drop_writing, is_writing, k_read_event,
  k_write_event,
}

-- The mask of a pair of switches.
abbrev pub mask_of : Bool → Bool → ℕ
mask_of reading writing =
    (if reading then k_read_event else 0) + (if writing then k_write_event else 0)

-- A channel that waits for reading and writing as the switches say.
abbrev pub Waits : Channel → Bool → Bool → Type 0
Waits c reading writing = c.events ≡ mask_of reading writing

-- A new channel waits for nothing; each method sets its own switch and leaves the other; and
-- `is_writing` tells the second switch.
pub switches :
    (c : Channel) (r w : Bool) (fd : ℕ)
    → Waits c r w
    → Waits (make fd) false false
      × Waits (add_reading c) true w
      × Waits (drop_reading c) false w
      × Waits (add_writing c) r true
      × Waits (drop_writing c) r false
      × (is_writing c ≡ w)
unfolding make add_reading drop_reading add_writing drop_writing is_writing
switches c true true fd e = rw e (refl, refl, refl, refl, refl, refl)
switches c true false fd e = rw e (refl, refl, refl, refl, refl, refl)
switches c false true fd e = rw e (refl, refl, refl, refl, refl, refl)
switches c false false fd e = rw e (refl, refl, refl, refl, refl, refl)
