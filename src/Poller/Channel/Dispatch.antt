-- ===== src/Poller/Channel/Dispatch.antt =====
-- Which events call which callback, bit by bit.
use tools_cxx.Prelude.{
  ℕ, zero, suc, ◌/◌, ◌%◌, ◌^◌, ◌<◌, ◌≡◌, refl, ◌∙◌, Bool, true, false, Bool-cases, inl, inr, ap,
  append-nil, Option, none, some, ◌&&◌, ◌||◌, List, [], ◌∷◌, ◌++◌, arith, ◌==◌,
}
use tools_cxx.Poller.Channel.{
  any_of, read_event, write_event, error_event, close_event, pollnval, Callback, Callbacks,
  EventTest, event_tests, run_tests, on_read, on_write, on_error, on_close, call_if, handle_event,
}

-- Bit `k` of a mask.
abbrev pub bit : ℕ → ℕ → Bool
bit value k = value / 2 ^ k % 2 == 1

abbrev eqb : Bool → Bool → Bool
eqb true b = b
eqb false true = false
eqb false false = true

eqb_sound : (a b : Bool) → eqb a b ≡ true → a ≡ b
eqb_sound a b h = ground arith

-- One row of the table that is checked by evaluation.
row : ℕ → Bool
row v =
    eqb (any_of v read_event) (bit v 0 || bit v 1 || bit v 13)
    && (eqb (any_of v write_event) (bit v 2)
        && (eqb (any_of v error_event) (bit v 3)
            && (eqb (any_of v pollnval) (bit v 5) && eqb (any_of v close_event) (bit v 4))))

all_rows : ℕ → Bool
all_rows zero = true
all_rows (suc n) = row n && all_rows n

all_rows_sound : (n v : ℕ) → all_rows n ≡ true → v < n → row v ≡ true
unfolding all_rows
all_rows_sound zero v h lt = absurd (omega arith)
all_rows_sound (suc n) v h lt = ground (arith, all_rows_sound n v)

rows_hold : all_rows 0x4000 ≡ true
unfolding all_rows row
rows_hold = refl

and_true : (a b : Bool) → a && b ≡ true → (a ≡ true) × (b ≡ true)
and_true a b h = ground arith

masks_as_bits :
    (v : ℕ)
    → v < 0x4000
    → (any_of v read_event ≡ (bit v 0 || bit v 1 || bit v 13))
      × (any_of v write_event ≡ bit v 2)
      × (any_of v error_event ≡ bit v 3)
      × (any_of v pollnval ≡ bit v 5)
      × (any_of v close_event ≡ bit v 4)
unfolding row
masks_as_bits v lt =
    let (read, rest) = and_true _ _ (all_rows_sound 0x4000 v rows_hold lt) in
    let (write, rest) = and_true _ _ rest in
    let (error, rest) = and_true _ _ rest in
    let (nval, close) = and_true _ _ rest in
    (
      eqb_sound _ _ read,
      eqb_sound _ _ write,
      eqb_sound _ _ error,
      eqb_sound _ _ nval,
      eqb_sound _ _ close,
    )

-- The callbacks of a mask of returned events: the read callback for POLLIN, POLLPRI or POLLRDHUP, the
-- write callback for POLLOUT, the error callback once for POLLERR and once for POLLNVAL, the close
-- callback for POLLHUP; in this order, each if it is set.
pub handle_event-bits :
    (h : Callbacks) (v : ℕ)
    → v < 0x4000
    → handle_event h v
      ≡ call_if (bit v 0 || bit v 1 || bit v 13) h.has_read on_read
        ++ (call_if (bit v 2) h.has_write on_write
            ++ (call_if (bit v 3) h.has_error on_error
                ++ (call_if (bit v 5) h.has_error on_error
                    ++ call_if (bit v 4) h.has_close on_close)))
unfolding handle_event
handle_event-bits h v lt =
    let (read, write, error, nval, close) = masks_as_bits v lt in
    cc (read, write, error, nval, close)

-- The calls of some tests that all read the same mask.
abbrev calls_of : List EventTest → ℕ → List Callback
calls_of [] v = []
calls_of (t ∷ tests) v = call_if (any_of v t.mask) t.is_set t.callback ++ calls_of tests v

run_tests-calls_of :
    (effect : Callback → ℕ → Option ℕ) (v : ℕ)
    → ((c : Callback) → effect c v ≡ some v)
    → (tests : List EventTest) → run_tests effect tests v ≡ some (calls_of tests v)
unfolding run_tests
run_tests-calls_of effect v same [] = refl
run_tests-calls_of effect v same (t ∷ tests) = elim (Bool-cases (any_of v t.mask && t.is_set)) [
  | inl e ↦ rw (e, same t.callback, run_tests-calls_of effect v same tests) refl
  | inr e ↦ rw (e, run_tests-calls_of effect v same tests) refl
]

-- Callbacks that leave `m_revents` and the channel as they are: the calls are those of `handle_event`.
run_tests-handle_event :
    (effect : Callback → ℕ → Option ℕ) (h : Callbacks) (v : ℕ)
    → ((c : Callback) → effect c v ≡ some v)
    → run_tests effect (event_tests h) v ≡ some (handle_event h v)
unfolding handle_event
run_tests-handle_event effect h v same =
    run_tests-calls_of effect v same (event_tests h)
    ∙ ap
        (λ calls. some (
          call_if (any_of v read_event) h.has_read on_read
          ++ (call_if (any_of v write_event) h.has_write on_write
              ++ (call_if (any_of v error_event) h.has_error on_error
                  ++ (call_if (any_of v pollnval) h.has_error on_error ++ calls)))))
        (append-nil (call_if (any_of v close_event) h.has_close on_close))

-- A read callback that deletes its channel leaves the tests behind it undefined.
run_tests-deleted :
    (effect : Callback → ℕ → Option ℕ) (h : Callbacks) (v : ℕ)
    → any_of v read_event ≡ true
    → h.has_read ≡ true
    → effect on_read v ≡ none
    → run_tests effect (event_tests h) v ≡ none
unfolding run_tests
run_tests-deleted effect h v event read gone = rw (event, read, gone) refl

-- A hang-up that comes with input calls the read callback and then the close callback as well.
pub handle_event-hangup :
    (v : ℕ)
    → v < 0x4000
    → bit v 0 ≡ true
    → bit v 2 ≡ false
    → bit v 3 ≡ false
    → bit v 5 ≡ false
    → bit v 4 ≡ true
    → (h : Callbacks) → h.has_read ≡ true
    → h.has_close ≡ true
    → handle_event h v ≡ on_read ∷ on_close ∷ []
handle_event-hangup v lt input out err nval hup h read close =
    handle_event-bits h v lt ∙ ground arith
