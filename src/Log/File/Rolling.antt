-- ===== src/Log/File/Rolling.antt =====
-- How large the files get.
use tools_cxx.Prelude.{
  ℕ, suc, ◌+◌, ◌≤◌, ◌≡◌, refl, sym, ap, ◌∙◌, inl, inr, List, [], ◌∷◌, ◌++◌, append-nil, Bytes,
  arith, ltb, leb, take, length, All, Bool-cases, if_cases, not_ltb→le, length-append, length-take,
}
use tools_cxx.Prelude.Int.{eqb_ℤ}
use tools_cxx.Base.Timestamp.{Timestamp, get_period, get_seconds_since_epoch}
use tools_cxx.Log.File.{
  LogFile, Host, roll_file, make, write, flush, check_file, check, is_late, append_unlocked, Call,
  append, append_all,
}

-- `len` is the length of the line, and at most `longest`.
abbrev pub IsCall : ℕ → Call → Type 0
IsCall longest c = (c.len ≡ length c.line) × (c.len ≤ longest)

-- The count is that of the stream's bytes, it is within the limit between calls, and every stream so
-- far is at most one line over it.
pub record IsValid (longest : ℕ) (f : LogFile) : Type 0 where
  pub counted : f.written_bytes ≡ length (f.flushed ++ f.buffered)
  pub within : f.written_bytes ≤ f.roll_size
  pub bounded : All (λ s. length s.written ≤ f.roll_size + longest) f.closed

-- The same for a stream that a line has just been written to.
record IsWritten (longest : ℕ) (f : LogFile) : Type 0 where
  counted : f.written_bytes ≡ length (f.flushed ++ f.buffered)
  near : f.written_bytes ≤ f.roll_size + longest
  bounded : All (λ s. length s.written ≤ f.roll_size + longest) f.closed

make-IsValid :
    (host : Host) (basename : Bytes) (roll_size interval every longest : ℕ) (start : Timestamp)
    → IsValid longest (make host basename roll_size interval every start)
unfolding make
make-IsValid host basename roll_size interval every longest start = omega arith

write-IsWritten :
    (longest : ℕ) (f : LogFile) (c : Call)
    → IsCall longest c
    → IsValid longest f
    → IsWritten longest (write f c.line c.len)
unfolding write
write-IsWritten longest f c (exact, short) v = record {
  counted = omega (
    arith,
    v.counted,
    length-append f.flushed (f.buffered ++ take c.len c.line),
    length-append f.flushed f.buffered,
    length-append f.buffered (take c.len c.line),
    length-take c.len c.line,
  );
  near = omega (arith, v.within);
  bounded = v.bounded;
}

roll_file-IsValid :
    (longest : ℕ) (host : Host) (f : LogFile) (now : Timestamp)
    → IsWritten longest f
    → IsValid longest (roll_file host f now)
unfolding roll_file
roll_file-IsValid longest host f now v = record {
  counted = refl;
  within = omega arith;
  bounded = (omega (arith, v.counted, v.near), v.bounded);
}

flush-IsValid : (longest : ℕ) (f : LogFile) → IsValid longest f → IsValid longest (flush f)
unfolding flush
flush-IsValid longest f v = record {
  counted = v.counted ∙ ap length (sym (append-nil (f.flushed ++ f.buffered)));
  within = v.within;
  bounded = v.bounded;
}

check_file-IsValid :
    (longest : ℕ) (host : Host) (f : LogFile) (now later : Timestamp)
    → IsWritten longest f
    → f.written_bytes ≤ f.roll_size
    → IsValid longest (check_file host f now later)
unfolding check_file
check_file-IsValid longest host f now later v small =
    elim (Bool-cases (eqb_ℤ (get_period now) f.start_period)) [
      | inl same ↦
          rw (same, check_file)
            (flush-IsValid longest (record f { last_flush = get_seconds_since_epoch now })
              (record { counted = v.counted; within = small; bounded = v.bounded }))
      | inr new ↦
          rw (new, check_file)
            (let r = roll_file-IsValid longest host f later v in
              flush-IsValid longest
                (record (roll_file host f later) { last_flush = get_seconds_since_epoch now })
                (record { counted = r.counted; within = r.within; bounded = r.bounded }))
    ]

check-IsValid :
    (longest : ℕ) (host : Host) (f : LogFile) (now later : Timestamp)
    → IsWritten longest f
    → f.written_bytes ≤ f.roll_size
    → IsValid longest (check host f now later)
unfolding check
check-IsValid longest host f now later v small =
    if_cases (IsValid longest) (leb f.check_every_n f.count)
      (λ e.
        check_file-IsValid longest host (record f { count = 0 }) now later
          (record { counted = v.counted; near = v.near; bounded = v.bounded }) small)
      λ e.
        if_cases (IsValid longest) (is_late f now)
          (λ e. check_file-IsValid longest host f now later v small)
          (λ e. record { counted = v.counted; within = small; bounded = v.bounded })

append-IsValid :
    (longest : ℕ) (host : Host) (f : LogFile) (c : Call)
    → IsCall longest c
    → IsValid longest f
    → IsValid longest (append host f c)
unfolding append append_unlocked
append-IsValid longest host f c call v =
    let w = write f c.line c.len in
    let ww = write-IsWritten longest f c call v in
    if_cases (IsValid longest) (ltb w.roll_size w.written_bytes)
      (λ e. roll_file-IsValid longest host w c.later ww)
      λ e.
        check-IsValid longest host (record w { count = suc w.count }) c.now c.later
          (record { counted = ww.counted; near = ww.near; bounded = ww.bounded })
          (not_ltb→le w.roll_size w.written_bytes e)

append_all-IsValid :
    (longest : ℕ) (host : Host) (f : LogFile) (cs : List Call)
    → All (IsCall longest) cs
    → IsValid longest f
    → IsValid longest (append_all host f cs)
unfolding append_all
append_all-IsValid longest host f [] calls v = v
append_all-IsValid longest host f (c ∷ cs) calls v =
    append_all-IsValid longest host (append host f c) cs calls.1
      (append-IsValid longest host f c calls.0 v)

-- After any history of lines of at most `longest` bytes: the byte count is that of the open stream, it
-- is within the roll size, and no closed stream holds more than the roll size and one line.
pub append_all-sizes :
    (host : Host) (basename : Bytes) (roll_size interval every longest : ℕ) (start : Timestamp)
    (cs : List Call)
    → All (IsCall longest) cs
    → IsValid longest (append_all host (make host basename roll_size interval every start) cs)
append_all-sizes host basename roll_size interval every longest start cs calls =
    append_all-IsValid longest host _ cs calls
      (make-IsValid host basename roll_size interval every longest start)
