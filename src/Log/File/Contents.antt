-- ===== src/Log/File/Contents.antt =====
-- The files together hold every line, once and in order.
use tools_cxx.Prelude.{
  ℕ, suc, ◌≡◌, suc, refl, refl, sym, ap, ◌∙◌, inl, inr, List, [], ◌∷◌, ◌++◌, append-nil,
  append_assoc, Bytes, take, Bool-cases, if_cases, leb, ltb,
}
use tools_cxx.Prelude.Int.{eqb_ℤ}
use tools_cxx.Base.Timestamp.{Timestamp, get_period, get_seconds_since_epoch}
use tools_cxx.Log.File.{
  Segment, LogFile, Host, roll_file, make, write, flush, check_file, check, is_late,
  append_unlocked, Call, append, append_all,
}

-- All that the closed streams wrote, the oldest first.
unfoldable pub closed_text : List Segment → Bytes
closed_text [] = []
closed_text (s ∷ ss) = closed_text ss ++ s.written

-- All that was ever written, in the files and in the stream's buffer.
abbrev pub total_text : LogFile → Bytes
total_text f = closed_text f.closed ++ (f.flushed ++ f.buffered)

unfoldable pub calls_text : List Call → Bytes
calls_text [] = []
calls_text (c ∷ cs) = take c.len c.line ++ calls_text cs

roll_file-total :
    (host : Host) (f : LogFile) (now : Timestamp) → total_text (roll_file host f now) ≡ total_text f
unfolding roll_file closed_text
roll_file-total host f now = append-nil _

flush-total : (f : LogFile) → total_text (flush f) ≡ total_text f
unfolding flush
flush-total f = ap (◌++◌ (closed_text f.closed)) (append-nil _)

check_file-total :
    (host : Host) (f : LogFile) (now later : Timestamp)
    → total_text (check_file host f now later) ≡ total_text f
unfolding check_file
check_file-total host f now later = elim (Bool-cases (eqb_ℤ (get_period now) f.start_period)) [
  | inl same ↦
      rw (same, check_file) (flush-total (record f { last_flush = get_seconds_since_epoch now }))
  | inr new ↦
      rw (new, check_file)
        (flush-total (record (roll_file host f later) { last_flush = get_seconds_since_epoch now })
          ∙ roll_file-total host f later)
]

write-total :
    (f : LogFile) (line : Bytes) (len : ℕ)
    → total_text (write f line len) ≡ total_text f ++ take len line
unfolding write
write-total f line len = simp append_assoc

check-total :
    (host : Host) (f : LogFile) (now later : Timestamp)
    → total_text (check host f now later) ≡ total_text f
unfolding check
check-total host f now later =
    if_cases (λ g. total_text g ≡ total_text f) (leb f.check_every_n f.count)
      (λ e. check_file-total host (record f { count = 0 }) now later)
      λ e.
        if_cases (λ g. total_text g ≡ total_text f) (is_late f now)
          (λ e. check_file-total host f now later) (λ e. refl)

append-total :
    (host : Host) (f : LogFile) (c : Call)
    → total_text (append host f c) ≡ total_text f ++ take c.len c.line
unfolding append append_unlocked
append-total host f c =
    let w = write f c.line c.len in
    let written = write-total f c.line c.len in
    if_cases (λ g. total_text g ≡ total_text f ++ take c.len c.line)
      (ltb w.roll_size w.written_bytes) (λ e. roll_file-total host w c.later ∙ written)
      (λ e. check-total host (record w { count = suc w.count }) c.now c.later ∙ written)

append_all-total :
    (host : Host) (f : LogFile) (cs : List Call)
    → total_text (append_all host f cs) ≡ total_text f ++ calls_text cs
unfolding append_all calls_text
append_all-total host f [] = sym (append-nil (total_text f))
append_all-total host f (c ∷ cs) =
    append_all-total host (append host f c) cs
    ∙ ap (λ t. t ++ calls_text cs) (append-total host f c)
    ∙ append_assoc (total_text f) (take c.len c.line) (calls_text cs)

-- However the log rolls over, the files and the stream's buffer together hold every appended line,
-- once and in the order of the calls.
pub total_text-append_all :
    (host : Host) (basename : Bytes) (roll_size interval every : ℕ) (start : Timestamp)
    (cs : List Call)
    → total_text (append_all host (make host basename roll_size interval every start) cs)
      ≡ calls_text cs
unfolding make closed_text
total_text-append_all host basename roll_size interval every start cs =
    append_all-total host (make host basename roll_size interval every start) cs

-- A flush leaves nothing in the stream's buffer, so the files alone hold every line.
pub flush-append_all :
    (host : Host) (basename : Bytes) (roll_size interval every : ℕ) (start : Timestamp)
    (cs : List Call)
    → let f = flush (append_all host (make host basename roll_size interval every start) cs) in
      (f.buffered ≡ []) × (closed_text f.closed ++ f.flushed ≡ calls_text cs)
unfolding flush
flush-append_all host basename roll_size interval every start cs =
    (refl, total_text-append_all host basename roll_size interval every start cs)
