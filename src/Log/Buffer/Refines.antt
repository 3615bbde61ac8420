-- ===== src/Log/Buffer/Refines.antt =====
-- The buffer refines a text that grows at its end and is cut off at `capacity - 1` bytes.
use Prim.Native.Nat.{min}
use tools_cxx.Prelude.{
  ℕ, suc, ◌+◌, ◌-◌, ◌≤◌, ◌<◌, ◌≡◌, sym, ap, ◌∙◌, inl, inr, [], ◌∷◌, ◌++◌, append-nil, Bytes, arith,
  ltb, Bool-cases, length, take, drop, replicate, length-take, length-replicate, length-set,
  take-suc-set, drop-set, drop-drop, drop-replicate, take-all,
}
use tools_cxx.Log.Buffer.Copy.{length-memcpy, take-memcpy, drop-memcpy}
use tools_cxx.Log.Buffer.{
  LogBuffer, IsValid, make, end_of, available, copy_length, append, append_char, to_string,
}

pub make-IsValid : (n : ℕ) → 0 < n → IsValid (make n)
unfolding make
make-IsValid n h = record {
  sized = length-replicate n 0;
  room = h;
  zeroed = ap (λ k. replicate k 0) (omega arith);
}

-- The cells left of a zeroed tail are zero.
zeroed_tail :
    (b : LogBuffer) (k : ℕ)
    → IsValid b
    → drop (b.current + k) b.data_cells ≡ replicate (b.capacity - (b.current + k)) 0
zeroed_tail b k v =
    sym (drop-drop k b.current b.data_cells)
    ∙ ap (drop k) v.zeroed
    ∙ drop-replicate k (b.capacity - b.current) 0
    ∙ ap (λ n. replicate n 0) (omega arith)

copied :
    (b : LogBuffer) (buf : Bytes) (len : ℕ)
    → len ≤ length buf
    → length (take (copy_length b len) buf) ≡ copy_length b len
copied b buf len h = ground (arith, length-take (copy_length b len) buf)

copy_fits : (b : LogBuffer) (len : ℕ) → IsValid b → b.current + copy_length b len < b.capacity
copy_fits b len v = ground arith

copy_length-min :
    (b : LogBuffer) (len : ℕ) → IsValid b → copy_length b len ≡ min len (end_of b - b.current)
copy_length-min b len v = ground arith

pub append-IsValid :
    (b : LogBuffer) (buf : Bytes) (len : ℕ)
    → len ≤ length buf
    → IsValid b
    → IsValid (append b buf len)
unfolding append
append-IsValid b buf len h v = record {
  sized = length-memcpy b.data_cells b.current (take (copy_length b len) buf) ∙ v.sized;
  room = copy_fits b len v;
  zeroed =
      drop-memcpy b.data_cells b.current (take (copy_length b len) buf) _
        (ap (◌+◌ b.current) (sym (copied b buf len h)))
      ∙ zeroed_tail b (copy_length b len) v;
}

-- `append` adds the first bytes of `buf`, as many as there is room for.
pub to_string-append :
    (b : LogBuffer) (buf : Bytes) (len : ℕ)
    → len ≤ length buf
    → IsValid b
    → to_string (append b buf len) ≡ to_string b ++ take (min len (end_of b - b.current)) buf
unfolding append to_string
to_string-append b buf len h v =
    take-memcpy b.data_cells b.current _ _ (ap (◌+◌ b.current) (sym (copied b buf len h)))
      (omega (arith, copy_fits b len v, v.sized))
    ∙ ap (λ n. take b.current b.data_cells ++ take n buf) (copy_length-min b len v)

pub append_char-IsValid : (b : LogBuffer) (ch : ℕ) → IsValid b → IsValid (append_char b ch)
unfolding append_char
append_char-IsValid b ch v = elim (Bool-cases (ltb b.current (end_of b))) [
  | inl free ↦
      rw (free, append_char, available)
        (record {
          sized = length-set b.data_cells b.current ch ∙ v.sized;
          room = ground arith;
          zeroed =
              drop-set (b.current + 1) b.current b.data_cells ch (omega arith) ∙ zeroed_tail b 1 v;
        })
  | inr full ↦ rw (full, append_char, available) v
]

pub to_string-append_char :
    (b : LogBuffer) (ch : ℕ)
    → IsValid b
    → to_string (append_char b ch) ≡ to_string b ++ take (end_of b - b.current) (ch ∷ [])
unfolding append_char to_string
to_string-append_char b ch v = elim (Bool-cases (ltb b.current (end_of b))) [
  | inl free ↦
      let more : b.current + 1 ≡ suc b.current = omega arith in
      let left : end_of b - b.current ≡ suc (end_of b - b.current - 1) = ground arith in
      rw
        (
          take-all (end_of b - b.current) (ch ∷ []) (omega (arith, left)),
          free,
          append_char,
          available,
          more,
        )
        (take-suc-set b.current b.data_cells ch (omega (arith, v.sized)))
  | inr full ↦
      let left : end_of b - b.current ≡ 0 = ground arith in
      rw (left, full, append_char, available, append-nil)
]
