-- ===== src/Log/Buffer/Copy.antt =====
-- What `memcpy` does to the array, seen in front of and behind the bytes that it writes.
use tools_cxx.Prelude.{
  ℕ, suc, ◌+◌, ◌≤◌, ◌≡◌, refl, ◌∙◌, [], ◌∷◌, ◌++◌, append-nil, append_assoc, Bytes, arith, length,
  set, take, drop, length-set, take-suc-set, drop-set,
}
use tools_cxx.Log.Buffer.{memcpy}

pub length-memcpy : (cells : Bytes) (i : ℕ) (s : Bytes) → length (memcpy cells i s) ≡ length cells
unfolding memcpy
length-memcpy cells i [] = refl
length-memcpy cells i (c ∷ s) = length-memcpy (set cells i c) (suc i) s ∙ length-set cells i c

-- The text in front grows by the bytes copied.
pub take-memcpy :
    (cells : Bytes) (i : ℕ) (s : Bytes) (j : ℕ)
    → j ≡ i + length s
    → j ≤ length cells
    → take j (memcpy cells i s) ≡ take i cells ++ s
unfolding memcpy
take-memcpy cells i [] j e h = let e' : j ≡ i = omega arith in rw (e', append-nil)
take-memcpy cells i (c ∷ s) j e h =
    take-memcpy (set cells i c) (suc i) s j (omega arith) (omega (arith, length-set cells i c))
    ∙ rw (take-suc-set i cells c (omega arith), append_assoc)

-- The cells behind are as they were.
pub drop-memcpy :
    (cells : Bytes) (i : ℕ) (s : Bytes) (j : ℕ)
    → j ≡ i + length s
    → drop j (memcpy cells i s) ≡ drop j cells
unfolding memcpy
drop-memcpy cells i [] j e = refl
drop-memcpy cells i (c ∷ s) j e =
    drop-memcpy (set cells i c) (suc i) s j (omega arith) ∙ drop-set j i cells c (omega arith)
