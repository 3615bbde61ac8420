-- ===== src/Log/Buffer.antt =====
-- tools/log/LogBuffer.h and LogBuffer.cpp: a character array of fixed capacity that is written from
-- the front. `m_current - m_data` is the number `current`; the last cell is never written.
pub mod Copy
pub mod Refines
pub mod Text
use tools_cxx.Prelude.{
  ℕ, suc, ◌+◌, ◌-◌, ◌≤◌, ◌<◌, ◌≡◌, Bool, List, [], ◌∷◌, Bytes, ltb, if◌then◌else◌, length, set,
  take, drop, replicate,
}

-- `m_data` is the whole array, zeroed by the constructor.
pub record LogBuffer : Type 0 where
  pub capacity : ℕ
  pub data_cells : Bytes
  pub current : ℕ

-- The constructor; `m_capacity` is at least 1, for the byte that ends the text.
unfoldable pub make : ℕ → LogBuffer
make capacity = record { capacity = capacity; data_cells = replicate capacity 0; current = 0 }

-- `end()`, as an offset: the last cell.
abbrev pub end_of : LogBuffer → ℕ
end_of b = b.capacity - 1

unfoldable pub available : LogBuffer → Bool
available b = ltb b.current (end_of b)

abbrev pub buffer_length : LogBuffer → ℕ
buffer_length b = b.current

-- `memcpy(m_data + i, s, n)` for the `n` bytes `s`; a write outside of the array has no cell.
unfoldable pub memcpy : Bytes → ℕ → Bytes → Bytes
memcpy cells i [] = cells
memcpy cells i (c ∷ s) = memcpy (set cells i c) (suc i) s

-- The number of bytes that `append` copies: `m_current + len < end() ? len : end() - m_current`.
abbrev pub copy_length : LogBuffer → ℕ → ℕ
copy_length b len = if ltb (b.current + len) (end_of b) then len else end_of b - b.current

unfoldable pub append : LogBuffer → Bytes → ℕ → LogBuffer
unfolding memcpy
append b buf len = record b {
  data_cells = memcpy b.data_cells b.current (take (copy_length b len) buf);
  current = b.current + copy_length b len;
}

unfoldable pub append_char : LogBuffer → ℕ → LogBuffer
unfolding available
append_char b ch =
    if available b
    then record b { data_cells = set b.data_cells b.current ch; current = b.current + 1 }
    else b

unfoldable pub to_string : LogBuffer → Bytes
to_string b = take b.current b.data_cells

-- The array has its capacity, one cell is left for the final zero, and the rest is still zero.
pub record IsValid (b : LogBuffer) : Type 0 where
  pub sized : length b.data_cells ≡ b.capacity
  pub room : b.current < b.capacity
  pub zeroed : drop b.current b.data_cells ≡ replicate (b.capacity - b.current) 0
