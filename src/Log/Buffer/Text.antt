-- ===== src/Log/Buffer/Text.antt =====
-- The buffer as a text: it shows the first `capacity - 1` bytes of all that was written to it.
use Prim.Native.Nat.{min}
use tools_cxx.Prelude.{
  ℕ, ◌-◌, ◌<◌, ◌≡◌, refl, sym, ap, ◌∙◌, false, [], ◌∷◌, ◌++◌, append-nil, Bytes, arith, length,
  take, length-take, take-append, take-min-length, take-nil,
}
use tools_cxx.Log.Buffer.Refines.{
  append-IsValid, to_string-append, append_char-IsValid, to_string-append_char, make-IsValid,
}
use tools_cxx.Log.Buffer.{
  LogBuffer, IsValid, end_of, make, available, append, append_char, to_string,
}

pub record Holds (cap : ℕ) (b : LogBuffer) (text : Bytes) : Type 0 where
  pub valid : IsValid b
  pub fixed : b.capacity ≡ cap
  pub shows : to_string b ≡ take (cap - 1) text

pub length-to_string : (b : LogBuffer) → IsValid b → length (to_string b) ≡ b.current
unfolding to_string
length-to_string b v = omega (arith, length-take b.current b.data_cells, v.sized, v.room)

pub make-Holds : (n : ℕ) → 0 < n → Holds n (make n) []
unfolding make to_string
make-Holds n h = record { valid = make-IsValid n h; fixed = refl; shows = sym (take-nil (n - 1)) }

module _ (cap : ℕ) (b : LogBuffer) (text : Bytes) (h : Holds cap b text) where
  pub current-min : b.current ≡ min (cap - 1) (length text)
  current-min = sym (length-to_string b h.valid) ∙ ap length h.shows ∙ length-take (cap - 1) text

  left : end_of b - b.current ≡ (cap - 1) - length text
  left = omega (arith, current-min, h.fixed)

  -- Writing more text shows more of it, as far as there is room.
  grown : (s : Bytes) → to_string b ++ take (end_of b - b.current) s ≡ take (cap - 1) (text ++ s)
  grown s = rw (left, h.shows) (sym (take-append (cap - 1) text s))

  pub append-Holds : (s : Bytes) (n : ℕ) → n ≡ length s → Holds cap (append b s n) (text ++ s)
  append-Holds s n e = record {
    valid = append-IsValid b s n (omega arith) h.valid;
    fixed = unfold append in h.fixed;
    shows =
        to_string-append b s n (omega arith) h.valid
        ∙ ap (◌++◌ (to_string b)) (
            ap (λ m. take (min m (end_of b - b.current)) s) e
            ∙ take-min-length (end_of b - b.current) s)
        ∙ grown s;
  }

  pub append_char-Holds : (c : ℕ) → Holds cap (append_char b c) (text ++ c ∷ [])
  append_char-Holds c = record {
    valid = append_char-IsValid b c h.valid;
    fixed = unfold append_char in ground (arith, h.fixed);
    shows = to_string-append_char b c h.valid ∙ grown (c ∷ []);
  }

  -- A full buffer shows nothing of what would come next.
  pub full-Holds : (s : Bytes) → available b ≡ false → Holds cap b (text ++ s)
  unfolding available
  full-Holds s e = record {
    valid = h.valid;
    fixed = h.fixed;
    shows =
        let none_left : end_of b - b.current ≡ 0 = ground (arith, e) in
        sym (append-nil (to_string b)) ∙ (rw none_left at (grown s));
  }
