-- ===== src/Config/File/Trim.antt =====
-- The item that a line defines, for lines with spaces at every place where the loader takes them.
use tools_cxx.Prelude.{
  ℕ, zero, suc, ◌≡◌, ◌≢◌, refl, ap, ◌∙◌, Bool, true, false, some, [], ◌∷◌, ◌++◌, arith, ◌==◌,
  if◌then◌else◌, Bytes, not, replicate, All,
}
use tools_cxx.Config.File.{trim_space, erase_front, erase_back, is_skipped, split_item}
use tools_cxx.Config.File.Lookup.{item_of}

abbrev pub spaces : ℕ → Bytes
spaces n = replicate n b' '

-- The text does not begin, or does not end, with a space.
abbrev pub starts : Bytes → Bool
starts [] = true
starts (c ∷ s) = not (c == b' ')

abbrev pub ends : Bytes → Bool
ends [] = true
ends (c ∷ []) = not (c == b' ')
ends (c ∷ d ∷ s) = ends (d ∷ s)

erase_front-spaces : (n : ℕ) (s : Bytes) → starts s ≡ true → erase_front (spaces n ++ s) ≡ s
erase_front-spaces zero [] h = refl
erase_front-spaces zero (c ∷ s) h = ground arith
erase_front-spaces (suc n) s h = erase_front-spaces n s h

-- What erasing makes of one more character in front.
kept_front : ℕ → Bytes → Bytes
kept_front c [] = if c == b' ' then [] else c ∷ []
kept_front c (d ∷ t) = c ∷ d ∷ t

erase_back_cons : (c : ℕ) (s t : Bytes) → erase_back s ≡ t → erase_back (c ∷ s) ≡ kept_front c t
unfolding kept_front
erase_back_cons c s [] e = rw (erase_back, e) refl
erase_back_cons c s (d ∷ t) e = rw (erase_back, e) refl

erase_back-spaces : (s : Bytes) (n : ℕ) → ends s ≡ true → erase_back (s ++ spaces n) ≡ s
unfolding kept_front
erase_back-spaces [] zero h = refl
erase_back-spaces [] (suc n) h = erase_back_cons b' ' (spaces n) [] (erase_back-spaces [] n refl)
erase_back-spaces (c ∷ []) n h =
    erase_back_cons c (spaces n) [] (erase_back-spaces [] n refl) ∙ ground arith
erase_back-spaces (c ∷ d ∷ s) n h =
    erase_back_cons c (d ∷ s ++ spaces n) (d ∷ s) (erase_back-spaces (d ∷ s) n h)

erase_front_all : (a b : ℕ) → erase_front (spaces a ++ spaces b) ≡ []
erase_front_all zero zero = refl
erase_front_all zero (suc b) = erase_front_all zero b
erase_front_all (suc a) b = erase_front_all a b

trim_space-erase : (s : Bytes) → trim_space s ≡ erase_back (erase_front s)
unfolding trim_space
trim_space-erase [] = refl
trim_space-erase (c ∷ s) = refl

pub trim_space-spaces :
    (a b : ℕ) (s : Bytes)
    → starts s ≡ true
    → ends s ≡ true
    → trim_space (spaces a ++ (s ++ spaces b)) ≡ s
trim_space-spaces a b [] h k =
    trim_space-erase (spaces a ++ spaces b) ∙ ap erase_back (erase_front_all a b) ∙ refl
trim_space-spaces a b (c ∷ s) h k =
    trim_space-erase (spaces a ++ (c ∷ s ++ spaces b))
    ∙ ap erase_back (erase_front-spaces a (c ∷ s ++ spaces b) h)
    ∙ erase_back-spaces (c ∷ s) b k

-- A name of this kind is not taken for a comment, and ends at the first `=`.
abbrev pub IsName : Bytes → Type 0
IsName [] = ⊥
IsName (c ∷ s) = (is_skipped (c ∷ s) ≡ false) × All (λ c. c ≢ b'=') (c ∷ s)

split_item-spaces :
    (n : ℕ) (content : Bytes) → split_item (spaces n ++ b'=' ∷ content) ≡ some (spaces n, content)
split_item-spaces zero content = refl
split_item-spaces (suc n) content = rw (split_item-spaces n content) refl

split_item-padded :
    (name content : Bytes) (n : ℕ)
    → All (λ c. c ≢ b'=') name
    → split_item (name ++ (spaces n ++ b'=' ∷ content)) ≡ some (name ++ spaces n, content)
split_item-padded [] content n h = split_item-spaces n content
split_item-padded (c ∷ name) content n h =
    rw (split_item-padded name content n h.1) (ground (arith, h.0))

split_item-indented :
    (m : ℕ) (name content : Bytes) (n : ℕ)
    → All (λ c. c ≢ b'=') name
    → split_item (spaces m ++ (name ++ (spaces n ++ b'=' ∷ content)))
      ≡ some (spaces m ++ (name ++ spaces n), content)
split_item-indented zero name content n h = split_item-padded name content n h
split_item-indented (suc m) name content n h = rw (split_item-indented m name content n h) refl

is_skipped-indented :
    (m : ℕ) (name rest : Bytes) → IsName name → is_skipped (spaces m ++ (name ++ rest)) ≡ false
is_skipped-indented m [] rest h = elim h [ ]
is_skipped-indented zero (c ∷ name) rest h = h.0
is_skipped-indented (suc m) (c ∷ name) rest h = refl

IsName-All : (name : Bytes) → IsName name → All (λ c. c ≢ b'=') name
IsName-All [] h = elim h [ ]
IsName-All (c ∷ name) h = h.1

-- A line with any number of spaces before and behind a name and before and behind its content defines
-- the name with that content. The name is not empty, has no `=` and no comment mark in front, and
-- neither text begins or ends with a space.
pub item_of-line :
    (a b c d : ℕ) (name content : Bytes)
    → IsName name
    → starts name ≡ true
    → ends name ≡ true
    → starts content ≡ true
    → ends content ≡ true
    → item_of (spaces a ++ (name ++ (spaces b ++ b'=' ∷ (spaces c ++ (content ++ spaces d)))))
      ≡ some (name, content)
item_of-line a b c d name content h s e t f =
    rw
      (
        item_of,
        is_skipped-indented a name (spaces b ++ b'=' ∷ (spaces c ++ (content ++ spaces d))) h,
        split_item-indented a name (spaces c ++ (content ++ spaces d)) b (IsName-All name h),
        trim_space-spaces a b name s e,
        trim_space-spaces c d content t f,
      )
      refl
