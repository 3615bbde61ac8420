-- ===== src/Poller/Poll/Places.antt =====
-- Reading an array after a write, a `push_back` and a `pop_back`; reading a map after a change.
use tools_cxx.Prelude.{
  ℕ, zero, suc, ◌<◌, ◌≡◌, ◌≢◌, refl, ap, ◌⊎◌, inl, inr, some, List, [], ◌∷◌, ◌++◌, arith, length,
  get_elem?, set, take,
}

module _ {ℓ} {A : Type ℓ} where
  pub get_elem?-lt : (xs : List A) (i : ℕ) {x : A} → get_elem? xs i ≡ some x → i < length xs
  get_elem?-lt [] i e = cc
  get_elem?-lt (y ∷ ys) zero e = omega arith
  get_elem?-lt (y ∷ ys) (suc i) e = omega (arith, get_elem?-lt ys i e)

  pub get_elem?-some : (xs : List A) (i : ℕ) → i < length xs → (x : A) × (get_elem? xs i ≡ some x)
  get_elem?-some [] i h = absurd (omega arith)
  get_elem?-some (y ∷ ys) zero h = (y, refl)
  get_elem?-some (y ∷ ys) (suc i) h = get_elem?-some ys i (omega arith)

  pub get_elem?-append_left :
      (xs ys : List A) (i : ℕ) {x : A} → get_elem? xs i ≡ some x → get_elem? (xs ++ ys) i ≡ some x
  get_elem?-append_left [] ys i e = cc
  get_elem?-append_left (x ∷ xs) ys zero e = e
  get_elem?-append_left (x ∷ xs) ys (suc i) e = get_elem?-append_left xs ys i e

  pub get_elem?-append_last : (xs : List A) (x : A) → get_elem? (xs ++ x ∷ []) (length xs) ≡ some x
  get_elem?-append_last [] x = refl
  get_elem?-append_last (y ∷ ys) x = get_elem?-append_last ys x

  -- An entry behind a `push_back` is an old one or the new one.
  pub get_elem?-push :
      (xs : List A) (x : A) (i : ℕ) {y : A}
      → get_elem? (xs ++ x ∷ []) i ≡ some y
      → (get_elem? xs i ≡ some y) ⊎ ((i ≡ length xs) × (x ≡ y))
  get_elem?-push [] x zero e = inr (refl, cc)
  get_elem?-push [] x (suc i) e = cc
  get_elem?-push (z ∷ zs) x zero e = inl e
  get_elem?-push (z ∷ zs) x (suc i) e = elim (get_elem?-push zs x i e) [
    | inl old ↦ inl old
    | inr (last, new) ↦ inr (ap suc last, new)
  ]

  pub get_elem?-take :
      (n : ℕ) (xs : List A) (i : ℕ) → i < n → get_elem? (take n xs) i ≡ get_elem? xs i
  get_elem?-take zero xs i h = absurd (omega arith)
  get_elem?-take (suc n) [] i h = refl
  get_elem?-take (suc n) (x ∷ xs) zero h = refl
  get_elem?-take (suc n) (x ∷ xs) (suc i) h = get_elem?-take n xs i (omega arith)

  pub take-lt : (n : ℕ) (xs : List A) (i : ℕ) {x : A} → get_elem? (take n xs) i ≡ some x → i < n
  take-lt zero xs i e = cc
  take-lt (suc n) [] i e = cc
  take-lt (suc n) (x ∷ xs) zero e = omega arith
  take-lt (suc n) (x ∷ xs) (suc i) e = omega (arith, take-lt n xs i e)

  -- An entry behind a write is the one written or an old one of another place.
  pub get_elem?-set :
      (xs : List A) (i : ℕ) (v : A) (j : ℕ) {y : A}
      → get_elem? (set xs i v) j ≡ some y
      → ((i ≡ j) × (v ≡ y)) ⊎ ((i ≢ j) × (get_elem? xs j ≡ some y))
  get_elem?-set [] i v j e = cc
  get_elem?-set (x ∷ xs) zero v zero e = inl (refl, cc)
  get_elem?-set (x ∷ xs) zero v (suc j) e = inr (omega arith, e)
  get_elem?-set (x ∷ xs) (suc i) v zero e = inr (omega arith, e)
  get_elem?-set (x ∷ xs) (suc i) v (suc j) e = elim (get_elem?-set xs i v j e) [
    | inl (same, new) ↦ inl (ap suc same, new)
    | inr (other, old) ↦ inr (omega arith, old)
  ]
