-- ===== src/Prelude/Slices.antt =====
-- Laws of `take`, `drop`, `set` and `replicate` over the native numbers.
use Prim.Native.Nat.{ℕ, zero, suc, ◌+◌, ◌-◌, ◌≤◌, ◌<◌, min}
use mathlib.Core.Path.{◌≡◌, refl, sym, ap, ◌∙◌}
use mathlib.Core.List.{List, [], ◌∷◌, ◌++◌}
use native.Mathlib.Omega.{arith}
use tools_cxx.Prelude.Lists.{length, set, take, drop, replicate}

module _ {ℓ} {A : Type ℓ} where
  pub take-length-append : (xs ys : List A) → take (length xs) (xs ++ ys) ≡ xs
  take-length-append [] ys = refl
  take-length-append (x ∷ xs) ys = ap (◌∷◌ x) (take-length-append xs ys)

  pub take-nil : (n : ℕ) → take {A = A} n [] ≡ []
  take-nil zero = refl
  take-nil (suc n) = refl

  pub take-all : (n : ℕ) (xs : List A) → length xs ≤ n → take n xs ≡ xs
  take-all zero [] h = refl
  take-all zero (x ∷ xs) h = absurd (omega arith)
  take-all (suc n) [] h = refl
  take-all (suc n) (x ∷ xs) h = ap (◌∷◌ x) (take-all n xs (omega arith))

  -- A write at `i` seen from the first `i + 1` elements.
  pub take-suc-set :
      (i : ℕ) (xs : List A) (c : A)
      → i < length xs
      → take (suc i) (set xs i c) ≡ take i xs ++ c ∷ []
  take-suc-set zero [] c h = absurd (omega arith)
  take-suc-set zero (x ∷ xs) c h = refl
  take-suc-set (suc i) [] c h = absurd (omega arith)
  take-suc-set (suc i) (x ∷ xs) c h = ap (◌∷◌ x) (take-suc-set i xs c (omega arith))

  -- A write at `i` is not seen behind it.
  pub drop-set : (j i : ℕ) (xs : List A) (c : A) → i < j → drop j (set xs i c) ≡ drop j xs
  drop-set zero i xs c h = absurd (omega arith)
  drop-set (suc j) i [] c h = refl
  drop-set (suc j) zero (x ∷ xs) c h = refl
  drop-set (suc j) (suc i) (x ∷ xs) c h = drop-set j i xs c (omega arith)

  pub drop-suc : (n : ℕ) (xs : List A) → drop (suc n) xs ≡ drop 1 (drop n xs)
  drop-suc zero xs = refl
  drop-suc (suc n) [] = refl
  drop-suc (suc n) (x ∷ xs) = drop-suc n xs

  drop-nil : (k : ℕ) → drop {A = A} k [] ≡ []
  drop-nil zero = refl
  drop-nil (suc k) = refl

  pub drop-drop : (k n : ℕ) (xs : List A) → drop k (drop n xs) ≡ drop (n + k) xs
  drop-drop k zero xs = ap (λ m. drop m xs) (omega arith)
  drop-drop k (suc n) [] = drop-nil k ∙ (let e : suc n + k ≡ suc (n + k) = omega arith in rw e)
  drop-drop k (suc n) (x ∷ xs) =
      let e : suc n + k ≡ suc (n + k) = omega arith in rw e (drop-drop k n xs)

  pub drop-replicate : (k n : ℕ) (a : A) → drop k (replicate n a) ≡ replicate (n - k) a
  drop-replicate zero n a = rw minus_zero
    where
      minus_zero : n - 0 ≡ n
      minus_zero = omega arith
  drop-replicate (suc k) zero a = rw zero_minus
    where
      zero_minus : 0 - suc k ≡ 0
      zero_minus = omega arith
  drop-replicate (suc k) (suc n) a = rw suc_minus (drop-replicate k n a)
    where
      suc_minus : suc n - suc k ≡ n - k
      suc_minus = omega arith

module _ {ℓ} {A : Type ℓ} where
  pub take-append :
      (n : ℕ) (xs ys : List A) → take n (xs ++ ys) ≡ take n xs ++ take (n - length xs) ys
  take-append zero xs ys = let e : 0 - length xs ≡ 0 = omega arith in rw e
  take-append (suc n) [] ys = let e : suc n - 0 ≡ suc n = omega arith in rw e
  take-append (suc n) (x ∷ xs) ys =
      let e : suc n - suc (length xs) ≡ n - length xs = omega arith in
      rw e (ap (◌∷◌ x) (take-append n xs ys))

  pub take-min-length : (n : ℕ) (xs : List A) → take (min (length xs) n) xs ≡ take n xs
  take-min-length n [] = take-nil _ ∙ sym (take-nil n)
  take-min-length zero (x ∷ xs) = let e : min (suc (length xs)) 0 ≡ 0 = omega arith in rw e
  take-min-length (suc n) (x ∷ xs) =
      let e : min (suc (length xs)) (suc n) ≡ suc (min (length xs) n) = omega arith in
      rw e (ap (◌∷◌ x) (take-min-length n xs))
