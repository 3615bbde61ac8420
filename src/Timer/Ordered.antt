-- ===== src/Timer/Ordered.antt =====
-- `std::set` as the timers use it: a list in strictly ascending order, which is searched and changed
-- by the order's test alone.
pub mod Laws
use tools_cxx.Prelude.{
  ℕ, suc, ◌≡◌, refl, ap, ◌⊎◌, inl, inr, ◌≢◌, Bool, true, false, not, List, [], ◌∷◌, ◌++◌, arith,
  if◌then◌else◌, Bool-cases, length, All,
}

-- What an order's test must satisfy.
pub record IsOrder {ℓ} {A : Type ℓ} (lt : A → A → Bool) : Type ℓ where
  pub irreflexive : (a : A) → lt a a ≡ false
  pub transitive : (a b c : A) → lt a b ≡ true → lt b c ≡ true → lt a c ≡ true
  pub connected : (a b : A) → lt a b ≡ false → lt b a ≡ false → a ≡ b

module _ {ℓ} {A : Type ℓ} (lt : A → A → Bool) where
  abbrev pub find : List A → A → Bool
  find [] a = false
  find (x ∷ xs) a = let rest = find xs a in if lt x a then rest else not (lt a x)

  abbrev pub insert : List A → A → List A
  insert [] a = a ∷ []
  insert (x ∷ xs) a =
      let rest = insert xs a in if lt x a then x ∷ rest else if lt a x then a ∷ x ∷ xs else x ∷ xs

  abbrev pub erase : List A → A → List A
  erase [] a = []
  erase (x ∷ xs) a =
      let rest = erase xs a in if lt x a then x ∷ rest else if lt a x then x ∷ xs else xs

  -- The elements in front of `lower_bound(a)`, and those from it on.
  abbrev pub below : List A → A → List A
  below [] a = []
  below (x ∷ xs) a = let rest = below xs a in if lt x a then x ∷ rest else []

  abbrev pub from : List A → A → List A
  from [] a = []
  from (x ∷ xs) a = let rest = from xs a in if lt x a then rest else x ∷ xs

  abbrev pub IsSorted : List A → Type ℓ
  IsSorted [] = Unit
  IsSorted (x ∷ xs) = All (λ y. lt x y ≡ true) xs × IsSorted xs

-- Membership in a list.
abbrev pub Has : {A : Type 0} → List A → A → Type 0
Has [] a = ⊥
Has (x ∷ xs) a = (a ≡ x) ⊎ Has xs a
