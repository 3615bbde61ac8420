-- ===== src/Prelude/Partial.antt =====
-- Code that may fail, and functions that stand for memories and maps.
use Prim.Native.Nat.{ℕ}
use mathlib.Core.Path.{◌≡◌, sym, ◌∙◌, fun_ext}
use mathlib.Core.Logic.{◌≢◌, ◌⊎◌, inl, inr}
use native.Mathlib.Omega.{arith}
use mathlib.Core.Bool.{Bool, true, false}
use mathlib.Core.Option.{Option, none, some}
use tools_cxx.Prelude.Tests.{◌==◌, if◌then◌else◌}

-- A function changed at one place.
abbrev pub update_at {ℓ} : {A : Type ℓ} → (ℕ → A) → ℕ → A → ℕ → A
update_at f k v j = if j == k then v else f j

infixl 5 ◌>>=◌ ◌>>◌
abbrev pub ◌>>=◌ {ℓ κ} : {A : Type ℓ} {B : Type κ} → Option A → (A → Option B) → Option B
none >>= f = none
some a >>= f = f a

abbrev pub ◌>>◌ {ℓ} : {B : Type ℓ} → Option (Unit {0}) → Option B → Option B
m >> k = m >>= λ _. k

abbrev pub assert : Bool → Option (Unit {0})
assert true = some tt
assert false = none

abbrev pub is_none {ℓ} : {A : Type ℓ} → Option A → Bool
is_none none = true
is_none (some a) = false

pub equal_or_not : (a b : ℕ) → (a ≡ b) ⊎ (a ≢ b)
equal_or_not a b = ground arith

module _ {ℓ} {A : Type ℓ} where
  pub update_at_self : (f : ℕ → A) (k : ℕ) (v : A) → update_at f k v k ≡ v
  update_at_self f k v = ground arith

  pub update_at_hit : (f : ℕ → A) (k : ℕ) (v : A) (j : ℕ) → j ≡ k → update_at f k v j ≡ v
  update_at_hit f k v j e = ground arith

  pub update_at-ne : (f : ℕ → A) (k : ℕ) (v : A) (j : ℕ) → j ≢ k → update_at f k v j ≡ f j
  update_at-ne f k v j ne = ground arith

  pub update_at_twice :
      (f : ℕ → A) (k : ℕ) (v w : A) → update_at (update_at f k v) k w ≡ update_at f k w
  update_at_twice f k v w = fun_ext (λ j. elim (equal_or_not j k) [
    | inl e ↦ update_at_hit (update_at f k v) k w j e ∙ sym (update_at_hit f k w j e)
    | inr ne ↦
        update_at-ne (update_at f k v) k w j ne
        ∙ update_at-ne f k v j ne
        ∙ sym (update_at-ne f k w j ne)
  ])
