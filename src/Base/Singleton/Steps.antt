-- ===== src/Base/Singleton/Steps.antt =====
-- The steps of the threads: at most one is in `init`, and those behind it have the object.
use native.Mathlib.Decide.{ℕ_discrete}
use tools_cxx.Prelude.{
  ℕ, suc, ◌≡◌, ◌≢◌, refl, sym, ap, ◌∙◌, subst, Bool, none, some, [], ◌∷◌, if◌then◌else◌, update_at,
  update_at_hit, update_at-ne,
}
use tools_cxx.Base.Singleton.{
  untouched, running, over, Pc, calling, constructing, assigning, registering, checking, returned,
  failed, Singleton, make, at_pc, Move, enter, pass, construct, set_instance, register, find, fail,
  again, Reaches, stays, goes,
}

-- What the thread in `init` has done so far.
abbrev pub HasBegun : Singleton → Pc → Type 0
HasBegun s constructing = (s.made ≡ []) × (s.instance_at ≡ none)
HasBegun s (assigning a) = (s.made ≡ a ∷ []) × (s.instance_at ≡ none)
HasBegun s registering = (a : ℕ) × (s.made ≡ a ∷ []) × (s.instance_at ≡ some a)
HasBegun s calling = ⊥
HasBegun s checking = ⊥
HasBegun s (returned a) = ⊥
HasBegun s failed = ⊥

-- A thread outside `init`, which has returned nothing but the object at `a`.
abbrev pub IsServed : ℕ → Pc → Type 0
IsServed a calling = Unit
IsServed a checking = Unit
IsServed a (returned b) = b ≡ a
IsServed a constructing = ⊥
IsServed a (assigning b) = ⊥
IsServed a registering = ⊥
IsServed a failed = ⊥

abbrev pub handlers_of : Bool → ℕ
handlers_of no_destroy = if no_destroy then 0 else 1

pub data IsSafe (no_destroy : Bool) (s : Singleton) : Type 0 where
  fresh :
      s.once ≡ untouched
      → s.made ≡ []
      → s.instance_at ≡ none
      → s.handlers ≡ 0
      → s.freed ≡ []
      → ((t : ℕ) → s.threads t ≡ calling)
      → IsSafe no_destroy s
  begun :
      (u : ℕ)
      → s.once ≡ running
      → HasBegun s (s.threads u)
      → s.handlers ≡ 0
      → s.freed ≡ []
      → ((t : ℕ) → t ≢ u → s.threads t ≡ calling)
      → IsSafe no_destroy s
  ended :
      (a : ℕ)
      → s.once ≡ over
      → s.made ≡ a ∷ []
      → s.instance_at ≡ some a
      → s.handlers ≡ handlers_of no_destroy
      → s.freed ≡ []
      → ((t : ℕ) → IsServed a (s.threads t))
      → IsSafe no_destroy s

module _ (n : Bool) (s : Singleton) (t : ℕ) where
  -- The other threads while `t` goes on.
  at_self : (pc : Pc) → update_at s.threads t pc t ≡ pc
  at_self pc = update_at_hit s.threads t pc t refl

  others :
      (pc : Pc)
      → ((u : ℕ) → u ≢ t → s.threads u ≡ calling)
      → (u : ℕ) → u ≢ t
      → update_at s.threads t pc u ≡ calling
  others pc h u ne = update_at-ne s.threads t pc u ne ∙ h u ne

  served :
      (a : ℕ) (pc : Pc)
      → IsServed a pc
      → ((u : ℕ) → u ≢ t → IsServed a (s.threads u))
      → (u : ℕ) → IsServed a (update_at s.threads t pc u)
  served a pc here there u = elim (ℕ_discrete u t) [
    | yes same ↦ subst (IsServed a) (sym (update_at_hit s.threads t pc u same)) here
    | no ne ↦ subst (IsServed a) (sym (update_at-ne s.threads t pc u ne)) (there u ne)
  ]

  -- While a thread is in `init`, a thread that is not calling is that one.
  pub is_begun :
      (u : ℕ) (pc : Pc)
      → HasBegun s (s.threads u)
      → ((v : ℕ) → v ≢ u → s.threads v ≡ calling)
      → s.threads t ≡ pc
      → pc ≢ calling
      → HasBegun s pc × (t ≡ u)
  is_begun u pc b h at ne = elim (ℕ_discrete t u) [
    | yes same ↦ (subst (HasBegun s) (ap s.threads (sym same) ∙ at) b, same)
    | no other ↦ absurd (ne (sym at ∙ h t other))
  ]

  -- A thread that is neither calling nor served is the one in `init`.
  in_init :
      (pc : Pc)
      → s.threads t ≡ pc
      → IsSafe n s
      → pc ≢ calling
      → ((a : ℕ) → IsServed a pc → ⊥)
      → HasBegun s pc
        × (s.once ≡ running)
        × (s.handlers ≡ 0)
        × (s.freed ≡ [])
        × ((u : ℕ) → u ≢ t → s.threads u ≡ calling)
  in_init pc at (fresh o m i k d h) ne not_so = absurd (ne (sym at ∙ h t))
  in_init pc at (begun u o b k d h) ne not_so =
      let (here, same) = is_begun u pc b h at ne in
      (here, o, k, d, λ v other. h v (λ e. other (e ∙ sym same)))
  in_init pc at (ended a o m i k d h) ne not_so = absurd (not_so a (subst (IsServed a) at (h t)))

  -- A thread that is neither calling nor in `init` stands behind it.
  behind :
      (pc : Pc)
      → s.threads t ≡ pc
      → IsSafe n s
      → pc ≢ calling
      → (HasBegun s pc → ⊥)
      → (a : ℕ) × IsServed a pc
        × (s.instance_at ≡ some a)
        × ((next : Pc) → IsServed a next → IsSafe n (at_pc s t next))
  behind pc at (fresh o m i k d h) ne not_so = absurd (ne (sym at ∙ h t))
  behind pc at (begun u o b k d h) ne not_so = absurd (not_so (is_begun u pc b h at ne).0)
  behind pc at (ended a o m i k d h) ne not_so = (
    a,
    subst (IsServed a) at (h t),
    i,
    λ next is. ended a o m i k d (served a next is (λ u other. h u)),
  )

  Move-IsSafe :
      (pc : Pc) (next : Singleton)
      → s.threads t ≡ pc
      → IsSafe n s
      → Move n s t pc next
      → IsSafe n next
  Move-IsSafe calling next at (fresh o m i k d h) (enter e) =
      begun t refl (subst (HasBegun next) (sym (at_self constructing)) (m, i)) k d
        (others constructing (λ u ne. h u))
  Move-IsSafe calling next at (begun u o b k d h) (enter e) = absurd (cc (o, e))
  Move-IsSafe calling next at (ended a o m i k d h) (enter e) = absurd (cc (o, e))
  Move-IsSafe calling next at (fresh o m i k d h) (pass e) = absurd (cc (o, e))
  Move-IsSafe calling next at (begun u o b k d h) (pass e) = absurd (cc (o, e))
  Move-IsSafe calling next at (ended a o m i k d h) (pass e) =
      ended a o m i k d (served a checking tt (λ u ne. h u))
  Move-IsSafe constructing next at safe (construct a) =
      let ((m, i), o, k, d, h) = in_init constructing at safe (λ e. cc e) (λ b is. is) in
      begun t o (subst (HasBegun next) (sym (at_self (assigning a))) (ap (◌∷◌ a) m, i)) k d
        (others (assigning a) h)
  Move-IsSafe (assigning a) next at safe (set_instance _) =
      let ((m, i), o, k, d, h) = in_init (assigning a) at safe (λ e. cc e) (λ b is. is) in
      begun t o (subst (HasBegun next) (sym (at_self registering)) (a, m, refl)) k d
        (others registering h)
  Move-IsSafe registering next at safe register =
      let ((a, m, i), o, k, d, h) = in_init registering at safe (λ e. cc e) (λ b is. is) in
      ended a refl m i (ap (λ x. if n then x else suc x) k) d
        (served a checking tt (λ u ne. subst (IsServed a) (sym (h u ne)) tt))
  Move-IsSafe checking next at safe (find a e) =
      let (b, here, i, safe_at) = behind checking at safe (λ q. cc q) (λ is. is) in
      safe_at (returned a) (cc (i, e))
  Move-IsSafe checking next at safe (fail e) =
      let (b, here, i, safe_at) = behind checking at safe (λ q. cc q) (λ is. is) in
      absurd (cc (i, e))
  Move-IsSafe (returned a) next at safe (again _) =
      let (b, here, i, safe_at) = behind (returned a) at safe (λ q. cc q) (λ is. is) in
      safe_at calling tt
  Move-IsSafe failed next at safe move = elim move [ ]

pub Reaches_safe : (n : Bool) (s next : Singleton) → IsSafe n s → Reaches n s next → IsSafe n next
Reaches_safe n s next safe (stays _) = safe
Reaches_safe n s next safe (goes _ mid _ t move rest) =
    Reaches_safe n mid next (Move-IsSafe n s t (s.threads t) mid refl safe move) rest

pub make-IsSafe : (n : Bool) → IsSafe n make
unfolding make
make-IsSafe n = fresh refl refl refl refl refl (λ t. refl)
