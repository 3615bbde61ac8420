-- ===== src/Timer/Ordered/Laws.antt =====
-- The ordered sets: what they hold after each operation, their order and their sizes.
use tools_cxx.Prelude.{
  suc, ◌≡◌, refl, sym, ◌∙◌, ◌⊎◌, inl, inr, ◌≢◌, Bool, true, false, List, [], ◌∷◌, ◌++◌, arith,
  Bool-cases, length, All, subst, if_cases,
}
use tools_cxx.Timer.Ordered.{IsOrder, find, insert, erase, below, from, IsSorted, Has}

-- Sizes follow from the search alone.
module _ {ℓ} {A : Type ℓ} (lt : A → A → Bool) where
  pub length-insert :
      (l : List A) (a : A) → find lt l a ≡ false → length (insert lt l a) ≡ suc (length l)
  length-insert [] a = λ e. refl
  length-insert (x ∷ xs) a = ground (arith, length-insert xs a)

  pub length-erase :
      (l : List A) (a : A) → find lt l a ≡ true → suc (length (erase lt l a)) ≡ length l
  length-erase [] a = λ e. absurd (ground arith)
  length-erase (x ∷ xs) a = ground (arith, length-erase xs a)

  pub below-append-from : (l : List A) (a : A) → below lt l a ++ from lt l a ≡ l
  below-append-from [] a = refl
  below-append-from (x ∷ xs) a = elim (Bool-cases (lt x a)) [
    | inl e ↦ rw (e, below-append-from xs a)
    | inr e ↦ rw e
  ]

  pub below-All : (l : List A) (a : A) → All (λ x. lt x a ≡ true) (below lt l a)
  below-All [] a = tt
  below-All (x ∷ xs) a =
      if_cases (All (λ x. lt x a ≡ true)) (lt x a) (λ e. (e, below-All xs a)) (λ e. tt)

module _ {κ} {A : Type 0} (P : A → Type κ) where
  pub All-Has : (l : List A) → ((a : A) → Has l a → P a) → All P l
  All-Has [] h = tt
  All-Has (x ∷ xs) h = (h x (inl refl), All-Has xs (λ a m. h a (inr m)))

  pub Has-All : (l : List A) → All P l → (a : A) → Has l a → P a
  Has-All [] h a m = elim m [ ]
  Has-All (x ∷ xs) h a (inl e) = subst P (sym e) h.0
  Has-All (x ∷ xs) h a (inr m) = Has-All xs h.1 a m

module _ {A : Type 0} (lt : A → A → Bool) (o : IsOrder lt) where
  pub Has-insert : (l : List A) (a b : A) → Has (insert lt l a) b → (b ≡ a) ⊎ Has l b
  Has-insert [] a b = λ m. m
  Has-insert (x ∷ xs) a b =
      if_cases (λ l. Has l b → (b ≡ a) ⊎ Has (x ∷ xs) b) (lt x a)
        (λ e m. elim m [
          | inl same ↦ inr (inl same)
          | inr m ↦ elim (Has-insert xs a b m) [ inl same ↦ inl same | inr old ↦ inr (inr old) ]
        ])
        (λ e. if_cases (λ l. Has l b → (b ≡ a) ⊎ Has (x ∷ xs) b) (lt a x) (λ k m. m) (λ k m. inr m))

  pub Has-insert_new : (l : List A) (a : A) → Has (insert lt l a) a
  Has-insert_new [] a = inl refl
  Has-insert_new (x ∷ xs) a =
      if_cases (λ l. Has l a) (lt x a) (λ e. inr (Has-insert_new xs a))
        (λ e. if_cases (λ l. Has l a) (lt a x) (λ k. inl refl) (λ k. inl (o.connected a x k e)))

  pub Has-insert_old : (l : List A) (a b : A) → Has l b → Has (insert lt l a) b
  Has-insert_old [] a b m = elim m [ ]
  Has-insert_old (x ∷ xs) a b m =
      if_cases (λ l. Has l b) (lt x a)
        (λ e. elim m [ inl same ↦ inl same | inr old ↦ inr (Has-insert_old xs a b old) ])
        (λ e. if_cases (λ l. Has l b) (lt a x) (λ k. inr m) (λ k. m))

  All-after :
      (l : List A) (a x : A)
      → lt a x ≡ true
      → All (λ y. lt x y ≡ true) l
      → All (λ y. lt a y ≡ true) l
  All-after [] a x e h = tt
  All-after (y ∷ l) a x e h = (o.transitive a x y e h.0, All-after l a x e h.1)

  pub IsSorted-insert : (l : List A) (a : A) → IsSorted lt l → IsSorted lt (insert lt l a)
  IsSorted-insert [] a s = (tt, tt)
  IsSorted-insert (x ∷ xs) a s =
      if_cases (IsSorted lt) (lt x a)
        (λ e. (
          All-Has (λ y. lt x y ≡ true) (insert lt xs a)
              (λ y m. elim (Has-insert xs a y m) [
                | inl same ↦ subst (λ z. lt x z ≡ true) (sym same) e
                | inr old ↦ Has-All (λ y. lt x y ≡ true) xs s.0 y old
              ]),
          IsSorted-insert xs a s.1,
        ))
        (λ e. if_cases (IsSorted lt) (lt a x) (λ k. ((k, All-after xs a x k s.0), s)) (λ k. s))

  pub Has-find : (l : List A) (a : A) → find lt l a ≡ true → Has l a
  Has-find [] a = λ e. absurd (ground arith)
  Has-find (x ∷ xs) a = elim (Bool-cases (lt x a)) [
    | inl e ↦ rw e λ f. inr (Has-find xs a f)
    | inr e ↦ elim (Bool-cases (lt a x)) [
      | inl k ↦ rw (e, k) λ f. absurd (ground arith)
      | inr k ↦ λ f. inl (o.connected a x k e)
    ]
  ]

  after_ne : (xs : List A) (x a : A) → All (λ y. lt x y ≡ true) xs → Has xs a → lt x a ≡ true
  after_ne xs x a h m = Has-All (λ y. lt x y ≡ true) xs h a m

  pub find-Has : (l : List A) (a : A) → IsSorted lt l → Has l a → find lt l a ≡ true
  find-Has [] a s m = elim m [ ]
  find-Has (x ∷ xs) a s (inl e) = rw (e, o.irreflexive x) refl
  find-Has (x ∷ xs) a s (inr m) = rw (after_ne xs x a s.0 m, find-Has xs a s.1 m) refl

  pub find-absent : (l : List A) (a : A) → (Has l a → ⊥) → find lt l a ≡ false
  find-absent l a h = elim (Bool-cases (find lt l a)) [
    | inl e ↦ absurd (h (Has-find l a e))
    | inr e ↦ e
  ]

  pub Has-erase : (l : List A) (a b : A) → IsSorted lt l → Has (erase lt l a) b → Has l b × (b ≢ a)
  Has-erase [] a b s = λ m. elim m [ ]
  Has-erase (x ∷ xs) a b s = elim (Bool-cases (lt x a)) [
    | inl e ↦ rw e λ m. elim m [
      | inl same ↦ (inl same, λ q. cc (q, same, e, o.irreflexive a))
      | inr m ↦ let (old, ne) = Has-erase xs a b s.1 m in (inr old, ne)
    ]
    | inr e ↦ elim (Bool-cases (lt a x)) [
      | inl k ↦
          rw (e, k)
            λ m. (
              m,
              λ q. elim m [
                | inl same ↦ cc (q, same, k, o.irreflexive a)
                | inr old ↦ let far : lt x b ≡ true = after_ne xs x b s.0 old in cc (q, far, e)
              ],
            )
      | inr k ↦ rw (e, k) λ m. (inr m, λ q. cc (q, after_ne xs x b s.0 m, e))
    ]
  ]

  pub Has-erase_other : (l : List A) (a b : A) → Has l b → b ≢ a → Has (erase lt l a) b
  Has-erase_other [] a b m ne = m
  Has-erase_other (x ∷ xs) a b m ne =
      if_cases (λ l. Has l b) (lt x a)
        (λ e. elim m [ inl same ↦ inl same | inr old ↦ inr (Has-erase_other xs a b old ne) ])
        (λ e.
          if_cases (λ l. Has l b) (lt a x) (λ k. m)
            (λ k. elim m [ inl same ↦ absurd (ne (same ∙ o.connected x a e k)) | inr old ↦ old ]))

  pub IsSorted-erase : (l : List A) (a : A) → IsSorted lt l → IsSorted lt (erase lt l a)
  IsSorted-erase [] a s = s
  IsSorted-erase (x ∷ xs) a s =
      if_cases (IsSorted lt) (lt x a)
        (λ e. (
          All-Has (λ y. lt x y ≡ true) (erase lt xs a)
              (λ y m. after_ne xs x y s.0 (Has-erase xs a y s.1 m).0),
          IsSorted-erase xs a s.1,
        ))
        (λ e. if_cases (IsSorted lt) (lt a x) (λ k. s) (λ k. s.1))

  pub from-All : (l : List A) (a : A) → IsSorted lt l → All (λ x. lt x a ≡ false) (from lt l a)
  from-All [] a s = tt
  from-All (x ∷ xs) a s =
      if_cases (All (λ x. lt x a ≡ false)) (lt x a) (λ e. from-All xs a s.1)
        (λ e. (
          e,
          All-Has (λ y. lt y a ≡ false) xs
              (λ y m. elim (Bool-cases (lt y a)) [
                | inl k ↦
                    let far : lt x a ≡ true = o.transitive x y a (after_ne xs x y s.0 m) k in
                    cc (far, e)
                | inr k ↦ k
              ]),
        ))

  pub IsSorted-from : (l : List A) (a : A) → IsSorted lt l → IsSorted lt (from lt l a)
  IsSorted-from [] a s = s
  IsSorted-from (x ∷ xs) a s =
      if_cases (IsSorted lt) (lt x a) (λ e. IsSorted-from xs a s.1) (λ e. s)
