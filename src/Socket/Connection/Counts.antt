-- ===== src/Socket/Connection/Counts.antt =====
-- How many connections hold a guard.
use tools_cxx.Prelude.{
  ℕ, zero, suc, ◌+◌, ◌<◌, ◌≤◌, ◌≡◌, ◌≢◌, refl, arith, Option, none, some, ◌==◌, if◌then◌else◌,
  update_at, update_at-ne, equal_or_not, update_at_hit, subst, ◌⊎◌, Option-cases, Bool-cases, ltb,
  ltb→lt, not_ltb→le, sym, ◌∙◌, ap, inl, inr,
}
use tools_cxx.Socket.Calls.{Calls}
use tools_cxx.Socket.Connection.{SocketGuard, ConnSocket, Store}

-- 1 for a live object that holds the guard, else 0.
abbrev pub holds : Option ConnSocket → ℕ → ℕ
holds none g = 0
holds (some o) g = elim o.guard [ none ↦ 0 | some held ↦ if held == g then 1 else 0 ]

-- The objects below an address that hold a guard.
unfoldable pub holders : (ℕ → Option ConnSocket) → ℕ → ℕ → ℕ
holders objects g zero = 0
holders objects g (suc n) = holds (objects n) g + holders objects g n

holders-above :
    (objects : ℕ → Option ConnSocket) (at : ℕ) (o : Option ConnSocket) (g n : ℕ)
    → n ≤ at
    → holders (update_at objects at o) g n ≡ holders objects g n
unfolding holders
holders-above objects at o g zero h = refl
holders-above objects at o g (suc n) h =
    rw
      (
        update_at-ne objects at o n (omega (arith, h)),
        holders-above objects at o g n (omega (arith, h)),
      )
      refl

-- An object that is changed changes the count by what it held and what it holds.
pub holders-update_at :
    (objects : ℕ → Option ConnSocket) (at : ℕ) (o : Option ConnSocket) (g n : ℕ)
    → at < n
    → holders (update_at objects at o) g n + holds (objects at) g ≡ holders objects g n + holds o g
unfolding holders
holders-update_at objects at o g zero h = omega (arith, h)
holders-update_at objects at o g (suc n) h = elim (equal_or_not n at) [
  | inl e ↦ omega (
    arith,
    ap (λ c. holds c g) (update_at_hit objects at o n e),
    ap (λ j. holds (objects j) g) e,
    holders-above objects at o g n (omega (arith, e)),
  )
  | inr ne ↦
      rw (update_at-ne objects at o n ne)
        (omega (arith, holders-update_at objects at o g n (omega (arith, h, ne))))
]

-- No object holds a guard that none of them holds.
pub holders-zero :
    (objects : ℕ → Option ConnSocket) (g n : ℕ)
    → ((at : ℕ) → holds (objects at) g ≡ 0)
    → holders objects g n ≡ 0
unfolding holders
holders-zero objects g zero h = refl
holders-zero objects g (suc n) h = rw (h n, holders-zero objects g n h) refl

-- Objects live below `n`, hold guards that exist, and each guard counts its holders.
pub record IsValid (s : Store) (n : ℕ) : Type 0 where
  pub below : (at : ℕ) → n ≤ at → s.objects at ≡ none
  pub held :
      (at g : ℕ) (o : ConnSocket)
      → s.objects at ≡ some o
      → o.guard ≡ some g
      → (q : SocketGuard) × (s.guards g ≡ some q)
  pub counted : (g : ℕ) (q : SocketGuard) → s.guards g ≡ some q → q.count ≡ holders s.objects g n
  pub positive : (g : ℕ) (q : SocketGuard) → s.guards g ≡ some q → 0 < q.count

pub holds_own : (o : ConnSocket) (g : ℕ) → o.guard ≡ some g → holds (some o) g ≡ 1
holds_own o g e = rw e (ground arith)

pub holds_null : (o : ConnSocket) (g : ℕ) → o.guard ≡ none → holds (some o) g ≡ 0
holds_null o g e = rw e refl

pub holds-other : (o : ConnSocket) (g h : ℕ) → o.guard ≡ some g → h ≢ g → holds (some o) h ≡ 0
holds-other o g h e ne = rw e (ground arith)

pub holders-lt :
    (objects : ℕ → Option ConnSocket) (at : ℕ) (o : ConnSocket) (g n : ℕ)
    → at < n
    → objects at ≡ some o
    → o.guard ≡ some g
    → 0 < holders objects g n
holders-lt objects at o g n h e held =
    let drop = holders-update_at objects at none g n h in
    omega (arith, drop, ap (λ c. holds c g) e, holds_own o g held)

module _ {s : Store} {n : ℕ} (v : IsValid s n) where
  pub IsValid-lt : (at : ℕ) (o : ConnSocket) → s.objects at ≡ some o → at < n
  IsValid-lt at o e = elim (Bool-cases (ltb at n)) [
    | inl below ↦ ltb→lt at n below
    | inr up ↦ cc (v.below at (not_ltb→le at n up), e)
  ]

  -- Nobody holds a guard that does not exist.
  pub IsValid-none : (g : ℕ) → s.guards g ≡ none → holders s.objects g n ≡ 0
  IsValid-none g e = holders-zero s.objects g n (λ at. elim (Option-cases (s.objects at)) [
    | inl gone ↦ rw gone refl
    | inr (o, there) ↦ elim (Option-cases o.guard) [
      | inl null ↦ rw there (holds_null o g null)
      | inr (held, own) ↦ elim (equal_or_not g held) [
        | inl same ↦ let (q, has) = v.held at g o there (own ∙ ap some (sym same)) in cc (e, has)
        | inr ne ↦ rw there (holds-other o held g own ne)
      ]
    ]
  ])

  -- An object is changed, and the guard that it held or holds.
  pub IsValid-put :
      (at : ℕ) (c : Option ConnSocket) (g : ℕ) (guards : ℕ → Option SocketGuard) (calls : Calls)
      → at < n
      → ((h : ℕ) → h ≢ g → guards h ≡ s.guards h)
      → ((h : ℕ) → h ≢ g → holds (s.objects at) h ≡ holds c h)
      → ((o : ConnSocket) (h : ℕ) → c ≡ some o → o.guard ≡ some h → h ≡ g)
      → ((q : SocketGuard)
          → guards g ≡ some q
          → (0 < q.count) × (q.count + holds (s.objects at) g ≡ holders s.objects g n + holds c g))
      → (guards g ≡ none → holders s.objects g n + holds c g ≤ holds (s.objects at) g)
      → IsValid (record { objects = update_at s.objects at c; guards = guards; calls = calls }) n
  IsValid-put at c g guards calls h same others own_only count left =
      let gained : (k : ℕ)
          → holders (update_at s.objects at c) k n + holds (s.objects at) k
            ≡ holders s.objects k n + holds c k =
        λ k. holders-update_at s.objects at c k n h in
      let count_own : (k : ℕ)
          → k ≡ g
          → (q : SocketGuard) → guards k ≡ some q
          → (0 < q.count) × (q.count + holds (s.objects at) k ≡ holders s.objects k n + holds c k) =
        λ k own.
          subst
            (λ j.
              (q : SocketGuard)
              → guards j ≡ some q
              → (0 < q.count)
                × (q.count + holds (s.objects at) j ≡ holders s.objects j n + holds c j))
            (sym own) count in
      let left_own : (k : ℕ)
          → k ≡ g
          → guards k ≡ none
          → holders s.objects k n + holds c k ≤ holds (s.objects at) k =
        λ k own.
          subst (λ j. guards j ≡ none → holders s.objects j n + holds c j ≤ holds (s.objects at) j)
            (sym own) left in
      let old_or_new : (b : ℕ) (o : ConnSocket)
          → update_at s.objects at c b ≡ some o
          → (b ≡ at) × (c ≡ some o) ⊎ (s.objects b ≡ some o) =
        λ b o there. elim (equal_or_not b at) [
          | inl hit ↦ inl (hit, sym (update_at_hit s.objects at c b hit) ∙ there)
          | inr miss ↦ inr (sym (update_at-ne s.objects at c b miss) ∙ there)
        ] in
      record {
        below = λ b up. update_at-ne s.objects at c b (omega (arith, up, h)) ∙ v.below b up;
        held = λ b k o there held. elim (equal_or_not k g) [
          | inl own ↦ elim (Option-cases (guards k)) [
            | inr has ↦ has
            | inl gone ↦
                let lt : b < n = elim (old_or_new b o there) [
                  | inl (hit, is) ↦ omega (arith, h, hit)
                  | inr old ↦ IsValid-lt b o old
                ] in
                absurd (
                  omega (
                    arith,
                    gained k,
                    left_own k own gone,
                    holders-lt (update_at s.objects at c) b o k n lt there held,
                  ))
          ]
          | inr ne ↦ elim (old_or_new b o there) [
            | inl (hit, is) ↦ absurd (ne (own_only o k is held))
            | inr old ↦ let (q, has) = v.held b k o old held in (q, same k ne ∙ has)
          ]
        ];
        counted = λ k q e. elim (equal_or_not k g) [
          | inl own ↦ omega (arith, gained k, (count_own k own q e).1)
          | inr ne ↦ omega (arith, gained k, others k ne, v.counted k q (sym (same k ne) ∙ e))
        ];
        positive = λ k q e. elim (equal_or_not k g) [
          | inl own ↦ (count_own k own q e).0
          | inr ne ↦ v.positive k q (sym (same k ne) ∙ e)
        ];
      }
