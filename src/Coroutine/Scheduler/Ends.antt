-- ===== src/Coroutine/Scheduler/Ends.antt =====
-- Every coroutine whose task returns is finished and erased in the end.
use tools_cxx.Prelude.{
  ℕ, suc, ◌≡◌, ◌<◌, ◌≤◌, ◌⊎◌, inl, inr, refl, sym, ap, ◌∙◌, subst, true, false, Bool-cases,
  Option-cases, Option, none, some, List, [], ◌∷◌, ◌++◌, arith, All, length, ◌>>=◌, ◌==◌, ==_iff,
}
use tools_cxx.Coroutine.Scheduler.{
  CoCall, Body, returns, yields, suspended, Coroutine, Entry, CoScheduler, find, round, loop,
}
use tools_cxx.Coroutine.Scheduler.Middle.{AreApart, created}
use tools_cxx.Coroutine.Scheduler.Turns.{body_of, advanced}
use tools_cxx.Coroutine.Scheduler.Keys.{IsAscending, turns, turns_created, new_entries}
use tools_cxx.Coroutine.Scheduler.Rounds.{IsValid, IsRound, round-IsRound}

-- The turns that a task takes.
abbrev pub parts : Body → ℕ
parts (returns calls) = 1
parts (yields calls rest) = suc (parts rest)

find_after : (k : ℕ) (es : List Entry) → All (λ f. k < f.key) es → find es k ≡ none
find_after k [] h = refl
find_after k (e ∷ es) h = ground (arith, h.0, find_after k es h.1)

find_apart : (k : ℕ) (es : List Entry) → AreApart k es → find es k ≡ none
find_apart k [] h = refl
find_apart k (e ∷ es) h = ground (arith, h.0, find_apart k es h.1)

find-append : (xs ys : List Entry) (k : ℕ) → find ys k ≡ none → find (xs ++ ys) k ≡ find xs k
find-append [] ys k h = h
find-append (e ∷ xs) ys k h = ground (arith, find-append xs ys k h)

find-lt : (es : List Entry) (k n : ℕ) (co : Coroutine) → AreApart n es → find es k ≡ some co → k < n
find-lt [] k n co a h = cc
find-lt (e ∷ es) k n co a h = ground (arith, a.0, find-lt es k n co a.1)

module _ (program : ℕ → Body) where
  -- The turns that a coroutine has still to take.
  abbrev pub turns_left : Coroutine → ℕ
  turns_left co = parts (body_of program co.status co)

  abbrev remaining_by : Coroutine → Body → Option Coroutine
  remaining_by co (returns calls) = none
  remaining_by co (yields calls rest) = some (record co { status = suspended; context = rest })

  abbrev remaining : Coroutine → Option Coroutine
  remaining co = remaining_by co (body_of program co.status co)

  find-new : (k n : ℕ) (ts : List ℕ) → k < n → find (new_entries program n ts) k ≡ none
  find-new k n [] h = refl
  find-new k n (t ∷ ts) h = ground (arith, find-new k (suc n) ts)

  find-turns :
      (es : List Entry) (k : ℕ)
      → IsAscending es
      → find (turns program es) k ≡ (find es k >>= remaining)
  find-turns [] k a = refl
  find-turns (e ∷ es) k a = put_first (body_of program e.co.status e.co) refl (find-turns es k a.1)
    where
      put_first :
          (body : Body)
          → body_of program e.co.status e.co ≡ body
          → find (turns program es) k ≡ (find es k >>= remaining)
          → find (advanced program e body ++ turns program es) k ≡ (find (e ∷ es) k >>= remaining)
      put_first (returns calls) q ih = elim (Bool-cases (e.key == k)) [
        | inl t ↦
            let same : e.key ≡ k = (==_iff e.key k).0 t in
            let none_later : find es k ≡ none =
              subst (λ n. find es n ≡ none) same (find_after e.key es a.0) in
            ih ∙ ap (λ o. o >>= remaining) none_later ∙ sym (rw t (ap (remaining_by e.co) q))
        | inr f ↦ rw f ih
      ]
      put_first (yields calls rest) q ih = elim (Bool-cases (e.key == k)) [
        | inl t ↦ rw t (sym (ap (remaining_by e.co) q))
        | inr f ↦ rw f ih
      ]

  module _ (s : CoScheduler) (calls : List CoCall) (v : IsValid program s) (next : CoScheduler)
      (r : IsRound program s calls next) where
    -- A key that is in use, or was, holds after a round what remains of its coroutine.
    find-round : (k : ℕ) → k < s.co_num → find next.co_store k ≡ (find s.co_store k >>= remaining)
    find-round k h =
        let tasks : List ℕ = s.pending ++ turns_created program s.co_store ++ created calls in
        ap (λ l. find l k) r.store
        ∙ find-append (turns program s.co_store) (new_entries program s.co_num tasks) k
            (find-new k s.co_num tasks h)
        ∙ find-turns s.co_store k v.ascending

  loop_stops :
      (s : CoScheduler) (calls : List CoCall) (later : List (List CoCall))
      → s.quit ≡ true
      → loop program s (calls ∷ later) ≡ some s
  unfolding loop
  loop_stops s calls later q =
      subst
        (λ b.
          ◌≡◌ {A = Option CoScheduler}
            (elim b as (λ x. Option CoScheduler) [
              | true ↦ some s
              | false ↦ (round program s calls >>= λ next. loop program next later)
            ])
            (some s))
        (sym q) refl

  loop_goes :
      (s mid : CoScheduler) (calls : List CoCall) (later : List (List CoCall))
      → s.quit ≡ false
      → round program s calls ≡ some mid
      → loop program s (calls ∷ later) ≡ loop program mid later
  unfolding loop
  loop_goes s mid calls later q first =
      subst
        (λ b.
          ◌≡◌ {A = Option CoScheduler}
            (elim b as (λ x. Option CoScheduler) [
              | true ↦ some s
              | false ↦ (round program s calls >>= λ next. loop program next later)
            ])
            (loop program mid later))
        (sym q) (rw first refl)

  -- The scheduler never uses a key again.
  loop-absent :
      (s : CoScheduler) (later : List (List CoCall)) (k : ℕ)
      → IsValid program s
      → k < s.co_num
      → find s.co_store k ≡ none
      → (next : CoScheduler) × (loop program s later ≡ some next) × (find next.co_store k ≡ none)
  unfolding loop
  loop-absent s [] k v h e = (s, refl, e)
  loop-absent s (calls ∷ later) k v h e = elim (Bool-cases s.quit) [
    | inl q ↦ (s, loop_stops s calls later q, e)
    | inr q ↦
        let (mid, first, r) = round-IsRound program s calls v in
        let gone : find mid.co_store k ≡ none =
          find-round s calls v mid r k h ∙ ap (λ o. o >>= remaining) e in
        let (next, last, f) = loop-absent mid later k r.valid (omega (arith, r.number)) gone in
        (next, loop_goes s mid calls later q first ∙ last, f)
  ]

  parts-pos : (body : Body) → 0 < parts body
  parts-pos (returns calls) = omega arith
  parts-pos (yields calls rest) = omega arith

  -- What remains of a coroutine takes one turn less.
  remaining-turns_left :
      (co c : Coroutine) (body : Body)
      → body_of program co.status co ≡ body
      → remaining_by co body ≡ some c
      → suc (turns_left c) ≡ turns_left co
  remaining-turns_left co c (returns calls) q e = cc
  remaining-turns_left co c (yields calls rest) q e =
      let same : record co { status = suspended; context = rest } ≡ c = cc in
      ap (λ x. suc (turns_left x)) (sym same) ∙ sym (ap parts q)

  -- When the scheduler runs as many rounds as a coroutine has turns to take, whatever the coroutines
  -- and other threads create meanwhile, no assertion fails, and at the end the coroutine is finished
  -- and erased, or the scheduler has been told to quit.
  pub loop-ends :
      (s : CoScheduler) (later : List (List CoCall)) (k : ℕ) (co : Coroutine)
      → IsValid program s
      → find s.co_store k ≡ some co
      → turns_left co ≤ length later
      → (next : CoScheduler) × (loop program s later ≡ some next)
        × ((next.quit ≡ true) ⊎ (find next.co_store k ≡ none))
  loop-ends s [] k co v f few = absurd (omega (arith, parts-pos (body_of program co.status co)))
  loop-ends s (calls ∷ later) k co v f few = elim (Bool-cases s.quit) [
    | inl q ↦ (s, loop_stops s calls later q, inl q)
    | inr q ↦
        let (mid, first, r) = round-IsRound program s calls v in
        let h : k < s.co_num = find-lt s.co_store k s.co_num co v.below f in
        let held : find mid.co_store k ≡ remaining co =
          find-round s calls v mid r k h ∙ ap (λ o. o >>= remaining) f in
        elim (Option-cases (remaining co)) [
          | inl e ↦
              let (next, last, gone) =
                loop-absent mid later k r.valid (omega (arith, r.number)) (held ∙ e) in
              (next, loop_goes s mid calls later q first ∙ last, inr gone)
          | inr (c, e) ↦
              let fewer : suc (turns_left c) ≡ turns_left co =
                remaining-turns_left co c (body_of program co.status co) refl e in
              let (next, last, done) = loop-ends mid later k c r.valid (held ∙ e) (omega arith) in
              (next, loop_goes s mid calls later q first ∙ last, done)
        ]
  ]
