-- ===== src/Coroutine/Scheduler/Keys.antt =====
-- The keys of the coroutines, and what their turns leave of them.
use tools_cxx.Prelude.{
  ℕ, suc, ◌+◌, ◌<◌, ◌≤◌, subst, Bool, false, ◌||◌, List, [], ◌∷◌, ◌++◌, arith, All, All-append,
  length,
}
use tools_cxx.Coroutine.Scheduler.{Body, returns, yields, Entry, new_coroutine}
use tools_cxx.Coroutine.Scheduler.Middle.{AreApart, created, quits}
use tools_cxx.Coroutine.Scheduler.Turns.{IsWaiting, body_of, turn_calls, advanced, turn}

abbrev pub IsAscending : List Entry → Type 0
IsAscending [] = Unit
IsAscending (e ∷ es) = All (λ f. e.key < f.key) es × IsAscending es

-- Every key in front is smaller than every key behind.
abbrev pub Precedes : List Entry → List Entry → Type 0
Precedes pre todo = All (λ g. AreApart g.key pre) todo

pub none_before : (es : List Entry) → Precedes [] es
none_before [] = tt
none_before (e ∷ es) = (tt, none_before es)

module _ (program : ℕ → Body) where
  abbrev pub turns : List Entry → List Entry
  turns [] = []
  turns (e ∷ es) = turn program e ++ turns es

  -- The tasks created in the turns, and whether one of them quits.
  abbrev pub turns_created : List Entry → List ℕ
  turns_created [] = []
  turns_created (e ∷ es) = created (turn_calls program e) ++ turns_created es

  abbrev pub turns_quit : List Entry → Bool
  turns_quit [] = false
  turns_quit (e ∷ es) = quits (turn_calls program e) || turns_quit es

  abbrev pub AreWaiting : List Entry → Type 0
  AreWaiting es = All (λ e. IsWaiting program e.co.status) es

  pub advanced-AreApart :
      (k : ℕ) (e : Entry) (body : Body) → e.key < k → AreApart k (advanced program e body)
  advanced-AreApart k e (returns calls) h = tt
  advanced-AreApart k e (yields calls rest) h = (h, tt)

  pub Precedes-turn :
      (pre : List Entry) (e : Entry) (es : List Entry)
      → Precedes pre es
      → All (λ f. e.key < f.key) es
      → Precedes (pre ++ turn program e) es
  Precedes-turn pre e [] h k = tt
  Precedes-turn pre e (g ∷ es) h k = (
    All-append (λ f. f.key < g.key) pre (turn program e) h.0
        (advanced-AreApart g.key e (body_of program e.co.status e.co) k.0),
    Precedes-turn pre e es h.1 k.1,
  )

  -- The coroutines that tasks become, from a key on.
  abbrev pub new_entries : ℕ → List ℕ → List Entry
  new_entries n [] = []
  new_entries n (t ∷ ts) = record { key = n; co = new_coroutine program t } ∷ new_entries (suc n) ts

  pub AreApart-turns : (k : ℕ) (es : List Entry) → AreApart k es → AreApart k (turns es)
  AreApart-turns k [] h = tt
  AreApart-turns k (e ∷ es) h =
      All-append (λ f. f.key < k) (turn program e) (turns es)
        (advanced-AreApart k e (body_of program e.co.status e.co) h.0) (AreApart-turns k es h.1)

  pub after-turns :
      (k : ℕ) (es : List Entry) → All (λ f. k < f.key) es → All (λ f. k < f.key) (turns es)
  after-turns k [] h = tt
  after-turns k (e ∷ es) h =
      All-append (λ f. k < f.key) (turn program e) (turns es)
        (one (body_of program e.co.status e.co)) (after-turns k es h.1)
    where
      one : (body : Body) → All (λ f. k < f.key) (advanced program e body)
      one (returns calls) = tt
      one (yields calls rest) = (h.0, tt)

  pub IsAscending-put :
      (e : Entry) (body : Body) (es : List Entry)
      → All (λ f. e.key < f.key) es
      → IsAscending es
      → IsAscending (advanced program e body ++ es)
  IsAscending-put e (returns calls) es h a = a
  IsAscending-put e (yields calls rest) es h a = (h, a)

  pub IsAscending-turns : (es : List Entry) → IsAscending es → IsAscending (turns es)
  IsAscending-turns [] h = tt
  IsAscending-turns (e ∷ es) h =
      IsAscending-put e (body_of program e.co.status e.co) (turns es) (after-turns e.key es h.0)
        (IsAscending-turns es h.1)

  pub AreWaiting-put :
      (e : Entry) (body : Body) (es : List Entry)
      → AreWaiting es
      → AreWaiting (advanced program e body ++ es)
  AreWaiting-put e (returns calls) es w = w
  AreWaiting-put e (yields calls rest) es w = (tt, w)

  pub AreWaiting-turns : (es : List Entry) → AreWaiting (turns es)
  AreWaiting-turns [] = tt
  AreWaiting-turns (e ∷ es) =
      AreWaiting-put e (body_of program e.co.status e.co) (turns es) (AreWaiting-turns es)

  pub AreWaiting-new : (n : ℕ) (ts : List ℕ) → AreWaiting (new_entries n ts)
  AreWaiting-new n [] = tt
  AreWaiting-new n (t ∷ ts) = (tt, AreWaiting-new (suc n) ts)

  pub after-new : (k n : ℕ) (ts : List ℕ) → k < n → All (λ f. k < f.key) (new_entries n ts)
  after-new k n [] h = tt
  after-new k n (t ∷ ts) h = (h, after-new k (suc n) ts (omega arith))

  pub IsAscending-new : (n : ℕ) (ts : List ℕ) → IsAscending (new_entries n ts)
  IsAscending-new n [] = tt
  IsAscending-new n (t ∷ ts) = (after-new n (suc n) ts (omega arith), IsAscending-new (suc n) ts)

  pub AreApart-new : (n : ℕ) (ts : List ℕ) → AreApart (n + length ts) (new_entries n ts)
  AreApart-new n [] = tt
  AreApart-new n (t ∷ ts) = (
    omega arith,
    subst (λ k. AreApart k (new_entries (suc n) ts)) (omega arith) (AreApart-new (suc n) ts),
  )

  pub AreApart-le : (k n : ℕ) (es : List Entry) → k ≤ n → AreApart k es → AreApart n es
  AreApart-le k n [] h a = tt
  AreApart-le k n (e ∷ es) h a = (omega arith, AreApart-le k n es h a.1)

  pub IsAscending-append-new :
      (es : List Entry) (n : ℕ) (ts : List ℕ)
      → IsAscending es
      → AreApart n es
      → IsAscending (es ++ new_entries n ts)
  IsAscending-append-new [] n ts a h = IsAscending-new n ts
  IsAscending-append-new (e ∷ es) n ts a h = (
    All-append (λ f. e.key < f.key) es (new_entries n ts) a.0 (after-new e.key n ts h.0),
    IsAscending-append-new es n ts a.1 h.1,
  )
