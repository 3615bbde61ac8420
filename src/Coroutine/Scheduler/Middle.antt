-- ===== src/Coroutine/Scheduler/Middle.antt =====
-- An entry between others in the store, and what calls ask for.
use tools_cxx.Prelude.{ℕ, ◌≡◌, ◌<◌, Bool, true, false, some, List, [], ◌∷◌, ◌++◌, arith, All}
use tools_cxx.Coroutine.Scheduler.{CoCall, creating, quitting, Coroutine, Entry, find, put, erase}

-- No entry in front has the key.
abbrev pub AreApart : ℕ → List Entry → Type 0
AreApart k es = All (λ e. e.key < k) es

module _ (e : Entry) (post : List Entry) where
  pub find-middle :
      (pre : List Entry) → AreApart e.key pre → find (pre ++ e ∷ post) e.key ≡ some e.co
  find-middle [] h = ground arith
  find-middle (f ∷ pre) h = ground (arith, h.0, find-middle pre h.1)

  pub put-middle :
      (pre : List Entry) (c : Coroutine)
      → AreApart e.key pre
      → put (pre ++ e ∷ post) e.key c ≡ pre ++ record e { co = c } ∷ post
  put-middle [] c h = ground arith
  put-middle (f ∷ pre) c h = ground (arith, h.0, put-middle pre c h.1)

  pub erase-middle :
      (pre : List Entry) → AreApart e.key pre → erase (pre ++ e ∷ post) e.key ≡ pre ++ post
  erase-middle [] h = ground arith
  erase-middle (f ∷ pre) h = ground (arith, h.0, erase-middle pre h.1)

-- The tasks that calls create, and whether one of them quits.
abbrev pub created : List CoCall → List ℕ
created [] = []
created (creating task ∷ calls) = task ∷ created calls
created (quitting ∷ calls) = created calls

abbrev pub quits : List CoCall → Bool
quits [] = false
quits (creating task ∷ calls) = quits calls
quits (quitting ∷ calls) = true
