-- ===== src/Base/Singleton/Safety.antt =====
-- The object is made once, and every call returns it.
use tools_cxx.Prelude.{
  ℕ, ◌≡◌, ◌≢◌, refl, sym, ap, ◌∙◌, subst, Bool, true, false, none, some, [], ◌∷◌, if◌then◌else◌,
  length, ◌≤◌, arith,
}
use tools_cxx.Base.Singleton.{
  Pc, calling, constructing, assigning, registering, checking, returned, failed, Singleton, make,
  Reaches, destroy, exit,
}
use tools_cxx.Base.Singleton.Steps.{
  fresh, begun, ended, HasBegun, IsServed, handlers_of, IsSafe, is_begun, Reaches_safe, make-IsSafe,
}

-- At most one object is made; no assertion fails; every address that a call has returned is that of
-- the object, which the class still has; and then the end of the program deletes it once, unless the
-- class has a member `no_destroy`.
pub record IsSingle (no_destroy : Bool) (s : Singleton) : Type 0 where
  pub at_most_one : length s.made ≤ 1
  pub holds : (t : ℕ) → s.threads t ≢ failed
  pub same :
      (t a : ℕ)
      → s.threads t ≡ returned a
      → (s.made ≡ a ∷ []) × (s.instance_at ≡ some a) × (s.freed ≡ [])
  pub at_end :
      (t a : ℕ)
      → s.threads t ≡ returned a
      → exit s ≡ (if no_destroy then s else record s { instance_at = none; freed = a ∷ [] })

exit_lem :
    (n : Bool) (s : Singleton) (a : ℕ)
    → s.instance_at ≡ some a
    → s.handlers ≡ handlers_of n
    → s.freed ≡ []
    → exit s ≡ (if n then s else record s { instance_at = none; freed = a ∷ [] })
unfolding exit destroy
exit_lem true s a i k d = rw k refl
exit_lem false s a i k d = rw k (rw i (rw d refl))

begun_made : (s : Singleton) (pc : Pc) → HasBegun s pc → length s.made ≤ 1
begun_made s constructing (m, i) = rw m (omega arith)
begun_made s (assigning a) (m, i) = rw m (omega arith)
begun_made s registering (a, m, i) = rw m (omega arith)
begun_made s calling b = elim b [ ]
begun_made s checking b = elim b [ ]
begun_made s (returned a) b = elim b [ ]
begun_made s failed b = elim b [ ]

IsSafe-IsSingle : (n : Bool) (s : Singleton) → IsSafe n s → IsSingle n s
IsSafe-IsSingle n s (fresh o m i k d h) = record {
  at_most_one = rw m (omega arith);
  holds = λ t e. cc (e, h t);
  same = λ t a e. absurd (cc (e, h t));
  at_end = λ t a e. absurd (cc (e, h t));
}
IsSafe-IsSingle n s (begun u o b k d h) = record {
  at_most_one = begun_made s (s.threads u) b;
  holds = λ t e. (is_begun n s t u failed b h e (λ q. cc q)).0;
  same = λ t a e. absurd (is_begun n s t u (returned a) b h e (λ q. cc q)).0;
  at_end = λ t a e. absurd (is_begun n s t u (returned a) b h e (λ q. cc q)).0;
}
IsSafe-IsSingle n s (ended a o m i k d h) = record {
  at_most_one = rw m (omega arith);
  holds = λ t e. subst (IsServed a) e (h t);
  same = λ t b e.
      (let is : b ≡ a = subst (IsServed a) e (h t) in
        (m ∙ ap (λ x. x ∷ []) (sym is), i ∙ ap some (sym is), d));
  at_end = λ t b e.
      (let is : b ≡ a = subst (IsServed a) e (h t) in exit_lem n s b (i ∙ ap some (sym is)) k d);
}

-- In every state that any number of threads reach by calling `instance`, in any interleaving, at most one
-- object has been made, no assertion has failed, and every call that has returned has returned that
-- object; when the program ends then, the object is deleted once, or not at all where the class has a
-- member `no_destroy`.
pub Reaches-IsSingle :
    (no_destroy : Bool) (s : Singleton) → Reaches no_destroy make s → IsSingle no_destroy s
Reaches-IsSingle n s reached = IsSafe-IsSingle n s (Reaches_safe n make s (make-IsSafe n) reached)
