-- ===== src/Threads/Pool/Join.antt =====
-- The handles that `stop` joins.
use tools_cxx.Prelude.{
  ℕ, suc, ◌≡◌, refl, sym, ap, ◌∙◌, subst, Option, none, some, List, [], ◌∷◌, ◌++◌, replicate,
}
use tools_cxx.Threads.Pool.{
  Pc, Owner, joining, ThreadPool, make_pool, Move, lock, see_stop, see_running, see_empty, see_task,
  see_count, see_zero, count_one, wait, wake, leave, stay, take, begin, finish, OwnerMove, create,
  created, started, already, begin_stop, set_stop, join, join_none, joined, call_task, moves,
  owner_moves, calls, Reach, start, later,
}

abbrev pub StartsNull : List (Option ℕ) → Type 0
StartsNull hs = (rest : List (Option ℕ)) × (hs ≡ none ∷ rest)

-- The vector of handles begins with one of no thread, also while it is joined.
record IsNull (threads : List (Option ℕ)) (owner : Owner) : Type 0 where
  first : StartsNull threads
  joins : (hs : List (Option ℕ)) → owner ≡ joining hs → StartsNull hs

Move-same :
    (s : ThreadPool) (i : ℕ) (p : Pc) (next : ThreadPool)
    → Move s i p next
    → (next.threads ≡ s.threads) × (next.owner ≡ s.owner)
Move-same s i p next (lock e) = (refl, refl)
Move-same s i p next (see_stop e) = (refl, refl)
Move-same s i p next (see_running e) = (refl, refl)
Move-same s i p next (see_empty e) = (refl, refl)
Move-same s i p next (see_task e) = (refl, refl)
Move-same s i p next (see_count e) = (refl, refl)
Move-same s i p next (see_zero e) = (refl, refl)
Move-same s i p next count_one = (refl, refl)
Move-same s i p next wait = (refl, refl)
Move-same s i p next wake = (refl, refl)
Move-same s i p next (leave e) = (refl, refl)
Move-same s i p next (stay e) = (refl, refl)
Move-same s i p next (take t rest e) = (refl, refl)
Move-same s i p next (begin t) = (refl, refl)
Move-same s i p next (finish t) = (refl, refl)

OwnerMove-IsNull :
    (s : ThreadPool) (o : Owner) (next : ThreadPool)
    → IsNull s.threads o
    → OwnerMove s o next
    → IsNull next.threads next.owner
OwnerMove-IsNull s o next v (create i h) =
    let (rest, e) = v.first in
    record {
      first = (rest ++ some i ∷ [], ap (λ l. l ++ some i ∷ []) e);
      joins = λ hs e. absurd (cc e);
    }
OwnerMove-IsNull s o next v (created i h) = record {
  first = v.first;
  joins = λ hs e. absurd (cc e);
}
OwnerMove-IsNull s o next v (started e) = record { first = v.first; joins = λ hs e. absurd (cc e) }
OwnerMove-IsNull s o next v (already e) = record { first = v.first; joins = λ hs e. absurd (cc e) }
OwnerMove-IsNull s o next v (begin_stop e) = record {
  first = v.first;
  joins = λ hs e. absurd (cc e);
}
OwnerMove-IsNull s o next v set_stop =
    let (rest, first) = v.first in
    record { first = v.first; joins = λ hs e. (rest, sym (cc e) ∙ first) }
OwnerMove-IsNull s o next v (join i rest e) =
    let (others, null) = v.joins (some i ∷ rest) refl in absurd (cc null)
OwnerMove-IsNull s o next v (join_none rest) = record {
  first = v.first;
  joins = λ hs e. absurd (cc e);
}
OwnerMove-IsNull s o next v joined = let (others, null) = v.joins [] refl in absurd (cc null)

Reach-IsNull : (m : ℕ) (s : ThreadPool) → Reach (suc m) s → IsNull s.threads s.owner
unfolding make_pool call_task
Reach-IsNull m s start = record { first = (replicate m none, refl); joins = λ hs e. absurd (cc e) }
Reach-IsNull m s (later r _ before (moves i _ step)) =
    let (threads, owner) = Move-same r i (r.pc i) s step in
    subst (λ t. IsNull t s.owner) (sym threads)
      (subst (λ o. IsNull r.threads o) (sym owner) (Reach-IsNull m r before))
Reach-IsNull m s (later r _ before (owner_moves _ step)) =
    OwnerMove-IsNull r r.owner s (Reach-IsNull m r before) step
Reach-IsNull m s (later r _ before (calls t unlocked)) = Reach-IsNull m r before

-- Whenever a pool of at least one thread is being stopped, the next handle to be joined is one of no
-- thread, so that `stop` neither joins a thread of the pool nor returns.
pub join-StartsNull :
    (m : ℕ) (s : ThreadPool) (hs : List (Option ℕ))
    → Reach (suc m) s
    → s.owner ≡ joining hs
    → StartsNull hs
join-StartsNull m s hs reached e = (Reach-IsNull m s reached).joins hs e
