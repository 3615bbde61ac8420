-- ===== src/Coroutine/Scheduler.antt =====
-- tools/coroutine/Coroutine.h, CoScheduler.h and CoScheduler.cpp: coroutines that one thread runs in
-- turn. A coroutine's saved context is what its task has still to do; a failed assertion is `none`.
pub mod Keys
pub mod Rounds
pub mod Middle
pub mod Turns
pub mod Ends
use tools_cxx.Prelude.{
  ℕ, suc, ◌≡◌, Bool, true, false, not, ◌&&◌, ◌||◌, Option, none, some, List, [], ◌∷◌, ◌++◌, map,
  ltb, ◌==◌, if◌then◌else◌, ◌>>=◌, is_none,
}

-- What a task calls on its scheduler; a task that is created is known by its name.
pub data CoCall : Type 0 where
  creating : ℕ → CoCall
  quitting : CoCall

-- A task makes calls and returns, or makes calls, yields, and goes on.
pub data Body : Type 0 where
  returns : List CoCall → Body
  yields : List CoCall → Body → Body

pub data Status : Type 0 where
  ready suspended running finished : Status

-- `context` matters once the coroutine has yielded.
pub record Coroutine : Type 0 where
  pub task : ℕ
  pub status : Status
  pub context : Body

pub record Entry : Type 0 where
  pub key : ℕ
  pub co : Coroutine

-- `m_coStore` lists its entries in the order of their keys; `cur_co` is `none` where the source has -1.
pub record CoScheduler : Type 0 where
  pub quit : Bool
  pub co_num : ℕ
  pub cur_co : Option ℕ
  pub co_store : List Entry
  pub pending : List ℕ

abbrev pub find : List Entry → ℕ → Option Coroutine
find [] k = none
find (e ∷ es) k = let rest = find es k in if e.key == k then some e.co else rest

abbrev pub put : List Entry → ℕ → Coroutine → List Entry
put [] k co = []
put (e ∷ es) k co =
    let rest = put es k co in if e.key == k then record e { co = co } ∷ es else e ∷ rest

abbrev pub erase : List Entry → ℕ → List Entry
erase [] k = []
erase (e ∷ es) k = let rest = erase es k in if e.key == k then es else e ∷ rest

unfoldable pub make : CoScheduler
make = record { quit = false; co_num = 0; cur_co = none; co_store = []; pending = [] }

module _ (program : ℕ → Body) where
  abbrev pub new_coroutine : ℕ → Coroutine
  new_coroutine task = record { task = task; status = ready; context = program task }

  -- A coroutine of its own, under the next key, which is greater than those in the store.
  unfoldable pub add_coroutine : CoScheduler → ℕ → CoScheduler
  add_coroutine s task = record s {
    co_store = s.co_store ++ record { key = s.co_num; co = new_coroutine task } ∷ [];
    co_num = suc s.co_num;
  }

  -- `here` says whether the caller is in the scheduler's thread.
  unfoldable pub create_coroutine : CoScheduler → Bool → ℕ → CoScheduler
  create_coroutine s here task =
      if not here || not (is_none s.cur_co)
      then record s { pending = s.pending ++ task ∷ [] }
      else add_coroutine s task

  unfoldable pub call : CoScheduler → Bool → CoCall → CoScheduler
  call s here (creating task) = create_coroutine s here task
  call s here quitting = record s { quit = true }

  unfoldable pub call_all : CoScheduler → Bool → List CoCall → CoScheduler
  call_all s here [] = s
  call_all s here (c ∷ cs) = call_all (call s here c) here cs

  -- `yield` of the coroutine under `k`, with what its task does afterwards.
  unfoldable pub suspend : CoScheduler → ℕ → Body → Option CoScheduler
  suspend s k rest = do
    co ← find s.co_store k
    some (record s {
      co_store = put s.co_store k (record co { status = suspended; context = rest });
    })

  -- The end of `schedule`, where the task has returned; `k` is the key that it was started with.
  unfoldable pub finish : CoScheduler → ℕ → Option CoScheduler
  finish s k = do
    co ← find s.co_store k
    some (record s { cur_co = none; co_store = put s.co_store k (record co { status = finished }) })

  -- From `swapcontext` in `start` until control is back; a `yield` outside a coroutine does nothing.
  unfoldable pub switch_to : CoScheduler → ℕ → Body → Option CoScheduler
  switch_to s k (returns calls) = finish (call_all s true calls) k
  switch_to s k (yields calls rest) =
      let goes_on = switch_to (call_all s true calls) k rest in
      elim (call_all s true calls).cur_co [
        | none ↦ goes_on
        | some j ↦ suspend (call_all s true calls) j rest
      ]

  abbrev pub set_running : CoScheduler → ℕ → Coroutine → CoScheduler
  set_running s k co = record s {
    cur_co = some k;
    co_store = put s.co_store k (record co { status = running });
  }

  -- The `switch` on the status of the coroutine under `k`.
  unfoldable pub resume : CoScheduler → ℕ → Coroutine → Option CoScheduler
  resume s k co = elim co.status [
    | ready ↦ switch_to (set_running s k co) k (program co.task)
    | suspended ↦ switch_to (set_running s k co) k co.context
    | running ↦ some s
    | finished ↦ some s
  ]

  abbrev pub is_finished : Status → Bool
  is_finished finished = true
  is_finished ready = false
  is_finished suspended = false
  is_finished running = false

  -- A coroutine that has just finished is erased.
  unfoldable pub sweep : CoScheduler → ℕ → Option CoScheduler
  sweep s k = do
    co ← find s.co_store k
    some (
        if is_none s.cur_co && is_finished co.status
        then record s { co_store = erase s.co_store k }
        else s)

  -- One round of the `for` loop, at the key `k`.
  unfoldable pub visit : CoScheduler → ℕ → Option CoScheduler
  visit s k = do co ← find s.co_store k; next ← resume s k co; sweep next k

  -- The `for` loop, over the keys of the store: a coroutine's calls insert nothing into it.
  unfoldable pub visit_all : CoScheduler → List ℕ → Option CoScheduler
  visit_all s [] = some s
  visit_all s (k ∷ ks) = do next ← visit s k; visit_all next ks

  unfoldable pub add_all : CoScheduler → List ℕ → CoScheduler
  add_all s [] = s
  add_all s (t ∷ ts) = add_all (add_coroutine s t) ts

  unfoldable pub handle_pending_tasks : CoScheduler → CoScheduler
  handle_pending_tasks s = add_all (record s { pending = [] }) s.pending

  abbrev pub keys : List Entry → List ℕ
  keys es = map (λ e. e.key) es

  -- One round of the `while` loop; `calls` are those of other threads until the pending tasks are taken.
  unfoldable pub round : CoScheduler → List CoCall → Option CoScheduler
  round s calls = do
    next ← visit_all s (keys s.co_store)
    some (handle_pending_tasks (call_all next false calls))

  -- The `while` loop, for as many rounds as there are lists of calls, or until the scheduler is told to quit.
  unfoldable pub loop : CoScheduler → List (List CoCall) → Option CoScheduler
  loop s [] = some s
  loop s (calls ∷ later) = elim s.quit [
    | true ↦ some s
    | false ↦ do next ← round s calls; loop next later
  ]

  unfoldable pub start : CoScheduler → List (List CoCall) → Option CoScheduler
  start s later = loop (record s { quit = false }) later
