-- ===== src/Base/Singleton.antt =====
-- tools/base/Singleton.h: one object of a class, which the first call makes. Every access of a thread is
-- a step; pthread_once(3) lets one thread run `init` and the others wait until it has returned.
pub mod Steps
pub mod Safety
mod Tests
use tools_cxx.Prelude.{
  ℕ, zero, suc, ◌≡◌, Bool, Option, none, some, List, [], ◌∷◌, if◌then◌else◌, update_at,
}

-- `m_ponce`
pub data Once : Type 0 where
  untouched running over : Once

-- Where a thread stands in `instance` and in `init`.
pub data Pc : Type 0 where
  calling constructing : Pc
  assigning : ℕ → Pc  -- the address that `new` has returned
  registering checking : Pc
  returned : ℕ → Pc
  failed : Pc

-- `made` and `freed` list the addresses of objects made and deleted; `handlers` counts the calls of `atexit`.
pub record Singleton : Type 0 where
  pub once : Once
  pub instance_at : Option ℕ
  pub made : List ℕ
  pub freed : List ℕ
  pub handlers : ℕ
  pub threads : ℕ → Pc

unfoldable pub make : Singleton
make = record {
  once = untouched;
  instance_at = none;
  made = [];
  freed = [];
  handlers = 0;
  threads = λ t. calling;
}

abbrev pub at_pc : Singleton → ℕ → Pc → Singleton
at_pc s t pc = record s { threads = update_at s.threads t pc }

-- One step of the thread `t`; `no_destroy` is whether the class has a member of that name.
pub data Move (no_destroy : Bool) (s : Singleton) (t : ℕ) : Pc → Singleton → Type 0 where
  enter :
      s.once ≡ untouched
      → Move no_destroy s t calling (record (at_pc s t constructing) { once = running })
  pass : s.once ≡ over → Move no_destroy s t calling (at_pc s t checking)
  construct :
      (a : ℕ)
      → Move no_destroy s t constructing (record (at_pc s t (assigning a)) { made = a ∷ s.made })
  set_instance :
      (a : ℕ)
      → Move no_destroy s t (assigning a) (record (at_pc s t registering) { instance_at = some a })
  register : Move no_destroy s t registering (record (at_pc s t checking) {
    once = over;
    handlers = if no_destroy then s.handlers else suc s.handlers;
  })
  find : (a : ℕ) → s.instance_at ≡ some a → Move no_destroy s t checking (at_pc s t (returned a))
  fail : s.instance_at ≡ none → Move no_destroy s t checking (at_pc s t failed)
  again : (a : ℕ) → Move no_destroy s t (returned a) (at_pc s t calling)

pub data Reaches (no_destroy : Bool) : Singleton → Singleton → Type 0 where
  stays : (s : Singleton) → Reaches no_destroy s s
  goes :
      (s mid next : Singleton) (t : ℕ)
      → Move no_destroy s t (s.threads t) mid
      → Reaches no_destroy mid next
      → Reaches no_destroy s next

-- `destory`; deleting a null pointer does nothing.
unfoldable pub destroy : Singleton → Singleton
destroy s = elim s.instance_at [
  | none ↦ s
  | some a ↦ record s { instance_at = none; freed = a ∷ s.freed }
]

abbrev pub run_handlers : ℕ → Singleton → Singleton
run_handlers zero s = s
run_handlers (suc n) s = run_handlers n (destroy s)

-- The end of the program runs what `atexit` has been given.
unfoldable pub exit : Singleton → Singleton
exit s = run_handlers s.handlers s
