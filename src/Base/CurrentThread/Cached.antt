-- ===== src/Base/CurrentThread/Cached.antt =====
-- The number of a thread does not change, and its text is read back.
use tools_cxx.Prelude.{ℕ, suc, ◌≡◌, ◌<◌, ◌^◌, refl, ap, ◌∙◌, [], List, ◌∷◌, take, take-all, arith}
use tools_cxx.Base.Timestamp.Text.{print_int, decimal}
use tools_cxx.Base.Timestamp.Text.Reading.{read_digits, read_digits-decimal, length-decimal}
use tools_cxx.Base.CurrentThread.{CurrentThread, new_thread, cache_tid, get_tid, get_tid_string}

-- The state behind any number of calls, given what gettid(2) would return at each.
abbrev pub after_calls : CurrentThread → List ℕ → CurrentThread
after_calls s [] = s
after_calls s (tid ∷ tids) = after_calls (get_tid s tid).1 tids

-- The state behind the first call.
first_call : ℕ → CurrentThread
first_call t = record { cached_tid = suc t; tid_string = take 31 (decimal 20 (suc t) []) }

first_call-reads : (t : ℕ) → suc t < 2 ^ 31 → read_digits (first_call t).tid_string 0 ≡ suc t
unfolding first_call
first_call-reads t lt =
    let short = length-decimal 20 9 (suc t) [] (omega (arith, lt)) in
    ap (λ s. read_digits s 0) (take-all 31 (decimal 20 (suc t) []) (omega (arith, short)))
    ∙ read_digits-decimal 20 9 (suc t) [] (omega arith) (omega (arith, lt))

first_call_lem : (t : ℕ) → cache_tid new_thread (suc t) ≡ first_call t
unfolding cache_tid first_call print_int
first_call_lem t = refl

later_call : (t tid : ℕ) → cache_tid (first_call t) tid ≡ first_call t
unfolding cache_tid first_call
later_call t tid = ground arith

first_call-kept : (t : ℕ) (tids : List ℕ) → after_calls (first_call t) tids ≡ first_call t
unfolding get_tid
first_call-kept t [] = refl
first_call-kept t (tid ∷ tids) =
    ap (λ s. after_calls s tids) (later_call t tid) ∙ first_call-kept t tids

first_call-tid : (t : ℕ) → (first_call t).cached_tid ≡ suc t
unfolding first_call
first_call-tid t = refl

-- A thread whose number is `suc t` gets that number from its first call and, whatever gettid(2) would
-- return then, from every later call; and the text of its number is read back as that number.
pub get_tid-same :
    (t : ℕ) (tids : List ℕ) (tid : ℕ)
    → suc t < 2 ^ 31
    → ((get_tid (after_calls new_thread (suc t ∷ tids)) tid).0 ≡ suc t)
      × (read_digits (get_tid_string (after_calls new_thread (suc t ∷ tids)) tid).0 0 ≡ suc t)
unfolding get_tid get_tid_string
get_tid-same t tids tid lt =
    let kept : after_calls new_thread (suc t ∷ tids) ≡ first_call t =
      ap (λ s. after_calls s tids) (first_call_lem t) ∙ first_call-kept t tids in
    let last : cache_tid (after_calls new_thread (suc t ∷ tids)) tid ≡ first_call t =
      ap (λ s. cache_tid s tid) kept ∙ later_call t tid in
    (
      ap (λ s. s.cached_tid) last ∙ first_call-tid t,
      ap (λ s. read_digits s.tid_string 0) last ∙ first_call-reads t lt,
    )
