-- ===== src/Config/File.antt =====
-- tools/config/ConfigFile.h and ConfigFile.cpp: the items of a configuration file. Text is a list of
-- character codes; a file that cannot be opened and a missing item throw, which is `none`.
pub mod Trim
pub mod Lookup
use tools_cxx.Prelude.{
  ℕ, suc, ◌≡◌, Bool, true, false, ◌&&◌, ◌||◌, not, Option, none, some, List, [], ◌∷◌, ◌++◌, ◌==◌,
  if◌then◌else◌, Bytes,
}

-- The characters before the first one that is not a space go.
abbrev pub erase_front : Bytes → Bytes
erase_front [] = []
erase_front (c ∷ s) = let rest = erase_front s in if c == b' ' then rest else c ∷ s

-- The characters behind the last one that is not a space go.
abbrev pub erase_back : Bytes → Bytes
erase_back [] = []
erase_back (c ∷ s) = elim (erase_back s) [
  | [] ↦ if c == b' ' then [] else c ∷ []
  | d ∷ t ↦ c ∷ d ∷ t
]

unfoldable pub trim_space : Bytes → Bytes
trim_space [] = []
trim_space (c ∷ s) = erase_back (erase_front (c ∷ s))

-- Does a line begin with a character that makes the loader skip it?
abbrev pub is_skipped : Bytes → Bool
is_skipped [] = true
is_skipped (c ∷ s) = c == b'#' || (c == b'[' || (c == 9 || (c == 13 || c == 10)))

-- The parts in front of the first `=` and behind it.
abbrev pub split_item : Bytes → Option (Bytes × Bytes)
split_item [] = none
split_item (c ∷ s) =
    let rest = split_item s in
    if c == b'='
    then some ([], s)
    else elim rest [ none ↦ none | some (name, content) ↦ some (c ∷ name, content) ]

abbrev pub eqb_bytes : Bytes → Bytes → Bool
eqb_bytes [] [] = true
eqb_bytes [] (d ∷ t) = false
eqb_bytes (c ∷ s) [] = false
eqb_bytes (c ∷ s) (d ∷ t) = let rest = eqb_bytes s t in c == d && rest

-- `m_configItemStore`, and `std::map::find` and `insert`, which keeps the item that is there.
abbrev pub Store : Type 0
Store = List (Bytes × Bytes)

abbrev pub find_item : Store → Bytes → Option Bytes
find_item [] name = none
find_item ((key, content) ∷ store) name =
    let rest = find_item store name in if eqb_bytes key name then some content else rest

abbrev pub insert_item : Store → Bytes → Bytes → Store
insert_item store name content = elim (find_item store name) [
  | none ↦ (name, content) ∷ store
  | some old ↦ store
]

-- One round of the loop, on the line it has read.
unfoldable pub load_line : Store → Bytes → Store
load_line store line = if is_skipped line then store else elim (split_item line) [
  | none ↦ store
  | some (name, content) ↦ insert_item store (trim_space name) (trim_space content)
]

-- The lines that `std::getline` reads while the stream is good; the last one may be empty.
abbrev pub lines_of : Bytes → List Bytes
lines_of [] = [] ∷ []
lines_of (c ∷ s) =
    let rest = lines_of s in
    if c == 10
    then [] ∷ rest
    else elim rest [ [] ↦ (c ∷ []) ∷ [] | line ∷ lines ↦ (c ∷ line) ∷ lines ]

unfoldable pub load_lines : Store → List Bytes → Store
load_lines store [] = store
load_lines store (line ∷ lines) = load_lines (load_line store line) lines

-- `text` is the content of the file, if it can be opened.
unfoldable pub load : Store → Option Bytes → Option Store
load store none = none
load store (some text) = some (load_lines store (lines_of text))

-- `extract` is how a `std::stringstream` reads a value of the type.
unfoldable pub get {ℓ} : {T : Type ℓ} → (Bytes → T) → Store → Bytes → Option T
get extract store name = elim (find_item store name) [
  | none ↦ none
  | some content ↦ some (extract content)
]
