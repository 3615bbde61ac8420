-- ===== src/Config/File/Lookup.antt =====
-- What a configuration file defines.
use tools_cxx.Prelude.{
  ◌≡◌, refl, sym, ap, ◌∙◌, true, Option, none, some, List, [], ◌∷◌, arith, if◌then◌else◌,
  Bool-cases, Option-cases, inl, inr, Bytes,
}
use tools_cxx.Config.File.{
  trim_space, is_skipped, split_item, eqb_bytes, Store, find_item, insert_item, load_line, lines_of,
  load_lines, load, get,
}

eqb_bytes-eq : (s t : Bytes) → eqb_bytes s t ≡ true → s ≡ t
eqb_bytes-eq [] [] e = refl
eqb_bytes-eq [] (d ∷ t) e = cc
eqb_bytes-eq (c ∷ s) [] e = cc
eqb_bytes-eq (c ∷ s) (d ∷ t) e = ground (arith, eqb_bytes-eq s t)

-- The item that a line defines, and the content that the first line with the name gives it.
abbrev pub item_of : Bytes → Option (Bytes × Bytes)
item_of line = if is_skipped line then none else elim (split_item line) [
  | none ↦ none
  | some (name, content) ↦ some (trim_space name, trim_space content)
]

abbrev pub first_of : List Bytes → Bytes → Option Bytes
first_of [] name = none
first_of (line ∷ lines) name =
    let rest = first_of lines name in
    elim (item_of line) [
      | none ↦ rest
      | some (key, content) ↦ if eqb_bytes key name then some content else rest
    ]

abbrev pub or_else : Option Bytes → Option Bytes → Option Bytes
or_else none o = o
or_else (some a) o = some a

abbrev pub map_option {ℓ} : {T : Type ℓ} → (Bytes → T) → Option Bytes → Option T
map_option f none = none
map_option f (some a) = some (f a)

find_item-insert_item :
    (store : Store) (key content name : Bytes) (o : Option Bytes)
    → or_else (find_item (insert_item store key content) name) o
      ≡ or_else (find_item store name) (if eqb_bytes key name then some content else o)
find_item-insert_item store key content name o = elim (Bool-cases (eqb_bytes key name)) [
  | inl e ↦
      let same : key ≡ name = eqb_bytes-eq key name e in
      elim (Option-cases (find_item store key)) [
        | inl f ↦
            let g : find_item store name ≡ none = sym (ap (find_item store) same) ∙ f in
            rw (insert_item, f) (rw (find_item, e) (rw (or_else, g) refl))
        | inr (old, f) ↦
            let g : find_item store name ≡ some old = sym (ap (find_item store) same) ∙ f in
            rw (insert_item, f) (rw e (rw (or_else, g) refl))
      ]
  | inr e ↦ elim (Option-cases (find_item store key)) [
    | inl f ↦ rw (insert_item, f) (rw (find_item, e) refl)
    | inr (old, f) ↦ rw (insert_item, f) (rw e refl)
  ]
]

load_line_lem :
    (store : Store) (line name : Bytes) (lines : List Bytes)
    → or_else (find_item (load_line store line) name) (first_of lines name)
      ≡ or_else (find_item store name) (first_of (line ∷ lines) name)
unfolding load_line
load_line_lem store line name lines = elim (Bool-cases (is_skipped line)) [
  | inl e ↦ rw (load_line, first_of, e) refl
  | inr e ↦ elim (Option-cases (split_item line)) [
    | inl f ↦ rw (load_line, first_of, e, f) refl
    | inr ((key, content), f) ↦
        rw (load_line, first_of, e, f)
          (find_item-insert_item store (trim_space key) (trim_space content) name
            (first_of lines name))
  ]
]

load_lines_lem :
    (store : Store) (lines : List Bytes) (name : Bytes)
    → find_item (load_lines store lines) name ≡ or_else (find_item store name) (first_of lines name)
unfolding load_lines
load_lines_lem store [] name = elim (Option-cases (find_item store name)) [
  | inl e ↦ rw e refl
  | inr (a, e) ↦ rw e refl
]
load_lines_lem store (line ∷ lines) name =
    load_lines_lem (load_line store line) lines name ∙ load_line_lem store line name lines

get_by {ℓ} :
    {T : Type ℓ} (extract : Bytes → T) (store : Store) (name : Bytes)
    → get extract store name ≡ map_option extract (find_item store name)
unfolding get
get_by extract store name = elim (Option-cases (find_item store name)) [
  | inl e ↦ rw (get, e) refl
  | inr (a, e) ↦ rw (get, e) refl
]

-- Loading a file that can be opened succeeds. Afterwards the value read for a name is that of the item
-- there was, and otherwise that of the first line that defines the name; without one the read throws.
pub get-load {ℓ} :
    {T : Type ℓ} (extract : Bytes → T) (store : Store) (text : Bytes)
    → (next : Store) × (load store (some text) ≡ some next)
      × ((name : Bytes)
          → get extract next name
            ≡ map_option extract (or_else (find_item store name) (first_of (lines_of text) name)))
unfolding load
get-load extract store text = (
  load_lines store (lines_of text),
  refl,
  λ name.
      get_by extract (load_lines store (lines_of text)) name
      ∙ ap (map_option extract) (load_lines_lem store (lines_of text) name),
)
