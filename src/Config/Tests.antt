-- ===== src/Config/Tests.antt =====
-- A file with two definitions of a name, and a line with spaces.
use tools_cxx.Prelude.{◌≡◌, refl, some, [], ◌∷◌, ◌++◌, Bytes, codes}
use tools_cxx.Config.File.{Store, find_item, lines_of, load, get, trim_space}
use tools_cxx.Config.File.Lookup.{first_of, or_else, map_option, item_of, get-load}
use tools_cxx.Config.File.Trim.{spaces, item_of-line}

abbrev sample : Bytes
sample = codes "# comment\n[part]\n port = 80\nport=90\n"

get-load_example :
    (next : Store) × (load [] (some sample) ≡ some next)
    × ((name : Bytes)
        → get (λ s. s) next name
          ≡ map_option (λ s. s) (or_else (find_item [] name) (first_of (lines_of sample) name)))
get-load_example = get-load (λ s. s) [] sample

sample_port : first_of (lines_of sample) (codes "port") ≡ some (codes "80")
unfolding trim_space
sample_port = refl

item_of-line_example :
    item_of
      (spaces 1 ++ (codes "port" ++ (spaces 2 ++ b'=' ∷ (spaces 1 ++ (codes "80" ++ spaces 3)))))
    ≡ some (codes "port", codes "80")
item_of-line_example =
    item_of-line 1 2 1 3 (codes "port") (codes "80")
      (refl, ((λ e. cc), ((λ e. cc), ((λ e. cc), ((λ e. cc), tt))))) refl refl refl refl
