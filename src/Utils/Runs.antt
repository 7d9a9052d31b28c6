-- ===== src/Utils/Runs.antt =====
-- Runs of the parser of dependency files, and its theorems at concrete inputs.
use forge_zero.Prelude.{ℕ, List, [], ◌∷◌, ◌≡◌, ◌≢◌, refl, none, some, codes, arith}
use forge_zero.Utils.Deps.{
  parse_dep_file, behind_colon, skip_gaps, take_token, unescape_dep_token, read_deps,
}
use forge_zero.Utils.Deps.Ends.{parse_dep_file-ne-unfuelled}
use forge_zero.Utils.Deps.Round.{print_dep_file, parse_dep_file-print_dep_file}

abbrev paths : List (List ℕ)
paths = codes "a.c" ∷ codes "my dir/b.h" ∷ []

abbrev dep_file : List ℕ
dep_file = b'a' ∷ b':' ∷ b' ' ∷ b'\\' ∷ b'\n' ∷ b'x' ∷ b'\\' ∷ b' ' ∷ b'y' ∷ b'\n' ∷ []

dep_file_read : parse_dep_file dep_file ≡ some (codes "x y" ∷ [])
unfolding parse_dep_file behind_colon skip_gaps take_token unescape_dep_token read_deps
dep_file_read = refl

parse_dep_file-print_dep_file_example :
    parse_dep_file (print_dep_file (codes "a.o") paths) ≡ some paths
parse_dep_file-print_dep_file_example =
    parse_dep_file-print_dep_file (codes "a.o") paths (ground arith) (ground arith)

parse_dep_file-ne-unfuelled_example : parse_dep_file dep_file ≢ none
parse_dep_file-ne-unfuelled_example = parse_dep_file-ne-unfuelled dep_file
