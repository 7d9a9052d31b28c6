-- ===== src/Utils/Deps.antt =====
-- The parser of dependency files, ParseDepFile in internal/utils/deps.go.
-- The position in the data is what is left of it.
pub mod Ends
pub mod Round
use forge_zero.Prelude.{
  ℕ, zero, suc, List, [], ◌∷◌, Bool, ◌&&◌, ◌||◌, Option, none, some, length, ◌==◌, if◌then◌else◌,
}

abbrev pub is_gap : ℕ → Bool
is_gap c = c == b' ' || c == b'\t' || c == b'\n' || c == b'\r'

-- A backslash in front of a line's end.
abbrev pub is_continued : ℕ → ℕ → Bool
is_continued c d = c == b'\\' && d == b'\n'

-- The data behind the first colon, or none if there is no byte behind it or no colon.
unfoldable pub behind_colon : List ℕ → List ℕ
behind_colon [] = []
behind_colon (c ∷ []) = []
behind_colon (c ∷ d ∷ rest) =
    let skipped = behind_colon rest in
    let next = behind_colon (d ∷ rest) in
    if c == b':' then d ∷ rest else if is_continued c d then skipped else next

-- The gaps in front of a token.
unfoldable pub skip_gaps : List ℕ → List ℕ
skip_gaps [] = []
skip_gaps (c ∷ []) = if is_gap c then [] else c ∷ []
skip_gaps (c ∷ d ∷ rest) =
    let skipped = skip_gaps rest in
    let next = skip_gaps (d ∷ rest) in
    if is_continued c d then skipped else if is_gap c then next else c ∷ d ∷ rest

-- The bytes of a token, and what is behind it.
unfoldable pub take_token : List ℕ → List ℕ × List ℕ
take_token [] = ([], [])
take_token (c ∷ []) = if is_gap c then ([], c ∷ []) else (c ∷ [], [])
take_token (c ∷ d ∷ rest) =
    let skipped = take_token rest in
    let next = take_token (d ∷ rest) in
    if c == b'\\' && (d == b'\n' || d == b' ')
    then (c ∷ d ∷ skipped.0, skipped.1)
    else if is_gap c
    then ([], c ∷ d ∷ rest)
    else (c ∷ next.0, next.1)

-- `unescapeDepToken`
unfoldable pub unescape_dep_token : List ℕ → List ℕ
unescape_dep_token [] = []
unescape_dep_token (c ∷ []) = c ∷ []
unescape_dep_token (c ∷ d ∷ rest) =
    let skipped = unescape_dep_token rest in
    let next = unescape_dep_token (d ∷ rest) in
    if is_continued c d
    then skipped
    else if c == b'\\' && d == b' '
    then b' ' ∷ skipped
    else c ∷ next

-- A token in front of others, less an empty one.
abbrev pub add_dep : List ℕ → Option (List (List ℕ)) → Option (List (List ℕ))
add_dep path none = none
add_dep [] (some deps) = some deps
add_dep (c ∷ rest) (some deps) = some ((c ∷ rest) ∷ deps)

-- The loop over the tokens; none without fuel.
unfoldable pub read_deps : ℕ → List ℕ → Option (List (List ℕ))
read_deps zero rest = none
read_deps (suc fuel) rest = elim (skip_gaps rest) [
  | [] ↦ some []
  | c ∷ more ↦
      add_dep (unescape_dep_token (take_token (c ∷ more)).0)
        (read_deps fuel (take_token (c ∷ more)).1)
]

-- `ParseDepFile`, with a unit of fuel more than there are bytes.
unfoldable pub parse_dep_file : List ℕ → Option (List (List ℕ))
parse_dep_file data_bytes =
    read_deps (suc (length (behind_colon data_bytes))) (behind_colon data_bytes)
