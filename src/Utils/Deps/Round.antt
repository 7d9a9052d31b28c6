-- ===== src/Utils/Deps/Round.antt =====
-- A dependency file that a compiler prints, and what is read of it.
use forge_zero.Prelude.{
  ℕ, zero, suc, ◌≤◌, ◌<◌, ◌≡◌, refl, ap, ◌∙◌, List, [], ◌∷◌, ◌++◌, false, ◌||◌, some, length,
  length-append, arith, All, Bool-cases, inl, inr, ◌==◌, if◌then◌else◌,
}
use forge_zero.Utils.Deps.{
  is_gap, is_continued, behind_colon, skip_gaps, take_token, unescape_dep_token, add_dep, read_deps,
  parse_dep_file,
}

-- A backslash in front of each space.
abbrev pub escape : List ℕ → List ℕ
escape [] = []
escape (c ∷ rest) = if c == b' ' then b'\\' ∷ b' ' ∷ escape rest else c ∷ escape rest

abbrev pub print_deps : List (List ℕ) → List ℕ
print_deps [] = []
print_deps (path ∷ rest) = b' ' ∷ (escape path ++ print_deps rest)

abbrev pub print_dep_file : List ℕ → List (List ℕ) → List ℕ
print_dep_file target paths = target ++ b':' ∷ print_deps paths

-- A byte of a path: no backslash, and no gap but a space.
abbrev pub IsPathByte : ℕ → Type 0
IsPathByte c = (c == b'\\' || c == b'\t' || c == b'\n' || c == b'\r') ≡ false

abbrev pub IsPath : List ℕ → Type 0
IsPath [] = ⊥
IsPath (c ∷ rest) = All IsPathByte (c ∷ rest)

-- The end of the data, or a gap.
abbrev Ends : List ℕ → Type 0
Ends [] = Unit
Ends (c ∷ rest) = c ≡ b' '

take_token_plain :
    (c : ℕ) (rest : List ℕ)
    → (c == b'\\') ≡ false
    → is_gap c ≡ false
    → take_token (c ∷ rest) ≡ (c ∷ (take_token rest).0, (take_token rest).1)
unfolding take_token
take_token_plain c [] h k = rw k refl
take_token_plain c (d ∷ rest) h k = rw (h, k) refl

take_token_end : (s : List ℕ) → Ends s → take_token s ≡ ([], s)
unfolding take_token
take_token_end [] h = refl
take_token_end (c ∷ []) h = rw h refl
take_token_end (c ∷ d ∷ rest) h = rw h refl

escaped_space :
    (rest behind : List ℕ)
    → take_token (escape rest ++ behind) ≡ (escape rest, behind)
    → take_token (b'\\' ∷ b' ' ∷ (escape rest ++ behind)) ≡ (b'\\' ∷ b' ' ∷ escape rest, behind)
unfolding take_token
escaped_space rest behind h = ap (λ p. (b'\\' ∷ b' ' ∷ p.0, p.1)) h

take_token-escape :
    (path behind : List ℕ)
    → All IsPathByte path
    → Ends behind
    → take_token (escape path ++ behind) ≡ (escape path, behind)
take_token-escape [] behind h k = take_token_end behind k
take_token-escape (c ∷ rest) behind (h, more) k =
    let tail = take_token-escape rest behind more k in
    elim (Bool-cases (c == b' ')) [
      | inl e ↦ rw e (escaped_space rest behind tail)
      | inr e ↦ rw e (
          take_token_plain c (escape rest ++ behind) (ground (arith, h)) (ground (arith, h, e))
          ∙ ap (λ p. (c ∷ p.0, p.1)) tail)
    ]

unescape_plain :
    (c : ℕ) (rest : List ℕ)
    → (c == b'\\') ≡ false
    → unescape_dep_token (c ∷ rest) ≡ c ∷ unescape_dep_token rest
unfolding unescape_dep_token
unescape_plain c [] h = refl
unescape_plain c (d ∷ rest) h = rw h refl

unescape_dep_token-escape :
    (path : List ℕ) → All IsPathByte path → unescape_dep_token (escape path) ≡ path
unfolding unescape_dep_token
unescape_dep_token-escape [] h = refl
unescape_dep_token-escape (c ∷ rest) (h, more) =
    let tail = unescape_dep_token-escape rest more in
    elim (Bool-cases (c == b' ')) [
      | inl e ↦ let same : b' ' ≡ c = ground (arith, e) in rw (e, tail) (ap (λ x. x ∷ rest) same)
      | inr e ↦ rw e (unescape_plain c (escape rest) (ground (arith, h)) ∙ ap (λ l. c ∷ l) tail)
    ]

-- The gap in front of a path.
skip_gaps_plain :
    (c : ℕ) (rest : List ℕ)
    → (c == b'\\') ≡ false
    → is_gap c ≡ false
    → skip_gaps (b' ' ∷ c ∷ rest) ≡ c ∷ rest
unfolding skip_gaps
skip_gaps_plain c [] h k = rw k refl
skip_gaps_plain c (d ∷ rest) h k = rw (h, k) refl

skip_gaps-escape :
    (path behind : List ℕ)
    → IsPath path
    → skip_gaps (b' ' ∷ (escape path ++ behind)) ≡ escape path ++ behind
unfolding skip_gaps
skip_gaps-escape [] behind h = absurd h
skip_gaps-escape (c ∷ rest) behind (h, more) = elim (Bool-cases (c == b' ')) [
  | inl e ↦ rw e refl
  | inr e ↦
      rw e (skip_gaps_plain c (escape rest ++ behind) (ground (arith, h)) (ground (arith, h, e)))
]

print_deps-Ends : (paths : List (List ℕ)) → Ends (print_deps paths)
print_deps-Ends [] = tt
print_deps-Ends (path ∷ rest) = refl

IsPath-All : (path : List ℕ) → IsPath path → All IsPathByte path
IsPath-All [] h = absurd h
IsPath-All (c ∷ rest) h = h

-- A round of the loop that finds a token.
read_more :
    (fuel : ℕ) (front gone : List ℕ)
    → skip_gaps front ≡ gone
    → 0 < length gone
    → read_deps (suc fuel) front
      ≡ add_dep (unescape_dep_token (take_token gone).0) (read_deps fuel (take_token gone).1)
unfolding read_deps
read_more fuel front [] h k = absurd (omega arith)
read_more fuel front (c ∷ more) h k = rw (h, read_deps) refl

length-escape : (path : List ℕ) → length path ≤ length (escape path)
length-escape [] = omega arith
length-escape (c ∷ rest) = ground (arith, length-escape rest)

length-IsPath : (path : List ℕ) → IsPath path → 0 < length path
length-IsPath [] h = absurd h
length-IsPath (c ∷ rest) h = omega arith

add_dep-IsPath :
    (path : List ℕ) (deps : List (List ℕ))
    → IsPath path
    → add_dep path (some deps) ≡ some (path ∷ deps)
add_dep-IsPath [] deps h = absurd h
add_dep-IsPath (c ∷ rest) deps h = refl

-- One path, and the others behind it.
read_one :
    (fuel : ℕ) (path front behind : List ℕ) (deps : List (List ℕ))
    → IsPath path
    → skip_gaps front ≡ escape path ++ behind
    → take_token (escape path ++ behind) ≡ (escape path, behind)
    → read_deps fuel behind ≡ some deps
    → read_deps (suc fuel) front ≡ some (path ∷ deps)
read_one fuel path front behind deps h e f g =
    read_more fuel front (escape path ++ behind) e
      (omega (arith, length-append (escape path) behind, length-escape path, length-IsPath path h))
    ∙ ap (λ p. add_dep (unescape_dep_token p.0) (read_deps fuel p.1)) f
    ∙ ap (λ l. add_dep l (read_deps fuel behind))
        (unescape_dep_token-escape path (IsPath-All path h))
    ∙ ap (add_dep path) g
    ∙ add_dep-IsPath path deps h

read_deps-print_deps :
    (fuel : ℕ) (paths : List (List ℕ))
    → length paths < fuel
    → All IsPath paths
    → read_deps fuel (print_deps paths) ≡ some paths
unfolding read_deps skip_gaps
read_deps-print_deps zero paths h k = absurd (omega arith)
read_deps-print_deps (suc fuel) [] h k = refl
read_deps-print_deps (suc fuel) (path ∷ rest) h (p, more) =
    let behind = print_deps rest in
    read_one fuel path (b' ' ∷ (escape path ++ behind)) behind rest p
      (skip_gaps-escape path behind p)
      (take_token-escape path behind (IsPath-All path p) (print_deps-Ends rest))
      (read_deps-print_deps fuel rest (omega arith) more)

-- A byte of a target: no colon and no backslash.
abbrev pub IsTargetByte : ℕ → Type 0
IsTargetByte c = (c == b':' || c == b'\\') ≡ false

behind_colon_plain :
    (c d : ℕ) (rest : List ℕ)
    → IsTargetByte c
    → behind_colon (c ∷ d ∷ rest) ≡ behind_colon (d ∷ rest)
unfolding behind_colon
behind_colon_plain c d rest h =
    let e : (c == b':') ≡ false = ground (arith, h) in
    let f : is_continued c d ≡ false = ground (arith, h) in rw (e, f) refl

behind_colon-print :
    (target text : List ℕ) → All IsTargetByte target → behind_colon (target ++ b':' ∷ text) ≡ text
unfolding behind_colon
behind_colon-print [] [] h = refl
behind_colon-print [] (d ∷ text) h = refl
behind_colon-print (c ∷ []) text (h, more) =
    behind_colon_plain c b':' text h ∙ behind_colon-print [] text tt
behind_colon-print (c ∷ d ∷ rest) text (h, more) =
    behind_colon_plain c d (rest ++ b':' ∷ text) h ∙ behind_colon-print (d ∷ rest) text more

length-print_deps : (paths : List (List ℕ)) → length paths ≤ length (print_deps paths)
length-print_deps [] = omega arith
length-print_deps (path ∷ rest) =
    omega (arith, length-append (escape path) (print_deps rest), length-print_deps rest)

-- Of a rule that is printed with a backslash in front of each space of a path, ParseDepFile reads
-- the paths, if they are not empty and have no tab, end of a line or backslash, and if the target
-- has no colon and no backslash.
pub parse_dep_file-print_dep_file :
    (target : List ℕ) (paths : List (List ℕ))
    → All IsTargetByte target
    → All IsPath paths
    → parse_dep_file (print_dep_file target paths) ≡ some paths
unfolding parse_dep_file
parse_dep_file-print_dep_file target paths h k =
    ap (λ s. read_deps (suc (length s)) s) (behind_colon-print target (print_deps paths) h)
    ∙ read_deps-print_deps (suc (length (print_deps paths))) paths
        (omega (arith, length-print_deps paths)) k
