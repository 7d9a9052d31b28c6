-- ===== src/Utils/Deps/Ends.antt =====
-- The parser of dependency files comes to an end.
use forge_zero.Prelude.{
  ℕ, zero, suc, ◌≤◌, ◌<◌, ◌≡◌, ◌≢◌, refl, List, [], ◌∷◌, false, ◌&&◌, ◌||◌, Option, none, some,
  length, arith, Bool-cases, inl, inr, ◌==◌,
}
use forge_zero.Utils.Deps.{
  is_gap, is_continued, behind_colon, skip_gaps, take_token, unescape_dep_token, add_dep, read_deps,
  parse_dep_file,
}

-- What is in front of a token is no gap.
abbrev StartsPlain : List ℕ → Type 0
StartsPlain [] = Unit
StartsPlain (c ∷ rest) = is_gap c ≡ false

skip_gaps_exact : (s : List ℕ) → StartsPlain (skip_gaps s) × length (skip_gaps s) ≤ length s
unfolding skip_gaps
skip_gaps_exact [] = (tt, omega arith)
skip_gaps_exact (c ∷ []) = elim (Bool-cases (is_gap c)) [
  | inl e ↦ rw e (tt, omega arith)
  | inr e ↦ rw e (e, omega arith)
]
skip_gaps_exact (c ∷ d ∷ rest) = elim (Bool-cases (is_continued c d)) [
  | inl e ↦ let (a, b) = skip_gaps_exact rest in rw e (a, omega (arith, b))
  | inr e ↦ elim (Bool-cases (is_gap c)) [
    | inl f ↦ let (a, b) = skip_gaps_exact (d ∷ rest) in rw (e, f) (a, omega (arith, b))
    | inr f ↦ rw (e, f) (f, omega arith)
  ]
]

length-take_token : (s : List ℕ) → length (take_token s).1 ≤ length s
unfolding take_token
length-take_token [] = omega arith
length-take_token (c ∷ []) = ground arith
length-take_token (c ∷ d ∷ rest) =
    ground (arith, length-take_token rest, length-take_token (d ∷ rest))

take_token_reads :
    (c : ℕ) (rest : List ℕ) → is_gap c ≡ false → length (take_token (c ∷ rest)).1 ≤ length rest
unfolding take_token
take_token_reads c [] h = rw h (omega arith)
take_token_reads c (d ∷ rest) h = elim (Bool-cases (c == b'\\' && (d == b'\n' || d == b' '))) [
  | inl e ↦ rw e (omega (arith, length-take_token rest))
  | inr e ↦ rw (e, h) (length-take_token (d ∷ rest))
]

add_dep_answers :
    (path : List ℕ) (deps : Option (List (List ℕ))) → deps ≢ none → add_dep path deps ≢ none
add_dep_answers path none h = h
add_dep_answers [] (some deps) h = h
add_dep_answers (c ∷ rest) (some deps) h = λ e. ground arith

read_deps_step :
    (fuel : ℕ) (rest gone : List ℕ)
    → skip_gaps rest ≡ gone
    → StartsPlain gone
    → ((more : List ℕ) → length more < length gone → read_deps fuel more ≢ none)
    → read_deps (suc fuel) rest ≢ none
unfolding read_deps
read_deps_step fuel rest [] h k f = rw (h, read_deps) (λ e. ground arith)
read_deps_step fuel rest (c ∷ more) h k f =
    rw (h, read_deps)
      (add_dep_answers (unescape_dep_token (take_token (c ∷ more)).0) _
        (f (take_token (c ∷ more)).1 (omega (arith, take_token_reads c more k))))

-- With more fuel than there are bytes, the loop over the tokens of a dependency file ends.
pub read_deps_enough : (fuel : ℕ) (rest : List ℕ) → length rest < fuel → read_deps fuel rest ≢ none
read_deps_enough zero rest h = absurd (omega arith)
read_deps_enough (suc fuel) rest h =
    let (a, b) = skip_gaps_exact rest in
    read_deps_step fuel rest (skip_gaps rest) refl a
      (λ more k. read_deps_enough fuel more (omega (arith, b)))

-- Whatever the data, the loop of ParseDepFile over the tokens ends: one unit of fuel more than there
-- are bytes behind the colon is enough.
pub parse_dep_file-ne-unfuelled : (data_bytes : List ℕ) → parse_dep_file data_bytes ≢ none
unfolding parse_dep_file
parse_dep_file-ne-unfuelled data_bytes =
    read_deps_enough (suc (length (behind_colon data_bytes))) (behind_colon data_bytes)
      (omega arith)
