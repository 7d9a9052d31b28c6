-- ===== src/Gloria/Lexer/Trivia.antt =====
-- The loop at the head of `NextToken`, over whitespace and comments.
use forge_zero.Prelude.{
  ℕ, zero, suc, ◌+◌, ◌≤◌, ◌<◌, ◌≡◌, refl, Bool, ◌&&◌, true, false, arith, length, ◌==◌, Bool-cases,
  inl, inr,
}
use forge_zero.Gloria.Lexer.{
  Lexer, skip_whitespace, skip_comment, skip_trivia, peek_char, is_space, in_comment,
}
use forge_zero.Gloria.Lexer.Advance.{
  IsValid, Advance, Advance-trans, Scanned, read_while-Scanned, pos-lt-length, Scanned-further,
}

pub Scanned-skip_whitespace : (l : Lexer) → IsValid l → Scanned is_space l (skip_whitespace l)
unfolding skip_whitespace
Scanned-skip_whitespace l v = read_while-Scanned is_space refl (length l.input) l v (omega arith)

pub Scanned-skip_comment : (l : Lexer) → IsValid l → Scanned in_comment l (skip_comment l)
unfolding skip_comment
Scanned-skip_comment l v = read_while-Scanned in_comment refl (length l.input) l v (omega arith)

abbrev pub at_comment : Lexer → Bool
at_comment l = l.ch == b'/' && peek_char l == b'/'

skip_trivia_stop :
    (fuel : ℕ) (l : Lexer)
    → at_comment (skip_whitespace l) ≡ false
    → skip_trivia fuel l ≡ skip_whitespace l
unfolding skip_trivia
skip_trivia_stop zero l h = refl
skip_trivia_stop (suc fuel) l h = rw h

skip_trivia_go :
    (fuel : ℕ) (l : Lexer)
    → at_comment (skip_whitespace l) ≡ true
    → skip_trivia (suc fuel) l ≡ skip_trivia fuel (skip_comment (skip_whitespace l))
unfolding skip_trivia
skip_trivia_go fuel l h = rw h

-- Reading a comment reads its first byte.
pos-skip_comment : (l : Lexer) → IsValid l → l.ch ≡ b'/' → l.pos < (skip_comment l).pos
pos-skip_comment l v h = Scanned-further v (rw h) (Scanned-skip_comment l v)

-- The loop ends on a byte that is neither whitespace nor the start of a comment.
pub record SkippedTrivia (l l' : Lexer) : Type 0 where
  pub moved : Advance l l'
  pub not_space : is_space l'.ch ≡ false
  pub not_comment : at_comment l' ≡ false

at_comment-slash : (l : Lexer) → at_comment l ≡ true → l.ch ≡ b'/'
at_comment-slash l h = ground arith

-- What the passage over a comment behind whitespace does.
comment_moves :
    (l : Lexer)
    → IsValid l
    → at_comment (skip_whitespace l) ≡ true
    → (l.pos < length l.input)
      × Advance l (skip_comment (skip_whitespace l))
      × (l.pos < (skip_comment (skip_whitespace l)).pos)
comment_moves l v go =
    let w : Scanned is_space l (skip_whitespace l) = Scanned-skip_whitespace l v in
    let slash : (skip_whitespace l).ch ≡ b'/' = at_comment-slash (skip_whitespace l) go in
    let inside : (skip_whitespace l).pos < length (skip_whitespace l).input =
      pos-lt-length (skip_whitespace l) w.moved.valid (λ e. omega arith) in
    let c : Scanned in_comment (skip_whitespace l) (skip_comment (skip_whitespace l)) =
      Scanned-skip_comment (skip_whitespace l) w.moved.valid in
    let inside' : (skip_whitespace l).pos < length l.input = rw w.moved.same at inside in
    (
      omega (arith, w.moved.forward),
      Advance-trans w.moved c.moved,
      omega (arith, w.moved.forward, pos-skip_comment (skip_whitespace l) w.moved.valid slash),
    )

settled :
    (fuel : ℕ) (l : Lexer)
    → IsValid l
    → at_comment (skip_whitespace l) ≡ false
    → SkippedTrivia l (skip_trivia fuel l)
settled fuel l v stop =
    let w : Scanned is_space l (skip_whitespace l) = Scanned-skip_whitespace l v in
    rw (skip_trivia_stop fuel l stop)
      (record { moved = w.moved; not_space = w.stopped; not_comment = stop })

SkippedTrivia-behind : {l m n : Lexer} → Advance l m → SkippedTrivia m n → SkippedTrivia l n
SkippedTrivia-behind a s = record {
  moved = Advance-trans a s.moved;
  not_space = s.not_space;
  not_comment = s.not_comment;
}

pub skip_trivia-SkippedTrivia :
    (fuel : ℕ) (l : Lexer)
    → IsValid l
    → length l.input ≤ fuel + l.pos
    → SkippedTrivia l (skip_trivia fuel l)
skip_trivia-SkippedTrivia zero l v h = elim (Bool-cases (at_comment (skip_whitespace l))) [
  | inl go ↦ absurd (omega (arith, (comment_moves l v go).0))
  | inr stop ↦ settled zero l v stop
]
skip_trivia-SkippedTrivia (suc fuel) l v h = elim (Bool-cases (at_comment (skip_whitespace l))) [
  | inl go ↦
      let (inside, a, further) = comment_moves l v go in
      let l' : Lexer = skip_comment (skip_whitespace l) in
      rw (skip_trivia_go fuel l go) (
        SkippedTrivia-behind a
          (skip_trivia-SkippedTrivia fuel l' a.valid (rw a.same (omega arith))))
  | inr stop ↦ settled (suc fuel) l v stop
]
