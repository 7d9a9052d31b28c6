-- ===== src/Gloria/Lexer/Advance.antt =====
-- The invariant of the lexer's state, and how its loops move through the input.
use forge_zero.Prelude.{
  ℕ, zero, suc, ◌+◌, ◌≤◌, ◌<◌, ◌≡◌, ◌≢◌, refl, Bool, true, false, arith, length, get_or,
  get_or_bound, Bool-cases, inl, inr, List, [], ◌∷◌, ap, sym, ◌∙◌,
}
use native.Mathlib.Decide.{dec_lt}
use forge_zero.Gloria.Lexer.{Lexer, read_char, read_while}

-- The position is in the input or just behind it, and `ch` is the byte there.
pub record IsValid (l : Lexer) : Type 0 where
  pub bound : l.pos ≤ length l.input
  pub ahead : l.read_pos ≡ l.pos + 1
  pub current : l.ch ≡ get_or l.input l.pos 0

-- `l'` is a valid state on the same input, at or behind the position of `l`.
pub record Advance (l l' : Lexer) : Type 0 where
  pub same : l'.input ≡ l.input
  pub valid : IsValid l'
  pub forward : l.pos ≤ l'.pos

pub Advance-refl : {l : Lexer} → IsValid l → Advance l l
Advance-refl v = record { same = refl; valid = v; forward = omega arith }

pub Advance-trans : {l m n : Lexer} → Advance l m → Advance m n → Advance l n
Advance-trans a b = record { same = ground arith; valid = b.valid; forward = omega arith }

-- At a byte other than 0 the position is inside the input.
pub pos-lt-length : (l : Lexer) → IsValid l → l.ch ≢ 0 → l.pos < length l.input
pos-lt-length l v h = get_or_bound l.input l.pos (ground (arith, h))

get_or_beyond : (xs : List ℕ) (i : ℕ) → length xs ≤ i → get_or xs i 0 ≡ 0
get_or_beyond [] i h = refl
get_or_beyond (x ∷ xs) zero h = absurd (omega arith)
get_or_beyond (x ∷ xs) (suc i) h = get_or_beyond xs i (omega arith)

pub Advance-read_char : (l : Lexer) → IsValid l → l.pos < length l.input → Advance l (read_char l)
unfolding read_char
Advance-read_char l v h = record {
  same = refl;
  valid = record {
    bound = ground arith;
    ahead = refl;
    current = ground (arith, get_or_beyond l.input l.read_pos);
  };
  forward = ground arith;
}

pub pos-read_char : (l : Lexer) → IsValid l → (read_char l).pos ≡ l.pos + 1
unfolding read_char
pos-read_char l v = v.ahead

pub input-read_char : (l : Lexer) → (read_char l).input ≡ l.input
unfolding read_char
input-read_char l = refl

-- What a loop over `test` has done when it ends: it stopped at the first byte that fails the test.
pub record Scanned (test : ℕ → Bool) (l l' : Lexer) : Type 0 where
  pub moved : Advance l l'
  pub stopped : test l'.ch ≡ false
  pub passed : (i : ℕ) → l.pos ≤ i → i < l'.pos → test (get_or l.input i 0) ≡ true

module _ (test : ℕ → Bool) where
  read_while_stop : (fuel : ℕ) (l : Lexer) → test l.ch ≡ false → read_while test fuel l ≡ l
  unfolding read_while
  read_while_stop zero l h = refl
  read_while_stop (suc fuel) l h = rw h

  read_while_go :
      (fuel : ℕ) (l : Lexer)
      → test l.ch ≡ true
      → read_while test (suc fuel) l ≡ read_while test fuel (read_char l)
  unfolding read_while
  read_while_go fuel l h = rw h

  Scanned-refl : (l : Lexer) → IsValid l → test l.ch ≡ false → Scanned test l l
  Scanned-refl l v h = record {
    moved = Advance-refl v;
    stopped = h;
    passed = λ i low high. absurd (omega arith);
  }

  Scanned-step :
      (l l' : Lexer)
      → IsValid l
      → l.pos < length l.input
      → test l.ch ≡ true
      → Scanned test (read_char l) l'
      → Scanned test l l'
  Scanned-step l l' v inside h s = record {
    moved = Advance-trans (Advance-read_char l v inside) s.moved;
    stopped = s.stopped;
    passed = λ i low high. elim (dec_lt l.pos i) [
      | yes p ↦ rw (input-read_char l) at (s.passed i (omega (arith, pos-read_char l v)) high)
      | no p ↦ let e : i ≡ l.pos = omega arith in rw e (rw (← v.current) h)
    ];
  }

  module _ (at_end : test 0 ≡ false) where
    test-ne-zero : (l : Lexer) → test l.ch ≡ true → l.ch ≢ 0
    test-ne-zero l h e = cc (at_end, h, ap test e)

    pub read_while-Scanned :
        (fuel : ℕ) (l : Lexer)
        → IsValid l
        → length l.input ≤ fuel + l.pos
        → Scanned test l (read_while test fuel l)
    read_while-Scanned zero l v h = elim (Bool-cases (test l.ch)) [
      | inl go ↦ absurd (omega (arith, pos-lt-length l v (test-ne-zero l go)))
      | inr stop ↦ rw (read_while_stop zero l stop) (Scanned-refl l v stop)
    ]
    read_while-Scanned (suc fuel) l v h = elim (Bool-cases (test l.ch)) [
      | inl go ↦
          let inside : l.pos < length l.input = pos-lt-length l v (test-ne-zero l go) in
          let a : Advance l (read_char l) = Advance-read_char l v inside in
          rw (read_while_go fuel l go) (
            Scanned-step l _ v inside go (
              read_while-Scanned fuel (read_char l) a.valid
                (rw (input-read_char l) (omega (arith, pos-read_char l v)))))
      | inr stop ↦ rw (read_while_stop (suc fuel) l stop) (Scanned-refl l v stop)
    ]

-- A loop whose test the current byte passes reads a byte at least.
pub Scanned-further :
    {test : ℕ → Bool} {l l' : Lexer}
    → IsValid l
    → test l.ch ≡ true
    → Scanned test l l'
    → l.pos < l'.pos
Scanned-further {test} {l} {l'} v h s = elim (dec_lt l.pos l'.pos) [
  | yes p ↦ p
  | no p ↦
      let here : l'.pos ≡ l.pos = omega (arith, s.moved.forward) in
      let same : l'.ch ≡ l.ch = s.moved.valid.current ∙ rw (s.moved.same, here) (sym v.current) in
      cc (h, s.stopped, ap test same)
]
