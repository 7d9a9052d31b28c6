-- ===== src/Gloria/Code/Peephole.antt =====
-- What the peephole pass does to code.
use forge_zero.Prelude.{
  ℕ, ◌+◌, ◌/◌, ◌%◌, ◌^◌, ◌≤◌, ◌<◌, ◌≡◌, refl, ap, List, [], ◌∷◌, Bool, true, false, ◌&&◌, ◌||◌,
  arith, length, Bool-cases, inl, inr, ◌==◌, little_endian,
}
use forge_zero.Gloria.Code.{self_move, peephole, emit_mov_imm64_to_reg}

abbrev pub is_self_move : ℕ → ℕ → ℕ → Bool
is_self_move a b m = a == 0x48 && b == 0x89 && self_move m

-- Three bytes in a row read as a move of a register to itself.
abbrev pub has_self_move : List ℕ → Bool
has_self_move [] = false
has_self_move (a ∷ []) = false
has_self_move (a ∷ b ∷ []) = false
has_self_move (a ∷ b ∷ m ∷ rest) = is_self_move a b m || has_self_move (b ∷ m ∷ rest)

-- The pass keeps code without such bytes as it is.
pub peephole_keeps : (code : List ℕ) → has_self_move code ≡ false → peephole code ≡ code
unfolding peephole
peephole_keeps [] h = refl
peephole_keeps (a ∷ []) h = refl
peephole_keeps (a ∷ b ∷ []) h = refl
peephole_keeps (a ∷ b ∷ m ∷ rest) h = elim (Bool-cases (is_self_move a b m)) [
  | inl e ↦ absurd (ground (arith, e, h))
  | inr e ↦ rw e (ap (λ l. a ∷ l) (peephole_keeps (b ∷ m ∷ rest) (ground (arith, e, h))))
]

peephole_drops :
    (a b m : ℕ) (rest : List ℕ)
    → is_self_move a b m ≡ true
    → peephole (a ∷ b ∷ m ∷ rest) ≡ peephole rest
unfolding peephole
peephole_drops a b m rest h = rw h refl

peephole_takes :
    (a b m : ℕ) (rest : List ℕ)
    → is_self_move a b m ≡ false
    → peephole (a ∷ b ∷ m ∷ rest) ≡ a ∷ peephole (b ∷ m ∷ rest)
unfolding peephole
peephole_takes a b m rest h = rw h refl

pub length-peephole : (code : List ℕ) → length (peephole code) ≤ length code
unfolding peephole
length-peephole [] = omega arith
length-peephole (a ∷ []) = omega arith
length-peephole (a ∷ b ∷ []) = omega arith
length-peephole (a ∷ b ∷ m ∷ rest) = elim (Bool-cases (is_self_move a b m)) [
  | inl e ↦ rw e (omega (arith, length-peephole rest))
  | inr e ↦ rw e (omega (arith, length-peephole (b ∷ m ∷ rest)))
]

-- A load of a register below 8 with a number whose two low bytes are 48 89, and whose third byte
-- reads as a register twice, loses three of its ten bytes or more.
pub peephole_breaks_number :
    (reg v : ℕ)
    → reg < 8
    → v % 2 ^ 16 ≡ 0x8948
    → self_move (v / 2 ^ 16 % 256) ≡ true
    → length (peephole (emit_mov_imm64_to_reg reg v)) ≤ 7
unfolding emit_mov_imm64_to_reg little_endian
peephole_breaks_number reg v r h k =
    let op : ℕ = (0xB8 + reg) % 256 in
    let c : ℕ = v / 256 / 256 % 256 in
    let rest : List ℕ = little_endian 5 (v / 256 / 256 / 256) in
    let low : v % 256 ≡ 0x48 = omega arith in
    let high : v / 256 % 256 ≡ 0x89 = omega arith in
    let third : v / 256 / 256 % 256 ≡ v / 2 ^ 16 % 256 = omega arith in
    let first : is_self_move 0x48 op 0x48 ≡ false = ground (arith) in
    let second : is_self_move op 0x48 0x89 ≡ false = ground (arith) in
    let same : is_self_move 0x48 0x89 c ≡ true = rw third k in
    rw
      (
        low,
        high,
        peephole_takes 0x48 op 0x48 (0x89 ∷ c ∷ rest) first,
        peephole_takes op 0x48 0x89 (c ∷ rest) second,
        peephole_drops 0x48 0x89 c rest same,
      )
      (omega (arith, length-peephole rest))
