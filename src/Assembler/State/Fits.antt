-- ===== src/Assembler/State/Fits.antt =====
-- An invariant of the state of the parser.
use forge_zero.Prelude.{
  ℕ, ◌+◌, ◌-◌, ◌^◌, ◌≤◌, ◌<◌, List, [], ◌∷◌, ◌++◌, bytes_eq, ◌==◌, leb, arith, length,
  length-append, Bool-cases, Option-cases, inl, inr, if◌then◌else◌, All,
}
use forge_zero.Assembler.Text.{Answer, good, fault, panic}
use forge_zero.Assembler.State.{
  Place, in_text, in_data, in_bss, Symbol, Reloc, Parser, section_index, current_offset, append_at,
  append_bytes, find_symbol, redefine, update_symbol, symbol_capacity, add_symbol, define_label,
  define_global,
}
use forge_zero.Assembler.State.Table.{
  Distinct, length-update_symbol, update_symbol-Distinct, append-Distinct,
}

-- A symbol that is defined in .text or .data lies in its section, where .text has `t` bytes and
-- .data has `d`. Of one in .bss only the range of the type is said, since the size of .bss wraps.
abbrev pub LiesIn : ℕ → ℕ → Symbol → Type 0
LiesIn t d s =
    s.bind ≤ 1
    × s.shndx ≤ 3
    × s.value ≤ (
        if s.shndx == 0
        then 0
        else if s.shndx == 1
        then t
        else if s.shndx == 2
        then d
        else 2 ^ 64 - 1)

-- The bytes that a relocation is for.
abbrev pub reloc_width : ℕ → ℕ
reloc_width typ = if typ == 1 then 8 else 4

-- A relocation is for one of `n` symbols and for bytes that were emitted in its section. In .bss
-- they are `b`; they do not count in its size.
abbrev pub Fits : ℕ → ℕ → ℕ → ℕ → Reloc → Type 0
Fits n t d b r =
    r.sym < n
    × r.typ ≤ 2
    × r.addend < 2 ^ 64
    × r.off + reloc_width r.typ
      ≤ (if r.sec == 1 then t else if r.sec == 2 then d else if r.sec == 3 then b else 0)

abbrev pub Valid : Parser → Type 0
Valid p =
    Distinct p.symbols
    × length p.symbols ≤ symbol_capacity
    × All (LiesIn (length p.text) (length p.data_bytes)) p.symbols
    × All (Fits (length p.symbols) (length p.text) (length p.data_bytes) (length p.bss_bytes))
        p.relocs
    × p.bss_size < 2 ^ 64

abbrev pub ValidAnswer : Answer Parser → Type 0
ValidAnswer (good p) = Valid p
ValidAnswer fault = Unit
ValidAnswer panic = Unit

All-LiesIn :
    (t d t' d' : ℕ) (xs : List Symbol)
    → t ≤ t'
    → d ≤ d'
    → All (LiesIn t d) xs
    → All (LiesIn t' d') xs
All-LiesIn t d t' d' [] h k a = tt
All-LiesIn t d t' d' (s ∷ rest) h k (a, more) = (ground arith, All-LiesIn t d t' d' rest h k more)

All-Fits :
    (n t d b n' t' d' b' : ℕ) (rs : List Reloc)
    → n ≤ n'
    → t ≤ t'
    → d ≤ d'
    → b ≤ b'
    → All (Fits n t d b) rs
    → All (Fits n' t' d' b') rs
All-Fits n t d b n' t' d' b' [] h k l m a = tt
All-Fits n t d b n' t' d' b' (r ∷ rest) h k l m (a, more) =
    (ground arith, All-Fits n t d b n' t' d' b' rest h k l m more)

pub All-append {ℓ κ} :
    {A : Type ℓ} (P : A → Type κ) (xs : List A) (x : A) → All P xs → P x → All P (xs ++ x ∷ [])
All-append P [] x h k = (k, tt)
All-append P (y ∷ ys) x (h, more) k = (h, All-append P ys x more k)

pub append_at-Valid :
    (place : Place) (bytes : List ℕ) (p : Parser) → Valid p → Valid (append_at place bytes p)
append_at-Valid in_text bytes p (a, b, c, d, e) = (
  a,
  b,
  All-LiesIn _ _ _ _ p.symbols (omega (arith, length-append p.text bytes)) (omega arith) c,
  All-Fits _ _ _ _ _ _ _ _ p.relocs (omega arith) (omega (arith, length-append p.text bytes))
      (omega arith) (omega arith) d,
  e,
)
append_at-Valid in_data bytes p (a, b, c, d, e) = (
  a,
  b,
  All-LiesIn _ _ _ _ p.symbols (omega arith) (omega (arith, length-append p.data_bytes bytes)) c,
  All-Fits _ _ _ _ _ _ _ _ p.relocs (omega arith) (omega arith)
      (omega (arith, length-append p.data_bytes bytes)) (omega arith) d,
  e,
)
append_at-Valid in_bss bytes p (a, b, c, d, e) = (
  a,
  b,
  c,
  All-Fits _ _ _ _ _ _ _ _ p.relocs (omega arith) (omega arith) (omega arith)
      (omega (arith, length-append p.bss_bytes bytes)) d,
  e,
)

pub append_bytes-Valid : (bytes : List ℕ) (p : Parser) → Valid p → Valid (append_bytes bytes p)
unfolding append_bytes
append_bytes-Valid bytes p h = append_at-Valid p.current bytes p h

update_symbol-LiesIn :
    (t d : ℕ) (xs : List Symbol) (name : List ℕ) (value shndx bind : ℕ)
    → LiesIn t d (record { name = name; value = value; shndx = shndx; bind = bind })
    → All (LiesIn t d) xs
    → All (LiesIn t d) (update_symbol xs name value shndx bind)
unfolding update_symbol redefine
update_symbol-LiesIn t d [] name value shndx bind h a = tt
update_symbol-LiesIn t d (s ∷ rest) name value shndx bind h (a, more) =
    elim (Bool-cases (bytes_eq s.name name)) [
      | inl e ↦ rw e (ground arith, more)
      | inr e ↦ rw e (a, update_symbol-LiesIn t d rest name value shndx bind h more)
    ]

pub add_symbol-Valid :
    (name : List ℕ) (value shndx bind : ℕ) (p : Parser)
    → LiesIn
        (length p.text)
        (length p.data_bytes)
        (record { name = name; value = value; shndx = shndx; bind = bind })
    → Valid p
    → ValidAnswer (add_symbol name value shndx bind p)
unfolding add_symbol
add_symbol-Valid name value shndx bind p h (a, b, c, d, e) =
    elim (Option-cases (find_symbol p.symbols name)) [
      | inr (i, f) ↦
          let l = length-update_symbol p.symbols name value shndx bind in
          rw (f, add_symbol)
            (
              update_symbol-Distinct p.symbols name value shndx bind a,
              omega (arith, l),
              update_symbol-LiesIn _ _ p.symbols name value shndx bind h c,
              All-Fits _ _ _ _ _ _ _ _ p.relocs (omega (arith, l)) (omega arith) (omega arith)
                  (omega arith) d,
              e,
            )
      | inl f ↦ elim (Bool-cases (leb symbol_capacity (length p.symbols))) [
        | inl g ↦ rw (f, g, add_symbol) tt
        | inr g ↦
            let s : Symbol = record { name = name; value = value; shndx = shndx; bind = bind } in
            let l = length-append p.symbols (s ∷ []) in
            rw (f, g, add_symbol)
              (
                append-Distinct p.symbols s a f,
                ground (arith, l),
                All-append _ p.symbols s c h,
                All-Fits _ _ _ _ _ _ _ _ p.relocs (omega (arith, l)) (omega arith) (omega arith)
                    (omega arith) d,
                e,
              )
      ]
    ]

label_place :
    (place : Place) (p : Parser)
    → p.bss_size < 2 ^ 64
    → LiesIn (length p.text) (length p.data_bytes) (record {
      name = [];
      value = current_offset (record p { current = place });
      shndx = section_index place;
      bind = 0;
    })
label_place in_text p h = ground arith
label_place in_data p h = ground arith
label_place in_bss p h = ground arith

pub define_label-Valid : (name : List ℕ) (p : Parser) → Valid p → ValidAnswer (define_label name p)
unfolding define_label
define_label-Valid [] p h = tt
define_label-Valid (c ∷ rest) p h =
    add_symbol-Valid (c ∷ rest) (current_offset p) (section_index p.current) 0 p
      (label_place p.current p h.4) h

pub define_global-Valid :
    (name : List ℕ) (p : Parser) → Valid p → ValidAnswer (define_global name p)
unfolding define_global
define_global-Valid [] p h = tt
define_global-Valid (c ∷ rest) p h = add_symbol-Valid (c ∷ rest) 0 0 1 p (ground arith) h
