-- ===== src/Assembler/State/Order.antt =====
-- The order of a label and of the directive global for its name.
use forge_zero.Prelude.{
  ℕ, ◌≡◌, refl, sym, ap, ◌∙◌, List, [], ◌∷◌, ◌++◌, true, false, none, some, bytes_eq, length,
  Bool-cases, Option-cases, inl, inr, leb,
}
use forge_zero.Assembler.Text.{good, fault, ◌>>=◌}
use forge_zero.Assembler.State.{
  Place, in_text, in_data, in_bss, Symbol, Parser, section_index, current_offset, find_symbol,
  redefine, update_symbol, symbol_capacity, add_symbol, define_label, define_global,
}
use forge_zero.Assembler.State.Table.{bytes_eq_refl, find_symbol-none, find_symbol-update_symbol}

pub find_symbol_last :
    (xs : List Symbol) (s : Symbol)
    → find_symbol xs s.name ≡ none
    → find_symbol (xs ++ s ∷ []) s.name ≡ some (length xs)
unfolding find_symbol
find_symbol_last [] s h = rw (bytes_eq_refl s.name) refl
find_symbol_last (x ∷ xs) s h =
    let (e, f) = find_symbol-none x xs s.name h in rw (e, find_symbol_last xs s f) refl

update_symbol_last :
    (xs : List Symbol) (s : Symbol) (value shndx bind : ℕ)
    → find_symbol xs s.name ≡ none
    → update_symbol (xs ++ s ∷ []) s.name value shndx bind ≡ xs ++ redefine s value shndx bind ∷ []
unfolding update_symbol find_symbol
update_symbol_last [] s value shndx bind h = rw (bytes_eq_refl s.name) refl
update_symbol_last (x ∷ xs) s value shndx bind h =
    let (e, f) = find_symbol-none x xs s.name h in
    rw (e, update_symbol_last xs s value shndx bind f) refl

update_symbol_here :
    (s : Symbol) (rest : List Symbol) (name : List ℕ) (value shndx bind : ℕ)
    → bytes_eq s.name name ≡ true
    → update_symbol (s ∷ rest) name value shndx bind ≡ redefine s value shndx bind ∷ rest
unfolding update_symbol
update_symbol_here s rest name value shndx bind h = rw h refl

update_symbol_past :
    (s : Symbol) (rest : List Symbol) (name : List ℕ) (value shndx bind : ℕ)
    → bytes_eq s.name name ≡ false
    → update_symbol (s ∷ rest) name value shndx bind ≡ s ∷ update_symbol rest name value shndx bind
unfolding update_symbol
update_symbol_past s rest name value shndx bind h = rw h refl

update_symbol_twice :
    (xs : List Symbol) (name : List ℕ) (value shndx : ℕ)
    → update_symbol (update_symbol xs name value shndx 0) name 0 0 1
      ≡ update_symbol (update_symbol xs name 0 0 1) name value shndx 0
unfolding update_symbol redefine
update_symbol_twice [] name value shndx = refl
update_symbol_twice (s ∷ rest) name value shndx = elim (Bool-cases (bytes_eq s.name name)) [
  | inl e ↦
      ap (λ l. update_symbol l name 0 0 1) (update_symbol_here s rest name value shndx 0 e)
      ∙ update_symbol_here (redefine s value shndx 0) rest name 0 0 1 e
      ∙ sym (
          ap (λ l. update_symbol l name value shndx 0) (update_symbol_here s rest name 0 0 1 e)
          ∙ update_symbol_here (redefine s 0 0 1) rest name value shndx 0 e)
  | inr e ↦
      ap (λ l. update_symbol l name 0 0 1) (update_symbol_past s rest name value shndx 0 e)
      ∙ update_symbol_past s (update_symbol rest name value shndx 0) name 0 0 1 e
      ∙ ap (λ l. s ∷ l) (update_symbol_twice rest name value shndx)
      ∙ sym (
          ap (λ l. update_symbol l name value shndx 0) (update_symbol_past s rest name 0 0 1 e)
          ∙ update_symbol_past s (update_symbol rest name 0 0 1) name value shndx 0 e)
]

-- A symbol that is found, and one that is not.
pub add_symbol_found :
    (name : List ℕ) (value shndx bind i : ℕ) (p : Parser)
    → find_symbol p.symbols name ≡ some i
    → add_symbol name value shndx bind p
      ≡ good (record p { symbols = update_symbol p.symbols name value shndx bind })
unfolding add_symbol
add_symbol_found name value shndx bind i p h = rw (h, add_symbol) refl

pub add_symbol_new :
    (name : List ℕ) (value shndx bind : ℕ) (p : Parser)
    → find_symbol p.symbols name ≡ none
    → leb symbol_capacity (length p.symbols) ≡ false
    → add_symbol name value shndx bind p
      ≡ good (record p {
        symbols =
            p.symbols ++ record { name = name; value = value; shndx = shndx; bind = bind } ∷ [];
      })
unfolding add_symbol
add_symbol_new name value shndx bind p h k = rw (h, k, add_symbol) refl

pub add_symbol_full :
    (name : List ℕ) (value shndx bind : ℕ) (p : Parser)
    → find_symbol p.symbols name ≡ none
    → leb symbol_capacity (length p.symbols) ≡ true
    → add_symbol name value shndx bind p ≡ fault
unfolding add_symbol
add_symbol_full name value shndx bind p h k = rw (h, k, add_symbol) refl

section_redefined :
    (place : Place) (name : List ℕ) (value : ℕ)
    → redefine (record { name = name; value = value; shndx = section_index place; bind = 0 }) 0 0 1
      ≡ redefine
          (record { name = name; value = 0; shndx = 0; bind = 1 })
          value
          (section_index place)
          0
unfolding redefine
section_redefined in_text name value = refl
section_redefined in_data name value = refl
section_redefined in_bss name value = refl

define_commutes :
    (c : ℕ) (rest : List ℕ) (p : Parser)
    → (define_label (c ∷ rest) p >>= define_global (c ∷ rest))
      ≡ (define_global (c ∷ rest) p >>= define_label (c ∷ rest))
unfolding define_label define_global
define_commutes c rest p =
    let name = c ∷ rest in
    let value = current_offset p in
    let shndx = section_index p.current in
    elim (Option-cases (find_symbol p.symbols name)) [
      | inr (i, e) ↦
          let f = find_symbol-update_symbol p.symbols name name value shndx 0 ∙ e in
          let g = find_symbol-update_symbol p.symbols name name 0 0 1 ∙ e in
          rw (add_symbol_found name value shndx 0 i p e, add_symbol_found name 0 0 1 i p e)
            (add_symbol_found name 0 0 1 i
                (record p { symbols = update_symbol p.symbols name value shndx 0 }) f
              ∙ ap (λ l. good (record p { symbols = l }))
                  (update_symbol_twice p.symbols name value shndx)
              ∙ sym (
                  add_symbol_found name value shndx 0 i
                    (record p { symbols = update_symbol p.symbols name 0 0 1 }) g))
      | inl e ↦ elim (Bool-cases (leb symbol_capacity (length p.symbols))) [
        | inl f ↦
            rw (add_symbol_full name value shndx 0 p e f, add_symbol_full name 0 0 1 p e f) refl
        | inr f ↦
            let l : Symbol = record { name = name; value = value; shndx = shndx; bind = 0 } in
            let g : Symbol = record { name = name; value = 0; shndx = 0; bind = 1 } in
            rw (add_symbol_new name value shndx 0 p e f, add_symbol_new name 0 0 1 p e f)
              (add_symbol_found name 0 0 1 (length p.symbols)
                  (record p { symbols = p.symbols ++ l ∷ [] }) (find_symbol_last p.symbols l e)
                ∙ ap (λ k. good (record p { symbols = k }))
                    (update_symbol_last p.symbols l 0 0 1 e
                      ∙ ap (λ s. p.symbols ++ s ∷ []) (section_redefined p.current name value)
                      ∙ sym (update_symbol_last p.symbols g value shndx 0 e))
                ∙ sym (
                    add_symbol_found name value shndx 0 (length p.symbols)
                      (record p { symbols = p.symbols ++ g ∷ [] })
                      (find_symbol_last p.symbols g e)))
      ]
    ]

-- The directive global in front of the label of a name and behind it have the same outcome: the same
-- state, with the same table of symbols, or an error in both orders.
pub define_label-define_global :
    (name : List ℕ) (p : Parser)
    → (define_label name p >>= define_global name) ≡ (define_global name p >>= define_label name)
unfolding define_label define_global
define_label-define_global [] p = refl
define_label-define_global (c ∷ rest) p = define_commutes c rest p
