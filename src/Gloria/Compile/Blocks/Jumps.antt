-- ===== src/Gloria/Compile/Blocks/Jumps.antt =====
-- Where the jumps of `if` and `while` lead.
use forge_zero.Prelude.{
  ℕ, ◌+◌, ◌-◌, ◌%◌, ◌^◌, ◌≤◌, ◌≡◌, ◌≢◌, sym, ◌∙◌, [], ◌∷◌, ◌++◌, arith, length, get_or, length-set,
  length-append, get_or-set_same, get_or-set_other, little_endian, inr,
}
use forge_zero.Gloria.Action.{Word}
use forge_zero.Gloria.Compile.{Code}
use forge_zero.Gloria.Compile.Blocks.{jump_op, if_code, unpatched, while_code, patch, distance}
use forge_zero.Gloria.Link.Patch.{
  length-patch, read32, read32-patch_same, read32-patch_other, distance_leads,
}

-- The byte in front of the body of an if leads from the body's start to the end of the statement,
-- if the body has at most 127 bytes, as many as a short jump takes, and any other byte of the
-- statement is as it was emitted.
pub if_code_leads :
    (op : Word) (head body : Code) (j : ℕ)
    → length body ≤ 127
    → j ≢ length head + 1
    → (length head + 2 + get_or (if_code op head body) (length head + 1) 0
        ≡ length (if_code op head body))
      × (get_or (if_code op head body) j 0 ≡ get_or (head ++ jump_op op ∷ 0 ∷ body) j 0)
unfolding if_code
if_code_leads op head body j h n =
    let code : Code = head ++ jump_op op ∷ 0 ∷ body in
    let size : length code ≡ length head + (2 + length body) =
      omega (arith, length-append head (jump_op op ∷ 0 ∷ body)) in
    (
      rw
          (
            get_or-set_same 0 code (length head + 1) (length body % 256) (omega (arith, size)),
            length-set code (length head + 1) (length body % 256),
          )
          (omega (arith, size)),
      get_or-set_other 0 code (length head + 1) j (length body % 256) (λ e. n (sym e)),
    )

length-unpatched :
    (head body : Code) → length (unpatched head body) ≡ length head + length body + 11
length-unpatched head body = omega (
  arith,
  length-append head (0x0F ∷ 0x84 ∷ 0 ∷ 0 ∷ 0 ∷ 0 ∷ (body ++ 0xE9 ∷ 0 ∷ 0 ∷ 0 ∷ 0 ∷ [])),
  length-append body (0xE9 ∷ 0 ∷ 0 ∷ 0 ∷ 0 ∷ []),
)

-- The jump out of a while leads from its own end to the end of the statement, and the jump at the
-- end of the body leads from there to the start of the statement, counted modulo 2^32.
pub while_code_leads :
    (head body : Code)
    → (length (while_code head body) ≡ length head + length body + 11)
      × ((length head + 6 + read32 (while_code head body) (length head + 2)) % 2 ^ 32
          ≡ length (while_code head body) % 2 ^ 32)
      × ((length (while_code head body)
              + read32 (while_code head body) (length (while_code head body) - 4))
            % 2 ^ 32
          ≡ 0)
unfolding while_code
while_code_leads head body =
    let code : Code = unpatched head body in
    let size : length code ≡ length head + length body + 11 = length-unpatched head body in
    let back : ℕ = distance 0 (length code) in
    let out : ℕ = distance (length code) (length head + 6) in
    let once : Code = patch code (length code - 4) (little_endian 4 back) in
    let same : length once ≡ length code =
      length-patch code (length code - 4) (little_endian 4 back) in
    let twice : length (patch once (length head + 2) (little_endian 4 out)) ≡ length code =
      length-patch once (length head + 2) (little_endian 4 out) ∙ same in
    let (small_out, leads_out) = distance_leads (length code) (length head + 6) in
    let (small_back, leads_back) = distance_leads 0 (length code) in
    (
      twice ∙ size,
      rw (read32-patch_same once (length head + 2) out (omega (arith, same, size)) small_out, twice)
          leads_out,
      rw
          (
            twice,
            read32-patch_other once (length head + 2) out (length code - 4)
                (inr (omega (arith, size))),
            read32-patch_same code (length code - 4) back (omega (arith, size)) small_back,
          )
          leads_back,
    )
