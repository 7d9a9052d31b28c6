-- ===== src/Gloria/Link/Ends.antt =====
-- The compilation of a program ends, but for a list of names without a closing bracket.
use forge_zero.Gloria.Lexer.{Lexer}
use forge_zero.Gloria.Action.{Action}
use forge_zero.Gloria.Action.Runs.{Runs}
use forge_zero.Gloria.Link.{Built, built, rejected, crashed, looping, unfuelled}

-- An answer that is not given for want of fuel.
abbrev Fuelled {ℓ} : {A : Type ℓ} → Built A → Type 0
Fuelled (built a) = Unit
Fuelled rejected = Unit
Fuelled crashed = Unit
Fuelled looping = Unit
Fuelled unfuelled = ⊥
