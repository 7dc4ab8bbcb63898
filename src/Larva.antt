-- ===== src/Larva.antt =====
-- core/larva.c: the source text and the statements, up to the code of larva_silk. The text is the list
-- of the bytes that larva_chew has left, with the zero at its end; what was never written behind
-- them is a fault to read.
use bombyx.Prelude.{ℕ, Bool, List, [], ◌∷◌, drop, if◌then◌else◌}
use bombyx.Run.{ok, fault, uninitialised}
use bombyx.Expression.{Parser}
pub mod Chew
pub mod Rounds
pub mod Counter
pub mod Token
pub mod Words
pub mod Pieces
pub mod Balanced
pub mod Gives
pub mod Lines
pub mod Declares
pub mod Parameters
pub mod Statements
pub mod Assignments
pub mod Programs
pub mod Included
pub mod Chewed
pub mod Endless
pub mod Reading
pub mod Digest
pub mod Init

-- `env->code[env->code_pos]`
unfoldable pub code_at : Parser ℕ
code_at pd = elim pd.rest [ [] ↦ fault uninitialised | c ∷ _ ↦ ok (c, pd) ]

-- `++env->code_pos`
unfoldable pub next_pos : Parser (Unit {0})
next_pos pd = ok (tt, record pd { rest = drop 1 pd.rest })

-- `while (test(env->code[env->code_pos])) ++env->code_pos`: what is left.
unfoldable pub skip_while : (ℕ → Bool) → List ℕ → List ℕ
skip_while test [] = []
skip_while test (c ∷ code) = let rest = skip_while test code in if test c then rest else c ∷ code
