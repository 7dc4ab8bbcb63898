-- ===== src/Expression.antt =====
-- core/expression.c: the compiler of expressions, a recursive descent that writes the code of an
-- expression, operands first, while it reads the text. `rest` is the text from `pos` on, with the
-- zero at its end; reading past that is an error.
use bombyx.Prelude.{
  ℕ, ◌+◌, ◌-◌, Bool, true, false, ◌&&◌, ◌||◌, Option, none, some, List, [], ◌∷◌, ◌++◌, ltb, leb,
  ◌==◌, if◌then◌else◌, length,
}
use bombyx.Ctype.{is_space}
use bombyx.Run.{Run, ok, jump, fault, out_of_bounds, too_deep}
use bombyx.Bytecode.{Bytecode, bc_add_cmd, bc_add_token}
use bombyx.Bytecode.Reader.{parser_max_token_size}
pub mod Literal
pub mod Atom
pub mod Levels
pub mod Parse
pub mod Reads
pub mod Grammar
pub mod Ends
pub mod Tokens
pub mod Loops
pub mod Operands
pub mod Comparisons
pub mod Weights
pub mod Texts
pub mod Boundaries
pub mod Compiles
pub mod Correct
pub mod Cut

-- `parser_data`
pub record ParserData : Type 0 where
  pub rest : List ℕ
  pub bc : Bytecode

abbrev pub Parser : Type 0 → Type 0
Parser A = ParserData → Run (A × ParserData)

abbrev pub pure : {A : Type 0} → A → Parser A
pure a pd = ok (a, pd)

infixl 5 ◌>>=◌ ◌>>◌
abbrev pub ◌>>=◌ : {A B : Type 0} → Parser A → (A → Parser B) → Parser B
◌>>=◌ p f pd = elim (p pd) [ ok (a, pd') ↦ f a pd' | jump e ↦ jump e | fault e ↦ fault e ]

abbrev pub ◌>>◌ : {B : Type 0} → Parser (Unit {0}) → Parser B → Parser B
p >> q = p >>= λ _. q

-- larva_error
abbrev pub parser_error : {A : Type 0} → Parser A
parser_error pd = jump 1

-- a loop or a depth that the fuel does not reach
abbrev pub out_of_fuel : {A : Type 0} → Parser A
out_of_fuel pd = fault too_deep

unfoldable pub parser_peek : Parser ℕ
parser_peek pd = elim pd.rest [ [] ↦ jump 1 | c ∷ _ ↦ ok (c, pd) ]

-- `parser_peek_n(pd, 1)`
unfoldable pub parser_peek_next : Parser ℕ
parser_peek_next pd = elim pd.rest [
  | [] ↦ jump 1
  | _ ∷ rest ↦ elim rest [ [] ↦ jump 1 | c ∷ _ ↦ ok (c, pd) ]
]

unfoldable pub parser_eat : Parser ℕ
parser_eat pd = elim pd.rest [ [] ↦ jump 1 | c ∷ rest ↦ ok (c, record pd { rest = rest }) ]

unfoldable pub parser_skip : Parser (Unit {0})
parser_skip pd = elim pd.rest [ [] ↦ jump 1 | c ∷ rest ↦ ok (tt, record pd { rest = rest }) ]

-- The bytes up to the first one that fails the test, and that one with what follows; none if there
-- is no such byte.
unfoldable pub span : (ℕ → Bool) → List ℕ → Option (List ℕ × List ℕ)
span test [] = none
span test (c ∷ text) =
    let more : Option (List ℕ × List ℕ) = elim (span test text) [
      | none ↦ none
      | some (cs, rest) ↦ some (c ∷ cs, rest)
    ] in
    if test c then more else some ([], c ∷ text)

-- `while (test(parser_peek(pd))) token[pos++] = parser_eat(pd)`
unfoldable pub parser_eat_while : (ℕ → Bool) → Parser (List ℕ)
unfolding span
parser_eat_while test pd = elim (span test pd.rest) [
  | none ↦ jump 1
  | some (cs, rest) ↦ ok (cs, record pd { rest = rest })
]

unfoldable pub parser_eat_whitespace : Parser (Unit {0})
unfolding parser_eat_while
parser_eat_whitespace = do _ ← parser_eat_while is_space; pure tt

-- `token` has 256 bytes, the zero behind it included; nothing in the code keeps the text to that.
unfoldable pub fits_token : List ℕ → Parser (Unit {0})
fits_token token pd =
    if ltb (length token) parser_max_token_size then ok (tt, pd) else fault out_of_bounds

-- a call of one of the functions of core/bytecode.c
abbrev pub emit : (Bytecode → Run Bytecode) → Parser (Unit {0})
emit write pd = elim (write pd.bc) [
  | ok bc' ↦ ok (tt, record pd { bc = bc' })
  | jump e ↦ jump e
  | fault e ↦ fault e
]

unfoldable pub add_cmd : ℕ → Parser (Unit {0})
add_cmd cmd = emit (λ bc. bc_add_cmd bc cmd)

unfoldable pub add_token : List ℕ → Parser (Unit {0})
add_token token = emit (λ bc. bc_add_token bc token)
