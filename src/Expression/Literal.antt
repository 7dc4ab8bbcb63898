-- ===== src/Expression/Literal.antt =====
-- core/expression.c: parser_read_double, which reads a number or a string in quotes.
use bombyx.Prelude.{
  ℕ, Bool, not, ◌||◌, none, some, List, [], ◌∷◌, ◌++◌, ltb, ◌==◌, if◌then◌else◌, length,
}
use bombyx.Ctype.{is_digit}
use bombyx.Run.{ok, jump, fault, out_of_bounds}
use bombyx.Double.{Double}
use bombyx.Bytecode.{bc_add_string, bc_add_double}
use bombyx.Bytecode.Reader.{parser_max_token_size}
use bombyx.Bytecode.Opcodes.{bco_as_string, bco_as_double}
use bombyx.Expression.{
  Parser, pure, ◌>>=◌, ◌>>◌, parser_error, parser_peek, parser_eat, parser_skip, span,
  parser_eat_while, parser_eat_whitespace, fits_token, emit, add_cmd,
}

-- one byte, if it passes the test
unfoldable pub eat_if : (ℕ → Bool) → Parser (List ℕ)
unfolding parser_peek parser_eat
eat_if test = do c ← parser_peek; if test c then (do e ← parser_eat; pure (e ∷ [])) else pure []

abbrev pub is_sign : ℕ → Bool
is_sign c = c == b'+' || c == b'-'

-- The text of a string; a closing quote that never comes is an error, behind 256 bytes an overflow.
unfoldable pub quoted_text : Parser (List ℕ)
unfolding span
quoted_text pd = elim (span (λ c. not (c == b'\'')) pd.rest) [
  | none ↦ if ltb parser_max_token_size (length pd.rest) then fault out_of_bounds else jump 1
  | some (cs, rest) ↦ ok (cs, record pd { rest = rest })
]

-- A string, from its opening quote on.
unfoldable pub read_quoted : Parser (Unit {0})
unfolding parser_skip quoted_text add_cmd fits_token
read_quoted = do
  parser_skip
  token ← quoted_text
  fits_token token
  add_cmd bco_as_string
  emit (λ bc. bc_add_string bc token)
  parser_skip

-- `e` with a sign or none, if it is there, and the digits behind
unfoldable pub read_exponent : Parser (List ℕ)
unfolding eat_if parser_eat_while
read_exponent = do
  e ← eat_if (λ c. c == b'e' || c == b'E')
  e_sign ← elim e [ [] ↦ pure [] | _ ∷ _ ↦ eat_if is_sign ]
  exponent ← parser_eat_while is_digit
  pure (e ++ (e_sign ++ exponent))

module _ {D : Type 0} (fl : Double D) where
  unfoldable pub emit_number : List ℕ → Parser (Unit {0})
  unfolding fits_token add_cmd
  emit_number token = do
    fits_token token
    if length token == 0 then parser_error else pure tt
    add_cmd bco_as_double
    emit (λ bc. bc_add_double ⦃fl = fl⦄ bc (fl.strtod token))

  -- A number, behind its sign.
  unfoldable pub read_number : List ℕ → Parser (Unit {0})
  unfolding parser_eat_while parser_peek eat_if parser_eat_whitespace read_exponent emit_number
  read_number sign = do
    whole ← parser_eat_while is_digit
    point ← eat_if (λ c. c == b'.')
    fraction ← parser_eat_while is_digit
    exponent ← read_exponent
    parser_eat_whitespace
    emit_number (sign ++ (whole ++ (point ++ (fraction ++ exponent))))

  -- The quote is looked for where the sign was.
  unfoldable pub parser_read_double : Parser (Unit {0})
  unfolding parser_peek eat_if read_quoted read_number
  parser_read_double = do
    c ← parser_peek
    sign ← eat_if is_sign
    if c == b'\'' then read_quoted else read_number sign
