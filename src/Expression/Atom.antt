-- ===== src/Expression/Atom.antt =====
-- core/expression.c: parser_read_builtin with its arguments, and parser_read_paren. The functions
-- recur through one another; a call of one of the levels that they stand under goes to `again`.
use bombyx.Prelude.{
  ℕ, zero, suc, ◌+◌, ◌%◌, ◌^◌, Bool, true, false, ◌||◌, List, [], ◌∷◌, ltb, leb, ◌==◌,
  if◌then◌else◌,
}
use bombyx.Ctype.{is_alpha, is_digit}
use bombyx.Double.{Double}
use bombyx.Table.{same_name}
use bombyx.Bytecode.Opcodes.{
  bco_print, bco_microtime, bco_reverse_stack, bco_call, bco_xcall, bco_add_elem, bco_set_elem,
  bco_access, bco_as_void, bco_as_var,
}
use bombyx.Expression.{
  Parser, pure, out_of_fuel, ◌>>=◌, ◌>>◌, parser_error, parser_peek, parser_eat, parser_skip,
  parser_eat_while, parser_eat_whitespace, fits_token, add_cmd, add_token,
}
use bombyx.Expression.Literal.{parser_read_double}

-- The functions that are called from below themselves.
pub data Level : Type 0 where
  boolean_or expr term power : Level

abbrev pub parser_max_argument_count : ℕ
parser_max_argument_count = 16

abbrev pub is_word : ℕ → Bool
is_word c = is_alpha c || is_digit c || c == b'_' || c == b'.'

-- "print", "microtime" and "_"
abbrev pub word_print : List ℕ
word_print = b'p' ∷ b'r' ∷ b'i' ∷ b'n' ∷ b't' ∷ []

abbrev pub word_microtime : List ℕ
word_microtime = b'm' ∷ b'i' ∷ b'c' ∷ b'r' ∷ b'o' ∷ b't' ∷ b'i' ∷ b'm' ∷ b'e' ∷ []

abbrev pub word_void : List ℕ
word_void = b'_' ∷ []

-- `if (parser_eat(pd) != c) parser_error(...)`
unfoldable pub expect : ℕ → Parser (Unit {0})
unfolding parser_eat
expect c = do e ← parser_eat; if e == c then pure tt else parser_error

module _ (again : Level → Parser (Unit {0})) where
  unfoldable pub parser_read_argument : Parser (Unit {0})
  unfolding parser_eat_whitespace parser_peek parser_skip
  parser_read_argument = do
    parser_eat_whitespace
    again expr
    parser_eat_whitespace
    c ← parser_peek
    if c == b',' then parser_skip else pure tt
    parser_eat_whitespace

  -- The arguments before the closing parenthesis; `n` have been read. `rounds` bounds the loop.
  unfoldable pub argument_loop : ℕ → ℕ → Parser ℕ
  unfolding parser_peek parser_eat_whitespace parser_skip
  argument_loop zero n = out_of_fuel
  argument_loop (suc rounds) n = do
    c ← parser_peek
    elim (c == b')') [
      | true ↦ pure n
      | false ↦ do
        if leb parser_max_argument_count n then parser_error else pure tt
        again expr
        parser_eat_whitespace
        c' ← parser_peek
        elim (c' == b')') [
          | true ↦ pure (n + 1)
          | false ↦ elim (c' == b',') [
            | true ↦ do parser_skip; parser_eat_whitespace; argument_loop rounds (n + 1)
            | false ↦ parser_error
          ]
        ]
    ]

  unfoldable pub parser_read_argument_list : ℕ → Parser ℕ
  unfolding parser_eat_whitespace argument_loop
  parser_read_argument_list rounds = do parser_eat_whitespace; argument_loop rounds 0

  -- A call, behind its opening parenthesis.
  unfoldable pub read_call : ℕ → List ℕ → Parser (Unit {0})
  unfolding same_name add_cmd add_token parser_read_argument_list expect
  read_call rounds token = do
    if same_name token word_print
        then (do again boolean_or; add_cmd bco_print)
        else if same_name token word_microtime
        then add_cmd bco_microtime
        else (do
          num_args ← parser_read_argument_list rounds
          if ltb 32 num_args then parser_error else pure tt
          if ltb 0 num_args then add_cmd bco_reverse_stack else pure tt
          add_cmd (num_args % 2 ^ 8)
          add_cmd bco_call
          add_token token)
    expect b')'

  -- `token[] = value`, behind the closing bracket
  unfoldable pub read_append : List ℕ → Parser (Unit {0})
  unfolding parser_eat_whitespace parser_peek parser_skip parser_read_argument add_cmd add_token
  read_append token = do
    parser_eat_whitespace
    c ← parser_peek
    if c == b'='
        then (do parser_skip; parser_read_argument; add_cmd bco_add_elem; add_token token)
        else parser_error

  -- `token[index]` and `token[index] = value`, behind the opening bracket
  unfoldable pub read_element : List ℕ → Parser (Unit {0})
  unfolding expect parser_eat_whitespace parser_peek parser_skip parser_read_argument add_cmd
      add_token
  read_element token = do
    again expr
    expect b']'
    parser_eat_whitespace
    c ← parser_peek
    if c == b'='
        then (do parser_skip; parser_read_argument; add_cmd bco_set_elem)
        else add_cmd bco_access
    add_token token

  unfoldable pub read_bracket : List ℕ → Parser (Unit {0})
  unfolding parser_skip parser_peek read_append read_element
  read_bracket token = do
    parser_skip
    c ← parser_peek
    if c == b']' then (do parser_skip; read_append token) else read_element token

  -- `token::token2(arguments)`, behind the first colon
  unfoldable pub read_cocoon_call : ℕ → List ℕ → Parser (Unit {0})
  unfolding parser_peek parser_eat parser_eat_while parser_skip fits_token parser_read_argument_list
      add_cmd add_token expect
  read_cocoon_call rounds token = do
    c ← parser_peek
    if c == b':' then pure tt else parser_error
    _ ← parser_eat
    token2 ← parser_eat_while is_word
    fits_token token2
    c' ← parser_peek
    if c' == b'('
        then (do
          parser_skip
          num_args ← parser_read_argument_list rounds
          if ltb 32 num_args then parser_error else pure tt
          add_cmd bco_xcall
          add_token token
          add_token token2
          add_cmd (num_args % 2 ^ 8)
          expect b')')
        else parser_error

  -- what follows a word
  unfoldable pub read_word : ℕ → List ℕ → Parser (Unit {0})
  unfolding parser_peek parser_skip read_call read_bracket read_cocoon_call add_cmd add_token
      same_name
  read_word rounds token = do
    c ← parser_peek
    if c == b'('
        then (do parser_skip; read_call rounds token)
        else if c == b'['
        then read_bracket token
        else if c == b':'
        then (do parser_skip; read_cocoon_call rounds token)
        else if same_name token word_void
        then add_cmd bco_as_void
        else (do add_cmd bco_as_var; add_token token)

module _ {D : Type 0} (fl : Double D) (again : Level → Parser (Unit {0})) (rounds : ℕ) where
  unfoldable pub parser_read_builtin : Parser (Unit {0})
  unfolding parser_peek parser_eat_while fits_token read_word parser_read_double
      parser_eat_whitespace
  parser_read_builtin = do
    c ← parser_peek
    if is_alpha c || c == b'_'
        then (do token ← parser_eat_while is_word; fits_token token; read_word again rounds token)
        else parser_read_double fl
    parser_eat_whitespace

  unfoldable pub parser_read_paren : Parser (Unit {0})
  unfolding parser_peek parser_skip parser_eat_whitespace parser_read_builtin
  parser_read_paren = do
    c ← parser_peek
    if c == b'('
        then (do
          parser_skip
          parser_eat_whitespace
          again boolean_or
          parser_eat_whitespace
          c' ← parser_peek
          if c' == b')' then pure tt else parser_error
          parser_skip)
        else parser_read_builtin
    parser_eat_whitespace
