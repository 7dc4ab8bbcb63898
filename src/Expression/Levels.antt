-- ===== src/Expression/Levels.antt =====
-- core/expression.c: the levels of operators, from the tightest to the loosest.
use bombyx.Prelude.{
  ℕ, zero, suc, Bool, true, false, not, ◌||◌, Option, none, some, ◌==◌, if◌then◌else◌,
}
use bombyx.Double.{Double}
use bombyx.Bytecode.Opcodes.{
  bco_invert, bco_decr, bco_incr, bco_pow, bco_mul, bco_div, bco_mod, bco_unary_minus, bco_add,
  bco_sub, bco_less, bco_more, bco_less_eq, bco_more_eq, bco_cmp, bco_cmp_not, bco_set, bco_and,
  bco_or,
}
use bombyx.Expression.{
  Parser, pure, out_of_fuel, ◌>>=◌, ◌>>◌, parser_error, parser_peek, parser_peek_next, parser_eat,
  parser_skip, parser_eat_whitespace, add_cmd,
}
use bombyx.Expression.Atom.{Level, term, power, parser_read_paren}

-- The loops behind the first operand of a level. `operator` gives what stands behind the first byte
-- of an operator and the instruction; `operand` reads what follows. `rounds` bounds the loop.
unfoldable pub operator_loop :
    (ℕ → Option (Parser (Unit {0}) × ℕ)) → Parser (Unit {0}) → ℕ → Parser (Unit {0})
unfolding parser_peek parser_skip parser_eat_whitespace add_cmd
operator_loop operator operand zero = out_of_fuel
operator_loop operator operand (suc rounds) = do
  c ← parser_peek
  elim (operator c) [
    | none ↦ pure tt
    | some (second, cmd) ↦ do
      parser_skip
      second
      parser_eat_whitespace
      operand
      add_cmd cmd
      parser_eat_whitespace
      operator_loop operator operand rounds
  ]

-- A first operand and the loop.
unfoldable pub chain :
    Parser (Unit {0})
    → (ℕ → Option (Parser (Unit {0}) × ℕ))
    → Parser (Unit {0})
    → ℕ
    → Parser (Unit {0})
unfolding parser_eat_whitespace operator_loop
chain first operator operand rounds = do
  first
  parser_eat_whitespace
  operator_loop operator operand rounds

-- `c = parser_peek(pd); if (c != byte) parser_error(...); parser_skip(pd)`
unfoldable pub second_byte : ℕ → Parser (Unit {0})
unfolding parser_peek parser_skip
second_byte byte = do c ← parser_peek; if c == byte then pure tt else parser_error; parser_skip

abbrev pub term_operator : ℕ → Option (Parser (Unit {0}) × ℕ)
term_operator c =
    if c == b'*'
    then some (pure tt, bco_mul)
    else if c == b'/'
    then some (pure tt, bco_div)
    else if c == b'%'
    then some (pure tt, bco_mod)
    else none

abbrev pub expr_operator : ℕ → Option (Parser (Unit {0}) × ℕ)
expr_operator c =
    if c == b'+'
    then some (pure tt, bco_add)
    else if c == b'-'
    then some (pure tt, bco_sub)
    else none

abbrev pub and_operator : ℕ → Option (Parser (Unit {0}) × ℕ)
and_operator c = if c == b'&' then some (second_byte b'&', bco_and) else none

abbrev pub or_operator : ℕ → Option (Parser (Unit {0}) × ℕ)
or_operator c = if c == b'|' then some (second_byte b'|', bco_or) else none

-- `oper` is the byte before the `=` and whether that was there.
abbrev pub comparison_command : ℕ → Bool → ℕ
comparison_command c equal =
    if c == b'<'
    then (if equal then bco_less_eq else bco_less)
    else (if equal then bco_more_eq else bco_more)

-- an operator that starts with `=`: assignment or equality
unfoldable pub read_equals : Parser ℕ
unfolding parser_eat parser_peek
read_equals = do
  _ ← parser_eat
  c ← parser_peek
  if c == b'=' then (do _ ← parser_eat; pure bco_cmp) else pure bco_set

module _ {D : Type 0} (fl : Double D) (again : Level → Parser (Unit {0})) (rounds : ℕ) where
  -- The tests for a second sign look at the first one again, so they always hold.
  unfoldable pub parser_read_unary : Parser (Unit {0})
  unfolding parser_peek parser_skip parser_eat_whitespace parser_read_paren add_cmd
  parser_read_unary = do
    c ← parser_peek
    if c == b'!'
        then (do
          parser_skip
          parser_eat_whitespace
          parser_read_paren fl again rounds
          add_cmd bco_invert)
        else if c == b'-'
        then (do
          c' ← parser_peek
          if c' == b'-'
              then (do parser_skip; parser_eat_whitespace; again term; add_cmd bco_decr)
              else (do
                parser_skip
                parser_eat_whitespace
                parser_read_paren fl again rounds
                add_cmd bco_unary_minus))
        else if c == b'+'
        then (do
          c' ← parser_peek
          if c' == b'+'
              then (do parser_skip; parser_eat_whitespace; again term; add_cmd bco_incr)
              else (do parser_skip; parser_eat_whitespace; parser_read_paren fl again rounds))
        else parser_read_paren fl again rounds
    parser_eat_whitespace

  -- Powers on the right are read by the recursive call.
  unfoldable pub power_loop : ℕ → Parser (Unit {0})
  unfolding parser_peek parser_skip parser_eat_whitespace add_cmd
  power_loop zero = out_of_fuel
  power_loop (suc more) = do
    c ← parser_peek
    elim (c == b'^') [
      | false ↦ pure tt
      | true ↦ do
        parser_skip
        parser_eat_whitespace
        c' ← parser_peek
        if c' == b'-' then parser_error else pure tt
        again power
        parser_eat_whitespace
        add_cmd bco_pow
        power_loop more
    ]

  unfoldable pub parser_read_power : Parser (Unit {0})
  unfolding parser_read_unary parser_eat_whitespace power_loop
  parser_read_power = do parser_read_unary; parser_eat_whitespace; power_loop rounds

  unfoldable pub parser_read_term : Parser (Unit {0})
  unfolding parser_read_power chain
  parser_read_term = chain parser_read_power term_operator parser_read_power rounds

  -- A sign before the first term; one minus negates it, and a second minus belongs to the term.
  unfoldable pub first_term : Parser (Unit {0})
  unfolding parser_peek parser_skip parser_eat_whitespace parser_read_term add_cmd
  first_term = do
    c ← parser_peek
    if c == b'+' || c == b'-'
        then (do
          parser_skip
          parser_eat_whitespace
          negate ← if c == b'-' then (do c' ← parser_peek; pure (not (c' == b'-'))) else pure false
          parser_read_term
          if negate then add_cmd bco_unary_minus else pure tt)
        else parser_read_term

  unfoldable pub parser_read_expr : Parser (Unit {0})
  unfolding first_term chain
  parser_read_expr = chain first_term expr_operator parser_read_term rounds

  unfoldable pub comparison_operand : ℕ → Parser (Unit {0})
  unfolding parser_eat_whitespace parser_read_expr add_cmd
  comparison_operand cmd = do
    parser_eat_whitespace
    parser_read_expr
    add_cmd cmd
    parser_eat_whitespace

  -- behind the first operand
  unfoldable pub comparison_rest : Parser (Unit {0})
  unfolding parser_peek parser_eat parser_skip comparison_operand
  comparison_rest = do
    c ← parser_peek
    if c == b'>' || c == b'<'
        then (do
          parser_skip
          c' ← parser_peek
          if c' == b'=' then parser_skip else pure tt
          comparison_operand (comparison_command c (c' == b'=')))
        else pure tt

  unfoldable pub parser_read_boolean_comparison : Parser (Unit {0})
  unfolding parser_eat_whitespace parser_read_expr comparison_rest
  parser_read_boolean_comparison = do
    parser_eat_whitespace
    parser_read_expr
    parser_eat_whitespace
    comparison_rest

  unfoldable pub equality_operand : ℕ → Parser (Unit {0})
  unfolding parser_eat_whitespace parser_read_boolean_comparison add_cmd
  equality_operand cmd = do
    parser_eat_whitespace
    parser_read_boolean_comparison
    add_cmd cmd
    parser_eat_whitespace

  -- Behind the first operand. A `!` that no `=` follows ends the level.
  unfoldable pub equality_rest : Parser (Unit {0})
  unfolding parser_peek parser_peek_next parser_skip read_equals equality_operand
  equality_rest = do
    c ← parser_peek
    if c == b'='
        then (do cmd ← read_equals; equality_operand cmd)
        else if c == b'!'
        then (do
          c' ← parser_peek_next
          if c' == b'='
              then (do parser_skip; parser_skip; equality_operand bco_cmp_not)
              else pure tt)
        else pure tt

  unfoldable pub parser_read_boolean_equality : Parser (Unit {0})
  unfolding parser_eat_whitespace parser_read_boolean_comparison equality_rest
  parser_read_boolean_equality = do
    parser_eat_whitespace
    parser_read_boolean_comparison
    parser_eat_whitespace
    equality_rest

  unfoldable pub parser_read_boolean_and : Parser (Unit {0})
  unfolding parser_read_boolean_equality chain
  parser_read_boolean_and =
      chain parser_read_boolean_equality and_operator parser_read_boolean_equality rounds

  unfoldable pub parser_read_boolean_or : Parser (Unit {0})
  unfolding parser_read_boolean_and chain
  parser_read_boolean_or = chain parser_read_boolean_and or_operator parser_read_boolean_and rounds
