-- ===== src/Expression/Parse.antt =====
-- core/expression.c: the whole expression. `fuel` bounds how deep the levels stand inside of one
-- another, and the rounds of each loop.
use bombyx.Prelude.{
  ℕ, zero, suc, ◌+◌, ◌-◌, Bool, false, not, ◌&&◌, ◌||◌, List, [], ◌∷◌, ◌++◌, ltb, ◌==◌,
  if◌then◌else◌, length,
}
use bombyx.Run.{Run, ok, jump, fault}
use bombyx.Double.{Double}
use bombyx.Bytecode.{Bytecode}
use bombyx.Expression.{Parser, out_of_fuel, ◌>>◌, parser_eat_whitespace}
use bombyx.Expression.Atom.{Level, boolean_or, expr, term, power}
use bombyx.Expression.Levels.{
  parser_read_power, parser_read_term, parser_read_expr, parser_read_boolean_or,
}

-- An expression ends at a zero, or outside of quotes at a new line, a comma outside of parentheses, or
-- a closing parenthesis that nothing opened: the level never goes below zero.
abbrev pub ends_at : Bool → ℕ → ℕ → Bool
ends_at quote_opened br_level c =
    c == 0
    || not quote_opened && (c == b'\n' || c == b')' && br_level == 0 || c == b',' && br_level == 0)

abbrev pub level_behind : Bool → ℕ → ℕ → ℕ
level_behind quote_opened br_level c =
    if quote_opened
    then br_level
    else if c == b'('
    then br_level + 1
    else if c == b')'
    then br_level - 1
    else br_level

unfoldable pub cut_expression : Bool → ℕ → List ℕ → List ℕ × List ℕ
cut_expression quote_opened br_level [] = ([], [])
cut_expression quote_opened br_level (c ∷ code) =
    let more =
      cut_expression (if c == b'\'' then not quote_opened else quote_opened)
        (level_behind quote_opened br_level c) code in
    if ends_at quote_opened br_level c then ([], c ∷ code) else (c ∷ more.0, more.1)

module _ {D : Type 0} (fl : Double D) where
  unfoldable pub read_level : ℕ → Level → Parser (Unit {0})
  read_level zero level = out_of_fuel
  read_level (suc fuel) boolean_or = parser_read_boolean_or fl (read_level fuel) fuel
  read_level (suc fuel) expr = parser_read_expr fl (read_level fuel) fuel
  read_level (suc fuel) term = parser_read_term fl (read_level fuel) fuel
  read_level (suc fuel) power = parser_read_power fl (read_level fuel) fuel

  unfoldable pub parser_parse : ℕ → Parser (Unit {0})
  unfolding read_level parser_eat_whitespace
  parser_parse fuel = do
    read_level fuel boolean_or
    parser_eat_whitespace
    λ pd. if ltb 1 (length pd.rest) then jump 1 else ok (tt, pd)

  -- The text without its zero, which is nowhere in it; an empty one is no expression.
  unfoldable pub parse_expression : ℕ → List ℕ → Bytecode → Run Bytecode
  unfolding parser_parse
  parse_expression fuel [] bc = ok bc
  parse_expression fuel (c ∷ text) bc =
      elim (parser_parse fuel (record { rest = c ∷ text ++ 0 ∷ []; bc = bc })) [
        | ok (_, pd) ↦ ok pd.bc
        | jump e ↦ jump e
        | fault e ↦ fault e
      ]

  -- The code from `env->code_pos` on, to the one behind the expression.
  unfoldable pub parse : ℕ → List ℕ → Bytecode → Run (Bytecode × List ℕ)
  parse fuel code bc =
      let cut = cut_expression false 0 code in
      elim (parse_expression fuel cut.0 bc) [
        | ok bc' ↦ ok (bc', cut.1)
        | jump e ↦ jump e
        | fault e ↦ fault e
      ]
