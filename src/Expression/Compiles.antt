-- ===== src/Expression/Compiles.antt =====
-- core/expression.c: the parser on the text of a tree of the grammar writes the code of the tree.
use bombyx.Prelude.{ℕ, zero, suc, ◌-◌, ◌||◌, ◌≤◌, refl, Bool, List, ◌∷◌, arith, ◌==◌}
use bombyx.Ctype.{is_digit, is_alpha}
use bombyx.Double.{Double}
use bombyx.Expression.{Parser}
use bombyx.Expression.Atom.{parser_read_paren}
use bombyx.Expression.Levels.{
  parser_read_unary, parser_read_power, parser_read_term, first_term, parser_read_expr,
  parser_read_boolean_comparison, parser_read_boolean_equality, parser_read_boolean_and,
  parser_read_boolean_or, chain, term_operator, expr_operator, and_operator, or_operator,
}
use bombyx.Expression.Parse.{read_level}
use bombyx.Expression.Reads.{same_code, weaker, Reads, Heads, head}
use bombyx.Expression.Grammar.{
  Rank, atom, signed, powers, products, sums, compared, equated, all_of, any_of, Tree, number,
  times, over, modulo, plus, minus, variable, group, unsigned, invert, base, raise, factor,
  multiply, summand, negate, add, side, compare, value, equate, conjunct, conjoin, disjunct,
  disjoin, text, code, weight,
}
use bombyx.Expression.Ends.{
  past_atom, past_powers, past_products, past_sums, past_compared, past_equated, past_all_of,
  past_any_of, text-starts, left, weaken-Heads, powers-seen, products-seen, equated-seen,
  all_of-seen,
}
use bombyx.Expression.Weights.{spine, weight_positive, spine_lem}
use bombyx.Expression.Tokens.{read_number_lem, read_variable_lem}
use bombyx.Expression.Boundaries.{
  no_term, no_expr, no_and, no_or, digit_lem, letter_lem, products-start, sums-start, equated-start,
  all_of-start, second_byte_lem, compared-ends, equated-ends,
}
use bombyx.Expression.Loops.{Chains, one_operand, one_more, one_byte, whole}
use bombyx.Expression.Operands.{
  paren_atom, paren_group, unary_plain, unary_not, power_base, power_raise, first_plain,
  first_negated,
}
use bombyx.Expression.Comparisons.{comparison_plain, comparison_two, equality_plain, equality_two}

abbrev past : Rank → ℕ → Bool
past atom = past_atom
past signed = past_atom
past powers = past_powers
past products = past_products
past sums = past_sums
past compared = past_compared
past equated = past_equated
past all_of = past_all_of
past any_of = past_any_of

module _ {D : Type 0} (fl : Double D) where
  abbrev reader : Rank → ℕ → Parser (Unit {0})
  reader atom fuel = parser_read_paren fl (read_level fl fuel) fuel
  reader signed fuel = parser_read_unary fl (read_level fl fuel) fuel
  reader powers fuel = parser_read_power fl (read_level fl fuel) fuel
  reader products fuel = parser_read_term fl (read_level fl fuel) fuel
  reader sums fuel = parser_read_expr fl (read_level fl fuel) fuel
  reader compared fuel = parser_read_boolean_comparison fl (read_level fl fuel) fuel
  reader equated fuel = parser_read_boolean_equality fl (read_level fl fuel) fuel
  reader all_of fuel = parser_read_boolean_and fl (read_level fl fuel) fuel
  reader any_of fuel = parser_read_boolean_or fl (read_level fl fuel) fuel

  -- The function of the level reads the tree in front of a byte that does not continue it.
  abbrev Compiles : {r : Rank} → ℕ → Tree r → Type 0
  Compiles {r} fuel e =
      (s : List ℕ) → Heads (past r) s → Reads (reader r fuel) (text e s) (code fl e) (weight e) s

  -- For a chain, in front of more operators as well.
  abbrev Claim : (r : Rank) → ℕ → Tree r → Type 0
  Claim products fuel e =
      Chains term_operator (reader powers fuel) (reader powers fuel) past_powers (text e)
        (code fl e) (weight e) (spine e)
  Claim sums fuel e =
      Chains expr_operator (reader products fuel) (first_term fl (read_level fl fuel) fuel)
        past_products (text e) (code fl e) (weight e) (spine e)
  Claim all_of fuel e =
      Chains and_operator (reader equated fuel) (reader equated fuel) past_equated (text e)
        (code fl e) (weight e) (spine e)
  Claim any_of fuel e =
      Chains or_operator (reader all_of fuel) (reader all_of fuel) past_all_of (text e) (code fl e)
        (weight e) (spine e)
  Claim r fuel e = Compiles fuel e

  pub compiles :
      {r : Rank} (fuel : ℕ) (e : Tree r)
      → weight e ≤ fuel
      → Claim r fuel e
      → (s : List ℕ) → Heads (past r) s
      → Reads (reader r fuel) (text e s) (code fl e) (weight e) s
  unfolding chain parser_read_term parser_read_expr parser_read_boolean_and parser_read_boolean_or
  compiles {r = atom} fuel e enough claim s stop = claim s stop
  compiles {r = signed} fuel e enough claim s stop = claim s stop
  compiles {r = powers} fuel e enough claim s stop = claim s stop
  compiles {r = compared} fuel e enough claim s stop = claim s stop
  compiles {r = equated} fuel e enough claim s stop = claim s stop
  compiles {r = products} fuel e enough claim _ (head c s stop) =
      whole _ _ powers-seen fuel claim (omega (arith, enough, spine_lem e)) c s
        (left (past_powers c) _ stop) (no_term c stop)
  compiles {r = sums} fuel e enough claim _ (head c s stop) =
      whole _ _ products-seen fuel claim (omega (arith, enough, spine_lem e)) c s
        (left (past_products c) _ stop) (no_expr c stop)
  compiles {r = all_of} fuel e enough claim _ (head c s stop) =
      whole _ _ equated-seen fuel claim (omega (arith, enough, spine_lem e)) c s
        (left (past_equated c) _ stop) (no_and c stop)
  compiles {r = any_of} fuel e enough claim _ (head c s stop) =
      whole _ _ all_of-seen fuel claim (omega (arith, enough, spine_lem e)) c s
        (left (past_all_of c) _ stop) (no_or c stop)

  pub claims : {r : Rank} (fuel : ℕ) (e : Tree r) → weight e ≤ fuel → Claim r fuel e
  unfolding text code weight read_level spine
  claims fuel (number c cs h) enough = λ s stop.
      paren_atom fl _ fuel (digit_lem c (left (is_digit c) _ h))
        (read_number_lem fl _ fuel c cs h stop) stop
  claims fuel (variable c cs h) enough = λ s stop.
      paren_atom fl _ fuel (letter_lem c (left (is_alpha c || c == b'_') _ h))
        (read_variable_lem fl _ fuel c cs h stop) stop
  claims zero (group e) enough = absurd (omega (arith, enough))
  claims (suc fuel) (group e) enough = λ s stop.
      let less : weight e ≤ fuel = omega (arith, enough) in
      let inner = compiles fuel e less (claims fuel e less) (b')' ∷ s) (head b')' s refl) in
      weaker (omega arith) (paren_group fl _ (suc fuel) (text-starts e _) inner stop)
  claims fuel (unsigned e) enough =
      λ s stop. unary_plain fl _ fuel (text-starts e s) (claims fuel e enough s stop) stop
  claims fuel (invert e) enough = λ s stop.
      same_code refl (omega arith)
        (unary_not fl _ fuel (text-starts e s) (claims fuel e (omega (arith, enough)) s stop) stop)
  claims fuel (base e) enough = λ s stop.
      power_base fl _ fuel {more = fuel - 1} (omega (arith, enough, weight_positive e))
        (claims fuel e enough s (weaken-Heads (λ c h. left (past_atom c) _ h) stop)) stop
  claims zero (raise e e') enough = absurd (omega (arith, enough))
  claims (suc fuel) (raise e e') enough = λ s stop.
      let enough' : weight e' ≤ fuel = omega (arith, enough) in
      let first = claims (suc fuel) e (omega (arith, enough)) (b'^' ∷ text e' s) (head _ _ refl) in
      same_code refl (omega arith) (
        power_raise fl _ (suc fuel) {more = fuel - 1} (omega (arith, enough', weight_positive e'))
          first (text-starts e' s) (claims fuel e' enough' s stop) stop)
  claims fuel (factor e) enough = one_operand _ _ powers-seen (claims fuel e enough)
  claims fuel (multiply times e e') enough =
      one_byte _ _ powers-seen (claims fuel e (omega (arith, enough))) refl refl (products-start e')
        (claims fuel e' (omega (arith, enough)))
  claims fuel (multiply over e e') enough =
      one_byte _ _ powers-seen (claims fuel e (omega (arith, enough))) refl refl (products-start e')
        (claims fuel e' (omega (arith, enough)))
  claims fuel (multiply modulo e e') enough =
      one_byte _ _ powers-seen (claims fuel e (omega (arith, enough))) refl refl (products-start e')
        (claims fuel e' (omega (arith, enough)))
  claims fuel (summand e) enough = one_operand _ _ products-seen (λ s stop.
      first_plain fl _ fuel (text-starts e s)
        (compiles fuel e enough (claims fuel e enough) s stop))
  claims fuel (negate e) enough =
      let less : weight e ≤ fuel = omega (arith, enough) in
      one_operand _ _ products-seen (λ s stop. same_code refl (omega arith) (
        first_negated fl _ fuel (text-starts e s)
          (compiles fuel e less (claims fuel e less) s stop)))
  claims fuel (add plus e e') enough =
      let less : weight e' ≤ fuel = omega (arith, enough) in
      one_byte _ _ products-seen (claims fuel e (omega (arith, enough))) refl refl (sums-start e')
        (compiles fuel e' less (claims fuel e' less))
  claims fuel (add minus e e') enough =
      let less : weight e' ≤ fuel = omega (arith, enough) in
      one_byte _ _ products-seen (claims fuel e (omega (arith, enough))) refl refl (sums-start e')
        (compiles fuel e' less (claims fuel e' less))
  claims fuel (side e) enough = λ s stop.
      let ends = weaken-Heads (λ c h. left (past_sums c) _ h) stop in
      comparison_plain fl _ fuel (text-starts e s)
        (compiles fuel e enough (claims fuel e enough) s ends) stop
  claims fuel (compare op e e') enough = λ s stop.
      let less : weight e ≤ fuel = omega (arith, enough) in
      let less' : weight e' ≤ fuel = omega (arith, enough) in
      let ends = weaken-Heads (λ c h. left (past_sums c) _ h) stop in
      same_code refl (omega arith) (
        comparison_two fl _ fuel op (text-starts e _)
          (compiles fuel e less (claims fuel e less) _ (compared-ends op _)) (text-starts e' s)
          (compiles fuel e' less' (claims fuel e' less') s ends) stop)
  claims fuel (value e) enough = λ s stop.
      let ends = weaken-Heads (λ c h. left (past_compared c) _ h) stop in
      equality_plain fl _ fuel (text-starts e s) (claims fuel e enough s ends) stop
  claims fuel (equate op e e') enough = λ s stop.
      let ends = weaken-Heads (λ c h. left (past_compared c) _ h) stop in
      same_code refl (omega arith) (
        equality_two fl _ fuel op (text-starts e _)
          (claims fuel e (omega (arith, enough)) _ (equated-ends op _)) (text-starts e' s)
          (claims fuel e' (omega (arith, enough)) s ends) stop)
  claims fuel (conjunct e) enough = one_operand _ _ equated-seen (claims fuel e enough)
  claims fuel (conjoin e e') enough =
      one_more _ _ equated-seen {symbol = λ s. b'&' ∷ s} (claims fuel e (omega (arith, enough)))
        refl refl (second_byte_lem b'&') (equated-start e') (claims fuel e' (omega (arith, enough)))
  claims fuel (disjunct e) enough =
      one_operand _ _ all_of-seen (compiles fuel e enough (claims fuel e enough))
  claims fuel (disjoin e e') enough =
      let less : weight e' ≤ fuel = omega (arith, enough) in
      one_more _ _ all_of-seen {symbol = λ s. b'|' ∷ s} (claims fuel e (omega (arith, enough))) refl
        refl (second_byte_lem b'|') (all_of-start e') (compiles fuel e' less (claims fuel e' less))
