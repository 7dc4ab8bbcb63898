-- ===== src/Expression/Weights.antt =====
-- The grammar of core/expression.c: how long the chains of operators are against the weight.
use bombyx.Prelude.{ℕ, suc, ◌≤◌, ◌<◌, arith}
use bombyx.Expression.Grammar.{
  Rank, Tree, number, variable, group, unsigned, invert, base, raise, factor, multiply, summand,
  negate, add, side, compare, value, equate, conjunct, conjoin, disjunct, disjoin, weight,
}

-- The operators of the chain that a tree is, from its level.
unfoldable pub spine : {r : Rank} → Tree r → ℕ
spine (multiply _ e _) = suc (spine e)
spine (add _ e _) = suc (spine e)
spine (conjoin e _) = suc (spine e)
spine (disjoin e _) = suc (spine e)
spine _ = 0

pub weight_positive : {r : Rank} (e : Tree r) → 1 ≤ weight e
unfolding weight
weight_positive (number c cs h) = omega arith
weight_positive (variable c cs h) = omega arith
weight_positive (group e) = omega arith
weight_positive (unsigned e) = weight_positive e
weight_positive (invert e) = omega arith
weight_positive (base e) = weight_positive e
weight_positive (raise e e') = omega arith
weight_positive (factor e) = weight_positive e
weight_positive (multiply op e e') = omega arith
weight_positive (summand e) = weight_positive e
weight_positive (negate e) = omega arith
weight_positive (add op e e') = omega arith
weight_positive (side e) = weight_positive e
weight_positive (compare op e e') = omega arith
weight_positive (value e) = weight_positive e
weight_positive (equate op e e') = omega arith
weight_positive (conjunct e) = weight_positive e
weight_positive (conjoin e e') = omega arith
weight_positive (disjunct e) = weight_positive e
weight_positive (disjoin e e') = omega arith

pub spine_lem : {r : Rank} (e : Tree r) → spine e < weight e
unfolding spine weight
spine_lem (number c cs h) = omega arith
spine_lem (variable c cs h) = omega arith
spine_lem (group e) = omega arith
spine_lem (unsigned e) = weight_positive e
spine_lem (invert e) = omega arith
spine_lem (base e) = weight_positive e
spine_lem (raise e e') = omega arith
spine_lem (factor e) = weight_positive e
spine_lem (multiply op e e') = omega (arith, spine_lem e, weight_positive e')
spine_lem (summand e) = weight_positive e
spine_lem (negate e) = omega arith
spine_lem (add op e e') = omega (arith, spine_lem e, weight_positive e')
spine_lem (side e) = weight_positive e
spine_lem (compare op e e') = omega arith
spine_lem (value e) = weight_positive e
spine_lem (equate op e e') = omega arith
spine_lem (conjunct e) = weight_positive e
spine_lem (conjoin e e') = omega (arith, spine_lem e, weight_positive e')
spine_lem (disjunct e) = weight_positive e
spine_lem (disjoin e e') = omega (arith, spine_lem e, weight_positive e')
