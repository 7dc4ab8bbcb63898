-- ===== src/Silk/Evaluation.antt =====
-- core/larva_silk.c on the code that core/expression.c compiles from an arithmetic expression.
use bombyx.Prelude.{
  ℕ, suc, ◌+◌, ◌*◌, ◌^◌, ◌≤◌, ◌<◌, ◌≡◌, refl, ap, sym, ◌∙◌, Option, none, some, [], ◌∷◌, ◌++◌,
  arith, length, length-append, max,
}
use std.Path.{subst}
use mathlib.Core.List.{append-nil}
use bombyx.Run.{Returns}
use bombyx.Double.{Double}
use bombyx.Value.{Var, Heap}
use bombyx.Env.{Env}
use bombyx.Bytecode.{Bytecode, bc_grow_size}
use bombyx.Bytecode.Bounds.{IsSound}
use bombyx.Bytecode.Opcodes.{bco_mul, bco_div, bco_mod, bco_add, bco_sub, bco_pow}
use bombyx.Expression.Parse.{parse_expression}
use bombyx.Expression.Grammar.{
  Rank, any_of, times, over, modulo, plus, minus, Tree, number, variable, group, unsigned, invert,
  base, raise, factor, multiply, summand, negate, add, side, compare, value, equate, conjunct,
  conjoin, disjunct, disjoin, text, code,
}
use bombyx.Expression.Correct.{parse_expression-code}
use bombyx.Operator.Add.{op_add}
use bombyx.Operator.Laws.{Strict, subtract, divide, Lax, power, perform, perform_lax}
use bombyx.Silk.{Locals, Host}
use bombyx.Silk.Operators.{in_place}
use bombyx.Silk.Step.{dispatch, switch, cases}
use bombyx.Silk.Skipping.{Reaches}
use bombyx.Silk.Arithmetic.{
  running, Holds, pushed, Evaluates, Does, double_value, binary, perform-OnNumbers,
  perform_lax-OnNumbers, op_add-OnNumbers,
}

abbrev pub both_values : {D : Type 0} → (D → D → D) → Option D → Option D → Option D
both_values f (some x) (some y) = some (f x y)
both_values f (some x) none = none
both_values f none o = none

-- The environment with the code that was compiled, at the place where it begins.
abbrev pub compiled : {D : Type 0} → Env D → Bytecode → Env D
compiled env r = record env { bc = record r { bc_pos = env.bc.bc_pos } }

some_both :
    {D : Type 0} (f : D → D → D) (o o' : Option D) {z : D}
    → both_values f o o' ≡ some z
    → (x : D) × (y : D) × (o ≡ some x) × (o' ≡ some y) × (f x y ≡ z)
some_both f (some x) (some y) {z} h = (x, y, refl, refl, cc h)
some_both f (some x) none h = absurd (cc h)
some_both f none o h = absurd (cc h)

-- The places of the stack that it takes.
unfoldable pub places : {r : Rank} → Tree r → ℕ
places (group e) = places e
places (unsigned e) = places e
places (base e) = places e
places (raise e e') = max (places e) (1 + places e')
places (factor e) = places e
places (multiply op e e') = max (places e) (1 + places e')
places (summand e) = places e
places (add op e e') = max (places e) (1 + places e')
places (side e) = places e
places (value e) = places e
places (conjunct e) = places e
places (disjunct e) = places e
places _ = 1

module _ {D : Type 0} ⦃fl : Double D⦄ where
  -- The value of an arithmetic expression, with numbers alone; others have none.
  unfoldable pub value_of : {r : Rank} → Tree r → Option D
  value_of (number c cs h) = some (fl.strtod (c ∷ cs))
  value_of (group e) = value_of e
  value_of (unsigned e) = value_of e
  value_of (base e) = value_of e
  value_of (raise e e') = both_values fl.pow (value_of e) (value_of e')
  value_of (factor e) = value_of e
  value_of (multiply times e e') = both_values fl.mul (value_of e) (value_of e')
  value_of (multiply over e e') = both_values fl.div (value_of e) (value_of e')
  value_of (multiply modulo e e') = both_values fl.fmod (value_of e) (value_of e')
  value_of (summand e) = value_of e
  value_of (add plus e e') = both_values fl.add (value_of e) (value_of e')
  value_of (add minus e e') = both_values fl.sub (value_of e) (value_of e')
  value_of (side e) = value_of e
  value_of (value e) = value_of e
  value_of (conjunct e) = value_of e
  value_of (disjunct e) = value_of e
  value_of _ = none

module _ {D : Type 0} ⦃fl : Double D⦄ (host : Host D) (fuel : ℕ) where
  bco_mul-Does : Does host fuel bco_mul (in_place (suc fuel) (perform Strict.multiply))
  unfolding dispatch switch cases
  bco_mul-Does l env = refl

  bco_div-Does : Does host fuel bco_div (in_place (suc fuel) (perform divide))
  unfolding dispatch switch cases
  bco_div-Does l env = refl

  bco_sub-Does : Does host fuel bco_sub (in_place (suc fuel) (perform subtract))
  unfolding dispatch switch cases
  bco_sub-Does l env = refl

  bco_mod-Does : Does host fuel bco_mod (in_place (suc fuel) (perform_lax Lax.modulo))
  unfolding dispatch switch cases
  bco_mod-Does l env = refl

  bco_pow-Does : Does host fuel bco_pow (in_place (suc fuel) (perform_lax power))
  unfolding dispatch switch cases
  bco_pow-Does l env = refl

  bco_add-Does : Does host fuel bco_add (op_add (suc fuel))
  unfolding dispatch switch cases
  bco_add-Does l env = refl

  -- The code of a tree that has a value leaves that value on the stack.
  code-Evaluates :
      {r : Rank} (e : Tree r) (x : D)
      → value_of e ≡ some x
      → Evaluates host fuel (code fl e) (places e) x
  unfolding value_of places code
  code-Evaluates (number c cs h) x has =
      let same : fl.strtod (c ∷ cs) ≡ x = cc has in
      rw (← same) (double_value host fuel (fl.strtod (c ∷ cs)))
  code-Evaluates (variable c cs h) x has = absurd (cc has)
  code-Evaluates (group e) x has = code-Evaluates e x has
  code-Evaluates (unsigned e) x has = code-Evaluates e x has
  code-Evaluates (invert e) x has = absurd (cc has)
  code-Evaluates (base e) x has = code-Evaluates e x has
  code-Evaluates (raise e e') x has =
      let (y, z, h, h', same) = some_both fl.pow (value_of e) (value_of e') has in
      rw (← same) (
        binary host fuel bco_pow _ fl.pow (perform_lax-OnNumbers host fuel Lax.power) bco_pow-Does
          (code-Evaluates e y h) (code-Evaluates e' z h'))
  code-Evaluates (factor e) x has = code-Evaluates e x has
  code-Evaluates (multiply times e e') x has =
      let (y, z, h, h', same) = some_both fl.mul (value_of e) (value_of e') has in
      rw (← same) (
        binary host fuel bco_mul _ fl.mul (perform-OnNumbers host fuel Strict.multiply) bco_mul-Does
          (code-Evaluates e y h) (code-Evaluates e' z h'))
  code-Evaluates (multiply over e e') x has =
      let (y, z, h, h', same) = some_both fl.div (value_of e) (value_of e') has in
      rw (← same) (
        binary host fuel bco_div _ fl.div (perform-OnNumbers host fuel Strict.divide) bco_div-Does
          (code-Evaluates e y h) (code-Evaluates e' z h'))
  code-Evaluates (multiply modulo e e') x has =
      let (y, z, h, h', same) = some_both fl.fmod (value_of e) (value_of e') has in
      rw (← same) (
        binary host fuel bco_mod _ fl.fmod (perform_lax-OnNumbers host fuel Lax.modulo) bco_mod-Does
          (code-Evaluates e y h) (code-Evaluates e' z h'))
  code-Evaluates (summand e) x has = code-Evaluates e x has
  code-Evaluates (negate e) x has = absurd (cc has)
  code-Evaluates (add plus e e') x has =
      let (y, z, h, h', same) = some_both fl.add (value_of e) (value_of e') has in
      rw (← same) (
        binary host fuel bco_add _ fl.add (op_add-OnNumbers host fuel) bco_add-Does
          (code-Evaluates e y h) (code-Evaluates e' z h'))
  code-Evaluates (add minus e e') x has =
      let (y, z, h, h', same) = some_both fl.sub (value_of e) (value_of e') has in
      rw (← same) (
        binary host fuel bco_sub _ fl.sub (perform-OnNumbers host fuel Strict.subtract) bco_sub-Does
          (code-Evaluates e y h) (code-Evaluates e' z h'))
  code-Evaluates (side e) x has = code-Evaluates e x has
  code-Evaluates (compare op e e') x has = absurd (cc has)
  code-Evaluates (value e) x has = code-Evaluates e x has
  code-Evaluates (equate op e e') x has = absurd (cc has)
  code-Evaluates (conjunct e) x has = code-Evaluates e x has
  code-Evaluates (conjoin e e') x has = absurd (cc has)
  code-Evaluates (disjunct e) x has = code-Evaluates e x has
  code-Evaluates (disjoin e e') x has = absurd (cc has)

  -- An expression, compiled and run: if the buffer is sound, its length with two growths for each byte
  -- of the text and one more stays below 2 ^ 32, and the parser's fuel is more than twice the length of
  -- the text, then the text of a tree with the value `x` is compiled, and the loop, from the place in
  -- the code where the buffer ended before, on a stack with room for the tree, reaches the end of the
  -- code with one more variable on the stack, which holds `x` in memory of its own; the heap below it,
  -- the rest of the stack and the environment are as before.
  pub parse_expression-Reaches :
      (e : Tree any_of) (x : D) (depth : ℕ) (l : Locals) (env : Env D)
      → value_of e ≡ some x
      → IsSound env.bc
      → 2 * length (text e []) < depth
      → env.bc.bc_length + bc_grow_size * suc (2 * length (text e [])) < 2 ^ 32
      → length env.bc_stack + places e ≤ 256
      → Returns (parse_expression fl depth (text e []) env.bc) λ r.
        (w : Option Var) × (h : Heap D) × (v : Var) × Reaches host
          (suc fuel)
          (running l, compiled env r)
          (running (record l { v2 = w }), pushed (compiled env r) h r.bc_pos v)
        × Holds env.heap h v x
  parse_expression-Reaches e x depth l env has sound enough few room =
      let (r, ran, (wrote, sound')) = parse_expression-code fl e depth sound enough few in
      let before = env.bc.bytecode in
      let end : length before + length (code fl e) ≡ r.bc_pos =
        omega (arith, sound'.written, ap length wrote, length-append before (code fl e)) in
      let start : (compiled env r).bc.bytecode ≡ before ++ (code fl e ++ []) =
        wrote ∙ ap (λ t. before ++ t) (sym (append-nil (code fl e))) in
      let (w, h, v, go, holds) =
        (code-Evaluates e x has).run l (compiled env r) before [] start sound.written
          (omega (arith, end, sound'.inside)) room in
      (
        r,
        ran,
        (
          w,
          h,
          v,
          subst
              (λ p.
                Reaches host (suc fuel) (running l, compiled env r)
                  (running (record l { v2 = w }), pushed (compiled env r) h p v))
              end go,
          holds,
        ),
      )
