-- ===== src/Silk/Operators.antt =====
-- core/larva_silk.c: the instructions of the operators. The two operands are popped, the right one
-- is unset, and what the operator made of the left one is stored above without the test of
-- stack_push.
use bombyx.Prelude.{ℕ, Bool, not, some}
use bombyx.Value.{Var}
use bombyx.Double.{Double}
use bombyx.Env.{M, pure, ◌>>=◌, ◌>>◌}
use bombyx.Copy.{var_unset, var_as_double}
use bombyx.Operator.{
  of_bool, op_subtract, op_multiply, op_divide, op_power, op_modulo, op_and, op_or, op_invert,
  op_increment, op_decrement,
}
use bombyx.Operator.Add.{op_add}
use bombyx.Operator.Reverse.{op_unary_minus}
use bombyx.Operator.Compare.{
  var_cmp, var_is_more, var_is_less, var_is_more_equal, var_is_less_equal,
}
use bombyx.Stack.{stack_pop}
use bombyx.Silk.{Locals, raw_push, top}

module _ {D : Type 0} ⦃fl : Double D⦄ (fuel : ℕ) where
  -- the cases of the operators that write into the left operand
  unfoldable pub operate : (Var → Var → M D (Var × Var)) → Locals → M D Locals
  unfolding raw_push
  operate op l = do
    v2 ← stack_pop
    v1 ← stack_pop
    (v1', v2') ← op v1 v2
    var_unset fuel v2'
    raw_push v1'
    pure (record l { v2 = some v2' })

  -- an operator that changes nothing of the variables
  abbrev pub in_place : (Var → Var → M D (Unit {0})) → Var → Var → M D (Var × Var)
  in_place op v1 v2 = do op v1 v2; pure (v1, v2)

  -- the cases of the comparisons
  unfoldable pub compare_with : (Var → Var → M D Bool) → Locals → M D Locals
  unfolding raw_push
  compare_with test l = do
    v2 ← stack_pop
    v1 ← stack_pop
    b ← test v1 v2
    v ← var_as_double (of_bool b)
    raw_push v
    var_unset fuel v1
    var_unset fuel v2
    pure (record l { v2 = some v2 })

  abbrev pub case_cmp : Locals → M D Locals
  case_cmp = compare_with var_cmp

  abbrev pub case_cmp_not : Locals → M D Locals
  case_cmp_not = compare_with (λ a b. do same ← var_cmp a b; pure (not same))

  abbrev pub case_more : Locals → M D Locals
  case_more = compare_with var_is_more

  abbrev pub case_more_eq : Locals → M D Locals
  case_more_eq = compare_with var_is_more_equal

  abbrev pub case_less : Locals → M D Locals
  case_less = compare_with var_is_less

  abbrev pub case_less_eq : Locals → M D Locals
  case_less_eq = compare_with var_is_less_equal

  abbrev pub case_and : Locals → M D Locals
  case_and = operate (in_place op_and)

  abbrev pub case_or : Locals → M D Locals
  case_or = operate (in_place op_or)

  abbrev pub case_add : Locals → M D Locals
  case_add = operate (op_add fuel)

  abbrev pub case_sub : Locals → M D Locals
  case_sub = operate (in_place op_subtract)

  abbrev pub case_mul : Locals → M D Locals
  case_mul = operate (in_place op_multiply)

  abbrev pub case_div : Locals → M D Locals
  case_div = operate (in_place op_divide)

  abbrev pub case_pow : Locals → M D Locals
  case_pow = operate (in_place op_power)

  abbrev pub case_mod : Locals → M D Locals
  case_mod = operate (in_place op_modulo)

  -- the cases of the operators of one operand, which stays on the stack
  unfoldable pub on_top : (Var → M D (Unit {0})) → Locals → M D Locals
  unfolding top
  on_top op l = do a ← top; op a; pure l

  abbrev pub case_incr : Locals → M D Locals
  case_incr = on_top op_increment

  abbrev pub case_decr : Locals → M D Locals
  case_decr = on_top op_decrement

  abbrev pub case_invert : Locals → M D Locals
  case_invert = on_top op_invert

  abbrev pub case_unary_minus : Locals → M D Locals
  case_unary_minus = on_top op_unary_minus
