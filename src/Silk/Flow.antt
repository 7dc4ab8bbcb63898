-- ===== src/Silk/Flow.antt =====
-- core/larva_silk.c: the instructions of arguments, returns, loops and conditions.
use bombyx.Prelude.{
  ℕ, zero, suc, ◌+◌, ◌-◌, ◌/◌, true, false, Option, none, some, List, [], ◌∷◌, ◌==◌, if◌then◌else◌,
  get_elem?, set,
}
use bombyx.Run.{ok, fault, out_of_bounds, too_deep}
use bombyx.Value.{Var}
use bombyx.Double.{Double}
use bombyx.Env.{M, pure, undefined, ◌>>=◌, ◌>>◌}
use bombyx.Bytecode.Reader.{read_byte}
use bombyx.Copy.{var_unset, var_as_double}
use bombyx.Operator.{op_swap, var_is_true}
use bombyx.Stack.{stack_pop, stack_clear}
use bombyx.Silk.{
  pos, Locals, run_if, run_else, run_while, run_block, on_bc, raw_push, flag, set_flag,
  set_ret_point, enter_level, leave_level, return_point,
}

-- One round of the loop: the cells `i` and `size - 1 - i`, from the top, change places.
unfoldable pub swap_cells : ℕ → ℕ → List Var → Option (List Var)
unfolding op_swap
swap_cells i j stack = elim (get_elem? stack i) [
  | none ↦ none
  | some a ↦ elim (get_elem? stack j) [
    | none ↦ none
    | some b ↦ let (a', b') = op_swap a b in some (set (set stack i a') j b')
  ]
]

unfoldable pub reverse_top : ℕ → ℕ → List Var → Option (List Var)
unfolding swap_cells
reverse_top size zero stack = some stack
reverse_top size (suc iter) stack = elim (swap_cells iter (size - 1 - iter) stack) [
  | none ↦ none
  | some stack' ↦ reverse_top size iter stack'
]

module _ {D : Type 0} where
  unfoldable pub case_reverse_stack : Locals → M D Locals
  unfolding on_bc reverse_top
  case_reverse_stack l =
      if l.skip_mode
      then (λ env. ok (l, record env { bc = record env.bc { bc_pos = env.bc.bc_pos + 1 } }))
      else (do
        size ← on_bc read_byte
        λ env. elim (reverse_top size (size / 2) env.bc_stack) [
          | none ↦ fault out_of_bounds
          | some stack' ↦ ok (record l { param_count = pos size }, record env { bc_stack = stack' })
        ])

  -- `while (env->run_flag[env->gl_level]) env->bc_pos = env->ret_point[env->gl_level--]`; there are
  -- 256 levels, so that more rounds than these never end.
  unfoldable pub unwind : ℕ → M D (Unit {0})
  unfolding flag return_point
  unwind zero = undefined too_deep
  unwind (suc rounds) = do
    f ← flag
    elim (f == 0) [ true ↦ pure tt | false ↦ do return_point; unwind rounds ]

module _ {D : Type 0} ⦃fl : Double D⦄ (fuel : ℕ) where
  -- The value of a function: the top of the stack, under which the level is cleared, or 0.
  unfoldable pub returned : M D Var
  returned env = elim env.bc_stack [
    | [] ↦ var_as_double fl.zero env
    | _ ∷ _ ↦ (do v ← stack_pop; stack_clear (var_unset fuel); pure v) env
  ]

  unfoldable pub case_return : Locals → M D Locals
  unfolding returned raw_push flag unwind return_point
  case_return l = do
    v1 ← returned
    raw_push (record v1 { ref = none })
    f ← flag
    if f == run_block then return_point else unwind 257
    pure l

  unfoldable pub case_while : Locals → M D Locals
  unfolding enter_level set_ret_point set_flag
  case_while l env =
      (do enter_level; set_ret_point (env.bc.bc_pos - 1); set_flag run_while; pure l) env

  unfoldable pub case_if : Locals → M D Locals
  unfolding enter_level set_flag
  case_if l = do enter_level; set_flag run_if; pure l

  unfoldable pub case_else : Locals → M D Locals
  unfolding enter_level leave_level flag
  case_else l = do
    enter_level
    f ← flag
    if f == run_if then (do leave_level; pure (record l { skip_mode = true })) else pure l

  -- where the condition does not hold
  unfoldable pub fail_condition : M D (Unit {0})
  unfolding flag set_flag leave_level
  fail_condition = do
    f ← flag
    if f == run_if
        then (do set_flag run_else; leave_level)
        else if f == run_while
        then leave_level
        else pure tt

  unfoldable pub case_ceit : Locals → M D Locals
  unfolding fail_condition
  case_ceit l = do
    v1 ← stack_pop
    holds ← var_is_true v1
    if holds then pure tt else fail_condition
    var_unset fuel v1
    pure (if holds then l else record l { skip_mode = true })
