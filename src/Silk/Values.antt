-- ===== src/Silk/Values.antt =====
-- core/larva_silk.c: the instructions that put values on the stack or make variables of them.
use bombyx.Prelude.{ℕ, ◌||◌, none, some, [], ◌∷◌, length, if◌then◌else◌}
use bombyx.Run.{ok}
use bombyx.Table.{Name}
use bombyx.Value.{VarType, same_type, Var, zero_var}
use bombyx.Double.{Double}
use bombyx.Env.{M, pure, runtime_error, ◌>>=◌, ◌>>◌}
use bombyx.Bytecode.Reader.{
  read_token, read_string, read_double, read_short_string, skip_token, skip_string, skip_double,
}
use bombyx.VarTable.{var_add}
use bombyx.Copy.{
  var_unset, op_copy, var_as_double, var_as_string, var_as_var_t, set_entry, var_sync,
}
use bombyx.Stack.{stack_push, stack_pop}
use bombyx.Silk.{
  pred, is_zero, is_negative, Locals, Host, on_bc, skip_bc, raw_push, raw_pop, variable,
}

module _ {D : Type 0} ⦃fl : Double D⦄ (host : Host D) (fuel : ℕ) where
  unfoldable pub case_as_var : Locals → M D Locals
  unfolding on_bc skip_bc raw_push variable
  case_as_var l = if l.skip_mode then (do skip_bc skip_token; pure l) else (do
    token ← on_bc read_token
    e ← variable token
    v ← var_as_var_t fuel e
    raw_push v
    pure l)

  unfoldable pub case_as_double : Locals → M D Locals
  unfolding on_bc raw_push
  case_as_double l =
      if l.skip_mode
      then (λ env. ok (l, record env { bc = skip_double env.bc }))
      else (do d ← on_bc read_double; v ← var_as_double d; raw_push v; pure l)

  unfoldable pub case_as_string : Locals → M D Locals
  unfolding on_bc skip_bc
  case_as_string l = if l.skip_mode then (do skip_bc skip_string; pure l) else (do
    token ← on_bc read_string
    v ← var_as_string token (length token)
    stack_push v
    pure l)

  -- The text is copied to memory of its own size, not to `token`.
  unfoldable pub case_from_json : Locals → M D Locals
  unfolding on_bc skip_bc
  case_from_json l =
      if l.skip_mode
      then (do skip_bc skip_string; pure l)
      else (do str ← on_bc read_short_string; v ← host.from_json str; stack_push v; pure l)

  -- `var_add(env->vars, token, VAR_STRING, NULL)`
  unfoldable pub add_variable : Name → M D Var
  unfolding var_add
  add_variable token env =
      let (vt, vars') = var_add (host.left token) env.vars token VarType.string in
      ok (vt, record env { vars = vars' })

  unfoldable pub case_var : Locals → M D Locals
  unfolding on_bc skip_bc add_variable
  case_var l =
      if l.skip_mode
      then (do skip_bc skip_token; pure l)
      else (do token ← on_bc read_token; _ ← add_variable token; pure l)

  unfoldable pub case_varx : Locals → M D Locals
  unfolding on_bc skip_bc add_variable
  case_varx l = if l.skip_mode then (do skip_bc skip_token; pure l) else (do
    token ← on_bc read_token
    _ ← add_variable token
    v1 ← stack_pop
    let v1' = record v1 { name = some token; ref = none }
    var_sync fuel v1'
    var_unset fuel v1'
    pure l)

  unfoldable pub case_param : Locals → M D Locals
  unfolding on_bc skip_bc add_variable raw_pop runtime_error
  case_param l = if l.skip_mode then (do skip_bc skip_token; pure l) else (do
    token ← on_bc read_token
    if is_zero l.param_count then runtime_error else (do
      vt ← add_variable token
      arg ← raw_pop
      vt' ← op_copy fuel vt arg
      set_entry token vt'
      pure (record l { param_count = pred l.param_count })))

  -- The second variable of the stack, or a zeroed one.
  unfoldable pub pop_or_zero : M D Var
  pop_or_zero env = elim env.bc_stack [
    | [] ↦ ok (zero_var, env)
    | v ∷ rest ↦ ok (v, record env { bc_stack = rest })
  ]

  unfoldable pub case_paramx : Locals → M D Locals
  unfolding on_bc skip_bc add_variable pop_or_zero same_type
  case_paramx l = if l.skip_mode then (do skip_bc skip_token; pure l) else (do
    token ← on_bc read_token
    let count = pred l.param_count
    vt ← add_variable token
    v1 ← stack_pop
    v2 ← pop_or_zero
    let from = if same_type v2.type VarType.unset || is_negative count then v1 else v2
    vt' ← op_copy fuel vt from
    set_entry token vt'
    var_unset fuel v1
    var_unset fuel v2
    pure (record l { param_count = count; v2 = some v2 }))

  unfoldable pub case_print : Locals → M D Locals
  case_print l = do v1 ← stack_pop; host.echo v1; var_unset fuel v1; pure l

  unfoldable pub case_microtime : Locals → M D Locals
  case_microtime l = do t ← host.microtime; v ← var_as_double t; stack_push v; pure l

  unfoldable pub case_as_void : Locals → M D Locals
  unfolding raw_push
  case_as_void l = do raw_push zero_var; pure l
