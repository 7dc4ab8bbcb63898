-- ===== src/Silk.antt =====
-- core/larva_silk.c: the loop that runs code. Its local variables are Locals, and what stands behind
-- each `case` is a function of them in the children; the code, the stack and the tables are in the
-- environment. What the loop calls outside of the sources read here is Host.
use bombyx.Prelude.{
  ℕ, zero, suc, ◌+◌, ◌-◌, ◌%◌, ◌^◌, Bool, true, false, Option, none, some, List, [], ◌∷◌, ◌++◌, ltb,
  leb, ◌==◌, if◌then◌else◌, length, get_elem?, set,
}
use bombyx.Run.{Run, ok, jump, fault, out_of_bounds}
use bombyx.Table.{Name}
use bombyx.Value.{Var}
use bombyx.Env.{Env, M, pure, undefined, runtime_error, ◌>>=◌, ◌>>◌}
use bombyx.Bytecode.{Bytecode}
use bombyx.VarTable.{var_lookup_2}
use bombyx.Stack.{bombyx_stack_size}
pub mod Values
pub mod Path
pub mod Elements
pub mod Operators
pub mod Control
pub mod Flow
pub mod Step
pub mod Arguments
pub mod Unwinding
pub mod Skipping
pub mod Arithmetic
pub mod Evaluation

-- `int`; `negsuc n` is -(n + 1).
pub data ℤ : Type 0 where
  pos : ℕ → ℤ
  negsuc : ℕ → ℤ

abbrev pub pred : ℤ → ℤ
pred (pos zero) = negsuc 0
pred (pos (suc n)) = pos n
pred (negsuc n) = negsuc (suc n)

abbrev pub is_zero : ℤ → Bool
is_zero (pos zero) = true
is_zero _ = false

abbrev pub is_negative : ℤ → Bool
is_negative (pos n) = false
is_negative (negsuc n) = true

-- The variables of larva_silk that outlive an instruction. A block is given by its name; `v2` is
-- `none` until it is first assigned.
pub record Locals : Type 0 where
  pub level : ℕ
  pub def_mode : Bool
  pub skip_mode : Bool
  pub param_count : ℤ
  pub this_block : Option Name
  pub parent_block : Option Name
  pub v2 : Option Var

abbrev pub initial : Locals
initial = record {
  level = 0;
  def_mode = false;
  skip_mode = false;
  param_count = pos 0;
  this_block = none;
  parent_block = none;
  v2 = none;
}

-- var_echo, get_microtime, var_from_json, and dlsym, which finds a function of a cocoon by its
-- handle and name; the function takes the number of its arguments and the arguments.
pub record Host (D : Type 0) : Type 0 where
  -- what malloc leaves in the `ref` of the entry of a new variable
  pub left : Name → Option Name
  pub echo : Var → M D (Unit {0})
  pub microtime : M D D
  pub from_json : List ℕ → M D Var
  pub symbol : ℕ → Name → Option (ℕ → List Var → M D Var)

-- RUN_IF and the others of core/larva.h
abbrev pub run_if : ℕ
run_if = 1

abbrev pub run_else : ℕ
run_else = 2

abbrev pub run_while : ℕ
run_while = 3

abbrev pub run_block : ℕ
run_block = 4

-- `++x` and `--x` on a BYTE
abbrev pub inc8 : ℕ → ℕ
inc8 x = (x + 1) % 2 ^ 8

abbrev pub dec8 : ℕ → ℕ
dec8 x = (x + 255) % 2 ^ 8

module _ {D : Type 0} where
  -- a read of the code, which moves `bc_pos`
  unfoldable pub on_bc : {A : Type 0} → (Bytecode → Run (A × Bytecode)) → M D A
  on_bc read env = elim (read env.bc) [
    | ok (a, bc) ↦ ok (a, record env { bc = bc })
    | jump e ↦ jump e
    | fault e ↦ fault e
  ]

  unfoldable pub skip_bc : (Bytecode → Run Bytecode) → M D (Unit {0})
  skip_bc skip env = elim (skip env.bc) [
    | ok bc ↦ ok (tt, record env { bc = bc })
    | jump e ↦ jump e
    | fault e ↦ fault e
  ]

  -- `env->bc_pos = target`
  unfoldable pub go_to : ℕ → M D (Unit {0})
  go_to target env = ok (tt, record env { bc = record env.bc { bc_pos = target } })

  -- `env->bc_stack[env->bc_stack_size++] = v`, without the test of stack_push
  unfoldable pub raw_push : Var → M D (Unit {0})
  raw_push v env =
      if ltb (length env.bc_stack) bombyx_stack_size
      then ok (tt, record env { bc_stack = v ∷ env.bc_stack })
      else fault out_of_bounds

  -- `env->bc_stack[env->bc_stack_size - 1]`
  unfoldable pub top : M D Var
  top env = elim env.bc_stack [ [] ↦ fault out_of_bounds | v ∷ _ ↦ ok (v, env) ]

  -- `env->bc_stack[--env->bc_stack_size]`, without the test of stack_pop
  unfoldable pub raw_pop : M D Var
  raw_pop env = elim env.bc_stack [
    | [] ↦ fault out_of_bounds
    | v ∷ rest ↦ ok (v, record env { bc_stack = rest })
  ]

  unfoldable pub cell_of : List ℕ → ℕ → M D ℕ
  cell_of cells i = elim (get_elem? cells i) [ none ↦ undefined out_of_bounds | some x ↦ pure x ]

  -- `env->run_flag[env->gl_level]`, read and written
  unfoldable pub flag : M D ℕ
  unfolding cell_of
  flag env = cell_of env.run_flag env.gl_level env

  unfoldable pub set_flag : ℕ → M D (Unit {0})
  set_flag x env =
      if ltb env.gl_level (length env.run_flag)
      then ok (tt, record env { run_flag = set env.run_flag env.gl_level x })
      else fault out_of_bounds

  -- `env->ret_point[env->gl_level] = x`
  unfoldable pub set_ret_point : ℕ → M D (Unit {0})
  set_ret_point x env =
      if ltb env.gl_level (length env.ret_point)
      then ok (tt, record env { ret_point = set env.ret_point env.gl_level x })
      else fault out_of_bounds

  -- `++env->gl_level` and `--env->gl_level`
  unfoldable pub enter_level : M D (Unit {0})
  enter_level env = ok (tt, record env { gl_level = inc8 env.gl_level })

  unfoldable pub leave_level : M D (Unit {0})
  leave_level env = ok (tt, record env { gl_level = dec8 env.gl_level })

  -- `env->bc_pos = env->ret_point[env->gl_level--]`
  unfoldable pub return_point : M D (Unit {0})
  unfolding cell_of go_to leave_level
  return_point env = (do p ← cell_of env.ret_point env.gl_level; leave_level; go_to p) env

  -- The variable of a name, or the error that there is none.
  unfoldable pub variable : Name → M D (Name × Var)
  unfolding var_lookup_2 runtime_error
  variable token env = elim (var_lookup_2 env.vars token) [
    | none ↦ runtime_error env
    | some e ↦ ok (e, env)
  ]
