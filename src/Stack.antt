-- ===== src/Stack.antt =====
-- core/stack.c: the stack of the interpreter, whose top is the head of `bc_stack`.
use bombyx.Prelude.{
  ℕ, zero, suc, ◌-◌, ◌+◌, ◌<◌, ◌≤◌, ◌≡◌, refl, Bool, true, false, Option, none, some, List, [], ◌∷◌,
  ◌++◌, arith, ltb, leb, if◌then◌else◌, length, lt→ltb,
}
use bombyx.Run.{Run, ok, Returns}
use bombyx.Value.{Var}
use bombyx.Env.{Env, M, pure, larva_error, ◌>>=◌, ◌>>◌}
pub mod Laws
pub mod Clear

-- BOMBYX_STACK_SIZE of core/common.h
abbrev pub bombyx_stack_size : ℕ
bombyx_stack_size = 256

module _ {D : Type 0} where
  -- The variable is stored with the level of the function that runs.
  unfoldable pub stack_push : Var → M D (Unit {0})
  unfolding larva_error
  stack_push v env =
      if ltb (bombyx_stack_size - 1) (length env.bc_stack)
      then larva_error env
      else ok (tt, record env { bc_stack = record v { level = env.gl_level } ∷ env.bc_stack })

  unfoldable pub stack_pop : M D Var
  unfolding larva_error
  stack_pop env = elim env.bc_stack [
    | [] ↦ larva_error env
    | v ∷ rest ↦ ok (v, record env { bc_stack = rest })
  ]

  -- `unset` is var_unset, which does not look at the stack. The loop pops until it meets a variable of an outer level.
  unfoldable pub clear_loop : (Var → M D (Unit {0})) → List Var → M D (Unit {0})
  clear_loop unset [] env = ok (tt, env)
  clear_loop unset (v ∷ rest) env =
      let continue : M D (Unit {0}) = unset v >> clear_loop unset rest in
      if ltb v.level env.gl_level then ok (tt, env) else continue (record env { bc_stack = rest })

  unfoldable pub stack_clear : (Var → M D (Unit {0})) → M D (Unit {0})
  unfolding clear_loop
  stack_clear unset env = clear_loop unset env.bc_stack env
