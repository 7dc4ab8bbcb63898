-- ===== src/Stack/Laws.antt =====
-- core/stack.c: the stack never leaves its array, and a pop undoes a push.
use bombyx.Prelude.{◌-◌, ◌<◌, ◌≤◌, ◌≡◌, refl, ◌∷◌, arith, ltb, length, ◌⊎◌, inl, inr, Bool-cases}
use bombyx.Run.{ok, jump, Returns}
use bombyx.Value.{Var}
use bombyx.Env.{Env, larva_error}
use bombyx.Stack.{bombyx_stack_size, stack_push, stack_pop}

abbrev pub IsBounded : {D : Type 0} → Env D → Type 0
IsBounded env = length env.bc_stack ≤ bombyx_stack_size

-- The variable was pushed with the current level, and a pop gives it back and leaves the rest.
pub record Stacked {D : Type 0} (env : Env D) (v : Var) (r : Unit {0} × Env D) : Type 0 where
  pub bounded : IsBounded r.1
  pub popped : stack_pop r.1 ≡ ok (record v { level = env.gl_level }, env)

-- A push onto a stack within its 256 cells ends the program with error 1 where they are all taken;
-- otherwise it stays within them, and the next pop returns the variable with the current level and
-- restores the environment.
pub stack_push-Stacked :
    {D : Type 0} (env : Env D) (v : Var)
    → IsBounded env
    → (length env.bc_stack ≡ bombyx_stack_size × stack_push v env ≡ jump 1)
      ⊎ (length env.bc_stack < bombyx_stack_size × Returns (stack_push v env) (Stacked env v))
unfolding stack_push stack_pop larva_error
stack_push-Stacked env v bounded =
    elim (Bool-cases (ltb (bombyx_stack_size - 1) (length env.bc_stack))) [
      | inl full ↦ inl (ground (arith, full), rw full refl)
      | inr free ↦ inr (
        ground (arith, free),
        (
          (tt, record env { bc_stack = record v { level = env.gl_level } ∷ env.bc_stack }),
          rw free refl,
          record { bounded = ground (arith, free); popped = refl },
        ),
      )
    ]
