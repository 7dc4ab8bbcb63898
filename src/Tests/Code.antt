-- ===== src/Tests/Code.antt =====
-- The buffer of core/bytecode.c, the arrays and the stack at small inputs.
use bombyx.Prelude.{ℕ, ◌≡◌, ◌⊎◌, inl, inr, refl, List, [], ◌∷◌, replicate, arith, ◌<◌}
use bombyx.Run.{ok, jump, fault, out_of_bounds, Returns}
use bombyx.Bytecode.{Bytecode, bc_init, bc_add_cmd, bc_add_token, bc_add_double, bc_add_string}
use bombyx.Bytecode.Reader.{read_token, read_string, read_double, skip_token, skip_double}
use bombyx.Bytecode.Bounds.{
  IsSound, Appends, bc_init-IsSound, bc_add_cmd_lem, bc_add_string-overflows,
}
use bombyx.Bytecode.Roundtrip.{
  finished, read_token-bc_add_token, read_string-bc_add_string, read_double-bc_add_double,
}
use bombyx.Array.{array_create, array_push, array_set_elem}
use bombyx.Array.Bounds.{array_create-IsSound, Pushed, array_push-Pushed}
use bombyx.Array.SetElem.{Written, array_set_elem-Written}
use bombyx.Array.Clone.{array_clone}
use bombyx.Array.Overrun.{array_push-array_clone}
use bombyx.Value.{zero_var, ArrayT, elem}
use bombyx.Env.{Env, pure}
use bombyx.Stack.{bombyx_stack_size, stack_push}
use bombyx.Stack.Laws.{Stacked, stack_push-Stacked}
use bombyx.Stack.{stack_clear}
use bombyx.Copy.{var_unset}
use bombyx.Stack.Clear.{elsewhere, none_left, Owned, own, no_vars, Cleared, stack_clear-Cleared}
use bombyx.Value.{number, bytes}
use bombyx.Bytecode.Ready.{bc_ready, Ready, bc_ready-Ready}
use bombyx.Tests.Data.{ab, numbers, env, five}

abbrev abc : List ℕ
abc = 97 ∷ 98 ∷ 99 ∷ []

bc_add_cmd_lem_example : Returns (bc_add_cmd bc_init 7) (Appends bc_init (7 ∷ []))
bc_add_cmd_lem_example = bc_add_cmd_lem bc_init-IsSound 7

abbrev unused : Bytecode
unused = record { bc_pos = 0; bc_length = 25000; bytecode = [] }

unused-IsSound : IsSound unused
unused-IsSound = omega arith

bc_add_string-overflows_example : bc_add_string unused (replicate 25000 97) ≡ fault out_of_bounds
bc_add_string-overflows_example =
    bc_add_string-overflows unused-IsSound (replicate 25000 97) (omega arith) (omega arith)

read_token-bc_add_token_example : Returns (bc_add_token bc_init abc) λ r.
    (read_token (finished r (9 ∷ []) bc_init.bc_pos) ≡ ok (abc, finished r (9 ∷ []) r.bc_pos))
    × (skip_token (finished r (9 ∷ []) bc_init.bc_pos) ≡ ok (finished r (9 ∷ []) r.bc_pos))
read_token-bc_add_token_example = read_token-bc_add_token bc_init-IsSound abc (9 ∷ []) (omega arith)

read_string-bc_add_string_example :
    Returns
      (bc_add_string bc_init abc)
      λ r. read_string (finished r (9 ∷ []) bc_init.bc_pos) ≡ ok (abc, finished r (9 ∷ []) r.bc_pos)
read_string-bc_add_string_example =
    read_string-bc_add_string bc_init-IsSound abc (9 ∷ []) (omega arith)

read_double-bc_add_double_example : Returns (bc_add_double ⦃fl = numbers⦄ bc_init 5) λ r.
    (read_double ⦃fl = numbers⦄ (finished r (9 ∷ []) bc_init.bc_pos)
      ≡ ok (5, finished r (9 ∷ []) r.bc_pos))
    × (skip_double (finished r (9 ∷ []) bc_init.bc_pos) ≡ finished r (9 ∷ []) r.bc_pos)
read_double-bc_add_double_example =
    read_double-bc_add_double bc_init-IsSound ⦃fl = numbers⦄ 5 (9 ∷ [])

array_push-Pushed_example :
    Returns (array_push (array_create 1) five) (Pushed (array_create 1) five)
array_push-Pushed_example = array_push-Pushed five (array_create-IsSound 1)

array_set_elem-Written_example :
    Returns (array_set_elem (array_create 1) 4 five) (Written (array_create 1) 4 five)
array_set_elem-Written_example =
    array_set_elem-Written 4 five (array_create-IsSound 1) (omega arith) (inr (omega arith))

-- An array of one element in one cell.
abbrev full : ArrayT
full = record { size = 1; max_size = 1; vars = elem zero_var ∷ [] }

abbrev clone_of_full : ArrayT
clone_of_full = record { size = 1; max_size = 100; vars = elem zero_var ∷ [] }

cloned : array_clone (λ v. pure v) full env ≡ ok (clone_of_full, env)
unfolding array_clone
cloned = refl

array_push-array_clone_example : array_push clone_of_full five ≡ fault out_of_bounds
array_push-array_clone_example =
    array_push-array_clone (λ v. pure v) full five env (clone_of_full, env) refl (omega arith)
      cloned

stack_push-Stacked_example :
    (1 ≡ bombyx_stack_size × stack_push five env ≡ jump 1)
    ⊎ (1 < bombyx_stack_size × Returns (stack_push five env) (Stacked env five))
stack_push-Stacked_example = stack_push-Stacked env five (omega arith)

-- A string of the level that runs over a number of the one below.
abbrev two_levels : Env ℕ
two_levels = record env { bc_stack = record ab { level = 3 } ∷ record five { level = 2 } ∷ [] }

two_levels-Owned : Owned two_levels.heap two_levels.bc_stack
two_levels-Owned =
    own {o = bytes (97 ∷ 98 ∷ 0 ∷ [])} (inr refl) refl refl
      (elsewhere (λ e. ground (arith, e)) none_left)
      (own {o = number 5} (inl refl) refl refl none_left no_vars)

stack_clear-Cleared_example : Returns (stack_clear (var_unset 1) two_levels) (Cleared two_levels)
stack_clear-Cleared_example = stack_clear-Cleared 0 two_levels two_levels-Owned

bc_ready-Ready_example : Returns (bc_ready env) (Ready env)
bc_ready-Ready_example = bc_ready-Ready env unused-IsSound
