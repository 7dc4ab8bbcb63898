-- ===== src/Silk/Step.antt =====
-- core/larva_silk.c: one round of the loop, and the loop. `rounds` bounds how many there are.
use Prim.Native.Nat.{bit_and}
use bombyx.Prelude.{
  ℕ, zero, suc, Bool, true, false, not, ◌&&◌, Option, none, some, List, [], ◌∷◌, ltb, ◌==◌,
  if◌then◌else◌,
}
use bombyx.Run.{ok}
use bombyx.Double.{Double}
use bombyx.Env.{M, pure, ◌>>=◌, ◌>>◌}
use bombyx.Bytecode.Opcodes.{
  bco_as_var, bco_set, bco_set_elem, bco_add_elem, bco_as_double, bco_as_string, bco_from_json,
  bco_access, bco_call, bco_xcall, bco_block_def, bco_skip, bco_block_start, bco_block_end,
  bco_clear_stack, bco_reverse_stack, bco_return, bco_while, bco_if, bco_else, bco_ceit, bco_cmp,
  bco_cmp_not, bco_more, bco_more_eq, bco_less, bco_less_eq, bco_and, bco_or, bco_add, bco_sub,
  bco_mul, bco_div, bco_pow, bco_mod, bco_incr, bco_decr, bco_invert, bco_unary_minus, bco_var,
  bco_varx, bco_param, bco_paramx, bco_print, bco_microtime, bco_as_void,
}
use bombyx.Bytecode.Reader.{read_byte}
use bombyx.Bytecode.Ready.{bc_ready}
use bombyx.Copy.{var_unset}
use bombyx.Stack.{stack_clear}
use bombyx.Silk.{Locals, Host, initial, on_bc, set_flag}
use bombyx.Silk.Values.{
  case_as_var, case_as_double, case_as_string, case_from_json, case_var, case_varx, case_param,
  case_paramx, case_print, case_microtime, case_as_void,
}
use bombyx.Silk.Elements.{case_set, case_set_elem, case_add_elem, case_access}
use bombyx.Silk.Operators.{
  case_cmp, case_cmp_not, case_more, case_more_eq, case_less, case_less_eq, case_and, case_or,
  case_add, case_sub, case_mul, case_div, case_pow, case_mod, case_incr, case_decr, case_invert,
  case_unary_minus,
}
use bombyx.Silk.Control.{
  case_call, case_xcall, case_block_def, case_skip, case_block_start, case_block_end,
  case_clear_stack,
}
use bombyx.Silk.Flow.{case_reverse_stack, case_return, case_ceit, case_while, case_if, case_else}

-- `switch (op)` over the cases, and nothing for any other number.
unfoldable pub switch {ℓ} : {A : Type ℓ} → ℕ → List (ℕ × A) → A → A
switch op [] other = other
switch op ((c, body) ∷ rest) other = if op == c then body else switch op rest other

-- IS_BCO_SKIPPABLE
abbrev pub is_skippable : ℕ → Bool
is_skippable op = not (bit_and op 224 == 0)

module _ {D : Type 0} ⦃fl : Double D⦄ (host : Host D) (fuel : ℕ) where
  unfoldable pub cases : List (ℕ × (Locals → M D Locals))
  cases =
      (bco_as_var, case_as_var host fuel)
      ∷ (bco_set, case_set fuel)
      ∷ (bco_set_elem, case_set_elem fuel)
      ∷ (bco_add_elem, case_add_elem fuel)
      ∷ (bco_as_double, case_as_double host fuel)
      ∷ (bco_as_string, case_as_string host fuel)
      ∷ (bco_from_json, case_from_json host fuel)
      ∷ (bco_access, case_access fuel)
      ∷ (bco_call, case_call host fuel)
      ∷ (bco_xcall, case_xcall host fuel)
      ∷ (bco_block_def, case_block_def)
      ∷ (bco_skip, case_skip)
      ∷ (bco_block_start, case_block_start)
      ∷ (bco_block_end, case_block_end fuel)
      ∷ (bco_clear_stack, case_clear_stack fuel)
      ∷ (bco_reverse_stack, case_reverse_stack)
      ∷ (bco_return, case_return fuel)
      ∷ (bco_while, case_while fuel)
      ∷ (bco_if, case_if fuel)
      ∷ (bco_else, case_else fuel)
      ∷ (bco_ceit, case_ceit fuel)
      ∷ (bco_cmp, case_cmp fuel)
      ∷ (bco_cmp_not, case_cmp_not fuel)
      ∷ (bco_more, case_more fuel)
      ∷ (bco_more_eq, case_more_eq fuel)
      ∷ (bco_less, case_less fuel)
      ∷ (bco_less_eq, case_less_eq fuel)
      ∷ (bco_and, case_and fuel)
      ∷ (bco_or, case_or fuel)
      ∷ (bco_add, case_add fuel)
      ∷ (bco_sub, case_sub fuel)
      ∷ (bco_mul, case_mul fuel)
      ∷ (bco_div, case_div fuel)
      ∷ (bco_pow, case_pow fuel)
      ∷ (bco_mod, case_mod fuel)
      ∷ (bco_incr, case_incr fuel)
      ∷ (bco_decr, case_decr fuel)
      ∷ (bco_invert, case_invert fuel)
      ∷ (bco_unary_minus, case_unary_minus fuel)
      ∷ (bco_var, case_var host fuel)
      ∷ (bco_varx, case_varx host fuel)
      ∷ (bco_param, case_param host fuel)
      ∷ (bco_paramx, case_paramx host fuel)
      ∷ (bco_print, case_print host fuel)
      ∷ (bco_microtime, case_microtime host fuel)
      ∷ (bco_as_void, case_as_void host fuel)
      ∷ []

  unfoldable pub dispatch : ℕ → Locals → M D Locals
  unfolding switch cases
  dispatch op l = switch op cases pure l

  unfoldable pub step : Locals → M D Locals
  unfolding on_bc
  step l = do op ← on_bc read_byte; if l.skip_mode && is_skippable op then pure l else dispatch op l

  -- `none` where the rounds do not suffice
  unfoldable pub run : ℕ → Locals → M D (Option Locals)
  run zero l env = ok (none, env)
  run (suc rounds) l env =
      let next = (step l >>= run rounds) env in
      if ltb env.bc.bc_pos env.bc.bc_length then next else ok (some l, env)

  -- Whether the loop ended within the rounds.
  unfoldable pub larva_silk : ℕ → M D Bool
  unfolding set_flag run bc_ready
  larva_silk rounds = do
    λ env. set_flag 0 (record env { gl_level = 0 })
    bc_ready
    r ← run rounds initial
    elim r [ none ↦ pure false | some _ ↦ do stack_clear (var_unset fuel); pure true ]
