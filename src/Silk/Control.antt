-- ===== src/Silk/Control.antt =====
-- core/larva_silk.c: the instructions of blocks and calls.
use bombyx.Prelude.{
  ℕ, zero, suc, ◌+◌, ◌-◌, true, false, not, none, some, List, [], ◌∷◌, ◌++◌, ltb, ◌==◌,
  if◌then◌else◌, length, take, drop, replicate,
}
use bombyx.Run.{ok, fault, null_pointer, out_of_bounds, overlap}
use bombyx.Table.{Name}
use bombyx.Value.{VarType, same_type}
use bombyx.Double.{Double}
use bombyx.Env.{M, pure, undefined, runtime_error, ◌>>=◌, ◌>>◌}
use bombyx.Cocoon.{cocoon_lookup}
use bombyx.Block.{block_lookup, block_add}
use bombyx.Bytecode.Opcodes.{bco_idle, bco_skip}
use bombyx.Bytecode.Reader.{parser_max_token_size, read_byte, read_token, skip_token}
use bombyx.Copy.{var_unset, var_as_double}
use bombyx.Stack.{stack_push, stack_clear}
use bombyx.Silk.{
  Locals, Host, run_while, run_block, dec8, inc8, on_bc, skip_bc, go_to, raw_pop, flag, set_flag,
  set_ret_point, enter_level, leave_level, return_point,
}

-- The definition just read, before `at`, is replaced by idle instructions and BCO_SKIP.
unfoldable pub patch : ℕ → ℕ → List ℕ → List ℕ
patch at size code =
    take (at - size - 2) code ++ (replicate (size + 1) bco_idle ++ (bco_skip ∷ drop at code))

unfoldable pub skip_end : Locals → Locals
skip_end l =
    let level' = dec8 l.level in
    record l { level = level'; skip_mode = if level' == 0 then false else l.skip_mode }

module _ {D : Type 0} ⦃fl : Double D⦄ (host : Host D) (fuel : ℕ) where
  unfoldable pub case_call : Locals → M D Locals
  unfolding on_bc skip_bc go_to set_flag set_ret_point enter_level block_lookup runtime_error
  case_call l = if l.skip_mode then (do skip_bc skip_token; pure l) else (do
    token ← on_bc read_token
    λ env. elim (block_lookup env.blocks token) [
      | none ↦ runtime_error env
      | some block ↦
          (do
            enter_level
            set_ret_point env.bc.bc_pos
            set_flag run_block
            go_to block.pos
            pure (record l { this_block = some token }))
            env
    ])

  -- `while (argc--) var_unset(env, &env->bc_stack[--env->bc_stack_size])`
  unfoldable pub unset_arguments : ℕ → M D (Unit {0})
  unfolding raw_pop
  unset_arguments zero = pure tt
  unset_arguments (suc argc) = do v ← raw_pop; var_unset fuel v; unset_arguments argc

  -- The function sees the arguments on the stack, the first one deepest. An underscore is put
  -- behind its name, which must fit `token2` with it.
  unfoldable pub call_cocoon : ℕ → Name → M D Locals → Locals → M D Locals
  unfolding unset_arguments runtime_error
  call_cocoon handle name missing l =
      if not (ltb (length name + 1) parser_max_token_size)
      then undefined out_of_bounds
      else elim (host.symbol handle (name ++ b'_' ∷ [])) [
        | none ↦ missing
        | some fn ↦ do
          argc ← on_bc read_byte
          λ env.
              (if ltb (length env.bc_stack) argc then undefined out_of_bounds else (do
                v1 ← fn argc (take argc env.bc_stack)
                unset_arguments argc
                if same_type v1.type VarType.error then runtime_error else stack_push v1
                pure l))
                env
      ]

  unfoldable pub case_xcall : Locals → M D Locals
  unfolding on_bc skip_bc call_cocoon runtime_error cocoon_lookup
  case_xcall l =
      if l.skip_mode
      then (do
        skip_bc skip_token
        skip_bc skip_token
        λ env. ok (l, record env { bc = record env.bc { bc_pos = env.bc.bc_pos + 1 } }))
      else (do
        token ← on_bc read_token
        token2 ← on_bc read_token
        λ env. elim (cocoon_lookup env.cocoons token) [
          | none ↦ runtime_error env
          | some handle ↦ call_cocoon handle token2 runtime_error l env
        ])

module _ {D : Type 0} where
  -- The name of a block inside of another one, put together in `token`. The token is moved by
  -- memcpy, to a place that must not overlap it.
  unfoldable pub qualify : Name → Name → M D Name
  qualify parent token =
      if ltb (length parent + 1) (length token)
      then undefined overlap
      else if ltb (length parent + 1 + length token) parser_max_token_size
      then pure (parent ++ (b'.' ∷ token))
      else undefined out_of_bounds

  unfoldable pub case_block_def : Locals → M D Locals
  unfolding on_bc skip_bc qualify patch block_add
  case_block_def l = if l.skip_mode then (do skip_bc skip_token; pure l) else (do
    token ← on_bc read_token
    name ← elim l.this_block [ none ↦ pure token | some parent ↦ qualify parent token ]
    λ env.
        let at = env.bc.bc_pos in
        let (added, blocks') = block_add env.blocks name at l.this_block in
        let code = patch at (length token) env.bc.bytecode in
        ok (
          record l {
            parent_block = elim added [ none ↦ none | some _ ↦ some name ];
            skip_mode = true;
            def_mode = true;
          },
          record env { blocks = blocks'; bc = record env.bc { bytecode = code } },
        ))

  unfoldable pub case_skip : Locals → M D Locals
  case_skip l = pure (record l { skip_mode = true })

  unfoldable pub case_block_start : Locals → M D Locals
  case_block_start l = pure (if l.skip_mode then record l { level = inc8 l.level } else l)

  -- `parent_block = parent_block->parent` and the end of the definition
  unfoldable pub end_definition : Locals → M D Locals
  unfolding block_lookup
  end_definition l =
      if l.def_mode
      then elim l.parent_block [
        | none ↦ undefined null_pointer
        | some name ↦ λ env. elim (block_lookup env.blocks name) [
          | none ↦ fault null_pointer
          | some block ↦ ok (record l { parent_block = block.parent; def_mode = false }, env)
        ]
      ]
      else pure l

module _ {D : Type 0} ⦃fl : Double D⦄ (fuel : ℕ) where
  -- the end of a function without RETURN, which leaves 0
  unfoldable pub end_block : M D (Unit {0})
  unfolding return_point
  end_block = do stack_clear (var_unset fuel); v ← var_as_double fl.zero; stack_push v; return_point

  -- the end of a block that is run
  unfoldable pub leave_block : M D (Unit {0})
  unfolding flag return_point leave_level end_block
  leave_block = do
    f ← flag
    if f == run_block
        then end_block
        else (do if f == run_while then return_point else leave_level; stack_clear (var_unset fuel))

  unfoldable pub case_block_end : Locals → M D Locals
  unfolding end_definition skip_end leave_block
  case_block_end l = do
    l' ← end_definition l
    if l'.skip_mode then pure (skip_end l') else (do leave_block; pure l')

  unfoldable pub case_clear_stack : Locals → M D Locals
  case_clear_stack l = do stack_clear (var_unset fuel); pure l
