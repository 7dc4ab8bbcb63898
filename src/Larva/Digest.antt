-- ===== src/Larva/Digest.antt =====
-- core/larva.c: larva_digest, which reads the statements of the source text and writes their code. A
-- statement takes fuel: for its expressions, and for the variables that it declares.
use bombyx.Prelude.{ℕ, zero, suc, Bool, true, false, ◌||◌, not, List, [], ◌∷◌, ◌==◌, if◌then◌else◌}
use bombyx.Run.{Run, ok, jump, fault, uninitialised}
use bombyx.Double.{Double}
use bombyx.Table.{same_name}
use bombyx.Bytecode.{Bytecode, bc_add_string}
use bombyx.Bytecode.Opcodes.{
  bco_var, bco_varx, bco_param, bco_paramx, bco_from_json, bco_clear_stack, bco_return,
  bco_block_def, bco_block_start, bco_block_end, bco_if, bco_while, bco_ceit, bco_else,
}
use bombyx.Expression.{
  Parser, pure, ◌>>=◌, ◌>>◌, parser_error, out_of_fuel, emit, add_cmd, add_token,
}
use bombyx.Expression.Parse.{cut_expression, parse_expression, parse}
use bombyx.Larva.{code_at, next_pos}
use bombyx.Larva.Reading.{
  word_var, word_return, word_block, word_if, word_while, word_else, word_use, is_reserved,
  next_token, skip_blanks, go_back, read_json, cut_condition,
}

-- A value in JSON, which the program reads when it runs.
unfoldable pub digest_json : List ℕ → Parser (Unit {0})
unfolding read_json add_cmd add_token
digest_json token = do
  json_string ← read_json
  add_cmd bco_from_json
  emit (λ bc. bc_add_string bc json_string)
  add_cmd bco_varx
  add_token token

-- A variable without a value.
unfoldable pub declare : Bool → List ℕ → Parser (Unit {0})
unfolding add_cmd add_token
declare is_param token = add_cmd (if is_param then bco_param else bco_var) >> add_token token

-- The same at the end of a line, where a parenthesis is none.
unfoldable pub declare_last : Bool → List ℕ → Parser (Unit {0})
unfolding declare
declare_last is_param [] = declare is_param []
declare_last is_param (t ∷ oken) = if t == b')' then pure tt else declare is_param (t ∷ oken)

module _ {D : Type 0} (fl : Double D) where
  -- parse, which reads past the text where no byte ends the expression
  unfoldable pub parse_code : ℕ → Parser (Unit {0})
  parse_code fuel pd = elim (cut_expression false 0 pd.rest).1 [
    | [] ↦ fault uninitialised
    | _ ∷ _ ↦ elim (parse fl fuel pd.rest pd.bc) [
      | ok (bc, rest) ↦ ok (tt, record { rest = rest; bc = bc })
      | jump e ↦ jump e
      | fault e ↦ fault e
    ]
  ]

  unfoldable pub condition : ℕ → Parser (Unit {0})
  condition fuel pd = elim (cut_condition 0 pd.rest) [
    | ok (expr, rest) ↦ elim (parse_expression fl fuel expr pd.bc) [
      | ok bc ↦ ok (tt, record { rest = rest; bc = bc })
      | jump e ↦ jump e
      | fault e ↦ fault e
    ]
    | jump e ↦ jump e
    | fault e ↦ fault e
  ]

  -- What stands behind the `=` of a variable.
  unfoldable pub digest_value : ℕ → Bool → List ℕ → Parser (Unit {0})
  unfolding parse_code digest_json add_cmd add_token code_at
  digest_value fuel is_param token = do
    c ← code_at
    if c == b'{' || c == b'['
        then digest_json token
        else parse_code fuel
          >> add_cmd (if is_param then bco_paramx else bco_varx)
          >> add_token token

  unfoldable pub define : ℕ → Bool → List ℕ → Parser (Unit {0})
  unfolding digest_value next_pos skip_blanks
  define fuel is_param token = next_pos >> skip_blanks >> digest_value fuel is_param token

  -- What stands behind the name of a variable, where the name `again` is re_read_var. Whether the
  -- loop over the statements goes on at once, by `continue`.
  unfoldable pub digest_var : Parser Bool → ℕ → Bool → List ℕ → Parser Bool
  unfolding define declare declare_last code_at next_pos add_cmd add_token
  digest_var again fuel is_param token = do
    c ← code_at
    if c == b'\n' || c == 0
        then declare_last is_param token >> pure true
        else if c == b','
        then declare is_param token >> next_pos >> again
        else if c == b')'
        then add_cmd bco_param >> add_token token >> next_pos >> pure true
        else if not (c == b'=')
        then parser_error
        else define fuel is_param token >> code_at >>= λ c'.
            if c' == b',' then next_pos >> again else pure false

-- `spare` is as in larva_read_token.
module _ {D : Type 0} (fl : Double D) (spare : ℕ) where
  -- From re_read_var on.
  unfoldable pub digest_vars : ℕ → ℕ → Bool → Parser Bool
  unfolding digest_var next_token skip_blanks
  digest_vars fuel zero is_param = out_of_fuel
  digest_vars fuel (suc rounds) is_param =
      let again = digest_vars fuel rounds is_param in
      do
        token ← next_token spare
        if is_reserved token
            then parser_error
            else skip_blanks >> digest_var fl again fuel is_param token

  -- The name of a block, and its parameters.
  unfoldable pub digest_block : ℕ → Parser Bool
  unfolding digest_vars next_token code_at next_pos add_cmd add_token
  digest_block fuel = do
    token ← next_token spare
    add_cmd bco_block_def
    add_token token
    add_cmd bco_block_start
    c ← code_at
    if c == b'(' then next_pos >> digest_vars fuel fuel true else pure false

  -- One statement, by its first token: whether the loop goes on at once, and `expect_block`.
  unfoldable pub digest_token : ℕ → List ℕ → List ℕ → Bool → Parser (Bool × Bool)
  unfolding digest_vars digest_block parse_code condition next_token add_cmd add_token
  digest_token fuel line_start token expect_block =
      if same_name token (b'}' ∷ [])
      then add_cmd bco_block_end >> pure (false, expect_block)
      else if same_name token word_var
      then (digest_vars fuel fuel false >>= λ continues. pure (continues, expect_block))
      else if same_name token word_return
      then add_cmd bco_clear_stack
        >> parse_code fl fuel
        >> add_cmd bco_return
        >> pure (false, expect_block)
      else if same_name token word_block
      then (digest_block fuel >>= λ continues. pure (continues, true))
      else if same_name token word_if
      then add_cmd bco_if >> condition fl fuel >> add_cmd bco_ceit >> pure (false, expect_block)
      else if same_name token word_while
      then add_cmd bco_while >> condition fl fuel >> add_cmd bco_ceit >> pure (false, expect_block)
      else if same_name token word_else
      then add_cmd bco_else >> pure (false, expect_block)
      else if same_name token (b'{' ∷ [])
      then (if expect_block then pure tt else add_cmd bco_block_start) >> pure (false, false)
      else if same_name token word_use
      then (next_token spare >>= λ _. pure (false, expect_block))
      else go_back line_start >> parse_code fl fuel >> pure (false, expect_block)

  -- One round of the loop over the statements: `expect_block` behind it.
  unfoldable pub digest_statement : ℕ → Bool → Parser Bool
  unfolding digest_token next_token next_pos
  digest_statement fuel expect_block pd =
      (do
        token ← next_token spare
        (continues, expect_block') ← digest_token fuel pd.rest token expect_block
        (if continues then pure tt else next_pos) >> pure expect_block')
        pd

  -- The loop, at most `rounds` of them.
  unfoldable pub digest_loop : ℕ → ℕ → Bool → Parser (Unit {0})
  unfolding digest_statement code_at
  digest_loop fuel zero expect_block = out_of_fuel
  digest_loop fuel (suc rounds) expect_block =
      let again = digest_loop fuel rounds in
      do c ← code_at; if c == 0 then pure tt else digest_statement fuel expect_block >>= again

  -- From the code that larva_init leaves, the buffer of instructions.
  unfoldable pub larva_digest : ℕ → ℕ → List ℕ → Bytecode → Run Bytecode
  unfolding digest_loop
  larva_digest fuel rounds code bc =
      elim (digest_loop fuel rounds false (record { rest = code; bc = bc })) [
        | ok (_, pd) ↦ ok pd.bc
        | jump e ↦ jump e
        | fault e ↦ fault e
      ]
