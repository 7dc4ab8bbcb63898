-- ===== src/Larva/Statements.antt =====
-- core/larva.c: larva_digest on one line.
use bombyx.Prelude.{
  ℕ, zero, suc, ◌+◌, ◌*◌, ◌≤◌, ◌<◌, ◌≡◌, refl, Bool, true, false, List, [], ◌∷◌, ◌++◌, arith,
  length,
}
use bombyx.Double.{Double}
use bombyx.Table.{same_name}
use bombyx.Bytecode.Opcodes.{
  bco_var, bco_varx, bco_clear_stack, bco_return, bco_block_def, bco_block_start, bco_block_end,
  bco_if, bco_while, bco_ceit, bco_else,
}
use bombyx.Expression.{pure, ◌>>◌, add_cmd}
use bombyx.Expression.Grammar.{Tree, any_of, text, code, weight}
use bombyx.Expression.Ends.{left, text-starts}
use bombyx.Expression.Reads.{head, emits_cmd}
use bombyx.Larva.Digest.{digest_vars, digest_block, digest_token, parse_code, condition}
use bombyx.Larva.Gives.{
  Gives, writes_of, and_then, on, returns, equals, looks, advances, ends, quiet, follow, fewer,
  both_move, remains, parse_code-text, condition-text, grouped,
}
use bombyx.Larva.Lines.{
  is_token, VarName, named_text, token_code, params_text, params_code, declares, defines,
  gives_back, starts_block, tests, loops, alternative, open_brace, close_brace, uses, line_text,
  line_code,
}
use bombyx.Larva.Declares.{reads_token, adds_token, ends_line, has_value, vars_name}
use bombyx.Larva.Parameters.{
  Heads-length, params-length, stops_at, params, statement, keyword, command_line, Digests,
}

module _ {D : Type 0} (fl : Double D) (spare : ℕ) (few : spare ≤ 1) (fuel : ℕ) where
  pub else_lem :
      (lead e : Bool) (s : List ℕ) → 1 ≤ length s → Digests fl spare few fuel lead e alternative s
  unfolding line_text line_code digest_token same_name
  else_lem lead e s size =
      command_line fl spare few fuel lead e b'e' (b'l' ∷ b's' ∷ b'e' ∷ []) bco_else s refl size
        (returns (false, e) (writes_of (emits_cmd bco_else)))

  pub close_lem :
      (lead e : Bool) (s : List ℕ) → 1 ≤ length s → Digests fl spare few fuel lead e close_brace s
  unfolding line_text line_code digest_token same_name
  close_lem lead e s size =
      command_line fl spare few fuel lead e b'}' [] bco_block_end s refl size
        (returns (false, e) (writes_of (emits_cmd bco_block_end)))

  -- A variable behind `var`, without a value and with one.
  var_alone :
      (rounds : ℕ) (x : VarName) (s : List ℕ)
      → 0 < rounds
      → 1 ≤ length s
      → Gives
          (digest_vars fl spare fuel rounds false)
          (b' ' ∷ named_text x (b'\n' ∷ s))
          true
          (bco_var ∷ token_code x.first x.others)
          2
          (b'\n' ∷ s)
  var_alone zero x s enough size = absurd (omega (arith, enough))
  var_alone (suc rounds) x s enough size =
      let token = left (is_token x.first x.others) _ x.is in
      vars_name fl spare fuel rounds false x (b' ' ∷ []) [] refl refl (head b'\n' s refl)
        (stops_at fl spare few fuel b'\n' s refl size)
        (ends_line fl fuel (digest_vars fl spare fuel rounds false) x.first x.others s token)

  var_value :
      (rounds : ℕ) (x : VarName) (e : Tree any_of) (s : List ℕ)
      → 0 < rounds
      → weight e < fuel
      → Gives
          (digest_vars fl spare fuel rounds false)
          (b' ' ∷ named_text x (b' ' ∷ b'=' ∷ b' ' ∷ text e (b'\n' ∷ s)))
          false
          (code fl e ++ bco_varx ∷ token_code x.first x.others)
          (weight e + 2)
          (b'\n' ∷ s)
  var_value zero x e s enough deep = absurd (omega (arith, enough))
  var_value (suc rounds) x e s enough deep =
      let token = left (is_token x.first x.others) _ x.is in
      vars_name fl spare fuel rounds false x (b' ' ∷ []) (b' ' ∷ []) refl refl (head b'=' _ refl)
        (stops_at fl spare few fuel b' ' _ refl (omega arith))
        (has_value fl fuel (digest_vars fl spare fuel rounds false) x.first x.others s e token deep)

  pub declares_lem :
      (lead e : Bool) (x : VarName) (s : List ℕ)
      → 0 < fuel
      → 1 ≤ length s
      → Digests fl spare few fuel lead e (declares x) s
  unfolding line_text line_code digest_token same_name
  declares_lem lead e x s enough size =
      statement fl spare few fuel e
        (keyword fl spare few fuel lead b'v' (b'a' ∷ b'r' ∷ []) b' ' _ refl refl (omega arith))
        (ends _ (var_alone fuel x s enough size) (remains (true, e) (b'\n' ∷ s)))
        (remains tt (b'\n' ∷ s))

  pub defines_lem :
      (lead e : Bool) (x : VarName) (v : Tree any_of) (s : List ℕ)
      → weight v < fuel
      → Digests fl spare few fuel lead e (defines x v) s
  unfolding line_text line_code digest_token same_name
  defines_lem lead e x v s enough =
      statement fl spare few fuel e
        (keyword fl spare few fuel lead b'v' (b'a' ∷ b'r' ∷ []) b' ' _ refl refl (omega arith))
        (ends _ (var_value fuel x v s (omega (arith, enough)) enough)
          (remains (false, e) (b'\n' ∷ s)))
        (advances b'\n' s)

  pub gives_lem :
      (lead e : Bool) (v : Tree any_of) (s : List ℕ)
      → suc (weight v) < fuel
      → Digests fl spare few fuel lead e (gives_back v) s
  unfolding line_text line_code digest_token same_name text code weight
  gives_lem lead e v s enough =
      let parses = parse_code-text fl fuel (grouped v) b'\n' s enough refl in
      statement fl spare few fuel e
        (keyword fl spare few fuel lead b'r' (b'e' ∷ b't' ∷ b'u' ∷ b'r' ∷ b'n' ∷ []) b'(' _ refl
          refl (Heads-length (text-starts v _)))
        (returns (false, e)
          (equals refl (omega arith) (
            and_then (λ _. add_cmd bco_return)
              (and_then (λ _. parse_code fl fuel) (writes_of (emits_cmd bco_clear_stack)) parses)
              (writes_of (emits_cmd bco_return)))))
        (advances b'\n' s)

  -- The expression of an `if` or a `while`, with the command_line fl spare few fuel before it.
  tested :
      (cmd : ℕ) (v : Tree any_of) (s : List ℕ)
      → suc (weight v) < fuel
      → Gives
          (add_cmd cmd >> condition fl fuel >> add_cmd bco_ceit)
          (b'(' ∷ text v (b')' ∷ s))
          tt
          (cmd ∷ code fl v ++ bco_ceit ∷ [])
          (3 + weight v)
          s
  tested cmd v s enough = equals refl (omega arith) (
      and_then (λ _. add_cmd bco_ceit)
        (and_then (λ _. condition fl fuel) (writes_of (emits_cmd cmd))
          (condition-text fl fuel v s enough))
        (writes_of (emits_cmd bco_ceit)))

  pub tests_lem :
      (lead e : Bool) (v : Tree any_of) (s : List ℕ)
      → suc (weight v) < fuel
      → Digests fl spare few fuel lead e (tests v) s
  unfolding line_text line_code digest_token same_name
  tests_lem lead e v s enough =
      statement fl spare few fuel e
        (keyword fl spare few fuel lead b'i' (b'f' ∷ []) b'(' _ refl refl
          (Heads-length (text-starts v _)))
        (returns (false, e) (tested bco_if v (b'\n' ∷ s) enough)) (advances b'\n' s)

  pub loops_lem :
      (lead e : Bool) (v : Tree any_of) (s : List ℕ)
      → suc (weight v) < fuel
      → Digests fl spare few fuel lead e (loops v) s
  unfolding line_text line_code digest_token same_name
  loops_lem lead e v s enough =
      statement fl spare few fuel e
        (keyword fl spare few fuel lead b'w' (b'h' ∷ b'i' ∷ b'l' ∷ b'e' ∷ []) b'(' _ refl refl
          (Heads-length (text-starts v _)))
        (returns (false, e) (tested bco_while v (b'\n' ∷ s) enough)) (advances b'\n' s)

  pub brace_lem :
      (lead e : Bool) (s : List ℕ) → 1 ≤ length s → Digests fl spare few fuel lead e open_brace s
  unfolding line_text line_code digest_token same_name
  brace_lem lead true s size =
      statement fl spare few fuel true
        (keyword fl spare few fuel lead b'{' [] b'\n' s refl refl size)
        (fewer (omega arith) (quiet (both_move (remains tt _) (remains (false, false) _))))
        (advances b'\n' s)
  brace_lem lead false s size =
      statement fl spare few fuel false
        (keyword fl spare few fuel lead b'{' [] b'\n' s refl refl size)
        (returns (false, false) (writes_of (emits_cmd bco_block_start))) (advances b'\n' s)

  pub uses_lem :
      (lead e : Bool) (c : ℕ) (cs : List ℕ) (h : is_token c cs ≡ true) (s : List ℕ)
      → 1 ≤ length s
      → Digests fl spare few fuel lead e (uses c cs h) s
  unfolding line_text line_code digest_token same_name
  uses_lem lead e c cs h s size =
      statement fl spare few fuel e
        (keyword fl spare few fuel lead b'u' (b's' ∷ b'e' ∷ []) b' ' _ refl refl (omega arith))
        (on (λ _. pure (false, e))
          (reads_token spare (b' ' ∷ []) c cs refl h (stops_at fl spare few fuel b'\n' s refl size))
          (quiet (remains (false, e) (b'\n' ∷ s))))
        (advances b'\n' s)

  block_head :
      (c : ℕ) (cs : List ℕ) (h : is_token c cs ≡ true) (ps : List VarName) (s : List ℕ)
      → length ps < fuel
      → 1 ≤ length s
      → Gives
          (digest_block fl spare fuel)
          (b' ' ∷ c ∷ cs ++ b'(' ∷ params_text ps s)
          true
          (bco_block_def ∷ token_code c cs ++ bco_block_start ∷ params_code ps)
          (3 + 2 * length ps)
          (b'\n' ∷ s)
  unfolding digest_block
  block_head c cs h ps s enough size =
      let some = params-length ps s in
      let all_of = params fl spare few fuel fuel ps s enough size in
      on _ (reads_token spare (b' ' ∷ []) c cs refl h (stops_at fl spare few fuel b'(' _ refl some))
        (equals refl (omega arith) (
          follow (writes_of (emits_cmd bco_block_def)) (
            follow (writes_of (adds_token c cs h)) (
              follow (writes_of (emits_cmd bco_block_start))
                (on _ (looks b'(' _) (follow (quiet (advances b'(' _)) all_of))))))

  pub block_lem :
      (lead e : Bool) (c : ℕ) (cs : List ℕ) (h : is_token c cs ≡ true) (ps : List VarName)
      (s : List ℕ)
      → length ps < fuel
      → 1 ≤ length s
      → Digests fl spare few fuel lead e (starts_block c cs h ps) s
  unfolding line_text line_code digest_token same_name
  block_lem lead e c cs h ps s enough size =
      statement fl spare few fuel e
        (keyword fl spare few fuel lead b'b' (b'l' ∷ b'o' ∷ b'c' ∷ b'k' ∷ []) b' ' _ refl refl
          (omega arith))
        (ends _ (block_head c cs h ps s enough size) (remains (true, true) (b'\n' ∷ s)))
        (remains tt (b'\n' ∷ s))
