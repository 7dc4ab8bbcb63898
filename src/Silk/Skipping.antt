-- ===== src/Silk/Skipping.antt =====
-- core/larva_silk.c: in skip mode the loop passes over the code of an expression.
use bombyx.Prelude.{
  ℕ, ◌+◌, ◌≤◌, ◌<◌, ◌≡◌, refl, ap, sym, ◌∙◌, true, some, List, [], ◌∷◌, ◌++◌, arith, length,
  length-append, get_elem?,
}
use std.Path.{subst}
use mathlib.Core.List.{append_assoc}
use bombyx.Run.{ok}
use bombyx.Double.{Double}
use bombyx.Env.{Env, ◌>>=◌}
use bombyx.Bytecode.{Bytecode}
use bombyx.Bytecode.Opcodes.{
  bco_as_double, bco_as_var, bco_invert, bco_pow, bco_unary_minus, bco_and, bco_or,
}
use bombyx.Bytecode.Reader.{read_byte, skip_token, skip_double}
use bombyx.Expression.Grammar.{
  Rank, Operator, times, over, modulo, plus, minus, below, above, below_or_equal, above_or_equal,
  equal, different, assign, command, Tree, number, variable, group, unsigned, invert, base, raise,
  factor, multiply, summand, negate, add, side, compare, value, equate, conjunct, conjoin, disjunct,
  disjoin, code,
}
use bombyx.Silk.{Locals, Host, on_bc, skip_bc}
use bombyx.Silk.Values.{case_as_double, case_as_var}
use bombyx.Silk.Step.{step, dispatch, switch, cases, is_skippable}

abbrev pub moved : {D : Type 0} → Env D → ℕ → Env D
moved env p = record env { bc = record env.bc { bc_pos = p } }

abbrev pub skipping : Locals → Locals
skipping l = record l { skip_mode = true }

byte_at :
    (before : List ℕ) (c : ℕ) (after : List ℕ)
    → get_elem? (before ++ c ∷ after) (length before) ≡ some c
byte_at [] c after = refl
byte_at (b ∷ before) c after = byte_at before c after

pub read_lem :
    (bc : Bytecode) (before : List ℕ) (c : ℕ) (after : List ℕ)
    → bc.bytecode ≡ before ++ (c ∷ after)
    → bc.bc_pos ≡ length before
    → read_byte bc ≡ ok (c, record bc { bc_pos = length before + 1 })
unfolding read_byte
read_lem bc before c after e p =
    let found : get_elem? bc.bytecode bc.bc_pos ≡ some c = rw (e, p) (byte_at before c after) in
    rw (read_byte, found) (ap (λ x. ok (c, record bc { bc_pos = x + 1 })) p)

skip_lem :
    (bc : Bytecode) (before name after : List ℕ)
    → bc.bytecode ≡ before ++ (length name ∷ name ++ after)
    → bc.bc_pos ≡ length before
    → skip_token bc ≡ ok (record bc { bc_pos = length before + 1 + length name })
unfolding skip_token
skip_lem bc before name after e p =
    rw (skip_token, read_lem bc before (length name) (name ++ after) e p) refl

module _ {D : Type 0} ⦃fl : Double D⦄ (host : Host D) (fuel : ℕ) where
  -- The rounds of the loop, one after another.
  pub data Reaches : Locals × Env D → Locals × Env D → Type 0 where
    here : {s : Locals × Env D} → Reaches s s
    there :
        {l : Locals} {env : Env D} {s s' : Locals × Env D}
        → env.bc.bc_pos < env.bc.bc_length
        → step host fuel l env ≡ ok s
        → Reaches s s'
        → Reaches (l, env) s'

  pub trans-Reaches : {s s' s'' : Locals × Env D} → Reaches s s' → Reaches s' s'' → Reaches s s''
  trans-Reaches here next = next
  trans-Reaches (there low e rest) next = there low e (trans-Reaches rest next)

  -- The loop goes over `cs`, wherever they stand in the code, and changes the position alone.
  record Passes (l : Locals) (cs : List ℕ) : Type 0 where
    pub run :
        (env : Env D) (before after : List ℕ)
        → env.bc.bytecode ≡ before ++ (cs ++ after)
        → env.bc.bc_pos ≡ length before
        → length before + length cs ≤ env.bc.bc_length
        → Reaches (skipping l, env) (skipping l, moved env (length before + length cs))

  append-Passes : {l : Locals} {cs ds : List ℕ} → Passes l cs → Passes l ds → Passes l (cs ++ ds)
  append-Passes {l} {cs} {ds} first next = record {
    run = λ env before after e p inside.
        let n = length-append cs ds in
        let m = length-append before cs in
        let q = length before + length cs in
        let e' : env.bc.bytecode ≡ (before ++ cs) ++ (ds ++ after) =
          e ∙ rw (append_assoc before cs (ds ++ after), append_assoc cs ds after) refl in
        let there' =
          next.run (moved env q) (before ++ cs) after e' (sym m) (omega (arith, n, m, inside)) in
        let end : length (before ++ cs) + length ds ≡ length before + length (cs ++ ds) =
          omega (arith, n, m) in
        trans-Reaches
          (first.run env before (ds ++ after) (e ∙ ap (λ t. before ++ t) (append_assoc cs ds after))
            p (omega (arith, n, inside)))
          (subst (λ x. Reaches (skipping l, moved env q) (skipping l, moved env x)) end there');
  }

  skippable-Passes : (l : Locals) (c : ℕ) → is_skippable c ≡ true → Passes l (c ∷ [])
  unfolding step
  skippable-Passes l c skip = record {
    run = λ env before after e p inside.
        there (omega (arith, p, inside))
          (rw (step, ◌>>=◌, on_bc, read_lem env.bc before c after e p, skip) refl) here;
  }

  bco_as_double-Passes : (l : Locals) (x : D) → Passes l (bco_as_double ∷ fl.image x)
  unfolding step dispatch switch cases case_as_double skip_double
  bco_as_double-Passes l x = record {
    run = λ env before after e p inside.
        let eight = fl.length-image x in
        let end : length before + 1 + 8 ≡ length before + length (bco_as_double ∷ fl.image x) =
          omega (arith, eight) in
        there (omega (arith, p, inside))
          (rw
            (
              step,
              ◌>>=◌,
              on_bc,
              read_lem env.bc before bco_as_double (fl.image x ++ after) e p,
              ← end,
            )
            refl)
          here;
  }

  bco_as_var-Passes : (l : Locals) (name : List ℕ) → Passes l (bco_as_var ∷ length name ∷ name)
  unfolding step dispatch switch cases case_as_var
  bco_as_var-Passes l name = record {
    run = λ env before after e p inside.
        let before' = before ++ bco_as_var ∷ [] in
        let bc' = record env.bc { bc_pos = length before + 1 } in
        let n = length-append before (bco_as_var ∷ []) in
        let e' : bc'.bytecode ≡ before' ++ (length name ∷ name ++ after) =
          e ∙ sym (append_assoc before (bco_as_var ∷ []) (length name ∷ name ++ after)) in
        let end : length before' + 1 + length name
            ≡ length before + length (bco_as_var ∷ length name ∷ name) =
          omega (arith, n) in
        there (omega (arith, p, inside))
          (rw
            (
              step,
              ◌>>=◌,
              on_bc,
              read_lem env.bc before bco_as_var (length name ∷ name ++ after) e p,
              skip_bc,
              skip_lem bc' before' name after e' (sym n),
              ← end,
            )
            refl)
          here;
  }

  command-Passes : {r : Rank} (l : Locals) (op : Operator r) → Passes l (command op ∷ [])
  command-Passes l times = skippable-Passes l _ refl
  command-Passes l over = skippable-Passes l _ refl
  command-Passes l modulo = skippable-Passes l _ refl
  command-Passes l plus = skippable-Passes l _ refl
  command-Passes l minus = skippable-Passes l _ refl
  command-Passes l below = skippable-Passes l _ refl
  command-Passes l above = skippable-Passes l _ refl
  command-Passes l below_or_equal = skippable-Passes l _ refl
  command-Passes l above_or_equal = skippable-Passes l _ refl
  command-Passes l equal = skippable-Passes l _ refl
  command-Passes l different = skippable-Passes l _ refl
  command-Passes l assign = skippable-Passes l _ refl

  code-Passes : {r : Rank} (l : Locals) (e : Tree r) → Passes l (code fl e)
  unfolding code
  code-Passes l (number c cs h) = bco_as_double-Passes l (fl.strtod (c ∷ cs))
  code-Passes l (variable c cs h) = bco_as_var-Passes l (c ∷ cs)
  code-Passes l (group e) = code-Passes l e
  code-Passes l (unsigned e) = code-Passes l e
  code-Passes l (invert e) = append-Passes (code-Passes l e) (skippable-Passes l bco_invert refl)
  code-Passes l (base e) = code-Passes l e
  code-Passes l (raise e e') =
      append-Passes (code-Passes l e)
        (append-Passes (code-Passes l e') (skippable-Passes l bco_pow refl))
  code-Passes l (factor e) = code-Passes l e
  code-Passes l (multiply op e e') =
      append-Passes (code-Passes l e) (append-Passes (code-Passes l e') (command-Passes l op))
  code-Passes l (summand e) = code-Passes l e
  code-Passes l (negate e) =
      append-Passes (code-Passes l e) (skippable-Passes l bco_unary_minus refl)
  code-Passes l (add op e e') =
      append-Passes (code-Passes l e) (append-Passes (code-Passes l e') (command-Passes l op))
  code-Passes l (side e) = code-Passes l e
  code-Passes l (compare op e e') =
      append-Passes (code-Passes l e) (append-Passes (code-Passes l e') (command-Passes l op))
  code-Passes l (value e) = code-Passes l e
  code-Passes l (equate op e e') =
      append-Passes (code-Passes l e) (append-Passes (code-Passes l e') (command-Passes l op))
  code-Passes l (conjunct e) = code-Passes l e
  code-Passes l (conjoin e e') =
      append-Passes (code-Passes l e)
        (append-Passes (code-Passes l e') (skippable-Passes l bco_and refl))
  code-Passes l (disjunct e) = code-Passes l e
  code-Passes l (disjoin e e') =
      append-Passes (code-Passes l e)
        (append-Passes (code-Passes l e') (skippable-Passes l bco_or refl))

  -- Where the code of an expression of the grammar stands in the buffer at the position, and ends
  -- within its length, rounds of the loop in skip mode lead to the byte behind it, with the position
  -- alone changed.
  pub code-Reaches :
      {r : Rank} (l : Locals) (e : Tree r) (env : Env D) (before after : List ℕ)
      → env.bc.bytecode ≡ before ++ (code fl e ++ after)
      → env.bc.bc_pos ≡ length before
      → length before + length (code fl e) ≤ env.bc.bc_length
      → Reaches (skipping l, env) (skipping l, moved env (length before + length (code fl e)))
  code-Reaches l e env before after at start inside =
      (code-Passes l e).run env before after at start inside
