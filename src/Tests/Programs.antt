-- ===== src/Tests/Programs.antt =====
-- The expression compiler of core/expression.c, the cocoons of core/cocoon.c and the instructions of
-- core/larva_silk.c at small inputs.
use bombyx.Prelude.{
  zero, suc, ◌<◌, ◌+◌, none, length, ℕ, ◌≡◌, false, replicate, refl, some, List, [], ◌∷◌, ◌++◌,
  arith,
}
use bombyx.Run.{Run, ok, Returns}
use bombyx.Bytecode.{Bytecode, bc_init, bc_add_cmd, bc_add_double}
use bombyx.Bytecode.Bounds.{IsSound, bc_init-IsSound}
use bombyx.Expression.Levels.{parser_read_boolean_or}
use bombyx.Expression.Parse.{parse_expression}
use bombyx.Expression.Grammar.{
  Tree, powers, any_of, number, unsigned, base, factor, multiply, summand, add, side, value,
  conjunct, disjunct, times, plus, text, code,
}
use bombyx.Expression.Correct.{parse_expression-code}
use bombyx.Expression.Parse.{cut_expression}
use bombyx.Table.{create}
use bombyx.Table.Laws.{create-IsWf}
use bombyx.Cocoon.{CocoonTable, filename, cocoon_add}
use bombyx.Cocoon.Laws.{Loaded, cocoon_add-Loaded}
use bombyx.Value.{Var, zero_var}
use bombyx.Env.{Env}
use bombyx.Bytecode.Reader.{read_byte}
use bombyx.Silk.{Host, initial, pos}
use bombyx.Silk.Skipping.{Reaches, skipping, moved, code-Reaches}
use bombyx.Silk.Flow.{case_reverse_stack, unwind}
use bombyx.Silk.Arguments.{Turned, case_reverse_stack-Turned}
use bombyx.Silk.Unwinding.{IsActive, at_bottom, unwind-at_bottom}
use bombyx.Tests.Data.{numbers, env, five, ab}

abbrev pub one : Tree powers
one = base (unsigned (number b'1' [] refl))

abbrev two : Tree powers
two = base (unsigned (number b'2' [] refl))

-- 1+2*1
abbrev pub sum : Tree any_of
sum =
    disjunct
      (conjunct (value (side (add plus (summand (factor one)) (multiply times (factor two) one)))))

abbrev sum_text : List ℕ
sum_text = b'1' ∷ b'+' ∷ b'2' ∷ b'*' ∷ b'1' ∷ []

parse_expression-code_example :
    Returns
      (parse_expression numbers 11 (text sum []) bc_init)
      λ r. (r.bytecode ≡ bc_init.bytecode ++ code numbers sum) × IsSound r
unfolding text bc_init
parse_expression-code_example =
    parse_expression-code numbers sum 11 bc_init-IsSound (omega arith) (omega arith)

abbrev image_of : ℕ → List ℕ
image_of x = numbers.image x

sum_code :
    code numbers sum ≡ 4 ∷ image_of 49 ++ (4 ∷ image_of 50 ++ (4 ∷ image_of 49 ++ 37 ∷ 35 ∷ []))
unfolding code
sum_code = refl

abbrev code_of : Run Bytecode → List ℕ
code_of (ok bc) = bc.bytecode
code_of _ = []

sum_compiles : code_of (parse_expression numbers 9 sum_text bc_init) ≡ code numbers sum
unfolding parse_expression parser_read_boolean_or code bc_init bc_add_cmd bc_add_double
sum_compiles = refl

sum_cut : cut_expression false 0 (sum_text ++ b'\n' ∷ []) ≡ (sum_text, b'\n' ∷ [])
unfolding cut_expression
sum_cut = refl

abbrev pub no_cocoons : CocoonTable
no_cocoons = record { size = 2; table = replicate 2 [] }

cocoon_add-Loaded_example :
    Returns
      (cocoon_add (λ file. some 7) (b'/' ∷ []) [] no_cocoons (b'a' ∷ []))
      (Loaded (λ file. some 7) (b'/' ∷ []) [] no_cocoons (b'a' ∷ []))
unfolding filename create
cocoon_add-Loaded_example =
    cocoon_add-Loaded (create-IsWf 2 refl) (λ file. some 7) (b'/' ∷ []) [] (b'a' ∷ []) (omega arith)

-- Two arguments, the second one on top.
abbrev called : Env ℕ
called = record env {
  bc_stack = five ∷ ab ∷ [];
  bc = record { bc_pos = 0; bc_length = 25000; bytecode = 2 ∷ [] };
}

case_reverse_stack-Turned_example :
    (stack : List Var) × (case_reverse_stack initial called
      ≡ ok (
        record initial { param_count = pos 2 },
        record called { bc = record called.bc { bc_pos = 1 }; bc_stack = stack },
      ))
    × Turned 2 called.bc_stack stack
unfolding read_byte
case_reverse_stack-Turned_example =
    case_reverse_stack-Turned initial called {size = 2} {bc' = record called.bc { bc_pos = 1 }} refl
      refl (omega arith)

-- An if in a function in a function.
abbrev nested : Env ℕ
nested = record env {
  gl_level = 3;
  run_flag = 0 ∷ 4 ∷ 4 ∷ 1 ∷ [];
  ret_point = 0 ∷ 10 ∷ 20 ∷ 0 ∷ [];
}

nested-IsActive : (k : ℕ) → k < 3 → IsActive nested (suc k)
nested-IsActive zero low = record {
  flag = 4;
  point = 10;
  flagged = refl;
  runs = refl;
  returns = refl;
}
nested-IsActive (suc zero) low = record {
  flag = 4;
  point = 20;
  flagged = refl;
  runs = refl;
  returns = refl;
}
nested-IsActive (suc (suc zero)) low = record {
  flag = 1;
  point = 0;
  flagged = refl;
  runs = refl;
  returns = refl;
}
nested-IsActive (suc (suc (suc k))) low = absurd (omega (arith, low))

unwind-at_bottom_example : unwind 257 nested ≡ ok (tt, at_bottom nested 10)
unwind-at_bottom_example =
    unwind-at_bottom nested 3 257 refl (omega arith) (omega arith) refl nested-IsActive

abbrev pub silent : Host ℕ
silent = record {
  left = λ token. none;
  echo = λ v env. ok (tt, env);
  microtime = λ env. ok (0, env);
  from_json = λ str env. ok (zero_var, env);
  symbol = λ handle name. none;
}

-- The code of the sum, with an idle byte before and behind.
abbrev loaded : Env ℕ
loaded = record env {
  bc = record { bc_pos = 1; bc_length = 31; bytecode = 0 ∷ (code numbers sum ++ 0 ∷ []) };
}

code-Reaches_example :
    Reaches ⦃fl = numbers⦄ silent 1
      (skipping initial, loaded)
      (skipping initial, moved loaded (1 + length (code numbers sum)))
unfolding code
code-Reaches_example =
    code-Reaches ⦃fl = numbers⦄ silent 1 initial sum loaded (0 ∷ []) (0 ∷ []) refl refl
      (omega arith)
