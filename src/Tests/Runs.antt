-- ===== src/Tests/Runs.antt =====
-- core/larva_silk.c on code that core/expression.c has compiled.
use bombyx.Prelude.{ℕ, ◌≡◌, refl, some, Option, [], arith}
use bombyx.Run.{Returns}
use bombyx.Value.{Var, Heap}
use bombyx.Env.{Env}
use bombyx.Bytecode.Bounds.{bc_init-IsSound}
use bombyx.Bytecode.{bc_init}
use bombyx.Expression.Grammar.{text}
use bombyx.Expression.Parse.{parse_expression}
use bombyx.Silk.{initial}
use bombyx.Silk.Skipping.{Reaches}
use bombyx.Silk.Arithmetic.{running, Holds, pushed}
use bombyx.Silk.Evaluation.{value_of, places, compiled, parse_expression-Reaches}
use bombyx.Tests.Data.{numbers, env}
use bombyx.Tests.Programs.{sum, silent}

abbrev clean : Env ℕ
clean = record env { bc = bc_init }

sum_value : value_of ⦃fl = numbers⦄ sum ≡ some 2499
unfolding value_of
sum_value = refl

parse_expression-Reaches_example : Returns (parse_expression numbers 11 (text sum []) clean.bc) λ r.
    (w : Option Var) × (h : Heap ℕ) × (v : Var) × Reaches ⦃fl = numbers⦄ silent 1
      (running initial, compiled clean r)
      (running (record initial { v2 = w }), pushed (compiled clean r) h r.bc_pos v)
    × Holds clean.heap h v 2499
unfolding text bc_init places
parse_expression-Reaches_example =
    parse_expression-Reaches ⦃fl = numbers⦄ silent 0 sum 2499 11 initial clean sum_value
      bc_init-IsSound (omega arith) (omega arith) (omega arith)
