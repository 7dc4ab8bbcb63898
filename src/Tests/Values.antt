-- ===== src/Tests/Values.antt =====
-- The operators of core/operator.c at small inputs.
use bombyx.Prelude.{ℕ, zero, suc, ◌≡◌, ◌⊎◌, refl, true, false, some, List, [], ◌∷◌, arith}
use bombyx.Run.{ok, fault, out_of_bounds, use_after_free, Returns}
use bombyx.Value.{VarType, Var, zero_var, number, bytes}
use bombyx.Operator.Reverse.{op_unary_minus}
use bombyx.Operator.Add.{op_add}
use bombyx.Operator.Compare.Order.{IsText, nil, cons, Precedes, Answers, strings-Answers}
use bombyx.Operator.Increment.{increment, take_step, take_step-variable}
use bombyx.Operator.Laws.{set_cell}
use bombyx.Operator.Shared.{op_add-shared, op_add-unassigned}
use bombyx.Operator.Strings.{op_add-strings, op_add-string_number}
use bombyx.Operator.Bytes.{Concatenates}
use bombyx.Operator.Reversal.{op_unary_minus-reverse}
use bombyx.Operator.Swapping.{AreBytes}
use bombyx.VarTable.{var_lookup}
use bombyx.Table.{lookup, hash, find}
use bombyx.Copy.{op_copy}
use bombyx.Copy.Scalar.{Replaces, op_copy-empty, op_copy-occupied}
use bombyx.Copy.Objects.{a_number, a_string, Copies}
use bombyx.Operator.Logic.{conjunction, connect, connect-numbers}
use bombyx.Tests.Data.{
  numbers, env, five, seven, ab, c, env-IsFresh, five-IsNumber, seven-IsNumber, ab-IsString,
  c-IsString,
}

abbrev unassigned : Var
unassigned = record zero_var { type = VarType.string }

op_copy-empty_example : Returns (op_copy 1 zero_var ab env) (Copies ab 0 (bytes (97 ∷ 98 ∷ 0 ∷ [])))
op_copy-empty_example =
    op_copy-empty ⦃fl = numbers⦄ 0 zero_var env-IsFresh refl (a_string ab-IsString)

op_copy-occupied_example :
    Returns (op_copy 1 five ab env) (Replaces ⦃fl = numbers⦄ ab 0 (bytes (97 ∷ 98 ∷ 0 ∷ [])))
op_copy-occupied_example =
    op_copy-occupied ⦃fl = numbers⦄ 0 five env-IsFresh (omega arith) (a_number refl five-IsNumber)
      (a_string ab-IsString)

op_add-strings_example :
    Returns
      (op_add ⦃fl = numbers⦄ 1 ab c env)
      (Concatenates ⦃fl = numbers⦄ env 0 c (97 ∷ 98 ∷ 99 ∷ []))
op_add-strings_example =
    op_add-strings ⦃fl = numbers⦄ 1 env-IsFresh ab-IsString c-IsString (λ e. ground (arith, e))
      (omega arith)

-- "ab" and "ab", at one address
op_add-shared_example : op_add ⦃fl = numbers⦄ 1 ab ab env ≡ fault use_after_free
op_add-shared_example = op_add-shared ⦃fl = numbers⦄ 1 env-IsFresh ab-IsString ab-IsString

op_add-unassigned_example : op_add ⦃fl = numbers⦄ 1 unassigned ab env ≡ fault out_of_bounds
op_add-unassigned_example =
    op_add-unassigned ⦃fl = numbers⦄ 1 unassigned env-IsFresh refl refl refl ab-IsString
      (omega arith)

op_add-string_number_example :
    Returns
      (op_add ⦃fl = numbers⦄ 1 ab five env)
      (Concatenates ⦃fl = numbers⦄ env 0 five (97 ∷ 98 ∷ 53 ∷ []))
    × Returns
        (op_add ⦃fl = numbers⦄ 1 five ab env)
        (Concatenates ⦃fl = numbers⦄ env 2 ab (53 ∷ 97 ∷ 98 ∷ []))
op_add-string_number_example =
    op_add-string_number ⦃fl = numbers⦄ 0 env-IsFresh ab-IsString five-IsNumber (omega arith)

ab-AreBytes : AreBytes (97 ∷ 98 ∷ [])
ab-AreBytes zero = omega arith
ab-AreBytes (suc zero) = omega arith
ab-AreBytes (suc (suc i)) = omega arith

op_unary_minus-reverse_example :
    op_unary_minus ⦃fl = numbers⦄ ab env ≡ ok (tt, set_cell env 0 (bytes (98 ∷ 97 ∷ 0 ∷ [])))
op_unary_minus-reverse_example = op_unary_minus-reverse ⦃fl = numbers⦄ ab-IsString ab-AreBytes

found : var_lookup env.vars (120 ∷ []) ≡ some five
unfolding var_lookup lookup hash find
found = refl

take_step-variable_example :
    take_step ⦃fl = numbers⦄ increment seven env
    ≡ ok (tt, set_cell (set_cell env 3 (number 8)) 2 (number 8))
take_step-variable_example =
    take_step-variable ⦃fl = numbers⦄ increment (omega arith) seven-IsNumber refl found
      five-IsNumber

ab-IsText : IsText (97 ∷ 98 ∷ [])
ab-IsText = cons (omega arith) (cons (omega arith) nil)

c-IsText : IsText (99 ∷ [])
c-IsText = cons (omega arith) nil

strings-Answers_example :
    (Precedes (97 ∷ 98 ∷ []) (99 ∷ []) × Answers ⦃fl = numbers⦄ env ab c true false false)
    ⊎ ((◌≡◌ {A = List ℕ} (97 ∷ 98 ∷ []) (99 ∷ [])
          × Answers ⦃fl = numbers⦄ env ab c false true false)
        ⊎ (Precedes (99 ∷ []) (97 ∷ 98 ∷ []) × Answers ⦃fl = numbers⦄ env ab c false false true))
strings-Answers_example = strings-Answers ⦃fl = numbers⦄ ab-IsString ab-IsText c-IsString c-IsText

connect-numbers_example :
    connect ⦃fl = numbers⦄ conjunction seven five env ≡ ok (tt, set_cell env 3 (number 1))
connect-numbers_example = connect-numbers ⦃fl = numbers⦄ conjunction seven-IsNumber five-IsNumber
