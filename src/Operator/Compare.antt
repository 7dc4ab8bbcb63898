-- ===== src/Operator/Compare.antt =====
-- core/operator.c: the comparisons of two variables. `strcmp` compares the bytes before the zeros,
-- as unsigned numbers.
use bombyx.Prelude.{
  ℕ, Bool, true, false, not, ◌&&◌, ◌||◌, List, [], ◌∷◌, ltb, ◌==◌, if◌then◌else◌, Option, none,
  some,
}
use Prim.Native.Nat.{Ordering, compare}
use bombyx.Run.{out_of_bounds}
use bombyx.Value.{VarType, same_type, Address, Var}
use bombyx.Double.{Double}
use bombyx.Env.{M, pure, undefined, runtime_error, ◌>>=◌}
use bombyx.Memory.{load_double, load_bytes}
use bombyx.Operator.{is_type, both, either}
pub mod Order

-- The bytes before the first zero; `none` if there is no zero in the memory.
unfoldable pub c_string : List ℕ → Option (List ℕ)
c_string [] = none
c_string (b ∷ bs) =
    if b == 0 then some [] else elim (c_string bs) [ none ↦ none | some s ↦ some (b ∷ s) ]

unfoldable pub strcmp : List ℕ → List ℕ → Ordering
strcmp [] [] = Ordering.eq
strcmp [] (y ∷ ys) = Ordering.lt
strcmp (x ∷ xs) [] = Ordering.gt
strcmp (x ∷ xs) (y ∷ ys) = elim (compare x y) [
  | Ordering.lt ↦ Ordering.lt
  | Ordering.gt ↦ Ordering.gt
  | Ordering.eq ↦ strcmp xs ys
]

abbrev pub is_lt : Ordering → Bool
is_lt o = elim o [ Ordering.lt ↦ true | _ ↦ false ]

abbrev pub is_gt : Ordering → Bool
is_gt o = elim o [ Ordering.gt ↦ true | _ ↦ false ]

abbrev pub is_eq : Ordering → Bool
is_eq o = elim o [ Ordering.eq ↦ true | _ ↦ false ]

unfoldable pub same_image : List ℕ → List ℕ → Bool
same_image [] [] = true
same_image (x ∷ xs) (y ∷ ys) = x == y && same_image xs ys
same_image _ _ = false

module _ {D : Type 0} ⦃fl : Double D⦄ where
  -- the C string that a pointer leads to
  unfoldable pub load_string : Option Address → M D (List ℕ)
  unfolding load_bytes c_string
  load_string p = do
    bs ← load_bytes p
    elim (c_string bs) [ none ↦ undefined out_of_bounds | some s ↦ pure s ]

  unfoldable pub compare_numbers : (D → D → Bool) → Var → Var → M D Bool
  unfolding load_double
  compare_numbers test a b = do x ← load_double a.ptr; y ← load_double b.ptr; pure (test x y)

  unfoldable pub compare_strings : (Ordering → Bool) → Var → Var → M D Bool
  unfolding load_string strcmp
  compare_strings test a b = do
    x ← load_string a.ptr
    y ← load_string b.ptr
    pure (test (strcmp x y))

  -- Numbers are equal if their bytes in memory are.
  unfoldable pub var_cmp : Var → Var → M D Bool
  unfolding compare_numbers compare_strings same_image same_type
  var_cmp a b =
      if both VarType.double a b
      then compare_numbers (λ x y. same_image (fl.image x) (fl.image y)) a b
      else if both VarType.string a b
      then compare_strings is_eq a b
      else if either VarType.unset a b
      then pure false
      else runtime_error

  unfoldable pub var_is_more : Var → Var → M D Bool
  unfolding compare_numbers compare_strings same_type
  var_is_more a b =
      if both VarType.double a b
      then compare_numbers (λ x y. fl.less y x) a b
      else if both VarType.string a b
      then compare_strings is_gt a b
      else runtime_error

  unfoldable pub var_is_less : Var → Var → M D Bool
  unfolding compare_numbers compare_strings same_type
  var_is_less a b =
      if both VarType.double a b
      then compare_numbers fl.less a b
      else if both VarType.string a b
      then compare_strings is_lt a b
      else runtime_error

  unfoldable pub var_is_more_equal : Var → Var → M D Bool
  unfolding compare_numbers same_type
  var_is_more_equal a b =
      if both VarType.double a b then compare_numbers (λ x y. fl.less_eq y x) a b else runtime_error

  unfoldable pub var_is_less_equal : Var → Var → M D Bool
  unfolding compare_numbers same_type
  var_is_less_equal a b =
      if both VarType.double a b then compare_numbers fl.less_eq a b else runtime_error
