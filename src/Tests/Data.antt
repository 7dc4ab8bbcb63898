-- ===== src/Tests/Data.antt =====
-- Inputs of the tests: numbers that are ℕ, an environment with a few objects, and variables.
use bombyx.Prelude.{
  ℕ, ◌+◌, ◌-◌, ◌*◌, refl, Option, none, some, List, [], ◌∷◌, ltb, leb, ◌==◌, not, if◌then◌else◌,
  arith,
}
use bombyx.Double.{Double}
use bombyx.Value.{VarType, Var, zero_var, Object, number, bytes, Address}
use bombyx.Env.{Env}
use bombyx.Table.{Table}
use bombyx.Operator.Laws.{IsNumber, HasBytes}
use bombyx.Operator.Bytes.{IsString, IsFresh}

abbrev pub first_of : List ℕ → ℕ
first_of [] = 0
first_of (x ∷ _) = x

abbrev pub numbers : Double ℕ
numbers = record {
  add = λ x y. x + y;
  sub = λ x y. x - y;
  mul = λ x y. x * y;
  div = λ x y. x - y;
  pow = λ x y. x * y;
  fmod = λ x y. x - y;
  neg = λ x. x;
  zero = 0;
  one = 1;
  nonzero = λ x. not (x == 0);
  truthy = λ x. not (x == 0);
  less = ltb;
  less_eq = leb;
  strtod = first_of;
  round = λ x. x;
  to_unsigned = λ x. x;
  format = λ x. (x + 48) ∷ [];
  image = λ x. x ∷ 0 ∷ 0 ∷ 0 ∷ 0 ∷ 0 ∷ 0 ∷ 0 ∷ [];
  of_image = first_of;
  length-image = λ x. refl;
  of_image-image = λ x. refl;
}

-- "ab" at 0, "c" at 1, 5 at 2, 7 at 3
abbrev pub cells : Address → Option (Object ℕ)
cells p =
    if p == 0
    then some (bytes (97 ∷ 98 ∷ 0 ∷ []))
    else if p == 1
    then some (bytes (99 ∷ 0 ∷ []))
    else if p == 2
    then some (number 5)
    else if p == 3
    then some (number 7)
    else none

abbrev pub empty_table : {V : Type 0} → Table V
empty_table = record { size = 2; table = [] ∷ [] ∷ [] }

abbrev pub five : Var
five = record zero_var { type = VarType.double; ptr = some 2; data_size = 8 }

-- A copy of the variable `x`, whose own value is `five`.
abbrev pub seven : Var
seven = record zero_var {
  type = VarType.double;
  ptr = some 3;
  data_size = 8;
  ref = some (120 ∷ []);
}

abbrev pub ab : Var
ab = record zero_var { type = VarType.string; ptr = some 0; data_size = 3 }

abbrev pub c : Var
c = record zero_var { type = VarType.string; ptr = some 1; data_size = 2 }

abbrev pub env : Env ℕ
env = record {
  heap = record { next = 4; cell = cells };
  vars = record { size = 2; table = ((120 ∷ [], five) ∷ []) ∷ [] ∷ [] };
  blocks = empty_table;
  cocoons = empty_table;
  gl_level = 3;
  run_flag = [];
  ret_point = [];
  bc = record { bc_pos = 0; bc_length = 25000; bytecode = [] };
  bc_stack = ab ∷ [];
}

pub env-IsFresh : IsFresh env
env-IsFresh = record { unused = λ p h. ground arith }

pub five-IsNumber : IsNumber env five 2 5
five-IsNumber = record { type = refl; ptr = refl; cell = refl }

pub seven-IsNumber : IsNumber env seven 3 7
seven-IsNumber = record { type = refl; ptr = refl; cell = refl }

pub ab-IsString : IsString env ab 0 (97 ∷ 98 ∷ [])
ab-IsString = record { type = refl; ptr = refl; cell = refl; data_size = refl }

pub c-IsString : IsString env c 1 (99 ∷ [])
c-IsString = record { type = refl; ptr = refl; cell = refl; data_size = refl }

pub c-HasBytes : HasBytes env c 1 (99 ∷ 0 ∷ [])
c-HasBytes = record { type = refl; ptr = refl; cell = refl }
