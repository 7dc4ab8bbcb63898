-- ===== src/Value.antt =====
-- core/var.h, core/array.h, core/map.h: the values of the language. `data` is an address of the heap
-- (NULL is `none`), and what stands there is an object. A pointer to a `var_t` of the table of
-- variables is that variable's name, since the table holds a name once and frees no entry while a
-- program runs.
use bombyx.Prelude.{ℕ, Bool, true, false, Option, none, List}
use bombyx.Table.{Name, Table}

-- The tags VAR_UNSET to VAR_ERROR.
pub data VarType : Type 0 where
  unset double string block array map pointer custom error : VarType

unfoldable pub same_type : VarType → VarType → Bool
same_type VarType.unset VarType.unset = true
same_type VarType.double VarType.double = true
same_type VarType.string VarType.string = true
same_type VarType.block VarType.block = true
same_type VarType.array VarType.array = true
same_type VarType.map VarType.map = true
same_type VarType.pointer VarType.pointer = true
same_type VarType.custom VarType.custom = true
same_type VarType.error VarType.error = true
same_type _ _ = false

abbrev pub Address : Type 0
Address = ℕ

pub record Var : Type 0 where
  pub type : VarType
  pub level : ℕ
  pub name : Option Name
  pub ptr : Option Address
  pub data_size : ℕ
  pub ref : Option Name

-- `var v = {0}`
abbrev pub zero_var : Var
zero_var = record {
  type = VarType.unset;
  level = 0;
  name = none;
  ptr = none;
  data_size = 0;
  ref = none;
}

-- One cell of the array `vars`: as malloc left it, NULL, or a pointer to a `var` of its own.
pub data Slot : Type 0 where
  raw : Slot
  null_slot : Slot
  elem : Var → Slot

-- `vars` has as many cells as were allocated.
pub record ArrayT : Type 0 where
  pub size : ℕ
  pub max_size : ℕ
  pub vars : List Slot

-- What `data` points to: a `double`, bytes, an `array_t`, a `map_table_t` or an object of a cocoon.
-- The type of doubles is a parameter.
pub data Object (D : Type 0) : Type 0 where
  number : D → Object D
  bytes : List ℕ → Object D
  array_of : ArrayT → Object D
  map_of : Table Var → Object D
  foreign : Object D

pub record Heap (D : Type 0) : Type 0 where
  pub next : Address
  pub cell : Address → Option (Object D)
