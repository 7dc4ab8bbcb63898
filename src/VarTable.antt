-- ===== src/VarTable.antt =====
-- core/var.c: the table of the variables of a program. The operations on the memory of the values
-- are in Copy.antt.
use bombyx.Prelude.{
  ℕ, Bool, true, false, ◌&&◌, Option, none, some, List, [], ◌∷◌, ◌==◌, if◌then◌else◌, get_or,
}
use bombyx.Table.{Name, Chain, Table, hash, lookup, update, insert, create, chain}
use bombyx.Value.{VarType, Var, Address}
pub mod Prefix

abbrev pub VarTable : Type 0
VarTable = Table Var

unfoldable pub var_table_create : ℕ → Option VarTable
unfolding create
var_table_create size = create size

unfoldable pub var_hash : VarTable → Name → ℕ
unfolding hash
var_hash hashtable str = hash hashtable str

unfoldable pub var_lookup : VarTable → Name → Option Var
unfolding lookup
var_lookup hashtable str = lookup hashtable str

-- `memcmp(str, name, strlen) == 0` for a string of that length: the name begins with it.
unfoldable pub same_bytes : Name → Name → Bool
same_bytes [] name = true
same_bytes (x ∷ str) [] = false
same_bytes (x ∷ str) (y ∷ name) = x == y && same_bytes str name

unfoldable pub find_2 : Name → Chain Var → Option (Name × Var)
unfolding same_bytes
find_2 str [] = none
find_2 str (e ∷ list) = if same_bytes str e.0 then some e else find_2 str list

-- The entry, with its name: it may be another name than the one that is looked up.
unfoldable pub var_lookup_2 : VarTable → Name → Option (Name × Var)
unfolding find_2 hash
var_lookup_2 hashtable str = find_2 str (chain hashtable str)

-- A variable without a value. Its `ref` is `left`, what malloc left there: NULL, or the name of a
-- variable, which may be one that the table does not have. `parent` is not read anywhere, and every
-- call of var_add passes NULL for it; it is left out.
unfoldable pub new_var : Option Name → Name → VarType → Var
new_var left str type = record {
  type = type;
  level = 0;
  name = some str;
  ptr = none;
  data_size = 0;
  ref = left;
}

-- The entry of that name, which is made if there is none.
unfoldable pub var_add : Option Name → VarTable → Name → VarType → Var × VarTable
unfolding lookup insert new_var
var_add left hashtable str type = elim (lookup hashtable str) [
  | some current ↦ (current, hashtable)
  | none ↦ (new_var left str type, insert hashtable str (new_var left str type))
]

-- A write through a pointer to an entry.
unfoldable pub set_var : VarTable → Name → Var → VarTable
unfolding update
set_var hashtable str v = update hashtable str v
