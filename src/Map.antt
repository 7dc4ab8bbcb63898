-- ===== src/Map.antt =====
-- core/map.c: the map of a value of type VAR_MAP. What core/operator.c and core/var.c do to one
-- variable, a copy or an unset, is an argument of the operations that do it to all of them.
use bombyx.Prelude.{ℕ, Option, none, some, List, [], ◌∷◌}
use bombyx.Run.{null_pointer}
use bombyx.Table.{Name, Chain, Table, hash, lookup, add, delete, create}
use bombyx.Value.{Var}
use bombyx.Env.{M, pure, undefined, ◌>>=◌, ◌>>◌}

abbrev pub MapTable : Type 0
MapTable = Table Var

unfoldable pub map_table_create : ℕ → Option MapTable
unfolding create
map_table_create size = create size

unfoldable pub map_hash : MapTable → Name → ℕ
unfolding hash
map_hash hashtable str = hash hashtable str

unfoldable pub map_lookup : MapTable → Name → Option Var
unfolding lookup
map_lookup hashtable str = lookup hashtable str

-- The variable is stored as it is, and a key that exists is not stored again.
unfoldable pub map_add : MapTable → Name → Var → Option Var × MapTable
unfolding add
map_add hashtable str v = add hashtable str v

unfoldable pub map_delete : MapTable → Name → ℕ × MapTable
unfolding delete
map_delete hashtable str = delete hashtable str

module _ {D : Type 0} where
  unfoldable pub delete_chain : (Var → M D (Unit {0})) → Chain Var → M D (Unit {0})
  delete_chain unset [] = pure tt
  delete_chain unset (e ∷ list) = unset e.1 >> delete_chain unset list

  unfoldable pub delete_chains : (Var → M D (Unit {0})) → List (Chain Var) → M D (Unit {0})
  unfolding delete_chain
  delete_chains unset [] = pure tt
  delete_chains unset (c ∷ cs) = delete_chain unset c >> delete_chains unset cs

  unfoldable pub map_table_delete : (Var → M D (Unit {0})) → MapTable → M D (Unit {0})
  unfolding delete_chains
  map_table_delete unset hashtable = delete_chains unset hashtable.table

  unfoldable pub clone_chain : (Var → M D Var) → Chain Var → MapTable → M D MapTable
  unfolding map_add
  clone_chain copy [] new_map = pure new_map
  clone_chain copy (e ∷ list) new_map = do
    v ← copy e.1
    clone_chain copy list (map_add new_map e.0 v).1

  unfoldable pub clone_chains : (Var → M D Var) → List (Chain Var) → MapTable → M D MapTable
  unfolding clone_chain
  clone_chains copy [] new_map = pure new_map
  clone_chains copy (c ∷ cs) new_map = do
    new_map' ← clone_chain copy c new_map
    clone_chains copy cs new_map'

  -- `copy` is op_copy into a zeroed `var`.
  unfoldable pub map_table_clone : (Var → M D Var) → MapTable → M D MapTable
  unfolding map_table_create clone_chains
  map_table_clone copy hashtable = elim (map_table_create hashtable.size) [
    | none ↦ undefined null_pointer
    | some new_map ↦ clone_chains copy hashtable.table new_map
  ]
