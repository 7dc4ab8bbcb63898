-- ===== src/Tests/Tables.antt =====
-- The tables of core/block.c, core/map.c and core/var.c at small inputs.
use bombyx.Prelude.{ℕ, ◌<◌, ◌≡◌, refl, true, none, some, List, [], ◌∷◌, replicate, arith}
use bombyx.Table.{Table, Name, create, hash, lookup, find, chain}
use bombyx.Table.Laws.{IsWf, create-IsWf}
use bombyx.Table.Chains.{count}
use bombyx.Block.{block_table_create}
use bombyx.Block.Laws.{Call, add, delete, calls, effects, Refines, block_table-Refines}
use bombyx.Table.Names.{same_name_iff}
use bombyx.Value.{VarType, zero_var}
use bombyx.VarTable.{VarTable, var_lookup, var_lookup_2, var_add, new_var, var_hash, same_bytes}
use bombyx.VarTable.Prefix.{var_lookup_2-var_add}

abbrev empty : {V : Type 0} → ℕ → Table V
empty n = record { size = n; table = replicate n [] }

abbrev calls_made : List Call
calls_made = add (97 ∷ []) 5 none ∷ add (97 ∷ []) 6 none ∷ delete (97 ∷ []) ∷ delete (98 ∷ []) ∷ []

created : block_table_create 3 ≡ some (empty 3)
unfolding block_table_create create
created = refl

block_table-Refines_example :
    ((calls calls_made (empty 3)).0 ≡ (effects calls_made (λ _. none)).0)
    × Refines (effects calls_made (λ _. none)).1 (calls calls_made (empty 3)).1
block_table-Refines_example = block_table-Refines 3 calls_made created

empty-IsWf : {V : Type 0} → IsWf {V = V} (empty 3)
unfolding create
empty-IsWf = create-IsWf 3 refl

-- One variable, "a", in a table of size 1.
abbrev one_var : VarTable
one_var = record { size = 1; table = ((97 ∷ [], zero_var) ∷ []) ∷ [] }

alone :
    (q : Name) → 0 < count q (chain one_var (97 ∷ [])) → same_bytes (97 ∷ []) q ≡ true → q ≡ 97 ∷ []
unfolding count hash
alone q h b = (same_name_iff q (97 ∷ [])).0 (ground (arith, h))

absent : var_lookup (empty 1) (97 ∷ 98 ∷ []) ≡ none
unfolding var_lookup lookup find hash
absent = refl

same_hash : var_hash (empty 1) (97 ∷ []) ≡ var_hash (empty 1) (97 ∷ 98 ∷ [])
unfolding var_hash hash
same_hash = refl

begins : same_bytes (97 ∷ []) (97 ∷ 98 ∷ []) ≡ true
unfolding same_bytes
begins = refl

-- The table has one list, so "a" and "ab" stand in the same one.
var_lookup_2-var_add_example :
    var_lookup_2 (var_add none (empty 1) (97 ∷ 98 ∷ []) VarType.double).1 (97 ∷ [])
    ≡ some (97 ∷ 98 ∷ [], new_var none (97 ∷ 98 ∷ []) VarType.double)
var_lookup_2-var_add_example =
    var_lookup_2-var_add none (97 ∷ []) (97 ∷ 98 ∷ []) VarType.double
      (create-IsWf 1 (unfold create in refl)) absent same_hash begins
