-- ===== src/Copy.antt =====
-- Copying and freeing variables: op_assign and op_copy of core/operator.c, var_unset, var_delete,
-- var_table_delete and the constructors of variables of core/var.c. A copy of a map or an array
-- copies its elements, so these recur; `fuel` bounds how deep values are nested.
use bombyx.Prelude.{
  ℕ, zero, suc, ◌+◌, ◌%◌, ◌^◌, Bool, true, false, ◌&&◌, Option, none, some, List, [], ◌∷◌, ◌++◌,
  ltb, leb, ◌==◌, if◌then◌else◌, length, take, drop,
}
use bombyx.Run.{ok, fault, out_of_bounds, null_pointer, type_confusion, use_after_free, too_deep}
use bombyx.Table.{Name, Chain, Table, clear, find, unlink, chain, put_chain}
use bombyx.Value.{
  VarType, same_type, Address, Var, zero_var, Object, number, bytes, array_of, map_of,
}
use bombyx.Double.{Double}
use bombyx.Env.{Env, M, pure, undefined, runtime_error, ◌>>=◌, ◌>>◌}
use bombyx.Memory.{
  alloc, load, store, free, load_double, store_double, load_bytes, load_array, load_map,
}
use bombyx.Array.Clone.{array_clone, array_delete}
use bombyx.Map.{map_table_clone, map_table_delete}
use bombyx.VarTable.{VarTable, var_lookup, var_lookup_2, var_add, set_var}
pub mod Scalar
pub mod Objects

-- The type, the pointer and the size move; the owner of the memory is now `a`.
unfoldable pub op_assign : Var → Var → Var
op_assign a b = record a { type = b.type; ptr = b.ptr; data_size = b.data_size }

-- The assignments at the end of op_copy, with the new data.
unfoldable pub adopt : Var → Var → Option Address → Var
adopt a b p = record a { ptr = p; data_size = b.data_size; type = b.type; ref = b.ref }

module _ {D : Type 0} where
  -- `data` freed in the way of its type; `unset` is var_unset for the elements.
  unfoldable pub free_data : (Var → M D (Unit {0})) → VarType → Option Address → M D (Unit {0})
  unfolding array_delete map_table_delete free load_array load_map
  free_data unset VarType.map p = do t ← load_map p; map_table_delete unset t; free p
  free_data unset VarType.array p = do a ← load_array p; array_delete unset a; free p
  free_data unset _ p = free p

  -- The pointer stays in the variable, and leads nowhere then.
  unfoldable pub var_unset : ℕ → Var → M D (Unit {0})
  unfolding free_data
  var_unset zero a = undefined too_deep
  var_unset (suc fuel) a = elim a.ptr [
    | none ↦ pure tt
    | some p ↦ elim a.type [
      | VarType.pointer ↦ pure tt
      | _ ↦ free_data (var_unset fuel) a.type (some p)
    ]
  ]

  -- The first `size` bytes behind a pointer, as memcpy reads them.
  unfoldable pub copy_from : Option Address → ℕ → M D (List ℕ)
  unfolding load_bytes
  copy_from p size = do
    bs ← load_bytes p
    if leb size (length bs) then pure (take size bs) else undefined out_of_bounds

  -- A copy in new memory; `copy` is op_copy for the elements, into a zeroed `var`.
  unfoldable pub fresh_copy : (Var → M D Var) → Var → M D (Option Address)
  fresh_copy copy b = elim b.type [
    | VarType.map ↦ do
      t ← load_map b.ptr
      t' ← map_table_clone copy t
      p ← alloc (map_of t')
      pure (some p)
    | VarType.array ↦ do
      a ← load_array b.ptr
      a' ← array_clone copy a
      p ← alloc (array_of a')
      pure (some p)
    | VarType.pointer ↦ pure b.ptr
    | VarType.double ↦ do d ← load_double b.ptr; p ← alloc (number d); pure (some p)
    | _ ↦ do bs ← copy_from b.ptr b.data_size; p ← alloc (bytes bs); pure (some p)
  ]

  -- `memcpy` to the start of what a pointer leads to
  unfoldable pub copy_to : Option Address → List ℕ → M D (Unit {0})
  copy_to p bs = do
    old ← load_bytes p
    if leb (length bs) (length old)
        then store p (bytes (bs ++ drop (length bs) old))
        else undefined out_of_bounds

  -- The branch where both have data of one type and size: the memory of `a` is written in place for
  -- numbers and bytes.
  unfoldable pub copy_over : (Var → M D Var) → Var → Var → M D (Option Address)
  copy_over copy a b = elim a.type [
    | VarType.double ↦ do d ← load_double b.ptr; store_double a.ptr d; pure a.ptr
    | VarType.map ↦ fresh_copy copy b
    | VarType.array ↦ fresh_copy copy b
    | VarType.pointer ↦ pure b.ptr
    | _ ↦ do bs ← copy_from b.ptr b.data_size; copy_to a.ptr bs; pure a.ptr
  ]

  -- The branch where both have data and they differ in type or size.
  unfoldable pub copy_anew :
      (Var → M D (Unit {0})) → (Var → M D Var) → Var → Var → M D (Option Address)
  copy_anew unset copy a b = elim a.type [
    | VarType.pointer ↦ fresh_copy copy b
    | _ ↦ free_data unset a.type a.ptr >> fresh_copy copy b
  ]

  -- The four cases of NULL and data on the left and on the right.
  unfoldable pub copy_cases :
      (Var → M D (Unit {0}))
      → (Var → M D Var)
      → Option Address
      → Option Address
      → Var
      → Var
      → M D Var
  copy_cases unset copy none none a b = pure (adopt a b none)
  copy_cases unset copy none (some q) a b = do p ← fresh_copy copy b; pure (adopt a b p)
  copy_cases unset copy (some _) none a b = pure (adopt a b none)
  copy_cases unset copy (some _) (some q) a b =
      if a.data_size == b.data_size && same_type a.type b.type
      then (do p ← copy_over copy a b; pure (record a { ptr = p }))
      else (do p ← copy_anew unset copy a b; pure (adopt a b p))

  unfoldable pub op_copy : ℕ → Var → Var → M D Var
  op_copy zero a b = undefined too_deep
  op_copy (suc fuel) a b = copy_cases (var_unset fuel) (op_copy fuel zero_var) a.ptr b.ptr a b

module _ {D : Type 0} where
  -- A number in new memory.
  unfoldable pub var_as_double : D → M D Var
  unfolding alloc
  var_as_double a = do
    p ← alloc (number a)
    pure (record zero_var { type = VarType.double; data_size = 8; ptr = some p })

  -- A string of `len` bytes, which are copied with the zero behind them.
  unfoldable pub var_as_string : List ℕ → ℕ → M D Var
  unfolding alloc
  var_as_string a len = do
    p ← alloc (bytes (take len a ++ 0 ∷ []))
    pure (record zero_var { type = VarType.string; ptr = some p; data_size = len + 1 })

  -- A copy of a variable of the table that remembers where it came from.
  unfoldable pub var_as_var_t : ℕ → Name × Var → M D Var
  var_as_var_t fuel (name, vt) = do
    v ← op_copy fuel (record zero_var { name = vt.name }) vt
    pure (record v { ref = some name })

  -- The entry of the table that a pointer to a `var_t` leads to.
  unfoldable pub deref : Name → M D Var
  unfolding var_lookup
  deref name env = elim (var_lookup env.vars name) [
    | none ↦ fault use_after_free
    | some v ↦ ok (v, env)
  ]

  unfoldable pub set_entry : Name → Var → M D (Unit {0})
  unfolding set_var
  set_entry name v env = ok (tt, record env { vars = set_var env.vars name v })

  unfoldable pub sync_by_name : ℕ → Name → Var → M D (Unit {0})
  sync_by_name fuel name a env = elim (var_lookup env.vars name) [
    | none ↦ runtime_error env
    | some v ↦ (do v' ← op_copy fuel v a; set_entry name v') env
  ]

  -- The value of `a` goes to the variable that it refers to, or that has its name.
  unfoldable pub var_sync : ℕ → Var → M D (Unit {0})
  var_sync fuel a = elim a.ref [
    | some r ↦ do v ← deref r; v' ← op_copy fuel v a; set_entry r v'
    | none ↦ elim a.name [ none ↦ pure tt | some name ↦ sync_by_name fuel name a ]
  ]

  -- The entry is unlinked, and its data freed as bytes are, whatever it holds; 1 if there is none.
  unfoldable pub var_delete : Name → M D ℕ
  unfolding find free unlink
  var_delete str env = elim (find str (chain env.vars str)) [
    | none ↦ ok (1, env)
    | some v ↦
        (do free v.ptr; (λ e. ok (0, e)))
          (record env { vars = put_chain env.vars str (unlink str (chain env.vars str)) })
  ]

  -- Every variable unset, and the array cleared (`reset_only`) or freed (no table is left).
  unfoldable pub var_table_delete : ℕ → Bool → M D (Option VarTable)
  unfolding map_table_delete var_unset clear
  var_table_delete fuel reset_only env =
      (do map_table_delete (var_unset fuel) env.vars; (λ e. ok (clear e.vars reset_only, e))) env
