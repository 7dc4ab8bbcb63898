-- ===== src/Silk/Elements.antt =====
-- core/larva_silk.c: the instructions that write to variables and to elements of maps and arrays.
use bombyx.Prelude.{ℕ, Option, none, some, ltb, if◌then◌else◌, set}
use bombyx.Run.{uninitialised}
use bombyx.Table.{Name}
use bombyx.Value.{VarType, same_type, Var, zero_var, null_slot, elem, ArrayT, array_of, map_of}
use bombyx.Double.{Double}
use bombyx.Env.{M, pure, undefined, lift, runtime_error, ◌>>=◌, ◌>>◌}
use bombyx.Memory.{store, load_double, load_array, load_map}
use bombyx.Bytecode.Reader.{read_token, skip_token}
use bombyx.Map.{map_add}
use bombyx.Array.{array_push, array_set_elem}
use bombyx.Copy.{op_assign, op_copy, deref, set_entry}
use bombyx.Operator.Compare.{load_string}
use bombyx.Stack.{stack_push, stack_pop}
use bombyx.Silk.{Locals, on_bc, skip_bc, raw_push, top, variable}
use bombyx.Silk.Path.{slot_at, load_place, store_place, var_apath}

abbrev pub or_zero : Option Var → Var
or_zero none = zero_var
or_zero (some v) = v

module _ {D : Type 0} ⦃fl : Double D⦄ (fuel : ℕ) where
  -- The left operand stays on the stack as it was.
  unfoldable pub case_set : Locals → M D Locals
  unfolding top deref set_entry op_assign runtime_error
  case_set l = do
    v2 ← stack_pop
    v1 ← top
    elim v1.ref [
      | none ↦ runtime_error
      | some r ↦ do vt ← deref r; set_entry r (op_assign vt v2); pure (record l { v2 = some v2 })
    ]

  -- A copy on the stack; `v` itself is not unset.
  unfoldable pub push_copy : Var → M D (Unit {0})
  push_copy v = do v' ← op_copy fuel zero_var v; stack_push v'

  -- `if (i < arr->size && arr->vars[i]) op_assign(...); else array_set_elem(...)`
  unfoldable pub assign_elem : ArrayT → ℕ → Var → M D ArrayT
  unfolding slot_at op_assign array_set_elem
  assign_elem array i v2 =
      if ltb i array.size
      then (do
        s ← slot_at array i
        elim s [
          | elem e ↦ pure (record array { vars = set array.vars i (elem (op_assign e v2)) })
          | _ ↦ lift (array_set_elem array i v2)
        ])
      else lift (array_set_elem array i v2)

  unfoldable pub set_by_path : Name × Var → Var → Var → M D (Unit {0})
  unfolding load_string var_apath store_place map_add
  set_by_path (name, vt) v1 v2 = do
    path ← load_string v1.ptr
    pv ← var_apath name v1.ptr path
    elim pv [
      | some place ↦ store_place place v2
      | none ↦ do
        key ← load_string v1.ptr
        t ← load_map vt.ptr
        store vt.ptr (map_of (map_add t key v2).1)
    ]

  unfoldable pub set_by_index : Name × Var → Var → Var → M D (Unit {0})
  unfolding assign_elem
  set_by_index (name, vt) v1 v2 = do
    x ← load_double v1.ptr
    array ← load_array vt.ptr
    array' ← assign_elem array (fl.to_unsigned (fl.round x)) v2
    store vt.ptr (array_of array')

  unfoldable pub case_set_elem : Locals → M D Locals
  unfolding on_bc skip_bc variable set_by_path set_by_index push_copy runtime_error
  case_set_elem l = if l.skip_mode then (do skip_bc skip_token; pure l) else (do
    token ← on_bc read_token
    v2 ← stack_pop
    v1 ← stack_pop
    e ← variable token
    elim v1.type [
      | VarType.string ↦ set_by_path e v1 v2
      | VarType.double ↦ set_by_index e v1 v2
      | _ ↦ runtime_error
    ]
    push_copy v2
    pure (record l { v2 = some v2 }))

  -- This one is run in skip mode as well.
  unfoldable pub case_add_elem : Locals → M D Locals
  unfolding on_bc variable push_copy array_push same_type runtime_error
  case_add_elem l = do
    v1 ← stack_pop
    token ← on_bc read_token
    (name, vt) ← variable token
    if same_type vt.type VarType.array
        then (do
          array ← load_array vt.ptr
          array' ← lift (array_push array v1)
          store vt.ptr (array_of array'))
        else runtime_error
    v2 ← op_copy fuel zero_var v1
    stack_push v2
    pure (record l { v2 = some v2 })

  -- The copy goes into `v2` as the last instruction left it.
  unfoldable pub access_by_path : Option Var → Name × Var → Var → M D Var
  unfolding load_string var_apath load_place
  access_by_path stale (name, vt) v1 = do
    path ← load_string v1.ptr
    pv ← var_apath name v1.ptr path
    v2 ← elim pv [
      | none ↦ pure zero_var
      | some place ↦ elim stale [
        | none ↦ undefined uninitialised
        | some old ↦ do from ← load_place place; op_copy fuel old from
      ]
    ]
    stack_push v2
    pure v2

  -- `v2.data = NULL` comes first; an element that is not there is a zeroed variable.
  unfoldable pub access_by_index : Option Var → Name × Var → Var → M D Var
  unfolding slot_at raw_push
  access_by_index stale (name, vt) v1 = do
    let v2 = record (or_zero stale) { ptr = none }
    x ← load_double v1.ptr
    array ← load_array vt.ptr
    let i = fl.to_unsigned x
    s ← if ltb i array.size then slot_at array i else pure null_slot
    elim s [
      | elem from ↦ do v2' ← op_copy fuel v2 from; stack_push v2'; pure v2'
      | _ ↦ do raw_push zero_var; pure v2
    ]

  unfoldable pub case_access : Locals → M D Locals
  unfolding on_bc skip_bc variable access_by_path access_by_index runtime_error
  case_access l = if l.skip_mode then (do skip_bc skip_token; pure l) else (do
    token ← on_bc read_token
    v1 ← stack_pop
    e ← variable token
    v2 ← elim v1.type [
      | VarType.string ↦ access_by_path l.v2 e v1
      | VarType.double ↦ access_by_index l.v2 e v1
      | _ ↦ runtime_error
    ]
    pure (record l { v2 = some v2 }))
