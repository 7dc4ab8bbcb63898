-- ===== src/Operator/Add.antt =====
-- core/operator.c: op_add, the `+` of numbers, strings and arrays. It changes the left variable and
-- may take the data of the right one.
use bombyx.Prelude.{
  ℕ, zero, suc, ◌+◌, ◌-◌, ◌^◌, ◌%◌, Option, none, some, List, [], ◌∷◌, ◌++◌, ltb, leb, ◌&&◌,
  if◌then◌else◌, length, take, drop,
}
use bombyx.Run.{out_of_bounds}
use bombyx.Value.{VarType, Address, Var, Slot, ArrayT, bytes, array_of}
use bombyx.Double.{Double}
use bombyx.Env.{M, pure, undefined, runtime_error, lift, ◌>>=◌, ◌>>◌}
use bombyx.Memory.{alloc, store, free, load_double, load_bytes, load_array}
use bombyx.Copy.{copy_from, var_unset}
use bombyx.Array.{realloc_slots, write_slot}
use bombyx.Operator.{both, is_type, combine}

-- `x - 1` and `x + y` on `DWORD`
abbrev pub pred32 : ℕ → ℕ
pred32 x = (x + 2 ^ 32 - 1) % 2 ^ 32

abbrev pub add32 : ℕ → ℕ → ℕ
add32 x y = (x + y) % 2 ^ 32

-- realloc of bytes; those that are new have no defined value, and are 0 here.
unfoldable pub resize : List ℕ → ℕ → List ℕ
resize bs zero = []
resize [] (suc n) = 0 ∷ resize [] n
resize (b ∷ bs) (suc n) = b ∷ resize bs n

-- `memcpy(bytes + at, src, length)` inside `bytes`
unfoldable pub overwrite : List ℕ → ℕ → List ℕ → List ℕ
overwrite old at src = take at old ++ (src ++ drop (at + length src) old)

-- Room for `total_size` elements.
unfoldable pub reserve : ArrayT → ℕ → ArrayT
unfolding realloc_slots
reserve aa total_size =
    if ltb aa.max_size total_size
    then record aa { vars = realloc_slots aa.vars total_size; max_size = total_size }
    else aa

module _ {D : Type 0} ⦃fl : Double D⦄ where
  -- The bytes behind a pointer, none behind NULL.
  unfoldable pub bytes_or_null : Option Address → M D (List ℕ)
  unfolding load_bytes
  bytes_or_null none = pure []
  bytes_or_null (some p) = load_bytes (some p)

  -- realloc of the left bytes to `size`, and then the right bytes copied in from `t` on. The old
  -- memory is gone when the right bytes are read.
  unfoldable pub append_at : ℕ → ℕ → Var → Var → M D Var
  unfolding bytes_or_null copy_from alloc free store
  append_at t size a b = do
    old ← bytes_or_null a.ptr
    free a.ptr
    p ← alloc (bytes (resize old size))
    src ← copy_from b.ptr b.data_size
    if leb (t + b.data_size) size
        then (do
          store (some p) (bytes (overwrite (resize old size) t src))
          pure (record a { ptr = some p; data_size = size }))
        else undefined out_of_bounds

  -- The zero at the end of the left string is where the right one begins.
  unfoldable pub append_strings : Var → Var → M D Var
  append_strings a b = append_at (pred32 a.data_size) (add32 (pred32 a.data_size) b.data_size) a b

  -- The text of the number takes the place of the zero of the string, and a zero is put behind it.
  unfoldable pub append_number : ℕ → Var → Var → M D Var
  unfolding load_double copy_from var_unset alloc
  append_number fuel a b = do
    xb ← load_double b.ptr
    left ← copy_from a.ptr (pred32 a.data_size)
    var_unset fuel a
    let converted = fl.format xb
    p ← alloc (bytes (left ++ (converted ++ 0 ∷ [])))
    pure (record a { ptr = some p; data_size = add32 a.data_size (length converted) })

  unfoldable pub prepend_number : ℕ → Var → Var → M D Var
  unfolding load_double copy_from var_unset alloc
  prepend_number fuel a b = do
    xa ← load_double a.ptr
    right ← copy_from b.ptr b.data_size
    var_unset fuel a
    let converted = fl.format xa
    p ← alloc (bytes (converted ++ right))
    pure (record a {
      ptr = some p;
      type = VarType.string;
      data_size = add32 (length converted) b.data_size;
    })

  -- `vars[at] = src[0]; vars[at + 1] = src[1]; ...`
  unfoldable pub move_slots : List Slot → ℕ → List Slot → M D (List Slot)
  unfolding write_slot
  move_slots vars at [] = pure vars
  move_slots vars at (s ∷ src) = do
    vars' ← lift (write_slot vars at s)
    move_slots vars' (at + 1) src

  -- The elements of `b` move to the end of `a`, and `b` is left without data.
  unfoldable pub append_arrays : Var → Var → M D (Var × Var)
  unfolding load_array store move_slots reserve
  append_arrays a b = do
    aa ← load_array a.ptr
    ab ← load_array b.ptr
    let total_size = aa.size + ab.size
    let aa' = reserve aa total_size
    vars' ← move_slots aa'.vars aa'.size (take ab.size ab.vars)
    store a.ptr (array_of (record aa' { vars = vars'; size = total_size }))
    pure (a, record b { ptr = none })

  -- `fuel` is for var_unset of the left operand, which is a string or a number there.
  unfoldable pub op_add : ℕ → Var → Var → M D (Var × Var)
  op_add fuel a b =
      if both VarType.string a b
      then (do a' ← append_strings a b; pure (a', b))
      else if both VarType.double a b
      then (do combine fl.add a.ptr b.ptr; pure (a, b))
      else if is_type VarType.string a && is_type VarType.double b
      then (do a' ← append_number fuel a b; pure (a', b))
      else if is_type VarType.double a && is_type VarType.string b
      then (do a' ← prepend_number fuel a b; pure (a', b))
      else if both VarType.array a b
      then append_arrays a b
      else runtime_error
