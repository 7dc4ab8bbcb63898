-- ===== src/Array.antt =====
-- core/array.c: growable arrays of variables. A `size_t` is a number that does not wrap; the
-- arithmetic on the `unsigned int` index wraps.
use bombyx.Prelude.{
  ℕ, zero, suc, ◌+◌, ◌-◌, ◌*◌, ◌%◌, ◌^◌, Bool, Option, none, some, List, [], ◌∷◌, ◌++◌, ltb, leb,
  ◌==◌, if◌then◌else◌, length, get_elem?, set, take, replicate, max,
}
use bombyx.Run.{Run, ok, fault, out_of_bounds, uninitialised, ◌>>=◌}
use bombyx.Value.{Var, zero_var, Slot, raw, null_slot, elem, ArrayT}
pub mod Bounds
pub mod SetElem
pub mod Overflow
pub mod Clone
pub mod Overrun

abbrev pub min_array_size : ℕ
min_array_size = 100

-- `vars[i] = s`
unfoldable pub write_slot : List Slot → ℕ → Slot → Run (List Slot)
write_slot vars i s = if ltb i (length vars) then ok (set vars i s) else fault out_of_bounds

unfoldable pub realloc_slots : List Slot → ℕ → List Slot
realloc_slots vars n = take n vars ++ replicate (n - length vars) raw

unfoldable pub array_create : ℕ → ArrayT
array_create size =
    let size' : ℕ = if size == 0 then min_array_size else size in
    record { size = 0; max_size = size'; vars = replicate size' raw }

unfoldable pub array_grow : ArrayT → ArrayT
unfolding realloc_slots
array_grow array =
    let max_size' : ℕ =
      if ltb array.max_size min_array_size then min_array_size * 2 else array.max_size * 2 in
    record array { max_size = max_size'; vars = realloc_slots array.vars max_size' }

unfoldable pub array_push : ArrayT → Var → Run ArrayT
unfolding array_grow write_slot
array_push array v = do
  let array' = if leb array.max_size array.size then array_grow array else array
  vars' ← write_slot array'.vars array'.size (elem v)
  ok (record array' { size = array'.size + 1; vars = vars' })

-- `for (int i = from; i < from + rounds; i++) vars[i] = NULL`. An `int` that stands for 2^31 or more
-- is negative, and its cell is outside of `vars`; counting on from 2^31 - 1 overflows.
unfoldable pub fill_null : ℕ → ℕ → List Slot → Run (List Slot)
unfolding write_slot
fill_null zero from vars = ok vars
fill_null (suc rounds) from vars =
    if ltb (from + 1) (2 ^ 31)
    then write_slot vars from null_slot >>= fill_null rounds (from + 1)
    else fault out_of_bounds

-- `index + 1` is an `unsigned int`.
abbrev pub succ32 : ℕ → ℕ
succ32 index = (index + 1) % 2 ^ 32

unfoldable pub array_reserve : ArrayT → ℕ → ArrayT
unfolding realloc_slots
array_reserve array index =
    let max_size' = max (succ32 index) (array.max_size * 2) in
    if leb array.max_size index
    then record array { max_size = max_size'; vars = realloc_slots array.vars max_size' }
    else array

unfoldable pub array_append_at : ArrayT → ℕ → Var → Run ArrayT
unfolding array_reserve write_slot fill_null
array_append_at array index v = do
  let array' = array_reserve array index
  vars' ← write_slot array'.vars index (elem v)
  vars'' ← fill_null (index - array'.size) array'.size vars'
  ok (record array' { size = succ32 index; vars = vars'' })

-- `*array->vars[index] = v`, where a NULL cell is first given a `var`
unfoldable pub array_overwrite : ArrayT → ℕ → Var → Run ArrayT
array_overwrite array index v = elim (get_elem? array.vars index) [
  | none ↦ fault out_of_bounds
  | some raw ↦ fault uninitialised
  | some s ↦ ok (record array { vars = set array.vars index (elem v) })
]

unfoldable pub array_set_elem : ArrayT → ℕ → Var → Run ArrayT
unfolding array_append_at array_overwrite
array_set_elem array index v =
    if leb array.size index then array_append_at array index v else array_overwrite array index v
