-- ===== src/Array/Clone.antt =====
-- core/array.c: copying and freeing an array. Both walk over the elements with a function of
-- core/operator.c or core/var.c, which is an argument here.
use bombyx.Prelude.{ℕ, ◌+◌, List, [], ◌∷◌, take, replicate, max}
use bombyx.Run.{uninitialised}
use bombyx.Value.{Var, Slot, raw, null_slot, elem, ArrayT}
use bombyx.Env.{M, pure, undefined, lift, ◌>>=◌, ◌>>◌}
use bombyx.Array.{min_array_size, write_slot}

module _ {D : Type 0} where
  -- One element of a clone; `copy` is op_copy into a zeroed `var`.
  unfoldable pub clone_slot : (Var → M D Var) → Slot → M D Slot
  clone_slot copy raw = undefined uninitialised
  clone_slot copy null_slot = pure null_slot
  clone_slot copy (elem v) = do v' ← copy v; pure (elem v')

  -- The cells from `i` on of the new array are filled from the cells that are left of the old one.
  unfoldable pub clone_loop : (Var → M D Var) → List Slot → ℕ → List Slot → M D (List Slot)
  unfolding clone_slot write_slot
  clone_loop copy [] i vars = pure vars
  clone_loop copy (s ∷ rest) i vars = do
    s' ← clone_slot copy s
    vars' ← lift (write_slot vars i s')
    clone_loop copy rest (i + 1) vars'

  unfoldable pub array_clone : (Var → M D Var) → ArrayT → M D ArrayT
  unfolding clone_loop
  array_clone copy array = do
    vars' ← clone_loop copy (take array.size array.vars) 0 (replicate array.max_size raw)
    pure (record { size = array.size; max_size = max array.size min_array_size; vars = vars' })

  -- `unset` is var_unset, called on each `var` before its own memory is freed.
  unfoldable pub unset_slots : (Var → M D (Unit {0})) → List Slot → M D (Unit {0})
  unset_slots unset [] = pure tt
  unset_slots unset (raw ∷ rest) = undefined uninitialised
  unset_slots unset (null_slot ∷ rest) = unset_slots unset rest
  unset_slots unset (elem v ∷ rest) = unset v >> unset_slots unset rest

  unfoldable pub array_delete : (Var → M D (Unit {0})) → ArrayT → M D (Unit {0})
  unfolding unset_slots
  array_delete unset array = unset_slots unset (take array.size array.vars)
