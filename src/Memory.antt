-- ===== src/Memory.antt =====
-- The heap behind malloc, free, realloc and the pool of doubles (challoc, chfree): objects at
-- addresses that are never given out twice, so a read of freed memory is told apart from any other.
-- Both allocators are taken at their word: what they give is new, and they never run out.
use bombyx.Prelude.{ℕ, ◌+◌, Option, none, some, List, ◌==◌, if◌then◌else◌}
use bombyx.Run.{ok, fault, null_pointer, use_after_free, type_confusion}
use bombyx.Table.{Table}
use bombyx.Value.{Address, Var, ArrayT, Object, number, bytes, array_of, map_of}
use bombyx.Env.{M, pure, undefined, ◌>>=◌}

module _ {D : Type 0} where
  abbrev pub put :
      (Address → Option (Object D)) → Address → Option (Object D) → Address → Option (Object D)
  put cell p o q = if p == q then o else cell q

  unfoldable pub alloc : Object D → M D Address
  alloc o env =
      let h = env.heap in
      ok (
        h.next,
        record env { heap = record { next = h.next + 1; cell = put h.cell h.next (some o) } },
      )

  -- the object that a pointer leads to
  unfoldable pub load : Option Address → M D (Object D)
  load none env = fault null_pointer
  load (some p) env = elim (env.heap.cell p) [ none ↦ fault use_after_free | some o ↦ ok (o, env) ]

  unfoldable pub store : Option Address → Object D → M D (Unit {0})
  store none o env = fault null_pointer
  store (some p) o env = elim (env.heap.cell p) [
    | none ↦ fault use_after_free
    | some _ ↦
        ok (tt, record env { heap = record env.heap { cell = put env.heap.cell p (some o) } })
  ]

  -- free(NULL) does nothing.
  unfoldable pub free : Option Address → M D (Unit {0})
  free none env = ok (tt, env)
  free (some p) env = elim (env.heap.cell p) [
    | none ↦ fault use_after_free
    | some _ ↦ ok (tt, record env { heap = record env.heap { cell = put env.heap.cell p none } })
  ]

  unfoldable pub as_number : Object D → M D D
  as_number (number d) = pure d
  as_number _ = undefined type_confusion

  unfoldable pub as_bytes : Object D → M D (List ℕ)
  as_bytes (bytes bs) = pure bs
  as_bytes _ = undefined type_confusion

  unfoldable pub as_array : Object D → M D ArrayT
  as_array (array_of a) = pure a
  as_array _ = undefined type_confusion

  unfoldable pub as_map : Object D → M D (Table Var)
  as_map (map_of t) = pure t
  as_map _ = undefined type_confusion

  -- `*(double *)p`
  unfoldable pub load_double : Option Address → M D D
  unfolding load as_number
  load_double p = do o ← load p; as_number o

  -- `*(double *)p = d`, where a double stands
  unfoldable pub store_double : Option Address → D → M D (Unit {0})
  unfolding load_double store
  store_double p d = do _ ← load_double p; store p (number d)

  unfoldable pub load_bytes : Option Address → M D (List ℕ)
  unfolding load as_bytes
  load_bytes p = do o ← load p; as_bytes o

  unfoldable pub load_array : Option Address → M D ArrayT
  unfolding load as_array
  load_array p = do o ← load p; as_array o

  unfoldable pub load_map : Option Address → M D (Table Var)
  unfolding load as_map
  load_map p = do o ← load p; as_map o
