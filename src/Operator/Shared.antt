-- ===== src/Operator/Shared.antt =====
-- core/operator.c: `+` of two strings where the left one has no memory of its own.
use bombyx.Prelude.{
  ℕ, ◌+◌, ◌-◌, ◌^◌, ◌<◌, ◌≡◌, refl, true, false, none, some, List, [], arith, leb, length,
}
use bombyx.Run.{ok, fault, out_of_bounds, use_after_free}
use bombyx.Value.{VarType, same_type, Address, Var, Object, bytes}
use bombyx.Double.{Double}
use bombyx.Env.{Env, ◌>>=◌}
use bombyx.Memory.{put, alloc, free, load, load_bytes}
use bombyx.Copy.{copy_from}
use bombyx.Operator.{both}
use bombyx.Operator.Add.{pred32, add32, resize, bytes_or_null, append_at, append_strings, op_add}
use bombyx.Operator.Bytes.{IsString, IsFresh, string_image, bytes_or_null_lem, free_lem, replaced}

module _ {D : Type 0} ⦃fl : Double D⦄ where
  gone :
      {env : Env D} {p : Address} {old : Object D} (n : ℕ) (o : Object D)
      → IsFresh env
      → env.heap.cell p ≡ some old
      → copy_from (some p) n (replaced env p o) ≡ fault use_after_free
  unfolding copy_from load_bytes load
  gone {env = env} {p = p} n o fresh here =
      let cell : (replaced env p o).heap.cell p ≡ none = ground (arith, here, fresh.unused p) in
      rw (◌>>=◌, cell) refl

  -- `+` of two strings in the same memory, in a heap with nothing past its next address, reads the
  -- right one after realloc has freed that memory.
  pub op_add-shared :
      (fuel : ℕ) {env : Env D} {a b : Var} {p : Address} {s t : List ℕ}
      → IsFresh env
      → IsString env a p s
      → IsString env b p t
      → op_add fuel a b env ≡ fault use_after_free
  unfolding op_add append_strings append_at alloc
  op_add-shared fuel {env = env} {a = a} {b = b} fresh h k =
      let case : both VarType.string a b ≡ true = unfold same_type in rw (h.type, k.type) refl in
      let freed = free_lem env a.ptr h.ptr h.cell in
      rw
        (
          case,
          bytes_or_null_lem env a.ptr h.ptr h.cell,
          ◌>>=◌,
          freed,
          k.ptr,
          gone b.data_size _ fresh h.cell,
        )
        refl

  -- The environment in which an object has been put at the next address.
  abbrev given : Env D → Object D → Env D
  given env o = record env {
    heap = record { next = env.heap.next + 1; cell = put env.heap.cell env.heap.next (some o) };
  }

  given-IsString :
      {env : Env D} {b : Var} {q : Address} {t : List ℕ} (o : Object D)
      → IsFresh env
      → IsString env b q t
      → IsString (given env o) b q t
  given-IsString {env = env} {q = q} o fresh k = record {
    type = k.type;
    ptr = k.ptr;
    cell = ground (arith, k.cell, fresh.unused q);
    data_size = k.data_size;
  }

  unassigned_at :
      {env : Env D} (a : Var) {b : Var} {q : Address} {t : List ℕ}
      → IsFresh env
      → a.ptr ≡ none
      → IsString env b q t
      → append_at (2 ^ 32 - 1) (length t) a b env ≡ fault out_of_bounds
  unfolding append_at alloc free
  unassigned_at {env = env} a {b = b} {t = t} fresh null k =
      let past : leb (2 ^ 32 - 1 + b.data_size) (length t) ≡ false = ground (arith, k.data_size) in
      let image = string_image (given-IsString (bytes (resize [] (length t))) fresh k) in
      let no_old : bytes_or_null a.ptr env ≡ ok ([], env) = unfold bytes_or_null in rw null refl in
      let freed : free a.ptr env ≡ ok (tt, env) = rw null refl in
      rw (no_old, ◌>>=◌, freed, image, past) refl

  -- `+` of a string variable that was never given a value and a string, shorter than 2 ^ 32 with
  -- its zero, in a heap with nothing past its next address, writes outside of the result: the size
  -- of the left one, 0, is decremented.
  pub op_add-unassigned :
      (fuel : ℕ) {env : Env D} (a : Var) {b : Var} {q : Address} {t : List ℕ}
      → IsFresh env
      → a.type ≡ VarType.string
      → a.ptr ≡ none
      → a.data_size ≡ 0
      → IsString env b q t
      → length t + 1 < 2 ^ 32
      → op_add fuel a b env ≡ fault out_of_bounds
  unfolding op_add append_strings
  op_add-unassigned fuel {env = env} a {b = b} {t = t} fresh type null none_yet k small =
      let case : both VarType.string a b ≡ true = unfold same_type in rw (type, k.type) refl in
      let past : append_at (2 ^ 32 - 1) (length t) a b env ≡ fault out_of_bounds =
        unassigned_at a fresh null k in
      let size : add32 (2 ^ 32 - 1) b.data_size ≡ length t = omega (arith, k.data_size) in
      let t32 : pred32 a.data_size ≡ 2 ^ 32 - 1 = omega arith in
      rw (case, t32, size, past, ◌>>=◌) refl
