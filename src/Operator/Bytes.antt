-- ===== src/Operator/Bytes.antt =====
-- Strings in the memory of variables: reading and writing their bytes, as `+` of core/operator.c does.
use bombyx.Prelude.{
  ℕ, zero, suc, ◌+◌, ◌^◌, ◌≤◌, ◌<◌, ◌≡◌, ◌≢◌, refl, Option, none, some, List, [], ◌∷◌, ◌++◌, arith,
  length, take, drop, length-append, take-length, take-length-append, le→leb, ap,
}
use mathlib.Core.List.{append-nil}
use mathlib.Core.Path.{fun_ext, ◌∙◌}
use bombyx.Run.{ok}
use bombyx.Value.{VarType, Address, Var, Object, bytes}
use bombyx.Double.{Double}
use bombyx.Env.{Env, pure, ◌>>=◌, ◌>>◌}
use bombyx.Memory.{put, alloc, free, store, load_bytes}
use bombyx.Copy.{copy_from}
use bombyx.Operator.Laws.{set_cell}
use bombyx.Operator.Add.{pred32, resize, overwrite, bytes_or_null}

-- A variable of type VAR_STRING that holds the bytes `s` and a zero in its own memory.
pub record IsString {D : Type 0} (env : Env D) (a : Var) (p : Address) (s : List ℕ) : Type 0 where
  pub type : a.type ≡ VarType.string
  pub ptr : a.ptr ≡ some p
  pub cell : env.heap.cell p ≡ some (bytes (s ++ 0 ∷ []))
  pub data_size : a.data_size ≡ length s + 1

-- Nothing stands at addresses that were not given out yet.
pub record IsFresh {D : Type 0} (env : Env D) : Type 0 where
  pub unused : (p : Address) → env.heap.next ≤ p → env.heap.cell p ≡ none

pub length-resize : (bs : List ℕ) (n : ℕ) → length (resize bs n) ≡ n
unfolding resize
length-resize bs zero = refl
length-resize [] (suc n) = ap suc (length-resize [] n)
length-resize (b ∷ bs) (suc n) = ap suc (length-resize bs n)

pub drop-all : (bs : List ℕ) (n : ℕ) → length bs ≤ n → drop n bs ≡ []
drop-all [] zero h = refl
drop-all [] (suc n) h = refl
drop-all (b ∷ bs) zero h = absurd (omega arith)
drop-all (b ∷ bs) (suc n) h = drop-all bs n (omega arith)

pub take-resize :
    (s rest : List ℕ) (n : ℕ) → length s ≤ n → take (length s) (resize (s ++ rest) n) ≡ s
unfolding resize
take-resize [] rest n h = refl
take-resize (b ∷ s) rest zero h = absurd (omega arith)
take-resize (b ∷ s) rest (suc n) h = ap (λ l. b ∷ l) (take-resize s rest n (omega arith))

-- realloc and memcpy together append `src`.
pub overwrite-resize :
    (s rest src : List ℕ) (n : ℕ)
    → n ≡ length s + length src
    → overwrite (resize (s ++ rest) n) (length s) src ≡ s ++ src
unfolding overwrite
overwrite-resize s rest src n e =
    rw
      (
        take-resize s rest n (omega arith),
        drop-all (resize (s ++ rest) n) (length s + length src)
            (omega (arith, length-resize (s ++ rest) n)),
        append-nil,
      )
      refl

module _ {D : Type 0} ⦃fl : Double D⦄ where
  pub load_bytes_lem :
      (env : Env D) {p : Address} {bs : List ℕ} (q : Option Address)
      → q ≡ some p
      → env.heap.cell p ≡ some (bytes bs)
      → load_bytes q env ≡ ok (bs, env)
  unfolding load_bytes
  load_bytes_lem env q e h = ground arith

  pub store_lem :
      (env : Env D) {p : Address} {old : Object D} (q : Option Address) (o : Object D)
      → q ≡ some p
      → env.heap.cell p ≡ some old
      → store q o env ≡ ok (tt, set_cell env p o)
  unfolding store
  store_lem env q o e h = ground arith

  pub copy_from_lem :
      (env : Env D) {p : Address} {bs : List ℕ} (q : Option Address) (n : ℕ)
      → q ≡ some p
      → env.heap.cell p ≡ some (bytes bs)
      → n ≤ length bs
      → copy_from q n env ≡ ok (take n bs, env)
  unfolding copy_from
  copy_from_lem env {bs = bs} q n e h k =
      rw (load_bytes_lem env q e h, ◌>>=◌, le→leb n (length bs) k) refl

  -- All the bytes of a string, with its zero, and those before the zero.
  pub string_image :
      {env : Env D} {a : Var} {p : Address} {s : List ℕ}
      → IsString env a p s
      → copy_from a.ptr a.data_size env ≡ ok (s ++ 0 ∷ [], env)
  string_image {env = env} {a = a} {s = s} h =
      let size : a.data_size ≡ length (s ++ 0 ∷ []) =
        omega (arith, h.data_size, length-append s (0 ∷ [])) in
      rw
        (
          copy_from_lem env a.ptr a.data_size h.ptr h.cell (omega (arith, size)),
          size,
          take-length (s ++ 0 ∷ []),
        )
        refl

  pub string_text :
      {env : Env D} {a : Var} {p : Address} {s : List ℕ}
      → IsString env a p s
      → a.data_size < 2 ^ 32
      → copy_from a.ptr (pred32 a.data_size) env ≡ ok (s, env)
  string_text {env = env} {a = a} {s = s} h small =
      let size : pred32 a.data_size ≡ length s = omega (arith, h.data_size) in
      rw
        (
          copy_from_lem env a.ptr (pred32 a.data_size) h.ptr h.cell
              (omega (arith, size, length-append s (0 ∷ []))),
          size,
          take-length-append s (0 ∷ []),
        )
        refl

  pub bytes_or_null_lem :
      (env : Env D) {p : Address} {bs : List ℕ} (q : Option Address)
      → q ≡ some p
      → env.heap.cell p ≡ some (bytes bs)
      → bytes_or_null q env ≡ ok (bs, env)
  unfolding bytes_or_null
  bytes_or_null_lem env q e h = ground arith

  pub free_lem :
      (env : Env D) {p : Address} {old : Object D} (q : Option Address)
      → q ≡ some p
      → env.heap.cell p ≡ some old
      → free q env
        ≡ ok (tt, record env { heap = record env.heap { cell = put env.heap.cell p none } })
  unfolding free
  free_lem env q e h = ground arith

  -- `free` and then `alloc`, at the address that is given out next.
  abbrev pub replaced : Env D → Address → Object D → Env D
  replaced env p o = record env {
    heap = record {
      next = env.heap.next + 1;
      cell = put (put env.heap.cell p none) env.heap.next (some o);
    };
  }

  pub free-alloc :
      (env : Env D) {p : Address} {old : Object D} (q : Option Address) (o : Object D)
      (f : Address → Var)
      → q ≡ some p
      → env.heap.cell p ≡ some old
      → (free q >> (alloc o >>= λ r. pure (f r))) env ≡ ok (f env.heap.next, replaced env p o)
  unfolding free alloc
  free-alloc env q o f e h = ground arith

  -- The left variable has the string `s` in new memory, its old memory is freed, no other memory
  -- changed, and the right variable is as it was.
  pub record Concatenates (env : Env D) (p : Address) (b : Var) (s : List ℕ)
      (r : (Var × Var) × Env D) : Type 0 where
    pub result : IsString r.1 r.0.0 env.heap.next s
    pub right : r.0.1 ≡ b
    pub freed : r.1.heap.cell p ≡ none
    pub frame : (x : Address) → x ≢ p → x ≢ env.heap.next → r.1.heap.cell x ≡ env.heap.cell x

  pub replaced-Concatenates :
      {env : Env D} (a b : Var) {p : Address} {old : Object D} (s : List ℕ) (n : ℕ)
      → IsFresh env
      → a.type ≡ VarType.string
      → env.heap.cell p ≡ some old
      → n ≡ length s + 1
      → Concatenates env p b s (
        (record a { ptr = some env.heap.next; data_size = n }, b),
        replaced env p (bytes (s ++ 0 ∷ [])),
      )
  replaced-Concatenates {env = env} a b {p = p} s n fresh string here e = record {
    result = record { type = string; ptr = refl; cell = ground arith; data_size = e };
    right = refl;
    freed = ground (arith, fresh.unused p);
    frame = λ x n m. ground arith;
  }

  -- A string in other memory is still there.
  pub moved-IsString :
      {env : Env D} {b : Var} {p q : Address} {t : List ℕ} (o : Object D)
      → IsFresh env
      → p ≢ q
      → IsString env b q t
      → IsString (replaced env p o) b q t
  moved-IsString {env = env} {q = q} o fresh apart k = record {
    type = k.type;
    ptr = k.ptr;
    cell = ground (arith, apart, k.cell, fresh.unused q);
    data_size = k.data_size;
  }

  put_again :
      (cell : Address → Option (Object D)) (p : Address) (old o : Object D)
      → put (put cell p (some old)) p (some o) ≡ put cell p (some o)
  put_again cell p old o = fun_ext λ q. ground arith

  -- A store behind `free` and `alloc`.
  store-replaced :
      (env : Env D) (p : Address) (old o : Object D)
      → store (some env.heap.next) o (replaced env p old) ≡ ok (tt, replaced env p o)
  store-replaced env p old o =
      store_lem (replaced env p old) {old = old} (some env.heap.next) o refl (ground arith)
      ∙ ap (λ c. ok (tt, record env { heap = record { next = env.heap.next + 1; cell = c } }))
          (put_again (put env.heap.cell p none) env.heap.next old o)

  pub store_then :
      (env : Env D) (p : Address) (old o : Object D) (x : Var)
      → (store (some env.heap.next) o >> pure x) (replaced env p old) ≡ ok (x, replaced env p o)
  store_then env p old o x = rw (◌>>=◌, store-replaced env p old o) refl
