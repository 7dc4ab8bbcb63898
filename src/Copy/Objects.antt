-- ===== src/Copy/Objects.antt =====
-- Numbers and strings in memory, and the copies of them that op_copy of core/operator.c makes anew.
use bombyx.Prelude.{ℕ, ◌+◌, ◌≡◌, ◌≢◌, refl, true, some, List, [], ◌∷◌, ◌++◌, arith, ◌∙◌}
use bombyx.Run.{ok}
use bombyx.Value.{VarType, same_type, Address, Var, Object, number, bytes}
use bombyx.Double.{Double}
use bombyx.Env.{Env, M, ◌>>=◌}
use bombyx.Memory.{put, alloc}
use bombyx.Copy.{fresh_copy}
use bombyx.Operator.Laws.{IsNumber, load_double_lem}
use bombyx.Operator.Bytes.{IsString, IsFresh, string_image}

pub same_type_eq : (s t : VarType) → same_type s t ≡ true → s ≡ t
unfolding same_type
same_type_eq s t e = ground arith

-- A number or a string, with the object in its own memory.
pub data Holds {D : Type 0} (env : Env D) (a : Var) (p : Address) : Object D → Type 0 where
  a_number : {x : D} → a.data_size ≡ 8 → IsNumber env a p x → Holds env a p (number x)
  a_string : {s : List ℕ} → IsString env a p s → Holds env a p (bytes (s ++ 0 ∷ []))

-- The result `r` holds the object in memory that is not that of `b`, which still holds it too.
pub record Copies {D : Type 0} (b : Var) (q : Address) (o : Object D) (r : Var × Env D)
    : Type 0 where
  pub place : Address
  pub result : Holds r.1 r.0 place o
  pub apart : place ≢ q
  pub source : Holds r.1 b q o
  pub ref : r.0.ref ≡ b.ref

module _ {D : Type 0} ⦃fl : Double D⦄ where
  abbrev pub allocated : Env D → Object D → Env D
  allocated env o = record env {
    heap = record { next = env.heap.next + 1; cell = put env.heap.cell env.heap.next (some o) };
  }

  pub alloc_lem : (env : Env D) (o : Object D) → alloc o env ≡ ok (env.heap.next, allocated env o)
  unfolding alloc
  alloc_lem env o = refl

  pub fresh_copy_lem :
      (copy : Var → M D Var) {env : Env D} {b : Var} {q : Address} {o : Object D}
      → Holds env b q o
      → fresh_copy copy b env ≡ ok (some env.heap.next, allocated env o)
  unfolding fresh_copy
  fresh_copy_lem copy {env = env} (a_number {x = x} size h) =
      rw (h.type, load_double_lem h, ◌>>=◌, alloc_lem env (number x)) refl
  fresh_copy_lem copy {env = env} (a_string {s = s} h) =
      rw (h.type, string_image h, ◌>>=◌, alloc_lem env (bytes (s ++ 0 ∷ []))) refl

  -- A variable of the type and the size of `b`, at any memory that has the object.
  pub moved :
      {env env' : Env D} {b r : Var} {q p : Address} {o : Object D}
      → r.type ≡ b.type
      → r.data_size ≡ b.data_size
      → r.ptr ≡ some p
      → env'.heap.cell p ≡ some o
      → Holds env b q o
      → Holds env' r p o
  moved t s e c (a_number size h) =
      a_number (s ∙ size) (record { type = t ∙ h.type; ptr = e; cell = c })
  moved t s e c (a_string h) =
      a_string (record { type = t ∙ h.type; ptr = e; cell = c; data_size = s ∙ h.data_size })

  pub Holds-ptr :
      {env : Env D} {b : Var} {q : Address} {o : Object D} → Holds env b q o → b.ptr ≡ some q
  Holds-ptr (a_number size h) = h.ptr
  Holds-ptr (a_string h) = h.ptr

  pub Holds-cell :
      {env : Env D} {b : Var} {q : Address} {o : Object D}
      → Holds env b q o
      → env.heap.cell q ≡ some o
  Holds-cell (a_number size h) = h.cell
  Holds-cell (a_string h) = h.cell

  pub still :
      (env env' : Env D) {b : Var} {q : Address} {o : Object D}
      → env'.heap.cell q ≡ env.heap.cell q
      → Holds env b q o
      → Holds env' b q o
  still env env' c h = moved refl refl (Holds-ptr h) (c ∙ Holds-cell h) h

  -- What is allocated is at an address of its own.
  pub used-lt :
      {env : Env D} {b : Var} {q : Address} {o : Object D}
      → IsFresh env
      → Holds env b q o
      → env.heap.next ≢ q
  used-lt {env = env} {q = q} {o = o} fresh h e =
      let c = Holds-cell h in ground (arith, fresh.unused q, c)
