-- ===== src/Copy/Scalar.antt =====
-- core/operator.c: op_copy of numbers and strings, into an empty variable and over an old value.
use bombyx.Prelude.{
  ℕ, suc, ◌≡◌, ◌≢◌, refl, true, false, ◌&&◌, inl, inr, Option, none, some, List, [], ◌∷◌, ◌++◌,
  arith, leb, ◌==◌, length, length-append, Bool-cases, le→leb, ◌∙◌, sym,
}
use mathlib.Core.Path.{ap₂}
use mathlib.Core.List.{append-nil}
use bombyx.Run.{Run, ok, Returns}
use bombyx.Value.{VarType, same_type, Address, Var, zero_var, Object, bytes}
use bombyx.Double.{Double}
use bombyx.Env.{Env, M, ◌>>=◌}
use bombyx.Memory.{put, free}
use bombyx.Copy.{copy_cases, var_unset, copy_to, copy_over, copy_anew, free_data, adopt, op_copy}
use bombyx.Operator.Laws.{set_cell, load_double_lem, store_double_lem}
use bombyx.Operator.Bytes.{IsString, IsFresh, drop-all, load_bytes_lem, string_image, store_lem}
use bombyx.Copy.Objects.{
  same_type_eq, Holds, a_number, a_string, Copies, allocated, fresh_copy_lem, moved, Holds-ptr,
  still, used-lt,
}

module _ {D : Type 0} ⦃fl : Double D⦄ where
  -- Into new memory.
  fresh-Copies :
      (env : Env D) (a : Var) {b : Var} {q : Address} {o : Object D}
      → env.heap.next ≢ q
      → Holds env b q o
      → Copies b q o (adopt a b (some env.heap.next), allocated env o)
  unfolding adopt
  fresh-Copies env a {b} {q} {o} apart h = record {
    place = env.heap.next;
    result = moved refl refl refl (ground arith) h;
    apart = apart;
    source = still env (allocated env o) (ground arith) h;
    ref = refl;
  }

  empty_case :
      (unset : Var → M D (Unit {0})) (copy : Var → M D Var) {env : Env D} (a : Var) {b : Var}
      {q : Address} {o : Object D}
      → Holds env b q o
      → copy_cases unset copy none (some q) a b env
        ≡ ok (adopt a b (some env.heap.next), allocated env o)
  unfolding copy_cases
  empty_case unset copy a h = rw (fresh_copy_lem copy h, ◌>>=◌) refl

  -- In a heap with nothing past its next address, copying a number or a string into a variable
  -- without data makes a variable of the same type, size and origin, with memory of its own that
  -- holds the same; the source keeps its own. One level of fuel is enough.
  pub op_copy-empty :
      (fuel : ℕ) {env : Env D} (a : Var) {b : Var} {q : Address} {o : Object D}
      → IsFresh env
      → a.ptr ≡ none
      → Holds env b q o
      → Returns (op_copy (suc fuel) a b env) (Copies b q o)
  unfolding op_copy
  op_copy-empty fuel {env = env} a {b = b} {o = o} fresh null h = (
    (adopt a b (some env.heap.next), allocated env o),
    ap₂ (λ x y. copy_cases (var_unset fuel) (op_copy fuel zero_var) x y a b env) null (Holds-ptr h)
        ∙ empty_case (var_unset fuel) (op_copy fuel zero_var) a h,
    fresh-Copies env a (used-lt fresh h) h,
  )

  copy_to_lem :
      {env : Env D} {a : Var} {p : Address} {s : List ℕ} (t : List ℕ)
      → IsString env a p s
      → length t ≡ length s
      → copy_to a.ptr (t ++ 0 ∷ []) env ≡ ok (tt, set_cell env p (bytes (t ++ 0 ∷ [])))
  unfolding copy_to
  copy_to_lem {env = env} {a = a} {s = s} t h e =
      let w : length (s ++ 0 ∷ []) ≡ length (t ++ 0 ∷ []) =
        omega (arith, length-append s (0 ∷ []), length-append t (0 ∷ [])) in
      let fits : leb (length (t ++ 0 ∷ [])) (length (s ++ 0 ∷ [])) ≡ true =
        le→leb _ _ (omega (arith, w)) in
      rw
        (
          load_bytes_lem env a.ptr h.ptr h.cell,
          ◌>>=◌,
          fits,
          drop-all (s ++ 0 ∷ []) (length (t ++ 0 ∷ [])) (omega (arith, w)),
          append-nil,
        )
        (store_lem env a.ptr (bytes (t ++ 0 ∷ [])) h.ptr h.cell)

  -- Over an old value of the same type and size, the memory is kept and its contents replaced.
  over_lem :
      (copy : Var → M D Var) {env : Env D} {a b : Var} {p q : Address} {old o : Object D}
      → a.data_size ≡ b.data_size
      → a.type ≡ b.type
      → Holds env a p old
      → Holds env b q o
      → copy_over copy a b env ≡ ok (a.ptr, set_cell env p o)
  unfolding copy_over
  over_lem copy size type (a_number _ h) (a_number {x = x} _ k) =
      rw (h.type, load_double_lem k, ◌>>=◌, store_double_lem x h) refl
  over_lem copy size type (a_string h) (a_string {s = s} k) =
      rw
        (
          h.type,
          string_image k,
          ◌>>=◌,
          copy_to_lem s h (omega (arith, size, h.data_size, k.data_size)),
        )
        refl
  over_lem copy size type (a_number _ h) (a_string k) = absurd (unlike (sym h.type ∙ type ∙ k.type))
    where
      unlike : VarType.double ≡ VarType.string → ⊥
      unlike e = cc
  over_lem copy size type (a_string h) (a_number _ k) = absurd (unlike (sym h.type ∙ type ∙ k.type))
    where
      unlike : VarType.string ≡ VarType.double → ⊥
      unlike e = cc

  abbrev pub freed : Env D → Address → Env D
  freed env p = record env { heap = record env.heap { cell = put env.heap.cell p none } }

  free_lem :
      (env : Env D) {p : Address} {old : Object D} (q : Option Address)
      → q ≡ some p
      → env.heap.cell p ≡ some old
      → free q env ≡ ok (tt, freed env p)
  unfolding free
  free_lem env q e h = ground arith

  -- Over an old value of another type or size, the old memory is freed and new memory taken.
  anew_lem :
      (unset : Var → M D (Unit {0})) (copy : Var → M D Var) {env : Env D} {a b : Var}
      {p q : Address} {old o : Object D}
      → p ≢ q
      → Holds env a p old
      → Holds env b q o
      → copy_anew unset copy a b env ≡ ok (some env.heap.next, allocated (freed env p) o)
  unfolding copy_anew free_data
  anew_lem unset copy {env = env} {a = a} {p = p} n (a_number size h) k =
      let k' = still env (freed env p) (ground arith) k in
      rw (h.type, free_lem env a.ptr h.ptr h.cell, ◌>>=◌, fresh_copy_lem copy k') refl
  anew_lem unset copy {env = env} {a = a} {p = p} n (a_string h) k =
      let k' = still env (freed env p) (ground arith) k in
      rw (h.type, free_lem env a.ptr h.ptr h.cell, ◌>>=◌, fresh_copy_lem copy k') refl

  -- The result `r` holds the object of `b` in memory that is not that of `b`, which still holds it.
  pub record Replaces (b : Var) (q : Address) (o : Object D) (r : Var × Env D) : Type 0 where
    pub place : Address
    pub result : Holds r.1 r.0 place o
    pub apart : place ≢ q
    pub source : Holds r.1 b q o

  over_case :
      (unset : Var → M D (Unit {0})) (copy : Var → M D Var) {env : Env D} {a b : Var}
      {p q : Address} {old o : Object D}
      → (a.data_size == b.data_size && same_type a.type b.type) ≡ true
      → Holds env a p old
      → Holds env b q o
      → copy_cases unset copy (some p) (some q) a b env
        ≡ ok (record a { ptr = a.ptr }, set_cell env p o)
  unfolding copy_cases
  over_case unset copy {a = a} {b = b} e ha hb =
      let size : a.data_size ≡ b.data_size = ground (arith, e) in
      let type : a.type ≡ b.type = same_type_eq a.type b.type (ground (arith, e)) in
      rw (e, over_lem copy size type ha hb, ◌>>=◌) refl

  anew_case :
      (unset : Var → M D (Unit {0})) (copy : Var → M D Var) {env : Env D} {a b : Var}
      {p q : Address} {old o : Object D}
      → (a.data_size == b.data_size && same_type a.type b.type) ≡ false
      → p ≢ q
      → Holds env a p old
      → Holds env b q o
      → copy_cases unset copy (some p) (some q) a b env
        ≡ ok (adopt a b (some env.heap.next), allocated (freed env p) o)
  unfolding copy_cases
  anew_case unset copy e n ha hb = rw (e, anew_lem unset copy n ha hb, ◌>>=◌) refl

  over-Replaces :
      {env : Env D} {a b : Var} {p q : Address} {old o : Object D}
      → (a.data_size == b.data_size && same_type a.type b.type) ≡ true
      → p ≢ q
      → Holds env a p old
      → Holds env b q o
      → Replaces b q o (record a { ptr = a.ptr }, set_cell env p o)
  over-Replaces {env} {a} {b} {p} {q} {old} {o} e n ha hb = record {
    place = p;
    result =
        moved (same_type_eq a.type b.type (ground (arith, e))) (ground (arith, e)) (Holds-ptr ha)
          (ground arith) hb;
    apart = n;
    source = still env (set_cell env p o) (ground arith) hb;
  }

  anew-Replaces :
      (env : Env D) (a : Var) {b : Var} {p q : Address} {o : Object D}
      → env.heap.next ≢ q
      → p ≢ q
      → Holds env b q o
      → Replaces b q o (adopt a b (some env.heap.next), allocated (freed env p) o)
  unfolding adopt
  anew-Replaces env a {b} {p} {q} {o} apart n hb = record {
    place = env.heap.next;
    result = moved refl refl refl (ground arith) hb;
    apart = apart;
    source = still env (allocated (freed env p) o) (ground arith) hb;
  }

  -- In a heap with nothing past its next address, copying a number or a string over an older
  -- number or string, whose memory is not that of the source, leaves the object of the source in
  -- memory apart from that of the source, which keeps its own. One level of fuel is enough.
  pub op_copy-occupied :
      (fuel : ℕ) {env : Env D} (a : Var) {b : Var} {p q : Address} {old o : Object D}
      → IsFresh env
      → p ≢ q
      → Holds env a p old
      → Holds env b q o
      → Returns (op_copy (suc fuel) a b env) (Replaces b q o)
  unfolding op_copy
  op_copy-occupied fuel {env = env} a {b = b} {p = p} {q = q} {old = old} {o = o} fresh apart ha
        hb =
      let cases : Option Address → Option Address → Run (Var × Env D) =
        λ x y. copy_cases (var_unset fuel) (op_copy fuel zero_var) x y a b env in
      elim (Bool-cases (a.data_size == b.data_size && same_type a.type b.type)) [
        | inl e ↦ (
          (record a { ptr = a.ptr }, set_cell env p o),
          ap₂ cases (Holds-ptr ha) (Holds-ptr hb)
              ∙ over_case (var_unset fuel) (op_copy fuel zero_var) e ha hb,
          over-Replaces e apart ha hb,
        )
        | inr e ↦ (
          (adopt a b (some env.heap.next), allocated (freed env p) o),
          ap₂ cases (Holds-ptr ha) (Holds-ptr hb)
              ∙ anew_case (var_unset fuel) (op_copy fuel zero_var) e apart ha hb,
          anew-Replaces env a (used-lt fresh hb) apart hb,
        )
      ]
