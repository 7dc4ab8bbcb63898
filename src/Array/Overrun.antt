-- ===== src/Array/Overrun.antt =====
-- core/array.c: array_clone allocates `max_size` cells of the old array but notes at least 100.
use bombyx.Prelude.{
  ℕ, ◌+◌, ◌<◌, ◌≤◌, ◌≡◌, refl, false, List, [], ◌∷◌, arith, length, take, replicate, max,
  length-replicate, leb, ltb, Bool-cases, inl, inr, length-set, set, ◌∙◌,
}
use bombyx.Run.{Run, ok, jump, fault, out_of_bounds}
use bombyx.Value.{Var, Slot, raw, ArrayT}
use bombyx.Env.{Env, M, pure, lift, ◌>>=◌}
use bombyx.Array.{min_array_size, array_push, write_slot}
use bombyx.Array.Clone.{clone_slot, clone_loop, array_clone}

array_push-full :
    (array : ArrayT) (v : Var)
    → array.size < array.max_size
    → length array.vars ≤ array.size
    → array_push array v ≡ fault out_of_bounds
unfolding array_push write_slot
array_push-full array v room full =
    let roomy : leb array.max_size array.size ≡ false = ground arith in
    let outside : ltb array.size (length array.vars) ≡ false = ground arith in
    rw (roomy, outside) refl

module _ {D : Type 0} where
  ok-of-bind :
      {A B : Type 0} (m : M D A) (f : A → M D B) (env : Env D) (r : B × Env D)
      → (m >>= f) env ≡ ok r
      → (x : A × Env D) × (m env ≡ ok x) × (f x.0 x.1 ≡ ok r)
  ok-of-bind {A = A} {B = B} m f env r e = go (m env) refl e
    where
      go :
          (o : Run (A × Env D))
          → m env ≡ o
          → ◌≡◌ {A = Run (B × Env D)}
              (elim o [ ok x ↦ f x.0 x.1 | jump k ↦ jump k | fault k ↦ fault k ])
              (ok r)
          → (x : A × Env D) × (m env ≡ ok x) × (f x.0 x.1 ≡ ok r)
      go (ok x) k h = (x, k, h)
      go (jump j) k h = absurd cc
      go (fault j) k h = absurd cc

  length-write_slot :
      (vars : List Slot) (i : ℕ) (s : Slot) (env : Env D) (x : List Slot × Env D)
      → lift (write_slot vars i s) env ≡ ok x
      → length x.0 ≡ length vars
  unfolding write_slot
  length-write_slot vars i s env x e = elim (Bool-cases (ltb i (length vars))) [
    | inl h ↦ written (rw h refl ∙ e)
    | inr h ↦ absurd (unwritten (rw h refl ∙ e))
  ]
    where
      written :
          ◌≡◌ {A = Run (List Slot × Env D)} (lift (ok (set vars i s)) env) (ok x)
          → length x.0 ≡ length vars
      written k = let same : x.0 ≡ set vars i s = cc in rw (same, length-set) refl

      unwritten :
          ◌≡◌ {A = Run (List Slot × Env D)} (lift {A = List Slot} (fault out_of_bounds) env) (ok x)
          → ⊥
      unwritten k = cc

  length-clone_loop :
      (copy : Var → M D Var) (old : List Slot) (i : ℕ) (vars : List Slot) (env : Env D)
      (r : List Slot × Env D)
      → clone_loop copy old i vars env ≡ ok r
      → length r.0 ≡ length vars
  unfolding clone_loop
  length-clone_loop copy [] i vars env r e = ground arith
  length-clone_loop copy (s ∷ rest) i vars env r e =
      let (x, _, h) =
        ok-of-bind (clone_slot copy s)
          (λ s'. lift (write_slot vars i s') >>= λ vars'. clone_loop copy rest (i + 1) vars') env r
          e in
      let (y, w, k) =
        ok-of-bind (lift (write_slot vars i x.0)) (λ vars'. clone_loop copy rest (i + 1) vars') x.1
          r h in
      length-clone_loop copy rest (i + 1) y.0 y.1 r k ∙ length-write_slot vars i x.0 x.1 y w

  -- The clone of a full array of fewer than 100 cells has fewer cells than it notes: the next
  -- push onto it writes past its storage.
  pub array_push-array_clone :
      (copy : Var → M D Var) (array : ArrayT) (v : Var) (env : Env D) (r : ArrayT × Env D)
      → array.size ≡ array.max_size
      → array.max_size < min_array_size
      → array_clone copy array env ≡ ok r
      → array_push r.0 v ≡ fault out_of_bounds
  unfolding array_clone array_push write_slot
  array_push-array_clone copy array v env r full small e =
      let (x, w, h) =
        ok-of-bind (clone_loop copy (take array.size array.vars) 0 (replicate array.max_size raw))
          (λ vars'.
            pure (record {
              size = array.size;
              max_size = max array.size min_array_size;
              vars = vars';
            }))
          env r e in
      let len : length x.0 ≡ array.max_size =
        length-clone_loop copy (take array.size array.vars) 0 (replicate array.max_size raw) env x w
        ∙ length-replicate array.max_size raw in
      let made : record { size = array.size; max_size = max array.size min_array_size; vars = x.0 }
          ≡ r.0 =
        cc in
      rw (← made) (
        array_push-full
          (record { size = array.size; max_size = max array.size min_array_size; vars = x.0 }) v
          (ground arith) (ground (arith, len)))
