-- ===== src/Operator/Strings.antt =====
-- core/operator.c: `+` where an operand is a string, in the bytes of the operands and of the result.
use bombyx.Prelude.{
  ℕ, suc, ◌+◌, ◌^◌, ◌<◌, ◌≡◌, ◌≢◌, refl, true, false, ◌&&◌, some, List, [], ◌∷◌, ◌++◌, arith, leb,
  length, length-append, le→leb, ap, sym, ◌∙◌, ◌⊎◌, inl, inr,
}
use mathlib.Core.List.{append_assoc}
use bombyx.Run.{ok, Returns}
use bombyx.Value.{VarType, same_type, Address, Var, Object, bytes}
use bombyx.Double.{Double}
use bombyx.Env.{Env, pure, ◌>>=◌, ◌>>◌}
use bombyx.Memory.{alloc}
use bombyx.Copy.{var_unset}
use bombyx.Operator.{both, is_type}
use bombyx.Operator.Laws.{IsNumber, load_double_lem}
use bombyx.Operator.Add.{
  pred32, add32, resize, overwrite, append_at, append_strings, append_number, prepend_number,
  op_add,
}
use bombyx.Operator.Bytes.{
  free_lem, moved-IsString, store_then, IsString, IsFresh, overwrite-resize, string_image,
  string_text, bytes_or_null_lem, replaced, Concatenates, replaced-Concatenates,
}

module _ {D : Type 0} ⦃fl : Double D⦄ where
  append_at_lem :
      {env : Env D} {a b : Var} {p q : Address} {s t : List ℕ}
      → IsFresh env
      → p ≢ q
      → IsString env a p s
      → IsString env b q t
      → append_at (length s) (length s + length t + 1) a b env
        ≡ ok (
          record a { ptr = some env.heap.next; data_size = length s + length t + 1 },
          replaced env p (bytes ((s ++ t) ++ 0 ∷ [])),
        )
  unfolding append_at alloc
  append_at_lem {env = env} {a = a} {b = b} {p = p} {q = q} {s = s} {t = t} fresh apart h k =
      let image : length (t ++ 0 ∷ []) ≡ length t + 1 = omega (arith, length-append t (0 ∷ [])) in
      let fits : leb (length s + b.data_size) (length s + length t + 1) ≡ true =
        le→leb _ _ (omega (arith, k.data_size)) in
      let buffer : overwrite (resize (s ++ 0 ∷ []) (length s + length t + 1)) (length s)
            (t ++ 0 ∷ [])
          ≡ (s ++ t) ++ 0 ∷ [] =
        overwrite-resize s (0 ∷ []) (t ++ 0 ∷ []) (length s + length t + 1) (omega (arith, image))
        ∙ sym (append_assoc s t (0 ∷ [])) in
      let freed = free_lem env a.ptr h.ptr h.cell in
      let moved =
        moved-IsString (bytes (resize (s ++ 0 ∷ []) (length s + length t + 1))) fresh apart k in
      rw (bytes_or_null_lem env a.ptr h.ptr h.cell, ◌>>=◌, freed, alloc, string_image moved, fits)
        (store_then env p (bytes (resize (s ++ 0 ∷ []) (length s + length t + 1))) (bytes written)
            (result env.heap.next)
          ∙ ap (λ l. ok (result env.heap.next, replaced env p (bytes l))) buffer)
    where
      written : List ℕ
      written = overwrite (resize (s ++ 0 ∷ []) (length s + length t + 1)) (length s) (t ++ 0 ∷ [])

      result : Address → Var
      result r = record a { ptr = some r; data_size = length s + length t + 1 }

  append_strings_lem :
      {env : Env D} {a b : Var} {p q : Address} {s t : List ℕ}
      → IsString env a p s
      → IsString env b q t
      → p ≢ q
      → IsFresh env
      → length s + length t + 1 < 2 ^ 32
      → append_strings a b env
        ≡ ok (
          record a { ptr = some env.heap.next; data_size = length s + length t + 1 },
          replaced env p (bytes ((s ++ t) ++ 0 ∷ [])),
        )
  unfolding append_strings
  append_strings_lem {a = a} {b = b} {s = s} {t = t} h k apart fresh small =
      let t32 : pred32 a.data_size ≡ length s = omega (arith, h.data_size) in
      let size : add32 (length s) b.data_size ≡ length s + length t + 1 =
        omega (arith, k.data_size) in
      rw (t32, size) (append_at_lem fresh apart h k)

  -- `+` of two strings in two memories, whose joint size is below 2 ^ 32, in a heap with nothing past its next
  -- address, leaves their concatenation in new memory, frees the memory of the left one, keeps
  -- the right one, and changes no other memory.
  pub op_add-strings :
      (fuel : ℕ) {env : Env D} {a b : Var} {p q : Address} {s t : List ℕ}
      → IsFresh env
      → IsString env a p s
      → IsString env b q t
      → p ≢ q
      → length s + length t + 1 < 2 ^ 32
      → Returns (op_add fuel a b env) (Concatenates env p b (s ++ t))
  unfolding op_add
  op_add-strings fuel {env = env} {a = a} {b = b} {p = p} {s = s} {t = t} fresh h k apart small =
      let n = length s + length t + 1 in
      let case : both VarType.string a b ≡ true = unfold same_type in rw (h.type, k.type) refl in
      (
        (
          (record a { ptr = some env.heap.next; data_size = n }, b),
          replaced env p (bytes ((s ++ t) ++ 0 ∷ [])),
        ),
        rw (case, append_strings_lem h k apart fresh small, ◌>>=◌) refl,
        replaced-Concatenates a b (s ++ t) n fresh h.type h.cell (omega (arith, length-append s t)),
      )

  -- var_unset of a number or a string, and then memory for the result.
  unset_alloc :
      (env : Env D) {old : Object D} {p : Address} (fuel : ℕ) (a : Var) (o : Object D)
      (f : Address → Var)
      → (a.type ≡ VarType.string) ⊎ (a.type ≡ VarType.double)
      → a.ptr ≡ some p
      → env.heap.cell p ≡ some old
      → (var_unset (suc fuel) a >> (alloc o >>= λ r. pure (f r))) env
        ≡ ok (f env.heap.next, replaced env p o)
  unfolding var_unset alloc
  unset_alloc env fuel a o f (inl e) k h = ground arith
  unset_alloc env fuel a o f (inr e) k h = ground arith

  append_number_lem :
      (fuel : ℕ) {env : Env D} {a b : Var} {p q : Address} {s : List ℕ} {x : D}
      → IsString env a p s
      → IsNumber env b q x
      → length s + 1 < 2 ^ 32
      → append_number (suc fuel) a b env
        ≡ ok (
          record a {
            ptr = some env.heap.next;
            data_size = add32 a.data_size (length (fl.format x));
          },
          replaced env p (bytes (s ++ (fl.format x ++ 0 ∷ []))),
        )
  unfolding append_number
  append_number_lem fuel {env = env} {a = a} {p = p} {s = s} {x = x} h k small =
      rw (load_double_lem k, ◌>>=◌, string_text h (omega (arith, h.data_size)))
        (unset_alloc env fuel a (bytes (s ++ (fl.format x ++ 0 ∷ [])))
          (λ r. record a { ptr = some r; data_size = add32 a.data_size (length (fl.format x)) })
          (inl h.type) h.ptr h.cell)

  prepend_number_lem :
      (fuel : ℕ) {env : Env D} {a b : Var} {p q : Address} {s : List ℕ} {x : D}
      → IsNumber env a p x
      → IsString env b q s
      → prepend_number (suc fuel) a b env
        ≡ ok (
          record a {
            type = VarType.string;
            ptr = some env.heap.next;
            data_size = add32 (length (fl.format x)) b.data_size;
          },
          replaced env p (bytes (fl.format x ++ (s ++ 0 ∷ []))),
        )
  unfolding prepend_number
  prepend_number_lem fuel {env = env} {a = a} {b = b} {p = p} {s = s} {x = x} h k =
      rw (load_double_lem h, ◌>>=◌, string_image k)
        (unset_alloc env fuel a (bytes (fl.format x ++ (s ++ 0 ∷ [])))
          (λ r. record a {
            type = VarType.string;
            ptr = some r;
            data_size = add32 (length (fl.format x)) b.data_size;
          })
          (inr h.type) h.ptr h.cell)

  -- `+` of a string and a number, in either order, in a heap with nothing past its next address
  -- and with a joint size below 2 ^ 32, leaves the string joined with the text of the number in
  -- new memory, frees the memory of the left operand, keeps the right one, and changes no other
  -- memory.
  pub op_add-string_number :
      (fuel : ℕ) {env : Env D} {a b : Var} {p q : Address} {s : List ℕ} {x : D}
      → IsFresh env
      → IsString env a p s
      → IsNumber env b q x
      → length s + length (fl.format x) + 1 < 2 ^ 32
      → Returns (op_add (suc fuel) a b env) (Concatenates env p b (s ++ fl.format x))
        × Returns (op_add (suc fuel) b a env) (Concatenates env q a (fl.format x ++ s))
  unfolding op_add
  op_add-string_number fuel {env = env} {a = a} {b = b} {p = p} {q = q} {s = s} {x = x} fresh h k
        small =
      let f = fl.format x in
      let n = add32 a.data_size (length f) in
      let m = add32 (length f) a.data_size in
      let b' : Var = record b { type = VarType.string } in
      let s₁ : both VarType.string a b ≡ false = unfold same_type in rw (h.type, k.type) refl in
      let d₁ : both VarType.double a b ≡ false = unfold same_type in rw h.type refl in
      let c₁ : (is_type VarType.string a && is_type VarType.double b) ≡ true =
        unfold same_type in rw (h.type, k.type) refl in
      let s₂ : both VarType.string b a ≡ false = unfold same_type in rw k.type refl in
      let d₂ : both VarType.double b a ≡ false = unfold same_type in rw (k.type, h.type) refl in
      let c₂ : (is_type VarType.string b && is_type VarType.double a) ≡ false =
        unfold same_type in rw k.type refl in
      let e₂ : (is_type VarType.double b && is_type VarType.string a) ≡ true =
        unfold same_type in rw (k.type, h.type) refl in
      (
        (
          (
            (record a { ptr = some env.heap.next; data_size = n }, b),
            replaced env p (bytes ((s ++ f) ++ 0 ∷ [])),
          ),
          rw (s₁, d₁, c₁, append_number_lem fuel h k (omega arith), ◌>>=◌, append_assoc) refl,
          replaced-Concatenates a b (s ++ f) n fresh h.type h.cell
              (omega (arith, length-append s f, h.data_size)),
        ),
        (
          (
            (record b' { ptr = some env.heap.next; data_size = m }, a),
            replaced env q (bytes ((f ++ s) ++ 0 ∷ [])),
          ),
          rw (s₂, d₂, c₂, e₂, prepend_number_lem fuel k h, ◌>>=◌, append_assoc) refl,
          replaced-Concatenates b' a (f ++ s) m fresh refl k.cell
              (omega (arith, length-append f s, h.data_size)),
        ),
      )
