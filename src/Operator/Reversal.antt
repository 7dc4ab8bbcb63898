-- ===== src/Operator/Reversal.antt =====
-- core/operator.c: the unary minus of a string, in the bytes of the string.
use bombyx.Prelude.{
  ℕ, zero, suc, ◌+◌, ◌-◌, ◌≤◌, ◌<◌, ◌≡◌, refl, true, false, ◌&&◌, List, [], ◌∷◌, ◌++◌, arith, leb,
  if◌then◌else◌, length, length-append, ap, ◌∙◌, le→leb,
}
use mathlib.Core.List.{reverse, reverse-append}
use native.Mathlib.Decide.{dec_lt}
use bombyx.Run.{ok}
use bombyx.Value.{Address, Var, bytes}
use bombyx.Double.{Double}
use bombyx.Env.{Env, ◌>>=◌}
use bombyx.Operator.Laws.{set_cell}
use bombyx.Operator.Bytes.{IsString, load_bytes_lem, store_lem}
use bombyx.Operator.Reverse.{reverse_loop, reverse_string, op_unary_minus}
use bombyx.Operator.Swapping.{at, AreBytes, reverse_loop-Mirrored}

list_ext : (xs ys : List ℕ) → length xs ≡ length ys → ((k : ℕ) → at xs k ≡ at ys k) → xs ≡ ys
list_ext [] [] w h = refl
list_ext [] (y ∷ ys) w h = absurd (omega arith)
list_ext (x ∷ xs) [] w h = absurd (omega arith)
list_ext (x ∷ xs) (y ∷ ys) w h =
    let head : x ≡ y = h 0 in let rest = list_ext xs ys (omega arith) (λ k. h (suc k)) in cc

at-append_left : (xs ys : List ℕ) (k : ℕ) → k < length xs → at (xs ++ ys) k ≡ at xs k
at-append_left [] ys k h = absurd (omega arith)
at-append_left (x ∷ xs) ys zero h = refl
at-append_left (x ∷ xs) ys (suc k) h = at-append_left xs ys k (omega arith)

at-append_right : (xs ys : List ℕ) (k j : ℕ) → k ≡ length xs + j → at (xs ++ ys) k ≡ at ys j
at-append_right [] ys k j e = let e' : k ≡ j = omega arith in rw e' refl
at-append_right (x ∷ xs) ys zero j e = absurd (omega arith)
at-append_right (x ∷ xs) ys (suc k) j e = at-append_right xs ys k j (omega arith)

length-reverse : (s : List ℕ) → length (reverse s) ≡ length s
length-reverse [] = refl
length-reverse (x ∷ s) = omega (
  arith,
  ap length (reverse-append (x ∷ []) s),
  length-append (reverse s) (x ∷ []),
  length-reverse s,
)

at_earlier : (x : ℕ) (s : List ℕ) (k j : ℕ) → k ≡ suc j → at s j ≡ at (x ∷ s) k
at_earlier x s k j e = rw e refl

at-reverse : (s : List ℕ) (k j : ℕ) → k + j + 1 ≡ length s → at (reverse s) k ≡ at s j
at-reverse [] k j h = absurd (omega arith)
at-reverse (x ∷ s) k zero h =
    rw (reverse-append (x ∷ []) s)
      (at-append_right (reverse s) (x ∷ []) k 0 (omega (arith, length-reverse s)))
at-reverse (x ∷ s) k (suc j) h = rw (reverse-append (x ∷ []) s) (
    at-append_left (reverse s) (x ∷ []) k (omega (arith, length-reverse s))
    ∙ at-reverse s k j (omega arith))

zero_end : (s : List ℕ) (k : ℕ) → length s ≤ k → at (s ++ 0 ∷ []) k ≡ 0
zero_end [] zero h = refl
zero_end [] (suc k) h = refl
zero_end (x ∷ s) zero h = absurd (omega arith)
zero_end (x ∷ s) (suc k) h = zero_end s k (omega arith)

bytes_zero : (s : List ℕ) → AreBytes s → AreBytes (s ++ 0 ∷ [])
bytes_zero s small k = elim (dec_lt k (length s)) [
  | yes h ↦ rw (at-append_left s (0 ∷ []) k h) (small k)
  | no h ↦ rw (zero_end s k (omega arith)) (omega arith)
]

-- The loop of the unary minus turns the bytes before the zero around.
reverse_loop-reverse :
    (s : List ℕ)
    → AreBytes s
    → reverse_loop (length s + 1) 0 (length s + 1 - 2) (s ++ 0 ∷ []) ≡ reverse s ++ 0 ∷ []
reverse_loop-reverse [] small = unfold reverse_loop in refl
reverse_loop-reverse (x ∷ s) small =
    let n = length (x ∷ s) in
    let bs : List ℕ = (x ∷ s) ++ 0 ∷ [] in
    let end = n + 1 - 2 in
    let w = length-append (x ∷ s) (0 ∷ []) in
    let m =
      reverse_loop-Mirrored (n + 1) 0 end bs (bytes_zero (x ∷ s) small) (omega (arith, w))
        (omega arith) in
    list_ext _ _
      (omega (arith, m.width, w, length-append (reverse (x ∷ s)) (0 ∷ []), length-reverse (x ∷ s)))
      λ k. m.reads k ∙ cell k
  where
    cell :
        (k : ℕ)
        → (if leb 0 k && leb k (length (x ∷ s) + 1 - 2)
            then at ((x ∷ s) ++ 0 ∷ []) (0 + (length (x ∷ s) + 1 - 2) - k)
            else at ((x ∷ s) ++ 0 ∷ []) k)
          ≡ at (reverse (x ∷ s) ++ 0 ∷ []) k
    cell k = elim (dec_lt k (length (x ∷ s))) [
      | yes h ↦
          let j = length (x ∷ s) - 1 - k in
          let e : 0 + (length (x ∷ s) + 1 - 2) - k ≡ j = omega arith in
          let t : (leb 0 k && leb k (length (x ∷ s) + 1 - 2)) ≡ true = ground arith in
          rw
            (
              t,
              e,
              at-append_left (x ∷ s) (0 ∷ []) j (omega arith),
              at-append_left (reverse (x ∷ s)) (0 ∷ []) k (omega (arith, length-reverse (x ∷ s))),
              at-reverse (x ∷ s) k j (omega arith),
            )
            refl
      | no h ↦
          let t : (leb 0 k && leb k (length (x ∷ s) + 1 - 2)) ≡ false = ground arith in
          rw
            (
              t,
              zero_end (x ∷ s) k (omega arith),
              zero_end (reverse (x ∷ s)) k (omega (arith, length-reverse (x ∷ s))),
            )
            refl
    ]

module _ {D : Type 0} ⦃fl : Double D⦄ where
  reverse_string_lem :
      {env : Env D} {a : Var} {p : Address} {s : List ℕ}
      → IsString env a p s
      → AreBytes s
      → reverse_string a env ≡ ok (tt, set_cell env p (bytes (reverse s ++ 0 ∷ [])))
  unfolding reverse_string
  reverse_string_lem {env = env} {a = a} {s = s} h small =
      let fits : leb a.data_size (length (s ++ 0 ∷ [])) ≡ true =
        le→leb _ _ (omega (arith, h.data_size, length-append s (0 ∷ []))) in
      let turned : reverse_loop a.data_size 0 (a.data_size - 2) (s ++ 0 ∷ [])
          ≡ reverse s ++ 0 ∷ [] =
        rw h.data_size (reverse_loop-reverse s small) in
      rw (load_bytes_lem env a.ptr h.ptr h.cell, ◌>>=◌, fits, turned)
        (store_lem env a.ptr (bytes (reverse s ++ 0 ∷ [])) h.ptr h.cell)

  -- The unary minus of a string of bytes turns them around in place: the zero stays at the end,
  -- the variable is as it was, and no other memory changes.
  pub op_unary_minus-reverse :
      {env : Env D} {a : Var} {p : Address} {s : List ℕ}
      → IsString env a p s
      → AreBytes s
      → op_unary_minus a env ≡ ok (tt, set_cell env p (bytes (reverse s ++ 0 ∷ [])))
  unfolding op_unary_minus
  op_unary_minus-reverse h small = rw (h.type, op_unary_minus) (reverse_string_lem h small)
