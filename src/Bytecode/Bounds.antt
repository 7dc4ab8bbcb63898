-- ===== src/Bytecode/Bounds.antt =====
-- core/bytecode.c: when the stores of the compiler stay inside the buffer, and what they append.
use bombyx.Prelude.{
  ℕ, ◌+◌, ◌/◌, ◌%◌, ◌^◌, ◌≤◌, ◌<◌, ◌≡◌, refl, Bool, true, false, arith, List, [], ◌∷◌, ◌++◌, leb,
  if◌then◌else◌, length, length-append, take-length, ◌⊎◌, Bool-cases, inl, inr,
}
use mathlib.Core.List.{append_assoc}
use native.Mathlib.Nat.{add_assoc}
use bombyx.Run.{ok, fault, out_of_bounds, ◌>>=◌, Returns}
use bombyx.Double.{Double}
use bombyx.Bytecode.{
  Bytecode, bc_initial_size, bc_grow_size, sub32, sub64, bc_init, write, grow_if, bc_add_cmd,
  bc_add_token, bc_add_double, bc_add_string,
}

-- What is written is what stands before `bc_pos`, inside the allocation, and one more growth still
-- fits an `unsigned int`.
pub record IsSound (bc : Bytecode) : Type 0 where
  pub written : bc.bc_pos ≡ length bc.bytecode
  pub inside : bc.bc_pos ≤ bc.bc_length
  pub started : bc_initial_size ≤ bc.bc_length
  pub grows : bc.bc_length + bc_grow_size < 2 ^ 32

-- A call has appended `bs`, with one growth at most.
pub record Appends (bc : Bytecode) (bs : List ℕ) (r : Bytecode) : Type 0 where
  pub code : r.bytecode ≡ bc.bytecode ++ bs
  pub written : r.bc_pos ≡ length r.bytecode
  pub inside : r.bc_pos ≤ r.bc_length
  pub started : bc_initial_size ≤ r.bc_length
  pub capacity : (r.bc_length ≡ bc.bc_length) ⊎ (r.bc_length ≡ bc.bc_length + bc_grow_size)

abbrev after : Bytecode → ℕ → List ℕ → Bytecode
after bc cap bs = record {
  bc_pos = bc.bc_pos + length bs;
  bc_length = cap;
  bytecode = bc.bytecode ++ bs;
}

write_lem :
    (bc : Bytecode) (bs : List ℕ)
    → bc.bc_pos + length bs ≤ bc.bc_length
    → write bc bs ≡ ok (after bc bc.bc_length bs)
unfolding write
write_lem bc bs h = ground arith

pub bc_init-IsSound : IsSound bc_init
unfolding bc_init
bc_init-IsSound = omega arith

module _ {bc : Bytecode} (sound : IsSound bc) where
  -- `bc_grow` makes room for as many bytes as it adds, beyond what was there.
  grown : (full : Bool) → Bytecode
  grown full = record bc { bc_length = if full then bc.bc_length + bc_grow_size else bc.bc_length }

  grow_if_lem : (full : Bool) → grow_if full bc ≡ grown full
  unfolding grow_if grown
  grow_if_lem true = ground (arith, sound.grows)
  grow_if_lem false = refl

  -- One store of some bytes behind the test that the code makes.
  stores :
      (full : Bool) (bs : List ℕ)
      → length bs ≤ bc_grow_size
      → (full ≡ false → bc.bc_pos + length bs ≤ bc.bc_length)
      → Returns (write (grow_if full bc) bs) (Appends bc bs)
  unfolding grown
  stores full bs small fits = rw (grow_if_lem full) (
    after bc (if full then bc.bc_length + bc_grow_size else bc.bc_length) bs,
    write_lem (grown full) bs (ground (arith, fits, sound.inside)),
    record {
      code = refl;
      written = omega (arith, length-append bc.bytecode bs, sound.written);
      inside = ground (arith, fits, sound.inside);
      started = ground (arith, sound.started);
      capacity = ground arith;
    },
  )

-- Two stores in a row are one store of both.
write-write :
    (bc : Bytecode) (cs bs : List ℕ) → (write bc cs >>= λ r. write r bs) ≡ write bc (cs ++ bs)
unfolding write
write-write bc cs bs = elim (Bool-cases (leb (bc.bc_pos + length cs) bc.bc_length)) [
  | inl fits ↦
      rw (fits, length-append cs bs, add_assoc bc.bc_pos (length cs) (length bs), append_assoc) refl
  | inr full ↦ rw full (ground (arith, length-append cs bs))
]

module _ {bc : Bytecode} (sound : IsSound bc) where
  -- bc_add_cmd appends its byte inside the buffer.
  pub bc_add_cmd_lem : (cmd : ℕ) → Returns (bc_add_cmd bc cmd) (Appends bc (cmd ∷ []))
  unfolding bc_add_cmd
  bc_add_cmd_lem cmd =
      stores sound (leb bc.bc_length bc.bc_pos) (cmd ∷ []) (omega arith)
        (λ e. ground (arith, sound.inside))

  -- On a sound buffer, bc_add_token appends the length and the bytes of a token of up to 255
  -- bytes inside the buffer, which it grows at most once.
  pub bc_add_token_lem :
      (token : List ℕ)
      → length token ≤ 255
      → Returns (bc_add_token bc token) (Appends bc (length token ∷ token))
  unfolding bc_add_token
  bc_add_token_lem token small =
      let size : length token % 2 ^ 32 ≡ length token = omega arith in
      let byte : length token % 2 ^ 8 ≡ length token = omega arith in
      let full = leb (sub32 (sub32 bc.bc_length (length token)) 1) bc.bc_pos in
      rw (size, byte, write-write (grow_if full bc) (length token ∷ []) token)
        (stores sound full (length token ∷ token) (omega arith)
          (λ e. ground (arith, sound.started, sound.grows)))

  -- On a sound buffer, bc_add_double appends the eight bytes of a number inside the buffer, which
  -- it grows at most once.
  pub bc_add_double_lem :
      {D : Type 0} ⦃fl : Double D⦄ (x : D) → Returns (bc_add_double bc x) (Appends bc (fl.image x))
  unfolding bc_add_double
  bc_add_double_lem ⦃fl⦄ x =
      let eight = fl.length-image x in
      stores sound (leb (sub64 bc.bc_length 8) bc.bc_pos) (fl.image x) (omega (arith, eight))
        (λ e. ground (arith, eight, sound.started, sound.grows))

  -- On a sound buffer, bc_add_string appends two bytes of length and the string inside the
  -- buffer, which it grows at most once, if the string has at most 9998 bytes.
  pub bc_add_string_lem :
      (str : List ℕ)
      → length str ≤ 9998
      → Returns (bc_add_string bc str) (Appends bc ((length str % 256) ∷ (length str / 256) ∷ str))
  unfolding bc_add_string
  bc_add_string_lem str small =
      let size : length str % 2 ^ 16 ≡ length str = omega arith in
      let full = leb (sub64 (sub32 bc.bc_length (length str)) 2) bc.bc_pos in
      let head : List ℕ = (length str % 256) ∷ (length str / 256) ∷ [] in
      rw (size, take-length str, write-write (grow_if full bc) head str)
        (stores sound full ((length str % 256) ∷ (length str / 256) ∷ str) (omega arith)
          (λ e. ground (arith, sound.started, sound.grows)))

  -- On a sound buffer, a string of less than 2 ^ 16 bytes that with its two bytes of length is
  -- longer than the whole buffer is written past its end: the subtraction in the test wraps, and
  -- the buffer is not grown.
  pub bc_add_string-overflows :
      (str : List ℕ)
      → bc.bc_length < length str + 2
      → length str < 2 ^ 16
      → bc_add_string bc str ≡ fault out_of_bounds
  unfolding bc_add_string
  bc_add_string-overflows str big small =
      let size : length str % 2 ^ 16 ≡ length str = omega arith in
      let full = leb (sub64 (sub32 bc.bc_length (length str)) 2) bc.bc_pos in
      let head : List ℕ = (length str % 256) ∷ (length str / 256) ∷ [] in
      rw (size, take-length str, write-write (grow_if full bc) head str)
        (unfold write grow_if in ground (arith, sound.started, sound.grows))
