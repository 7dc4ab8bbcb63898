-- ===== src/Bytecode/Roundtrip.antt =====
-- What the compiler writes (core/bytecode.c) is what the interpreter reads (core/larva_silk.c),
-- whatever code follows, and skip mode passes over just as much.
use bombyx.Prelude.{
  ℕ, ◌+◌, ◌*◌, ◌/◌, ◌%◌, ◌≤◌, ◌≡◌, refl, some, List, [], ◌∷◌, ◌++◌, arith, ap, lt→ltb, length,
  get_elem?, take, drop, length-append, take-length-append, drop-length-append,
}
use mathlib.Core.List.{append_assoc}
use bombyx.Run.{ok, Returns}
use bombyx.Double.{Double}
use bombyx.Bytecode.{Bytecode, bc_add_token, bc_add_double, bc_add_string}
use bombyx.Bytecode.Bounds.{IsSound, bc_add_token_lem, bc_add_double_lem, bc_add_string_lem}
use bombyx.Bytecode.Reader.{
  read_byte, read_bytes, read_token, read_string, read_double, skip_token, skip_double,
}

drop-append : (pre rest : List ℕ) (p : ℕ) → p ≡ length pre → drop p (pre ++ rest) ≡ rest
drop-append pre rest p e = rw e (drop-length-append pre rest)

get_elem?-append :
    (pre rest : List ℕ) (b p : ℕ) → p ≡ length pre → get_elem? (pre ++ b ∷ rest) p ≡ some b
get_elem?-append pre rest b p e = rw e (at pre)
  where
    at : (pre : List ℕ) → get_elem? (pre ++ b ∷ rest) (length pre) ≡ some b
    at [] = refl
    at (x ∷ pre) = at pre

-- A position in finished code, before which `pre` stands.
abbrev pub at_position : Bytecode → ℕ → List ℕ → Bytecode
at_position bc p code = record bc { bc_pos = p; bytecode = code }

module _ (bc : Bytecode) (code : List ℕ) where
  read_byte_lem :
      (pre rest : List ℕ) (b p : ℕ)
      → code ≡ pre ++ b ∷ rest
      → p ≡ length pre
      → read_byte (at_position bc p code) ≡ ok (b, at_position bc (p + 1) code)
  unfolding read_byte
  read_byte_lem pre rest b p e here =
      let found : get_elem? code p ≡ some b = rw e (get_elem?-append pre rest b p here) in
      rw (found, read_byte) refl

  read_bytes_lem :
      (pre bs rest : List ℕ) (p : ℕ)
      → code ≡ pre ++ (bs ++ rest)
      → p ≡ length pre
      → read_bytes (at_position bc p code) (length bs)
        ≡ ok (bs, at_position bc (p + length bs) code)
  unfolding read_bytes
  read_bytes_lem pre bs rest p e here =
      let found : take (length bs) (drop p code) ≡ bs =
        rw (e, drop-append pre (bs ++ rest) p here) (take-length-append bs rest) in
      rw found (ground (arith, ap length e, length-append pre (bs ++ rest), length-append bs rest))

  -- One more byte of the code lies behind.
  snoc : (pre rest : List ℕ) (b : ℕ) → code ≡ pre ++ b ∷ rest → code ≡ (pre ++ b ∷ []) ++ rest
  snoc pre rest b e = rw append_assoc e

  length-snoc : (pre : List ℕ) (b p : ℕ) → p ≡ length pre → p + 1 ≡ length (pre ++ b ∷ [])
  length-snoc pre b p here = omega (arith, length-append pre (b ∷ []))

  pub read_token_lem :
      (pre token rest : List ℕ) (p : ℕ)
      → code ≡ pre ++ length token ∷ (token ++ rest)
      → p ≡ length pre
      → length token ≤ 255
      → read_token (at_position bc p code) ≡ ok (token, at_position bc (p + 1 + length token) code)
  unfolding read_token
  read_token_lem pre token rest p e here small =
      rw
        (
          read_byte_lem pre (token ++ rest) (length token) p e here,
          lt→ltb (length token) 256 (omega arith),
        )
        (read_bytes_lem (pre ++ length token ∷ []) token rest (p + 1)
          (snoc pre (token ++ rest) (length token) e) (length-snoc pre (length token) p here))

  pub skip_token_lem :
      (pre token rest : List ℕ) (p : ℕ)
      → code ≡ pre ++ length token ∷ (token ++ rest)
      → p ≡ length pre
      → skip_token (at_position bc p code) ≡ ok (at_position bc (p + 1 + length token) code)
  unfolding skip_token
  skip_token_lem pre token rest p e here =
      rw (read_byte_lem pre (token ++ rest) (length token) p e here) refl

  pub read_string_lem :
      (pre str rest : List ℕ) (p : ℕ)
      → code ≡ pre ++ (length str % 256) ∷ ((length str / 256) ∷ (str ++ rest))
      → p ≡ length pre
      → length str ≤ 255
      → read_string (at_position bc p code) ≡ ok (str, at_position bc (p + 1 + 1 + length str) code)
  unfolding read_string
  read_string_lem pre str rest p e here small =
      let size : length str % 256 + length str / 256 * 256 ≡ length str = omega arith in
      let e' = snoc pre ((length str / 256) ∷ (str ++ rest)) (length str % 256) e in
      let here' = length-snoc pre (length str % 256) p here in
      let pre' : List ℕ = pre ++ (length str % 256) ∷ [] in
      rw
        (
          read_byte_lem pre ((length str / 256) ∷ (str ++ rest)) (length str % 256) p e here,
          read_byte_lem pre' (str ++ rest) (length str / 256) (p + 1) e' here',
          size,
          lt→ltb (length str) 256 (omega arith),
        )
        (read_bytes_lem (pre' ++ (length str / 256) ∷ []) str rest (p + 1 + 1)
          (snoc pre' (str ++ rest) (length str / 256) e')
          (length-snoc pre' (length str / 256) (p + 1) here'))

  pub read_double_lem :
      {D : Type 0} ⦃fl : Double D⦄ (pre rest : List ℕ) (x : D) (p : ℕ)
      → code ≡ pre ++ (fl.image x ++ rest)
      → p ≡ length pre
      → read_double (at_position bc p code) ≡ ok (x, at_position bc (p + 8) code)
  unfolding read_double
  read_double_lem ⦃fl⦄ pre rest x p e here =
      let got = rw (fl.length-image x) at (read_bytes_lem pre (fl.image x) rest p e here) in
      rw (got, fl.of_image-image x) refl

-- A position of the finished code, which holds what the compiler wrote up to `r` and `rest` behind.
abbrev pub finished : Bytecode → List ℕ → ℕ → Bytecode
finished r rest p = at_position r p (r.bytecode ++ rest)

module _ {bc : Bytecode} (sound : IsSound bc) where
  -- On a sound buffer, a token of up to 255 bytes that bc_add_token writes is read back from the
  -- place where it was written, whatever code follows; reading and skipping it end where the
  -- writing ended.
  pub read_token-bc_add_token :
      (token rest : List ℕ)
      → length token ≤ 255
      → Returns (bc_add_token bc token) λ r.
        (read_token (finished r rest bc.bc_pos) ≡ ok (token, finished r rest r.bc_pos))
        × (skip_token (finished r rest bc.bc_pos) ≡ ok (finished r rest r.bc_pos))
  read_token-bc_add_token token rest small =
      let (r, run, a) = bc_add_token_lem sound token small in
      let code : r.bytecode ++ rest ≡ bc.bytecode ++ length token ∷ (token ++ rest) =
        rw a.code (append_assoc bc.bytecode (length token ∷ token) rest) in
      let ends : bc.bc_pos + 1 + length token ≡ r.bc_pos = omega (
        arith,
        sound.written,
        a.written,
        ap length a.code,
        length-append bc.bytecode (length token ∷ token),
      ) in
      (
        r,
        run,
        (
          rw ends at (
              read_token_lem r (r.bytecode ++ rest) bc.bytecode token rest bc.bc_pos code
                sound.written small),
          rw ends at (
              skip_token_lem r (r.bytecode ++ rest) bc.bytecode token rest bc.bc_pos code
                sound.written),
        ),
      )

  -- On a sound buffer, a string of up to 255 bytes that bc_add_string writes is read back from
  -- the place where it was written, whatever code follows; reading it ends where the writing
  -- ended.
  pub read_string-bc_add_string :
      (str rest : List ℕ)
      → length str ≤ 255
      → Returns
          (bc_add_string bc str)
          λ r. read_string (finished r rest bc.bc_pos) ≡ ok (str, finished r rest r.bc_pos)
  read_string-bc_add_string str rest small =
      let (r, run, a) = bc_add_string_lem sound str (omega arith) in
      let head : List ℕ = (length str % 256) ∷ (length str / 256) ∷ str in
      let code : r.bytecode ++ rest
          ≡ bc.bytecode ++ (length str % 256) ∷ ((length str / 256) ∷ (str ++ rest)) =
        rw a.code (append_assoc bc.bytecode head rest) in
      let ends : bc.bc_pos + 1 + 1 + length str ≡ r.bc_pos =
        omega (arith, sound.written, a.written, ap length a.code, length-append bc.bytecode head) in
      (
        r,
        run,
        rw ends at (
            read_string_lem r (r.bytecode ++ rest) bc.bytecode str rest bc.bc_pos code sound.written
              small),
      )

  -- On a sound buffer, a number that bc_add_double writes is read back from the place where it
  -- was written, whatever code follows; reading and skipping it end where the writing ended.
  pub read_double-bc_add_double :
      {D : Type 0} ⦃fl : Double D⦄ (x : D) (rest : List ℕ)
      → Returns (bc_add_double bc x) λ r.
        (read_double (finished r rest bc.bc_pos) ≡ ok (x, finished r rest r.bc_pos))
        × (skip_double (finished r rest bc.bc_pos) ≡ finished r rest r.bc_pos)
  unfolding skip_double
  read_double-bc_add_double ⦃fl⦄ x rest =
      let (r, run, a) = bc_add_double_lem sound x in
      let code : r.bytecode ++ rest ≡ bc.bytecode ++ (fl.image x ++ rest) =
        rw a.code (append_assoc bc.bytecode (fl.image x) rest) in
      let ends : bc.bc_pos + 8 ≡ r.bc_pos = omega (
        arith,
        sound.written,
        a.written,
        ap length a.code,
        length-append bc.bytecode (fl.image x),
        fl.length-image x,
      ) in
      (
        r,
        run,
        (
          rw ends at (
              read_double_lem r (r.bytecode ++ rest) bc.bytecode rest x bc.bc_pos code
                sound.written),
          rw ends refl,
        ),
      )
