-- ===== src/Larva/Token.antt =====
-- core/larva.c: larva_read_token, larva_read_string_token and larva_skip_block.
use bombyx.Prelude.{
  ℕ, suc, ◌+◌, ◌-◌, ◌^◌, Bool, ◌||◌, List, [], ◌∷◌, ltb, leb, ◌==◌, if◌then◌else◌, length, take,
  drop,
}
use bombyx.Ctype.{is_space}
use bombyx.Run.{Run, ok, jump, fault, uninitialised, ◌>>=◌}
use bombyx.Bytecode.Reader.{parser_max_token_size}
use bombyx.Larva.{skip_while}

-- The C string that stands in some bytes with a zero behind them.
unfoldable pub token_string : List ℕ → List ℕ
token_string [] = []
token_string (c ∷ cs) = let more = token_string cs in if c == 0 then [] else c ∷ more

-- either it's a function call or just a command
abbrev pub stops : ℕ → Bool
stops c =
    c == b'('
    || (c == b')' || (c == b',' || (c == b'=' || (is_space c || (c == b'{' || c == b'}')))))

-- `spare` bytes of the text stand at `code_length` and behind it: none, or the zero alone.
module _ (spare : ℕ) where
  -- The loop behind the first byte: `token_pos`, and the text that is left. At `code_length` the last
  -- byte is not counted.
  unfoldable pub token_loop : ℕ → List ℕ → Run (ℕ × List ℕ)
  token_loop token_pos [] = ok (token_pos, [])
  token_loop token_pos (c ∷ code) =
      let more = token_loop (suc token_pos) code in
      if leb (length (c ∷ code)) spare
      then ok (token_pos, c ∷ code)
      else if suc token_pos == parser_max_token_size
      then jump 1
      else if stops c
      then ok (suc token_pos, c ∷ code)
      else more

  unfoldable pub token_from : List ℕ → Run (List ℕ × List ℕ)
  token_from [] = fault uninitialised
  token_from (c ∷ code) =
      token_loop 0 code >>= λ (token_pos, rest). ok (token_string (take token_pos (c ∷ code)), rest)

  unfoldable pub larva_read_token : List ℕ → Run (List ℕ × List ℕ)
  larva_read_token code = token_from (skip_while is_space code)

  -- The loop behind the first byte of the string: `token_pos`, and the position counted from that
  -- byte. Without a quote, the loop stops at `code_length`.
  unfoldable pub string_loop : ℕ → List ℕ → Run (ℕ × ℕ)
  string_loop token_pos [] = ok (token_pos, suc token_pos)
  string_loop token_pos (c ∷ code) =
      let more = string_loop (suc token_pos) code in
      if leb (length (c ∷ code)) spare
      then ok (token_pos, suc token_pos)
      else if suc token_pos == parser_max_token_size
      then jump 1
      else if c == b'\''
      then ok (suc token_pos, suc token_pos)
      else if c == 13
      then jump 1
      else more

  unfoldable pub string_from : List ℕ → Run (List ℕ × ℕ)
  unfolding string_loop token_string
  string_from [] = fault uninitialised
  string_from (q ∷ code) =
      if q == b'\''
      then (string_loop 0 (drop 1 code) >>= λ (token_pos, behind).
          ok (token_string (take token_pos code), behind + 2))
      else jump 1

  -- The token, and how far `code_pos` is moved, which may be past the end of the code.
  unfoldable pub larva_read_string_token : List ℕ → Run (List ℕ × ℕ)
  unfolding skip_while string_from
  larva_read_string_token code =
      let text = skip_while is_space code in
      string_from text >>= λ (token, moved). ok (token, (length code - length text) + moved)

-- `--level` on an unsigned type of some bits
abbrev pub level_down : ℕ → ℕ → ℕ
level_down bits level = if level == 0 then 2 ^ bits - 1 else level - 1

unfoldable pub skip_block : ℕ → List ℕ → Run (List ℕ)
skip_block level [] = fault uninitialised
skip_block level (c ∷ code) =
    let level' =
      if c == b'{' then level + 1 else if c == b'}' then level_down 32 level else level in
    let more = skip_block level' code in
    if c == 0
    then ok (c ∷ code)
    else if c == b'}'
    then (if ltb level' 1 then ok code else more)
    else more

unfoldable pub larva_skip_block : List ℕ → Run (List ℕ)
unfolding skip_block
larva_skip_block code = skip_block 0 code
