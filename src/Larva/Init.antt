-- ===== src/Larva/Init.antt =====
-- core/larva.c: larva_init, which puts the files of `include` into the source text and loads the
-- cocoons of `use`. What a file holds in a working directory, and dlopen, are arguments.
use bombyx.Prelude.{
  ℕ, zero, suc, ◌+◌, ◌-◌, not, ◌&&◌, Option, none, some, List, [], ◌∷◌, ◌++◌, ltb, ◌==◌,
  if◌then◌else◌, length, get_or, take, drop,
}
use bombyx.Run.{Run, ok, jump, fault, out_of_bounds, too_deep, ◌>>=◌}
use bombyx.Table.{same_name}
use bombyx.Bytecode.{Bytecode, bc_init}
use bombyx.Cocoon.{CocoonTable, cocoon_add}
use bombyx.Larva.Chew.{larva_chew}
use bombyx.Larva.Token.{larva_read_token, larva_read_string_token}
use bombyx.Larva.Reading.{word_use}

-- `code_length` bytes of `code` are the text; an `include` leaves one more that stays behind them.
pub record Source : Type 0 where
  pub code : List ℕ
  pub code_length : ℕ
  pub code_pos : ℕ
  pub cocoons : CocoonTable
  -- the working directory, in which the names of files are read
  pub directory : List ℕ

abbrev pub spare : Source → ℕ
spare s = length s.code - s.code_length

abbrev pub word_include : List ℕ
word_include = b'i' ∷ b'n' ∷ b'c' ∷ b'l' ∷ b'u' ∷ b'd' ∷ b'e' ∷ []

-- The chewed file stands for the text from the start of the line on, behind a new line, and the text
-- from `code_pos` up to `code_length` behind it. `code_pos` is not moved along.
abbrev pub spliced : ℕ → List ℕ → Source → Source
spliced line_start source s = record s {
  code = take line_start s.code ++ (b'\n' ∷ source ++ drop s.code_pos (take s.code_length s.code));
  code_length = s.code_length + length source - (s.code_pos - line_start);
}

unfoldable pub insert_source : ℕ → List ℕ → Source → Run Source
insert_source line_start source s =
    if ltb s.code_length s.code_pos then fault out_of_bounds else ok (spliced line_start source s)

-- In the middle of a line, one byte is passed over.
unfoldable pub start_round : Source → Source
start_round s =
    let before = get_or s.code (s.code_pos - 1) 0 in
    if not (s.code_pos == 0) && (not (before == 13) && not (before == 10))
    then record s { code_pos = s.code_pos + 1 }
    else s

unfoldable pub read_token_at : Source → Run (List ℕ × Source)
unfolding larva_read_token
read_token_at s = larva_read_token (spare s) (drop s.code_pos s.code) >>= λ (token, rest).
    ok (token, record s { code_pos = length s.code - length rest })

unfoldable pub read_string_at : Source → Run (List ℕ × Source)
unfolding larva_read_string_token
read_string_at s = larva_read_string_token (spare s) (drop s.code_pos s.code) >>= λ (token, moved).
    ok (token, record s { code_pos = s.code_pos + moved })

module _ (contents : List ℕ → List ℕ → Option (List ℕ)) (dlopen : List ℕ → Option ℕ)
    (dir_home : List ℕ) where
  unfoldable pub init_include : ℕ → Source → Run Source
  unfolding read_string_at insert_source larva_chew
  init_include line_start s = read_string_at s >>= λ (token, s').
      elim (contents s'.directory token) [
        | none ↦ jump 1
        | some file ↦ larva_chew file >>= λ source. insert_source line_start source s'
      ]

  unfoldable pub init_use : Source → Run Source
  unfolding read_token_at cocoon_add
  init_use s = read_token_at s >>= λ (token, s').
      cocoon_add dlopen dir_home s'.directory s'.cocoons token >>= λ (_, (cocoons, directory)).
      ok (record s' { cocoons = cocoons; directory = directory })

  unfoldable pub init_token : ℕ → List ℕ → Source → Run Source
  unfolding init_include init_use
  init_token line_start token s =
      if same_name token word_include
      then init_include line_start s
      else if same_name token word_use
      then init_use s
      else ok s

  unfoldable pub init_round : Source → Run Source
  unfolding start_round read_token_at init_token
  init_round s = read_token_at (start_round s) >>= λ (token, s').
      init_token s.code_pos token s' >>= λ s''. ok (record s'' { code_pos = s''.code_pos + 1 })

  -- The loop, at most `rounds` times.
  unfoldable pub init_loop : ℕ → Source → Run Source
  unfolding init_round
  init_loop zero s = if ltb s.code_pos s.code_length then fault too_deep else ok s
  init_loop (suc rounds) s =
      if ltb s.code_pos s.code_length then init_round s >>= init_loop rounds else ok s

  -- The source and the empty buffer of instructions.
  unfoldable pub larva_init : ℕ → List ℕ → CocoonTable → List ℕ → Run (Source × Bytecode)
  unfolding init_loop larva_chew bc_init
  larva_init rounds directory cocoons incoming_code = larva_chew incoming_code >>= λ code.
      init_loop rounds (record {
        code = code;
        code_length = length code;
        code_pos = 0;
        cocoons = cocoons;
        directory = directory;
      })
      >>= λ s. ok (s, bc_init)
