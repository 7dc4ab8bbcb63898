-- ===== src/Tests/Sources.antt =====
-- core/larva.c at small source texts: larva_chew, the tokens, larva_digest and larva_init.
use bombyx.Prelude.{
  ℕ, ◌-◌, ◌<◌, ◌≤◌, ◌≡◌, refl, true, false, some, none, Option, List, [], ◌∷◌, ◌++◌, arith, length,
  drop, replicate, length-replicate, ◌^◌, ◌≢◌, false,
}
use bombyx.Run.{Run, ok, jump, fault, uninitialised, out_of_bounds, Returns}
use bombyx.Table.{same_name}
use bombyx.Bytecode.{Bytecode, bc_init, bc_add_cmd, bc_add_token, bc_add_double}
use bombyx.Bytecode.Bounds.{IsSound, bc_init-IsSound}
use bombyx.Expression.Grammar.{side, summand, factor, text, code, weight}
use bombyx.Expression.Levels.{parser_read_boolean_or}
use bombyx.Larva.Chew.{chew, larva_chew, skip_line, chew_round}
use bombyx.Larva.Pieces.{
  Pieces, done, byte, quote, escape, line, comment, source_text, kept_text, larva_chew-source,
}
use bombyx.Larva.Endless.{chew_endless}
use bombyx.Larva.Chewed.{ReadsOr, larva_chew-ReadsOr}
use bombyx.Larva.{skip_while}
use bombyx.Larva.Token.{
  token_string, token_loop, token_from, larva_read_token, larva_read_string_token, string_from,
  string_loop,
}
use bombyx.Larva.Reading.{cut_condition}
use bombyx.Expression.Parse.{cut_expression, parse, parse_expression}
use bombyx.Larva.Words.{
  stop, larva_read_token-word, larva_read_token-fits, larva_read_token-too_long,
}
use bombyx.Larva.Digest.{larva_digest}
use bombyx.Larva.Lines.{
  is_name, VarName, Line, declares, defines, assigns, gives_back, starts_block, tests, alternative,
  open_brace, close_brace, is_assigned, program_text, program_code, program_writes, params_text,
  params_code,
}
use bombyx.Larva.Programs.{larva_digest-code}
use bombyx.Larva.Init.{Source, insert_source, larva_init}
use bombyx.Tests.Data.{numbers}
use bombyx.Tests.Programs.{one, sum, no_cocoons}

abbrev code_of : Run Bytecode → List ℕ
code_of (ok bc) = bc.bytecode
code_of _ = []

-- The length of the code, and whether there is any.
abbrev run_length : Run Bytecode → Option ℕ
run_length (ok bc) = some bc.bc_pos
run_length _ = none

x_is : is_name b'x' [] ≡ true
unfolding same_name
x_is = refl

x_assigned : is_assigned b'x' [] ≡ true
unfolding same_name
x_assigned = refl

abbrev x : VarName
x = record { first = b'x'; others = []; is = x_is }

-- block f(x)
-- {
-- var x = 1+2*1
-- var x
-- x=1
-- if(1+2*1)
-- {
-- return(1+2*1)
-- }
-- else
-- {
-- }
-- }
abbrev small : List Line
small =
    starts_block b'f' [] refl (x ∷ [])
    ∷ open_brace
    ∷ defines x sum
    ∷ declares x
    ∷ assigns b'x' [] x_assigned (side (summand (factor one)))
    ∷ tests sum
    ∷ open_brace
    ∷ gives_back sum
    ∷ close_brace
    ∷ alternative
    ∷ open_brace
    ∷ close_brace
    ∷ close_brace
    ∷ []

larva_digest-code_example :
    Returns
      (larva_digest numbers 0 60 40 (program_text small) bc_init)
      λ r. (r.bytecode ≡ bc_init.bytecode ++ program_code numbers false small) × IsSound r
unfolding program_writes weight bc_init
larva_digest-code_example =
    larva_digest-code numbers 0 (omega arith) 60 small 40 bc_init-IsSound (omega arith)
      (omega arith) (omega arith)

small_compiles :
    code_of (larva_digest numbers 0 60 40 (program_text small) bc_init)
    ≡ program_code numbers false small
unfolding larva_digest bc_init larva_read_token token_from token_loop same_name token_string
    bc_add_cmd cut_condition parse_expression parser_read_boolean_or bc_add_double program_text
    program_code params_text text bc_add_token cut_expression parse params_code code
small_compiles = refl

-- if (1) {
-- }
abbrev guarded : List ℕ
guarded = b'i' ∷ b'f' ∷ b' ' ∷ b'(' ∷ b'1' ∷ b')' ∷ b' ' ∷ b'{' ∷ b'\n' ∷ b'}' ∷ b'\n' ∷ 0 ∷ []

-- if (1){
-- }
abbrev glued : List ℕ
glued = b'i' ∷ b'f' ∷ b' ' ∷ b'(' ∷ b'1' ∷ b')' ∷ b'{' ∷ b'\n' ∷ b'}' ∷ b'\n' ∷ 0 ∷ []

-- Without a blank before it, the brace is passed over, and the block that ends has no start.
guarded_code :
    (drop 11 (code_of (larva_digest numbers 0 12 12 guarded bc_init)) ≡ 8 ∷ 9 ∷ [])
    × (drop 11 (code_of (larva_digest numbers 0 12 12 glued bc_init)) ≡ 9 ∷ [])
unfolding larva_digest bc_init larva_read_token token_from token_loop same_name token_string
    bc_add_cmd cut_condition parse_expression parser_read_boolean_or bc_add_double
guarded_code = (refl, refl)

-- a##x##'#'\n#c
abbrev remarks : Pieces false
remarks = byte b'a' refl (
    comment b'x' [] refl
      (quote (byte b'#' refl (quote (escape b'n' (line (b'c' ∷ []) refl done))))))

larva_chew-source_example : larva_chew (source_text remarks) ≡ ok (kept_text remarks)
larva_chew-source_example = larva_chew-source remarks (unfold source_text in omega arith)

remarks_kept : kept_text remarks ≡ b'a' ∷ b'\'' ∷ b'#' ∷ b'\'' ∷ b'\n' ∷ []
unfolding kept_text
remarks_kept = refl

larva_chew-ReadsOr_example :
    ReadsOr (λ new_code. length new_code ≤ 2) (larva_chew (b'#' ∷ b'#' ∷ []))
larva_chew-ReadsOr_example = larva_chew-ReadsOr (b'#' ∷ b'#' ∷ []) (omega arith)

-- `n` times "a"
unfoldable repeated : ℕ → List ℕ
repeated n = replicate n b'a'

length-repeated : (n : ℕ) → length (repeated n) ≡ n
unfolding repeated
length-repeated n = length-replicate n b'a'

-- A text of 2^32 bytes
chew_endless_example : chew 3 (repeated (2 ^ 32)) false 0 [] ≢ ok []
chew_endless_example =
    chew_endless 3 (repeated (2 ^ 32)) [] (omega (arith, length-repeated (2 ^ 32)))

-- A comment that the text ends in is read on past it, with the zero of the text passed over.
open_comment : larva_chew (b'a' ∷ b'#' ∷ b'b' ∷ 0 ∷ []) ≡ fault out_of_bounds
unfolding larva_chew chew_round skip_line
open_comment = refl

abbrev spaced : List ℕ
spaced = b' ' ∷ b'v' ∷ b'a' ∷ b'r' ∷ b' ' ∷ 0 ∷ []

larva_read_token-word_example :
    larva_read_token 0 spaced ≡ ok (b'v' ∷ b'a' ∷ b'r' ∷ [], b' ' ∷ 0 ∷ [])
larva_read_token-word_example =
    larva_read_token-word 0 (b' ' ∷ []) b'v' (b'a' ∷ b'r' ∷ []) refl refl refl (omega arith)
      (stop b' ' (0 ∷ []) refl (omega arith))

larva_read_token-fits_example : 3 < 256
larva_read_token-fits_example =
    larva_read_token-fits 0 spaced {token = b'v' ∷ b'a' ∷ b'r' ∷ []} larva_read_token-word_example

larva_read_token-too_long_example :
    larva_read_token 0 (b'a' ∷ replicate 255 b'a' ++ (b'\n' ∷ [])) ≡ jump 1
larva_read_token-too_long_example =
    larva_read_token-too_long 0 b'a' (replicate 255 b'a') (b'\n' ∷ []) refl refl refl (omega arith)

-- A token at the end of a text without a zero lacks its last byte.
cut_token : larva_read_token 0 (b'v' ∷ b'a' ∷ b'r' ∷ []) ≡ ok (b'v' ∷ b'a' ∷ [], [])
unfolding larva_read_token skip_while token_from token_loop token_string
cut_token = refl

abbrev first_source : Source
first_source = record {
  code = b'i' ∷ b'\n' ∷ 0 ∷ [];
  code_length = 3;
  code_pos = 1;
  cocoons = no_cocoons;
  directory = [];
}

abbrev second_source : Source
second_source = record first_source { code_length = 2 }

-- include 'a'
-- include 'a'
abbrev directive : List ℕ
directive =
    b'i' ∷ b'n' ∷ b'c' ∷ b'l' ∷ b'u' ∷ b'd' ∷ b'e' ∷ b' ' ∷ b'\'' ∷ b'a' ∷ b'\'' ∷ b'\n' ∷ []

-- x=12345678
abbrev included : List ℕ
included = b'x' ∷ b'=' ∷ b'1' ∷ b'2' ∷ b'3' ∷ b'4' ∷ b'5' ∷ b'6' ∷ b'7' ∷ b'8' ∷ b'\n' ∷ []

abbrev loaded : List ℕ → Run (Source × Bytecode)
loaded code = larva_init (λ directory file. some included) (λ file. none) [] 60 [] no_cocoons code

abbrev digested : Run (Source × Bytecode) → Run Bytecode
digested (ok (s, bc)) = larva_digest numbers (length s.code - s.code_length) 40 20 s.code bc
digested (jump e) = jump e
digested (fault e) = fault e

-- One file is included and compiled. Behind a second one the text has no zero, and is read on past
-- its end.
include_once : run_length (digested (loaded (directive ++ (0 ∷ [])))) ≡ some 13
unfolding larva_digest bc_init larva_read_token token_from token_loop same_name token_string
    bc_add_cmd cut_condition parse_expression parser_read_boolean_or bc_add_double larva_init
    larva_chew chew_round insert_source larva_read_string_token string_from string_loop skip_while
    bc_add_token cut_expression parse
include_once = refl

include_twice : digested (loaded (directive ++ directive ++ (0 ∷ []))) ≡ fault uninitialised
unfolding larva_digest bc_init larva_read_token token_from token_loop same_name token_string
    bc_add_cmd cut_condition parse_expression parser_read_boolean_or bc_add_double larva_init
    larva_chew chew_round insert_source larva_read_string_token string_from string_loop skip_while
    bc_add_token cut_expression parse
include_twice = refl
