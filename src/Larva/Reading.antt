-- ===== src/Larva/Reading.antt =====
-- core/larva.c: what larva_digest reads of the source text, before it writes code.
use bombyx.Prelude.{ℕ, ◌+◌, Bool, ◌&&◌, ◌||◌, List, [], ◌∷◌, ◌++◌, ltb, ◌==◌, if◌then◌else◌}
use bombyx.Run.{Run, ok, jump, fault, uninitialised}
use bombyx.Table.{same_name}
use bombyx.Expression.{Parser}
use bombyx.Larva.{skip_while}
use bombyx.Larva.Token.{larva_read_token, level_down}

abbrev pub word_var : List ℕ
word_var = b'v' ∷ b'a' ∷ b'r' ∷ []

abbrev pub word_return : List ℕ
word_return = b'r' ∷ b'e' ∷ b't' ∷ b'u' ∷ b'r' ∷ b'n' ∷ []

abbrev pub word_block : List ℕ
word_block = b'b' ∷ b'l' ∷ b'o' ∷ b'c' ∷ b'k' ∷ []

abbrev pub word_if : List ℕ
word_if = b'i' ∷ b'f' ∷ []

abbrev pub word_while : List ℕ
word_while = b'w' ∷ b'h' ∷ b'i' ∷ b'l' ∷ b'e' ∷ []

abbrev pub word_else : List ℕ
word_else = b'e' ∷ b'l' ∷ b's' ∷ b'e' ∷ []

abbrev pub word_use : List ℕ
word_use = b'u' ∷ b's' ∷ b'e' ∷ []

-- What may not be the name of a variable.
abbrev pub is_reserved : List ℕ → Bool
is_reserved token =
    same_name token word_if
    || (same_name token word_else
        || (same_name token word_var
            || (same_name token word_block
                || (same_name token word_return || same_name token word_while))))

unfoldable pub next_token : ℕ → Parser (List ℕ)
next_token spare pd = elim (larva_read_token spare pd.rest) [
  | ok (token, rest) ↦ ok (token, record pd { rest = rest })
  | jump e ↦ jump e
  | fault e ↦ fault e
]

-- skip spaces
unfoldable pub skip_blanks : Parser (Unit {0})
unfolding skip_while
skip_blanks pd = ok (tt, record pd { rest = skip_while (λ c. c == b' ') pd.rest })

-- `env->code_pos = line_start`
abbrev pub go_back : List ℕ → Parser (Unit {0})
go_back line_start pd = ok (tt, record pd { rest = line_start })

-- More bytes before what was cut out.
abbrev pub prepend : List ℕ → Run (List ℕ × List ℕ) → Run (List ℕ × List ℕ)
prepend cs (ok (cs', rest)) = ok (cs ++ cs', rest)
prepend cs (jump e) = jump e
prepend cs (fault e) = fault e

-- The bytes up to a zero, the end of the line or a closing parenthesis; the text from there on.
unfoldable pub cut_json : List ℕ → Run (List ℕ × List ℕ)
cut_json [] = fault uninitialised
cut_json (c ∷ code) =
    let more = prepend (c ∷ []) (cut_json code) in
    if c == 0 || (c == b'\n' || (c == 13 || c == b')')) then ok ([], c ∷ code) else more

unfoldable pub read_json : Parser (List ℕ)
unfolding cut_json
read_json pd = elim (cut_json pd.rest) [
  | ok (cs, rest) ↦ ok (cs, record pd { rest = rest })
  | jump e ↦ jump e
  | fault e ↦ fault e
]

-- The expression behind `if` and `while`, up to the parenthesis that closes it, or to a zero.
unfoldable pub cut_condition : ℕ → List ℕ → Run (List ℕ × List ℕ)
cut_condition level [] = fault uninitialised
cut_condition level (c ∷ code) =
    let level' =
      if c == b'(' then level + 1 else if c == b')' then level_down 64 level else level in
    let more = prepend (c ∷ []) (cut_condition level' code) in
    if c == 0
    then ok ([], c ∷ code)
    else if c == b')' && ltb level' 1
    then ok (c ∷ [], code)
    else more
