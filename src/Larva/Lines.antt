-- ===== src/Larva/Lines.antt =====
-- core/larva.c: the statements that larva_digest reads, one on a line, with their text and their code,
-- independent of it. An expression that is a statement assigns a variable; calls, values in JSON,
-- blanks but for one between words and around a `=`, and braces on the line of an `if` are in
-- larva_digest and not here.
use bombyx.Prelude.{
  ℕ, ◌+◌, ◌*◌, ◌≡◌, Bool, true, false, not, ◌&&◌, List, [], ◌∷◌, ◌++◌, ltb, length,
}
use bombyx.Double.{Double}
use bombyx.Table.{same_name}
use bombyx.Bytecode.Opcodes.{
  bco_var, bco_varx, bco_param, bco_clear_stack, bco_return, bco_block_def, bco_block_start,
  bco_block_end, bco_if, bco_while, bco_ceit, bco_else,
}
use bombyx.Expression.Grammar.{
  Tree, any_of, compared, variable, unsigned, base, factor, summand, side, equate, assign, conjunct,
  disjunct, text, code, weight, all, is_variable,
}
use bombyx.Expression.Ends.{left}
use bombyx.Larva.Reading.{is_reserved, word_use}
use bombyx.Larva.Words.{is_inner}

-- What a token has room for, without a byte that stops it.
abbrev pub is_token : ℕ → List ℕ → Bool
is_token c cs = is_inner c && (all is_inner cs && ltb (length (c ∷ cs)) 256)

-- The name of a variable that is declared, or assigned to.
abbrev pub is_name : ℕ → List ℕ → Bool
is_name c cs = is_token c cs && not (is_reserved (c ∷ cs))

abbrev pub is_assigned : ℕ → List ℕ → Bool
is_assigned c cs = is_variable c cs && (is_name c cs && not (same_name (c ∷ cs) word_use))

pub record VarName : Type 0 where
  pub first : ℕ
  pub others : List ℕ
  pub is : is_name first others ≡ true

pub data Line : Type 0 where
  declares : VarName → Line
  defines : VarName → Tree any_of → Line
  assigns : (c : ℕ) (cs : List ℕ) → is_assigned c cs ≡ true → Tree compared → Line
  gives_back : Tree any_of → Line
  starts_block : (c : ℕ) (cs : List ℕ) → is_token c cs ≡ true → List VarName → Line
  tests loops : Tree any_of → Line
  alternative open_brace close_brace : Line
  uses : (c : ℕ) (cs : List ℕ) → is_token c cs ≡ true → Line

-- A name in front of `s`.
abbrev pub named_text : VarName → List ℕ → List ℕ
named_text x s = x.first ∷ x.others ++ s

-- Names, up to the end of the line.
unfoldable pub params_text : List VarName → List ℕ → List ℕ
params_text [] s = b')' ∷ b'\n' ∷ s
params_text (x ∷ []) s = named_text x (b')' ∷ b'\n' ∷ s)
params_text (x ∷ y ∷ ps) s = named_text x (b',' ∷ params_text (y ∷ ps) s)

abbrev pub assignment :
    (c : ℕ) (cs : List ℕ) → is_variable c cs ≡ true → Tree compared → Tree any_of
assignment c cs h e =
    disjunct
      (conjunct (equate assign (side (summand (factor (base (unsigned (variable c cs h)))))) e))

unfoldable pub line_text : Line → List ℕ → List ℕ
line_text (declares x) s = b'v' ∷ b'a' ∷ b'r' ∷ b' ' ∷ named_text x (b'\n' ∷ s)
line_text (defines x e) s =
    b'v' ∷ b'a' ∷ b'r' ∷ b' ' ∷ named_text x (b' ' ∷ b'=' ∷ b' ' ∷ text e (b'\n' ∷ s))
line_text (assigns c cs _ e) s = c ∷ cs ++ b'=' ∷ text e (b'\n' ∷ s)
line_text (gives_back e) s =
    b'r' ∷ b'e' ∷ b't' ∷ b'u' ∷ b'r' ∷ b'n' ∷ b'(' ∷ text e (b')' ∷ b'\n' ∷ s)
line_text (starts_block c cs _ ps) s =
    b'b' ∷ b'l' ∷ b'o' ∷ b'c' ∷ b'k' ∷ b' ' ∷ c ∷ cs ++ b'(' ∷ params_text ps s
line_text (tests e) s = b'i' ∷ b'f' ∷ b'(' ∷ text e (b')' ∷ b'\n' ∷ s)
line_text (loops e) s = b'w' ∷ b'h' ∷ b'i' ∷ b'l' ∷ b'e' ∷ b'(' ∷ text e (b')' ∷ b'\n' ∷ s)
line_text alternative s = b'e' ∷ b'l' ∷ b's' ∷ b'e' ∷ b'\n' ∷ s
line_text open_brace s = b'{' ∷ b'\n' ∷ s
line_text close_brace s = b'}' ∷ b'\n' ∷ s
line_text (uses c cs _) s = b'u' ∷ b's' ∷ b'e' ∷ b' ' ∷ c ∷ cs ++ b'\n' ∷ s

-- The length of a token, and the token.
abbrev pub token_code : ℕ → List ℕ → List ℕ
token_code c cs = length (c ∷ cs) ∷ c ∷ cs

unfoldable pub params_code : List VarName → List ℕ
params_code [] = []
params_code (x ∷ ps) = bco_param ∷ token_code x.first x.others ++ params_code ps

module _ {D : Type 0} (fl : Double D) where
  -- The brace of a block has its code at the name of the block.
  unfoldable pub line_code : Bool → Line → List ℕ
  line_code expect_block (declares x) = bco_var ∷ token_code x.first x.others
  line_code expect_block (defines x e) = code fl e ++ bco_varx ∷ token_code x.first x.others
  line_code expect_block (assigns c cs h e) =
      code fl (assignment c cs (left (is_variable c cs) _ h) e)
  line_code expect_block (gives_back e) = bco_clear_stack ∷ code fl e ++ bco_return ∷ []
  line_code expect_block (starts_block c cs _ ps) =
      bco_block_def ∷ token_code c cs ++ bco_block_start ∷ params_code ps
  line_code expect_block (tests e) = bco_if ∷ code fl e ++ bco_ceit ∷ []
  line_code expect_block (loops e) = bco_while ∷ code fl e ++ bco_ceit ∷ []
  line_code expect_block alternative = bco_else ∷ []
  line_code true open_brace = []
  line_code false open_brace = bco_block_start ∷ []
  line_code expect_block close_brace = bco_block_end ∷ []
  line_code expect_block (uses _ _ _) = []

-- Whether a block is behind its name and its parameters, and before its brace.
abbrev pub expects_behind : Bool → Line → Bool
expects_behind expect_block (starts_block _ _ _ _) = true
expects_behind expect_block open_brace = false
expects_behind expect_block _ = expect_block

-- How often the code is written to.
abbrev pub line_writes : Line → ℕ
line_writes (declares _) = 2
line_writes (defines _ e) = weight e + 2
line_writes (assigns _ _ _ e) = 3 + weight e
line_writes (gives_back e) = 3 + weight e
line_writes (starts_block _ _ _ ps) = 3 + 2 * length ps
line_writes (tests e) = 3 + weight e
line_writes (loops e) = 3 + weight e
line_writes alternative = 1
line_writes open_brace = 1
line_writes close_brace = 1
line_writes (uses _ _ _) = 0

-- A program ends with a zero.
unfoldable pub program_text : List Line → List ℕ
unfolding line_text
program_text [] = 0 ∷ []
program_text (l ∷ p) = line_text l (program_text p)

unfoldable pub program_writes : List Line → ℕ
program_writes [] = 0
program_writes (l ∷ p) = line_writes l + program_writes p

unfoldable pub program_code : {D : Type 0} → Double D → Bool → List Line → List ℕ
unfolding line_code
program_code fl expect_block [] = []
program_code fl expect_block (l ∷ p) =
    line_code fl expect_block l ++ program_code fl (expects_behind expect_block l) p
