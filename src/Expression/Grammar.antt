-- ===== src/Expression/Grammar.antt =====
-- The language that core/expression.c accepts, but for calls, elements of arrays and maps, strings,
-- fractions, exponents and blanks: trees by the level that they stand on, the text of a tree, and
-- its code, operands first.
use bombyx.Prelude.{
  ℕ, suc, ◌+◌, ◌≡◌, Bool, true, ◌&&◌, ◌||◌, not, List, [], ◌∷◌, ◌++◌, ltb, ◌==◌, length,
}
use bombyx.Ctype.{is_digit, is_alpha}
use bombyx.Double.{Double}
use bombyx.Table.{same_name}
use bombyx.Bytecode.Opcodes.{
  bco_as_double, bco_as_var, bco_invert, bco_pow, bco_mul, bco_div, bco_mod, bco_unary_minus,
  bco_add, bco_sub, bco_less, bco_more, bco_less_eq, bco_more_eq, bco_cmp, bco_cmp_not, bco_set,
  bco_and, bco_or,
}
use bombyx.Expression.Atom.{is_word, word_void}

-- The test holds for all of the list.
abbrev pub all : (ℕ → Bool) → List ℕ → Bool
all test [] = true
all test (c ∷ cs) = test c && all test cs

-- digits, and what a token has room for
abbrev pub is_number : ℕ → List ℕ → Bool
is_number c cs = is_digit c && (all is_digit cs && ltb (length (c ∷ cs)) 256)

-- a name, other than "_" alone
abbrev pub is_variable : ℕ → List ℕ → Bool
is_variable c cs =
    (is_alpha c || c == b'_')
    && (all is_word cs && (ltb (length (c ∷ cs)) 256 && not (same_name (c ∷ cs) word_void)))

pub data Rank : Type 0 where
  atom signed powers products sums compared equated all_of any_of : Rank

pub data Operator : Rank → Type 0 where
  times over modulo : Operator products
  plus minus : Operator sums
  below above below_or_equal above_or_equal : Operator compared
  equal different assign : Operator equated

pub data Tree : Rank → Type 0 where
  number : (c : ℕ) (cs : List ℕ) → is_number c cs ≡ true → Tree atom
  variable : (c : ℕ) (cs : List ℕ) → is_variable c cs ≡ true → Tree atom
  group : Tree any_of → Tree atom
  unsigned : Tree atom → Tree signed
  invert : Tree atom → Tree signed
  base : Tree signed → Tree powers
  raise : Tree signed → Tree powers → Tree powers
  factor : Tree powers → Tree products
  multiply : Operator products → Tree products → Tree powers → Tree products
  summand : Tree products → Tree sums
  negate : Tree products → Tree sums
  add : Operator sums → Tree sums → Tree products → Tree sums
  side : Tree sums → Tree compared
  compare : Operator compared → Tree sums → Tree sums → Tree compared
  value : Tree compared → Tree equated
  equate : Operator equated → Tree compared → Tree compared → Tree equated
  conjunct : Tree equated → Tree all_of
  conjoin : Tree all_of → Tree equated → Tree all_of
  disjunct : Tree all_of → Tree any_of
  disjoin : Tree any_of → Tree all_of → Tree any_of

abbrev pub symbol : {r : Rank} → Operator r → List ℕ → List ℕ
symbol times s = b'*' ∷ s
symbol over s = b'/' ∷ s
symbol modulo s = b'%' ∷ s
symbol plus s = b'+' ∷ s
symbol minus s = b'-' ∷ s
symbol below s = b'<' ∷ s
symbol above s = b'>' ∷ s
symbol below_or_equal s = b'<' ∷ b'=' ∷ s
symbol above_or_equal s = b'>' ∷ b'=' ∷ s
symbol equal s = b'=' ∷ b'=' ∷ s
symbol different s = b'!' ∷ b'=' ∷ s
symbol assign s = b'=' ∷ s

abbrev pub command : {r : Rank} → Operator r → ℕ
command times = bco_mul
command over = bco_div
command modulo = bco_mod
command plus = bco_add
command minus = bco_sub
command below = bco_less
command above = bco_more
command below_or_equal = bco_less_eq
command above_or_equal = bco_more_eq
command equal = bco_cmp
command different = bco_cmp_not
command assign = bco_set

-- The text of a tree, in front of `s`.
unfoldable pub text : {r : Rank} → Tree r → List ℕ → List ℕ
text (number c cs _) s = c ∷ cs ++ s
text (variable c cs _) s = c ∷ cs ++ s
text (group e) s = b'(' ∷ text e (b')' ∷ s)
text (unsigned e) s = text e s
text (invert e) s = b'!' ∷ text e s
text (base e) s = text e s
text (raise e e') s = text e (b'^' ∷ text e' s)
text (factor e) s = text e s
text (multiply op e e') s = text e (symbol op (text e' s))
text (summand e) s = text e s
text (negate e) s = b'-' ∷ text e s
text (add op e e') s = text e (symbol op (text e' s))
text (side e) s = text e s
text (compare op e e') s = text e (symbol op (text e' s))
text (value e) s = text e s
text (equate op e e') s = text e (symbol op (text e' s))
text (conjunct e) s = text e s
text (conjoin e e') s = text e (b'&' ∷ b'&' ∷ text e' s)
text (disjunct e) s = text e s
text (disjoin e e') s = text e (b'|' ∷ b'|' ∷ text e' s)

module _ {D : Type 0} (fl : Double D) where
  unfoldable pub code : {r : Rank} → Tree r → List ℕ
  code (number c cs _) = bco_as_double ∷ fl.image (fl.strtod (c ∷ cs))
  code (variable c cs _) = bco_as_var ∷ length (c ∷ cs) ∷ c ∷ cs
  code (group e) = code e
  code (unsigned e) = code e
  code (invert e) = code e ++ bco_invert ∷ []
  code (base e) = code e
  code (raise e e') = code e ++ (code e' ++ bco_pow ∷ [])
  code (factor e) = code e
  code (multiply op e e') = code e ++ (code e' ++ command op ∷ [])
  code (summand e) = code e
  code (negate e) = code e ++ bco_unary_minus ∷ []
  code (add op e e') = code e ++ (code e' ++ command op ∷ [])
  code (side e) = code e
  code (compare op e e') = code e ++ (code e' ++ command op ∷ [])
  code (value e) = code e
  code (equate op e e') = code e ++ (code e' ++ command op ∷ [])
  code (conjunct e) = code e
  code (conjoin e e') = code e ++ (code e' ++ bco_and ∷ [])
  code (disjunct e) = code e
  code (disjoin e e') = code e ++ (code e' ++ bco_or ∷ [])

-- How often the code is written to, and how many parentheses there are.
unfoldable pub weight : {r : Rank} → Tree r → ℕ
weight (number _ _ _) = 2
weight (variable _ _ _) = 2
weight (group e) = suc (weight e)
weight (unsigned e) = weight e
weight (invert e) = suc (weight e)
weight (base e) = weight e
weight (raise e e') = suc (weight e + weight e')
weight (factor e) = weight e
weight (multiply _ e e') = suc (weight e + weight e')
weight (summand e) = weight e
weight (negate e) = suc (weight e)
weight (add _ e e') = suc (weight e + weight e')
weight (side e) = weight e
weight (compare _ e e') = suc (weight e + weight e')
weight (value e) = weight e
weight (equate _ e e') = suc (weight e + weight e')
weight (conjunct e) = weight e
weight (conjoin e e') = suc (weight e + weight e')
weight (disjunct e) = weight e
weight (disjoin e e') = suc (weight e + weight e')
