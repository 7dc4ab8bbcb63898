-- ===== src/Expression/Texts.antt =====
-- The grammar of core/expression.c: the text of a tree in front of what follows, and its length.
use bombyx.Prelude.{
  ℕ, suc, ◌+◌, ◌*◌, ◌≡◌, ◌≤◌, refl, ap, List, ◌∷◌, ◌++◌, arith, length, length-append,
}
use mathlib.Core.List.{append_assoc}
use bombyx.Expression.Grammar.{
  Rank, Operator, times, over, modulo, plus, minus, below, above, below_or_equal, above_or_equal,
  equal, different, assign, symbol, Tree, number, variable, group, unsigned, invert, base, raise,
  factor, multiply, summand, negate, add, side, compare, value, equate, conjunct, conjoin, disjunct,
  disjoin, text, weight,
}

symbol-append : {r : Rank} (op : Operator r) (s u : List ℕ) → symbol op s ++ u ≡ symbol op (s ++ u)
symbol-append times s u = refl
symbol-append over s u = refl
symbol-append modulo s u = refl
symbol-append plus s u = refl
symbol-append minus s u = refl
symbol-append below s u = refl
symbol-append above s u = refl
symbol-append below_or_equal s u = refl
symbol-append above_or_equal s u = refl
symbol-append equal s u = refl
symbol-append different s u = refl
symbol-append assign s u = refl

pub text-append : {r : Rank} (e : Tree r) (s u : List ℕ) → text e s ++ u ≡ text e (s ++ u)
unfolding text
text-append (number c cs h) s u = ap (λ t. c ∷ t) (append_assoc cs s u)
text-append (variable c cs h) s u = ap (λ t. c ∷ t) (append_assoc cs s u)
text-append (group e) s u = ap (λ t. b'(' ∷ t) (text-append e (b')' ∷ s) u)
text-append (unsigned e) s u = text-append e s u
text-append (invert e) s u = ap (λ t. b'!' ∷ t) (text-append e s u)
text-append (base e) s u = text-append e s u
text-append (raise e e') s u = rw (text-append e (b'^' ∷ text e' s) u, text-append e' s u) refl
text-append (factor e) s u = text-append e s u
text-append (multiply op e e') s u =
    rw (text-append e (symbol op (text e' s)) u, symbol-append op (text e' s) u, text-append e' s u)
      refl
text-append (summand e) s u = text-append e s u
text-append (negate e) s u = ap (λ t. b'-' ∷ t) (text-append e s u)
text-append (add op e e') s u =
    rw (text-append e (symbol op (text e' s)) u, symbol-append op (text e' s) u, text-append e' s u)
      refl
text-append (side e) s u = text-append e s u
text-append (compare op e e') s u =
    rw (text-append e (symbol op (text e' s)) u, symbol-append op (text e' s) u, text-append e' s u)
      refl
text-append (value e) s u = text-append e s u
text-append (equate op e e') s u =
    rw (text-append e (symbol op (text e' s)) u, symbol-append op (text e' s) u, text-append e' s u)
      refl
text-append (conjunct e) s u = text-append e s u
text-append (conjoin e e') s u =
    rw (text-append e (b'&' ∷ b'&' ∷ text e' s) u, text-append e' s u) refl
text-append (disjunct e) s u = text-append e s u
text-append (disjoin e e') s u =
    rw (text-append e (b'|' ∷ b'|' ∷ text e' s) u, text-append e' s u) refl

symbol-length : {r : Rank} (op : Operator r) (s : List ℕ) → suc (length s) ≤ length (symbol op s)
symbol-length times s = omega arith
symbol-length over s = omega arith
symbol-length modulo s = omega arith
symbol-length plus s = omega arith
symbol-length minus s = omega arith
symbol-length below s = omega arith
symbol-length above s = omega arith
symbol-length below_or_equal s = omega arith
symbol-length above_or_equal s = omega arith
symbol-length equal s = omega arith
symbol-length different s = omega arith
symbol-length assign s = omega arith

-- The weight is at most two for each byte of the text.
pub weight-text :
    {r : Rank} (e : Tree r) (s : List ℕ) → weight e + 2 * length s ≤ 2 * length (text e s)
unfolding text weight
weight-text (number c cs h) s = omega (arith, length-append cs s)
weight-text (variable c cs h) s = omega (arith, length-append cs s)
weight-text (group e) s = omega (arith, weight-text e (b')' ∷ s))
weight-text (unsigned e) s = weight-text e s
weight-text (invert e) s = omega (arith, weight-text e s)
weight-text (base e) s = weight-text e s
weight-text (raise e e') s = omega (arith, weight-text e (b'^' ∷ text e' s), weight-text e' s)
weight-text (factor e) s = weight-text e s
weight-text (multiply op e e') s =
    omega
      (arith, weight-text e (symbol op (text e' s)), symbol-length op (text e' s), weight-text e' s)
weight-text (summand e) s = weight-text e s
weight-text (negate e) s = omega (arith, weight-text e s)
weight-text (add op e e') s =
    omega
      (arith, weight-text e (symbol op (text e' s)), symbol-length op (text e' s), weight-text e' s)
weight-text (side e) s = weight-text e s
weight-text (compare op e e') s =
    omega
      (arith, weight-text e (symbol op (text e' s)), symbol-length op (text e' s), weight-text e' s)
weight-text (value e) s = weight-text e s
weight-text (equate op e e') s =
    omega
      (arith, weight-text e (symbol op (text e' s)), symbol-length op (text e' s), weight-text e' s)
weight-text (conjunct e) s = weight-text e s
weight-text (conjoin e e') s =
    omega (arith, weight-text e (b'&' ∷ b'&' ∷ text e' s), weight-text e' s)
weight-text (disjunct e) s = weight-text e s
weight-text (disjoin e e') s =
    omega (arith, weight-text e (b'|' ∷ b'|' ∷ text e' s), weight-text e' s)
