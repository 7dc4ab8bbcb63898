-- ===== src/Expression/Ends.antt =====
-- core/expression.c: which byte may follow a tree of the grammar, and which may begin one.
use bombyx.Prelude.{
  ℕ, ◌≡◌, refl, Bool, true, false, ◌&&◌, ◌||◌, not, List, [], ◌∷◌, ◌++◌, arith, ◌==◌, some,
}
use bombyx.Ctype.{is_space, is_digit, is_alpha}
use bombyx.Expression.{◌>>=◌, parser_eat_whitespace, parser_eat_while, span}
use bombyx.Expression.Atom.{is_word}
use bombyx.Expression.Reads.{Moves, Heads, head}
use bombyx.Expression.Grammar.{
  Rank, atom, signed, powers, products, Tree, number, variable, group, unsigned, invert, base,
  raise, factor, multiply, summand, negate, add, side, compare, value, equate, conjunct, conjoin,
  disjunct, disjoin, text, all,
}

-- The byte goes on with no word and no number, nor with what a `^`, a `*` and so on stand between.
abbrev pub past_atom : ℕ → Bool
past_atom c =
    not (is_space c)
    && (not (is_word c) && (not (c == b'(') && (not (c == b'[') && not (c == b':'))))

abbrev pub past_powers : ℕ → Bool
past_powers c = past_atom c && not (c == b'^')

abbrev pub past_products : ℕ → Bool
past_products c = past_powers c && (not (c == b'*') && (not (c == b'/') && not (c == b'%')))

abbrev pub past_sums : ℕ → Bool
past_sums c = past_products c && (not (c == b'+') && not (c == b'-'))

abbrev pub past_compared : ℕ → Bool
past_compared c = past_sums c && (not (c == b'>') && not (c == b'<'))

abbrev pub past_equated : ℕ → Bool
past_equated c = past_compared c && (not (c == b'=') && not (c == b'!'))

abbrev pub past_all_of : ℕ → Bool
past_all_of c = past_equated c && not (c == b'&')

abbrev pub past_any_of : ℕ → Bool
past_any_of c = past_all_of c && not (c == b'|')

abbrev pub opens : ℕ → Bool
opens c = is_digit c || (is_alpha c || (c == b'_' || c == b'('))

abbrev pub opens_products : ℕ → Bool
opens_products c = opens c || c == b'!'

abbrev pub opens_sums : ℕ → Bool
opens_sums c = opens c || (c == b'!' || c == b'-')

-- The byte may be the first one of a tree of the level.
abbrev pub starts : Rank → ℕ → Bool
starts atom c = opens c
starts signed c = opens_products c
starts powers c = opens_products c
starts products c = opens_products c
starts _ c = opens_sums c

abbrev pub seen : ℕ → Bool
seen c = not (is_space c)

pub weaken-Heads :
    {test test' : ℕ → Bool} {s : List ℕ}
    → ((c : ℕ) → test c ≡ true → test' c ≡ true)
    → Heads test s
    → Heads test' s
weaken-Heads f (head c s h) = head c s (f c h)

pub left : (a b : Bool) → (a && b) ≡ true → a ≡ true
left true b h = refl
left false b h = h

pub right : (a b : Bool) → (a && b) ≡ true → b ≡ true
right true b h = h
right false b h = ground (arith, h)

pub refused : {b : Bool} → not b ≡ true → b ≡ false
refused {b} h = ground (arith, h)

pub past-seen : (c : ℕ) → past_atom c ≡ true → seen c ≡ true
past-seen c h = left (seen c) _ h

pub powers-seen : (c : ℕ) → past_powers c ≡ true → seen c ≡ true
powers-seen c h = past-seen c (left (past_atom c) _ h)

pub products-seen : (c : ℕ) → past_products c ≡ true → seen c ≡ true
products-seen c h = powers-seen c (left (past_powers c) _ h)

pub sums-seen : (c : ℕ) → past_sums c ≡ true → seen c ≡ true
sums-seen c h = products-seen c (left (past_products c) _ h)

pub compared-seen : (c : ℕ) → past_compared c ≡ true → seen c ≡ true
compared-seen c h = sums-seen c (left (past_sums c) _ h)

pub equated-seen : (c : ℕ) → past_equated c ≡ true → seen c ≡ true
equated-seen c h = compared-seen c (left (past_compared c) _ h)

pub all_of-seen : (c : ℕ) → past_all_of c ≡ true → seen c ≡ true
all_of-seen c h = equated-seen c (left (past_equated c) _ h)

pub opens-seen : (c : ℕ) → opens_sums c ≡ true → seen c ≡ true
opens-seen c h = ground (arith, h)

span_lem :
    (test : ℕ → Bool) (cs : List ℕ) {s : List ℕ}
    → all test cs ≡ true
    → Heads (λ c. not (test c)) s
    → span test (cs ++ s) ≡ some (cs, s)
unfolding span
span_lem test [] h (head c s stop) = ground (arith, stop)
span_lem test (c ∷ cs) h stop =
    rw (left (test c) _ h, span_lem test cs (right (test c) _ h) stop) refl

-- A run of bytes that pass a test, before one that does not.
pub eat_while_lem :
    (test : ℕ → Bool) (cs : List ℕ) {s : List ℕ}
    → all test cs ≡ true
    → Heads (λ c. not (test c)) s
    → Moves (parser_eat_while test) (cs ++ s) cs s
unfolding parser_eat_while
eat_while_lem test cs h stop = record {
  run = λ bc. rw (span_lem test cs h stop, parser_eat_while) refl;
}

pub eats_nothing : {s : List ℕ} → Heads seen s → Moves parser_eat_whitespace s tt s
unfolding parser_eat_whitespace
eats_nothing h = record {
  run = λ bc. rw ((eat_while_lem is_space [] refl h).run bc, parser_eat_whitespace, ◌>>=◌) refl;
}

pub text-starts : {r : Rank} (e : Tree r) (s : List ℕ) → Heads (starts r) (text e s)
unfolding text
text-starts (number c cs h) s = head c _ (ground (arith, left (is_digit c) _ h))
text-starts (variable c cs h) s = head c _ (ground (arith, left (is_alpha c || c == b'_') _ h))
text-starts (group e) s = head b'(' _ refl
text-starts (unsigned e) s = weaken-Heads (λ c h. ground (arith, h)) (text-starts e s)
text-starts (invert e) s = head b'!' _ refl
text-starts (base e) s = text-starts e s
text-starts (raise e e') s = text-starts e _
text-starts (factor e) s = text-starts e s
text-starts (multiply op e e') s = text-starts e _
text-starts (summand e) s = weaken-Heads (λ c h. ground (arith, h)) (text-starts e s)
text-starts (negate e) s = head b'-' _ refl
text-starts (add op e e') s = text-starts e _
text-starts (side e) s = text-starts e s
text-starts (compare op e e') s = text-starts e _
text-starts (value e) s = text-starts e s
text-starts (equate op e e') s = text-starts e _
text-starts (conjunct e) s = text-starts e s
text-starts (conjoin e e') s = text-starts e _
text-starts (disjunct e) s = text-starts e s
text-starts (disjoin e e') s = text-starts e _
