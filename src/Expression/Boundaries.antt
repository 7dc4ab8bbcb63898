-- ===== src/Expression/Boundaries.antt =====
-- core/expression.c: where the loops of the levels stop, and what stands on either side of an operator.
use bombyx.Prelude.{ℕ, ◌||◌, ◌≡◌, refl, not, none, true, false, List, ◌∷◌, arith, ◌==◌}
use bombyx.Ctype.{is_digit, is_alpha}
use bombyx.Expression.Levels.{second_byte, term_operator, expr_operator, and_operator, or_operator}
use bombyx.Expression.Reads.{Moves, Heads, head}
use bombyx.Expression.Grammar.{
  powers, products, compared, equated, all_of, Tree, Operator, symbol, below, above, below_or_equal,
  above_or_equal, equal, different, assign, text,
}
use bombyx.Expression.Ends.{
  past_powers, past_products, past_sums, past_compared, past_equated, past_all_of, past_any_of,
  text-starts, left, right, refused, seen, opens-seen, weaken-Heads,
}

pub no_term : (c : ℕ) → past_products c ≡ true → term_operator c ≡ none
no_term c stop =
    let h = right (past_powers c) _ stop in
    let h' = right (not (c == b'*')) _ h in
    let times : (c == b'*') ≡ false = refused (left (not (c == b'*')) _ h) in
    let over : (c == b'/') ≡ false = refused (left (not (c == b'/')) _ h') in
    let modulo : (c == b'%') ≡ false = refused (right (not (c == b'/')) _ h') in
    rw (times, over, modulo) refl

pub no_expr : (c : ℕ) → past_sums c ≡ true → expr_operator c ≡ none
no_expr c stop =
    let h = right (past_products c) _ stop in
    let plus : (c == b'+') ≡ false = refused (left (not (c == b'+')) _ h) in
    let minus : (c == b'-') ≡ false = refused (right (not (c == b'+')) _ h) in rw (plus, minus) refl

pub no_and : (c : ℕ) → past_all_of c ≡ true → and_operator c ≡ none
no_and c stop = rw (refused (right (past_equated c) _ stop)) refl

pub no_or : (c : ℕ) → past_any_of c ≡ true → or_operator c ≡ none
no_or c stop = rw (refused (right (past_all_of c) _ stop)) refl

pub digit_lem : (c : ℕ) → is_digit c ≡ true → (c == b'(') ≡ false
digit_lem c h = ground (arith, h)

pub letter_lem : (c : ℕ) → (is_alpha c || c == b'_') ≡ true → (c == b'(') ≡ false
letter_lem c h = ground (arith, h)

pub products-start : (e : Tree powers) (s : List ℕ) → Heads seen (text e s)
products-start e s = weaken-Heads (λ c h. opens-seen c (ground (arith, h))) (text-starts e s)

pub sums-start : (e : Tree products) (s : List ℕ) → Heads seen (text e s)
sums-start e s = weaken-Heads (λ c h. opens-seen c (ground (arith, h))) (text-starts e s)

pub same : (c : ℕ) → (c == c) ≡ true
same c = ground arith

pub equated-start : (e : Tree equated) (s : List ℕ) → Heads seen (text e s)
equated-start e s = weaken-Heads opens-seen (text-starts e s)

pub all_of-start : (e : Tree all_of) (s : List ℕ) → Heads seen (text e s)
all_of-start e s = weaken-Heads opens-seen (text-starts e s)

pub second_byte_lem : (c : ℕ) (s : List ℕ) → Moves (second_byte c) (c ∷ s) tt s
unfolding second_byte
second_byte_lem c s = record { run = λ bc. rw (same c) refl }

pub compared-ends : (op : Operator compared) (s : List ℕ) → Heads past_sums (symbol op s)
compared-ends below s = head _ _ refl
compared-ends above s = head _ _ refl
compared-ends below_or_equal s = head _ _ refl
compared-ends above_or_equal s = head _ _ refl

pub equated-ends : (op : Operator equated) (s : List ℕ) → Heads past_compared (symbol op s)
equated-ends equal s = head _ _ refl
equated-ends different s = head _ _ refl
equated-ends assign s = head _ _ refl
