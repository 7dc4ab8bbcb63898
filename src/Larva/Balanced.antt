-- ===== src/Larva/Balanced.antt =====
-- core/larva.c and core/expression.c: where an expression ends, which larva_digest finds before the
-- expression is read: parse at the byte behind it, and `if` and `while` at the parenthesis that closes.
use bombyx.Prelude.{
  ℕ, suc, ◌+◌, ◌-◌, ◌≡◌, refl, ap, sym, ◌∙◌, Bool, true, false, not, ◌&&◌, ◌||◌, List, [], ◌∷◌,
  ◌++◌, arith, ltb, ◌==◌,
}
use mathlib.Core.List.{append_assoc, append-nil, append_cancel_right}
use bombyx.Run.{Run, ok, jump, fault}
use bombyx.Ctype.{is_digit, is_alpha}
use bombyx.Expression.Atom.{is_word}
use bombyx.Expression.Parse.{ends_at, cut_expression}
use bombyx.Expression.Grammar.{
  Operator, symbol, times, over, modulo, plus, minus, below, above, below_or_equal, above_or_equal,
  equal, different, assign, Rank, Tree, number, variable, group, unsigned, invert, base, raise,
  factor, multiply, summand, negate, add, side, compare, value, equate, conjunct, conjoin, disjunct,
  disjoin, text, all,
}
use bombyx.Expression.Ends.{left, right}
use bombyx.Expression.Texts.{text-append}
use bombyx.Larva.Reading.{prepend, cut_condition}

-- A byte that no end of an expression is looked for at.
abbrev pub is_plain : ℕ → Bool
is_plain c =
    not (c == 0)
    && (not (c == b'\n')
        && (not (c == b'\'') && (not (c == b',') && (not (c == b'(') && not (c == b')')))))

-- The text `t` is `s` behind plain bytes and closed pairs of parentheses.
pub data Balanced : List ℕ → List ℕ → Type 0 where
  here : {s : List ℕ} → Balanced s s
  plain : {t s : List ℕ} (c : ℕ) → is_plain c ≡ true → Balanced t s → Balanced (c ∷ t) s
  paren : {t u s : List ℕ} → Balanced t (b')' ∷ u) → Balanced u s → Balanced (b'(' ∷ t) s

followed : {t u s : List ℕ} → Balanced t u → Balanced u s → Balanced t s
followed here b = b
followed (plain c h a) b = plain c h (followed a b)
followed (paren a a') b = paren a (followed a' b)

run_of :
    (test : ℕ → Bool) (cs : List ℕ) {s : List ℕ}
    → ((c : ℕ) → test c ≡ true → is_plain c ≡ true)
    → all test cs ≡ true
    → Balanced (cs ++ s) s
run_of test [] f h = here
run_of test (c ∷ cs) f h = plain c (f c (left (test c) _ h)) (run_of test cs f (right (test c) _ h))

symbol-Balanced : {r : Rank} (op : Operator r) {s : List ℕ} → Balanced (symbol op s) s
symbol-Balanced times = plain b'*' refl here
symbol-Balanced over = plain b'/' refl here
symbol-Balanced modulo = plain b'%' refl here
symbol-Balanced plus = plain b'+' refl here
symbol-Balanced minus = plain b'-' refl here
symbol-Balanced below = plain b'<' refl here
symbol-Balanced above = plain b'>' refl here
symbol-Balanced below_or_equal = plain b'<' refl (plain b'=' refl here)
symbol-Balanced above_or_equal = plain b'>' refl (plain b'=' refl here)
symbol-Balanced equal = plain b'=' refl (plain b'=' refl here)
symbol-Balanced different = plain b'!' refl (plain b'=' refl here)
symbol-Balanced assign = plain b'=' refl here

digit-plain : (c : ℕ) → is_digit c ≡ true → is_plain c ≡ true
digit-plain c h = ground (arith, h)

word-plain : (c : ℕ) → is_word c ≡ true → is_plain c ≡ true
word-plain c h = ground (arith, h)

letter-plain : (c : ℕ) → (is_alpha c || c == b'_') ≡ true → is_plain c ≡ true
letter-plain c h = ground (arith, h)

pub text-Balanced : {r : Rank} (e : Tree r) (s : List ℕ) → Balanced (text e s) s
unfolding text
text-Balanced (number c cs h) s =
    plain c (digit-plain c (left (is_digit c) _ h))
      (run_of is_digit cs digit-plain (left (all is_digit cs) _ (right (is_digit c) _ h)))
text-Balanced (variable c cs h) s =
    plain c (letter-plain c (left (is_alpha c || c == b'_') _ h))
      (run_of is_word cs word-plain (left (all is_word cs) _ (right (is_alpha c || c == b'_') _ h)))
text-Balanced (group e) s = paren (text-Balanced e _) here
text-Balanced (unsigned e) s = text-Balanced e s
text-Balanced (invert e) s = plain b'!' refl (text-Balanced e s)
text-Balanced (base e) s = text-Balanced e s
text-Balanced (raise e e') s = followed (text-Balanced e _) (plain b'^' refl (text-Balanced e' s))
text-Balanced (factor e) s = text-Balanced e s
text-Balanced (multiply op e e') s =
    followed (text-Balanced e _) (followed (symbol-Balanced op) (text-Balanced e' s))
text-Balanced (summand e) s = text-Balanced e s
text-Balanced (negate e) s = plain b'-' refl (text-Balanced e s)
text-Balanced (add op e e') s =
    followed (text-Balanced e _) (followed (symbol-Balanced op) (text-Balanced e' s))
text-Balanced (side e) s = text-Balanced e s
text-Balanced (compare op e e') s =
    followed (text-Balanced e _) (followed (symbol-Balanced op) (text-Balanced e' s))
text-Balanced (value e) s = text-Balanced e s
text-Balanced (equate op e e') s =
    followed (text-Balanced e _) (followed (symbol-Balanced op) (text-Balanced e' s))
text-Balanced (conjunct e) s = text-Balanced e s
text-Balanced (conjoin e e') s =
    followed (text-Balanced e _) (plain b'&' refl (plain b'&' refl (text-Balanced e' s)))
text-Balanced (disjunct e) s = text-Balanced e s
text-Balanced (disjoin e e') s =
    followed (text-Balanced e _) (plain b'|' refl (plain b'|' refl (text-Balanced e' s)))

pub prefix : {t s : List ℕ} → Balanced t s → List ℕ
prefix here = []
prefix (plain c h b) = c ∷ prefix b
prefix (paren a b) = b'(' ∷ prefix a ++ b')' ∷ prefix b

prefix-append : {t s : List ℕ} (b : Balanced t s) → prefix b ++ s ≡ t
unfolding prefix
prefix-append here = refl
prefix-append (plain c h b) = ap (λ t. c ∷ t) (prefix-append b)
prefix-append {s} (paren {u} a b) =
    let inner : (prefix a ++ (b')' ∷ prefix b)) ++ s ≡ prefix a ++ (b')' ∷ u) =
      append_assoc (prefix a) (b')' ∷ prefix b) s
      ∙ ap (λ r. prefix a ++ (b')' ∷ r)) (prefix-append b) in
    ap (λ t. b'(' ∷ t) (inner ∙ prefix-append a)

-- The prefix of a tree is its text.
pub prefix-text : {r : Rank} (e : Tree r) (s : List ℕ) → prefix (text-Balanced e s) ≡ text e []
prefix-text e s =
    append_cancel_right _ (text e []) s
      (prefix-append (text-Balanced e s) ∙ sym (text-append e [] s))

cut-close :
    (n : ℕ) (u : List ℕ)
    → cut_expression false (n + 1) (b')' ∷ u)
      ≡ (b')' ∷ (cut_expression false n u).0, (cut_expression false n u).1)
unfolding cut_expression
cut-close n u =
    let inside : (n + 1 == 0) ≡ false = ground arith in
    let level : n + 1 - 1 ≡ n = omega arith in rw (inside, level) refl

cut_expression-Balanced :
    (n : ℕ) {t s : List ℕ} (b : Balanced t s)
    → cut_expression false n t
      ≡ (prefix b ++ (cut_expression false n s).0, (cut_expression false n s).1)
unfolding cut_expression prefix
cut_expression-Balanced n here = refl
cut_expression-Balanced n (plain c h b) =
    let goes_on : ends_at false n c ≡ false = ground (arith, h) in
    let no_quote : (c == b'\'') ≡ false = ground (arith, h) in
    let no_open : (c == b'(') ≡ false = ground (arith, h) in
    let no_close : (c == b')') ≡ false = ground (arith, h) in
    rw (goes_on, no_quote, no_open, no_close, cut_expression-Balanced n b) refl
cut_expression-Balanced n {s} (paren {u} a b) =
    let more = (cut_expression false n s).0 in
    rw (cut_expression-Balanced (n + 1) a, cut-close n u, cut_expression-Balanced n b)
      (ap (λ cs. (b'(' ∷ cs, (cut_expression false n s).1))
        (sym (append_assoc (prefix a) (b')' ∷ prefix b) more)))

prepend_nil : (r : Run (List ℕ × List ℕ)) → r ≡ prepend [] r
prepend_nil (ok (cs, rest)) = refl
prepend_nil (jump e) = refl
prepend_nil (fault e) = refl

prepend-prepend :
    (cs cs' : List ℕ) (r : Run (List ℕ × List ℕ))
    → prepend cs (prepend cs' r) ≡ prepend (cs ++ cs') r
prepend-prepend cs cs' (ok (ds, rest)) = ap (λ t. ok (t, rest)) (sym (append_assoc cs cs' ds))
prepend-prepend cs cs' (jump e) = refl
prepend-prepend cs cs' (fault e) = refl

condition-close :
    (n : ℕ) (u : List ℕ)
    → cut_condition (suc (suc n)) (b')' ∷ u) ≡ prepend (b')' ∷ []) (cut_condition (suc n) u)
unfolding cut_condition
condition-close n u =
    let nonzero : (suc (suc n) == 0) ≡ false = ground arith in
    let level : suc (suc n) - 1 ≡ suc n = omega arith in
    let deep : ltb (suc n) 1 ≡ false = ground arith in rw (nonzero, level, deep) refl

cut_condition-Balanced :
    (n : ℕ) {t s : List ℕ} (b : Balanced t s)
    → cut_condition (suc n) t ≡ prepend (prefix b) (cut_condition (suc n) s)
unfolding cut_condition prefix
cut_condition-Balanced n {s} here = prepend_nil (cut_condition (suc n) s)
cut_condition-Balanced n (plain c h b) =
    let no_zero : (c == 0) ≡ false = ground (arith, h) in
    let no_open : (c == b'(') ≡ false = ground (arith, h) in
    let no_close : (c == b')') ≡ false = ground (arith, h) in
    rw (no_zero, no_open, no_close, cut_condition-Balanced n b)
      (prepend-prepend (c ∷ []) (prefix b) _)
cut_condition-Balanced n {s} (paren {u} a b) =
    let deeper : suc n + 1 ≡ suc (suc n) = omega arith in
    rw
      (
        deeper,
        cut_condition-Balanced (suc n) a,
        condition-close n u,
        cut_condition-Balanced n b,
        prepend-prepend (b')' ∷ []) (prefix b) (cut_condition (suc n) s),
        prepend-prepend (prefix a) (b')' ∷ prefix b) (cut_condition (suc n) s),
      )
      (prepend-prepend (b'(' ∷ []) (prefix a ++ b')' ∷ prefix b) (cut_condition (suc n) s))

-- parse takes a tree up to the byte that ends it.
pub cut_expression-text :
    {r : Rank} (e : Tree r) (c : ℕ) (s : List ℕ)
    → ends_at false 0 c ≡ true
    → cut_expression false 0 (text e (c ∷ s)) ≡ (text e [], c ∷ s)
cut_expression-text e c s h =
    let stops : cut_expression false 0 (c ∷ s) ≡ ([], c ∷ s) = unfold cut_expression in rw h refl in
    rw (cut_expression-Balanced 0 (text-Balanced e (c ∷ s)), stops, prefix-text e (c ∷ s))
      (ap (λ t. (t, c ∷ s)) (append-nil (text e [])))

-- `if` and `while` take a tree in parentheses.
pub cut_condition-text :
    {r : Rank} (e : Tree r) (s : List ℕ)
    → cut_condition 0 (b'(' ∷ text e (b')' ∷ s)) ≡ ok (b'(' ∷ text e (b')' ∷ []), s)
cut_condition-text e s =
    let closes : cut_condition 1 (b')' ∷ s) ≡ ok (b')' ∷ [], s) = unfold cut_condition in refl in
    let inner : cut_condition 1 (text e (b')' ∷ s)) ≡ ok (text e (b')' ∷ []), s) =
      rw (cut_condition-Balanced 0 (text-Balanced e (b')' ∷ s)), closes, prefix-text e (b')' ∷ s))
        (ap (λ t. ok (t, s)) (text-append e [] (b')' ∷ []))) in
    unfold cut_condition in rw inner refl
