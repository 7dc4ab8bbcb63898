-- ===== src/Expression/Tokens.antt =====
-- core/expression.c: parser_read_builtin on a number and on the name of a variable.
use bombyx.Prelude.{
  ℕ, ◌≡◌, refl, ap, Bool, true, false, ◌&&◌, ◌||◌, not, List, [], ◌∷◌, ◌++◌, arith, ltb, ◌==◌,
  if◌then◌else◌, length,
}
use mathlib.Core.List.{append-nil}
use bombyx.Ctype.{is_digit, is_alpha}
use bombyx.Double.{Double}
use bombyx.Table.{same_name}
use bombyx.Bytecode.Bounds.{bc_add_token_lem, bc_add_double_lem}
use bombyx.Bytecode.Opcodes.{bco_as_double, bco_as_var}
use bombyx.Expression.{Parser, ◌>>=◌, pure, parser_error, parser_peek, fits_token, add_token}
use bombyx.Expression.Literal.{
  eat_if, read_exponent, emit_number, read_number, parser_read_double, is_sign,
}
use bombyx.Expression.Atom.{Level, is_word, word_void, read_word, parser_read_builtin}
use bombyx.Expression.Reads.{
  Reads, Moves, Heads, head, moves, skips, follows, emits, emits_cmd, closes, either, chosen, peeks,
}
use bombyx.Expression.Grammar.{all, is_number, is_variable}
use bombyx.Expression.Ends.{
  past_atom, left, right, weaken-Heads, past-seen, eat_while_lem, eats_nothing,
}

fits :
    (token : List ℕ) {s : List ℕ} → ltb (length token) 256 ≡ true → Moves (fits_token token) s tt s
unfolding fits_token
fits token h = record { run = λ bc. rw (h, fits_token) refl }

-- no such byte
eats_none :
    (test : ℕ → Bool) {s : List ℕ} → Heads (λ c. not (test c)) s → Moves (eat_if test) s [] s
unfolding eat_if parser_peek
eats_none test (head c s h) = record { run = λ bc. ground (arith, h) }

no_exponent : {s : List ℕ} → Heads past_atom s → Moves read_exponent s [] s
unfolding read_exponent
no_exponent stop =
    let no_digit = weaken-Heads {test' = λ c. not (is_digit c)} (λ c h. ground (arith, h)) stop in
    let no_e =
      weaken-Heads {test' = λ c. not (c == b'e' || c == b'E')} (λ c h. ground (arith, h)) stop in
    record {
      run = λ bc.
          rw ((eats_none _ no_e).run bc, (eat_while_lem is_digit [] refl no_digit).run bc, ◌>>=◌)
            refl;
    }

both : {a b : Bool} → a ≡ true → b ≡ true → (a && b) ≡ true
both h h' = rw (h, h') refl

nonempty :
    (c : ℕ) (cs : List ℕ) {s : List ℕ}
    → Moves (if length (c ∷ cs) == 0 then parser_error else pure tt) s tt s
nonempty c cs = record { run = λ bc. ground arith }

module _ {D : Type 0} (fl : Double D) where
  number_lem :
      (c : ℕ) (cs : List ℕ) {s token : List ℕ}
      → token ≡ c ∷ cs
      → ltb (length (c ∷ cs)) 256 ≡ true
      → Reads (emit_number fl token) s (bco_as_double ∷ fl.image (fl.strtod (c ∷ cs))) 2 s
  unfolding emit_number
  number_lem c cs e fit =
      let add = emits (λ bc sound. bc_add_double_lem sound ⦃fl = fl⦄ (fl.strtod (c ∷ cs))) in
      rw e
        (skips (fits (c ∷ cs) fit) (skips (nonempty c cs) (follows (emits_cmd bco_as_double) add)))

  number_token :
      (c : ℕ) (cs : List ℕ) {s : List ℕ}
      → is_number c cs ≡ true
      → Heads past_atom s
      → Reads (read_number fl []) (c ∷ cs ++ s) (bco_as_double ∷ fl.image (fl.strtod (c ∷ cs))) 2 s
  unfolding read_number
  number_token c cs h stop =
      let no_digit = weaken-Heads {test' = λ c. not (is_digit c)} (λ c h. ground (arith, h)) stop in
      let no_point = weaken-Heads {test' = λ c. not (c == b'.')} (λ c h. ground (arith, h)) stop in
      let digits =
        both (left (is_digit c) _ h) (left (all is_digit cs) _ (right (is_digit c) _ h)) in
      let fit = right (all is_digit cs) _ (right (is_digit c) _ h) in
      moves _ (eat_while_lem is_digit (c ∷ cs) digits no_digit) (
        moves _ (eats_none _ no_point) (
          moves _ (eat_while_lem is_digit [] refl no_digit) (
            moves _ (no_exponent stop) (
              skips (eats_nothing (weaken-Heads past-seen stop))
                (number_lem c cs (ap (λ t. c ∷ t) (append-nil cs)) fit)))))

module _ (again : Level → Parser (Unit {0})) (rounds : ℕ) where
  word_lem :
      (token : List ℕ) {s : List ℕ}
      → not (same_name token word_void) ≡ true
      → ltb (length token) 256 ≡ true
      → Heads past_atom s
      → Reads (read_word again rounds token) s (bco_as_var ∷ length token ∷ token) 2 s
  unfolding read_word add_token
  word_lem token named fit (head c s stop) =
      let no_call : (c == b'(') ≡ false = ground (arith, stop) in
      let no_index : (c == b'[') ≡ false = ground (arith, stop) in
      let no_colon : (c == b':') ≡ false = ground (arith, stop) in
      let no_void : same_name token word_void ≡ false = ground (arith, named) in
      let add = emits (λ bc sound. bc_add_token_lem sound token (ground (arith, fit))) in
      moves _ (peeks c s) (
        either _ _ no_call (
          either _ _ no_index
            (either _ _ no_colon (either _ _ no_void (follows (emits_cmd bco_as_var) add)))))

module _ {D : Type 0} (fl : Double D) (again : Level → Parser (Unit {0})) (rounds : ℕ) where
  pub read_number_lem :
      (c : ℕ) (cs : List ℕ) {s : List ℕ}
      → is_number c cs ≡ true
      → Heads past_atom s
      → Reads
          (parser_read_builtin fl again rounds)
          (c ∷ cs ++ s)
          (bco_as_double ∷ fl.image (fl.strtod (c ∷ cs)))
          2
          s
  unfolding parser_read_builtin parser_read_double
  read_number_lem c cs h stop =
      let digit = left (is_digit c) _ h in
      let no_word : (is_alpha c || c == b'_') ≡ false = ground (arith, digit) in
      let no_quote : (c == b'\'') ≡ false = ground (arith, digit) in
      let no_sign : is_sign c ≡ false = ground (arith, digit) in
      moves _ (peeks c _) (
        closes
          (either _ _ no_word (
            moves _ (peeks c _) (
              moves _ (eats_none is_sign (head c _ (rw no_sign refl)))
                (either _ _ no_quote (number_token fl c cs h stop)))))
          (eats_nothing (weaken-Heads past-seen stop)))

  pub read_variable_lem :
      (c : ℕ) (cs : List ℕ) {s : List ℕ}
      → is_variable c cs ≡ true
      → Heads past_atom s
      → Reads
          (parser_read_builtin fl again rounds)
          (c ∷ cs ++ s)
          (bco_as_var ∷ length (c ∷ cs) ∷ c ∷ cs)
          2
          s
  unfolding parser_read_builtin
  read_variable_lem c cs h stop =
      let letter = left (is_alpha c || c == b'_') _ h in
      let word : is_word c ≡ true = ground (arith, letter) in
      let h' = right (is_alpha c || c == b'_') _ h in
      let words = both word (left (all is_word cs) _ h') in
      let fit = left (ltb (length (c ∷ cs)) 256) _ (right (all is_word cs) _ h') in
      let named = right (ltb (length (c ∷ cs)) 256) _ (right (all is_word cs) _ h') in
      moves _ (peeks c _) (
        closes
          (chosen _ _ letter (
            moves _
              (eat_while_lem is_word (c ∷ cs) words (weaken-Heads (λ c h. ground (arith, h)) stop))
              (skips (fits (c ∷ cs) fit) (word_lem again rounds (c ∷ cs) named fit stop))))
          (eats_nothing (weaken-Heads past-seen stop)))
