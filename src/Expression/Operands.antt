-- ===== src/Expression/Operands.antt =====
-- core/expression.c: the levels of the parser on the trees of the grammar, each from what the levels
-- below it do.
use bombyx.Prelude.{
  ℕ, suc, ◌+◌, ◌≡◌, refl, sym, Bool, true, false, ◌||◌, not, List, [], ◌∷◌, ◌++◌, arith, ◌==◌,
  if◌then◌else◌,
}
use std.Path.{subst}
use bombyx.Double.{Double}
use bombyx.Bytecode.Opcodes.{bco_invert, bco_pow, bco_unary_minus}
use bombyx.Expression.{
  Parser, ◌>>=◌, ◌>>◌, pure, parser_peek, parser_skip, parser_eat_whitespace, parser_error,
}
use bombyx.Expression.Atom.{Level, boolean_or, power, parser_read_builtin, parser_read_paren}
use bombyx.Expression.Levels.{
  parser_read_unary, parser_read_power, power_loop, first_term, parser_read_term,
}
use bombyx.Expression.Reads.{
  Reads, Moves, Heads, head, moves, skips, follows, stays, closes, either, emits_cmd, ends_with,
  peeks, skips_byte,
}
use bombyx.Expression.Ends.{
  seen, past_atom, past_powers, opens, opens_products, opens_sums, weaken-Heads, eats_nothing,
  past-seen, opens-seen, left,
}

-- `)`
closing :
    (s : List ℕ)
    → Moves
        (do
          parser_eat_whitespace
          c ← parser_peek
          if c == b')' then pure tt else parser_error
          parser_skip)
        (b')' ∷ s)
        tt
        s
unfolding parser_peek parser_skip
closing s = record { run = λ bc. rw ((eats_nothing (head b')' s refl)).run bc, ◌>>=◌) refl }

unless : {b : Bool} {s : List ℕ} → b ≡ false → Moves (if b then parser_error else pure tt) s tt s
unless e = record { run = λ bc. rw e refl }

-- no second minus
second_sign :
    (c : ℕ) (s : List ℕ)
    → (c == b'-') ≡ false
    → Moves (do c' ← parser_peek; pure (not (c' == b'-'))) (c ∷ s) true (c ∷ s)
unfolding parser_peek
second_sign c s e = record { run = λ bc. rw e refl }

module _ {D : Type 0} (fl : Double D) (again : Level → Parser (Unit {0})) (rounds : ℕ) where
  -- A number or a variable is no parenthesis.
  pub paren_atom :
      {c : ℕ} {t s cs : List ℕ} {n : ℕ}
      → (c == b'(') ≡ false
      → Reads (parser_read_builtin fl again rounds) (c ∷ t) cs n s
      → Heads past_atom s
      → Reads (parser_read_paren fl again rounds) (c ∷ t) cs n s
  unfolding parser_read_paren
  paren_atom {c} {t} e reads stop =
      moves _ (peeks c t) (closes (either _ _ e reads) (eats_nothing (weaken-Heads past-seen stop)))

  pub paren_group :
      {t s cs : List ℕ} {n : ℕ}
      → Heads opens_sums t
      → Reads (again boolean_or) t cs n (b')' ∷ s)
      → Heads past_atom s
      → Reads (parser_read_paren fl again rounds) (b'(' ∷ t) cs n s
  unfolding parser_read_paren
  paren_group {t} {s} starts reads stop = moves _ (peeks b'(' t) (
      closes
        (skips (skips_byte b'(' t)
          (skips (eats_nothing (weaken-Heads opens-seen starts)) (closes reads (closing s))))
        (eats_nothing (weaken-Heads past-seen stop)))

  pub unary_plain :
      {t s cs : List ℕ} {n : ℕ}
      → Heads opens t
      → Reads (parser_read_paren fl again rounds) t cs n s
      → Heads past_atom s
      → Reads (parser_read_unary fl again rounds) t cs n s
  unfolding parser_read_unary
  unary_plain (head c t opened) reads stop =
      let no_not : (c == b'!') ≡ false = ground (arith, opened) in
      let no_minus : (c == b'-') ≡ false = ground (arith, opened) in
      let no_plus : (c == b'+') ≡ false = ground (arith, opened) in
      moves _ (peeks c t) (
        closes (either _ _ no_not (either _ _ no_minus (either _ _ no_plus reads)))
          (eats_nothing (weaken-Heads past-seen stop)))

  pub unary_not :
      {t s cs : List ℕ} {n : ℕ}
      → Heads opens t
      → Reads (parser_read_paren fl again rounds) t cs n s
      → Heads past_atom s
      → Reads (parser_read_unary fl again rounds) (b'!' ∷ t) (cs ++ bco_invert ∷ []) (n + 1) s
  unfolding parser_read_unary
  unary_not {t} starts reads stop = moves _ (peeks b'!' t) (
      closes
        (skips (skips_byte b'!' t) (
          skips (eats_nothing (weaken-Heads (λ c h. opens-seen c (ground (arith, h))) starts))
            (follows reads (emits_cmd bco_invert))))
        (eats_nothing (weaken-Heads past-seen stop)))

  power_stop :
      {c : ℕ} {s : List ℕ} (more : ℕ)
      → (c == b'^') ≡ false
      → Reads (power_loop fl again rounds (suc more)) (c ∷ s) [] 0 (c ∷ s)
  unfolding power_loop
  power_stop {c} {s} more e = moves _ (peeks c s) (rw e (stays (record { run = λ bc. refl })))

  power_step :
      {t s cs : List ℕ} {n : ℕ} (more : ℕ)
      → Heads opens_products t
      → Reads (again power) t cs n s
      → Heads past_powers s
      → Reads
          (power_loop fl again rounds (suc (suc more)))
          (b'^' ∷ t)
          (cs ++ bco_pow ∷ [])
          (n + 1)
          s
  unfolding power_loop
  power_step more (head c t starts) reads (head c' s stop) =
      let no_minus : (c == b'-') ≡ false = ground (arith, starts) in
      let no_power : (c' == b'^') ≡ false = ground (arith, stop) in
      let ends : Heads seen (c' ∷ s) = head c' s (past-seen c' (left (past_atom c') _ stop)) in
      moves _ (peeks b'^' _) (
        skips (skips_byte b'^' _) (
          skips (eats_nothing (head c t (opens-seen c (ground (arith, starts))))) (
            moves _ (peeks c t) (
              skips (unless no_minus) (
                follows reads (
                  skips (eats_nothing ends)
                    (ends_with (emits_cmd bco_pow) (power_stop more no_power))))))))

  pub power_base :
      {t s cs : List ℕ} {n more : ℕ}
      → rounds ≡ suc more
      → Reads (parser_read_unary fl again rounds) t cs n s
      → Heads past_powers s
      → Reads (parser_read_power fl again rounds) t cs n s
  unfolding parser_read_power
  power_base {more} e reads (head c s stop) =
      let no_power : (c == b'^') ≡ false = ground (arith, stop) in
      let ends : Heads seen (c ∷ s) = head c s (past-seen c (left (past_atom c) _ stop)) in
      let loop =
        subst (λ k. Reads (power_loop fl again rounds k) (c ∷ s) [] 0 (c ∷ s)) (sym e)
          (power_stop more no_power) in
      ends_with reads (skips (eats_nothing ends) loop)

  pub power_raise :
      {t t' s cs cs' : List ℕ} {n n' more : ℕ}
      → rounds ≡ suc (suc more)
      → Reads (parser_read_unary fl again rounds) t cs n (b'^' ∷ t')
      → Heads opens_products t'
      → Reads (again power) t' cs' n' s
      → Heads past_powers s
      → Reads (parser_read_power fl again rounds) t (cs ++ (cs' ++ bco_pow ∷ [])) (n + (n' + 1)) s
  unfolding parser_read_power
  power_raise {t'} {s} {cs'} {n'} {more} e reads starts reads' stop =
      let loop =
        subst
          (λ k. Reads (power_loop fl again rounds k) (b'^' ∷ t') (cs' ++ bco_pow ∷ []) (n' + 1) s)
          (sym e) (power_step more starts reads' stop) in
      follows reads (skips (eats_nothing (head b'^' t' refl)) loop)

  -- A term behind no sign.
  pub first_plain :
      {t s cs : List ℕ} {n : ℕ}
      → Heads opens_products t
      → Reads (parser_read_term fl again rounds) t cs n s
      → Reads (first_term fl again rounds) t cs n s
  unfolding first_term
  first_plain (head c t starts) reads =
      let no_sign : (c == b'+' || c == b'-') ≡ false = ground (arith, starts) in
      moves _ (peeks c t) (either _ _ no_sign reads)

  -- A term behind a minus.
  pub first_negated :
      {t s cs : List ℕ} {n : ℕ}
      → Heads opens_products t
      → Reads (parser_read_term fl again rounds) t cs n s
      → Reads (first_term fl again rounds) (b'-' ∷ t) (cs ++ bco_unary_minus ∷ []) (n + 1) s
  unfolding first_term
  first_negated (head c t starts) reads =
      let no_minus : (c == b'-') ≡ false = ground (arith, starts) in
      moves _ (peeks b'-' _) (
        skips (skips_byte b'-' _) (
          skips (eats_nothing (head c t (opens-seen c (ground (arith, starts)))))
            (moves _ (second_sign c t no_minus) (follows reads (emits_cmd bco_unary_minus)))))
