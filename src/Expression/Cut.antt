-- ===== src/Expression/Cut.antt =====
-- core/expression.c: what parse cuts out of the source text.
use bombyx.Prelude.{
  ℕ, ◌≡◌, refl, ap, Bool, true, not, List, [], ◌∷◌, ◌++◌, arith, ◌==◌, Bool-cases, inl, inr,
  if◌then◌else◌,
}
use bombyx.Expression.Parse.{ends_at, level_behind, cut_expression}
use bombyx.Expression.Grammar.{all}

-- The expression that parse cuts out holds no zero, and with what is left it is the code that there
-- was: nothing is lost or moved.
pub cut_expression-append :
    (quote_opened : Bool) (br_level : ℕ) (code : List ℕ)
    → ((cut_expression quote_opened br_level code).0
          ++ (cut_expression quote_opened br_level code).1
        ≡ code)
      × (all (λ c. not (c == 0)) (cut_expression quote_opened br_level code).0 ≡ true)
unfolding cut_expression
cut_expression-append quote_opened br_level [] = (refl, refl)
cut_expression-append quote_opened br_level (c ∷ code) =
    let quote_opened' = if c == b'\'' then not quote_opened else quote_opened in
    let (whole, no_zero) =
      cut_expression-append quote_opened' (level_behind quote_opened br_level c) code in
    elim (Bool-cases (ends_at quote_opened br_level c)) [
      | inl e ↦ rw e (refl, refl)
      | inr e ↦
          let first : not (c == 0) ≡ true = ground (arith, e) in
          rw e (ap (λ t. c ∷ t) whole, rw (first, no_zero) refl)
    ]
