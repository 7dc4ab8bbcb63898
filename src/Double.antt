-- ===== src/Double.antt =====
-- The C type `double` and what the interpreter does with it, as an interface: the operators, fabs
-- compared with PARSER_BOOLEAN_EQUALITY_THRESHOLD, printing by "%.6g", reading by strtod, and the
-- image in memory.
use bombyx.Prelude.{ℕ, ◌≡◌, Bool, List, length}

pub record Double (D : Type 0) : Type 0 where
  pub add : D → D → D
  pub sub : D → D → D
  pub mul : D → D → D
  pub div : D → D → D
  pub pow : D → D → D
  pub fmod : D → D → D
  pub neg : D → D
  pub zero : D
  pub one : D
  -- `x != 0`, `fabs(x) >= PARSER_BOOLEAN_EQUALITY_THRESHOLD`, `x < y`, `x <= y`
  pub nonzero : D → Bool
  pub truthy : D → Bool
  pub less : D → D → Bool
  pub less_eq : D → D → Bool
  -- sprintf("%.6g"), and the bytes of the value
  pub format : D → List ℕ
  -- strtod of a text, round(), and the conversion to `unsigned int`
  pub strtod : List ℕ → D
  pub round : D → D
  pub to_unsigned : D → ℕ
  pub image : D → List ℕ
  pub of_image : List ℕ → D
  -- sizeof(double) is 8, and a value read back from its bytes is the value
  pub length-image : (d : D) → length (image d) ≡ 8
  pub of_image-image : (d : D) → of_image (image d) ≡ d
