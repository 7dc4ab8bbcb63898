-- ===== src/Larva/Included.antt =====
-- core/larva.c: where the zero of the source text is behind an `include`.
use bombyx.Prelude.{ℕ, Bool, not, List, ◌∷◌, ◌++◌, ◌==◌, take, drop}
use bombyx.Expression.Grammar.{all}

-- There is no zero in it.
abbrev pub zeroless : List ℕ → Bool
zeroless cs = all (λ c. not (c == 0)) cs

-- What stands for a line: what was before it, a new line, the file, and what was behind it.
abbrev inserted : ℕ → ℕ → List ℕ → List ℕ → List ℕ
inserted line_start code_pos source text =
    take line_start text ++ (b'\n' ∷ source ++ drop code_pos text)
