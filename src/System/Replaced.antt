-- ===== src/System/Replaced.antt =====
-- core/sys.c: what str_replace returns, and that it fits what is allocated.
use bombyx.Prelude.{ℕ, suc, ◌+◌, ◌≡◌, Option, none, some, List, ◌++◌, length}
use bombyx.System.{strstr}

-- Nothing of the string is lost but one `old`.
abbrev Splits : List ℕ → List ℕ → Option (List ℕ × List ℕ) → Type 0
Splits old str none = Unit {0}
Splits old str (some (before, behind)) = length before + length old + length behind ≡ length str

module _ (old new_str : List ℕ) where
  -- Each `old` that is found first, behind the one before, is replaced; how many there are.
  pub data Replaced : List ℕ → List ℕ → ℕ → Type 0 where
    last : (p : List ℕ) → strstr old p ≡ none → Replaced p p 0
    next :
        {p out : List ℕ} {k : ℕ} (before behind : List ℕ)
        → strstr old p ≡ some (before, behind)
        → Replaced behind out k
        → Replaced p (before ++ (new_str ++ out)) (suc k)

  -- The count that is kept, or none.
  data Left (k : ℕ) : Option ℕ → Type 0 where
    counted : Left k (some k)
    uncounted : Left k none
