-- ===== src/Run.antt =====
-- How a piece of the interpreter ends: it returns, it leaves by `longjmp` with the code that
-- `gl_error` is set to (1 in larva_error, 2 in runtime_error of core/larva.c), or it does what C
-- leaves undefined.
use bombyx.Prelude.{ℕ, ◌≡◌}

pub data Fault : Type 0 where
  null_pointer out_of_bounds use_after_free type_confusion uninitialised overlap : Fault
  -- a write behind a buffer that is told apart from a read behind one
  written_past_end : Fault
  -- deeper nesting of values than the fuel given; the C code recurs on its own stack
  too_deep : Fault

pub data Run {ℓ} (X : Type ℓ) : Type ℓ where
  ok : X → Run X
  jump : ℕ → Run X
  fault : Fault → Run X

-- What comes after a piece runs only where the piece returns.
infixl 5 ◌>>=◌
abbrev pub ◌>>=◌ {ℓ ℓ'} : {X : Type ℓ} {Y : Type ℓ'} → Run X → (X → Run Y) → Run Y
fault why >>= next = fault why
jump code >>= next = jump code
ok x >>= next = next x

-- The run returns a value that satisfies `P`.
abbrev pub Returns {ℓ ℓ'} : {X : Type ℓ} → Run X → (X → Type ℓ') → Type (ℓ ⊔ ℓ')
Returns {X} run P = (x : X) × (run ≡ ok x) × P x
