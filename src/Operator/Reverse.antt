-- ===== src/Operator/Reverse.antt =====
-- core/operator.c: op_unary_minus, which negates a number and reverses a string in place.
use Prim.Native.Nat.{bit_xor}
use bombyx.Prelude.{ℕ, zero, suc, ◌+◌, ◌-◌, List, ltb, leb, if◌then◌else◌, length, get_or, set}
use bombyx.Run.{out_of_bounds}
use bombyx.Value.{VarType, Var, bytes}
use bombyx.Double.{Double}
use bombyx.Env.{M, undefined, runtime_error, ◌>>=◌}
use bombyx.Memory.{store, load_bytes}
use bombyx.Operator.{change}

-- XOR_SWAP of two cells
unfoldable pub xor_swap : List ℕ → ℕ → ℕ → List ℕ
xor_swap bs i j =
    let bs₁ = set bs i (bit_xor (get_or bs i 0) (get_or bs j 0)) in
    let bs₂ = set bs₁ j (bit_xor (get_or bs₁ j 0) (get_or bs₁ i 0)) in
    set bs₂ i (bit_xor (get_or bs₂ i 0) (get_or bs₂ j 0))

-- The walk inwards from both ends, on fuel: `rounds` is the fuel.
unfoldable pub reverse_loop : ℕ → ℕ → ℕ → List ℕ → List ℕ
unfolding xor_swap
reverse_loop zero ptr end bs = bs
reverse_loop (suc rounds) ptr end bs =
    let next = reverse_loop rounds (ptr + 1) (end - 1) (xor_swap bs ptr end) in
    if ltb ptr end then next else bs

module _ {D : Type 0} ⦃fl : Double D⦄ where
  -- `end` is `data_size - 2`, which is before the start for the empty string. For a string variable
  -- without a value the walk starts at NULL.
  unfoldable pub reverse_string : Var → M D (Unit {0})
  reverse_string a = do
    bs ← load_bytes a.ptr
    if leb a.data_size (length bs)
        then store a.ptr (bytes (reverse_loop a.data_size 0 (a.data_size - 2) bs))
        else undefined out_of_bounds

  unfoldable pub op_unary_minus : Var → M D (Unit {0})
  op_unary_minus a = elim a.type [
    | VarType.double ↦ change fl.neg a.ptr
    | VarType.string ↦ reverse_string a
    | _ ↦ runtime_error
  ]
