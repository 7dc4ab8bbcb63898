-- ===== src/Bytecode.antt =====
-- core/bytecode.c: the buffer that the compiler writes code into. `bc_length` bytes are allocated;
-- `bytecode` holds those before `bc_pos`, which are the ones that were written.
use bombyx.Prelude.{
  ℕ, ◌+◌, ◌-◌, ◌*◌, ◌/◌, ◌%◌, ◌^◌, Bool, List, [], ◌∷◌, ◌++◌, ltb, leb, if◌then◌else◌, length, take,
}
use bombyx.Run.{Run, ok, fault, out_of_bounds, ◌>>=◌}
use bombyx.Double.{Double}
pub mod Opcodes
pub mod Bounds
pub mod Ready
pub mod Reader
pub mod Roundtrip

abbrev pub bc_initial_size : ℕ
bc_initial_size = 25000

abbrev pub bc_grow_size : ℕ
bc_grow_size = 10000

pub record Bytecode : Type 0 where
  pub bc_pos : ℕ
  pub bc_length : ℕ
  pub bytecode : List ℕ

-- `x - y` on `unsigned int`
abbrev pub sub32 : ℕ → ℕ → ℕ
sub32 x y = (x + 2 ^ 32 - y % 2 ^ 32) % 2 ^ 32

unfoldable pub bc_init : Bytecode
bc_init = record { bc_pos = 0; bc_length = bc_initial_size; bytecode = [] }

unfoldable pub bc_grow : Bytecode → Bytecode
bc_grow bc = record bc { bc_length = (bc.bc_length + bc_grow_size) % 2 ^ 32 }

-- A store of some bytes at `bc_pos`, which then moves past them; beyond the allocation it is
-- undefined.
unfoldable pub write : Bytecode → List ℕ → Run Bytecode
write bc bs =
    if leb (bc.bc_pos + length bs) bc.bc_length
    then ok (record bc { bc_pos = bc.bc_pos + length bs; bytecode = bc.bytecode ++ bs })
    else fault out_of_bounds

unfoldable pub grow_if : Bool → Bytecode → Bytecode
unfolding bc_grow
grow_if full bc = if full then bc_grow bc else bc

unfoldable pub bc_add_cmd : Bytecode → ℕ → Run Bytecode
unfolding write grow_if
bc_add_cmd bc cmd = write (grow_if (leb bc.bc_length bc.bc_pos) bc) (cmd ∷ [])

-- The length of the token is stored in one byte.
unfoldable pub bc_add_token : Bytecode → List ℕ → Run Bytecode
unfolding write grow_if
bc_add_token bc token =
    let size = length token % 2 ^ 32 in
    let bc' = grow_if (leb (sub32 (sub32 bc.bc_length size) 1) bc.bc_pos) bc in
    write bc' ((size % 2 ^ 8) ∷ []) >>= λ bc''. write bc'' token

-- `bc_length - size - sizeof(...)` is computed in 64 bits, since sizeof is a `size_t`.
abbrev pub sub64 : ℕ → ℕ → ℕ
sub64 x y = (x + 2 ^ 64 - y % 2 ^ 64) % 2 ^ 64

unfoldable pub bc_add_double : {D : Type 0} ⦃fl : Double D⦄ → Bytecode → D → Run Bytecode
unfolding write grow_if
bc_add_double ⦃fl⦄ bc x = write (grow_if (leb (sub64 bc.bc_length 8) bc.bc_pos) bc) (fl.image x)

-- `uint16 size = strlen(str)`, stored low byte first, and then `size` bytes of the string.
-- `bc_length - size` is 32 bits wide, and the subtraction of sizeof(uint16) is 64 bits wide.
unfoldable pub bc_add_string : Bytecode → List ℕ → Run Bytecode
unfolding write grow_if
bc_add_string bc str =
    let size = length str % 2 ^ 16 in
    let bc' = grow_if (leb (sub64 (sub32 bc.bc_length size) 2) bc.bc_pos) bc in
    write bc' ((size % 256) ∷ (size / 256) ∷ []) >>= λ bc''. write bc'' (take size str)
