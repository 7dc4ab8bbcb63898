-- ===== src/Bytecode/Reader.antt =====
-- How larva_silk (core/larva_silk.c) reads the operands that stand behind an instruction: a name, a
-- string, a number. Names and strings are copied into `token`, an array of 256 bytes, with a zero
-- behind them.
use bombyx.Prelude.{
  ℕ, ◌+◌, ◌*◌, none, some, List, ltb, leb, if◌then◌else◌, length, get_elem?, take, drop,
}
use bombyx.Run.{Run, ok, fault, out_of_bounds, ◌>>=◌}
use bombyx.Double.{Double}
use bombyx.Bytecode.{Bytecode}

abbrev pub parser_max_token_size : ℕ
parser_max_token_size = 256

-- `env->bytecode[env->bc_pos++]`
unfoldable pub read_byte : Bytecode → Run (ℕ × Bytecode)
read_byte bc = elim (get_elem? bc.bytecode bc.bc_pos) [
  | none ↦ fault out_of_bounds
  | some b ↦ ok (b, record bc { bc_pos = bc.bc_pos + 1 })
]

-- The next `size` bytes, past which `bc_pos` moves.
unfoldable pub read_bytes : Bytecode → ℕ → Run (List ℕ × Bytecode)
read_bytes bc size =
    if leb (bc.bc_pos + size) (length bc.bytecode)
    then ok (take size (drop bc.bc_pos bc.bytecode), record bc { bc_pos = bc.bc_pos + size })
    else fault out_of_bounds

-- The same, with a copy of the bytes and a zero in `token`.
unfoldable pub copy_bytes : Bytecode → ℕ → Run (List ℕ × Bytecode)
unfolding read_bytes
copy_bytes bc size =
    if ltb size parser_max_token_size then read_bytes bc size else fault out_of_bounds

unfoldable pub read_token : Bytecode → Run (List ℕ × Bytecode)
unfolding read_byte copy_bytes
read_token bc = do (size, bc') ← read_byte bc; copy_bytes bc' size

unfoldable pub read_string : Bytecode → Run (List ℕ × Bytecode)
unfolding read_byte copy_bytes
read_string bc = do
  (lo, bc') ← read_byte bc
  (hi, bc'') ← read_byte bc'
  copy_bytes bc'' (lo + hi * 256)

-- The same for a text that is not copied to `token`.
unfoldable pub read_short_string : Bytecode → Run (List ℕ × Bytecode)
unfolding read_byte read_bytes
read_short_string bc = do
  (lo, bc') ← read_byte bc
  (hi, bc'') ← read_byte bc'
  read_bytes bc'' (lo + hi * 256)

unfoldable pub read_double : {D : Type 0} ⦃fl : Double D⦄ → Bytecode → Run (D × Bytecode)
unfolding read_bytes
read_double ⦃fl⦄ bc = do (bs, bc') ← read_bytes bc 8; ok (fl.of_image bs, bc')

-- In skip mode the operand is passed over by its length alone.
unfoldable pub skip_token : Bytecode → Run Bytecode
unfolding read_byte
skip_token bc = do (size, bc') ← read_byte bc; ok (record bc' { bc_pos = bc'.bc_pos + size })

unfoldable pub skip_string : Bytecode → Run Bytecode
unfolding read_byte
skip_string bc = do
  (lo, bc') ← read_byte bc
  (hi, bc'') ← read_byte bc'
  ok (record bc'' { bc_pos = bc''.bc_pos + (lo + hi * 256) })

unfoldable pub skip_double : Bytecode → Bytecode
skip_double bc = record bc { bc_pos = bc.bc_pos + 8 }
