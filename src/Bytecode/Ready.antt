-- ===== src/Bytecode/Ready.antt =====
-- core/bytecode.c: bc_ready, which closes the code with an idle instruction and makes the
-- environment ready to run it. The stack is emptied by its size.
use bombyx.Prelude.{
  ℕ, suc, zero, ◌+◌, ◌%◌, ◌^◌, ◌<◌, ◌≡◌, refl, some, List, [], ◌∷◌, ◌++◌, arith, length, take,
  get_elem?, length-append, take-length,
}
use bombyx.Run.{ok, Returns}
use bombyx.Env.{Env, M}
use bombyx.Bytecode.{Bytecode}
use bombyx.Bytecode.Opcodes.{bco_idle}
use bombyx.Bytecode.Bounds.{IsSound}

unfoldable pub bc_ready : {D : Type 0} → M D (Unit {0})
bc_ready env =
    let bc = env.bc in
    let code : List ℕ = take bc.bc_pos bc.bytecode ++ bco_idle ∷ [] in
    let bc' : Bytecode = record {
      bc_pos = 0;
      bc_length = (bc.bc_pos + 1) % 2 ^ 32;
      bytecode = code;
    } in
    ok (tt, record env { bc = bc'; bc_stack = [] })

-- The code is what was compiled, closed by an idle instruction in the last byte of the buffer.
pub record Ready {D : Type 0} (env : Env D) (r : Unit {0} × Env D) : Type 0 where
  pub start : r.1.bc.bc_pos ≡ 0
  pub size : r.1.bc.bc_length ≡ env.bc.bc_pos + 1
  pub width : length r.1.bc.bytecode ≡ r.1.bc.bc_length
  pub code : (i : ℕ) → i < env.bc.bc_pos → get_elem? r.1.bc.bytecode i ≡ get_elem? env.bc.bytecode i
  pub end : get_elem? r.1.bc.bytecode env.bc.bc_pos ≡ some bco_idle
  pub stack : r.1.bc_stack ≡ []

kept : (xs ys : List ℕ) (i : ℕ) → i < length xs → get_elem? (xs ++ ys) i ≡ get_elem? xs i
kept [] ys i h = absurd (omega arith)
kept (x ∷ xs) ys zero h = refl
kept (x ∷ xs) ys (suc i) h = kept xs ys i (omega arith)

appended : (xs : List ℕ) (y i : ℕ) → i ≡ length xs → get_elem? (xs ++ y ∷ []) i ≡ some y
appended [] y zero h = refl
appended [] y (suc i) h = absurd (omega arith)
appended (x ∷ xs) y zero h = absurd (omega arith)
appended (x ∷ xs) y (suc i) h = appended xs y i (omega arith)

-- After bc_ready on a sound buffer, the code begins at 0, keeps every byte that was compiled, and
-- ends with an idle instruction. The buffer is one byte longer than what was compiled, so that the
-- idle instruction is its last byte; the stack is empty.
pub bc_ready-Ready :
    {D : Type 0} (env : Env D) → IsSound env.bc → Returns (bc_ready env) (Ready env)
unfolding bc_ready
bc_ready-Ready env sound =
    let bc = env.bc in
    let all : take bc.bc_pos bc.bytecode ≡ bc.bytecode =
      rw sound.written (take-length bc.bytecode) in
    (
      (
        tt,
        record env {
          bc = record {
            bc_pos = 0;
            bc_length = (bc.bc_pos + 1) % 2 ^ 32;
            bytecode = take bc.bc_pos bc.bytecode ++ bco_idle ∷ [];
          };
          bc_stack = [];
        },
      ),
      refl,
      rw all (record {
        start = refl;
        size = omega (arith, sound.inside, sound.grows);
        width = omega (
          arith,
          length-append bc.bytecode (bco_idle ∷ []),
          sound.written,
          sound.inside,
          sound.grows,
        );
        code = λ i h. kept bc.bytecode (bco_idle ∷ []) i (omega (arith, sound.written));
        end = appended bc.bytecode bco_idle bc.bc_pos sound.written;
        stack = refl;
      }),
    )
