-- ===== src/Silk/Unwinding.antt =====
-- core/larva_silk.c: what RETURN does inside of an if or a while.
use bombyx.Prelude.{
  ℕ, zero, suc, ◌<◌, ◌≡◌, refl, sym, ap, ◌∙◌, [], ◌∷◌, false, some, List, arith, ◌==◌, get_elem?,
  get_or,
}
use bombyx.Run.{ok}
use bombyx.Env.{Env, ◌>>=◌, ◌>>◌}
use bombyx.Silk.{cell_of, flag, go_to, leave_level, return_point, dec8}
use bombyx.Silk.Flow.{unwind}

-- A level that is in use: it has a flag and a point of return.
pub record IsActive {D : Type 0} (env : Env D) (level : ℕ) : Type 0 where
  pub flag : ℕ
  pub point : ℕ
  pub flagged : get_elem? env.run_flag level ≡ some flag
  pub runs : (flag == 0) ≡ false
  pub returns : get_elem? env.ret_point level ≡ some point

-- The environment on the first level, at a position.
abbrev pub at_bottom : {D : Type 0} → Env D → ℕ → Env D
at_bottom env p = record env { gl_level = 0; bc = record env.bc { bc_pos = p } }

-- Where the level above the first one returns to; on the first one, the position stays.
abbrev pub bottom_point : {D : Type 0} → Env D → ℕ → ℕ
bottom_point env zero = env.bc.bc_pos
bottom_point env (suc n) = get_or env.ret_point 1 0

get_or-get_elem? : (xs : List ℕ) (i : ℕ) {v : ℕ} → get_elem? xs i ≡ some v → get_or xs i 0 ≡ v
get_or-get_elem? [] i e = ground (arith, e)
get_or-get_elem? (x ∷ xs) zero e = ground (arith, e)
get_or-get_elem? (x ∷ xs) (suc i) e = get_or-get_elem? xs i e

module _ {D : Type 0} where
  flag_lem :
      (env : Env D) {level x : ℕ}
      → env.gl_level ≡ level
      → get_elem? env.run_flag level ≡ some x
      → flag env ≡ ok (x, env)
  unfolding flag cell_of
  flag_lem env e at = rw (e, at, flag, cell_of) refl

  return_lem :
      (env : Env D) {n p : ℕ}
      → env.gl_level ≡ suc n
      → n < 255
      → get_elem? env.ret_point (suc n) ≡ some p
      → return_point env ≡ ok (tt, record env { gl_level = n; bc = record env.bc { bc_pos = p } })
  unfolding return_point cell_of leave_level go_to
  return_lem env {n} e small at =
      let fewer : dec8 (suc n) ≡ n = omega arith in
      rw (e, at, return_point, cell_of, ◌>>=◌, ◌>>◌, leave_level, go_to, fewer) refl

  up :
      (env : Env D) (n rounds : ℕ)
      → env.gl_level ≡ suc n
      → n < 255
      → (active : IsActive env (suc n))
      → unwind (suc rounds) env
        ≡ unwind rounds (record env { gl_level = n; bc = record env.bc { bc_pos = active.point } })
  unfolding unwind
  up env n rounds level small active =
      rw
        (
          flag_lem env level active.flagged,
          unwind,
          ◌>>=◌,
          ◌>>◌,
          active.runs,
          return_lem env level small active.returns,
        )
        refl

  -- The flags and the points do not change.
  still :
      {env : Env D} {level pos n : ℕ}
      → IsActive env level
      → IsActive (record env { gl_level = n; bc = record env.bc { bc_pos = pos } }) level
  still active = record {
    flag = active.flag;
    point = active.point;
    flagged = active.flagged;
    runs = active.runs;
    returns = active.returns;
  }

  points :
      (env : Env D) (n : ℕ) (top : IsActive env (suc n))
      → bottom_point (record env { gl_level = n; bc = record env.bc { bc_pos = top.point } }) n
        ≡ get_or env.ret_point 1 0
  points env zero top = sym (get_or-get_elem? env.ret_point 1 top.returns)
  points env (suc n) top = refl

  -- With the first level flagged 0, and every level above it up to the current one, which is below
  -- 256, flagged and with a point of return, the loop of RETURN ends, in more rounds than there are
  -- levels. It goes back through all of them, those of functions that are being called as well, to
  -- the first level and the point of return of the second; on the first level it changes nothing.
  pub unwind-at_bottom :
      (env : Env D) (n rounds : ℕ)
      → env.gl_level ≡ n
      → n < 256
      → n < rounds
      → get_elem? env.run_flag 0 ≡ some 0
      → ((k : ℕ) → k < n → IsActive env (suc k))
      → unwind rounds env ≡ ok (tt, at_bottom env (bottom_point env n))
  unfolding unwind
  unwind-at_bottom env n zero level low enough bottom active = elim enough [ ]
  unwind-at_bottom env zero (suc rounds) level low enough bottom active =
      rw (flag_lem env level bottom, unwind, ◌>>=◌)
        (ap (λ n. ok (tt, record env { gl_level = n })) level)
  unwind-at_bottom env (suc n) (suc rounds) level low enough bottom active =
      let top = active n (omega arith) in
      let env' = record env { gl_level = n; bc = record env.bc { bc_pos = top.point } } in
      let later =
        unwind-at_bottom env' n rounds refl (omega (arith, low)) (omega (arith, enough)) bottom
          (λ k lt. still (active k (omega (arith, lt)))) in
      up env n rounds level (omega (arith, low)) top
      ∙ (later ∙ ap (λ p. ok (tt, at_bottom env p)) (points env n top))
