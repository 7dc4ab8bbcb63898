-- ===== src/Stack/Clear.antt =====
-- core/stack.c: stack_clear, which is called before a level is left.
use bombyx.Prelude.{
  ℕ, suc, ◌≡◌, ◌≢◌, refl, none, some, List, [], ◌∷◌, arith, ltb, if◌then◌else◌, ◌⊎◌, Bool-cases,
  inl, inr, sym, ◌∙◌,
}
use bombyx.Run.{ok, Returns}
use bombyx.Value.{VarType, Address, Var, Object, Heap}
use bombyx.Env.{Env, ◌>>=◌}
use bombyx.Memory.{put, free}
use bombyx.Copy.{var_unset, free_data}
use bombyx.Stack.{clear_loop, stack_clear}

-- No variable of the list points there.
pub data Apart (p : Address) : List Var → Type 0 where
  none_left : Apart p []
  elsewhere : {v : Var} {rest : List Var} → v.ptr ≢ some p → Apart p rest → Apart p (v ∷ rest)

-- Numbers and strings, each with memory of its own.
pub data Owned {D : Type 0} (heap : Heap D) : List Var → Type 0 where
  no_vars : Owned heap []
  own :
      {v : Var} {rest : List Var} {p : Address} {o : Object D}
      → (v.type ≡ VarType.double) ⊎ (v.type ≡ VarType.string)
      → v.ptr ≡ some p
      → heap.cell p ≡ some o
      → Apart p rest
      → Owned heap rest
      → Owned heap (v ∷ rest)

-- The variables from the first one of an outer level on.
pub outer : ℕ → List Var → List Var
outer level [] = []
outer level (v ∷ rest) = if ltb v.level level then v ∷ rest else outer level rest

-- The variables before it, which are the ones of the level.
pub inner : ℕ → List Var → List Var
inner level [] = []
inner level (v ∷ rest) = if ltb v.level level then [] else v ∷ inner level rest

-- Some variable of the list points there.
pub data Points (p : Address) : List Var → Type 0 where
  first : {v : Var} {rest : List Var} → v.ptr ≡ some p → Points p (v ∷ rest)
  later : {v : Var} {rest : List Var} → Points p rest → Points p (v ∷ rest)

inner-Apart : (level : ℕ) {p : Address} {vs : List Var} → Apart p vs → Apart p (inner level vs)
unfolding inner
inner-Apart level none_left = none_left
inner-Apart level (elsewhere {v} {rest} n apart) = elim (Bool-cases (ltb v.level level)) [
  | inl out ↦ rw out none_left
  | inr in_level ↦ rw in_level (elsewhere n (inner-Apart level apart))
]

pub record Cleared {D : Type 0} (env : Env D) (r : Unit {0} × Env D) : Type 0 where
  pub stack : r.1.bc_stack ≡ outer env.gl_level env.bc_stack
  pub freed : (p : Address) → Points p (inner env.gl_level env.bc_stack) → r.1.heap.cell p ≡ none
  pub frame :
      (p : Address) → Apart p (inner env.gl_level env.bc_stack) → r.1.heap.cell p ≡ env.heap.cell p
  pub owned : Owned r.1.heap r.1.bc_stack
  pub level : r.1.gl_level ≡ env.gl_level

module _ {D : Type 0} where
  abbrev without : Env D → Address → Env D
  without env p = record env { heap = record env.heap { cell = put env.heap.cell p none } }

  var_unset_lem :
      (fuel : ℕ) (env : Env D) (v : Var) {p : Address} {o : Object D}
      → (v.type ≡ VarType.double) ⊎ (v.type ≡ VarType.string)
      → v.ptr ≡ some p
      → env.heap.cell p ≡ some o
      → var_unset (suc fuel) v env ≡ ok (tt, without env p)
  unfolding var_unset free_data free
  var_unset_lem fuel env v (inl t) e c = ground (arith, e, t, c)
  var_unset_lem fuel env v (inr t) e c = ground (arith, e, t, c)

  without-Owned :
      (env : Env D) {p : Address} {rest : List Var}
      → Apart p rest
      → Owned env.heap rest
      → Owned (without env p).heap rest
  without-Owned env none_left no_vars = no_vars
  without-Owned env {p} (elsewhere n apart) (own {p = q} {o = o} t e c a owned) =
      let other : p ≢ q = ground (arith, n, e) in
      own {o = o} t e (ground (arith, other, c)) a (without-Owned env apart owned)

  -- What the loop did to the memory: that of the variables is freed, and no other.
  record Freed (heap : Heap D) (vs : List Var) (r : Unit {0} × Env D) : Type 0 where
    gone : (p : Address) → Points p vs → r.1.heap.cell p ≡ none
    left : (p : Address) → Apart p vs → r.1.heap.cell p ≡ heap.cell p

  nothing-Freed : (env : Env D) → Freed env.heap [] (tt, env)
  nothing-Freed env = record { gone = λ p h. elim h [ ]; left = λ p h. refl }

  one-Freed :
      (env : Env D) {v : Var} {vs : List Var} {p : Address} {r : Unit {0} × Env D}
      → v.ptr ≡ some p
      → Apart p vs
      → Freed (without env p).heap vs r
      → Freed env.heap (v ∷ vs) r
  one-Freed env {vs = vs} {p = p} {r = r} e apart f = record {
    gone = λ q h. elim h [
      | first e' ↦
          let same : p ≡ q = ground (arith, e, e') in rw (sym same) (f.left p apart ∙ ground arith)
      | later h' ↦ f.gone q h'
    ];
    left = λ q h. elim h [
      | elsewhere n apart' ↦
          let other : p ≢ q = ground (arith, n, e) in f.left q apart' ∙ ground (arith, other)
    ];
  }

  clear_loop_lem :
      (fuel : ℕ) (env : Env D) (stack : List Var)
      → env.bc_stack ≡ stack
      → Owned env.heap stack
      → Returns (clear_loop (var_unset (suc fuel)) stack env) λ r.
        Freed env.heap (inner env.gl_level stack) r
        × (r.1.bc_stack ≡ outer env.gl_level stack)
        × Owned r.1.heap r.1.bc_stack
        × (r.1.gl_level ≡ env.gl_level)
  unfolding clear_loop outer inner
  clear_loop_lem fuel env [] is no_vars =
      ((tt, env), refl, (nothing-Freed env, is, rw is no_vars, refl))
  clear_loop_lem fuel env (v ∷ rest) is (own {p = p} t e c a owned) =
      let env' : Env D = record env { bc_stack = rest } in
      let go = clear_loop_lem fuel (without env' p) rest refl (without-Owned env' a owned) in
      elim (Bool-cases (ltb v.level env.gl_level)) [
        | inl out ↦ (
          (tt, env),
          rw out refl,
          (rw out (nothing-Freed env), rw out is, rw is (own t e c a owned), refl),
        )
        | inr in_level ↦
            let first = var_unset_lem fuel env' v t e c in
            let (r, e', (f', s', o', l')) = go in
            let f = one-Freed env' e (inner-Apart env.gl_level a) f' in
            (r, rw (in_level, first, ◌>>=◌, e') refl, (rw in_level f, rw in_level s', o', l'))
      ]

  -- On a stack of numbers and strings that have memory of their own, stack_clear takes off and frees
  -- the variables down to the first one of an outer level: their memory is gone and no other memory
  -- changes; the other variables stay and keep their memory. One level of fuel is enough.
  pub stack_clear-Cleared :
      (fuel : ℕ) (env : Env D)
      → Owned env.heap env.bc_stack
      → Returns (stack_clear (var_unset (suc fuel)) env) (Cleared env)
  unfolding stack_clear
  stack_clear-Cleared fuel env owned =
      let (r, e, (f, s, o, l)) = clear_loop_lem fuel env env.bc_stack refl owned in
      (r, e, record { stack = s; freed = f.gone; frame = f.left; owned = o; level = l })
