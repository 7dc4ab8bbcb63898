-- ===== src/Silk/Arguments.antt =====
-- core/larva_silk.c: the swaps of BCO_REVERSE_STACK turn round the arguments of a call.
use bombyx.Prelude.{
  ℕ, zero, suc, ◌-◌, ◌*◌, ◌/◌, ◌≤◌, ◌<◌, ◌≡◌, refl, true, false, ◌||◌, ◌&&◌, some, List, [], ◌∷◌,
  arith, ltb, leb, ◌==◌, if◌then◌else◌, length, get_elem?, set, length-set, get_elem?-set_self,
  get_elem?-set_ne, ◌∙◌,
}
use native.Mathlib.Decide.{ℕ_discrete}
use bombyx.Value.{Var}
use bombyx.Operator.{op_swap}
use bombyx.Run.{ok}
use bombyx.Env.{Env, ◌>>=◌}
use bombyx.Bytecode.{Bytecode}
use bombyx.Bytecode.Reader.{read_byte}
use bombyx.Silk.{Locals, pos, on_bc}
use bombyx.Silk.Flow.{swap_cells, reverse_top, case_reverse_stack}

-- The variables of `r` at every place.
record Reversed (size iter : ℕ) (stack r : List Var) : Type 0 where
  pub width : length r ≡ length stack
  pub reads :
      (k : ℕ)
      → get_elem? r k ≡ (
          if ltb k iter || leb (size - iter) k && ltb k size
          then get_elem? stack (size - 1 - k)
          else get_elem? stack k)

present : (stack : List Var) (i : ℕ) → i < length stack → (v : Var) × (get_elem? stack i ≡ some v)
present [] i h = absurd (omega (arith, h))
present (v ∷ stack) zero h = (v, refl)
present (v ∷ stack) (suc i) h = present stack i (omega (arith, h))

swapped :
    (stack : List Var) (i j : ℕ) (a b : Var)
    → i < length stack
    → j < length stack
    → i < j
    → get_elem? stack i ≡ some a
    → get_elem? stack j ≡ some b
    → (k : ℕ)
    → get_elem? (set (set stack i b) j a) k ≡ (
        if k == i
        then get_elem? stack j
        else if k == j
        then get_elem? stack i
        else get_elem? stack k)
swapped stack i j a b hi hj apart at_i at_j k = elim (ℕ_discrete j k) [
  | yes e ↦
      let other : (j == i) ≡ false = ground (arith, apart) in
      let self : (j == j) ≡ true = ground arith in
      rw
        (
          ← e,
          get_elem?-set_self (set stack i b) j a (rw (length-set stack i b) hj),
          other,
          self,
          at_i,
        )
        refl
  | no n ↦
      let off : (k == j) ≡ false = ground (arith, n) in
      rw (get_elem?-set_ne (set stack i b) {j = k} a n, off)
        (elim (ℕ_discrete i k) [
          | yes e ↦
              let self : (i == i) ≡ true = ground arith in
              rw (← e, get_elem?-set_self stack i b hi, self, at_j) refl
          | no n' ↦
              let off' : (k == i) ≡ false = ground (arith, n') in
              rw (get_elem?-set_ne stack {j = k} b n', off') refl
        ])
]

reverse_top-Reversed :
    (size iter : ℕ) (stack : List Var)
    → 2 * iter ≤ size
    → size ≤ length stack
    → (r : List Var) × (reverse_top size iter stack ≡ some r) × Reversed size iter stack r
unfolding reverse_top swap_cells op_swap
reverse_top-Reversed size zero stack half deep =
    (stack, refl, record { width = refl; reads = λ k. ground arith })
reverse_top-Reversed size (suc iter) stack half deep =
    let j = size - 1 - iter in
    let (a, at_i) = present stack iter (omega (arith, half, deep)) in
    let (b, at_j) = present stack j (omega (arith, half, deep)) in
    let stack' = set (set stack iter b) j a in
    let w : length stack' ≡ length stack =
      length-set (set stack iter b) j a ∙ length-set stack iter b in
    let (r, ran, done) =
      reverse_top-Reversed size iter stack' (omega (arith, half)) (omega (arith, deep, w)) in
    let reads' =
      swapped stack iter j a b (omega (arith, half, deep)) (omega (arith, half, deep))
        (omega (arith, half)) at_i at_j in
    (
      r,
      rw (at_i, at_j, reverse_top) ran,
      record {
        width = done.width ∙ w;
        reads = λ k. elim (ℕ_discrete k iter) [
          | yes e ↦
              let back : size - 1 - k ≡ j = omega (arith, e) in
              rw (done.reads k, reads' k, back) (ground (arith, e, half))
          | no n ↦ elim (ℕ_discrete k j) [
            | yes e ↦
                let back : size - 1 - k ≡ iter = omega (arith, e, half) in
                rw (done.reads k, reads' k, back) (ground (arith, e, n, half))
            | no n' ↦
                rw (done.reads k, reads' k, reads' (size - 1 - k)) (ground (arith, n, n', half))
          ]
        ];
      },
    )

-- The last arguments of a call come first, and what is below them on the stack stays.
pub record Turned (size : ℕ) (stack r : List Var) : Type 0 where
  pub width : length r ≡ length stack
  pub arguments : (k : ℕ) → k < size → get_elem? r k ≡ get_elem? stack (size - 1 - k)
  pub below : (k : ℕ) → size ≤ k → get_elem? r k ≡ get_elem? stack k

reverse_top-Turned :
    (size : ℕ) (stack : List Var)
    → size ≤ length stack
    → (r : List Var) × (reverse_top size (size / 2) stack ≡ some r) × Turned size stack r
reverse_top-Turned size stack deep =
    let (r, ran, done) = reverse_top-Reversed size (size / 2) stack (omega arith) deep in
    (
      r,
      ran,
      record {
        width = done.width;
        arguments = λ k low. elim (ℕ_discrete k (size - 1 - k)) [
          | yes middle ↦ rw (done.reads k, ← middle) (ground arith)
          | no n ↦ rw (done.reads k) (ground (arith, low, n))
        ];
        below = λ k high. rw (done.reads k) (ground (arith, high));
      },
    )

module _ {D : Type 0} where
  -- Outside of skip mode, with at least as many variables on the stack as the byte behind the
  -- instruction says, BCO_REVERSE_STACK returns. It turns these round on the stack, keeps the ones below
  -- and the rest of the environment, but for the position behind that byte, and sets the count of
  -- parameters.
  pub case_reverse_stack-Turned :
      (l : Locals) (env : Env D) {size : ℕ} {bc' : Bytecode}
      → l.skip_mode ≡ false
      → read_byte env.bc ≡ ok (size, bc')
      → size ≤ length env.bc_stack
      → (stack : List Var) × (case_reverse_stack l env
          ≡ ok (record l { param_count = pos size }, record env { bc = bc'; bc_stack = stack }))
        × Turned size env.bc_stack stack
  unfolding case_reverse_stack on_bc
  case_reverse_stack-Turned l env {size} running read deep =
      let (stack, ran, turned) = reverse_top-Turned size env.bc_stack deep in
      (stack, rw (running, ◌>>=◌, on_bc, read, ran) (rw (← running) refl), turned)
