-- ===== src/Silk/Arithmetic.antt =====
-- core/larva_silk.c: the code of an arithmetic expression leaves its value on the stack.
use bombyx.Prelude.{
  ℕ, suc, ◌+◌, ◌≤◌, ◌<◌, ◌≡◌, refl, ap, sym, ◌∙◌, true, false, Option, none, some, List, [], ◌∷◌,
  ◌++◌, arith, ltb, length, length-append, max,
}
use mathlib.Core.List.{append_assoc}
use bombyx.Run.{ok}
use bombyx.Double.{Double}
use bombyx.Value.{same_type, VarType, Address, Var, zero_var, Object, number, Heap}
use bombyx.Env.{Env, M, ◌>>=◌}
use bombyx.Memory.{put, alloc, free}
use bombyx.Copy.{var_unset, var_as_double, free_data}
use bombyx.Bytecode.Opcodes.{bco_as_double}
use bombyx.Bytecode.Roundtrip.{read_double_lem}
use bombyx.Operator.Laws.{
  IsNumber, set_cell, Strict, Lax, perform, perform_lax, meaning, meaning_lax, perform_lem,
  perform_lax-numbers, combine_lem,
}
use bombyx.Operator.{both}
use bombyx.Operator.Add.{op_add}
use bombyx.Stack.{stack_pop}
use bombyx.Silk.{Locals, Host, on_bc, raw_push}
use bombyx.Silk.Values.{case_as_double}
use bombyx.Silk.Operators.{operate, in_place}
use bombyx.Silk.Step.{step, dispatch, switch, cases}
use bombyx.Silk.Skipping.{Reaches, here, there, trans-Reaches, read_lem, moved}

abbrev pub running : Locals → Locals
running l = record l { skip_mode = false }

-- A variable of the stack has the number `x` in memory of its own, which was taken from the heap `h`,
-- where nothing else has changed.
pub record Holds {D : Type 0} (h h' : Heap D) (v : Var) (x : D) : Type 0 where
  pub at : Address
  pub type : v.type ≡ VarType.double
  pub ptr : v.ptr ≡ some at
  pub cell : h'.cell at ≡ some (number x)
  pub fresh : h.next ≤ at
  pub taken : at < h'.next
  pub same : (q : Address) → q < h.next → h'.cell q ≡ h.cell q

-- The environment with another heap and position, and a variable on the stack.
abbrev pub pushed : {D : Type 0} → Env D → Heap D → ℕ → Var → Env D
pushed env h p v = record env {
  heap = h;
  bc = record env.bc { bc_pos = p };
  bc_stack = v ∷ env.bc_stack;
}

module _ {D : Type 0} where
  put_self : (h : Heap D) (p : Address) (o : Object D) → put h.cell p (some o) p ≡ some o
  put_self h p o = ground arith

  put_ne :
      (h : Heap D) {p q : Address} (o : Option (Object D)) → q < p → put h.cell p o q ≡ h.cell q
  put_ne h o less = ground (arith, less)

  put_left :
      (h : Heap D) {p q : Address} (o : Option (Object D)) → p < q → put h.cell p o q ≡ h.cell q
  put_left h o less = ground (arith, less)

module _ {D : Type 0} ⦃fl : Double D⦄ (host : Host D) (fuel : ℕ) where
  -- The loop goes over `cs`, wherever they stand in the code, with `n` places of the stack, and leaves
  -- the number `x` on it. Of the local variables `v2` alone is changed.
  pub record Evaluates (cs : List ℕ) (n : ℕ) (x : D) : Type 0 where
    pub run :
        (l : Locals) (env : Env D) (before after : List ℕ)
        → env.bc.bytecode ≡ before ++ (cs ++ after)
        → env.bc.bc_pos ≡ length before
        → length before + length cs ≤ env.bc.bc_length
        → length env.bc_stack + n ≤ 256
        → (w : Option Var) × (h : Heap D) × (v : Var) × Reaches host
            (suc fuel)
            (running l, env)
            (running (record l { v2 = w }), pushed env h (length before + length cs) v)
          × Holds env.heap h v x

  -- A number.
  pub double_value : (x : D) → Evaluates (bco_as_double ∷ fl.image x) 1 x
  unfolding step dispatch switch cases case_as_double var_as_double alloc raw_push on_bc
  double_value x = record {
    run = λ l env before after e p inside room.
        let h : Heap D = record {
          next = env.heap.next + 1;
          cell = put env.heap.cell env.heap.next (some (number x));
        } in
        let v : Var = record zero_var {
          type = VarType.double;
          data_size = 8;
          ptr = some env.heap.next;
        } in
        let eight = fl.length-image x in
        let end : length before + 1 + 8 ≡ length before + length (bco_as_double ∷ fl.image x) =
          omega (arith, eight) in
        let before' = before ++ bco_as_double ∷ [] in
        let e' : env.bc.bytecode ≡ before' ++ (fl.image x ++ after) =
          e ∙ sym (append_assoc before (bco_as_double ∷ []) (fl.image x ++ after)) in
        let small : ltb (length env.bc_stack) 256 ≡ true = ground (arith, room) in
        (
          l.v2,
          h,
          v,
          there (omega (arith, p, inside))
              (rw
                (
                  step,
                  ◌>>=◌,
                  on_bc,
                  read_lem env.bc before bco_as_double (fl.image x ++ after) e p,
                  read_double_lem env.bc env.bc.bytecode before' after x (length before + 1) e'
                      (omega (arith, length-append before (bco_as_double ∷ []))),
                  small,
                  ← end,
                )
                refl)
              here,
          record {
            at = env.heap.next;
            type = refl;
            ptr = refl;
            cell = put_self env.heap env.heap.next (number x);
            fresh = omega arith;
            taken = omega arith;
            same = λ q below. put_ne env.heap (some (number x)) (omega (arith, below));
          },
        );
  }

  -- The heap behind an operator: the result over the left operand, and the right one freed.
  abbrev settled : Heap D → Address → Address → D → Heap D
  settled h p q z = record h { cell = put (put h.cell p (some (number z))) q none }

  free_lem :
      {env : Env D} {v : Var} {q : Address} {y : D}
      → IsNumber env v q y
      → var_unset (suc fuel) v env
        ≡ ok (tt, record env { heap = record env.heap { cell = put env.heap.cell q none } })
  unfolding var_unset free_data free
  free_lem n = ground arith

  -- An operator on two numbers that are on the stack.
  abbrev pub OnNumbers : (Var → Var → M D (Var × Var)) → (D → D → D) → Type 0
  OnNumbers op f =
      (env : Env D) (a b : Var) (p q : Address) (x y : D)
      → IsNumber env a p x
      → IsNumber env b q y
      → op a b env ≡ ok ((a, b), set_cell env p (number (f x y)))

  operate_lem :
      (op : Var → Var → M D (Var × Var)) (f : D → D → D) (l : Locals) (env : Env D) {v v' : Var}
      {st : List Var} {p q : Address} {x y : D}
      → OnNumbers op f
      → env.bc_stack ≡ v' ∷ v ∷ st
      → IsNumber env v p x
      → IsNumber env v' q y
      → p < q
      → length st < 256
      → operate (suc fuel) op l env
        ≡ ok (
          record l { v2 = some v' },
          record env { heap = settled env.heap p q (f x y); bc_stack = v ∷ st },
        )
  unfolding operate stack_pop raw_push
  operate_lem op f l env {v} {v'} {st} {p} {q} {x} {y} means stack n n' less room =
      let env' = record env { bc_stack = st } in
      let m : IsNumber env' v p x = record { type = n.type; ptr = n.ptr; cell = n.cell } in
      let m' : IsNumber env' v' q y = record { type = n'.type; ptr = n'.ptr; cell = n'.cell } in
      let m'' : IsNumber (set_cell env' p (number (f x y))) v' q y = record {
        type = n'.type;
        ptr = n'.ptr;
        cell = put_left env.heap (some (number (f x y))) less ∙ n'.cell;
      } in
      let small : ltb (length st) 256 ≡ true = ground (arith, room) in
      rw (stack, ◌>>=◌, means env' v v' p q x y m m', free_lem m'', small) refl

  settled-Holds :
      {h h' h'' : Heap D} {v v' : Var} {x y : D} (z : D) (a : Holds h h' v x)
      (b : Holds h' h'' v' y)
      → Holds h (settled h'' a.at b.at z) v z
  settled-Holds {h} {h'} {h''} z a b =
      let apart : a.at < b.at = omega (arith, a.taken, b.fresh) in
      let left : Heap D = record h'' { cell = put h''.cell a.at (some (number z)) } in
      record {
        at = a.at;
        type = a.type;
        ptr = a.ptr;
        cell = put_ne left none apart ∙ put_self h'' a.at (number z);
        fresh = a.fresh;
        taken = omega (arith, a.taken, b.fresh, b.taken);
        same = λ q below.
            put_ne left none (omega (arith, below, a.fresh, apart))
            ∙ (put_ne h'' (some (number z)) (omega (arith, below, a.fresh))
                ∙ (b.same q (omega (arith, below, a.fresh, a.taken)) ∙ a.same q below));
      }

  abbrev pub Does : ℕ → (Var → Var → M D (Var × Var)) → Type 0
  Does c op =
      (l : Locals) (env : Env D)
      → dispatch host (suc fuel) c (running l) env ≡ operate (suc fuel) op (running l) env

  operator_step :
      (c : ℕ) (op : Var → Var → M D (Var × Var)) (f : D → D → D) (l : Locals) (env : Env D)
      (before after : List ℕ) {v v' : Var} {st : List Var} {p q : Address} {x y : D}
      → OnNumbers op f
      → Does c op
      → env.bc.bytecode ≡ before ++ (c ∷ after)
      → env.bc.bc_pos ≡ length before
      → env.bc_stack ≡ v' ∷ v ∷ st
      → IsNumber env v p x
      → IsNumber env v' q y
      → p < q
      → length st < 256
      → step host (suc fuel) (running l) env
        ≡ ok (
          running (record l { v2 = some v' }),
          record env {
            heap = settled env.heap p q (f x y);
            bc = record env.bc { bc_pos = length before + 1 };
            bc_stack = v ∷ st;
          },
        )
  unfolding step
  operator_step c op f l env before after {v} {v'} means does e start stack n n' less room =
      let env' = moved env (length before + 1) in
      let m : IsNumber env' v _ _ = record { type = n.type; ptr = n.ptr; cell = n.cell } in
      let m' : IsNumber env' v' _ _ = record { type = n'.type; ptr = n'.ptr; cell = n'.cell } in
      rw
        (
          step,
          ◌>>=◌,
          on_bc,
          read_lem env.bc before c after e start,
          does l env',
          operate_lem op f (running l) env' means stack m m' less room,
        )
        refl

  -- An operator, with the code of its operands before it.
  pub binary :
      (c : ℕ) (op : Var → Var → M D (Var × Var)) (f : D → D → D) {cs ds : List ℕ} {n k : ℕ}
      {x y : D}
      → OnNumbers op f
      → Does c op
      → Evaluates cs n x
      → Evaluates ds k y
      → Evaluates (cs ++ (ds ++ c ∷ [])) (max n (1 + k)) (f x y)
  binary c op f {cs} {ds} {n} {k} {x} {y} means does first second = record {
    run = λ l env before after e p inside room.
        let s = length-append cs (ds ++ c ∷ []) in
        let s' = length-append ds (c ∷ []) in
        let b = length-append before cs in
        let b' = length-append (before ++ cs) ds in
        let e1 : env.bc.bytecode ≡ before ++ (cs ++ ((ds ++ c ∷ []) ++ after)) =
          e ∙ ap (λ t. before ++ t) (append_assoc cs (ds ++ c ∷ []) after) in
        let e2 : env.bc.bytecode ≡ (before ++ cs) ++ (ds ++ (c ∷ after)) =
          e1 ∙ rw (append_assoc before cs (ds ++ c ∷ after), append_assoc ds (c ∷ []) after) refl in
        let e3 : env.bc.bytecode ≡ ((before ++ cs) ++ ds) ++ (c ∷ after) =
          e2 ∙ sym (append_assoc (before ++ cs) ds (c ∷ after)) in
        let (w, h, v, go, a) =
          first.run l env before ((ds ++ c ∷ []) ++ after) e1 p (omega (arith, s, s', inside))
            (omega (arith, room)) in
        let env1 = pushed env h (length before + length cs) v in
        let (w', h', v', go', a') =
          second.run (record l { v2 = w }) env1 (before ++ cs) (c ∷ after) e2 (sym b)
            (omega (arith, s, s', b, inside)) (omega (arith, room)) in
        let env2 = pushed env1 h' (length (before ++ cs) + length ds) v' in
        let left : IsNumber env2 v a.at x = record {
          type = a.type;
          ptr = a.ptr;
          cell = a'.same a.at a.taken ∙ a.cell;
        } in
        let right : IsNumber env2 v' a'.at y = record {
          type = a'.type;
          ptr = a'.ptr;
          cell = a'.cell;
        } in
        let final : length ((before ++ cs) ++ ds) + 1
            ≡ length before + length (cs ++ (ds ++ c ∷ [])) =
          omega (arith, s, s', b, b') in
        (
          some v',
          settled h' a.at a'.at (f x y),
          v,
          trans-Reaches host (suc fuel) go (
              trans-Reaches host (suc fuel) go' (
                there (omega (arith, s, s', b, inside))
                  (operator_step c op f (record l { v2 = w' }) env2 ((before ++ cs) ++ ds) after
                      means does e3 (sym b') refl left right (omega (arith, a.taken, a'.fresh))
                      (omega (arith, room))
                    ∙ ap
                        (λ i. ok (
                          running (record l { v2 = some v' }),
                          pushed env (settled h' a.at a'.at (f x y)) i v,
                        ))
                        final)
                  here)),
          settled-Holds (f x y) a a',
        );
  }

  -- Six operators.
  pub perform-OnNumbers : (o : Strict) → OnNumbers (in_place (suc fuel) (perform o)) (meaning o)
  perform-OnNumbers o env a b p q x y n m = rw (◌>>=◌, perform_lem o n m) refl

  pub perform_lax-OnNumbers :
      (o : Lax) → OnNumbers (in_place (suc fuel) (perform_lax o)) (meaning_lax o)
  perform_lax-OnNumbers o env a b p q x y n m = rw (◌>>=◌, perform_lax-numbers o n m) refl

  pub op_add-OnNumbers : OnNumbers (op_add (suc fuel)) fl.add
  unfolding op_add same_type
  op_add-OnNumbers env a b p q x y n m =
      let no : both VarType.string a b ≡ false = rw n.type refl in
      let yes : both VarType.double a b ≡ true = rw (n.type, m.type) refl in
      rw (no, yes, ◌>>=◌, combine_lem fl.add n m) refl
