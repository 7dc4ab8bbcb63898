-- ===== src/Operator/Logic.antt =====
-- core/operator.c: `&&` and `||` on numbers, whose right operand is read only where it decides.
use bombyx.Prelude.{◌≡◌, Bool, true, false, ◌&&◌, ◌||◌, Bool-cases, inl, inr}
use bombyx.Run.{ok}
use bombyx.Value.{same_type, Address, Var, number}
use bombyx.Double.{Double}
use bombyx.Env.{Env, M, ◌>>=◌}
use bombyx.Operator.{op_and, op_or, of_bool}
use bombyx.Operator.Laws.{IsNumber, set_cell, load_double_lem, store_double_lem}

pub data Connective : Type 0 where
  conjunction disjunction : Connective

abbrev pub truth : Connective → Bool → Bool → Bool
truth conjunction x y = x && y
truth disjunction x y = x || y

module _ {D : Type 0} ⦃fl : Double D⦄ where
  abbrev pub connect : Connective → Var → Var → M D (Unit {0})
  connect conjunction = op_and
  connect disjunction = op_or

  -- `&&` and `||` of two numbers write one or zero over the left one, as the conjunction or the
  -- disjunction of their truth is, and change nothing else.
  pub connect-numbers :
      (o : Connective) {env : Env D} {a b : Var} {p q : Address} {x y : D}
      → IsNumber env a p x
      → IsNumber env b q y
      → connect o a b env
        ≡ ok (tt, set_cell env p (number (of_bool (truth o (fl.truthy x) (fl.truthy y)))))
  unfolding op_and op_or same_type
  connect-numbers conjunction {x = x} {y = y} h k = elim (Bool-cases (fl.truthy x)) [
    | inl t ↦
        rw (h.type, load_double_lem h, ◌>>=◌, t, load_double_lem k, ◌>>=◌)
          (store_double_lem (of_bool (fl.truthy y)) h)
    | inr f ↦ rw (h.type, load_double_lem h, ◌>>=◌, f) (store_double_lem fl.zero h)
  ]
  connect-numbers disjunction {x = x} {y = y} h k = elim (Bool-cases (fl.truthy x)) [
    | inl t ↦ rw (h.type, load_double_lem h, ◌>>=◌, t) (store_double_lem fl.one h)
    | inr f ↦
        rw (h.type, load_double_lem h, ◌>>=◌, f, load_double_lem k, ◌>>=◌)
          (store_double_lem (of_bool (fl.truthy y)) h)
  ]

  -- Where the left number decides, the right operand may be of any type: it is not read.
  pub connect-decided :
      (o : Connective) {env : Env D} {a : Var} (b : Var) {p : Address} {x : D}
      → IsNumber env a p x
      → fl.truthy x ≡ (elim o [ conjunction ↦ false | disjunction ↦ true ])
      → connect o a b env ≡ ok (tt, set_cell env p (number (of_bool (fl.truthy x))))
  unfolding op_and op_or same_type
  connect-decided conjunction b h t =
      rw (h.type, load_double_lem h, ◌>>=◌, t) (store_double_lem fl.zero h)
  connect-decided disjunction b h t =
      rw (h.type, load_double_lem h, ◌>>=◌, t) (store_double_lem fl.one h)
