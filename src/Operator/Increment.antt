-- ===== src/Operator/Increment.antt =====
-- core/operator.c: `++` and `--`, which write their result back to the variable that the operand
-- was read from.
use bombyx.Prelude.{◌≡◌, ◌≢◌, refl, none, some, arith}
use bombyx.Run.{ok}
use bombyx.Table.{Name}
use bombyx.Value.{Address, Var, number}
use bombyx.Double.{Double}
use bombyx.Env.{Env, M, ◌>>=◌}
use bombyx.VarTable.{var_lookup}
use bombyx.Copy.{deref}
use bombyx.Operator.{change, write_back, op_increment, op_decrement}
use bombyx.Operator.Laws.{IsNumber, set_cell, load_double_lem, store_double_lem}

pub data Step : Type 0 where
  increment decrement : Step

module _ {D : Type 0} ⦃fl : Double D⦄ where
  abbrev pub take_step : Step → Var → M D (Unit {0})
  take_step increment = op_increment
  take_step decrement = op_decrement

  abbrev pub stepped : Step → D → D
  stepped increment x = fl.add x fl.one
  stepped decrement x = fl.sub x fl.one

  change_lem :
      (f : D → D) {env : Env D} {a : Var} {p : Address} {x : D}
      → IsNumber env a p x
      → change f a.ptr env ≡ ok (tt, set_cell env p (number (f x)))
  unfolding change
  change_lem f {x = x} h = rw (load_double_lem h, ◌>>=◌, store_double_lem (f x) h) refl

  write_back-none : {env : Env D} (a : Var) → a.ref ≡ none → write_back a env ≡ ok (tt, env)
  unfolding write_back
  write_back-none a e = rw e refl

  write_back-some :
      {env : Env D} {a v : Var} {name : Name} {p q : Address} {x old : D}
      → IsNumber env a p x
      → a.ref ≡ some name
      → var_lookup env.vars name ≡ some v
      → IsNumber env v q old
      → write_back a env ≡ ok (tt, set_cell env q (number x))
  unfolding write_back deref
  write_back-some {x = x} h e l k = rw (e, l, load_double_lem h, ◌>>=◌, store_double_lem x k) refl

  -- The state between the two writes.
  between :
      {env : Env D} {a : Var} {p : Address} {x : D} (y : D)
      → IsNumber env a p x
      → IsNumber (set_cell env p (number y)) a p y
  between y h = record { type = h.type; ptr = h.ptr; cell = ground arith }

  other :
      {env : Env D} {v : Var} {p q : Address} {old : D} (y : D)
      → p ≢ q
      → IsNumber env v q old
      → IsNumber (set_cell env p (number y)) v q old
  other y n k = record { type = k.type; ptr = k.ptr; cell = ground (arith, k.cell) }

  -- `++` or `--` of a number that was not read from a variable changes the memory of the operand
  -- alone, by one.
  pub take_step-temporary :
      (step : Step) {env : Env D} {a : Var} {p : Address} {x : D}
      → IsNumber env a p x
      → a.ref ≡ none
      → take_step step a env ≡ ok (tt, set_cell env p (number (stepped step x)))
  unfolding op_increment op_decrement
  take_step-temporary increment {a = a} {x = x} h e =
      rw (h.type, change_lem (λ y. fl.add y fl.one) h, ◌>>=◌, write_back-none a e) refl
  take_step-temporary decrement {a = a} {x = x} h e =
      rw (h.type, change_lem (λ y. fl.sub y fl.one) h, ◌>>=◌, write_back-none a e) refl

  -- `++` or `--` of a copy of a number variable of the table, in memory of its own, gives both
  -- the copy and the variable the value of the copy changed by one, and changes no other memory.
  pub take_step-variable :
      (step : Step) {env : Env D} {a v : Var} {name : Name} {p q : Address} {x old : D}
      → p ≢ q
      → IsNumber env a p x
      → a.ref ≡ some name
      → var_lookup env.vars name ≡ some v
      → IsNumber env v q old
      → take_step step a env
        ≡ ok (tt, set_cell (set_cell env p (number (stepped step x))) q (number (stepped step x)))
  unfolding op_increment op_decrement
  take_step-variable increment {x = x} n h e l k =
      let y = fl.add x fl.one in
      rw
        (
          h.type,
          change_lem (λ y. fl.add y fl.one) h,
          ◌>>=◌,
          write_back-some (between y h) e l (other y n k),
        )
        refl
  take_step-variable decrement {x = x} n h e l k =
      let y = fl.sub x fl.one in
      rw
        (
          h.type,
          change_lem (λ y. fl.sub y fl.one) h,
          ◌>>=◌,
          write_back-some (between y h) e l (other y n k),
        )
        refl
