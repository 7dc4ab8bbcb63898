-- ===== src/Operator/Laws.antt =====
-- core/operator.c: the operators on numbers, and what their guards let through.
use bombyx.Prelude.{ℕ, ◌≡◌, refl, some, List, arith}
use bombyx.Run.{ok, fault, type_confusion}
use bombyx.Value.{VarType, Address, Var, Object, number, bytes}
use bombyx.Double.{Double}
use bombyx.Env.{Env, M, ◌>>=◌}
use bombyx.Memory.{put, load_double, store_double}
use bombyx.Operator.{combine, op_subtract, op_multiply, op_divide, op_power, op_modulo}

-- The environment with another object at an address.
abbrev pub set_cell : {D : Type 0} → Env D → Address → Object D → Env D
set_cell env p o = record env { heap = record env.heap { cell = put env.heap.cell p (some o) } }

-- A variable of type VAR_DOUBLE with the number in its own memory.
pub record IsNumber {D : Type 0} (env : Env D) (a : Var) (p : Address) (x : D) : Type 0 where
  pub type : a.type ≡ VarType.double
  pub ptr : a.ptr ≡ some p
  pub cell : env.heap.cell p ≡ some (number x)

-- A variable of type VAR_STRING with some bytes in its own memory.
pub record HasBytes {D : Type 0} (env : Env D) (a : Var) (p : Address) (bs : List ℕ) : Type 0 where
  pub type : a.type ≡ VarType.string
  pub ptr : a.ptr ≡ some p
  pub cell : env.heap.cell p ≡ some (bytes bs)

-- The operators whose two operands must be numbers, and those that ask it of one.
pub data Strict : Type 0 where
  subtract multiply divide : Strict

pub data Lax : Type 0 where
  power modulo : Lax

module _ {D : Type 0} ⦃fl : Double D⦄ where
  abbrev pub perform : Strict → Var → Var → M D (Unit {0})
  perform subtract = op_subtract
  perform multiply = op_multiply
  perform divide = op_divide

  abbrev pub perform_lax : Lax → Var → Var → M D (Unit {0})
  perform_lax power = op_power
  perform_lax modulo = op_modulo

  abbrev pub meaning : Strict → D → D → D
  meaning subtract = fl.sub
  meaning multiply = fl.mul
  meaning divide = fl.div

  abbrev pub meaning_lax : Lax → D → D → D
  meaning_lax power = fl.pow
  meaning_lax modulo = fl.fmod

  pub load_double_lem :
      {env : Env D} {a : Var} {p : Address} {x : D}
      → IsNumber env a p x
      → load_double a.ptr env ≡ ok (x, env)
  unfolding load_double
  load_double_lem n = ground arith

  pub store_double_lem :
      {env : Env D} {a : Var} {p : Address} {x : D} (y : D)
      → IsNumber env a p x
      → store_double a.ptr y env ≡ ok (tt, set_cell env p (number y))
  unfolding store_double
  store_double_lem y n = ground arith

  pub combine_lem :
      {env : Env D} {a b : Var} {p q : Address} {x y : D} (f : D → D → D)
      → IsNumber env a p x
      → IsNumber env b q y
      → combine f a.ptr b.ptr env ≡ ok (tt, set_cell env p (number (f x y)))
  unfolding combine
  combine_lem {x = x} {y = y} f n m =
      rw (load_double_lem n, ◌>>=◌, load_double_lem m) (store_double_lem (f x y) n)

  -- `-`, `*` and `/` of two numbers write the result over the left one, and change nothing else.
  pub perform_lem :
      (o : Strict) {env : Env D} {a b : Var} {p q : Address} {x y : D}
      → IsNumber env a p x
      → IsNumber env b q y
      → perform o a b env ≡ ok (tt, set_cell env p (number (meaning o x y)))
  unfolding op_subtract op_multiply op_divide
  perform_lem subtract n m = rw (n.type, m.type) (combine_lem fl.sub n m)
  perform_lem multiply n m = rw (n.type, m.type) (combine_lem fl.mul n m)
  perform_lem divide n m = rw (n.type, m.type) (combine_lem fl.div n m)

  -- `^` and `%` of two numbers write the result over the left one, and change nothing else.
  pub perform_lax-numbers :
      (o : Lax) {env : Env D} {a b : Var} {p q : Address} {x y : D}
      → IsNumber env a p x
      → IsNumber env b q y
      → perform_lax o a b env ≡ ok (tt, set_cell env p (number (meaning_lax o x y)))
  unfolding op_power op_modulo
  perform_lax-numbers power n m = rw n.type (combine_lem fl.pow n m)
  perform_lax-numbers modulo n m = rw n.type (combine_lem fl.fmod n m)

  confused :
      {env : Env D} {a : Var} {p : Address} {bs : List ℕ}
      → HasBytes env a p bs
      → load_double a.ptr env ≡ fault type_confusion
  unfolding load_double
  confused s = ground arith

  combine-confused_left :
      {env : Env D} {a : Var} {p : Address} {bs : List ℕ} (f : D → D → D) (b : Var)
      → HasBytes env a p bs
      → combine f a.ptr b.ptr env ≡ fault type_confusion
  unfolding combine
  combine-confused_left f b s = rw (confused s, ◌>>=◌) refl

  combine-confused_right :
      {env : Env D} {a b : Var} {p q : Address} {bs : List ℕ} {x : D} (f : D → D → D)
      → IsNumber env a p x
      → HasBytes env b q bs
      → combine f a.ptr b.ptr env ≡ fault type_confusion
  unfolding combine
  combine-confused_right f n s = rw (load_double_lem n, ◌>>=◌, confused s) refl

  -- The guards of `^` and `%` let a string through beside a number, on either side, and its bytes
  -- are then read as a number.
  pub perform_lax-confused :
      (o : Lax) {env : Env D} {a b : Var} {p q : Address} {x : D} {bs : List ℕ}
      → IsNumber env a p x
      → HasBytes env b q bs
      → (perform_lax o a b env ≡ fault type_confusion)
        × (perform_lax o b a env ≡ fault type_confusion)
  unfolding op_power op_modulo
  perform_lax-confused power {a = a} n s = (
    rw n.type (combine-confused_right fl.pow n s),
    rw (s.type, n.type) (combine-confused_left fl.pow a s),
  )
  perform_lax-confused modulo {a = a} n s = (
    rw n.type (combine-confused_right fl.fmod n s),
    rw (s.type, n.type) (combine-confused_left fl.fmod a s),
  )
