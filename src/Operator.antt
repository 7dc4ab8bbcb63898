-- ===== src/Operator.antt =====
-- core/operator.c: what the instructions of the interpreter do to the variables on its stack. An
-- operator writes its result into the memory of its left operand; where it changes the variable
-- itself, as `+` and swap do, the new variables are returned.
use bombyx.Prelude.{
  ℕ, suc, ◌+◌, ◌-◌, ◌^◌, ◌%◌, Bool, true, false, not, ◌&&◌, ◌||◌, Option, none, some, List, [], ◌∷◌,
  ltb, leb, ◌==◌, if◌then◌else◌,
}
use bombyx.Run.{null_pointer}
use bombyx.Value.{VarType, same_type, Address, Var}
use bombyx.Double.{Double}
use bombyx.Env.{Env, M, pure, undefined, runtime_error, ◌>>=◌, ◌>>◌}
use bombyx.Memory.{load_double, store_double, load_bytes}
use bombyx.Table.{Name, same_name}
use bombyx.Copy.{deref}
pub mod Add
pub mod Reverse
pub mod Compare
pub mod Laws
pub mod Strings
pub mod Shared
pub mod Bytes
pub mod Reversal
pub mod Swapping
pub mod Increment
pub mod Logic

abbrev pub is_type : VarType → Var → Bool
is_type t a = same_type a.type t

abbrev pub both : VarType → Var → Var → Bool
both t a b = is_type t a && is_type t b

abbrev pub either : VarType → Var → Var → Bool
either t a b = is_type t a || is_type t b

unfoldable pub op_swap : Var → Var → Var × Var
op_swap a b = (b, a)

module _ {D : Type 0} ⦃fl : Double D⦄ where
  -- `*(double *)p = f(*(double *)p, *(double *)q)`
  unfoldable pub combine : (D → D → D) → Option Address → Option Address → M D (Unit {0})
  unfolding load_double store_double
  combine f p q = do x ← load_double p; y ← load_double q; store_double p (f x y)

  -- `*(double *)p = f(*(double *)p)`
  unfoldable pub change : (D → D) → Option Address → M D (Unit {0})
  unfolding load_double store_double
  change f p = do x ← load_double p; store_double p (f x)

  unfoldable pub op_subtract : Var → Var → M D (Unit {0})
  unfolding combine same_type
  op_subtract a b = if both VarType.double a b then combine fl.sub a.ptr b.ptr else runtime_error

  unfoldable pub op_multiply : Var → Var → M D (Unit {0})
  unfolding combine same_type
  op_multiply a b = if both VarType.double a b then combine fl.mul a.ptr b.ptr else runtime_error

  unfoldable pub op_divide : Var → Var → M D (Unit {0})
  unfolding combine same_type
  op_divide a b = if both VarType.double a b then combine fl.div a.ptr b.ptr else runtime_error

  -- The guards of these ask for one number only.
  unfoldable pub op_power : Var → Var → M D (Unit {0})
  unfolding combine same_type
  op_power a b = if either VarType.double a b then combine fl.pow a.ptr b.ptr else runtime_error

  unfoldable pub op_modulo : Var → Var → M D (Unit {0})
  unfolding combine same_type
  op_modulo a b = if either VarType.double a b then combine fl.fmod a.ptr b.ptr else runtime_error

  abbrev pub of_bool : Bool → D
  of_bool b = if b then fl.one else fl.zero

  -- `&&` and `||` of C read their right operand only where the left one does not decide.
  unfoldable pub op_and : Var → Var → M D (Unit {0})
  unfolding load_double store_double same_type
  op_and a b =
      if either VarType.double a b
      then (do
        x ← load_double a.ptr
        elim (fl.truthy x) [
          | false ↦ store_double a.ptr fl.zero
          | true ↦ do y ← load_double b.ptr; store_double a.ptr (of_bool (fl.truthy y))
        ])
      else runtime_error

  unfoldable pub op_or : Var → Var → M D (Unit {0})
  unfolding load_double store_double same_type
  op_or a b =
      if either VarType.double a b
      then (do
        x ← load_double a.ptr
        elim (fl.truthy x) [
          | true ↦ store_double a.ptr fl.one
          | false ↦ do y ← load_double b.ptr; store_double a.ptr (of_bool (fl.truthy y))
        ])
      else runtime_error

  unfoldable pub op_invert : Var → M D (Unit {0})
  unfolding change same_type
  op_invert a =
      if is_type VarType.double a
      then change (λ x. of_bool (not (fl.nonzero x))) a.ptr
      else runtime_error

  -- `if (a->ref) *(double *)a->ref->v.data = *(double *)a->data`
  unfoldable pub write_back : Var → M D (Unit {0})
  unfolding load_double store_double deref
  write_back a = elim a.ref [
    | none ↦ pure tt
    | some r ↦ do v ← deref r; x ← load_double a.ptr; store_double v.ptr x
  ]

  unfoldable pub op_increment : Var → M D (Unit {0})
  unfolding change write_back same_type
  op_increment a =
      if is_type VarType.double a
      then (do change (λ x. fl.add x fl.one) a.ptr; write_back a)
      else runtime_error

  unfoldable pub op_decrement : Var → M D (Unit {0})
  unfolding change write_back same_type
  op_decrement a =
      if is_type VarType.double a
      then (do change (λ x. fl.sub x fl.one) a.ptr; write_back a)
      else runtime_error

  -- A string is true if it has a byte before its zero.
  unfoldable pub var_is_true : Var → M D Bool
  unfolding load_double runtime_error
  var_is_true a = elim a.type [
    | VarType.double ↦ do x ← load_double a.ptr; pure (fl.nonzero x)
    | VarType.string ↦ pure (ltb 1 a.data_size)
    | VarType.unset ↦ pure false
    | _ ↦ runtime_error
  ]
