-- ===== src/Env.antt =====
-- `bombyx_env_t` of core/common.h, and the monad of the code that takes it: state passing over an
-- environment, with the three endings of `Run`. `bc_stack` is a list, its top first, whose length
-- is `bc_stack_size`.
use bombyx.Prelude.{ℕ, List}
use bombyx.Run.{Run, ok, jump, fault, Fault}
use bombyx.Table.{Table}
use bombyx.Block.{BlockTable}
use bombyx.Bytecode.{Bytecode}
use bombyx.Value.{Var, Heap}

pub record Env (D : Type 0) : Type 0 where
  pub heap : Heap D
  pub vars : Table Var
  pub blocks : BlockTable
  -- the handle that dlopen gave for each cocoon
  pub cocoons : Table ℕ
  pub gl_level : ℕ
  pub run_flag : List ℕ
  pub ret_point : List ℕ
  pub bc : Bytecode
  pub bc_stack : List Var

abbrev pub M : Type 0 → Type 0 → Type 0
M D A = Env D → Run (A × Env D)

module _ {D : Type 0} where
  abbrev pub pure : {A : Type 0} → A → M D A
  pure a env = ok (a, env)

  infixl 5 ◌>>=◌ ◌>>◌
  abbrev pub ◌>>=◌ : {A B : Type 0} → M D A → (A → M D B) → M D B
  ◌>>=◌ m f env = elim (m env) [ ok (a, env') ↦ f a env' | jump e ↦ jump e | fault e ↦ fault e ]

  abbrev pub ◌>>◌ : {B : Type 0} → M D (Unit {0}) → M D B → M D B
  m >> k = m >>= λ _. k

  -- a step that reads and writes nothing of the environment
  abbrev pub lift : {A : Type 0} → Run A → M D A
  lift r env = elim r [ ok a ↦ ok (a, env) | jump e ↦ jump e | fault e ↦ fault e ]

  -- undefined behaviour
  abbrev pub undefined : {A : Type 0} → Fault → M D A
  undefined e env = fault e

  -- runtime_error and larva_error of core/larva.c print a message and jump out.
  unfoldable pub runtime_error : {A : Type 0} → M D A
  runtime_error env = jump 2

  unfoldable pub larva_error : {A : Type 0} → M D A
  larva_error env = jump 1
