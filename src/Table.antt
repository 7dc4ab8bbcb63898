-- ===== src/Table.antt =====
-- The chained hash table that core/block.c, core/map.c, core/var.c and core/cocoon.c each write out
-- for their own entry type: an array of linked lists, keyed by C strings. A string is the list of
-- its bytes before the terminator, and a list `next` by `next` is a list of entries. Memory is
-- taken to be given whenever it is asked for.
use bombyx.Prelude.{
  ℕ, suc, ◌+◌, ◌-◌, ◌*◌, ◌%◌, ◌^◌, Bool, true, false, ◌&&◌, Option, none, some, List, [], ◌∷◌, ltb,
  ◌==◌, if◌then◌else◌, get_or, set, replicate,
}
pub mod Names
pub mod Chains
pub mod Laws
pub mod Methods

abbrev pub Name : Type 0
Name = List ℕ

-- `strcmp(a, b) == 0`
unfoldable pub same_name : Name → Name → Bool
same_name [] [] = true
same_name (x ∷ xs) (y ∷ ys) = x == y && same_name xs ys
same_name _ _ = false

-- A `char` is signed where the program runs: it is widened to `unsigned int` with its sign.
unfoldable pub sign_extend : ℕ → ℕ
sign_extend c = if ltb c 128 then c else c + (2 ^ 32 - 256)

-- `hashval = *str + (hashval << 5) - hashval`, in 32 bits
unfoldable pub hash_step : ℕ → ℕ → ℕ
unfolding sign_extend
hash_step hashval c = (sign_extend c + (hashval * 32) % 2 ^ 32 + 2 ^ 32 - hashval) % 2 ^ 32

unfoldable pub hash_loop : ℕ → Name → ℕ
unfolding hash_step
hash_loop hashval [] = hashval
hash_loop hashval (c ∷ str) = hash_loop (hash_step hashval c) str

abbrev pub Chain {ℓ} : Type ℓ → Type ℓ
Chain V = List (Name × V)

pub record Table {ℓ} (V : Type ℓ) : Type ℓ where
  pub size : ℕ
  pub table : List (Chain V)

unfoldable pub hash {ℓ} : {V : Type ℓ} → Table V → Name → ℕ
unfolding hash_loop
hash hashtable str = hash_loop 0 str % hashtable.size

module _ {ℓ} {V : Type ℓ} where
  -- the walk of a lookup along one list
  unfoldable pub find : Name → Chain V → Option V
  find str [] = none
  find str (e ∷ list) = if same_name str e.0 then some e.1 else find str list

  -- a write through the pointer that a lookup returned
  unfoldable pub replace : Name → V → Chain V → Chain V
  replace str v [] = []
  replace str v (e ∷ list) = if same_name str e.0 then (e.0, v) ∷ list else e ∷ replace str v list

  -- the walk of a deletion, with `prev->next = list->next` at the entry found
  unfoldable pub unlink : Name → Chain V → Chain V
  unlink str [] = []
  unlink str (e ∷ list) = if same_name str e.0 then list else e ∷ unlink str list

  unfoldable pub create : ℕ → Option (Table V)
  create size =
      if ltb size 1 then none else some (record { size = size; table = replicate size [] })

  abbrev pub chain : Table V → Name → Chain V
  chain hashtable str = get_or hashtable.table (hash hashtable str) []

  abbrev pub put_chain : Table V → Name → Chain V → Table V
  put_chain hashtable str list = record hashtable {
    table = set hashtable.table (hash hashtable str) list;
  }

  unfoldable pub lookup : Table V → Name → Option V
  unfolding find hash same_name
  lookup hashtable str = find str (chain hashtable str)

  unfoldable pub update : Table V → Name → V → Table V
  unfolding replace hash same_name
  update hashtable str v = put_chain hashtable str (replace str v (chain hashtable str))

  -- insertion at the head, without the test for a present key
  unfoldable pub insert : Table V → Name → V → Table V
  unfolding hash
  insert hashtable str v = put_chain hashtable str ((str, v) ∷ chain hashtable str)

  -- An entry that exists is not inserted again: the answer is then NULL.
  unfoldable pub add : Table V → Name → V → Option V × Table V
  unfolding lookup insert
  add hashtable str v = elim (lookup hashtable str) [
    | some current ↦ (none, hashtable)
    | none ↦ (some v, insert hashtable str v)
  ]

  -- 1 if the key was not found, else 0
  unfoldable pub delete : Table V → Name → ℕ × Table V
  unfolding find unlink hash same_name
  delete hashtable str = elim (find str (chain hashtable str)) [
    | none ↦ (1, hashtable)
    | some _ ↦ (0, put_chain hashtable str (unlink str (chain hashtable str)))
  ]

  -- every list freed; the array is cleared (`reset_only`) or freed too
  unfoldable pub clear : Table V → Bool → Option (Table V)
  clear hashtable true = some (record hashtable { table = replicate hashtable.size [] })
  clear hashtable false = none
