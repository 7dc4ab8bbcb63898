-- ===== src/Block.antt =====
-- core/block.c: the table of the blocks (functions) that a program defines, by their dotted names.
-- A pointer to another block is that block's name.
use bombyx.Prelude.{ℕ, Bool, Option}
use bombyx.Table.{Name, Table, hash, lookup, add, delete, clear, create}
pub mod Laws

pub record BlockT : Type 0 where
  pub pos : ℕ
  pub parent : Option Name

abbrev pub BlockTable : Type 0
BlockTable = Table BlockT

unfoldable pub block_table_create : ℕ → Option BlockTable
unfolding create
block_table_create size = create size

unfoldable pub block_hash : BlockTable → Name → ℕ
unfolding hash
block_hash hashtable str = hash hashtable str

unfoldable pub block_lookup : BlockTable → Name → Option BlockT
unfolding lookup
block_lookup hashtable str = lookup hashtable str

unfoldable pub block_add : BlockTable → Name → ℕ → Option Name → Option BlockT × BlockTable
unfolding add
block_add hashtable str pos parent = add hashtable str (record { pos = pos; parent = parent })

unfoldable pub block_delete : BlockTable → Name → ℕ × BlockTable
unfolding delete
block_delete hashtable str = delete hashtable str

unfoldable pub block_table_delete : BlockTable → Bool → Option BlockTable
unfolding clear
block_table_delete hashtable reset_only = clear hashtable reset_only
