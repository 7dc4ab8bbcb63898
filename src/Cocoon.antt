-- ===== src/Cocoon.antt =====
-- core/cocoon.c: the table of the native libraries that a program has loaded, by their names. A
-- handle of dlopen is a number; dlopen is an argument.
use bombyx.Prelude.{
  ℕ, ◌+◌, Bool, Option, none, some, List, [], ◌∷◌, ◌++◌, ltb, if◌then◌else◌, length,
}
use bombyx.Run.{Run, ok, fault, out_of_bounds}
use bombyx.Table.{Name, Chain, Table, hash, lookup, insert, create, clear}
pub mod Laws

abbrev pub CocoonTable : Type 0
CocoonTable = Table ℕ

unfoldable pub cocoon_table_create : ℕ → Option CocoonTable
unfolding create
cocoon_table_create size = create size

unfoldable pub cocoon_hash : CocoonTable → Name → ℕ
unfolding hash
cocoon_hash hashtable str = hash hashtable str

unfoldable pub cocoon_lookup : CocoonTable → Name → Option ℕ
unfolding lookup
cocoon_lookup hashtable str = lookup hashtable str

-- "/cocoons/" and ".ccn"
abbrev pub folder : List ℕ
folder = b'/' ∷ b'c' ∷ b'o' ∷ b'c' ∷ b'o' ∷ b'o' ∷ b'n' ∷ b's' ∷ b'/' ∷ []

abbrev pub suffix : List ℕ
suffix = b'.' ∷ b'c' ∷ b'c' ∷ b'n' ∷ []

unfoldable pub filename : List ℕ → Name → List ℕ
filename dir_home cocoon_name = dir_home ++ (folder ++ (cocoon_name ++ suffix))

-- The name of the file is put together in 4096 bytes. A cocoon that is there is not opened again.
-- `directory` is the working directory, which chdir sets behind dlopen.
unfoldable pub cocoon_add :
    (List ℕ → Option ℕ)
    → List ℕ
    → List ℕ
    → CocoonTable
    → Name
    → Run (Option ℕ × (CocoonTable × List ℕ))
unfolding cocoon_lookup insert filename
cocoon_add dlopen dir_home directory hashtable cocoon_name =
    elim (cocoon_lookup hashtable cocoon_name) [
      | some current ↦ ok (none, (hashtable, directory))
      | none ↦
          let file = filename dir_home cocoon_name in
          if ltb (length file) 4096
          then elim (dlopen file) [
            | none ↦ ok (none, (hashtable, directory))
            | some handle ↦ ok (some handle, (insert hashtable cocoon_name handle, dir_home))
          ]
          else fault out_of_bounds
    ]

-- The handles that are closed, in this order.
unfoldable pub handles : List (Chain ℕ) → List ℕ
handles [] = []
handles ([] ∷ lists) = handles lists
handles ((e ∷ list) ∷ lists) = e.1 ∷ handles (list ∷ lists)

unfoldable pub cocoon_table_delete : CocoonTable → Bool → List ℕ × Option CocoonTable
unfolding handles clear
cocoon_table_delete hashtable reset_only = (handles hashtable.table, clear hashtable reset_only)
