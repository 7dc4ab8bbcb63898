-- ===== src/Cocoon/Laws.antt =====
-- core/cocoon.c: what cocoon_add does to the function from names to handles of the table.
use bombyx.Prelude.{
  ℕ, ◌≡◌, ◌<◌, refl, Option, none, some, List, arith, ltb, true, length, Option-cases, inl, inr,
}
use std.Path.{subst}
use bombyx.Run.{Returns}
use bombyx.Table.{Name, add, insert, lookup}
use bombyx.Table.Laws.{IsWf}
use bombyx.Table.Methods.{Adds, add-Adds}
use bombyx.Cocoon.{CocoonTable, cocoon_lookup, filename, cocoon_add}

-- What cocoon_add returns and leaves, where it opens no file, and where it has opened one.
pub data Loaded (dlopen : List ℕ → Option ℕ) (dir_home directory : List ℕ) (t : CocoonTable)
    (name : Name) : Option ℕ × (CocoonTable × List ℕ) → Type 0 where
  present :
      (h : ℕ)
      → cocoon_lookup t name ≡ some h
      → Loaded dlopen dir_home directory t name (none, (t, directory))
  missing :
      cocoon_lookup t name ≡ none
      → dlopen (filename dir_home name) ≡ none
      → Loaded dlopen dir_home directory t name (none, (t, directory))
  opened :
      (h : ℕ) (t' : CocoonTable)
      → cocoon_lookup t name ≡ none
      → dlopen (filename dir_home name) ≡ some h
      → Adds t name h t'
      → Loaded dlopen dir_home directory t name (some h, (t', dir_home))

add_absent :
    {t : CocoonTable}
    → IsWf t
    → (name : Name) (h : ℕ) → lookup t name ≡ none
    → Adds t name h (insert t name h)
unfolding add
add_absent {t} wf name h e = subst (λ u. Adds t name h u) (rw (e, add) refl) (add-Adds wf name h)

-- On a well-formed table, with a file name of less than 4096 bytes, cocoon_add returns. Either the
-- name was there, or dlopen fails on the file of the name, and then it returns NULL and leaves the
-- table and the working directory; or dlopen gives a handle, and then it returns the entry, the
-- name has the handle, every other name keeps its own, the table stays well formed, and the
-- working directory is the home directory.
pub cocoon_add-Loaded :
    {t : CocoonTable}
    → IsWf t
    → (dlopen : List ℕ → Option ℕ) (dir_home directory : List ℕ) (name : Name)
    → length (filename dir_home name) < 4096
    → Returns
        (cocoon_add dlopen dir_home directory t name)
        (Loaded dlopen dir_home directory t name)
unfolding cocoon_add cocoon_lookup
cocoon_add-Loaded {t} wf dlopen dir_home directory name short =
    let file = filename dir_home name in
    let fits : ltb (length file) 4096 ≡ true = ground (arith, short) in
    elim (Option-cases (lookup t name)) [
      | inr (h, e) ↦ ((none, (t, directory)), rw (e, cocoon_add) refl, present h e)
      | inl e ↦ elim (Option-cases (dlopen file)) [
        | inl d ↦ ((none, (t, directory)), rw (e, fits, d, cocoon_add) refl, missing e d)
        | inr (h, d) ↦ (
          (some h, (insert t name h, dir_home)),
          rw (e, fits, d, cocoon_add) refl,
          opened h (insert t name h) e d (add_absent wf name h e),
        )
      ]
    ]
