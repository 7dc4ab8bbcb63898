-- ===== src/VarTable/Prefix.antt =====
-- core/var.c: var_lookup_2, which takes a name without the zero at its end, against var_lookup.
use std.Path.{subst}
use bombyx.Prelude.{
  ◌<◌, ◌≡◌, refl, true, false, Option, none, some, [], ◌∷◌, arith, Bool-cases, inl, inr, sym,
}
use bombyx.Table.{Name, Chain, same_name, find, insert, lookup, chain, put_chain}
use bombyx.Table.Names.{same_name_iff, eq_of_same_name}
use bombyx.Table.Chains.{count}
use bombyx.Table.Laws.{IsWf, chain-put_chain}
use bombyx.Value.{VarType, Var}
use bombyx.VarTable.{
  VarTable, var_hash, var_lookup, var_lookup_2, var_add, new_var, same_bytes, find_2,
}

same_bytes_refl : (str : Name) → same_bytes str str ≡ true
unfolding same_bytes
same_bytes_refl [] = refl
same_bytes_refl (x ∷ str) = ground (arith, same_bytes_refl str)

abbrev pub named : Name → Option Var → Option (Name × Var)
named str none = none
named str (some v) = some (str, v)

longer :
    (str q : Name) (v : Var) (c : Chain Var)
    → ((r : Name) → 0 < count r ((q, v) ∷ c) → same_bytes str r ≡ true → r ≡ str)
    → same_name str q ≡ false
    → same_bytes str q ≡ false
unfolding count
longer str q v c exact n = elim (Bool-cases (same_bytes str q)) [
  | inl e ↦
      let self = (same_name_iff q q).1 refl in
      let whole : q ≡ str = exact q (ground (arith, self)) e in
      absurd (ground (arith, whole, self, (same_name_iff str q).1 (sym whole)))
  | inr e ↦ e
]

find_2-find :
    (str : Name) (c : Chain Var)
    → ((q : Name) → 0 < count q c → same_bytes str q ≡ true → q ≡ str)
    → find_2 str c ≡ named str (find str c)
unfolding find_2 find
find_2-find str [] exact = refl
find_2-find str ((q, v) ∷ c) exact =
    let rest = find_2-find str c (λ r h. exact r (unfold count in (omega arith))) in
    elim (Bool-cases (same_name str q)) [
      | inl e ↦
          let whole : same_bytes str q ≡ true =
            subst (λ r. same_bytes str r ≡ true) (eq_of_same_name str q e) (same_bytes_refl str) in
          rw (e, whole, eq_of_same_name str q e) refl
      | inr n ↦
          let other : same_bytes str q ≡ false = longer str q v c exact n in rw (n, other) rest
    ]

-- Where no other name of its list begins with the string, var_lookup_2 finds what var_lookup
-- finds.
pub var_lookup_2-var_lookup :
    (t : VarTable) (str : Name)
    → ((q : Name) → 0 < count q (chain t str) → same_bytes str q ≡ true → q ≡ str)
    → var_lookup_2 t str ≡ named str (var_lookup t str)
unfolding var_lookup_2 var_lookup lookup
var_lookup_2-var_lookup t str exact = find_2-find str (chain t str) exact

-- In a well-formed table, a variable that is added under a new name is found by var_lookup_2
-- under every string of the same hash that its name begins with, whatever the table had under
-- that string and whatever malloc left in its `ref`.
pub var_lookup_2-var_add :
    (left : Option Name) {t : VarTable} (str long : Name) (type : VarType)
    → IsWf t
    → var_lookup t long ≡ none
    → var_hash t str ≡ var_hash t long
    → same_bytes str long ≡ true
    → var_lookup_2 (var_add left t long type).1 str ≡ some (long, new_var left long type)
unfolding var_lookup_2 var_lookup var_hash var_add new_var
var_lookup_2-var_add left {t} str long type wf absent same begins =
    let c = (long, new_var left long type) ∷ chain t long in
    let home : chain (put_chain t long c) str ≡ c =
      rw (chain-put_chain wf long c str) (ground (arith, same)) in
    rw (var_add, absent, insert, home) (unfold find_2 in rw begins refl)
