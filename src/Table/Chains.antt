-- ===== src/Table/Chains.antt =====
-- One list of a hash table: what a lookup sees after each write, and how often a key stands in it.
use bombyx.Prelude.{
  ℕ, ◌+◌, ◌≤◌, ◌≡◌, refl, Bool, true, false, none, some, [], ◌∷◌, arith, if◌then◌else◌,
}
use bombyx.Table.{Name, Chain, same_name, find, replace, unlink}
use bombyx.Table.Names.{same_name_iff}

abbrev pub to_ℕ : Bool → ℕ
to_ℕ true = 1
to_ℕ false = 0

module _ {ℓ} {V : Type ℓ} where
  unfoldable pub count : Name → Chain V → ℕ
  count q [] = 0
  count q (e ∷ list) = to_ℕ (same_name q e.0) + count q list

  pub find-eq-none : (q : Name) (list : Chain V) → count q list ≡ 0 → find q list ≡ none
  unfolding count find
  find-eq-none q [] h = refl
  find-eq-none q (e ∷ list) h = ground (arith, find-eq-none q list)

  pub count-eq-zero : (q : Name) (list : Chain V) → find q list ≡ none → count q list ≡ 0
  unfolding count find
  count-eq-zero q [] h = refl
  count-eq-zero q (e ∷ list) h = ground (arith, count-eq-zero q list)

  module _ (k q : Name) where
    pub find-replace :
        (v : V) (list : Chain V) (old : V)
        → find k list ≡ some old
        → find q (replace k v list) ≡ (if same_name q k then some v else find q list)
    unfolding find replace
    find-replace v [] old h = cc
    find-replace v (e ∷ list) old h = ground (
      arith,
      find-replace v list old,
      same_name_iff q k,
      same_name_iff k e.0,
      same_name_iff q e.0,
    )

    pub count-replace : (v : V) (list : Chain V) → count q (replace k v list) ≡ count q list
    unfolding count replace
    count-replace v [] = refl
    count-replace v (e ∷ list) = ground (arith, count-replace v list)

    pub find-unlink :
        (list : Chain V)
        → count q list ≤ 1
        → find q (unlink k list) ≡ (if same_name q k then none else find q list)
    unfolding find unlink count
    find-unlink [] h = ground arith
    find-unlink (e ∷ list) h = ground (
      arith,
      find-unlink list,
      find-eq-none q list,
      same_name_iff q k,
      same_name_iff k e.0,
      same_name_iff q e.0,
    )

    pub count-unlink-le : (list : Chain V) → count q (unlink k list) ≤ count q list
    unfolding count unlink
    count-unlink-le [] = omega arith
    count-unlink-le (e ∷ list) = ground (arith, count-unlink-le list)
