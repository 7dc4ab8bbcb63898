-- ===== src/Table/Methods.antt =====
-- What an operation of a hash table does to the function that the table stands for.
use bombyx.Prelude.{
  ℕ, arith, ◌≡◌, refl, Option, none, some, if◌then◌else◌, Option-cases, inl, inr, Bool-cases,
}
use bombyx.Table.{Name, Table, same_name, lookup, add, delete}
use bombyx.Table.Names.{eq_of_same_name}
use bombyx.Table.Laws.{IsWf, insert-IsWf, lookup-insert, delete-IsWf, lookup-delete, delete-status}

abbrev pub or_new {ℓ} : {V : Type ℓ} → Option V → V → V
or_new none v = v
or_new (some old) v = old

module _ {ℓ} {V : Type ℓ} where
  -- The first value of a name stays, and no other name changes.
  pub record Adds (t : Table V) (k : Name) (v : V) (t' : Table V) : Type ℓ where
    pub wf : IsWf t'
    pub reads :
        (q : Name)
        → lookup t' q ≡ (if same_name q k then some (or_new (lookup t k) v) else lookup t q)

  pub record Deletes (t : Table V) (k : Name) (r : ℕ × Table V) : Type ℓ where
    pub wf : IsWf r.1
    pub status : r.0 ≡ (elim (lookup t k) [ none ↦ 1 | some _ ↦ 0 ])
    pub reads : (q : Name) → lookup r.1 q ≡ (if same_name q k then none else lookup t q)

  module _ {t : Table V} (wf : IsWf t) (k : Name) where
    present :
        (v old : V) (q : Name)
        → lookup t k ≡ some old
        → lookup t q ≡ (if same_name q k then some (or_new (lookup t k) v) else lookup t q)
    present v old q e = elim (Bool-cases (same_name q k)) [
      | inl s ↦ rw (s, eq_of_same_name q k s, e) refl
      | inr n ↦ rw n refl
    ]

    pub add-Adds : (v : V) → Adds t k v (add t k v).1
    unfolding add
    add-Adds v = elim (Option-cases (lookup t k)) [
      | inl e ↦
          rw (e, add)
            (record { wf = insert-IsWf wf k v e; reads = λ q. rw (lookup-insert wf k v q, e) refl })
      | inr (old, e) ↦ rw (e, add) (record { wf = wf; reads = λ q. present v old q e })
    ]

    pub add-status : (v : V) → (add t k v).0 ≡ (elim (lookup t k) [ none ↦ some v | some _ ↦ none ])
    unfolding add
    add-status v = ground arith

    pub delete-Deletes : Deletes t k (delete t k)
    delete-Deletes = record {
      wf = delete-IsWf wf k;
      status = delete-status wf k;
      reads = lookup-delete wf k;
    }
