-- ===== src/Table/Laws.antt =====
-- A hash table as a function from names to values, and the invariant of its lists.
use bombyx.Prelude.{
  ℕ, ◌≤◌, ◌<◌, ◌≡◌, ◌≢◌, refl, true, false, Option, none, some, [], ◌∷◌, arith, if◌then◌else◌,
  length, get_or, replicate, max, ◌==◌, ltb, length-set, length-replicate, get_or-replicate,
  get_or-set_self, get_or-set_ne, Option-cases, inl, inr, Bool-cases, sym, ap, ==_iff,
}
use native.Mathlib.Decide.{ℕ_discrete}
use bombyx.Table.{
  Name, Chain, Table, same_name, hash, find, replace, unlink, create, chain, put_chain, lookup,
  update, insert, delete, clear,
}
use bombyx.Table.Names.{same_name_iff, eq_of_same_name, hash-lt}
use bombyx.Table.Chains.{
  to_ℕ, count, count-eq-zero, find-replace, count-replace, find-unlink, count-unlink-le,
}

module _ {ℓ} {V : Type ℓ} where
  -- The array has the size that hashes are reduced by, and a name stands at most once, in the list
  -- of its hash.
  pub record IsWf (t : Table V) : Type ℓ where
    pub nonempty : 0 < t.size
    pub width : length t.table ≡ t.size
    pub placed :
        (q : Name) (i : ℕ)
        → (count q (get_or t.table i []) ≤ 1) × (hash t q ≢ i → count q (get_or t.table i []) ≡ 0)

  pub hash-put_chain :
      (t : Table V) (k q : Name) (c : Chain V) → hash (put_chain t k c) q ≡ hash t q
  unfolding hash
  hash-put_chain t k q c = refl

  chain_congr : (t : Table V) (q k : Name) → (hash t q == hash t k) ≡ true → chain t k ≡ chain t q
  chain_congr t q k e = ap (λ i. get_or t.table i []) (sym ((==_iff _ _).0 e))

  other_name : (t : Table V) (q k : Name) → (hash t q == hash t k) ≡ false → same_name q k ≡ false
  other_name t q k n = ground (arith, same_name_iff q k)

  module _ {t : Table V} (wf : IsWf t) (k : Name) (c : Chain V) where
    slot-lt : hash t k < length t.table
    slot-lt = omega (arith, hash-lt t k wf.nonempty, wf.width)

    pub chain-put_chain :
        (q : Name) → chain (put_chain t k c) q ≡ (if hash t q == hash t k then c else chain t q)
    chain-put_chain q = rw (hash-put_chain t k q c) (elim (ℕ_discrete (hash t k) (hash t q)) [
      | yes e ↦ rw (← e, get_or-set_self t.table (hash t k) c [] slot-lt) (ground arith)
      | no n ↦ rw (get_or-set_ne t.table (hash t k) (hash t q) c [] n) (ground arith)
    ])

    put_chain-IsWf :
        ((q : Name) → count q c ≤ max (to_ℕ (same_name q k)) (count q (chain t k)))
        → IsWf (put_chain t k c)
    put_chain-IsWf few = record {
      nonempty = wf.nonempty;
      width = rw length-set wf.width;
      placed = λ q i. rw (hash-put_chain t k q c) (elim (ℕ_discrete (hash t k) i) [
        | yes e ↦
            rw (← e, get_or-set_self t.table (hash t k) c [] slot-lt)
              (
                ground (arith, few q, wf.placed q (hash t k)),
                λ n. ground (arith, few q, wf.placed q (hash t k), same_name_iff q k, n),
              )
        | no n ↦ rw (get_or-set_ne t.table (hash t k) i c [] n) (wf.placed q i)
      ]);
    }

    -- A write of the list of `k` is seen through `k` alone, if the new list agrees with the old one
    -- at every other name.
    lookup-put_chain :
        (o : Option V)
        → ((q : Name) → find q c ≡ (if same_name q k then o else find q (chain t k)))
        → (q : Name) → lookup (put_chain t k c) q ≡ (if same_name q k then o else lookup t q)
    unfolding lookup
    lookup-put_chain o reads q = rw (chain-put_chain q) (elim (Bool-cases (hash t q == hash t k)) [
      | inl e ↦ rw (e, reads q, chain_congr t q k e) refl
      | inr n ↦ rw (n, other_name t q k n) refl
    ])

  pub create-IsWf : (size : ℕ) {t : Table V} → create size ≡ some t → IsWf t
  unfolding create
  create-IsWf size {t} e = elim (Bool-cases (ltb size 1)) [
    | inl small ↦ absurd (ground arith)
    | inr big ↦
        let made : t ≡ record { size = size; table = replicate size [] } = ground arith in
        rw made (record {
          nonempty = ground arith;
          width = length-replicate size [];
          placed = λ q i.
              rw (get_or-replicate {A = Chain V} size i [])
                (unfold count in (omega arith, λ _. refl));
        })
  ]

  find-empty :
      (n i : ℕ) (q : Name) → ◌≡◌ {A = Option V} (find q (get_or (replicate n []) i [])) none
  find-empty n i q = rw (get_or-replicate {A = Chain V} n i []) (unfold find in refl)

  pub lookup-create :
      (size : ℕ) {t : Table V} → create size ≡ some t → (q : Name) → lookup t q ≡ none
  unfolding create
  lookup-create size {t} e q = elim (Bool-cases (ltb size 1)) [
    | inl small ↦ absurd (ground arith)
    | inr big ↦
        let made : t ≡ record { size = size; table = replicate size [] } = ground arith in
        rw made (unfold lookup in find-empty size _ q)
  ]

  pub clear-IsWf : {t t' : Table V} → IsWf t → clear t true ≡ some t' → IsWf t'
  unfolding clear
  clear-IsWf {t} {t'} wf e =
      let made : t' ≡ record t { table = replicate t.size [] } = ground arith in
      rw made (record {
        nonempty = wf.nonempty;
        width = length-replicate t.size [];
        placed = λ q i.
            rw (get_or-replicate {A = Chain V} t.size i [])
              (unfold count in (omega arith, λ _. refl));
      })

  pub lookup-clear :
      (t : Table V) {t' : Table V} → clear t true ≡ some t' → (q : Name) → lookup t' q ≡ none
  unfolding clear
  lookup-clear t {t'} e q =
      let made : t' ≡ record t { table = replicate t.size [] } = ground arith in
      rw made (unfold lookup in find-empty t.size _ q)

  module _ {t : Table V} (wf : IsWf t) (k : Name) where
    at_home : (q : Name) → count q (chain t k) ≤ 1
    at_home q = (wf.placed q (hash t k)).0

    -- A name that was not there is added, and every other name keeps its value.
    pub insert-IsWf : (v : V) → lookup t k ≡ none → IsWf (insert t k v)
    unfolding insert lookup
    insert-IsWf v absent = put_chain-IsWf wf k ((k, v) ∷ chain t k) λ q.
        unfold count in
        ground (arith, same_name_iff q k, count-eq-zero k (chain t k), count-eq-zero q (chain t k))

    pub lookup-insert :
        (v : V) (q : Name)
        → lookup (insert t k v) q ≡ (if same_name q k then some v else lookup t q)
    unfolding insert
    lookup-insert v = lookup-put_chain wf k ((k, v) ∷ chain t k) (some v) (λ q. unfold find in refl)

    pub update-IsWf : (v : V) → IsWf (update t k v)
    unfolding update
    update-IsWf v =
        put_chain-IsWf wf k (replace k v (chain t k))
          λ q. ground (arith, count-replace k q v (chain t k))

    pub lookup-update :
        (v old : V) (q : Name)
        → lookup t k ≡ some old
        → lookup (update t k v) q ≡ (if same_name q k then some v else lookup t q)
    unfolding update lookup
    lookup-update v old q here =
        unfold lookup in
        lookup-put_chain wf k (replace k v (chain t k)) (some v)
          (λ q. find-replace k q v (chain t k) old here) q

    -- A deletion answers 0 exactly when the name was there, and then takes it out.
    pub delete-IsWf : IsWf (delete t k).1
    unfolding delete
    delete-IsWf = elim (Option-cases (find k (chain t k))) [
      | inl e ↦ rw (e, delete) wf
      | inr (v, e) ↦
          rw (e, delete)
            (put_chain-IsWf wf k (unlink k (chain t k))
              λ q. ground (arith, count-unlink-le k q (chain t k)))
    ]

    pub lookup-delete :
        (q : Name) → lookup (delete t k).1 q ≡ (if same_name q k then none else lookup t q)
    unfolding delete
    lookup-delete q = elim (Option-cases (find k (chain t k))) [
      | inl e ↦ rw (e, delete) (absent q e)
      | inr (v, e) ↦
          rw (e, delete)
            (lookup-put_chain wf k (unlink k (chain t k)) none
              (λ q. find-unlink k q (chain t k) (at_home q)) q)
    ]
      where
        absent :
            (q : Name)
            → find k (chain t k) ≡ none
            → lookup t q ≡ (if same_name q k then none else lookup t q)
        absent q e = elim (Bool-cases (same_name q k)) [
          | inl s ↦ rw (s, eq_of_same_name q k s) (unfold lookup in e)
          | inr n ↦ rw n refl
        ]

    pub delete-status : (delete t k).0 ≡ (elim (lookup t k) [ none ↦ 1 | some _ ↦ 0 ])
    unfolding delete lookup
    delete-status = ground arith
