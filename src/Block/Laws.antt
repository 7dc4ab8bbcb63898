-- ===== src/Block/Laws.antt =====
-- The block table as a partial function from names, under the operations of core/block.c.
use bombyx.Prelude.{
  ℕ, ◌%◌, ◌^◌, ◌≡◌, refl, Bool, true, false, Option, none, some, arith, List, [], ◌∷◌,
  if◌then◌else◌, not, ◌==◌,
}
use mathlib.Core.Path.{ap₂}
use bombyx.Table.{Name, same_name}
use bombyx.Table.Names.{poly, hash_loop-poly}
use bombyx.Table.Laws.{IsWf, create-IsWf, lookup-create, clear-IsWf, lookup-clear}
use bombyx.Table.Methods.{or_new, add-Adds, add-status, delete-Deletes}
use bombyx.Block.{
  BlockT, BlockTable, block_table_create, block_hash, block_lookup, block_add, block_delete,
  block_table_delete,
}

-- The rolling hash is the polynomial in 31 over the signed bytes, modulo 2 ^ 32 and then the size.
pub block_hash-poly :
    (t : BlockTable) (str : Name) → block_hash t str ≡ poly 0 str % 2 ^ 32 % t.size
unfolding block_hash
block_hash-poly t str = rw (hash_loop-poly 0 str 0 (omega arith)) refl

-- The calls that change a table after it is made, and whether each reports success: block_add by a
-- pointer that is not NULL, block_delete by 0.
pub data Call : Type 0 where
  add : Name → ℕ → Option Name → Call
  delete : Name → Call
  reset : Call

abbrev pub is_some {ℓ} : {A : Type ℓ} → Option A → Bool
is_some none = false
is_some (some _) = true

unfoldable pub call : Call → BlockTable → Bool × BlockTable
unfolding block_table_delete
call (add str pos parent) t = let (r, t') = block_add t str pos parent in (is_some r, t')
call (delete str) t = let (r, t') = block_delete t str in (r == 0, t')
call reset t = (true, elim (block_table_delete t true) [ none ↦ t | some t' ↦ t' ])

unfoldable pub calls : List Call → BlockTable → List Bool × BlockTable
calls [] t = ([], t)
calls (c ∷ cs) t = let (done, t') = call c t in let (rest, t'') = calls cs t' in (done ∷ rest, t'')

-- The same calls on a partial function: the first definition of a name stays until it is deleted.
abbrev pub View : Type 0
View = Name → Option BlockT

unfoldable pub effect : Call → View → Bool × View
effect (add str pos parent) f = (
  not (is_some (f str)),
  λ q.
      if same_name q str
      then some (or_new (f str) (record { pos = pos; parent = parent }))
      else f q,
)
effect (delete str) f = (is_some (f str), λ q. if same_name q str then none else f q)
effect reset f = (true, λ q. none)

unfoldable pub effects : List Call → View → List Bool × View
effects [] f = ([], f)
effects (c ∷ cs) f =
    let (done, f') = effect c f in let (rest, f'') = effects cs f' in (done ∷ rest, f'')

pub record Refines (f : View) (t : BlockTable) : Type 0 where
  pub wf : IsWf t
  pub reads : (q : Name) → block_lookup t q ≡ f q

call-Refines :
    (c : Call) {f : View} {t : BlockTable}
    → Refines f t
    → ((call c t).0 ≡ (effect c f).0) × Refines (effect c f).1 (call c t).1
unfolding call effect block_add block_delete block_table_delete block_lookup
call-Refines (add str pos parent) r =
    let b : BlockT = record { pos = pos; parent = parent } in
    let a = add-Adds r.wf str b in
    (
      ground (arith, add-status r.wf str b, r.reads str),
      record { wf = a.wf; reads = λ q. rw (a.reads q, r.reads str, r.reads q) refl },
    )
call-Refines (delete str) r =
    let d = delete-Deletes r.wf str in
    (
      ground (arith, d.status, r.reads str),
      record { wf = d.wf; reads = λ q. rw (d.reads q, r.reads q) refl },
    )
call-Refines reset {t = t} r =
    (refl, record { wf = clear-IsWf r.wf refl; reads = lookup-clear t refl })

calls-Refines :
    (cs : List Call) {f : View} {t : BlockTable}
    → Refines f t
    → ((calls cs t).0 ≡ (effects cs f).0) × Refines (effects cs f).1 (calls cs t).1
unfolding calls effects
calls-Refines [] r = (refl, r)
calls-Refines (c ∷ cs) r =
    let (done, r') = call-Refines c r in
    let (rest, r'') = calls-Refines cs r' in (ap₂ ◌∷◌ done rest, r'')

-- From a fresh table of any size from 1 up, after any calls of block_add, block_delete and a
-- resetting block_table_delete: the table is well formed, block_lookup gives at each name what the
-- same calls make of the empty partial function, and each call has reported success exactly where
-- the partial function says so (an addition of a new name, a deletion of a present one).
pub block_table-Refines :
    (size : ℕ) (cs : List Call) {t : BlockTable}
    → block_table_create size ≡ some t
    → ((calls cs t).0 ≡ (effects cs (λ _. none)).0)
      × Refines (effects cs (λ _. none)).1 (calls cs t).1
unfolding block_table_create
block_table-Refines size cs e =
    calls-Refines cs
      (record { wf = create-IsWf size e; reads = unfold block_lookup in lookup-create size e })
