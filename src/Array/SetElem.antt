-- ===== src/Array/SetElem.antt =====
-- core/array.c: array_set_elem below, at and beyond the end of an array.
use bombyx.Prelude.{
  ℕ, zero, suc, ◌+◌, ◌-◌, ◌*◌, ◌^◌, ◌≤◌, ◌<◌, ◌≡◌, ◌≢◌, refl, some, List, [], ◌∷◌, arith, ltb, leb,
  if◌then◌else◌, length, get_elem?, set, max, length-set, Bool-cases, inl, inr, ◌&&◌, ◌⊎◌, true,
}
use bombyx.Run.{ok, Returns}
use bombyx.Value.{Var, Slot, raw, null_slot, elem, ArrayT}
use bombyx.Array.{
  fill_null, succ32, array_reserve, array_append_at, array_overwrite, array_set_elem,
}
use bombyx.Array.Bounds.{at, IsSound, Roomy, write_slot_lem, realloc-Roomy, keep-Roomy, at-set}

-- `index` holds the variable, the cells between the old end and it are NULL, all others stay.
pub record Written (array : ArrayT) (index : ℕ) (v : Var) (r : ArrayT) : Type 0 where
  pub sound : IsSound r
  pub size : r.size ≡ max array.size (index + 1)
  pub here : at r.vars index ≡ elem v
  pub gap : (i : ℕ) → array.size ≤ i → i < index → at r.vars i ≡ null_slot
  pub kept : (i : ℕ) → i < array.size → i ≢ index → at r.vars i ≡ at array.vars i

record Filled (rounds from : ℕ) (vars r : List Slot) : Type 0 where
  width : length r ≡ length vars
  reads : (j : ℕ) → at r j ≡ (if leb from j && ltb j (from + rounds) then null_slot else at vars j)

fill_null-Filled :
    (rounds from : ℕ) (vars : List Slot)
    → from + rounds ≤ length vars
    → (rounds ≡ 0) ⊎ (from + rounds < 2 ^ 31)
    → Returns (fill_null rounds from vars) (Filled rounds from vars)
unfolding fill_null
fill_null-Filled zero from vars h small =
    (vars, refl, record { width = refl; reads = λ j. ground arith })
fill_null-Filled (suc rounds) from vars h (inl e) = absurd (omega (arith, e))
fill_null-Filled (suc rounds) from vars h (inr small) =
    let counts : ltb (from + 1) (2 ^ 31) ≡ true = ground (arith, small) in
    let room : from < length vars = omega arith in
    let (r, run, f) =
      fill_null-Filled rounds (from + 1) (set vars from null_slot)
        (omega (arith, length-set vars from null_slot)) (inr (omega (arith, small))) in
    (
      r,
      rw (counts, write_slot_lem vars from null_slot room) run,
      record {
        width = omega (arith, f.width, length-set vars from null_slot);
        reads = λ j. rw (f.reads j, at-set vars from j null_slot room) (ground arith);
      },
    )

pub reserve-Roomy :
    {array : ArrayT} (index : ℕ)
    → IsSound array
    → array.size ≤ index
    → index + 1 < 2 ^ 32
    → Roomy array index (array_reserve array index)
unfolding array_reserve
reserve-Roomy {array} index sound beyond small = elim (Bool-cases (leb array.max_size index)) [
  | inl full ↦ rw full (
      realloc-Roomy (max (succ32 index) (array.max_size * 2)) index sound
        (omega (arith, sound.fits)) (omega arith))
  | inr free ↦ rw free (keep-Roomy index sound (ground arith))
]

append_at-Written :
    {array : ArrayT} (index : ℕ) (v : Var)
    → IsSound array
    → array.size ≤ index
    → index + 1 < 2 ^ 32
    → (index ≤ array.size) ⊎ (index < 2 ^ 31)
    → Returns (array_append_at array index v) (Written array index v)
unfolding array_append_at
append_at-Written {array} index v sound beyond small near =
    let roomy = reserve-Roomy index sound beyond small in
    let array' = array_reserve array index in
    let vars' = set array'.vars index (elem v) in
    let width = length-set array'.vars index (elem v) in
    let (r, run, f) =
      fill_null-Filled (index - array'.size) array'.size vars'
        (omega (arith, roomy.room, roomy.size, width))
        (elim near [
          | inl e ↦ inl (omega (arith, e, roomy.size))
          | inr e ↦ inr (omega (arith, e, roomy.size, beyond))
        ]) in
    (
      record array' { size = succ32 index; vars = r },
      rw (write_slot_lem array'.vars index (elem v) roomy.room, run) refl,
      record {
        sound = record {
          fits = omega (arith, roomy.room, roomy.sound.allocated);
          allocated = omega (arith, f.width, width, roomy.sound.allocated);
          filled = λ i h.
              rw (f.reads i, at-set array'.vars index i (elem v) roomy.room)
                (ground (arith, roomy.sound.filled i, roomy.size));
        };
        size = omega arith;
        here =
            rw (f.reads index, at-set array'.vars index index (elem v) roomy.room)
              (ground (arith, roomy.size));
        gap = λ i lo hi. rw (f.reads i) (ground (arith, roomy.size));
        kept = λ i h n.
            rw (f.reads i, at-set array'.vars index i (elem v) roomy.room)
              (ground (arith, roomy.size, roomy.kept i h));
      },
    )

get_elem?-at : (vars : List Slot) (i : ℕ) → i < length vars → get_elem? vars i ≡ some (at vars i)
get_elem?-at [] i h = absurd (omega arith)
get_elem?-at (x ∷ vars) zero h = refl
get_elem?-at (x ∷ vars) (suc i) h = get_elem?-at vars i (omega arith)

overwrite_lem :
    (array : ArrayT) (index : ℕ) (v : Var) (s : Slot)
    → get_elem? array.vars index ≡ some s
    → s ≢ raw
    → array_overwrite array index v ≡ ok (record array { vars = set array.vars index (elem v) })
unfolding array_overwrite
overwrite_lem array index v raw e n = absurd (n refl)
overwrite_lem array index v null_slot e n = rw (e, array_overwrite) refl
overwrite_lem array index v (elem w) e n = rw (e, array_overwrite) refl

overwrite-Written :
    {array : ArrayT} (index : ℕ) (v : Var)
    → IsSound array
    → index < array.size
    → Returns (array_overwrite array index v) (Written array index v)
overwrite-Written {array} index v sound h =
    let room : index < length array.vars = omega (arith, sound.fits, sound.allocated) in
    (
      record array { vars = set array.vars index (elem v) },
      overwrite_lem array index v (at array.vars index) (get_elem?-at array.vars index room)
          (sound.filled index h),
      record {
        sound = record {
          fits = sound.fits;
          allocated = rw length-set sound.allocated;
          filled =
              λ i k. rw (at-set array.vars index i (elem v) room) (ground (arith, sound.filled i));
        };
        size = omega arith;
        here = rw (at-set array.vars index index (elem v) room) (ground arith);
        gap = λ i lo hi. absurd (omega arith);
        kept = λ i k n. rw (at-set array.vars index i (elem v) room) (ground arith);
      },
    )

-- On a sound array and for an index below 2 ^ 32 - 1, which is below 2 ^ 31 if it is beyond the
-- end by one or more, array_set_elem never writes outside its
-- storage: the array stays sound, the variable stands at the index, the array grows to hold it,
-- the cells that the growth skips are NULL, and every other element stays.
pub array_set_elem-Written :
    {array : ArrayT} (index : ℕ) (v : Var)
    → IsSound array
    → index + 1 < 2 ^ 32
    → (index ≤ array.size) ⊎ (index < 2 ^ 31)
    → Returns (array_set_elem array index v) (Written array index v)
unfolding array_set_elem
array_set_elem-Written {array} index v sound small near = elim (Bool-cases (leb array.size index)) [
  | inl beyond ↦ rw beyond (append_at-Written index v sound (ground arith) small near)
  | inr below ↦ rw below (overwrite-Written index v sound (ground arith))
]
