-- ===== src/Array/Bounds.antt =====
-- core/array.c: pushes and writes stay inside the allocation, keep the other elements, and leave no
-- cell below `size` unset.
use bombyx.Prelude.{
  ℕ, zero, suc, ◌+◌, ◌-◌, ◌*◌, ◌≤◌, ◌<◌, ◌≡◌, ◌≢◌, refl, List, [], ◌∷◌, ◌++◌, arith, ltb, leb, ◌==◌,
  if◌then◌else◌, length, get_or, set, take, replicate, length-append, length-set, length-replicate,
  length-take, get_or-set_self, get_or-set_ne, Bool-cases, inl, inr, lt→ltb,
}
use native.Mathlib.Decide.{ℕ_discrete}
use bombyx.Run.{ok, Returns}
use bombyx.Value.{Var, Slot, raw, elem, ArrayT}
use bombyx.Array.{min_array_size, write_slot, realloc_slots, array_create, array_grow, array_push}

abbrev pub at : List Slot → ℕ → Slot
at vars i = get_or vars i raw

-- `max_size` cells are allocated, and those below `size` are NULL or hold an element.
pub record IsSound (array : ArrayT) : Type 0 where
  pub fits : array.size ≤ array.max_size
  pub allocated : length array.vars ≡ array.max_size
  pub filled : (i : ℕ) → i < array.size → at array.vars i ≢ raw

pub array_create-IsSound : (size : ℕ) → IsSound (array_create size)
unfolding array_create
array_create-IsSound size = record {
  fits = omega arith;
  allocated = length-replicate _ raw;
  filled = λ i h. absurd (omega arith);
}

pub write_slot_lem :
    (vars : List Slot) (i : ℕ) (s : Slot)
    → i < length vars
    → write_slot vars i s ≡ ok (set vars i s)
unfolding write_slot
write_slot_lem vars i s h = rw (lt→ltb i (length vars) h) refl

at-append : (xs ys : List Slot) (i : ℕ) → i < length xs → at (xs ++ ys) i ≡ at xs i
at-append [] ys i h = absurd (omega arith)
at-append (x ∷ xs) ys zero h = refl
at-append (x ∷ xs) ys (suc i) h = at-append xs ys i (omega arith)

at-take : (n : ℕ) (xs : List Slot) (i : ℕ) → i < n → at (take n xs) i ≡ at xs i
at-take zero xs i h = absurd (omega arith)
at-take (suc n) [] i h = refl
at-take (suc n) (x ∷ xs) zero h = refl
at-take (suc n) (x ∷ xs) (suc i) h = at-take n xs i (omega arith)

length-realloc_slots : (vars : List Slot) (n : ℕ) → length (realloc_slots vars n) ≡ n
unfolding realloc_slots
length-realloc_slots vars n = omega (
  arith,
  length-append (take n vars) (replicate (n - length vars) raw),
  length-take n vars,
  length-replicate (n - length vars) raw,
)

at-realloc_slots :
    (vars : List Slot) (n i : ℕ) → i < n → i < length vars → at (realloc_slots vars n) i ≡ at vars i
unfolding realloc_slots
at-realloc_slots vars n i h k =
    rw
      (
        at-append (take n vars) (replicate (n - length vars) raw) i
            (omega (arith, length-take n vars)),
        at-take n vars i h,
      )
      refl

-- The same elements, with room for the cell `room`.
pub record Roomy (array : ArrayT) (index : ℕ) (r : ArrayT) : Type 0 where
  pub sound : IsSound r
  pub size : r.size ≡ array.size
  pub room : index < length r.vars
  pub kept : (i : ℕ) → i < array.size → at r.vars i ≡ at array.vars i

-- Storage that is reallocated to a size past the cell `room` keeps the elements.
pub realloc-Roomy :
    {array : ArrayT} (n room : ℕ)
    → IsSound array
    → array.size ≤ n
    → room < n
    → Roomy array room (record array { max_size = n; vars = realloc_slots array.vars n })
realloc-Roomy {array} n room sound big fits = record {
  sound = record {
    fits = big;
    allocated = length-realloc_slots array.vars n;
    filled = λ i h.
        rw
          (at-realloc_slots array.vars n i (omega arith)
            (omega (arith, sound.allocated, sound.fits)))
          (sound.filled i h);
  };
  size = refl;
  room = omega (arith, length-realloc_slots array.vars n);
  kept = λ i h.
      at-realloc_slots array.vars n i (omega arith) (omega (arith, sound.allocated, sound.fits));
}

grow-Roomy : {array : ArrayT} → IsSound array → Roomy array array.size (array_grow array)
unfolding array_grow
grow-Roomy {array} sound = elim (Bool-cases (ltb array.max_size min_array_size)) [
  | inl small ↦ rw small (
      realloc-Roomy (min_array_size * 2) array.size sound (ground (arith, sound.fits))
        (ground (arith, sound.fits)))
  | inr big ↦ rw big (
      realloc-Roomy (array.max_size * 2) array.size sound (ground (arith, sound.fits))
        (ground (arith, sound.fits)))
]

pub keep-Roomy :
    {array : ArrayT} (room : ℕ) → IsSound array → room < array.max_size → Roomy array room array
keep-Roomy room sound h = record {
  sound = sound;
  size = refl;
  room = omega (arith, sound.allocated);
  kept = λ i h. refl;
}

-- The array that `array_push` appends the variable to.
push_room : ArrayT → ArrayT
push_room array = if leb array.max_size array.size then array_grow array else array

push_room-Roomy : {array : ArrayT} → IsSound array → Roomy array array.size (push_room array)
unfolding push_room
push_room-Roomy {array} sound = elim (Bool-cases (leb array.max_size array.size)) [
  | inl full ↦ rw full (grow-Roomy sound)
  | inr free ↦ rw free (keep-Roomy array.size sound (ground arith))
]

pub record Pushed (array : ArrayT) (v : Var) (r : ArrayT) : Type 0 where
  pub sound : IsSound r
  pub size : r.size ≡ array.size + 1
  pub last : at r.vars array.size ≡ elem v
  pub kept : (i : ℕ) → i < array.size → at r.vars i ≡ at array.vars i

pub at-set :
    (vars : List Slot) (i j : ℕ) (s : Slot)
    → i < length vars
    → at (set vars i s) j ≡ (if i == j then s else at vars j)
at-set vars i j s h = elim (ℕ_discrete i j) [
  | yes e ↦ rw (← e, get_or-set_self vars i s raw h) (ground arith)
  | no n ↦ rw (get_or-set_ne vars i j s raw n) (ground arith)
]

-- On a sound array, array_push never writes outside its storage: the array stays sound, the
-- variable is the new last element, and the others stay.
pub array_push-Pushed :
    {array : ArrayT} (v : Var) → IsSound array → Returns (array_push array v) (Pushed array v)
unfolding array_push push_room
array_push-Pushed {array} v sound =
    let roomy = push_room-Roomy sound in
    let array' = push_room array in
    let room : array'.size < length array'.vars = omega (arith, roomy.room, roomy.size) in
    (
      record array' { size = array'.size + 1; vars = set array'.vars array'.size (elem v) },
      rw (write_slot_lem array'.vars array'.size (elem v) room) refl,
      record {
        sound = record {
          fits = omega (arith, room, roomy.sound.allocated);
          allocated = rw length-set roomy.sound.allocated;
          filled = λ i h.
              rw (at-set array'.vars array'.size i (elem v) room)
                (ground (arith, roomy.sound.filled i));
        };
        size = omega (arith, roomy.size);
        last =
            rw (at-set array'.vars array'.size array.size (elem v) room)
              (ground (arith, roomy.size));
        kept = λ i h.
            rw (at-set array'.vars array'.size i (elem v) room)
              (ground (arith, roomy.size, roomy.kept i h));
      },
    )
