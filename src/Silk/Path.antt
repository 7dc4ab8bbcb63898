-- ===== src/Silk/Path.antt =====
-- core/var.c: var_apath, which follows a path such as "a.0.b" into maps and arrays and returns a
-- pointer to the variable there. strtok_r and atoi are those of the C library.
use bombyx.Prelude.{
  ℕ, zero, suc, ◌+◌, ◌-◌, ◌*◌, Bool, true, false, not, ◌&&◌, ◌||◌, Option, none, some, List, [],
  ◌∷◌, ◌++◌, ◌==◌, if◌then◌else◌, get_elem?, set,
}
use bombyx.Ctype.{is_digit, is_space}
use bombyx.Run.{null_pointer, out_of_bounds, uninitialised}
use bombyx.Table.{Name, lookup, update}
use bombyx.Value.{
  VarType, same_type, Address, Var, Slot, raw, elem, ArrayT, array_of, map_of, bytes,
}
use bombyx.Env.{M, pure, undefined, ◌>>=◌, ◌>>◌}
use bombyx.Memory.{store, load_array, load_map}
use bombyx.Copy.{deref, set_entry}

-- What a `var *` points to: the variable of the table, a cell of the array at an address, the value
-- of a key of the map at an address, or `&m->v` where `m` is NULL.
pub data Place : Type 0 where
  entry : Name → Place
  cell : Address → ℕ → Place
  member : Address → Name → Place
  nowhere : Place

-- One cell that is read as a pointer.
unfoldable pub slot_at : {D : Type 0} → ArrayT → ℕ → M D Slot
slot_at array i = elim (get_elem? array.vars i) [
  | none ↦ undefined out_of_bounds
  | some raw ↦ undefined uninitialised
  | some s ↦ pure s
]

module _ {D : Type 0} where
  unfoldable pub load_place : Place → M D Var
  unfolding slot_at deref
  load_place (entry name) = deref name
  load_place (cell p i) = do
    array ← load_array (some p)
    s ← slot_at array i
    elim s [ elem v ↦ pure v | _ ↦ undefined null_pointer ]
  load_place (member p key) = do
    t ← load_map (some p)
    elim (lookup t key) [ none ↦ undefined null_pointer | some v ↦ pure v ]
  load_place nowhere = undefined null_pointer

  -- `*pv = v`. A variable of the table whose name is taken from it is lost for every later lookup,
  -- which reads the name: that is a fault at once here.
  unfoldable pub store_place : Place → Var → M D (Unit {0})
  unfolding slot_at
  store_place (entry name) v = elim v.name [
    | none ↦ undefined null_pointer
    | some _ ↦ set_entry name v
  ]
  store_place (cell p i) v = do
    array ← load_array (some p)
    _ ← slot_at array i
    store (some p) (array_of (record array { vars = set array.vars i (elem v) }))
  store_place (member p key) v = do t ← load_map (some p); store (some p) (map_of (update t key v))
  store_place nowhere v = undefined null_pointer

-- The tokens that strtok_r finds between dots, and the text with zeros for the dots that ended the
-- first `count` of them.
unfoldable pub pieces : Name → Name → List Name
pieces [] [] = []
pieces (c ∷ token) [] = (c ∷ token) ∷ []
pieces token (b ∷ text) =
    let ended : List Name = elim token [
      | [] ↦ pieces [] text
      | c ∷ rest ↦ (c ∷ rest) ∷ pieces [] text
    ] in
    let longer = pieces (token ++ b ∷ []) text in if b == b'.' then ended else longer

unfoldable pub cut : ℕ → Bool → List ℕ → List ℕ
cut zero inside text = text
cut (suc count) inside [] = []
cut (suc count) inside (b ∷ text) =
    let ended = 0 ∷ cut count false text in
    let next = b ∷ cut (suc count) (inside || not (b == b'.')) text in
    if b == b'.' && inside then ended else next

unfoldable pub digits_value : ℕ → List ℕ → ℕ
digits_value n [] = n
digits_value n (c ∷ text) =
    let next = digits_value (n * 10 + (c - b'0')) text in if is_digit c then next else n

-- atoi: whether there is a minus, and the number behind it
unfoldable pub atoi : List ℕ → Bool × ℕ
unfolding digits_value
atoi [] = (false, 0)
atoi (c ∷ text) =
    let later = atoi text in
    if is_space c
    then later
    else if c == b'-'
    then (true, digits_value 0 text)
    else if c == b'+'
    then (false, digits_value 0 text)
    else (false, digits_value 0 (c ∷ text))

-- `index || tok[0] == '0'`
unfoldable pub is_index : Name → Bool
unfolding atoi
is_index tok = not ((atoi tok).1 == 0) || elim tok [ [] ↦ false | c ∷ _ ↦ c == b'0' ]

-- Pointers to what was found in an array and in a map; `m` is NULL for a missing key.
abbrev pub cell_place : Slot → Option Address → ℕ → Option Place
cell_place (elem v) (some q) n = some (cell q n)
cell_place _ _ n = none

abbrev pub member_place : Option Var → Option Address → Name → Option Place
member_place (some v) (some q) key = some (member q key)
member_place _ _ key = some nowhere

module _ {D : Type 0} where
  -- `vars[index]` with an index that may be negative, and with no test against the size
  unfoldable pub index_cell : Option Address → Name → M D (Option Place)
  unfolding atoi slot_at
  index_cell p tok = do
    array ← load_array p
    let (minus, n) = atoi tok
    if minus && not (n == 0)
        then undefined out_of_bounds
        else (do s ← slot_at array n; pure (cell_place s p n))

  -- map_lookup, and then `&m->v` whatever it found
  unfoldable pub member_of : Option Address → Name → M D (Option Place)
  member_of p tok = do t ← load_map p; pure (member_place (lookup t tok) p tok)

  -- The walk over the tokens; NULL is `none`. With it comes how many tokens were taken.
  unfoldable pub apath_walk : List Name → ℕ → Option Place → M D (Option Place × ℕ)
  unfolding load_place is_index index_cell member_of same_type
  apath_walk [] count object = pure (object, count)
  apath_walk (tok ∷ toks) count none = undefined null_pointer
  apath_walk (tok ∷ toks) count (some place) = do
    object ← load_place place
    let wanted = if is_index tok then VarType.array else VarType.map
    if not (same_type object.type wanted) then pure (none, count + 1) else (do
      next ← if is_index tok then index_cell object.ptr tok else member_of object.ptr tok
      apath_walk toks (count + 1) next)

  -- The text behind `apath` is changed by strtok_r. `c_text` is the text, without its zero.
  unfoldable pub var_apath : Name → Option Address → Name → M D (Option Place)
  unfolding pieces cut apath_walk
  var_apath name apath c_text = do
    (object, count) ← apath_walk (pieces [] c_text) 0 (some (entry name))
    store apath (bytes (cut count false c_text ++ 0 ∷ []))
    pure object
