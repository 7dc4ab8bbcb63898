-- ===== src/System.antt =====
-- core/sys.c: str_replace. A string is the list of its bytes before the zero.
use bombyx.Prelude.{
  ℕ, zero, suc, ◌+◌, ◌-◌, ◌*◌, ◌%◌, ◌^◌, Bool, true, false, ◌&&◌, Option, none, some, List, [], ◌∷◌,
  ◌++◌, leb, ◌==◌, if◌then◌else◌, length, drop,
}
use bombyx.Run.{Run, ok, fault, out_of_bounds, too_deep, ◌>>=◌}
pub mod Replaced

-- The string begins with `old`.
unfoldable pub starts_with : List ℕ → List ℕ → Bool
starts_with [] str = true
starts_with (o ∷ old) [] = false
starts_with (o ∷ old) (c ∷ str) = o == c && starts_with old str

-- strstr: what stands before the first `old`, and what stands behind it.
unfoldable pub strstr : List ℕ → List ℕ → Option (List ℕ × List ℕ)
unfolding starts_with
strstr old [] = if starts_with old [] then some ([], []) else none
strstr old (c ∷ str) =
    let more : Option (List ℕ × List ℕ) = elim (strstr old str) [
      | none ↦ none
      | some (before, behind) ↦ some (c ∷ before, behind)
    ] in
    if starts_with old (c ∷ str) then some ([], drop (length old) (c ∷ str)) else more

-- How often `old` is found, one time behind the other; without end where it is empty.
unfoldable pub count_old : ℕ → List ℕ → List ℕ → Run ℕ
count_old zero old p = fault too_deep
count_old (suc fuel) old p = elim (strstr old p) [
  | none ↦ ok 0
  | some (before, behind) ↦ count_old fuel old behind >>= λ count. ok (suc count)
]

-- `retlen`, and `count` where the lengths differ. A `size_t` has 64 bits.
unfoldable pub result_length : ℕ → List ℕ → List ℕ → List ℕ → Run (ℕ × Option ℕ)
result_length fuel str old new_str =
    if length old == length new_str
    then ok (length str, none)
    else count_old fuel old str >>= λ count.
        ok ((length str + count * (length new_str + 2 ^ 64 - length old)) % 2 ^ 64, some count)

-- A write behind `ret`, for which `retlen + 1` bytes are allocated.
unfoldable pub put_bytes : ℕ → List ℕ → List ℕ → Run (List ℕ)
put_bytes retlen ret bs =
    if leb (length ret + length bs) (retlen + 1) then ok (ret ++ bs) else fault out_of_bounds

-- `!samesize && !count--`: whether the loop goes on, and the count then.
unfoldable pub counted_down : Option ℕ → Option (Option ℕ)
counted_down none = some none
counted_down (some zero) = none
counted_down (some (suc count)) = some (some count)

-- The loop that copies, and the rest behind it.
unfoldable pub replace_loop : ℕ → ℕ → Option ℕ → List ℕ → List ℕ → List ℕ → List ℕ → Run (List ℕ)
replace_loop zero retlen left old new_str p r = fault too_deep
replace_loop (suc fuel) retlen left old new_str p r =
    let rest = put_bytes retlen r (p ++ 0 ∷ []) in
    elim (counted_down left) [
      | none ↦ rest
      | some left' ↦ elim (strstr old p) [
        | none ↦ rest
        | some (before, behind) ↦ put_bytes retlen r before >>= λ r'.
            put_bytes retlen r' new_str >>= λ r''.
            replace_loop fuel retlen left' old new_str behind r''
      ]
    ]

-- The bytes of the result, with its zero.
unfoldable pub str_replace : ℕ → List ℕ → List ℕ → List ℕ → Run (List ℕ)
str_replace fuel str old new_str = result_length fuel str old new_str >>= λ (retlen, left).
    replace_loop fuel retlen left old new_str str []
