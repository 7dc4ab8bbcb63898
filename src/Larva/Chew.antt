-- ===== src/Larva/Chew.antt =====
-- core/larva.c: larva_chew, which takes the comments out of a source text and puts new lines and
-- tabulators for `\n` and `\t`. A comment that is not closed is read on past the text.
use bombyx.Prelude.{
  ℕ, zero, suc, ◌+◌, ◌%◌, ◌^◌, Bool, false, not, ◌&&◌, none, some, List, [], ◌∷◌, ◌++◌, ltb, leb,
  ◌==◌, if◌then◌else◌, length, get_elem?,
}
use bombyx.Run.{Run, ok, fault, out_of_bounds, written_past_end, too_deep, ◌>>=◌}

-- `++i` and `i + 1` for the `unsigned int i`
abbrev pub next_i : ℕ → ℕ
next_i i = (i + 1) % 2 ^ 32

-- `incoming_code[i]`
unfoldable pub read_at : List ℕ → ℕ → Run ℕ
read_at incoming_code i = elim (get_elem? incoming_code i) [
  | none ↦ fault out_of_bounds
  | some c ↦ ok c
]

-- `while (i++ < len) if (incoming_code[i] == '\n') break;`: the `i` behind it. Since `i` wraps, the
-- loop takes fuel.
unfoldable pub skip_line : ℕ → List ℕ → ℕ → Run ℕ
unfolding read_at
skip_line zero incoming_code i = fault too_deep
skip_line (suc fuel) incoming_code i =
    let more = skip_line fuel incoming_code (next_i i) in
    if ltb i (length incoming_code)
    then (read_at incoming_code (next_i i) >>= λ c. if c == b'\n' then ok (next_i i) else more)
    else ok (next_i i)

-- The same up to `##`: the `i` of the second `#`.
unfoldable pub skip_comment : ℕ → List ℕ → ℕ → Run ℕ
unfolding read_at
skip_comment zero incoming_code i = fault too_deep
skip_comment (suc fuel) incoming_code i =
    let more = skip_comment fuel incoming_code (next_i i) in
    let second : Run ℕ = read_at incoming_code (next_i (next_i i)) >>= λ d.
    if d == b'#' then ok (next_i (next_i i)) else more in
    if ltb i (length incoming_code)
    then (read_at incoming_code (next_i i) >>= λ c. if c == b'#' then second else more)
    else ok (next_i i)

-- What is written for a backslash and the byte behind it.
abbrev pub unescaped : ℕ → List ℕ
unescaped c = if c == b'n' then b'\n' ∷ [] else if c == b't' then b'\t' ∷ [] else []

-- A comment that starts at `i`: the `i` behind it.
unfoldable pub chew_comment : ℕ → List ℕ → ℕ → Run ℕ
unfolding read_at skip_line skip_comment
chew_comment fuel incoming_code i =
    if ltb (i + 1) (length incoming_code)
    then (read_at incoming_code (next_i i) >>= λ d.
        if d == b'#' then skip_comment fuel incoming_code i else skip_line fuel incoming_code i)
    else skip_line fuel incoming_code i

-- One round at the byte `c`, with `quotes_on` as it is behind it: the bytes that are written, and `i`.
unfoldable pub chew_round : ℕ → List ℕ → Bool → ℕ → ℕ → Run (List ℕ × ℕ)
unfolding read_at chew_comment
chew_round fuel incoming_code quotes_on i c =
    if ltb (i + 1) (length incoming_code) && c == b'\\'
    then (read_at incoming_code (next_i i) >>= λ d. ok (unescaped d, next_i i))
    else if c == b'#' && not quotes_on
    then (chew_comment fuel incoming_code i >>= λ i'. ok ([], i'))
    else ok (c ∷ [], i)

abbrev pub quotes_behind : Bool → ℕ → Bool
quotes_behind quotes_on c = if c == b'\'' then not quotes_on else quotes_on

-- A write behind `new_code`, for which as many bytes as the text has and one more are allocated.
unfoldable pub put_code : List ℕ → List ℕ → List ℕ → Run (List ℕ)
put_code incoming_code new_code bs =
    if leb (length new_code + length bs) (length incoming_code + 1)
    then ok (new_code ++ bs)
    else fault written_past_end

-- The loop, with fuel for its rounds and for those of the loops inside of it.
unfoldable pub chew : ℕ → List ℕ → Bool → ℕ → List ℕ → Run (List ℕ)
unfolding read_at chew_round put_code
chew zero incoming_code quotes_on i new_code = fault too_deep
chew (suc fuel) incoming_code quotes_on i new_code =
    if ltb i (length incoming_code)
    then (read_at incoming_code i >>= λ c.
        chew_round (length incoming_code + 1) incoming_code (quotes_behind quotes_on c) i c
        >>= λ (bs, i'). put_code incoming_code new_code bs >>= λ new_code'.
            chew fuel incoming_code (quotes_behind quotes_on c) (next_i i') new_code')
    else ok new_code

unfoldable pub larva_chew : List ℕ → Run (List ℕ)
unfolding chew
larva_chew incoming_code = chew (suc (length incoming_code)) incoming_code false 0 []
