-- ===== src/Larva/Rounds.antt =====
-- core/larva.c: larva_chew without its counter: each loop takes the text that is left and gives what
-- it leaves. Counter is about the code, which counts.
use bombyx.Prelude.{
  ℕ, zero, suc, Bool, false, not, ◌&&◌, List, [], ◌∷◌, ◌++◌, ◌==◌, if◌then◌else◌, length,
}
use bombyx.Run.{Run, ok, fault, out_of_bounds, too_deep, ◌>>=◌}
use bombyx.Larva.Chew.{unescaped, quotes_behind}

-- `while (i++ < len) if (incoming_code[i] == '\n') break;`: the text behind the new line.
unfoldable pub line_left : List ℕ → Run (List ℕ)
line_left [] = fault out_of_bounds
line_left (c ∷ code) = let more = line_left code in if c == b'\n' then ok code else more

-- The same up to `##`: the text behind it, from the byte behind the first `#` of the comment on.
unfoldable pub comment_left : List ℕ → Run (List ℕ)
comment_left [] = fault out_of_bounds
comment_left (c ∷ code) =
    let more = comment_left code in
    if c == b'#'
    then elim code [ [] ↦ fault out_of_bounds | d ∷ rest ↦ if d == b'#' then ok rest else more ]
    else more

-- One round at the byte `c`: the bytes that are written, and the text that is left.
unfoldable pub round_left : Bool → ℕ → List ℕ → Run (List ℕ × List ℕ)
round_left quotes_on c [] =
    if c == b'#' && not quotes_on then fault out_of_bounds else ok (c ∷ [], [])
round_left quotes_on c (d ∷ code) =
    if c == b'\\'
    then ok (unescaped d, code)
    else if c == b'#' && not quotes_on
    then ((if d == b'#' then comment_left (d ∷ code) else line_left (d ∷ code)) >>= λ rest.
        ok ([], rest))
    else ok (c ∷ [], d ∷ code)

-- The loop, at most as many rounds as there are bytes.
unfoldable pub chew_left : ℕ → Bool → List ℕ → Run (List ℕ)
chew_left fuel quotes_on [] = ok []
chew_left zero quotes_on (c ∷ code) = fault too_deep
chew_left (suc fuel) quotes_on (c ∷ code) =
    let quotes_on' = quotes_behind quotes_on c in
    round_left quotes_on' c code >>= λ (new_code, rest).
    chew_left fuel quotes_on' rest >>= λ more. ok (new_code ++ more)

unfoldable pub chewed_text : List ℕ → Run (List ℕ)
unfolding chew_left
chewed_text incoming_code = chew_left (length incoming_code) false incoming_code
