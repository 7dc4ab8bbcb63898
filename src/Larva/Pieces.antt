-- ===== src/Larva/Pieces.antt =====
-- core/larva.c: what larva_chew keeps of a source text, which is described independently of it.
use bombyx.Prelude.{
  ℕ, zero, suc, ◌≤◌, ◌<◌, ◌^◌, ◌∙◌, ◌≡◌, refl, Bool, true, false, not, ◌&&◌, ◌||◌, List, [], ◌∷◌,
  ◌++◌, arith, ◌==◌, length, length-append,
}
use bombyx.Run.{ok, ◌>>=◌}
use bombyx.Expression.Grammar.{all}
use bombyx.Expression.Ends.{left, right}
use bombyx.Larva.Chew.{unescaped, quotes_behind, larva_chew}
use bombyx.Larva.Rounds.{line_left, comment_left, round_left, chew_left, chewed_text}
use bombyx.Larva.Counter.{larva_chew-chewed_text}

-- Neither a quote nor a backslash, nor outside of quotes the start of a comment.
abbrev pub is_kept : Bool → ℕ → Bool
is_kept quotes_on c = not (c == b'\'') && (not (c == b'\\') && (quotes_on || not (c == b'#')))

-- Neither the end of the line, nor at its start a second `#`.
abbrev pub is_comment : List ℕ → Bool
is_comment [] = true
is_comment (c ∷ cs) = not (c == b'#') && all (λ d. not (d == b'\n')) (c ∷ cs)

-- A source text in pieces, outside of quotes or inside: bytes, quotes, a backslash with any byte, and
-- outside of quotes comments: `#` up to the end of the line, and `##` up to `##`, with a byte in
-- between and no `#`.
pub data Pieces : Bool → Type 0 where
  done : {q : Bool} → Pieces q
  byte : {q : Bool} (c : ℕ) → is_kept q c ≡ true → Pieces q → Pieces q
  quote : {q : Bool} → Pieces (not q) → Pieces q
  escape : {q : Bool} → ℕ → Pieces q → Pieces q
  line : (cs : List ℕ) → is_comment cs ≡ true → Pieces false → Pieces false
  comment :
      (c : ℕ) (cs : List ℕ)
      → all (λ d. not (d == b'#')) (c ∷ cs) ≡ true
      → Pieces false
      → Pieces false

unfoldable pub source_text : {q : Bool} → Pieces q → List ℕ
source_text done = []
source_text (byte c _ p) = c ∷ source_text p
source_text (quote p) = b'\'' ∷ source_text p
source_text (escape d p) = b'\\' ∷ d ∷ source_text p
source_text (line cs _ p) = b'#' ∷ cs ++ b'\n' ∷ source_text p
source_text (comment c cs _ p) = b'#' ∷ b'#' ∷ c ∷ cs ++ b'#' ∷ b'#' ∷ source_text p

-- The comments are gone, with the end of the line, and so is a backslash with its byte, but for `\n`
-- and `\t`.
unfoldable pub kept_text : {q : Bool} → Pieces q → List ℕ
kept_text done = []
kept_text (byte c _ p) = c ∷ kept_text p
kept_text (quote p) = b'\'' ∷ kept_text p
kept_text (escape d p) = unescaped d ++ kept_text p
kept_text (line _ _ p) = kept_text p
kept_text (comment _ _ _ p) = kept_text p

kept_round :
    (q : Bool) (c : ℕ) (code : List ℕ)
    → is_kept q c ≡ true
    → round_left q c code ≡ ok (c ∷ [], code)
unfolding round_left
kept_round q c [] h = ground (arith, h)
kept_round q c (d ∷ code) h = ground (arith, h)

quote_round : (q : Bool) (code : List ℕ) → round_left q b'\'' code ≡ ok (b'\'' ∷ [], code)
unfolding round_left
quote_round q [] = refl
quote_round q (d ∷ code) = refl

line_left_lem :
    (cs rest : List ℕ)
    → all (λ d. not (d == b'\n')) cs ≡ true
    → line_left (cs ++ b'\n' ∷ rest) ≡ ok rest
unfolding line_left
line_left_lem [] rest h = refl
line_left_lem (c ∷ cs) rest h =
    let more = line_left_lem cs rest (right (not (c == b'\n')) _ h) in
    ground (arith, more, left (not (c == b'\n')) _ h)

comment_left_lem :
    (cs rest : List ℕ)
    → all (λ d. not (d == b'#')) cs ≡ true
    → comment_left (cs ++ b'#' ∷ b'#' ∷ rest) ≡ ok rest
unfolding comment_left
comment_left_lem [] rest h = refl
comment_left_lem (c ∷ cs) rest h =
    let more = comment_left_lem cs rest (right (not (c == b'#')) _ h) in
    ground (arith, more, left (not (c == b'#')) _ h)

comment_left_again :
    (c : ℕ) (cs rest : List ℕ)
    → all (λ d. not (d == b'#')) (c ∷ cs) ≡ true
    → comment_left (b'#' ∷ c ∷ cs ++ b'#' ∷ b'#' ∷ rest) ≡ ok rest
unfolding comment_left
comment_left_again c cs rest h =
    let more = comment_left_lem (c ∷ cs) rest h in ground (arith, more, left (not (c == b'#')) _ h)

line_round :
    (cs rest : List ℕ)
    → is_comment cs ≡ true
    → round_left false b'#' (cs ++ b'\n' ∷ rest) ≡ ok ([], rest)
unfolding round_left
line_round [] rest h = rw (line_left_lem [] rest refl) refl
line_round (c ∷ cs) rest h =
    let no_second : (c == b'#') ≡ false = ground (arith, left (not (c == b'#')) _ h) in
    rw (no_second, line_left_lem (c ∷ cs) rest (right (not (c == b'#')) _ h)) refl

comment_round :
    (c : ℕ) (cs rest : List ℕ)
    → all (λ d. not (d == b'#')) (c ∷ cs) ≡ true
    → round_left false b'#' (b'#' ∷ c ∷ cs ++ b'#' ∷ b'#' ∷ rest) ≡ ok ([], rest)
unfolding round_left
comment_round c cs rest h = rw (comment_left_again c cs rest h, ◌>>=◌) refl

no_quote : (q : Bool) (c : ℕ) → is_kept q c ≡ true → quotes_behind q c ≡ q
no_quote q c h = ground (arith, h)

chew_left-source :
    (fuel : ℕ) {q : Bool} (p : Pieces q)
    → length (source_text p) ≤ fuel
    → chew_left fuel q (source_text p) ≡ ok (kept_text p)
unfolding chew_left source_text kept_text round_left
chew_left-source fuel done h = refl
chew_left-source zero (byte c e p) h = elim h [ ]
chew_left-source zero (quote p) h = elim h [ ]
chew_left-source zero (escape d p) h = elim h [ ]
chew_left-source zero (line cs e p) h = elim h [ ]
chew_left-source zero (comment c cs e p) h = elim h [ ]
chew_left-source (suc fuel) {q} (byte c e p) h =
    let same_quotes : quotes_behind q c ≡ q = no_quote q c e in
    let kept_behind : round_left (quotes_behind q c) c (source_text p)
        ≡ ok (c ∷ [], source_text p) =
      rw same_quotes (kept_round q c (source_text p) e) in
    let rest_behind : chew_left fuel (quotes_behind q c) (source_text p) ≡ ok (kept_text p) =
      rw same_quotes (chew_left-source fuel p (omega (arith, h))) in
    rw (kept_behind, rest_behind, ◌>>=◌) refl
chew_left-source (suc fuel) {q} (quote p) h =
    rw (quote_round (not q) (source_text p), chew_left-source fuel p (omega (arith, h)), ◌>>=◌) refl
chew_left-source (suc fuel) (escape d p) h =
    rw (round_left, chew_left-source fuel p (omega (arith, h)), ◌>>=◌) refl
chew_left-source (suc fuel) (line cs e p) h =
    let rest = b'\n' ∷ source_text p in
    rw
      (
        line_round cs (source_text p) e,
        ◌>>=◌,
        chew_left-source fuel p (omega (arith, h, length-append cs rest)),
      )
      refl
chew_left-source (suc fuel) (comment c cs e p) h =
    let rest = b'#' ∷ b'#' ∷ source_text p in
    rw
      (
        comment_round c cs (source_text p) e,
        ◌>>=◌,
        chew_left-source fuel p (omega (arith, h, length-append cs rest)),
      )
      refl

-- A text in pieces, of less than 2^32 bytes, is chewed to what is kept of them: bytes that begin no
-- comment or escape, quoted bytes and what escapes stand for, without the comments.
pub larva_chew-source :
    (p : Pieces false)
    → length (source_text p) < 2 ^ 32
    → larva_chew (source_text p) ≡ ok (kept_text p)
unfolding chewed_text
larva_chew-source p small =
    larva_chew-chewed_text (source_text p) small
    ∙ chew_left-source (length (source_text p)) p (omega arith)
