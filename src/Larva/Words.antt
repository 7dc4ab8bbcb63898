-- ===== src/Larva/Words.antt =====
-- core/larva.c: the tokens that larva_read_token reads.
use bombyx.Prelude.{
  ℕ, suc, ◌+◌, ◌≤◌, ◌<◌, ◌≡◌, refl, ap, ◌∙◌, Bool, true, false, not, ◌&&◌, List, [], ◌∷◌, ◌++◌,
  arith, leb, ◌==◌, length, length-append, take, length-take, Bool-cases, inl, inr,
}
use bombyx.Ctype.{is_space}
use bombyx.Run.{Run, ok, jump, fault, ◌>>=◌}
use bombyx.Expression.Grammar.{all}
use bombyx.Expression.Ends.{left, right}
use bombyx.Expression.Reads.{Heads, head}
use bombyx.Larva.{skip_while}
use bombyx.Larva.Token.{token_string, stops, token_loop, token_from, larva_read_token}

-- A byte that goes on with a token.
abbrev pub is_inner : ℕ → Bool
is_inner c = not (stops c) && not (c == 0)

-- A byte that begins one: whether it would stop one is not asked.
abbrev pub is_first : ℕ → Bool
is_first c = not (is_space c) && not (c == 0)

pub skip_while-all :
    (test : ℕ → Bool) (cs : List ℕ) {s : List ℕ}
    → all test cs ≡ true
    → Heads (λ c. not (test c)) s
    → skip_while test (cs ++ s) ≡ s
unfolding skip_while
skip_while-all test [] h (head c s stop) = ground (arith, stop)
skip_while-all test (c ∷ cs) h stop =
    rw (left (test c) _ h, skip_while-all test cs (right (test c) _ h) stop) refl

token_string-take :
    (cs s : List ℕ) → all is_inner cs ≡ true → token_string (take (length cs) (cs ++ s)) ≡ cs
unfolding token_string
token_string-take [] s h = refl
token_string-take (c ∷ cs) s h =
    let no_zero : (c == 0) ≡ false = ground (arith, left (is_inner c) _ h) in
    rw (no_zero, token_string-take cs s (right (is_inner c) _ h)) refl

token_string-word :
    (c : ℕ) (cs s : List ℕ)
    → (c == 0) ≡ false
    → all is_inner cs ≡ true
    → token_string (c ∷ take (length cs) (cs ++ s)) ≡ c ∷ cs
token_string-word c cs s no_zero inner =
    let more = token_string-take cs s inner in
    unfold token_string in rw no_zero (ap (λ t. c ∷ t) more)

token_string-length : (cs : List ℕ) → length (token_string cs) ≤ length cs
unfolding token_string
token_string-length [] = omega arith
token_string-length (c ∷ cs) = let more = token_string-length cs in ground (arith, more)

-- A result that has a token of up to 255 bytes.
abbrev Counted : Run (ℕ × List ℕ) → Type 0
Counted (ok (n, s)) = n ≤ 255
Counted _ = Unit

abbrev FitsToken : Run (List ℕ × List ℕ) → Type 0
FitsToken (ok (token, s)) = length token < 256
FitsToken _ = Unit

room_for_token :
    (code : List ℕ) (r : Run (ℕ × List ℕ))
    → Counted r
    → FitsToken (r >>= λ (token_pos, rest). ok (token_string (take token_pos code), rest))
room_for_token code (ok (n, s)) h =
    omega (arith, h, token_string-length (take n code), length-take n code)
room_for_token code (jump e) h = tt
room_for_token code (fault e) h = tt

module _ (spare : ℕ) where
  -- Behind the token stands a byte that stops it, before `code_length`.
  pub data Stops : List ℕ → Type 0 where
    stop : (c : ℕ) (s : List ℕ) → stops c ≡ true → spare ≤ length s → Stops (c ∷ s)

  token_loop_lem :
      (n : ℕ) (cs : List ℕ) {s : List ℕ}
      → all is_inner cs ≡ true
      → Stops s
      → n + length cs < 255
      → token_loop spare n (cs ++ s) ≡ ok (suc (n + length cs), s)
  unfolding token_loop
  token_loop_lem n [] h (stop c s e room) small =
      let inside : leb (length (c ∷ s)) spare ≡ false = ground (arith, room) in
      let short : (suc n == 256) ≡ false = ground (arith, small) in
      rw (inside, short, e) (ap (λ k. ok (k, c ∷ s)) (omega arith))
  token_loop_lem n (c ∷ cs) {s} h (stop c' s' e room) small =
      let inside : leb (length (c ∷ cs ++ c' ∷ s')) spare ≡ false =
        ground (arith, room, length-append cs (c' ∷ s')) in
      let short : (suc n == 256) ≡ false = ground (arith, small) in
      let goes_on : stops c ≡ false = ground (arith, left (is_inner c) _ h) in
      rw
        (
          inside,
          short,
          goes_on,
          token_loop_lem (suc n) cs (right (is_inner c) _ h) (stop c' s' e room)
              (omega (arith, small)),
        )
        (ap (λ k. ok (k, c' ∷ s')) (omega arith))

  -- Behind blanks, a token of up to 255 bytes without blanks, zeros, commas, `=`, parentheses or
  -- braces, but for its first byte, is read up to the byte that stops it, which stands before
  -- `code_length`.
  pub larva_read_token-word :
      (blanks : List ℕ) (c : ℕ) (cs : List ℕ) {s : List ℕ}
      → all is_space blanks ≡ true
      → is_first c ≡ true
      → all is_inner cs ≡ true
      → length cs < 255
      → Stops s
      → larva_read_token spare (blanks ++ (c ∷ cs ++ s)) ≡ ok (c ∷ cs, s)
  unfolding larva_read_token token_from
  larva_read_token-word blanks c cs {s} spaces first inner small behind =
      let no_zero : (c == 0) ≡ false = ground (arith, right (not (is_space c)) _ first) in
      let loop : token_loop spare 0 (cs ++ s) ≡ ok (suc (length cs), s) =
        token_loop_lem 0 cs inner behind (omega (arith, small))
        ∙ ap (λ k. ok (k, s)) (omega arith) in
      rw
        (
          skip_while-all is_space blanks spaces
              (head c (cs ++ s) (left (not (is_space c)) _ first)),
          loop,
          ◌>>=◌,
        )
        (ap (λ t. ok (t, s)) (token_string-word c cs s no_zero inner))

  too_long :
      (n : ℕ) (cs s : List ℕ)
      → all (λ c. not (stops c)) cs ≡ true
      → spare < length s
      → n + length cs ≡ 255
      → token_loop spare n (cs ++ s) ≡ jump 1
  unfolding token_loop
  too_long n [] (c ∷ s) h room size =
      let inside : leb (length (c ∷ s)) spare ≡ false = ground (arith, room) in
      let long : (suc n == 256) ≡ true = ground (arith, size) in rw (inside, long) refl
  too_long n [] [] h room size = absurd (omega (arith, room))
  too_long n (c ∷ cs) s h room size =
      let inside : leb (length (c ∷ cs ++ s)) spare ≡ false =
        ground (arith, room, length-append cs s) in
      let short : (suc n == 256) ≡ false = ground (arith, size) in
      let goes_on : stops c ≡ false = ground (arith, left (not (stops c)) _ h) in
      rw
        (
          inside,
          short,
          goes_on,
          too_long (suc n) cs s (right (not (stops c)) _ h) room (omega (arith, size)),
        )
        refl

  -- A token that 255 more bytes belong to, with another byte behind them before `code_length`, is an
  -- error.
  pub larva_read_token-too_long :
      (c : ℕ) (cs s : List ℕ)
      → is_first c ≡ true
      → all (λ c. not (stops c)) cs ≡ true
      → length cs ≡ 255
      → spare < length s
      → larva_read_token spare (c ∷ cs ++ s) ≡ jump 1
  unfolding larva_read_token token_from
  larva_read_token-too_long c cs s first h size room =
      rw
        (
          skip_while-all is_space [] refl (head c (cs ++ s) (left (not (is_space c)) _ first)),
          too_long 0 cs s h room (omega (arith, size)),
          ◌>>=◌,
        )
        refl

  token_loop-Counted : (n : ℕ) (code : List ℕ) → n ≤ 255 → Counted (token_loop spare n code)
  unfolding token_loop
  token_loop-Counted n [] h = h
  token_loop-Counted n (c ∷ code) h = elim (Bool-cases (leb (length (c ∷ code)) spare)) [
    | inl e ↦ rw e h
    | inr e ↦ elim (Bool-cases (suc n == 256)) [
      | inl e' ↦ rw (e, e') tt
      | inr e' ↦
          let small : suc n ≤ 255 = ground (arith, e', h) in
          elim (Bool-cases (stops c)) [
            | inl e'' ↦ rw (e, e', e'') small
            | inr e'' ↦ rw (e, e', e'') (token_loop-Counted (suc n) code small)
          ]
    ]
  ]

  from_fits : (code : List ℕ) → FitsToken (token_from spare code)
  unfolding token_from
  from_fits [] = tt
  from_fits (c ∷ code) = room_for_token (c ∷ code) _ (token_loop-Counted 0 code (omega arith))

  -- Every token that is read has room in the 256 bytes of `token`, with the zero behind it.
  pub larva_read_token-fits :
      (code : List ℕ) {token s : List ℕ}
      → larva_read_token spare code ≡ ok (token, s)
      → length token < 256
  unfolding larva_read_token
  larva_read_token-fits code {token} {s} h =
      let fits = from_fits (skip_while is_space code) in rw h at fits
