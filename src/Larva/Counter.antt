-- ===== src/Larva/Counter.antt =====
-- core/larva.c: larva_chew counts with `i` what the loops of Rounds cut off from the text, as long as
-- `i` does not wrap.
use bombyx.Prelude.{
  ℕ, zero, suc, ◌+◌, ◌^◌, ◌≤◌, ◌<◌, ◌≡◌, refl, ◌∙◌, Bool, true, false, not, ◌&&◌, none, some, List,
  [], ◌∷◌, ◌++◌, arith, ap, length-drop, ltb, leb, ◌==◌, length, length-append, get_elem?, drop,
  Bool-cases, inl, inr,
}
use mathlib.Core.Path.{subst}
use mathlib.Core.List.{append_assoc, append-nil}
use bombyx.Run.{Run, ok, jump, fault, out_of_bounds, ◌>>=◌}
use bombyx.Larva.Chew.{
  next_i, read_at, skip_line, skip_comment, unescaped, chew_comment, chew_round, quotes_behind,
  put_code, chew, larva_chew,
}
use bombyx.Larva.Rounds.{line_left, comment_left, round_left, chew_left, chewed_text}

cons-drop :
    (code : List ℕ) (i : ℕ) {c : ℕ} {rest : List ℕ}
    → drop i code ≡ c ∷ rest
    → (get_elem? code i ≡ some c) × (drop (suc i) code ≡ rest) × (i < length code)
cons-drop [] zero h = absurd (cc h)
cons-drop [] (suc i) h = absurd (cc h)
cons-drop (x ∷ code) zero h = (ground (arith, h), ground (arith, h), omega arith)
cons-drop (x ∷ code) (suc i) h =
    let (here, behind, less) = cons-drop code i h in (here, behind, omega (arith, less))

nil-drop :
    (code : List ℕ) (i : ℕ) → drop i code ≡ [] → (get_elem? code i ≡ none) × (length code ≤ i)
nil-drop [] i h = (refl, omega arith)
nil-drop (x ∷ code) zero h = absurd (cc h)
nil-drop (x ∷ code) (suc i) h = let (here, less) = nil-drop code i h in (here, omega (arith, less))

module _ (code : List ℕ) (small : length code < 2 ^ 32) where
  -- Behind the byte at `i`, `rest` is left.
  record Behind (i : ℕ) (rest : List ℕ) : Type 0 where
    left : drop (suc i) code ≡ rest
    inside : i < length code

  -- The same end, and if it is not a fault then at the same place, not before `from`.
  data Agrees (from : ℕ) : Run (List ℕ) → Run ℕ → Type 0 where
    same : (i : ℕ) (rest : List ℕ) → from ≤ i → Behind i rest → Agrees from (ok rest) (ok i)
    overrun : Agrees from (fault out_of_bounds) (fault out_of_bounds)

  weaker :
      {from from' : ℕ} {r : Run (List ℕ)} {s : Run ℕ}
      → from ≤ from'
      → Agrees from' r s
      → Agrees from r s
  weaker h (same i rest less b) = same i rest (omega (arith, h, less)) b
  weaker h overrun = overrun

  counts : (i : ℕ) → i < length code → next_i i ≡ suc i
  counts i h = omega (arith, h, small)

  goes_on : (i : ℕ) → i < length code → ltb i (length code) ≡ true
  goes_on i h = ground (arith, h)

  at_end : {i : ℕ} → Behind i [] → read_at code (suc i) ≡ fault out_of_bounds
  unfolding read_at
  at_end {i} b = rw (read_at, (nil-drop code (suc i) b.left).0) refl

  here : {i c : ℕ} {rest : List ℕ} → Behind i (c ∷ rest) → read_at code (suc i) ≡ ok c
  unfolding read_at
  here {i} b = rw (read_at, (cons-drop code (suc i) b.left).0) refl

  step : {i c : ℕ} {rest : List ℕ} → Behind i (c ∷ rest) → Behind (suc i) rest
  step {i} b =
      let (_, left, inside) = cons-drop code (suc i) b.left in
      record { left = left; inside = inside }

  skip_line-Agrees :
      (fuel i : ℕ) (rest : List ℕ)
      → Behind i rest
      → length rest < fuel
      → Agrees i (line_left rest) (skip_line fuel code i)
  unfolding line_left skip_line
  skip_line-Agrees zero i rest b enough = absurd (omega (arith, enough))
  skip_line-Agrees (suc fuel) i [] b enough =
      rw (counts i b.inside, goes_on i b.inside, at_end b) overrun
  skip_line-Agrees (suc fuel) i (c ∷ rest) b enough =
      rw (counts i b.inside, goes_on i b.inside, here b)
        (elim (Bool-cases (c == b'\n')) [
          | inl e ↦ rw (e, ◌>>=◌) (same (suc i) rest (omega arith) (step b))
          | inr e ↦
              rw (e, ◌>>=◌)
                (weaker (omega arith)
                  (skip_line-Agrees fuel (suc i) rest (step b) (omega (arith, enough))))
        ])

  next_left :
      (c : ℕ) (rest : List ℕ) → (c == b'#') ≡ false → comment_left (c ∷ rest) ≡ comment_left rest
  unfolding comment_left
  next_left c rest e = rw e refl

  skip_comment-Agrees :
      (fuel i : ℕ) (rest : List ℕ)
      → Behind i rest
      → length rest < fuel
      → Agrees i (comment_left rest) (skip_comment fuel code i)
  unfolding comment_left skip_comment
  skip_comment-Agrees zero i rest b enough = absurd (omega (arith, enough))
  skip_comment-Agrees (suc fuel) i [] b enough =
      rw (counts i b.inside, goes_on i b.inside, at_end b) overrun
  skip_comment-Agrees (suc fuel) i (c ∷ []) b enough =
      let more =
        weaker {from = i} (omega arith)
          (skip_comment-Agrees fuel (suc i) [] (step b) (omega (arith, enough))) in
      let counts' = counts (suc i) (step b).inside in
      rw (counts i b.inside, goes_on i b.inside, here b, counts', at_end (step b))
        (elim (Bool-cases (c == b'#')) [
          | inl e ↦ rw (e, ◌>>=◌) overrun
          | inr e ↦ rw (e, ◌>>=◌) more
        ])
  skip_comment-Agrees (suc fuel) i (c ∷ d ∷ rest) b enough =
      let more =
        weaker {from = i} (omega arith)
          (skip_comment-Agrees fuel (suc i) (d ∷ rest) (step b) (omega (arith, enough))) in
      let counts' = counts (suc i) (step b).inside in
      rw (counts i b.inside, goes_on i b.inside, here b, counts', here (step b))
        (elim (Bool-cases (c == b'#')) [
          | inr e ↦ rw (e, ◌>>=◌) more
          | inl e ↦ elim (Bool-cases (d == b'#')) [
            | inl e' ↦ rw (e, e', ◌>>=◌) (same (suc (suc i)) rest (omega arith) (step (step b)))
            | inr e' ↦
                let behind =
                  subst (λ r. Agrees i r (skip_comment fuel code (suc i))) (next_left d rest e')
                    more in
                rw (e, e', ◌>>=◌) behind
          ]
        ])

  -- The same for a round, which writes at most one byte.
  data AgreesRound (from : ℕ) : Run (List ℕ × List ℕ) → Run (List ℕ × ℕ) → Type 0 where
    same_round :
        (bs : List ℕ) (i : ℕ) (rest : List ℕ)
        → length bs ≤ 1
        → from ≤ i
        → Behind i rest
        → AgreesRound from (ok (bs, rest)) (ok (bs, i))
    overrun_round : AgreesRound from (fault out_of_bounds) (fault out_of_bounds)

  nothing_written :
      {from : ℕ} {r : Run (List ℕ)} {s : Run ℕ}
      → Agrees from r s
      → AgreesRound from (r >>= λ rest. ok ([], rest)) (s >>= λ i. ok ([], i))
  nothing_written (same i rest less b) = same_round [] i rest (omega arith) less b
  nothing_written overrun = overrun_round

  ends : {i : ℕ} → Behind i [] → ltb (i + 1) (length code) ≡ false
  ends {i} b = ground (arith, (nil-drop code (suc i) b.left).1)

  more_to_come : {i c : ℕ} {rest : List ℕ} → Behind i (c ∷ rest) → ltb (i + 1) (length code) ≡ true
  more_to_come b = ground (arith, (step b).inside)

  enough_left : {i : ℕ} {rest : List ℕ} → Behind i rest → length rest < length code + 1
  enough_left {i} b = omega (arith, length-drop (suc i) code, ap length b.left)

  chew_round-Agrees :
      (q : Bool) (i c : ℕ) (rest : List ℕ)
      → Behind i rest
      → AgreesRound i (round_left q c rest) (chew_round (length code + 1) code q i c)
  unfolding round_left chew_round chew_comment line_left
  chew_round-Agrees q i c [] b =
      let line = skip_line-Agrees (length code + 1) i [] b (enough_left b) in
      rw (ends b) (elim (Bool-cases (c == b'#' && not q)) [
        | inl e ↦ rw e (nothing_written line)
        | inr e ↦ rw e (same_round (c ∷ []) i [] (omega arith) (omega arith) b)
      ])
  chew_round-Agrees q i c (d ∷ rest) b =
      let line = skip_line-Agrees (length code + 1) i (d ∷ rest) b (enough_left b) in
      let comment = skip_comment-Agrees (length code + 1) i (d ∷ rest) b (enough_left b) in
      rw (more_to_come b, counts i b.inside, here b)
        (elim (Bool-cases (c == b'\\')) [
          | inl e ↦
              rw (e, ◌>>=◌)
                (same_round (unescaped d) (suc i) rest (ground arith) (omega arith) (step b))
          | inr e ↦ elim (Bool-cases (c == b'#' && not q)) [
            | inr e' ↦ rw (e, e') (same_round (c ∷ []) i (d ∷ rest) (omega arith) (omega arith) b)
            | inl e' ↦ elim (Bool-cases (d == b'#')) [
              | inl e'' ↦ rw (e, e', e'') (nothing_written comment)
              | inr e'' ↦ rw (e, e', e'') (nothing_written line)
            ]
          ]
        ])

  joined :
      (out bs : List ℕ) (r : Run (List ℕ))
      → (r >>= λ more. ok ((out ++ bs) ++ more))
        ≡ ((r >>= λ more. ok (bs ++ more)) >>= λ more. ok (out ++ more))
  joined out bs (ok more) = ap ok (append_assoc out bs more)
  joined out bs (jump e) = refl
  joined out bs (fault e) = refl

  -- What comes behind a round agrees where it agrees behind the same bytes and the same text.
  after :
      {i : ℕ} {r : Run (List ℕ × List ℕ)} {s : Run (List ℕ × ℕ)} (fuel : ℕ) (q : Bool)
      (out : List ℕ)
      → AgreesRound i r s
      → ((bs : List ℕ) (j : ℕ) (rest : List ℕ)
          → length bs ≤ 1
          → i ≤ j
          → Behind j rest
          → (put_code code out bs >>= λ out'. chew (suc fuel) code q (next_i j) out')
            ≡ (chew_left fuel q rest >>= λ more. ok ((out ++ bs) ++ more)))
      → (s >>= λ (bs, j). put_code code out bs >>= λ out'. chew (suc fuel) code q (next_i j) out')
        ≡ (r >>= (λ (bs, rest). chew_left fuel q rest >>= λ more. ok (bs ++ more)) >>= λ more.
            ok (out ++ more))
  after fuel q out (same_round bs j rest few less b) h =
      h bs j rest few less b ∙ joined out bs (chew_left fuel q rest)
  after fuel q out overrun_round h = refl

  chew-chew_left :
      (fuel : ℕ) (q : Bool) (i : ℕ) (rest out : List ℕ)
      → drop i code ≡ rest
      → length rest ≤ fuel
      → length out ≤ i
      → chew (suc fuel) code q i out ≡ (chew_left fuel q rest >>= λ more. ok (out ++ more))
  unfolding chew chew_left put_code
  chew-chew_left fuel q i [] out left enough written =
      let ended : ltb i (length code) ≡ false = ground (arith, (nil-drop code i left).1) in
      rw (ended, append-nil) refl
  chew-chew_left zero q i (c ∷ rest) out left enough written = absurd (omega (arith, enough))
  chew-chew_left (suc fuel) q i (c ∷ rest) out left enough written =
      let (is, behind, inside) = cons-drop code i left in
      let b : Behind i rest = record { left = behind; inside = inside } in
      let q' = quotes_behind q c in
      let read : read_at code i ≡ ok c = unfold read_at in rw (read_at, is) refl in
      rw (goes_on i inside, read, ◌>>=◌)
        (after fuel q' out (chew_round-Agrees q' i c rest b) λ bs j rest' few less b'.
          let fits : leb (length out + length bs) (length code + 1) ≡ true =
            ground (arith, written, few, inside) in
          rw (put_code, fits, counts j b'.inside)
            (chew-chew_left fuel q' (suc j) rest' (out ++ bs) b'.left
              (omega (
                arith,
                enough,
                less,
                length-drop (suc j) code,
                ap length b'.left,
                length-drop (suc i) code,
                ap length b.left,
              ))
              (omega (arith, written, few, less, length-append out bs))))

same_run : (r : Run (List ℕ)) → (r >>= λ more. ok ([] ++ more)) ≡ r
same_run (ok more) = refl
same_run (jump e) = refl
same_run (fault e) = refl

-- For a text of less than 2^32 bytes, larva_chew is chewed_text.
pub larva_chew-chewed_text :
    (code : List ℕ) → length code < 2 ^ 32 → larva_chew code ≡ chewed_text code
unfolding larva_chew chewed_text
larva_chew-chewed_text code small =
    chew-chew_left code small (length code) false 0 code [] refl (omega arith) (omega arith)
    ∙ same_run _
