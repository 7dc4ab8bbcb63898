-- ===== src/Larva/Chewed.antt =====
-- core/larva.c: what larva_chew does with any text.
use bombyx.Prelude.{
  ℕ, zero, suc, ◌+◌, ◌≤◌, ◌<◌, ◌^◌, sym, ◌≡◌, refl, Bool, false, not, ◌&&◌, List, [], ◌∷◌, ◌++◌,
  arith, ◌==◌, length, length-append, Bool-cases, ◌⊎◌, inl, inr,
}
use mathlib.Core.Path.{subst}
use bombyx.Run.{Run, ok, fault, out_of_bounds, ◌>>=◌}
use bombyx.Larva.Chew.{unescaped, quotes_behind, larva_chew}
use bombyx.Larva.Rounds.{line_left, comment_left, round_left, chew_left, chewed_text}
use bombyx.Larva.Counter.{larva_chew-chewed_text}

-- A run either returns what satisfies `P` or reads out of bounds.
pub data ReadsOr {X : Type 0} (P : X → Type 0) : Run X → Type 0 where
  returns : (x : X) → P x → ReadsOr P (ok x)
  overrun : ReadsOr P (fault out_of_bounds)

goes_on :
    {X Y : Type 0} {P : X → Type 0} {Q : Y → Type 0} {r : Run X} (next : X → Run Y)
    → ReadsOr P r
    → ((x : X) → P x → ReadsOr Q (next x))
    → ReadsOr Q (r >>= next)
goes_on next (returns x h) f = f x h
goes_on next overrun f = overrun

weaker :
    {X : Type 0} {P Q : X → Type 0} {r : Run X} → ((x : X) → P x → Q x) → ReadsOr P r → ReadsOr Q r
weaker f (returns x h) = returns x (f x h)
weaker f overrun = overrun

abbrev Shorter : List ℕ → List ℕ → Type 0
Shorter code rest = length rest < length code

line_left-Shorter : (code : List ℕ) → ReadsOr (Shorter code) (line_left code)
unfolding line_left
line_left-Shorter [] = overrun
line_left-Shorter (c ∷ code) = elim (Bool-cases (c == b'\n')) [
  | inl e ↦ rw e (returns code (omega arith))
  | inr e ↦ rw e (weaker (λ x h. omega (arith, h)) (line_left-Shorter code))
]

skip_one :
    (c d : ℕ) (code : List ℕ)
    → ((c == b'#') ≡ false) ⊎ ((d == b'#') ≡ false)
    → comment_left (c ∷ d ∷ code) ≡ comment_left (d ∷ code)
unfolding comment_left
skip_one c d code (inl e) = rw e refl
skip_one c d code (inr e) = ground (arith, e)

comment_step :
    (c d : ℕ) (code : List ℕ)
    → ReadsOr (Shorter (d ∷ code)) (comment_left (d ∷ code))
    → ReadsOr (Shorter (c ∷ d ∷ code)) (comment_left (c ∷ d ∷ code))
comment_step c d code more =
    let more' = weaker {Q = Shorter (c ∷ d ∷ code)} (λ x h. omega (arith, h)) more in
    elim (Bool-cases (c == b'#')) [
      | inl e ↦ elim (Bool-cases (d == b'#')) [
        | inl e' ↦ unfold comment_left in rw (e, e') (returns code (omega arith))
        | inr e' ↦ rw (skip_one c d code (inr e')) more'
      ]
      | inr e ↦ rw (skip_one c d code (inl e)) more'
    ]

comment_left-Shorter : (code : List ℕ) → ReadsOr (Shorter code) (comment_left code)
unfolding comment_left
comment_left-Shorter [] = overrun
comment_left-Shorter (c ∷ []) = elim (Bool-cases (c == b'#')) [
  | inl e ↦ rw e overrun
  | inr e ↦ rw e overrun
]
comment_left-Shorter (c ∷ d ∷ code) = comment_step c d code (comment_left-Shorter (d ∷ code))

-- What a round writes and what it leaves are no longer than what it had.
abbrev Fits : List ℕ → List ℕ × List ℕ → Type 0
Fits code (new_code, rest) =
    (length new_code + length rest ≤ suc (length code)) × (length rest ≤ length code)

unescaped-length : (d : ℕ) → length (unescaped d) ≤ 1
unescaped-length d = ground arith

round_left-Fits : (q : Bool) (c : ℕ) (code : List ℕ) → ReadsOr (Fits code) (round_left q c code)
unfolding round_left
round_left-Fits q c [] = elim (Bool-cases (c == b'#' && not q)) [
  | inl e ↦ rw e overrun
  | inr e ↦ rw e (returns (c ∷ [], []) (omega arith, omega arith))
]
round_left-Fits q c (d ∷ code) = elim (Bool-cases (c == b'\\')) [
  | inl e ↦ rw e (returns (unescaped d, code) (omega (arith, unescaped-length d), omega arith))
  | inr e ↦ elim (Bool-cases (c == b'#' && not q)) [
    | inl e' ↦
        rw (e, e')
          (elim (Bool-cases (d == b'#')) [
            | inl e'' ↦ rw e'' (
                goes_on _ (comment_left-Shorter (d ∷ code))
                  (λ rest h. returns ([], rest) (omega (arith, h), omega (arith, h))))
            | inr e'' ↦ rw e'' (
                goes_on _ (line_left-Shorter (d ∷ code))
                  (λ rest h. returns ([], rest) (omega (arith, h), omega (arith, h))))
          ])
    | inr e' ↦ rw (e, e') (returns (c ∷ [], d ∷ code) (omega arith, omega arith))
  ]
]

chew_lem :
    (fuel : ℕ) (q : Bool) (code : List ℕ)
    → length code ≤ fuel
    → ReadsOr (λ new_code. length new_code ≤ length code) (chew_left fuel q code)
unfolding chew_left
chew_lem fuel q [] h = returns [] (omega arith)
chew_lem zero q (c ∷ code) h = elim h [ ]
chew_lem (suc fuel) q (c ∷ code) h =
    let q' = quotes_behind q c in
    goes_on _ (round_left-Fits q' c code) λ (new_code, rest) (size, less).
      goes_on _ (chew_lem fuel q' rest (omega (arith, less, h))) λ more size'.
        returns (new_code ++ more) (omega (arith, size, size', length-append new_code more))

-- On any text of less than 2^32 bytes, larva_chew ends within one round more than there are bytes,
-- and so do the loops inside of it. It returns no more bytes than it was given, or it stops at a
-- read past the text; it never writes past what it has allocated.
pub larva_chew-ReadsOr :
    (incoming_code : List ℕ)
    → length incoming_code < 2 ^ 32
    → ReadsOr (λ new_code. length new_code ≤ length incoming_code) (larva_chew incoming_code)
unfolding chewed_text
larva_chew-ReadsOr incoming_code small =
    subst (λ r. ReadsOr (λ new_code. length new_code ≤ length incoming_code) r)
      (sym (larva_chew-chewed_text incoming_code small))
      (chew_lem (length incoming_code) false incoming_code (omega arith))
