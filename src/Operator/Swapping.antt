-- ===== src/Operator/Swapping.antt =====
-- core/operator.c: what the swaps of the unary minus do to each byte of a string.
use Prim.Native.Nat.{bit_xor}
use bombyx.Prelude.{
  ℕ, zero, suc, ◌+◌, ◌-◌, ◌*◌, ◌≤◌, ◌<◌, ◌≡◌, refl, Bool, true, false, ◌&&◌, List, arith, leb, ltb,
  ◌==◌, if◌then◌else◌, length, get_or, set, length-set, get_or-set_self, get_or-set_ne, ◌∙◌,
  Bool-cases, inl, inr,
}
use native.Mathlib.Decide.{ℕ_discrete}
use bombyx.Operator.Reverse.{xor_swap, reverse_loop}

pub holds_to : (ℕ → Bool) → ℕ → Bool
holds_to test zero = test zero
holds_to test (suc top) = let rest = holds_to test top in if test (suc top) then rest else false

pub holds_to_lem :
    (test : ℕ → Bool) (top k : ℕ) → k ≤ top → holds_to test top ≡ true → test k ≡ true
unfolding holds_to
holds_to_lem test zero k low all = let z : k ≡ 0 = omega arith in rw z all
holds_to_lem test (suc top) k low all = elim (ℕ_discrete k (suc top)) [
  | yes e ↦ rw e (ground arith)
  | no n ↦ ground (arith, holds_to_lem test top k)
]

-- The three exclusive ors of XOR_SWAP exchange any two bytes.
pub swaps : ℕ → ℕ → Bool
swaps x y = let x₁ = bit_xor x y in let y₁ = bit_xor y x₁ in y₁ == x && bit_xor x₁ y₁ == y

pub swaps_table : holds_to (λ x. holds_to (swaps x) 255) 255 ≡ true
unfolding holds_to swaps
swaps_table = refl

abbrev pub at : List ℕ → ℕ → ℕ
at bs i = get_or bs i 0

-- Bytes are below 256.
abbrev pub AreBytes : List ℕ → Type 0
AreBytes bs = (i : ℕ) → get_or bs i 0 < 256

pub at-set :
    (bs : List ℕ) (i j v : ℕ) → i < length bs → at (set bs i v) j ≡ (if i == j then v else at bs j)
at-set bs i j v h = elim (ℕ_discrete i j) [
  | yes e ↦ rw (← e, get_or-set_self bs i v 0 h) (ground arith)
  | no n ↦ rw (get_or-set_ne bs i j v 0 n) (ground arith)
]

pub xor_exchanges :
    (x y : ℕ)
    → x < 256
    → y < 256
    → (bit_xor y (bit_xor x y) ≡ x) × (bit_xor (bit_xor x y) (bit_xor y (bit_xor x y)) ≡ y)
unfolding swaps
xor_exchanges x y h k =
    let row : holds_to (swaps x) 255 ≡ true =
      holds_to_lem (λ x. holds_to (swaps x) 255) 255 x (omega arith) swaps_table in
    let cell : swaps x y ≡ true = holds_to_lem (swaps x) 255 y (omega arith) row in ground arith

pub record Exchanged (bs : List ℕ) (i j : ℕ) (r : List ℕ) : Type 0 where
  pub width : length r ≡ length bs
  pub reads : (k : ℕ) → at r k ≡ (if k == i then at bs j else (if k == j then at bs i else at bs k))

pub xor_swap-Exchanged :
    (bs : List ℕ) (i j : ℕ)
    → AreBytes bs
    → i < j
    → j < length bs
    → Exchanged bs i j (xor_swap bs i j)
unfolding xor_swap
xor_swap-Exchanged bs i j small lt inside =
    let x = at bs i in
    let y = at bs j in
    let bs₁ = set bs i (bit_xor x y) in
    let w₁ : length bs₁ ≡ length bs = length-set bs i (bit_xor x y) in
    let i₁ : at bs₁ i ≡ bit_xor x y = get_or-set_self bs i (bit_xor x y) 0 (omega arith) in
    let j₁ : at bs₁ j ≡ y = get_or-set_ne bs i j (bit_xor x y) 0 (omega arith) in
    let (e₁, e₂) = xor_exchanges x y (small i) (small j) in
    let bs₂ = set bs₁ j (bit_xor y (bit_xor x y)) in
    let w₂ : length bs₂ ≡ length bs = length-set bs₁ j (bit_xor y (bit_xor x y)) ∙ w₁ in
    let i₂ : at bs₂ i ≡ bit_xor x y =
      get_or-set_ne bs₁ j i (bit_xor y (bit_xor x y)) 0 (omega arith) ∙ i₁ in
    let j₂ : at bs₂ j ≡ bit_xor y (bit_xor x y) =
      get_or-set_self bs₁ j (bit_xor y (bit_xor x y)) 0 (omega (arith, w₁)) in
    rw (j₁, i₁, i₂, j₂)
      (record {
        width = length-set bs₂ i _ ∙ w₂;
        reads = λ k.
            rw
              (
                at-set bs₂ i k (bit_xor (bit_xor x y) (bit_xor y (bit_xor x y)))
                    (omega (arith, w₂)),
                at-set bs₁ j k (bit_xor y (bit_xor x y)) (omega (arith, w₁)),
                at-set bs i k (bit_xor x y) (omega arith),
                e₂,
                e₁,
              )
              (ground arith);
      })

-- The walk from `ptr` and `end` mirrors what lies between them, and touches nothing else.
pub record Mirrored (ptr end : ℕ) (bs r : List ℕ) : Type 0 where
  pub width : length r ≡ length bs
  pub reads : (k : ℕ) → at r k ≡ (if leb ptr k && leb k end then at bs (ptr + end - k) else at bs k)

pub Exchanged-AreBytes : {bs r : List ℕ} {i j : ℕ} → AreBytes bs → Exchanged bs i j r → AreBytes r
Exchanged-AreBytes {bs} {r} {i} {j} small e k = ground (arith, e.reads k, small i, small j, small k)

pub mirror_middle :
    (bs : List ℕ) (ptr end : ℕ)
    → end ≤ ptr
    → (k : ℕ) → at bs k ≡ (if leb ptr k && leb k end then at bs (ptr + end - k) else at bs k)
mirror_middle bs ptr end met k = elim (ℕ_discrete k (ptr + end - k)) [
  | yes e ↦ rw (← e) (ground arith)
  | no n ↦ ground arith
]

-- One exchange, and the mirror of what is between.
pub mirror_step :
    {bs swapped r : List ℕ} {ptr end : ℕ}
    → ptr < end
    → Exchanged bs ptr end swapped
    → Mirrored (ptr + 1) (end - 1) swapped r
    → Mirrored ptr end bs r
mirror_step {bs} {swapped} {r} {ptr} {end} lt e m = record {
  width = omega (arith, m.width, e.width);
  reads = reads;
}
  where
    same : ptr + 1 + (end - 1) ≡ ptr + end
    same = omega arith

    reads : (k : ℕ) → at r k ≡ (if leb ptr k && leb k end then at bs (ptr + end - k) else at bs k)
    reads k = elim (ℕ_discrete k ptr) [
      | yes a ↦
          let j : ptr + end - k ≡ end = omega arith in rw j (ground (arith, m.reads k, e.reads k))
      | no a ↦ elim (ℕ_discrete k end) [
        | yes b ↦
            let j : ptr + end - k ≡ ptr = omega arith in rw j (ground (arith, m.reads k, e.reads k))
        | no b ↦ rw (m.reads k, same) (ground (arith, e.reads k, e.reads (ptr + end - k)))
      ]
    ]

pub reverse_loop-Mirrored :
    (rounds ptr end : ℕ) (bs : List ℕ)
    → AreBytes bs
    → end < length bs
    → end < ptr + 2 * rounds
    → Mirrored ptr end bs (reverse_loop rounds ptr end bs)
unfolding reverse_loop
reverse_loop-Mirrored zero ptr end bs small inside enough = record {
  width = refl;
  reads = λ k. ground arith;
}
reverse_loop-Mirrored (suc rounds) ptr end bs small inside enough =
    elim (Bool-cases (ltb ptr end)) [
      | inl apart ↦
          let lt : ptr < end = ground arith in
          let e = xor_swap-Exchanged bs ptr end small lt inside in
          rw apart (
            mirror_step lt e (
              reverse_loop-Mirrored rounds (ptr + 1) (end - 1) (xor_swap bs ptr end)
                (Exchanged-AreBytes small e) (omega (arith, e.width)) (omega arith)))
      | inr met ↦ rw met (record { width = refl; reads = mirror_middle bs ptr end (ground arith) })
    ]
