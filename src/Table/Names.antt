-- ===== src/Table/Names.antt =====
-- Strings as keys: strcmp, and the hash of core/block.c, core/map.c, core/var.c, core/cocoon.c.
use bombyx.Prelude.{ℕ, ◌+◌, ◌*◌, ◌%◌, ◌^◌, ◌<◌, ◌≡◌, ◌↔◌, refl, true, [], ◌∷◌, arith}
use bombyx.Table.{Name, Table, same_name, sign_extend, hash_step, hash_loop, hash}

pub same_name_refl : (a : Name) → same_name a a ≡ true
unfolding same_name
same_name_refl [] = refl
same_name_refl (x ∷ a) = ground (arith, same_name_refl a)

pub eq_of_same_name : (a b : Name) → same_name a b ≡ true → a ≡ b
unfolding same_name
eq_of_same_name [] [] h = refl
eq_of_same_name [] (y ∷ b) h = cc
eq_of_same_name (x ∷ a) [] h = cc
eq_of_same_name (x ∷ a) (y ∷ b) h = ground (arith, eq_of_same_name a b)

pub same_name_iff : (a b : Name) → (same_name a b ≡ true) ↔ (a ≡ b)
same_name_iff a b = (eq_of_same_name a b, λ e. rw e (same_name_refl b))

-- A byte read as a signed `char`, modulo 2 ^ 32, and the polynomial that the hash stands for.
unfoldable pub poly : ℕ → Name → ℕ
poly acc [] = acc
poly acc (c ∷ str) = poly (31 * acc + sign_extend c) str

hash_step-mod :
    (h c acc : ℕ) → h ≡ acc % 2 ^ 32 → hash_step h c ≡ (31 * acc + sign_extend c) % 2 ^ 32
unfolding hash_step sign_extend
hash_step-mod h c acc e = ground arith

pub hash_loop-poly :
    (h : ℕ) (str : Name) (acc : ℕ) → h ≡ acc % 2 ^ 32 → hash_loop h str ≡ poly acc str % 2 ^ 32
unfolding hash_loop poly
hash_loop-poly h [] acc e = e
hash_loop-poly h (c ∷ str) acc e =
    hash_loop-poly (hash_step h c) str (31 * acc + sign_extend c) (hash_step-mod h c acc e)

pub hash-lt {ℓ} : {V : Type ℓ} (t : Table V) (str : Name) → 0 < t.size → hash t str < t.size
unfolding hash
hash-lt t str h = omega arith
