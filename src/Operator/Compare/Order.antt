-- ===== src/Operator/Compare/Order.antt =====
-- core/operator.c: the order that the comparisons of strings decide.
use Prim.Native.Nat.{Ordering, compare}
use bombyx.Prelude.{
  ℕ, ◌<◌, ◌≡◌, ◌≢◌, refl, Bool, true, false, List, [], ◌∷◌, ◌++◌, arith, ◌⊎◌, inl, inr, some,
}
use bombyx.Run.{ok}
use bombyx.Value.{Address, Var}
use bombyx.Double.{Double}
use bombyx.Env.{Env, ◌>>=◌}
use bombyx.Operator.Bytes.{IsString, load_bytes_lem}
use bombyx.Operator.Compare.{
  c_string, strcmp, is_lt, is_gt, is_eq, load_string, compare_strings, var_cmp, var_is_more,
  var_is_less,
}

-- No byte is zero.
pub data IsText : List ℕ → Type 0 where
  nil : IsText []
  cons : {b : ℕ} {bs : List ℕ} → b ≢ 0 → IsText bs → IsText (b ∷ bs)

-- The order of a dictionary.
pub data Precedes : List ℕ → List ℕ → Type 0 where
  shorter : {y : ℕ} {ys : List ℕ} → Precedes [] (y ∷ ys)
  smaller : {x y : ℕ} {xs ys : List ℕ} → x < y → Precedes (x ∷ xs) (y ∷ ys)
  later : {x y : ℕ} {xs ys : List ℕ} → x ≡ y → Precedes xs ys → Precedes (x ∷ xs) (y ∷ ys)

c_string_lem : {s : List ℕ} → IsText s → c_string (s ++ 0 ∷ []) ≡ some s
unfolding c_string
c_string_lem nil = refl
c_string_lem (cons n text) = ground (arith, c_string_lem text)

-- What a result of strcmp says.
Says : Ordering → List ℕ → List ℕ → Type 0
Says Ordering.lt s t = Precedes s t
Says Ordering.eq s t = s ≡ t
Says Ordering.gt s t = Precedes t s

strcmp-Says : (s t : List ℕ) → Says (strcmp s t) s t
unfolding strcmp Says
strcmp-Says [] [] = refl
strcmp-Says [] (y ∷ ys) = shorter
strcmp-Says (x ∷ xs) [] = shorter
strcmp-Says (x ∷ xs) (y ∷ ys) = go (compare x y) refl (strcmp xs ys) refl (strcmp-Says xs ys)
  where
    go :
        (o : Ordering)
        → compare x y ≡ o
        → (r : Ordering) → strcmp xs ys ≡ r
        → Says r xs ys
        → Says
            (elim o [ Ordering.lt ↦ Ordering.lt | Ordering.gt ↦ Ordering.gt | Ordering.eq ↦ r ])
            (x ∷ xs)
            (y ∷ ys)
    go Ordering.lt e r k h = smaller (ground (arith, e))
    go Ordering.gt e r k h = smaller (ground (arith, e))
    go Ordering.eq e Ordering.lt k h = later (ground (arith, e)) h
    go Ordering.eq e Ordering.gt k h = later (ground (arith, e)) h
    go Ordering.eq e Ordering.eq k h = let e' : x ≡ y = ground (arith, e) in cc

module _ {D : Type 0} ⦃fl : Double D⦄ where
  -- The answers of the three comparisons, which leave the environment as it is.
  pub record Answers (env : Env D) (a b : Var) (less same more : Bool) : Type 0 where
    pub less_answer : var_is_less a b env ≡ ok (less, env)
    pub same_answer : var_cmp a b env ≡ ok (same, env)
    pub more_answer : var_is_more a b env ≡ ok (more, env)

  load_string_lem :
      {env : Env D} {a : Var} {p : Address} {s : List ℕ}
      → IsString env a p s
      → IsText s
      → load_string a.ptr env ≡ ok (s, env)
  unfolding load_string
  load_string_lem {env = env} {a = a} h text =
      rw (load_bytes_lem env a.ptr h.ptr h.cell, ◌>>=◌, c_string_lem text) refl

  compare_strings_lem :
      (test : Ordering → Bool) {env : Env D} {a b : Var} {p q : Address} {s t : List ℕ}
      → IsString env a p s
      → IsText s
      → IsString env b q t
      → IsText t
      → compare_strings test a b env ≡ ok (test (strcmp s t), env)
  unfolding compare_strings
  compare_strings_lem test ha sa hb sb =
      rw (load_string_lem ha sa, ◌>>=◌, load_string_lem hb sb, ◌>>=◌) refl

  answers :
      {env : Env D} {a b : Var} {p q : Address} {s t : List ℕ}
      → IsString env a p s
      → IsText s
      → IsString env b q t
      → IsText t
      → Answers env a b (is_lt (strcmp s t)) (is_eq (strcmp s t)) (is_gt (strcmp s t))
  unfolding var_is_less var_cmp var_is_more
  answers ha sa hb sb = record {
    less_answer = rw (ha.type, hb.type, compare_strings_lem is_lt ha sa hb sb) refl;
    same_answer = rw (ha.type, hb.type, compare_strings_lem is_eq ha sa hb sb) refl;
    more_answer = rw (ha.type, hb.type, compare_strings_lem is_gt ha sa hb sb) refl;
  }

  -- Of two strings without zero bytes, `<`, `==` and `>` hold exactly where the first precedes the
  -- second in the order of a dictionary, where they are equal, and where the second precedes the
  -- first; so exactly one of them holds, and none changes the environment.
  pub strings-Answers :
      {env : Env D} {a b : Var} {p q : Address} {s t : List ℕ}
      → IsString env a p s
      → IsText s
      → IsString env b q t
      → IsText t
      → (Precedes s t × Answers env a b true false false)
        ⊎ ((s ≡ t × Answers env a b false true false)
            ⊎ (Precedes t s × Answers env a b false false true))
  unfolding Says
  strings-Answers {env} {a} {b} {p} {q} {s} {t} ha sa hb sb =
      go (strcmp s t) (strcmp-Says s t) (answers ha sa hb sb)
    where
      go :
          (o : Ordering)
          → Says o s t
          → Answers env a b (is_lt o) (is_eq o) (is_gt o)
          → (Precedes s t × Answers env a b true false false)
            ⊎ ((s ≡ t × Answers env a b false true false)
                ⊎ (Precedes t s × Answers env a b false false true))
      go Ordering.lt h k = inl (h, k)
      go Ordering.eq h k = inr (inl (h, k))
      go Ordering.gt h k = inr (inr (h, k))
