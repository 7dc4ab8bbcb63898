-- ===== src/Larva/Gives.antt =====
-- core/larva.c: how the pieces of larva_digest compose. `Gives p s a cs n s'` says that `p` goes from
-- the text `s` to `s'`, returns `a`, and appends `cs` to the code in `n` calls of core/bytecode.c.
use bombyx.Prelude.{
  ℕ, suc, ◌+◌, ◌≤◌, ◌<◌, ◌≡◌, refl, sym, Bool, true, false, List, [], ◌∷◌, ◌++◌, arith,
  if◌then◌else◌,
}
use mathlib.Core.List.{append_assoc, append-nil}
use bombyx.Run.{ok}
use bombyx.Double.{Double}
use bombyx.Bytecode.{Bytecode}
use bombyx.Expression.{Parser, pure, ◌>>=◌, ◌>>◌}
use bombyx.Expression.Parse.{ends_at, cut_expression, parse_expression, parse}
use bombyx.Expression.Grammar.{
  Tree, any_of, group, unsigned, base, factor, summand, side, value, conjunct, disjunct, text, code,
  weight,
}
use bombyx.Expression.Reads.{Reads, Moves, Room, Wrote}
use bombyx.Expression.Correct.{parse_expression-Wrote}
use bombyx.Larva.{code_at, next_pos}
use bombyx.Larva.Digest.{parse_code, condition}
use bombyx.Larva.Reading.{cut_condition}
use bombyx.Larva.Balanced.{cut_expression-text, cut_condition-text}

pub record Gives {A : Type 0} (p : Parser A) (s : List ℕ) (a : A) (cs : List ℕ) (n : ℕ)
    (s' : List ℕ) : Type 0 where
  pub run :
      (bc : Bytecode) (m : ℕ)
      → Room (n + m) bc
      → (r : Bytecode) × (p (record { rest = s; bc = bc }) ≡ ok (a, record { rest = s'; bc = r }))
        × Wrote bc cs m r

pub writes_of :
    {p : Parser (Unit {0})} {s s' cs : List ℕ} {n : ℕ} → Reads p s cs n s' → Gives p s tt cs n s'
writes_of reads = record { run = λ bc m room. reads.run bc m room }

pub quiet :
    {A : Type 0} {p : Parser A} {s s' : List ℕ} {a : A} → Moves p s a s' → Gives p s a [] 0 s'
quiet go = record {
  run = λ bc m room. (
    bc,
    go.run bc,
    record {
      code = sym (append-nil bc.bytecode);
      room = record { sound = room.sound; left = omega (arith, room.left) };
    },
  );
}

pub and_then :
    {A B : Type 0} {p : Parser A} {s s' s'' cs ds : List ℕ} {a : A} {b : B} {n k : ℕ}
    (f : A → Parser B)
    → Gives p s a cs n s'
    → Gives (f a) s' b ds k s''
    → Gives (p >>= f) s b (cs ++ ds) (n + k) s''
and_then {cs} {ds} {k} f first next = record {
  run = λ bc m room.
      let (r, ran, wrote) =
        first.run bc (k + m) (record { sound = room.sound; left = omega (arith, room.left) }) in
      let (r', ran', wrote') = next.run r m wrote.room in
      (
        r',
        rw (ran, ran', ◌>>=◌) refl,
        record {
          code = rw (wrote'.code, wrote.code) (append_assoc bc.bytecode cs ds);
          room = wrote'.room;
        },
      );
}

pub on :
    {A B : Type 0} {p : Parser A} {s s' s'' cs : List ℕ} {a : A} {b : B} {n : ℕ} (f : A → Parser B)
    → Moves p s a s'
    → Gives (f a) s' b cs n s''
    → Gives (p >>= f) s b cs n s''
on f go next = record {
  run = λ bc m room.
      let (r, ran, wrote) = next.run bc m room in (r, rw (go.run bc, ◌>>=◌) ran, wrote);
}

pub returns :
    {A : Type 0} {p : Parser (Unit {0})} {s s' cs : List ℕ} {n : ℕ} (a : A)
    → Gives p s tt cs n s'
    → Gives (p >> pure a) s a cs n s'
returns a go = record {
  run =
      λ bc m room. let (r, ran, wrote) = go.run bc m room in (r, rw (ran, ◌>>◌, ◌>>=◌) refl, wrote);
}

pub ends :
    {A B : Type 0} {p : Parser A} {s s' s'' cs : List ℕ} {a : A} {b : B} {n : ℕ} (f : A → Parser B)
    → Gives p s a cs n s'
    → Moves (f a) s' b s''
    → Gives (p >>= f) s b cs n s''
ends f first go = record {
  run = λ bc m room.
      let (r, ran, wrote) = first.run bc m room in (r, rw (ran, go.run r, ◌>>=◌) refl, wrote);
}

pub both_move :
    {B : Type 0} {p : Parser (Unit {0})} {q : Parser B} {s s' s'' : List ℕ} {b : B}
    → Moves p s tt s'
    → Moves q s' b s''
    → Moves (p >> q) s b s''
both_move go next = record { run = λ bc. rw (go.run bc, next.run bc, ◌>>◌, ◌>>=◌) refl }

pub remains : {A : Type 0} (a : A) (s : List ℕ) → Moves (pure a) s a s
remains a s = record { run = λ bc. refl }

pub follow :
    {B : Type 0} {p : Parser (Unit {0})} {q : Parser B} {s s' s'' cs ds : List ℕ} {b : B} {n k : ℕ}
    → Gives p s tt cs n s'
    → Gives q s' b ds k s''
    → Gives (p >> q) s b (cs ++ ds) (n + k) s''
follow {q} first next = and_then (λ _. q) first next

pub fewer :
    {A : Type 0} {p : Parser A} {s s' cs : List ℕ} {a : A} {n k : ℕ}
    → n ≤ k
    → Gives p s a cs n s'
    → Gives p s a cs k s'
fewer le go = record {
  run =
      λ bc m room. go.run bc m (record { sound = room.sound; left = omega (arith, le, room.left) });
}

pub equals :
    {A : Type 0} {p : Parser A} {s s' cs ds : List ℕ} {a : A} {n k : ℕ}
    → cs ≡ ds
    → n ≡ k
    → Gives p s a cs n s'
    → Gives p s a ds k s'
equals e e' go = rw (← e, ← e') go

pub case_of :
    {A : Type 0} {p : Parser A} {s s' cs : List ℕ} {a : A} {n : ℕ} (b : Bool) (q : Parser A)
    → b ≡ true
    → Gives p s a cs n s'
    → Gives (if b then p else q) s a cs n s'
case_of b q e go = rw e go

pub otherwise :
    {A : Type 0} {q : Parser A} {s s' cs : List ℕ} {a : A} {n : ℕ} (b : Bool) (p : Parser A)
    → b ≡ false
    → Gives q s a cs n s'
    → Gives (if b then p else q) s a cs n s'
otherwise b p e go = rw e go

pub looks : (c : ℕ) (s : List ℕ) → Moves code_at (c ∷ s) c (c ∷ s)
unfolding code_at
looks c s = record { run = λ bc. refl }

pub advances : (c : ℕ) (s : List ℕ) → Moves next_pos (c ∷ s) tt s
unfolding next_pos
advances c s = record { run = λ bc. refl }

-- A tree in parentheses.
abbrev pub grouped : Tree any_of → Tree any_of
grouped e = disjunct (conjunct (value (side (summand (factor (base (unsigned (group e))))))))

module _ {D : Type 0} (fl : Double D) (fuel : ℕ) where
  parsed :
      (t : List ℕ) (bc : Bytecode) {r : Bytecode} (expr : List ℕ) (c : ℕ) (s : List ℕ)
      → cut_expression false 0 t ≡ (expr, c ∷ s)
      → parse_expression fl fuel expr bc ≡ ok r
      → parse_code fl fuel (record { rest = t; bc = bc }) ≡ ok (tt, record { rest = c ∷ s; bc = r })
  unfolding parse_code parse
  parsed t bc expr c s cut ran = rw (parse_code, cut, parse, cut, ran, cut) refl

  condition_run :
      (t : List ℕ) (bc : Bytecode) {r : Bytecode} (expr s : List ℕ)
      → cut_condition 0 t ≡ ok (expr, s)
      → parse_expression fl fuel expr bc ≡ ok r
      → condition fl fuel (record { rest = t; bc = bc }) ≡ ok (tt, record { rest = s; bc = r })
  unfolding condition
  condition_run t bc expr s cut ran = rw (condition, cut, ran) refl

  -- A tree of the grammar, in front of a byte that ends it.
  pub parse_code-text :
      (e : Tree any_of) (c : ℕ) (s : List ℕ)
      → weight e < fuel
      → ends_at false 0 c ≡ true
      → Gives (parse_code fl fuel) (text e (c ∷ s)) tt (code fl e) (weight e) (c ∷ s)
  parse_code-text e c s enough h = record {
    run = λ bc m room.
        let (r, ran, wrote) = parse_expression-Wrote fl e fuel bc m enough room in
        (r, parsed (text e (c ∷ s)) bc (text e []) c s (cut_expression-text e c s h) ran, wrote);
  }

  -- A tree in parentheses, behind `if` or `while`.
  pub condition-text :
      (e : Tree any_of) (s : List ℕ)
      → suc (weight e) < fuel
      → Gives (condition fl fuel) (b'(' ∷ text e (b')' ∷ s)) tt (code fl e) (suc (weight e)) s
  unfolding text code weight
  condition-text e s enough = record {
    run = λ bc m room.
        let (r, ran, wrote) = parse_expression-Wrote fl (grouped e) fuel bc m enough room in
        (
          r,
          condition_run (b'(' ∷ text e (b')' ∷ s)) bc (b'(' ∷ text e (b')' ∷ [])) s
              (cut_condition-text e s) ran,
          wrote,
        );
  }
