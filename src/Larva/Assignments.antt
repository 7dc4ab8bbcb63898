-- ===== src/Larva/Assignments.antt =====
-- core/larva.c: larva_digest on a line that is an expression.
use bombyx.Prelude.{
  ℕ, ◌+◌, ◌≤◌, ◌<◌, ◌≡◌, refl, Bool, true, false, ◌||◌, List, [], ◌∷◌, arith, ◌==◌, ◌⊎◌, inl, inr,
}
use bombyx.Ctype.{is_alpha}
use bombyx.Double.{Double}
use bombyx.Table.{same_name}
use bombyx.Expression.{pure, ◌>>◌}
use bombyx.Expression.Parse.{cut_expression, parse_expression, parse}
use bombyx.Expression.Grammar.{Tree, compared, text, code, weight, is_variable}
use bombyx.Expression.Ends.{left, right, text-starts}
use bombyx.Expression.Reads.{Moves}
use bombyx.Larva.Digest.{digest_token, digest_statement, parse_code}
use bombyx.Larva.Reading.{
  is_reserved, word_use, word_var, word_return, word_block, word_if, word_while, word_else,
  next_token, go_back,
}
use bombyx.Larva.Gives.{
  Gives, follow, quiet, returns, equals, advances, both_move, remains, parse_code-text,
}
use bombyx.Larva.Lines.{
  is_token, is_name, Line, declares, defines, assigns, gives_back, starts_block, tests, loops,
  alternative, open_brace, close_brace, uses, line_text, line_code, assignment, is_assigned,
}
use bombyx.Larva.Parameters.{Digests, Heads-length, statement, stops_at}
use bombyx.Larva.Declares.{reads_token}

abbrev pub is_assignment : Line → Bool
is_assignment (assigns _ _ _ _) = true
is_assignment _ = false

pub data Late : Bool → Line → Type 0 where
  late :
      (c : ℕ) (cs : List ℕ) (h : is_assigned c cs ≡ true) (v : Tree compared)
      → Late true (assigns c cs h v)

pub when : (lead : Bool) (l : Line) → ((lead ≡ false) ⊎ (is_assignment l ≡ false)) ⊎ Late lead l
when false l = inl (inl refl)
when true (assigns c cs h v) = inr (late c cs h v)
when true (declares x) = inl (inr refl)
when true (defines x v) = inl (inr refl)
when true (gives_back v) = inl (inr refl)
when true (starts_block c cs h ps) = inl (inr refl)
when true (tests v) = inl (inr refl)
when true (loops v) = inl (inr refl)
when true alternative = inl (inr refl)
when true open_brace = inl (inr refl)
when true close_brace = inl (inr refl)
when true (uses c cs h) = inl (inr refl)

pub no_brace : (c d : ℕ) (cs : List ℕ) → (c == d) ≡ false → same_name (c ∷ cs) (d ∷ []) ≡ false
unfolding same_name
no_brace c d cs h = rw h refl

pub goes_back : (t s : List ℕ) → Moves (go_back t) s tt t
goes_back t s = record { run = λ bc. refl }

module _ {D : Type 0} (fl : Double D) (spare : ℕ) (fuel : ℕ) where
  -- A token that is no word of the language is the start of an expression.
  pub other_token :
      (c : ℕ) (cs t : List ℕ) (e : Bool)
      → is_assigned c cs ≡ true
      → digest_token fl spare fuel t (c ∷ cs) e
        ≡ (go_back t >> parse_code fl fuel >> pure (false, e))
  unfolding digest_token
  other_token c cs t e h =
      let letter = left (is_alpha c || c == b'_') _ (left (is_variable c cs) _ h) in
      let h' = right (is_variable c cs) _ h in
      let free : is_reserved (c ∷ cs) ≡ false =
        ground (arith, right (is_token c cs) _ (left (is_name c cs) _ h')) in
      let no_use : same_name (c ∷ cs) word_use ≡ false =
        ground (arith, right (is_name c cs) _ h') in
      let no_if : same_name (c ∷ cs) word_if ≡ false = ground (arith, free) in
      let no_else : same_name (c ∷ cs) word_else ≡ false = ground (arith, free) in
      let no_var : same_name (c ∷ cs) word_var ≡ false = ground (arith, free) in
      let no_block : same_name (c ∷ cs) word_block ≡ false = ground (arith, free) in
      let no_return : same_name (c ∷ cs) word_return ≡ false = ground (arith, free) in
      let no_while : same_name (c ∷ cs) word_while ≡ false = ground (arith, free) in
      rw
        (
          no_brace c b'}' cs (ground (arith, letter)),
          no_var,
          no_return,
          no_block,
          no_if,
          no_while,
          no_else,
          no_brace c b'{' cs (ground (arith, letter)),
          no_use,
        )
        refl

module _ {D : Type 0} (fl : Double D) (spare : ℕ) (few : spare ≤ 1) (fuel : ℕ) where
  -- parse at the end of a line finds no expression.
  pub no_expression : (s : List ℕ) → Moves (parse_code fl fuel) (b'\n' ∷ s) tt (b'\n' ∷ s)
  unfolding parse_code parse parse_expression cut_expression
  no_expression s = record { run = λ bc. refl }

  -- A token that is no word of the language, behind the end of a line: only that end is passed.
  pub passes_end :
      {token s s' : List ℕ} (e : Bool)
      → digest_token fl spare fuel (b'\n' ∷ s) token e
        ≡ (go_back (b'\n' ∷ s) >> parse_code fl fuel >> pure (false, e))
      → Moves (next_token spare) (b'\n' ∷ s) token s'
      → Gives (digest_statement fl spare fuel e) (b'\n' ∷ s) e [] 0 s
  passes_end {token} {s} {s'} e same reads =
      let goes : Moves {A = Bool × Bool}
          (go_back (b'\n' ∷ s) >> parse_code fl fuel >> pure (false, e)) s' (false, e) (b'\n' ∷ s) =
        both_move (both_move (goes_back (b'\n' ∷ s) s') (no_expression s)) (remains (false, e) _) in
      let digests : Gives (digest_token fl spare fuel (b'\n' ∷ s) token e) s' (false, e) [] 0
          (b'\n' ∷ s) =
        rw same (quiet goes) in
      statement fl spare few fuel e reads digests (advances b'\n' s)

  -- An assignment.
  pub assigns_lem :
      (e : Bool) (c : ℕ) (cs : List ℕ) (h : is_assigned c cs ≡ true) (v : Tree compared)
      (s : List ℕ)
      → 3 + weight v < fuel
      → Digests fl spare few fuel false e (assigns c cs h v) s
  unfolding line_text line_code text weight
  assigns_lem e c cs h v s enough =
      let token = left (is_token c cs) _ (left (is_name c cs) _ (right (is_variable c cs) _ h)) in
      let tree = assignment c cs (left (is_variable c cs) _ h) v in
      let weighs : 0 + weight tree ≡ 3 + weight v = omega arith in
      let reads = reads_token spare [] c cs refl token (
        stops_at fl spare few fuel b'=' (text v (b'\n' ∷ s)) refl
          (Heads-length (text-starts v _))) in
      let parses = parse_code-text fl fuel tree b'\n' s (omega (arith, enough)) refl in
      let whole = line_text (assigns c cs h v) s in
      let digests : Gives (digest_token fl spare fuel whole (c ∷ cs) e) (b'=' ∷ text v (b'\n' ∷ s))
          (false, e) (code fl tree) (3 + weight v) (b'\n' ∷ s) =
        rw (other_token fl spare fuel c cs whole e h)
          (equals refl weighs (returns (false, e) (follow (quiet (goes_back whole _)) parses))) in
      statement fl spare few fuel e reads digests (advances b'\n' s)
