-- ===== src/Larva/Parameters.antt =====
-- core/larva.c: the first token of a line, and the parameters of a block.
use bombyx.Prelude.{
  ℕ, zero, suc, ◌*◌, ◌≤◌, ◌<◌, ◌≡◌, refl, sym, Bool, true, false, ◌&&◌, List, [], ◌∷◌, ◌++◌, arith,
  ltb, if◌then◌else◌, length,
}
use mathlib.Core.List.{append-nil}
use bombyx.Ctype.{is_space}
use bombyx.Double.{Double}
use bombyx.Table.{same_name}
use bombyx.Expression.{Parser, pure, ◌>>=◌, ◌>>◌}
use bombyx.Expression.Grammar.{all}
use bombyx.Expression.Ends.{left}
use bombyx.Expression.Reads.{Moves, Heads, head}
use bombyx.Larva.{next_pos}
use bombyx.Larva.Digest.{declare_last, digest_var, digest_vars, digest_token, digest_statement}
use bombyx.Larva.Reading.{next_token}
use bombyx.Larva.Token.{stops}
use bombyx.Larva.Words.{is_first, is_inner, Stops, stop}
use bombyx.Larva.Gives.{Gives, on, equals, looks, advances, quiet, both_move, remains}
use bombyx.Larva.Lines.{
  is_token, VarName, params_text, params_code, Line, declares, starts_block, line_text, line_code,
  line_writes, expects_behind,
}
use bombyx.Larva.Declares.{reads_word, skips_blanks, goes_on, last_one, vars_name}

abbrev pub newline : Bool → List ℕ
newline true = b'\n' ∷ []
newline false = []

pub newline-blank : (lead : Bool) → all is_space (newline lead) ≡ true
newline-blank true = refl
newline-blank false = refl

pub Heads-length : {test : ℕ → Bool} {s : List ℕ} → Heads test s → 1 ≤ length s
Heads-length (head c s h) = omega arith

-- The loop goes on behind the line, or at its end.
abbrev pub leaves : Line → Bool
leaves (declares _) = true
leaves (starts_block _ _ _ _) = true
leaves _ = false

pub params-length : (ps : List VarName) (s : List ℕ) → 1 ≤ length (params_text ps s)
unfolding params_text
params-length [] s = omega arith
params-length (x ∷ []) s = omega arith
params-length (x ∷ y ∷ ps) s = omega arith

module _ {D : Type 0} (fl : Double D) (spare : ℕ) (few : spare ≤ 1) (fuel : ℕ) where
  pub stops_at : (c : ℕ) (s : List ℕ) → stops c ≡ true → 1 ≤ length s → Stops spare (c ∷ s)
  stops_at c s h size = stop c s h (omega (arith, few, size))

  pub closes_params :
      (again : Parser Bool) (s : List ℕ)
      → Gives (digest_var fl again fuel true (b')' ∷ [])) (b'\n' ∷ s) true [] 0 (b'\n' ∷ s)
  unfolding digest_var declare_last
  closes_params again s = on _ (looks b'\n' s) (quiet (both_move (remains tt _) (remains true _)))

  -- The parameters of a block.
  pub params :
      (rounds : ℕ) (ps : List VarName) (s : List ℕ)
      → length ps < rounds
      → 1 ≤ length s
      → Gives
          (digest_vars fl spare fuel rounds true)
          (params_text ps s)
          true
          (params_code ps)
          (2 * length ps)
          (b'\n' ∷ s)
  unfolding params_text params_code digest_vars same_name
  params zero ps s enough size = absurd (omega (arith, enough))
  params (suc rounds) [] s enough size =
      on _ (reads_word spare [] b')' [] refl refl (stops_at b'\n' s refl size)) (
        on (λ _. digest_var fl (digest_vars fl spare fuel rounds true) fuel true (b')' ∷ []))
          (skips_blanks [] refl (head b'\n' s refl))
          (closes_params (digest_vars fl spare fuel rounds true) s))
  params (suc rounds) (x ∷ []) s enough size =
      let last =
        last_one fl fuel (digest_vars fl spare fuel rounds true) x.first x.others (b'\n' ∷ s)
          (left (is_token x.first x.others) _ x.is) in
      equals (sym (append-nil _)) refl (
        vars_name fl spare fuel rounds true x [] [] refl refl (head b')' _ refl)
          (stops_at b')' _ refl (omega arith)) last)
  params (suc rounds) (x ∷ y ∷ ps) s enough size =
      let more = params rounds (y ∷ ps) s (omega (arith, enough)) size in
      let first =
        goes_on fl fuel (digest_vars fl spare fuel rounds true) x.first x.others
          (params_text (y ∷ ps) s) (left (is_token x.first x.others) _ x.is) more in
      equals refl (omega arith) (
        vars_name fl spare fuel rounds true x [] [] refl refl (head b',' _ refl)
          (stops_at b',' _ refl (params-length (y ∷ ps) s)) first)

  -- A line, from its first token on.
  pub statement :
      {t token s s' s'' cs : List ℕ} {n : ℕ} {expects continues : Bool} (expect_block : Bool)
      → Moves (next_token spare) t token s
      → Gives (digest_token fl spare fuel t token expect_block) s (continues, expects) cs n s'
      → Moves (if continues then pure tt else next_pos) s' tt s''
      → Gives (digest_statement fl spare fuel expect_block) t expects cs n s''
  unfolding digest_statement
  statement expect_block reads digests go = record {
    run = λ bc m room.
        let (r, ran, wrote) = digests.run bc m room in
        (r, rw (reads.run bc, ran, go.run r, ◌>>=◌, ◌>>◌) refl, wrote);
  }

  -- Its first token, behind what may be left of the line before.
  pub keyword :
      (lead : Bool) (c : ℕ) (cs : List ℕ) (d : ℕ) (s : List ℕ)
      → (is_first c && (all is_inner cs && ltb (length (c ∷ cs)) 256)) ≡ true
      → stops d ≡ true
      → 1 ≤ length s
      → Moves (next_token spare) (newline lead ++ (c ∷ cs ++ d ∷ s)) (c ∷ cs) (d ∷ s)
  keyword lead c cs d s h e size =
      reads_word spare (newline lead) c cs (newline-blank lead) h (stops_at d s e size)

  -- A command_line alone.
  pub command_line :
      (lead expect_block : Bool) (c : ℕ) (cs : List ℕ) (cmd : ℕ) (s : List ℕ)
      → (is_first c && (all is_inner cs && ltb (length (c ∷ cs)) 256)) ≡ true
      → 1 ≤ length s
      → Gives
          (digest_token fl spare fuel (newline lead ++ (c ∷ cs ++ b'\n' ∷ s)) (c ∷ cs) expect_block)
          (b'\n' ∷ s)
          (false, expect_block)
          (cmd ∷ [])
          1
          (b'\n' ∷ s)
      → Gives
          (digest_statement fl spare fuel expect_block)
          (newline lead ++ (c ∷ cs ++ b'\n' ∷ s))
          expect_block
          (cmd ∷ [])
          1
          s
  command_line lead expect_block c cs cmd s h size digests =
      statement expect_block (keyword lead c cs b'\n' s h refl size) digests (advances b'\n' s)

  abbrev pub Digests : Bool → Bool → Line → List ℕ → Type 0
  Digests lead expect_block l s =
      Gives (digest_statement fl spare fuel expect_block) (newline lead ++ line_text l s)
        (expects_behind expect_block l) (line_code fl expect_block l) (line_writes l)
        (newline (leaves l) ++ s)
