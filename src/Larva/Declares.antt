-- ===== src/Larva/Declares.antt =====
-- core/larva.c: what larva_digest does with the name of a variable, and with what stands behind it.
use bombyx.Prelude.{
  ℕ, suc, ◌+◌, ◌≤◌, ◌<◌, ◌≡◌, refl, Bool, true, false, not, ◌&&◌, ◌||◌, List, [], ◌∷◌, ◌++◌, arith,
  ltb, ◌==◌, length,
}
use mathlib.Core.List.{append_assoc}
use bombyx.Ctype.{is_space}
use bombyx.Double.{Double}
use bombyx.Bytecode.Bounds.{bc_add_token_lem}
use bombyx.Bytecode.Opcodes.{bco_var, bco_varx, bco_param}
use bombyx.Expression.{Parser, ◌>>◌, add_cmd, add_token}
use bombyx.Expression.Grammar.{Tree, any_of, text, code, weight, all}
use bombyx.Expression.Ends.{left, right, opens_sums, weaken-Heads, text-starts}
use bombyx.Expression.Reads.{Reads, Moves, Heads, head, closes, follows, emits, emits_cmd}
use bombyx.Larva.{code_at}
use bombyx.Larva.Digest.{
  declare, declare_last, parse_code, digest_value, define, digest_var, digest_vars,
}
use bombyx.Larva.Reading.{is_reserved, next_token, skip_blanks}
use bombyx.Larva.Words.{is_first, is_inner, skip_while-all, Stops, larva_read_token-word}
use bombyx.Larva.Gives.{
  Gives, writes_of, and_then, on, returns, equals, otherwise, looks, advances, parse_code-text,
  ends, both_move, remains,
}
use bombyx.Larva.Lines.{is_token, VarName, named_text, token_code}

-- Blanks and a token.
pub reads_word :
    (spare : ℕ) (blanks : List ℕ) (c : ℕ) (cs : List ℕ) {s : List ℕ}
    → all is_space blanks ≡ true
    → (is_first c && (all is_inner cs && ltb (length (c ∷ cs)) 256)) ≡ true
    → Stops spare s
    → Moves (next_token spare) (blanks ++ (c ∷ cs ++ s)) (c ∷ cs) s
unfolding next_token
reads_word spare blanks c cs spaces h behind =
    let h' = right (is_first c) _ h in
    let small : length cs < 255 = ground (arith, right (all is_inner cs) _ h') in
    record {
      run = λ bc.
          rw
            (
              larva_read_token-word spare blanks c cs spaces (left (is_first c) _ h)
                  (left (all is_inner cs) _ h') small behind,
              next_token,
            )
            refl;
    }

inner-first : (c : ℕ) (b : Bool) → (is_inner c && b) ≡ true → (is_first c && b) ≡ true
inner-first c b h = ground (arith, h)

pub reads_token :
    (spare : ℕ) (blanks : List ℕ) (c : ℕ) (cs : List ℕ) {s : List ℕ}
    → all is_space blanks ≡ true
    → is_token c cs ≡ true
    → Stops spare s
    → Moves (next_token spare) (blanks ++ (c ∷ cs ++ s)) (c ∷ cs) s
reads_token spare blanks c cs spaces h behind =
    reads_word spare blanks c cs spaces (inner-first c _ h) behind

pub skips_blanks :
    (blanks : List ℕ) {s : List ℕ}
    → all (λ c. c == b' ') blanks ≡ true
    → Heads (λ c. not (c == b' ')) s
    → Moves skip_blanks (blanks ++ s) tt s
unfolding skip_blanks
skips_blanks blanks h behind = record {
  run = λ bc. rw (skip_while-all (λ c. c == b' ') blanks h behind) refl;
}

token_fits : (c : ℕ) (cs : List ℕ) → is_token c cs ≡ true → length (c ∷ cs) ≤ 255
token_fits c cs h =
    let fit = right (all is_inner cs) _ (right (is_inner c) _ h) in ground (arith, fit)

pub adds_token :
    (c : ℕ) (cs : List ℕ) {s : List ℕ}
    → is_token c cs ≡ true
    → Reads (add_token (c ∷ cs)) s (token_code c cs) 1 s
unfolding add_token
adds_token c cs h = emits (λ bc sound. bc_add_token_lem sound (c ∷ cs) (token_fits c cs h))

past_blanks : (e : Tree any_of) (s : List ℕ) → Heads (λ c. not (c == b' ')) (text e (b'\n' ∷ s))
past_blanks e s = weaken-Heads (λ c h. ground (arith, h)) (text-starts e (b'\n' ∷ s))

-- A command with a token behind it.
pub writes_token :
    (cmd c : ℕ) (cs : List ℕ) {s : List ℕ}
    → is_token c cs ≡ true
    → Reads (add_cmd cmd >> add_token (c ∷ cs)) s (cmd ∷ token_code c cs) 2 s
writes_token cmd c cs h = follows (emits_cmd cmd) (adds_token c cs h)

module _ {D : Type 0} (fl : Double D) (fuel : ℕ) (again : Parser Bool) where
  -- A variable at the end of the line.
  pub ends_line :
      (c : ℕ) (cs s : List ℕ)
      → is_token c cs ≡ true
      → Gives
          (digest_var fl again fuel false (c ∷ cs))
          (b'\n' ∷ s)
          true
          (bco_var ∷ token_code c cs)
          2
          (b'\n' ∷ s)
  unfolding digest_var declare declare_last
  ends_line c cs s h =
      let inner : (c == b')') ≡ false = ground (arith, left (is_inner c) _ h) in
      on _ (looks b'\n' s)
        (returns true (otherwise _ _ inner (writes_of (writes_token bco_var c cs h))))

  -- A parameter before another one, and the last one.
  pub goes_on :
      (c : ℕ) (cs s : List ℕ) {s' ds : List ℕ} {n : ℕ} {a : Bool}
      → is_token c cs ≡ true
      → Gives again s a ds n s'
      → Gives
          (digest_var fl again fuel true (c ∷ cs))
          (b',' ∷ s)
          a
          (bco_param ∷ token_code c cs ++ ds)
          (2 + n)
          s'
  unfolding digest_var declare
  goes_on c cs s h more =
      let first = closes (writes_token bco_param c cs h) (advances b',' s) in
      on _ (looks b',' s) (and_then (λ _. again) (writes_of first) more)

  pub last_one :
      (c : ℕ) (cs s : List ℕ)
      → is_token c cs ≡ true
      → Gives
          (digest_var fl again fuel true (c ∷ cs))
          (b')' ∷ s)
          true
          (bco_param ∷ token_code c cs)
          2
          s
  unfolding digest_var
  last_one c cs s h =
      on _ (looks b')' s)
        (returns true (writes_of (closes (writes_token bco_param c cs h) (advances b')' s))))

  -- What stands behind a `=`.
  value_lem :
      (c : ℕ) (cs : List ℕ) {t s ds : List ℕ} {n : ℕ}
      → is_token c cs ≡ true
      → Heads opens_sums t
      → Gives (parse_code fl fuel) t tt ds n s
      → Gives
          (digest_value fl fuel false (c ∷ cs))
          t
          tt
          (ds ++ bco_varx ∷ token_code c cs)
          (n + 2)
          s
  unfolding digest_value
  value_lem c cs {ds} h (head c' t first) parses =
      let no_json : (c' == b'{' || c' == b'[') ≡ false = ground (arith, first) in
      on _ (looks c' t) (
        otherwise _ _ no_json (
          equals (append_assoc ds (bco_varx ∷ []) (token_code c cs)) (omega arith) (
            and_then (λ _. add_token (c ∷ cs))
              (and_then (λ _. add_cmd bco_varx) parses (writes_of (emits_cmd bco_varx)))
              (writes_of (adds_token c cs h)))))

  -- A variable with a value.
  pub has_value :
      (c : ℕ) (cs s : List ℕ) (e : Tree any_of)
      → is_token c cs ≡ true
      → weight e < fuel
      → Gives
          (digest_var fl again fuel false (c ∷ cs))
          (b'=' ∷ b' ' ∷ text e (b'\n' ∷ s))
          false
          (code fl e ++ bco_varx ∷ token_code c cs)
          (weight e + 2)
          (b'\n' ∷ s)
  unfolding digest_var define
  has_value c cs s e h enough =
      let parses = parse_code-text fl fuel e b'\n' s enough refl in
      let value = value_lem c cs h (text-starts e (b'\n' ∷ s)) parses in
      let first = both_move (advances b'=' _) (skips_blanks (b' ' ∷ []) refl (past_blanks e s)) in
      on _ (looks b'=' _) (
        ends _
          (ends (λ _. code_at) (on (λ _. digest_value fl fuel false (c ∷ cs)) first value)
            (looks b'\n' s))
          (remains false (b'\n' ∷ s)))

module _ {D : Type 0} (fl : Double D) (spare fuel rounds : ℕ) where
  -- A name, the blanks behind it, and what comes then.
  pub vars_name :
      (is_param : Bool) (x : VarName) (blanks blanks' : List ℕ) {s s' ds : List ℕ} {n : ℕ}
      {a : Bool}
      → all is_space blanks ≡ true
      → all (λ c. c == b' ') blanks' ≡ true
      → Heads (λ c. not (c == b' ')) s
      → Stops spare (blanks' ++ s)
      → Gives
          (digest_var fl
            (digest_vars fl spare fuel rounds is_param)
            fuel
            is_param
            (x.first ∷ x.others))
          s
          a
          ds
          n
          s'
      → Gives
          (digest_vars fl spare fuel (suc rounds) is_param)
          (blanks ++ named_text x (blanks' ++ s))
          a
          ds
          n
          s'
  unfolding digest_vars
  vars_name is_param x blanks blanks' spaces spaces' first behind more =
      let token = left (is_token x.first x.others) _ x.is in
      let free : is_reserved (x.first ∷ x.others) ≡ false =
        ground (arith, right (is_token x.first x.others) _ x.is) in
      on _ (reads_token spare blanks x.first x.others spaces token behind) (
        otherwise _ _ free (
          on
            (λ _.
              digest_var fl (digest_vars fl spare fuel rounds is_param) fuel is_param
                (x.first ∷ x.others))
            (skips_blanks blanks' spaces' first) more))
