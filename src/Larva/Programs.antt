-- ===== src/Larva/Programs.antt =====
-- core/larva.c: larva_digest on a program, line after line.
use bombyx.Prelude.{
  ℕ, zero, suc, ◌+◌, ◌*◌, ◌^◌, ◌≤◌, ◌<◌, ◌≡◌, refl, Bool, true, false, not, ◌||◌, List, [], ◌∷◌,
  ◌++◌, arith, ◌==◌, length, ◌⊎◌, inl, inr,
}
use mathlib.Core.Bool.{true≢false}
use bombyx.Run.{Returns}
use bombyx.Ctype.{is_alpha}
use bombyx.Double.{Double}
use bombyx.Table.{same_name}
use bombyx.Bytecode.{Bytecode, bc_grow_size}
use bombyx.Bytecode.Bounds.{IsSound}
use bombyx.Expression.Grammar.{text, is_variable}
use bombyx.Expression.Ends.{left, right, text-starts}
use bombyx.Expression.Reads.{Moves, Heads, head}
use bombyx.Larva.{skip_while}
use bombyx.Larva.Token.{token_string, token_loop, token_from, larva_read_token}
use bombyx.Larva.Digest.{digest_token, digest_statement, digest_loop, larva_digest}
use bombyx.Larva.Reading.{next_token}
use bombyx.Larva.Gives.{Gives, quiet, and_then, on, equals, otherwise, looks, remains}
use bombyx.Larva.Lines.{
  is_token, is_name, Line, declares, defines, assigns, gives_back, starts_block, tests, loops,
  alternative, open_brace, close_brace, uses, line_text, line_code, line_writes, expects_behind,
  program_text, program_code, program_writes,
}
use bombyx.Larva.Statements.{
  else_lem, close_lem, declares_lem, defines_lem, gives_lem, tests_lem, loops_lem, brace_lem,
  uses_lem, block_lem,
}
use bombyx.Larva.Parameters.{newline, leaves, Digests, Heads-length, stops_at}
use bombyx.Larva.Declares.{reads_token}
use bombyx.Larva.Assignments.{is_assignment, Late, late, when, other_token, passes_end, assigns_lem}

module _ {D : Type 0} (fl : Double D) (spare : ℕ) (few : spare ≤ 1) (fuel : ℕ) where
  -- Any line but an assignment, whether or not the end of the line before is left.
  line_lem :
      (lead e : Bool) (l : Line) (s : List ℕ)
      → (lead ≡ false) ⊎ (is_assignment l ≡ false)
      → line_writes l < fuel
      → 1 ≤ length s
      → Digests fl spare few fuel lead e l s
  line_lem lead e (declares x) s ready enough size =
      declares_lem fl spare few fuel lead e x s (omega (arith, enough)) size
  line_lem lead e (defines x v) s ready enough size =
      defines_lem fl spare few fuel lead e x v s (omega (arith, enough))
  line_lem false e (assigns c cs h v) s ready enough size =
      assigns_lem fl spare few fuel e c cs h v s enough
  line_lem true e (assigns c cs h v) s ready enough size = elim ready [
    | inl n ↦ absurd (true≢false n)
    | inr n ↦ absurd (true≢false n)
  ]
  line_lem lead e (gives_back v) s ready enough size =
      gives_lem fl spare few fuel lead e v s (omega (arith, enough))
  line_lem lead e (starts_block c cs h ps) s ready enough size =
      block_lem fl spare few fuel lead e c cs h ps s (omega (arith, enough)) size
  line_lem lead e (tests v) s ready enough size =
      tests_lem fl spare few fuel lead e v s (omega (arith, enough))
  line_lem lead e (loops v) s ready enough size =
      loops_lem fl spare few fuel lead e v s (omega (arith, enough))
  line_lem lead e alternative s ready enough size = else_lem fl spare few fuel lead e s size
  line_lem lead e open_brace s ready enough size = brace_lem fl spare few fuel lead e s size
  line_lem lead e close_brace s ready enough size = close_lem fl spare few fuel lead e s size
  line_lem lead e (uses c cs h) s ready enough size =
      uses_lem fl spare few fuel lead e c cs h s size

  -- One round of the loop.
  round :
      (rounds : ℕ) (e : Bool) {s s' s'' cs ds : List ℕ} {n k : ℕ} {expects : Bool}
      → Heads (λ c. not (c == 0)) s
      → Gives (digest_statement fl spare fuel e) s expects cs n s'
      → Gives (digest_loop fl spare fuel rounds expects) s' tt ds k s''
      → Gives (digest_loop fl spare fuel (suc rounds) e) s tt (cs ++ ds) (n + k) s''
  unfolding digest_loop
  round rounds e (head c s h) first more =
      let nonzero : (c == 0) ≡ false = ground (arith, h) in
      on _ (looks c s)
        (otherwise _ _ nonzero (and_then (digest_loop fl spare fuel rounds) first more))

  closes_program :
      (rounds : ℕ) (e : Bool)
      → Gives (digest_loop fl spare fuel (suc rounds) e) (0 ∷ []) tt [] 0 (0 ∷ [])
  unfolding digest_loop
  closes_program rounds e = on _ (looks 0 []) (quiet (remains tt (0 ∷ [])))

  -- The last line is read once more, as an expression.
  last_token : Moves (next_token spare) (b'\n' ∷ 0 ∷ []) [] []
  unfolding next_token larva_read_token skip_while token_from token_loop token_string
  last_token = record { run = λ bc. refl }

  last_line :
      (rounds : ℕ) (e : Bool)
      → Gives (digest_loop fl spare fuel (suc (suc rounds)) e) (b'\n' ∷ 0 ∷ []) tt [] 0 (0 ∷ [])
  unfolding digest_token same_name
  last_line rounds e =
      round (suc rounds) e (head b'\n' _ refl) (passes_end fl spare few fuel e refl last_token)
        (closes_program rounds e)

  line-starts : (l : Line) (s : List ℕ) → Heads (λ c. not (c == 0)) (line_text l s)
  unfolding line_text
  line-starts (declares x) s = head _ _ refl
  line-starts (defines x v) s = head _ _ refl
  line-starts (assigns c cs h v) s =
      let letter = left (is_alpha c || c == b'_') _ (left (is_variable c cs) _ h) in
      head c _ (ground (arith, letter))
  line-starts (gives_back v) s = head _ _ refl
  line-starts (starts_block c cs h ps) s = head _ _ refl
  line-starts (tests v) s = head _ _ refl
  line-starts (loops v) s = head _ _ refl
  line-starts alternative s = head _ _ refl
  line-starts open_brace s = head _ _ refl
  line-starts close_brace s = head _ _ refl
  line-starts (uses c cs h) s = head _ _ refl

  program-length : (p : List Line) → 1 ≤ length (program_text p)
  unfolding program_text
  program-length [] = omega arith
  program-length (l ∷ p) = Heads-length (line-starts l (program_text p))

  twice :
      (rounds : ℕ) (e : Bool) {lead : Bool} {l : Line} (s : List ℕ) {ds : List ℕ} {k : ℕ}
      → Late lead l
      → line_writes l < fuel
      → 1 ≤ length s
      → Gives
          (digest_loop fl spare fuel rounds (expects_behind e l))
          (newline (leaves l) ++ s)
          tt
          ds
          k
          (0 ∷ [])
      → Gives
          (digest_loop fl spare fuel (suc (suc rounds)) e)
          (newline lead ++ line_text l s)
          tt
          (line_code fl e l ++ ds)
          (line_writes l + k)
          (0 ∷ [])
  unfolding line_text
  twice rounds e s (late c cs h v) deep size more =
      let l = assigns c cs h v in
      let token = left (is_token c cs) _ (left (is_name c cs) _ (right (is_variable c cs) _ h)) in
      let behind =
        stops_at fl spare few fuel b'=' (text v (b'\n' ∷ s)) refl
          (Heads-length (text-starts v _)) in
      equals refl (omega arith) (
        round (suc rounds) e (head b'\n' _ refl)
          (passes_end fl spare few fuel e
            (other_token fl spare fuel c cs (b'\n' ∷ line_text l s) e h)
            (reads_token spare (b'\n' ∷ []) c cs refl token behind))
          (round rounds e (line-starts l s) (line_lem false e l s (inl refl) deep size) more))

  newline-starts :
      (lead : Bool) {s : List ℕ}
      → Heads (λ c. not (c == 0)) s
      → Heads (λ c. not (c == 0)) (newline lead ++ s)
  newline-starts true h = head b'\n' _ refl
  newline-starts false h = h

  -- A line takes one round, or two if it is an assignment behind the end of a line.
  lines :
      (rounds : ℕ) (lead e : Bool) (l : Line) (s : List ℕ) {ds : List ℕ} {k : ℕ}
      → line_writes l < fuel
      → 1 ≤ length s
      → Gives
          (digest_loop fl spare fuel (suc rounds) (expects_behind e l))
          (newline (leaves l) ++ s)
          tt
          ds
          k
          (0 ∷ [])
      → Gives
          (digest_loop fl spare fuel rounds (expects_behind e l))
          (newline (leaves l) ++ s)
          tt
          ds
          k
          (0 ∷ [])
      → Gives
          (digest_loop fl spare fuel (suc (suc rounds)) e)
          (newline lead ++ line_text l s)
          tt
          (line_code fl e l ++ ds)
          (line_writes l + k)
          (0 ∷ [])
  lines rounds lead e l s deep size more more' = elim (when lead l) [
    | inl ready ↦
        round (suc rounds) e (newline-starts lead (line-starts l s))
          (line_lem lead e l s ready deep size) more
    | inr again ↦ twice rounds e s again deep size more'
  ]

  program_lem :
      (p : List Line) (rounds : ℕ) (lead e : Bool)
      → 2 * length p + 2 ≤ rounds
      → program_writes p < fuel
      → Gives
          (digest_loop fl spare fuel rounds e)
          (newline lead ++ program_text p)
          tt
          (program_code fl e p)
          (program_writes p)
          (0 ∷ [])
  unfolding program_text program_code program_writes
  program_lem p zero lead e enough deep = absurd (omega (arith, enough))
  program_lem p (suc zero) lead e enough deep = absurd (omega (arith, enough))
  program_lem [] (suc (suc rounds)) false e enough deep = closes_program (suc rounds) e
  program_lem [] (suc (suc rounds)) true e enough deep = last_line rounds e
  program_lem (l ∷ p) (suc (suc rounds)) lead e enough deep =
      let deep' : program_writes p < fuel = omega (arith, deep) in
      lines rounds lead e l (program_text p) (omega (arith, deep)) (program-length p)
        (program_lem p (suc rounds) (leaves l) (expects_behind e l) (omega (arith, enough)) deep')
        (program_lem p rounds (leaves l) (expects_behind e l) (omega (arith, enough)) deep')

  -- With at most one byte of the text at `code_length` or behind it, if the buffer is sound and has room
  -- for the writes of the program, the fuel is more than those writes and the rounds are more than two
  -- for each line and one, larva_digest compiles the text of a program to its code, behind the code
  -- that is there, and the buffer stays sound.
  pub larva_digest-code :
      (p : List Line) (rounds : ℕ) {bc : Bytecode}
      → IsSound bc
      → program_writes p < fuel
      → 2 * length p + 1 < rounds
      → bc.bc_length + bc_grow_size * suc (program_writes p) < 2 ^ 32
      → Returns
          (larva_digest fl spare fuel rounds (program_text p) bc)
          λ r. (r.bytecode ≡ bc.bytecode ++ program_code fl false p) × IsSound r
  unfolding larva_digest
  larva_digest-code p rounds {bc} sound deep enough room =
      let whole = program_lem p rounds false false (omega (arith, enough)) deep in
      let (r, ran, wrote) = whole.run bc 0 (record { sound = sound; left = omega (arith, room) }) in
      (r, rw (larva_digest, ran) refl, (wrote.code, wrote.room.sound))
