-- ===== src/Expression/Correct.antt =====
-- core/expression.c: parse_expression compiles the texts of the grammar to their code.
use bombyx.Prelude.{
  ap, sym, ◌∙◌, ℕ, suc, ◌+◌, ◌-◌, Bool, ◌*◌, ◌^◌, ◌≡◌, ◌≤◌, ◌<◌, refl, List, [], ◌∷◌, ◌++◌, arith,
  length,
}
use bombyx.Run.{ok, Returns}
use bombyx.Double.{Double}
use bombyx.Bytecode.{Bytecode, bc_initial_size, bc_grow_size, bc_init}
use bombyx.Bytecode.Bounds.{IsSound, bc_init-IsSound}
use bombyx.Expression.{ParserData, ◌>>=◌, ◌>>◌}
use bombyx.Expression.Parse.{read_level, parser_parse, parse_expression}
use bombyx.Expression.Reads.{Heads, head, Room, Wrote}
use bombyx.Expression.Grammar.{any_of, Tree, text, code, weight}
use bombyx.Expression.Ends.{text-starts, eats_nothing}
use bombyx.Expression.Texts.{text-append, weight-text}
use bombyx.Expression.Compiles.{claims, compiles}

module _ {D : Type 0} (fl : Double D) where
  -- The parser on the text with its zero.
  parses :
      (e : Tree any_of) (fuel : ℕ) (bc : Bytecode) (m : ℕ)
      → weight e ≤ fuel
      → Room (weight e + m) bc
      → (r : Bytecode) × (parser_parse fl (suc fuel) (record { rest = text e (0 ∷ []); bc = bc })
          ≡ ok (tt, record { rest = 0 ∷ []; bc = r }))
        × Wrote bc (code fl e) m r
  unfolding parser_parse read_level
  parses e fuel bc m enough room =
      let reads = compiles fl fuel e enough (claims fl fuel e enough) (0 ∷ []) (head 0 [] refl) in
      let (r, ran, wrote) = reads.run bc m room in
      (r, rw (ran, (eats_nothing (head 0 [] refl)).run r, ◌>>◌, ◌>>=◌) refl, wrote)

  finishes :
      {test : ℕ → Bool} (t : List ℕ) (fuel : ℕ) (bc : Bytecode) (pd : ParserData)
      → Heads test t
      → parser_parse fl fuel (record { rest = t ++ 0 ∷ []; bc = bc }) ≡ ok (tt, pd)
      → parse_expression fl fuel t bc ≡ ok pd.bc
  unfolding parse_expression
  finishes _ fuel bc pd (head c t h) ran = rw (ran, parse_expression) refl

  -- With room for as many writes as the tree has, and for `m` more.
  pub parse_expression-Wrote :
      (e : Tree any_of) (fuel : ℕ) (bc : Bytecode) (m : ℕ)
      → weight e < fuel
      → Room (weight e + m) bc
      → (r : Bytecode) × (parse_expression fl fuel (text e []) bc ≡ ok r) × Wrote bc (code fl e) m r
  parse_expression-Wrote e fuel bc m enough room =
      let (r, ran, wrote) = parses e (fuel - 1) bc m (omega (arith, enough)) room in
      let deep : suc (fuel - 1) ≡ fuel = omega (arith, enough) in
      (
        r,
        finishes (text e []) fuel bc (record { rest = 0 ∷ []; bc = r }) (text-starts e [])
            (rw (text-append e [] (0 ∷ [])) (rw deep at ran)),
        wrote,
      )

  -- If the buffer is sound, its length with two growths for each byte of the text and one more stays
  -- below 2 ^ 32, and the fuel is more than twice the length of the text, then the text of a tree of
  -- the grammar is compiled to the code of the tree, behind the code that is there, and the buffer
  -- stays sound.
  pub parse_expression-code :
      (e : Tree any_of) (fuel : ℕ) {bc : Bytecode}
      → IsSound bc
      → 2 * length (text e []) < fuel
      → bc.bc_length + bc_grow_size * suc (2 * length (text e [])) < 2 ^ 32
      → Returns
          (parse_expression fl fuel (text e []) bc)
          λ r. (r.bytecode ≡ bc.bytecode ++ code fl e) × IsSound r
  parse_expression-code e fuel {bc} sound enough room =
      let light = weight-text e [] in
      let (r, ran, wrote) =
        parse_expression-Wrote e fuel bc 0 (omega (arith, light, enough))
          (record { sound = sound; left = omega (arith, light, room) }) in
      (r, ran, (wrote.code, wrote.room.sound))

  -- No text has two meanings: trees with the same text have the same code, if the initial size of
  -- the buffer with two growths for each byte of the text and one more stays below 2 ^ 32.
  pub code-text :
      (e e' : Tree any_of)
      → text e [] ≡ text e' []
      → bc_initial_size + bc_grow_size * suc (2 * length (text e [])) < 2 ^ 32
      → code fl e ≡ code fl e'
  unfolding bc_init
  code-text e e' same room =
      let fuel = suc (2 * length (text e [])) in
      let (r, ran, (compiled, _)) =
        parse_expression-code e fuel bc_init-IsSound (omega arith) (omega (arith, room)) in
      let (r', ran', (compiled', _)) =
        parse_expression-code e' fuel bc_init-IsSound (rw (← same) (omega arith))
          (rw (← same) (omega (arith, room))) in
      let agree : ok r ≡ ok r' =
        sym ran ∙ (ap (λ t. parse_expression fl fuel t bc_init) same ∙ ran') in
      let equal : r ≡ r' = cc agree in sym compiled ∙ (ap (λ b. b.bytecode) equal ∙ compiled')
