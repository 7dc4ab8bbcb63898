-- ===== src/Expression/Comparisons.antt =====
-- core/expression.c: comparison and equality, which read at most one operator.
use bombyx.Prelude.{ℕ, ◌+◌, ◌≡◌, refl, false, ◌||◌, not, ◌&&◌, List, [], ◌∷◌, ◌++◌, arith, ◌==◌}
use bombyx.Double.{Double}
use bombyx.Bytecode.Opcodes.{bco_cmp, bco_set}
use bombyx.Expression.{Parser, pure, parser_peek_next}
use bombyx.Expression.Atom.{Level}
use bombyx.Expression.Levels.{
  parser_read_expr, parser_read_boolean_comparison, comparison_operand, comparison_rest,
  equality_rest, read_equals, equality_operand, parser_read_boolean_equality,
}
use bombyx.Expression.Reads.{
  Reads, Moves, Heads, head, moves, skips, follows, stays, closes, either, emits_cmd, ends_with,
  peeks, skips_byte,
}
use bombyx.Expression.Grammar.{
  Rank, Operator, times, over, modulo, plus, minus, compared, equated, below, above, below_or_equal,
  above_or_equal, equal, different, assign, symbol, command,
}
use bombyx.Expression.Ends.{
  left, right, refused, past_compared, past_equated, seen, opens_sums, weaken-Heads, eats_nothing,
  compared-seen, equated-seen, opens-seen,
}

nothing : {s : List ℕ} → Moves (pure tt) s tt s
nothing = record { run = λ bc. refl }

symbol-seen : {r : Rank} (op : Operator r) (s : List ℕ) → Heads seen (symbol op s)
symbol-seen times s = head _ s refl
symbol-seen over s = head _ s refl
symbol-seen modulo s = head _ s refl
symbol-seen plus s = head _ s refl
symbol-seen minus s = head _ s refl
symbol-seen below s = head _ s refl
symbol-seen above s = head _ s refl
symbol-seen below_or_equal s = head _ _ refl
symbol-seen above_or_equal s = head _ _ refl
symbol-seen equal s = head _ _ refl
symbol-seen different s = head _ _ refl
symbol-seen assign s = head _ s refl

peeks_next : (c c' : ℕ) (s : List ℕ) → Moves parser_peek_next (c ∷ c' ∷ s) c' (c ∷ c' ∷ s)
unfolding parser_peek_next
peeks_next c c' s = record { run = λ bc. refl }

reads_equal : (s : List ℕ) → Moves read_equals (b'=' ∷ b'=' ∷ s) bco_cmp s
unfolding read_equals
reads_equal s = record { run = λ bc. refl }

reads_assign :
    {c : ℕ} {s : List ℕ} → (c == b'=') ≡ false → Moves read_equals (b'=' ∷ c ∷ s) bco_set (c ∷ s)
unfolding read_equals
reads_assign e = record { run = λ bc. rw e refl }

module _ {D : Type 0} (fl : Double D) (again : Level → Parser (Unit {0})) (rounds : ℕ) where
  comparison_none :
      {s : List ℕ} → Heads past_compared s → Reads (comparison_rest fl again rounds) s [] 0 s
  unfolding comparison_rest
  comparison_none (head c s stop) =
      let no_sign : (c == b'>' || c == b'<') ≡ false = ground (arith, stop) in
      moves _ (peeks c s) (either _ _ no_sign (stays nothing))

  operand_lem :
      {t s cs : List ℕ} {n : ℕ} (cmd : ℕ)
      → Heads opens_sums t
      → Reads (parser_read_expr fl again rounds) t cs n s
      → Heads seen s
      → Reads (comparison_operand fl again rounds cmd) t (cs ++ cmd ∷ []) (n + 1) s
  unfolding comparison_operand
  operand_lem cmd starts reads ends =
      skips (eats_nothing (weaken-Heads opens-seen starts))
        (follows reads (closes (emits_cmd cmd) (eats_nothing ends)))

  comparison_some :
      {t s cs : List ℕ} {n : ℕ} (op : Operator compared)
      → Heads opens_sums t
      → Reads (parser_read_expr fl again rounds) t cs n s
      → Heads seen s
      → Reads (comparison_rest fl again rounds) (symbol op t) (cs ++ command op ∷ []) (n + 1) s
  unfolding comparison_rest
  comparison_some below (head c t starts) reads ends =
      let no_equal : (c == b'=') ≡ false = ground (arith, starts) in
      moves _ (peeks b'<' _) (
        skips (skips_byte b'<' _) (
          moves _ (peeks c t)
            (rw no_equal (skips nothing (operand_lem _ (head c t starts) reads ends)))))
  comparison_some above (head c t starts) reads ends =
      let no_equal : (c == b'=') ≡ false = ground (arith, starts) in
      moves _ (peeks b'>' _) (
        skips (skips_byte b'>' _) (
          moves _ (peeks c t)
            (rw no_equal (skips nothing (operand_lem _ (head c t starts) reads ends)))))
  comparison_some below_or_equal starts reads ends = moves _ (peeks b'<' _) (
      skips (skips_byte b'<' _)
        (moves _ (peeks b'=' _) (skips (skips_byte b'=' _) (operand_lem _ starts reads ends))))
  comparison_some above_or_equal starts reads ends = moves _ (peeks b'>' _) (
      skips (skips_byte b'>' _)
        (moves _ (peeks b'=' _) (skips (skips_byte b'=' _) (operand_lem _ starts reads ends))))

  pub comparison_plain :
      {t s cs : List ℕ} {n : ℕ}
      → Heads opens_sums t
      → Reads (parser_read_expr fl again rounds) t cs n s
      → Heads past_compared s
      → Reads (parser_read_boolean_comparison fl again rounds) t cs n s
  unfolding parser_read_boolean_comparison
  comparison_plain starts reads stop = skips (eats_nothing (weaken-Heads opens-seen starts)) (
      ends_with reads
        (skips (eats_nothing (weaken-Heads compared-seen stop)) (comparison_none stop)))

  pub comparison_two :
      {t t' s cs cs' : List ℕ} {n n' : ℕ} (op : Operator compared)
      → Heads opens_sums t
      → Reads (parser_read_expr fl again rounds) t cs n (symbol op t')
      → Heads opens_sums t'
      → Reads (parser_read_expr fl again rounds) t' cs' n' s
      → Heads past_compared s
      → Reads
          (parser_read_boolean_comparison fl again rounds)
          t
          (cs ++ (cs' ++ command op ∷ []))
          (n + (n' + 1))
          s
  unfolding parser_read_boolean_comparison
  comparison_two op starts reads starts' reads' stop =
      let ends = weaken-Heads compared-seen stop in
      skips (eats_nothing (weaken-Heads opens-seen starts)) (
        follows reads
          (skips (eats_nothing (symbol-seen op _)) (comparison_some op starts' reads' ends)))

  equality_none :
      {s : List ℕ} → Heads past_equated s → Reads (equality_rest fl again rounds) s [] 0 s
  unfolding equality_rest
  equality_none (head c s stop) =
      let none_of = right (past_compared c) (not (c == b'=') && not (c == b'!')) stop in
      let no_equal = refused (left (not (c == b'=')) _ none_of) in
      let no_not = refused (right (not (c == b'=')) _ none_of) in
      moves _ (peeks c s) (either _ _ no_equal (either _ _ no_not (stays nothing)))

  equality_operand_lem :
      {t s cs : List ℕ} {n : ℕ} (cmd : ℕ)
      → Heads opens_sums t
      → Reads (parser_read_boolean_comparison fl again rounds) t cs n s
      → Heads seen s
      → Reads (equality_operand fl again rounds cmd) t (cs ++ cmd ∷ []) (n + 1) s
  unfolding equality_operand
  equality_operand_lem cmd starts reads ends =
      skips (eats_nothing (weaken-Heads opens-seen starts))
        (follows reads (closes (emits_cmd cmd) (eats_nothing ends)))

  equality_some :
      {t s cs : List ℕ} {n : ℕ} (op : Operator equated)
      → Heads opens_sums t
      → Reads (parser_read_boolean_comparison fl again rounds) t cs n s
      → Heads seen s
      → Reads (equality_rest fl again rounds) (symbol op t) (cs ++ command op ∷ []) (n + 1) s
  unfolding equality_rest
  equality_some equal starts reads ends =
      moves _ (peeks b'=' _) (moves _ (reads_equal _) (equality_operand_lem _ starts reads ends))
  equality_some assign (head c t starts) reads ends =
      let no_equal : (c == b'=') ≡ false = ground (arith, starts) in
      moves _ (peeks b'=' _)
        (moves _ (reads_assign no_equal) (equality_operand_lem _ (head c t starts) reads ends))
  equality_some different starts reads ends = moves _ (peeks b'!' _) (
      moves _ (peeks_next b'!' b'=' _) (
        skips (skips_byte b'!' _)
          (skips (skips_byte b'=' _) (equality_operand_lem _ starts reads ends))))

  pub equality_plain :
      {t s cs : List ℕ} {n : ℕ}
      → Heads opens_sums t
      → Reads (parser_read_boolean_comparison fl again rounds) t cs n s
      → Heads past_equated s
      → Reads (parser_read_boolean_equality fl again rounds) t cs n s
  unfolding parser_read_boolean_equality
  equality_plain starts reads stop =
      skips (eats_nothing (weaken-Heads opens-seen starts)) (
        ends_with reads
          (skips (eats_nothing (weaken-Heads equated-seen stop)) (equality_none stop)))

  pub equality_two :
      {t t' s cs cs' : List ℕ} {n n' : ℕ} (op : Operator equated)
      → Heads opens_sums t
      → Reads (parser_read_boolean_comparison fl again rounds) t cs n (symbol op t')
      → Heads opens_sums t'
      → Reads (parser_read_boolean_comparison fl again rounds) t' cs' n' s
      → Heads past_equated s
      → Reads
          (parser_read_boolean_equality fl again rounds)
          t
          (cs ++ (cs' ++ command op ∷ []))
          (n + (n' + 1))
          s
  unfolding parser_read_boolean_equality
  equality_two op starts reads starts' reads' stop =
      let ends = weaken-Heads equated-seen stop in
      skips (eats_nothing (weaken-Heads opens-seen starts)) (
        follows reads
          (skips (eats_nothing (symbol-seen op _)) (equality_some op starts' reads' ends)))
