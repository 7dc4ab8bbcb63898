-- ===== src/Expression/Loops.antt =====
-- core/expression.c: the loops that read a chain of operands of one level with the operators between
-- them, from the left. The text and the code of a chain are put together in front of what follows.
use bombyx.Prelude.{
  ℕ, suc, ◌+◌, ◌-◌, ◌≡◌, ◌<◌, refl, Bool, true, Option, none, some, List, [], ◌∷◌, ◌++◌, arith,
}
use mathlib.Core.List.{append_assoc, append-nil}
use bombyx.Expression.{Parser, pure}
use bombyx.Expression.Levels.{operator_loop, chain}
use bombyx.Expression.Reads.{
  Reads, Moves, Heads, head, moves, skips, follows, stays, emits_cmd, same_code, peeks, skips_byte,
}
use bombyx.Expression.Ends.{seen, weaken-Heads, eats_nothing}

module _ (operator : ℕ → Option (Parser (Unit {0}) × ℕ)) (operand : Parser (Unit {0})) where
  loop_step :
      {c cmd n n' : ℕ} {t u s s' cs ds : List ℕ} {second : Parser (Unit {0})} (rounds : ℕ)
      → operator c ≡ some (second, cmd)
      → Moves second t tt u
      → Heads seen u
      → Reads operand u cs n s
      → Heads seen s
      → Reads (operator_loop operator operand rounds) s ds n' s'
      → Reads
          (operator_loop operator operand (suc rounds))
          (c ∷ t)
          (cs ++ (cmd ∷ ds))
          (n + (1 + n'))
          s'
  unfolding operator_loop
  loop_step {c} {cmd} {t} rounds e second starts operand ends loop = moves _ (peeks c t) (
      rw e (
        skips (skips_byte c t) (
          skips second (
            skips (eats_nothing starts)
              (follows operand (follows (emits_cmd cmd) (skips (eats_nothing ends) loop)))))))

  loop_stop :
      {c : ℕ} {s : List ℕ} (rounds : ℕ)
      → operator c ≡ none
      → Reads (operator_loop operator operand (suc rounds)) (c ∷ s) [] 0 (c ∷ s)
  unfolding operator_loop
  loop_stop {c} {s} rounds e = moves _ (peeks c s) (rw e (stays (record { run = λ bc. refl })))

  -- `first` and the loop read the text `t` in `n` rounds and write `cs`, whatever the loop does then.
  pub record Chains (first : Parser (Unit {0})) (past : ℕ → Bool) (t : List ℕ → List ℕ)
      (cs : List ℕ) (w n : ℕ) : Type 0 where
    pub run :
        (k rounds : ℕ) (s ds : List ℕ) (m : ℕ) (s' : List ℕ)
        → rounds ≡ n + k
        → Heads past s
        → Reads (operator_loop operator operand k) s ds m s'
        → Reads (chain first operator operand rounds) (t s) (cs ++ ds) (w + m) s'

  module _ {first : Parser (Unit {0})} {past : ℕ → Bool}
      (visible : (c : ℕ) → past c ≡ true → seen c ≡ true) where
    pub one_operand :
        {t : List ℕ → List ℕ} {cs : List ℕ} {w : ℕ}
        → ((s : List ℕ) → Heads past s → Reads first (t s) cs w s)
        → Chains first past t cs w 0
    unfolding chain
    one_operand reads = record {
      run = λ k rounds s ds m s' e stop loop.
          let e' : rounds ≡ k = omega (arith, e) in
          rw e' (follows (reads s stop) (skips (eats_nothing (weaken-Heads visible stop)) loop));
    }

    -- One more operator, whose further bytes `second` reads, and its operand.
    pub one_more :
        {t t' symbol : List ℕ → List ℕ} {cs cs' : List ℕ} {w w' n c cmd : ℕ}
        {second : Parser (Unit {0})}
        → Chains first past t cs w n
        → past c ≡ true
        → operator c ≡ some (second, cmd)
        → ((s : List ℕ) → Moves second (symbol s) tt s)
        → ((s : List ℕ) → Heads seen (t' s))
        → ((s : List ℕ) → Heads past s → Reads operand (t' s) cs' w' s)
        → Chains first past
            (λ s. t (c ∷ symbol (t' s)))
            (cs ++ (cs' ++ cmd ∷ []))
            (suc (w + w'))
            (suc n)
    one_more {t'} {symbol} {cs} {cs'} {w} {w'} {c} {cmd} chains stops e second starts reads =
        record {
          run = λ k rounds s ds m s' e' stop loop.
              let ends = weaken-Heads visible stop in
              let step = loop_step k e (second (t' s)) (starts s) (reads s stop) ends loop in
              let rest =
                chains.run (suc k) rounds (c ∷ symbol (t' s)) (cs' ++ (cmd ∷ ds)) (w' + (1 + m)) s'
                  (omega (arith, e')) (head c _ stops) step in
              same_code
                (rw (append_assoc cs (cs' ++ cmd ∷ []) ds, append_assoc cs' (cmd ∷ []) ds) refl)
                (omega arith) rest;
        }

    -- One more operator of one byte.
    pub one_byte :
        {t t' : List ℕ → List ℕ} {cs cs' : List ℕ} {w w' n c cmd : ℕ}
        → Chains first past t cs w n
        → past c ≡ true
        → operator c ≡ some (pure tt, cmd)
        → ((s : List ℕ) → Heads seen (t' s))
        → ((s : List ℕ) → Heads past s → Reads operand (t' s) cs' w' s)
        → Chains first past (λ s. t (c ∷ t' s)) (cs ++ (cs' ++ cmd ∷ [])) (suc (w + w')) (suc n)
    one_byte chains stops e starts reads =
        one_more {symbol = λ s. s} chains stops e (λ s. record { run = λ bc. refl }) starts reads

    -- The whole chain, in front of a byte that is no operator.
    pub whole :
        {t : List ℕ → List ℕ} {cs : List ℕ} {w n : ℕ} (rounds : ℕ)
        → Chains first past t cs w n
        → n < rounds
        → (c : ℕ) (s : List ℕ) → past c ≡ true
        → operator c ≡ none
        → Reads (chain first operator operand rounds) (t (c ∷ s)) cs w (c ∷ s)
    whole {t} {cs} {w} {n} rounds chains enough c s stop no_operator =
        let k = rounds - suc n in
        let rest =
          chains.run (suc k) rounds (c ∷ s) [] 0 (c ∷ s) (omega (arith, enough)) (head c s stop)
            (loop_stop k no_operator) in
        same_code (append-nil cs) (omega arith) rest
