-- ===== src/Larva/Endless.antt =====
-- core/larva.c: larva_chew on a text that is too long for its counter.
use bombyx.Prelude.{
  ℕ, zero, suc, ◌+◌, ◌^◌, ◌≤◌, ◌<◌, ◌≡◌, ◌≢◌, true, false, Bool, List, [], arith, ltb, length,
}
use bombyx.Run.{Run, ok, jump, fault, ◌>>=◌}
use bombyx.Larva.Chew.{next_i, read_at, chew_round, quotes_behind, put_code, chew}

-- What never returns does not return behind another run.
never :
    {X Y : Type 0} {r : Y} (m : Run X) (next : X → Run Y)
    → ((x : X) → next x ≢ ok r)
    → (m >>= next) ≢ ok r
never (ok x) next h = h x
never (jump e) next h = λ is. absurd (cc is)
never (fault e) next h = λ is. absurd (cc is)

chew-never :
    (fuel : ℕ) (incoming_code : List ℕ) (quotes_on : Bool) (i : ℕ) (new_code r : List ℕ)
    → 2 ^ 32 ≤ length incoming_code
    → i < 2 ^ 32
    → chew fuel incoming_code quotes_on i new_code ≢ ok r
unfolding chew
chew-never zero code q i out r long h = λ is. absurd (cc is)
chew-never (suc fuel) code q i out r long h =
    let goes_on : ltb i (length code) ≡ true = ground (arith, long, h) in
    rw goes_on (
      never (read_at code i) _ λ c.
        never (chew_round (length code + 1) code (quotes_behind q c) i c) _ λ (bs, j).
          never (put_code code out bs) _
            λ out'. chew-never fuel code (quotes_behind q c) (next_i j) out' r long (omega arith))

-- On a text of 2^32 bytes or more, the loop of larva_chew returns nothing, whatever the fuel: its
-- counter is always below the length.
pub chew_endless :
    (fuel : ℕ) (incoming_code r : List ℕ)
    → 2 ^ 32 ≤ length incoming_code
    → chew fuel incoming_code false 0 [] ≢ ok r
chew_endless fuel code r long = chew-never fuel code false 0 [] r long (omega arith)
