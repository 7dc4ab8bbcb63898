-- ===== src/Expression/Reads.antt =====
-- core/expression.c: how the functions of the parser compose. `Reads p s cs n s'` says that `p`
-- goes from the text `s` to `s'` and appends `cs` to the code, in `n` calls of core/bytecode.c.
use bombyx.Prelude.{
  ℕ, suc, ◌+◌, ◌*◌, ◌^◌, ◌≤◌, ◌<◌, ◌≡◌, refl, sym, Bool, true, false, List, [], ◌∷◌, ◌++◌, arith,
  if◌then◌else◌,
}
use mathlib.Core.List.{append_assoc, append-nil}
use bombyx.Run.{Run, ok, Returns}
use bombyx.Bytecode.{Bytecode, bc_grow_size}
use bombyx.Bytecode.Bounds.{IsSound, Appends, bc_add_cmd_lem}
use bombyx.Expression.{Parser, ◌>>=◌, ◌>>◌, parser_peek, parser_skip, emit, add_cmd}

-- A sound buffer that may grow `n` times.
pub record Room (n : ℕ) (bc : Bytecode) : Type 0 where
  pub sound : IsSound bc
  pub left : bc.bc_length + bc_grow_size * suc n < 2 ^ 32

pub record Wrote (bc : Bytecode) (cs : List ℕ) (n : ℕ) (r : Bytecode) : Type 0 where
  pub code : r.bytecode ≡ bc.bytecode ++ cs
  pub room : Room n r

pub record Reads (p : Parser (Unit {0})) (s cs : List ℕ) (n : ℕ) (s' : List ℕ) : Type 0 where
  pub run :
      (bc : Bytecode) (m : ℕ)
      → Room (n + m) bc
      → (r : Bytecode) × (p (record { rest = s; bc = bc }) ≡ ok (tt, record { rest = s'; bc = r }))
        × Wrote bc cs m r

-- `p` goes from `s` to `s'` and writes nothing.
pub record Moves {A : Type 0} (p : Parser A) (s : List ℕ) (a : A) (s' : List ℕ) : Type 0 where
  pub run :
      (bc : Bytecode) → p (record { rest = s; bc = bc }) ≡ ok (a, record { rest = s'; bc = bc })

pub moves :
    {A : Type 0} {p : Parser A} {s s' s'' : List ℕ} {a : A} {cs : List ℕ} {n : ℕ}
    (k : A → Parser (Unit {0}))
    → Moves p s a s'
    → Reads (k a) s' cs n s''
    → Reads (p >>= k) s cs n s''
moves k go next = record {
  run = λ bc m room.
      let (r, ran, wrote) = next.run bc m room in (r, rw (go.run bc, ◌>>=◌) ran, wrote);
}

pub skips :
    {p q : Parser (Unit {0})} {s s' s'' cs : List ℕ} {n : ℕ}
    → Moves p s tt s'
    → Reads q s' cs n s''
    → Reads (p >> q) s cs n s''
skips {q} go next = moves (λ _. q) go next

pub stays : {p : Parser (Unit {0})} {s s' : List ℕ} → Moves p s tt s' → Reads p s [] 0 s'
stays go = record {
  run = λ bc m room. (
    bc,
    go.run bc,
    record {
      code = sym (append-nil bc.bytecode);
      room = record { sound = room.sound; left = omega (arith, room.left) };
    },
  );
}

-- A piece that writes, before one that does not.
pub closes :
    {p q : Parser (Unit {0})} {s s' s'' cs : List ℕ} {n : ℕ}
    → Reads p s cs n s'
    → Moves q s' tt s''
    → Reads (p >> q) s cs n s''
closes go next = record {
  run = λ bc m room.
      let (r, ran, wrote) = go.run bc m room in (r, rw (ran, next.run r, ◌>>◌, ◌>>=◌) refl, wrote);
}

pub either :
    {q : Parser (Unit {0})} {s s' cs : List ℕ} {n : ℕ} (b : Bool) (p : Parser (Unit {0}))
    → b ≡ false
    → Reads q s cs n s'
    → Reads (if b then p else q) s cs n s'
either b p e go = rw e go

pub chosen :
    {p : Parser (Unit {0})} {s s' cs : List ℕ} {n : ℕ} (b : Bool) (q : Parser (Unit {0}))
    → b ≡ true
    → Reads p s cs n s'
    → Reads (if b then p else q) s cs n s'
chosen b q e go = rw e go

pub weaker :
    {p : Parser (Unit {0})} {s s' cs : List ℕ} {n k : ℕ}
    → n ≤ k
    → Reads p s cs n s'
    → Reads p s cs k s'
weaker le go = record {
  run =
      λ bc m room. go.run bc m (record { sound = room.sound; left = omega (arith, le, room.left) });
}

pub follows :
    {p q : Parser (Unit {0})} {s s' s'' cs ds : List ℕ} {n k : ℕ}
    → Reads p s cs n s'
    → Reads q s' ds k s''
    → Reads (p >> q) s (cs ++ ds) (n + k) s''
follows {cs} {ds} {k} first next = record {
  run = λ bc m room.
      let (r, ran, wrote) =
        first.run bc (k + m) (record { sound = room.sound; left = omega (arith, room.left) }) in
      let (r', ran', wrote') = next.run r m wrote.room in
      (
        r',
        rw (ran, ran', ◌>>◌, ◌>>=◌) refl,
        record {
          code = rw (wrote'.code, wrote.code) (append_assoc bc.bytecode cs ds);
          room = wrote'.room;
        },
      );
}

pub same_code :
    {p : Parser (Unit {0})} {s s' cs ds : List ℕ} {n k : ℕ}
    → cs ≡ ds
    → n ≡ k
    → Reads p s cs n s'
    → Reads p s ds k s'
same_code e e' go = rw (← e, ← e') go

pub ends_with :
    {p q : Parser (Unit {0})} {s s' s'' cs : List ℕ} {n : ℕ}
    → Reads p s cs n s'
    → Reads q s' [] 0 s''
    → Reads (p >> q) s cs n s''
ends_with {cs} go next = same_code (append-nil cs) (omega arith) (follows go next)

grown : {bc r : Bytecode} {cs : List ℕ} {m : ℕ} → Appends bc cs r → Room (1 + m) bc → Room m r
grown appends room = record {
  sound = record {
    written = appends.written;
    inside = appends.inside;
    started = appends.started;
    grows = ground (arith, room.left, appends.capacity);
  };
  left = ground (arith, room.left, appends.capacity);
}

-- A call of core/bytecode.c.
pub emits :
    {write : Bytecode → Run Bytecode} {s cs : List ℕ}
    → ((bc : Bytecode) → IsSound bc → Returns (write bc) (Appends bc cs))
    → Reads (emit write) s cs 1 s
emits writes = record {
  run = λ bc m room.
      let (r, ran, appends) = writes bc room.sound in
      (r, rw (ran, emit) refl, record { code = appends.code; room = grown appends room });
}

pub emits_cmd : (cmd : ℕ) {s : List ℕ} → Reads (add_cmd cmd) s (cmd ∷ []) 1 s
unfolding add_cmd
emits_cmd cmd = emits (λ bc sound. bc_add_cmd_lem sound cmd)

-- The first byte of a text passes a test.
pub data Heads (test : ℕ → Bool) : List ℕ → Type 0 where
  head : (c : ℕ) (s : List ℕ) → test c ≡ true → Heads test (c ∷ s)

pub peeks : (c : ℕ) (s : List ℕ) → Moves parser_peek (c ∷ s) c (c ∷ s)
unfolding parser_peek
peeks c s = record { run = λ bc. refl }

pub skips_byte : (c : ℕ) (s : List ℕ) → Moves parser_skip (c ∷ s) tt s
unfolding parser_skip
skips_byte c s = record { run = λ bc. refl }
