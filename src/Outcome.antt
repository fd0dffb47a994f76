-- ===== src/Outcome.antt =====
-- How a piece of the server ends: it returns, or it leaves in one of the ways that C code leaves.
-- Commands over a state are composed by `do` blocks.
use cn_cw.Common.{◌≡◌, refl}

-- The file of the source whose code calls `exit` or `assert`: `__FILE__` there.
pub data SourceFile : Type 0 where
  memory_c handler_c server_c : SourceFile

-- `jumps` is `abort_req` (src/server.c), `exits` is `exit(EXIT_FAILURE)` in a file, `asserts` a failed
-- `assert` in a file, `overruns` an access outside of an object, and `spins` a loop whose fuel ran out.
pub data Outcome (S A : Type 0) : Type 0 where
  returns : A → S → Outcome S A
  jumps : S → Outcome S A
  exits : SourceFile → S → Outcome S A
  asserts : SourceFile → S → Outcome S A
  overruns : S → Outcome S A
  spins : S → Outcome S A

abbrev pub Cmd : Type 0 → Type 0 → Type 0
Cmd S A = S → Outcome S A

abbrev pub and_then : {S A B : Type 0} → Outcome S A → (A → Cmd S B) → Outcome S B
and_then (returns a s) k = k a s
and_then (jumps s) k = jumps s
and_then (exits f s) k = exits f s
and_then (asserts f s) k = asserts f s
and_then (overruns s) k = overruns s
and_then (spins s) k = spins s

infixl 5 ◌>>=◌ ◌>>◌
abbrev pub ◌>>=◌ : {S A B : Type 0} → Cmd S A → (A → Cmd S B) → Cmd S B
◌>>=◌ m k = λ s. and_then (m s) k

abbrev pub ◌>>◌ : {S A B : Type 0} → Cmd S A → Cmd S B → Cmd S B
◌>>◌ m k = λ s. and_then (m s) (λ _. k)

abbrev pub pure : {S A : Type 0} → A → Cmd S A
pure a s = returns a s

-- A postcondition of every way to leave: `P` on return, `J` at a jump, `E` at an exit, and
-- none of the ways that are faults.
abbrev pub Ensures :
    {S A : Type 0} → (A → S → Type 0) → (S → Type 0) → (S → Type 0) → Outcome S A → Type 0
Ensures P J E (returns a s) = P a s
Ensures P J E (jumps s) = J s
Ensures P J E (exits f s) = E s
Ensures P J E (asserts f s) = ⊥
Ensures P J E (overruns s) = ⊥
Ensures P J E (spins s) = ⊥

pub Ensures-mono :
    {S A : Type 0} (P Q : A → S → Type 0) (J E : S → Type 0) (o : Outcome S A)
    → Ensures P J E o
    → ((a : A) (s : S) → P a s → Q a s)
    → Ensures Q J E o
Ensures-mono P Q J E (returns a s) h w = w a s h
Ensures-mono P Q J E (jumps s) h w = h
Ensures-mono P Q J E (exits f s) h w = h
Ensures-mono P Q J E (asserts f s) h w = h
Ensures-mono P Q J E (overruns s) h w = h
Ensures-mono P Q J E (spins s) h w = h

pub Ensures-and_then :
    {S A B : Type 0} (P : A → S → Type 0) (Q : B → S → Type 0) (J E : S → Type 0) (o : Outcome S A)
    (k : A → Cmd S B)
    → Ensures P J E o
    → ((a : A) (s : S) → P a s → Ensures Q J E (k a s))
    → Ensures Q J E (and_then o k)
Ensures-and_then P Q J E (returns a s) k h next = next a s h
Ensures-and_then P Q J E (jumps s) k h next = h
Ensures-and_then P Q J E (exits f s) k h next = h
Ensures-and_then P Q J E (asserts f s) k h next = h
Ensures-and_then P Q J E (overruns s) k h next = h
Ensures-and_then P Q J E (spins s) k h next = h

-- A postcondition of the two ways by which the server goes on: `P` on return and `J` at a jump.
abbrev pub Leaves : {S A : Type 0} → (A → S → Type 0) → (S → Type 0) → Outcome S A → Type 0
Leaves P J (returns a s) = P a s
Leaves P J (jumps s) = J s
Leaves P J (exits f s) = Unit
Leaves P J (asserts f s) = Unit
Leaves P J (overruns s) = Unit
Leaves P J (spins s) = Unit

-- What is ensured, and a fact of its own of each way to go on.
pub Ensures-both :
    {S A : Type 0} (P Q : A → S → Type 0) (J K E : S → Type 0) (o : Outcome S A)
    → Ensures P J E o
    → Leaves Q K o
    → Ensures (λ a s. P a s × Q a s) J E o
Ensures-both P Q J K E (returns a s) h k = (h, k)
Ensures-both P Q J K E (jumps s) h k = h
Ensures-both P Q J K E (exits f s) h k = h
Ensures-both P Q J K E (asserts f s) h k = h
Ensures-both P Q J K E (overruns s) h k = h
Ensures-both P Q J K E (spins s) h k = h

pub Leaves-and_then :
    {S A B : Type 0} (P : A → S → Type 0) (I : S → Type 0) (Q : B → S → Type 0) (J : S → Type 0)
    (o : Outcome S A) (k : A → Cmd S B)
    → Leaves P I o
    → ((s : S) → I s → J s)
    → ((a : A) (s : S) → P a s → Leaves Q J (k a s))
    → Leaves Q J (and_then o k)
Leaves-and_then P I Q J (returns a s) k h jump next = next a s h
Leaves-and_then P I Q J (jumps s) k h jump next = jump s h
Leaves-and_then P I Q J (exits f s) k h jump next = tt
Leaves-and_then P I Q J (asserts f s) k h jump next = tt
Leaves-and_then P I Q J (overruns s) k h jump next = tt
Leaves-and_then P I Q J (spins s) k h jump next = tt

pub Leaves-mono :
    {S A : Type 0} (P Q : A → S → Type 0) (I J : S → Type 0) (o : Outcome S A)
    → Leaves P I o
    → ((a : A) (s : S) → P a s → Q a s)
    → ((s : S) → I s → J s)
    → Leaves Q J o
Leaves-mono P Q I J (returns a s) h p i = p a s h
Leaves-mono P Q I J (jumps s) h p i = i s h
Leaves-mono P Q I J (exits f s) h p i = tt
Leaves-mono P Q I J (asserts f s) h p i = tt
Leaves-mono P Q I J (overruns s) h p i = tt
Leaves-mono P Q I J (spins s) h p i = tt

-- What is ensured on return holds on return, and no jump is ensured to be none.
pub Ensures-Leaves :
    {S A : Type 0} (P Q : A → S → Type 0) (J E : S → Type 0) (o : Outcome S A)
    → ((a : A) (s : S) → P a s → Q a s)
    → Ensures P J E o
    → Leaves Q J o
Ensures-Leaves P Q J E (returns a s) p h = p a s h
Ensures-Leaves P Q J E (jumps s) p h = h
Ensures-Leaves P Q J E (exits f s) p h = tt
Ensures-Leaves P Q J E (asserts f s) p h = tt
Ensures-Leaves P Q J E (overruns s) p h = tt
Ensures-Leaves P Q J E (spins s) p h = tt

-- Two facts of one outcome.
pub Leaves-both :
    {S A : Type 0} (P Q : A → S → Type 0) (I J : S → Type 0) (o : Outcome S A)
    → Leaves P I o
    → Leaves Q J o
    → Leaves (λ a s. P a s × Q a s) (λ s. I s × J s) o
Leaves-both P Q I J (returns a s) h k = (h, k)
Leaves-both P Q I J (jumps s) h k = (h, k)
Leaves-both P Q I J (exits f s) h k = tt
Leaves-both P Q I J (asserts f s) h k = tt
Leaves-both P Q I J (overruns s) h k = tt
Leaves-both P Q I J (spins s) h k = tt

-- A composition that returns.
pub and_then-returns :
    {S A B : Type 0} (o : Outcome S A) (k : A → Cmd S B) {b : B} {t : S}
    → and_then o k ≡ returns b t
    → (a : A) × (s : S) × (o ≡ returns a s) × (k a s ≡ returns b t)
and_then-returns (returns a s) k h = (a, s, refl, h)
and_then-returns (jumps s) k h = cc
and_then-returns (exits f s) k h = cc
and_then-returns (asserts f s) k h = cc
and_then-returns (overruns s) k h = cc
and_then-returns (spins s) k h = cc
