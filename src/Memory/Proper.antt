-- ===== src/Memory/Proper.antt =====
-- Logging and allocation leave no object and end, or exit or fail an assertion in src/memory.c.
use cn_cw.Common.{
  ℕ, ◌+◌, ◌≤◌, ◌≡◌, refl, inl, inr, Bool, true, false, Option, none, some, List, [], ◌∷◌, arith,
  ◌==◌, Bool-cases, Bytes, codes, length,
}
use cn_cw.Log.{LogLevel, fatal, log_msg, log_perror}
use cn_cw.Log.Bounds.{LogsFit}
use cn_cw.Log.Sure.{log_msg-Surely, log_perror-Surely}
use cn_cw.Machine.{Block, Arena, Store, Machine}
use cn_cw.Memory.{
  needs_block, align_up, carve, grow, arena_alloc, store_outcome, request_memory, or_exit,
  server_alloc, server_strdup,
}
use cn_cw.Memory.Neutral.{any, Neutral, Stable, request_memory-Stable, server_alloc-Stable}
use cn_cw.Outcome.{
  SourceFile, memory_c, handler_c, server_c, Outcome, returns, jumps, exits, asserts, overruns,
  spins, Cmd, and_then, Ensures,
}
use cn_cw.Platform.{Platform, Errno}

-- `P` on return and `J` at a jump, an exit or a failed assertion in src/memory.c alone, and neither an
-- access outside of an object nor a loop without end.
abbrev pub Proper : {S A : Type 0} → (A → S → Type 0) → (S → Type 0) → Outcome S A → Type 0
Proper P J (returns a s) = P a s
Proper P J (jumps s) = J s
Proper P J (exits f s) = f ≡ memory_c
Proper P J (asserts f s) = f ≡ memory_c
Proper P J (overruns s) = ⊥
Proper P J (spins s) = ⊥

pub Proper-and_then :
    {S A B : Type 0} (P : A → S → Type 0) (Q : B → S → Type 0) (J : S → Type 0) (o : Outcome S A)
    (k : A → Cmd S B)
    → Proper P J o
    → ((a : A) (s : S) → P a s → Proper Q J (k a s))
    → Proper Q J (and_then o k)
Proper-and_then P Q J (returns a s) k h next = next a s h
Proper-and_then P Q J (jumps s) k h next = h
Proper-and_then P Q J (exits f s) k h next = h
Proper-and_then P Q J (asserts f s) k h next = h
Proper-and_then P Q J (overruns s) k h next = h
Proper-and_then P Q J (spins s) k h next = h

pub Proper-mono :
    {S A : Type 0} (P Q : A → S → Type 0) (J : S → Type 0) (o : Outcome S A)
    → Proper P J o
    → ((a : A) (s : S) → P a s → Q a s)
    → Proper Q J o
Proper-mono P Q J (returns a s) h w = w a s h
Proper-mono P Q J (jumps s) h w = h
Proper-mono P Q J (exits f s) h w = h
Proper-mono P Q J (asserts f s) h w = h
Proper-mono P Q J (overruns s) h w = h
Proper-mono P Q J (spins s) h w = h

-- A weaker jump.
pub Proper-jumps :
    {S A : Type 0} (P : A → S → Type 0) (I J : S → Type 0) (o : Outcome S A)
    → ((s : S) → I s → J s)
    → Proper P I o
    → Proper P J o
Proper-jumps P I J (returns a s) j h = h
Proper-jumps P I J (jumps s) j h = j s h
Proper-jumps P I J (exits f s) j h = h
Proper-jumps P I J (asserts f s) j h = h
Proper-jumps P I J (overruns s) j h = h
Proper-jumps P I J (spins s) j h = h

-- What is ensured without a jump is proper.
pub Ensures-Proper :
    {S A : Type 0} (P Q : A → S → Type 0) (J : S → Type 0) (o : Outcome S A)
    → ((a : A) (s : S) → P a s → Q a s)
    → Ensures P (λ _. ⊥) (λ _. ⊥) o
    → Proper Q J o
Ensures-Proper P Q J (returns a s) w h = w a s h
Ensures-Proper P Q J (jumps s) w h = absurd h
Ensures-Proper P Q J (exits f s) w h = absurd h
Ensures-Proper P Q J (asserts f s) w h = absurd h
Ensures-Proper P Q J (overruns s) w h = h
Ensures-Proper P Q J (spins s) w h = h

-- The same, where what exits does so in src/memory.c.
pub Ensures-Proper_exits :
    {S A : Type 0} (P Q : A → S → Type 0) (J E : S → Type 0) (o : Outcome S A)
    → ((a : A) (s : S) → P a s → Q a s)
    → ((f : SourceFile) (s : S) → o ≡ exits f s → f ≡ memory_c)
    → Ensures P (λ _. ⊥) E o
    → Proper Q J o
Ensures-Proper_exits P Q J E (returns a s) w x h = w a s h
Ensures-Proper_exits P Q J E (jumps s) w x h = absurd h
Ensures-Proper_exits P Q J E (exits f s) w x h = x f s refl
Ensures-Proper_exits P Q J E (asserts f s) w x h = absurd h
Ensures-Proper_exits P Q J E (overruns s) w x h = h
Ensures-Proper_exits P Q J E (spins s) w x h = h

-- What is ensured is proper, where the jump is weaker.
pub Ensures-Proper_jumps :
    {S A : Type 0} (P Q : A → S → Type 0) (I J : S → Type 0) (o : Outcome S A)
    → ((a : A) (s : S) → P a s → Q a s)
    → ((s : S) → I s → J s)
    → Ensures P I (λ _. ⊥) o
    → Proper Q J o
Ensures-Proper_jumps P Q I J (returns a s) w j h = w a s h
Ensures-Proper_jumps P Q I J (jumps s) w j h = j s h
Ensures-Proper_jumps P Q I J (exits f s) w j h = absurd h
Ensures-Proper_jumps P Q I J (asserts f s) w j h = absurd h
Ensures-Proper_jumps P Q I J (overruns s) w j h = h
Ensures-Proper_jumps P Q I J (spins s) w j h = h

-- An outcome that ends well keeps `I` as well.
pub Proper-both :
    {S A : Type 0} (P : A → S → Type 0) (I J : S → Type 0) (o : Outcome S A)
    → Proper P J o
    → Stable I o
    → Proper (λ a s. P a s × I s) J o
Proper-both P I J (returns a s) h i = (h, i)
Proper-both P I J (jumps s) h i = absurd i
Proper-both P I J (exits f s) h i = h
Proper-both P I J (asserts f s) h i = h
Proper-both P I J (overruns s) h i = h
Proper-both P I J (spins s) h i = h

-- What is returned is what the outcome returns.
pub Proper-returned :
    {S A : Type 0} (P : A → S → Type 0) (J : S → Type 0) (o : Outcome S A)
    → Proper P J o
    → Proper (λ a s. P a s × (o ≡ returns a s)) J o
Proper-returned P J (returns a s) h = (h, refl)
Proper-returned P J (jumps s) h = h
Proper-returned P J (exits f s) h = h
Proper-returned P J (asserts f s) h = h
Proper-returned P J (overruns s) h = h
Proper-returned P J (spins s) h = h

Proper-Stable :
    {S A : Type 0} (I J : S → Type 0) (o : Outcome S A)
    → Proper (λ _ _. Unit {0}) J o
    → Stable I o
    → Proper (λ _. I) J o
Proper-Stable I J o h i =
    Proper-mono (λ _ s. Unit {0} × I s) (λ _. I) J o (Proper-both (λ _ _. Unit {0}) I J o h i)
      (λ a s k. k.1)

unfoldable from_memory : SourceFile → Bool
from_memory memory_c = true
from_memory handler_c = false
from_memory server_c = false

from_memory-eq : (f : SourceFile) → from_memory f ≡ true → f ≡ memory_c
unfolding from_memory
from_memory-eq memory_c h = refl
from_memory-eq handler_c h = cc
from_memory-eq server_c h = cc

-- The outcome returns, or exits or fails an assertion in src/memory.c.
unfoldable plain : {S A : Type 0} → Outcome S A → Bool
plain (returns a s) = true
plain (jumps s) = false
plain (exits f s) = from_memory f
plain (asserts f s) = from_memory f
plain (overruns s) = false
plain (spins s) = false

module _ (platform : Platform) where
  open platform use {Os}

  carve-plain :
      (size n : ℕ) (bs : List Block) (least : ℕ) (os : Os)
      → plain (carve platform size n bs least os) ≡ true
  unfolding carve plain from_memory
  carve-plain size n [] least os = refl
  carve-plain size n (b ∷ bs) least os = ground arith

  grow-plain : (n : ℕ) (arena : Arena) (r : Option ℕ × Os) → plain (grow platform n arena r) ≡ true
  unfolding grow plain from_memory
  grow-plain n arena (none, os) = refl
  grow-plain n arena (some p, os) = carve-plain _ _ _ _ _

  arena_alloc-plain : (n : ℕ) (st : Store Os) → plain (arena_alloc platform n st) ≡ true
  unfolding arena_alloc plain from_memory
  arena_alloc-plain n st = elim (Bool-cases (n == 0)) [
    | inl none_asked ↦ rw none_asked refl
    | inr asked ↦ rw asked (elim (Bool-cases (needs_block st.arena.blocks (align_up n))) [
      | inl full ↦ rw full (grow-plain n st.arena _)
      | inr fits ↦ rw fits (carve-plain _ _ _ _ _)
    ])
  ]

  module _ {C : Type 0} (fit : LogsFit platform) (J : Machine Os C → Type 0) where
    -- A value comes back, of which nothing is asked.
    abbrev pub Ends : {A : Type 0} → Outcome (Machine Os C) A → Type 0
    Ends o = Proper (λ _ _. Unit {0}) J o

    pub log_msg-Ends :
        (level : LogLevel) (text : Bytes) (m : Machine Os C)
        → length text ≤ 4045
        → Ends (log_msg platform level text m)
    log_msg-Ends level text m short =
        Ensures-Proper (λ _ _. Unit {0}) (λ _ _. Unit {0}) J (log_msg platform level text m)
          (λ a s h. h)
          (log_msg-Surely platform fit (λ _. Unit {0}) (any platform) level text m short tt)

    store_outcome-Ends :
        (m : Machine Os C) (o : Outcome (Store Os) (Option ℕ))
        → plain o ≡ true
        → Ends (store_outcome platform m o)
    unfolding plain
    store_outcome-Ends m (returns r st) h = tt
    store_outcome-Ends m (jumps st) h = cc
    store_outcome-Ends m (exits f st) h = from_memory-eq f h
    store_outcome-Ends m (asserts f st) h = from_memory-eq f h
    store_outcome-Ends m (overruns st) h = cc
    store_outcome-Ends m (spins st) h = cc

    request_memory-Ends :
        (arena : Option Arena) (n : ℕ) (m : Machine Os C) → Ends (request_memory platform arena n m)
    unfolding request_memory
    request_memory-Ends none n m = tt
    request_memory-Ends (some arena) n m = store_outcome-Ends m _ (arena_alloc-plain n _)

    or_exit-Ends : (r : Option ℕ) (m : Machine Os C) → Ends (or_exit platform r m)
    unfolding or_exit
    or_exit-Ends (some p) m = tt
    or_exit-Ends none m =
        Proper-and_then (λ _ _. Unit {0}) (λ _ _. Unit {0}) J _ _
          (log_msg-Ends fatal (codes "OOM") m (omega arith)) (λ a s h. refl)

    pub server_alloc-Ends : (n : ℕ) (m : Machine Os C) → Ends (server_alloc platform n m)
    unfolding server_alloc
    server_alloc-Ends n m =
        Proper-and_then (λ _ _. Unit {0}) (λ _ _. Unit {0}) J _ _
          (request_memory-Ends m.g_memory_arena n m) (λ a s h. or_exit-Ends a s)

  -- The same, where a property of the machine is kept.
  module _ {C : Type 0} (fit : LogsFit platform) (J : Machine Os C → Type 0)
      (I : Machine Os C → Type 0) (neutral : Neutral platform I) where
    pub log_msg-Proper :
        (level : LogLevel) (text : Bytes) (m : Machine Os C)
        → length text ≤ 4045
        → I m
        → Proper (λ _. I) J (log_msg platform level text m)
    log_msg-Proper level text m short h =
        Ensures-Proper (λ _. I) (λ _. I) J (log_msg platform level text m) (λ a s i. i)
          (log_msg-Surely platform fit I neutral level text m short h)

    pub log_perror-Proper :
        (level : LogLevel) (err : Errno) (text : Bytes) (m : Machine Os C)
        → length text ≤ 1024
        → I m
        → Proper (λ _. I) J (log_perror platform level err text m)
    log_perror-Proper level err text m short h =
        Ensures-Proper (λ _. I) (λ _. I) J (log_perror platform level err text m) (λ a s i. i)
          (log_perror-Surely platform fit I neutral level err text m short h)

    pub request_memory-Proper :
        (arena : Option Arena) (n : ℕ) (m : Machine Os C)
        → I m
        → Proper (λ _. I) J (request_memory platform arena n m)
    request_memory-Proper arena n m h =
        Proper-Stable I J _ (request_memory-Ends fit J arena n m)
          (request_memory-Stable platform I neutral arena n m h)

    pub server_alloc-Proper :
        (n : ℕ) (m : Machine Os C) → I m → Proper (λ _. I) J (server_alloc platform n m)
    server_alloc-Proper n m h =
        Proper-Stable I J _ (server_alloc-Ends fit J n m)
          (server_alloc-Stable platform I neutral n m h)

    pub server_strdup-Proper :
        (text : Bytes) (m : Machine Os C)
        → I m
        → Proper (λ r m'. (r ≡ text) × I m') J (server_strdup platform text m)
    unfolding server_strdup
    server_strdup-Proper text m h =
        Proper-and_then (λ _. I) (λ r m'. (r ≡ text) × I m') J _ _
          (server_alloc-Proper (length text + 1) m h) (λ a s i. (refl, i))
