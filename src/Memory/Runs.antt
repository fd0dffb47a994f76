-- ===== src/Memory/Runs.antt =====
-- How a command ends when it may leave an object, and where: logging a line of any length
-- (src/server.c), and what is proper.
use cn_cw.Common.{◌≡◌, inl, inr, ltb, Bool-cases, Bytes, length}
use cn_cw.Log.{LogLevel, put_line, log_msg}
use cn_cw.Machine.{Machine}
use cn_cw.Memory.Neutral.{Neutral}
use cn_cw.Memory.Proper.{Proper}
use cn_cw.Outcome.{
  memory_c, Outcome, returns, jumps, exits, asserts, overruns, spins, Cmd, and_then,
}
use cn_cw.Platform.{Platform}

-- `P` on return, `J` at a jump, `O` at an access outside of an object, an exit or a failed assertion
-- in src/memory.c alone, and no loop without end.
abbrev pub Runs :
    {S A : Type 0} → (A → S → Type 0) → (S → Type 0) → (S → Type 0) → Outcome S A → Type 0
Runs P J O (returns a s) = P a s
Runs P J O (jumps s) = J s
Runs P J O (exits f s) = f ≡ memory_c
Runs P J O (asserts f s) = f ≡ memory_c
Runs P J O (overruns s) = O s
Runs P J O (spins s) = ⊥

pub Runs-and_then :
    {S A B : Type 0} (P : A → S → Type 0) (Q : B → S → Type 0) (J O : S → Type 0) (o : Outcome S A)
    (k : A → Cmd S B)
    → Runs P J O o
    → ((a : A) (s : S) → P a s → Runs Q J O (k a s))
    → Runs Q J O (and_then o k)
Runs-and_then P Q J O (returns a s) k h next = next a s h
Runs-and_then P Q J O (jumps s) k h next = h
Runs-and_then P Q J O (exits f s) k h next = h
Runs-and_then P Q J O (asserts f s) k h next = h
Runs-and_then P Q J O (overruns s) k h next = h
Runs-and_then P Q J O (spins s) k h next = h

pub Runs-mono :
    {S A : Type 0} (P Q : A → S → Type 0) (J O : S → Type 0) (o : Outcome S A)
    → ((a : A) (s : S) → P a s → Q a s)
    → Runs P J O o
    → Runs Q J O o
Runs-mono P Q J O (returns a s) w h = w a s h
Runs-mono P Q J O (jumps s) w h = h
Runs-mono P Q J O (exits f s) w h = h
Runs-mono P Q J O (asserts f s) w h = h
Runs-mono P Q J O (overruns s) w h = h
Runs-mono P Q J O (spins s) w h = h

-- What is proper runs, whatever is said of a way to leave an object.
pub Proper-Runs :
    {S A : Type 0} (P Q : A → S → Type 0) (I J O : S → Type 0) (o : Outcome S A)
    → ((a : A) (s : S) → P a s → Q a s)
    → ((s : S) → I s → J s)
    → Proper P I o
    → Runs Q J O o
Proper-Runs P Q I J O (returns a s) w j h = w a s h
Proper-Runs P Q I J O (jumps s) w j h = j s h
Proper-Runs P Q I J O (exits f s) w j h = h
Proper-Runs P Q I J O (asserts f s) w j h = h
Proper-Runs P Q I J O (overruns s) w j h = absurd h
Proper-Runs P Q I J O (spins s) w j h = h

module _ (platform : Platform) {C : Type 0} (I : Machine (platform.Os) C → Type 0)
    (neutral : Neutral platform I) (J O : Machine (platform.Os) C → Type 0)
    (may : (m : Machine (platform.Os) C) → O m) where
  open platform use {Os, localtime}
  open neutral use {after_localtime, after_getpid, after_write}

  put_line-Runs :
      (line : Bytes) (m : Machine Os C) → I m → Runs (λ _. I) J O (put_line platform line m)
  unfolding put_line
  put_line-Runs line m h = elim (Bool-cases (ltb 4096 (length line))) [
    | inl long ↦ rw long (may m)
    | inr fits ↦ rw fits (after_write _ m h)
  ]

  pub log_msg-Runs :
      (level : LogLevel) (text : Bytes) (m : Machine Os C)
      → I m
      → Runs (λ _. I) J O (log_msg platform level text m)
  unfolding log_msg
  log_msg-Runs level text m h =
      put_line-Runs _ (record m { os = (platform.getpid (localtime m.os).1).1 })
        (after_getpid (record m { os = (localtime m.os).1 }) (after_localtime m h))
