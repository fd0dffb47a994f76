-- ===== src/Log/Sure.antt =====
-- A line of the log that fits its buffer is written, and what the log's calls keep holds after it.
use cn_cw.Common.{◌≤◌, ◌≡◌, sym, subst, Bytes, length}
use cn_cw.Log.{LogLevel, log_msg, log_perror}
use cn_cw.Log.Bounds.{LogsFit, log_msg_returns, log_perror_returns}
use cn_cw.Machine.{Machine}
use cn_cw.Memory.Neutral.{Neutral, log_msg-Stable, log_perror-Stable}
use cn_cw.Outcome.{Outcome, returns, Cmd, and_then, Ensures, Ensures-and_then, Leaves}
use cn_cw.Platform.{Platform, Errno}

-- The outcome returns, and `I` holds.
abbrev pub Surely : {S A : Type 0} → (A → S → Type 0) → Outcome S A → Type 0
Surely P o = Ensures P (λ _. ⊥) (λ _. ⊥) o

pub Surely-and_then :
    {S A B : Type 0} (P : A → S → Type 0) (Q : B → S → Type 0) (o : Outcome S A) (k : A → Cmd S B)
    → Surely P o
    → ((a : A) (s : S) → P a s → Surely Q (k a s))
    → Surely Q (and_then o k)
Surely-and_then P Q o k h next = Ensures-and_then P Q (λ _. ⊥) (λ _. ⊥) o k h next

Surely-returns :
    {S A : Type 0} (P : A → S → Type 0) (o : Outcome S A) (a : A) (s : S)
    → o ≡ returns a s
    → Leaves P (λ _. ⊥) o
    → Surely P o
Surely-returns P o a s e h = subst (Surely P) (sym e) (subst (Leaves P (λ _. ⊥)) e h)

module _ (platform : Platform) (fit : LogsFit platform) {C : Type 0}
    (I : Machine (platform.Os) C → Type 0) (neutral : Neutral platform I) where
  open platform use {Os}

  pub log_msg-Surely :
      (level : LogLevel) (text : Bytes) (m : Machine Os C)
      → length text ≤ 4045
      → I m
      → Surely (λ _. I) (log_msg platform level text m)
  log_msg-Surely level text m short h =
      Surely-returns (λ _. I) _ tt _ (log_msg_returns platform fit level text m short)
        (log_msg-Stable platform I neutral level text m h)

  pub log_perror-Surely :
      (level : LogLevel) (err : Errno) (text : Bytes) (m : Machine Os C)
      → length text ≤ 1024
      → I m
      → Surely (λ _. I) (log_perror platform level err text m)
  log_perror-Surely level err text m short h =
      Surely-returns (λ _. I) _ tt _ (log_perror_returns platform fit level err text m short)
        (log_perror-Stable platform I neutral level err text m h)
