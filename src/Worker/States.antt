-- ===== src/Worker/States.antt =====
-- The states of connections that `conn_loop` (src/server.c) deals with, before and after their handlers.
use cn_cw.Common.{ℕ, refl, ◌≡◌, ◌≢◌, ◌⊎◌, inl, inr, List, [], ◌∷◌, ◌++◌, All, Option-cases}
use cn_cw.Conn.{waiting, sending, Conn}
use cn_cw.Handler.{State}
use cn_cw.Handler.Delivery.{IsFresh}
use cn_cw.Handler.States.{HasFile, Underway, Settled, Failed}
use cn_cw.Machine.{Machine, Shared, empty_arena}
use cn_cw.Memory.Neutral.{Stable, Stable-and_then}
use cn_cw.Outcome.{Outcome, returns, jumps, exits, asserts, overruns, spins, Cmd, and_then, Leaves}
use cn_cw.PgList.{PgList}
use cn_cw.Platform.{Platform}
use cn_cw.Worker.{Active, left, drop_conn, new_conn}

-- A connection that nothing was read from: no buffer, no file, and an arena without blocks.
abbrev pub IsNew : Active → Type 0
IsNew a = IsFresh a.conn × (a.arena ≡ empty_arena)

-- A connection that a worker keeps for its next turn.
abbrev pub Kept : Active → Type 0
Kept a = ((a.conn.state ≡ waiting) × IsNew a) ⊎ ((a.conn.state ≡ sending) × HasFile a.conn)

pub new_conn-IsFresh : (fd : ℕ) → IsFresh (new_conn fd)
unfolding new_conn
new_conn-IsFresh fd = record {
  no_buffer = refl;
  no_size = refl;
  no_len = refl;
  no_cursor = refl;
  no_file = refl;
}

-- A connection in `sending` has a file.
abbrev pub SendsFile : Conn → Type 0
SendsFile c = c.state ≡ sending → HasFile c

-- All elements are kept when one more is put behind them.
pub All-snoc :
    {A : Type 0} (P : A → Type 0) (xs : List A) (x : A) → All P xs → P x → All P (xs ++ x ∷ [])
All-snoc P [] x h p = (p, tt)
All-snoc P (y ∷ xs) x h p = (h.0, All-snoc P xs x h.1 p)

pub sending-ne-waiting : sending ≢ waiting
sending-ne-waiting e = cc

module _ (platform : Platform) where
  open platform use {Os}

  -- A step of which only is used that it does not jump.
  pub then_any :
      {S A B : Type 0} (P : B → S → Type 0) (o : Outcome S A) (k : A → Cmd S B)
      → Stable (λ _. Unit {0}) o
      → ((a : A) (m : S) → Leaves P (λ _. ⊥) (k a m))
      → Leaves P (λ _. ⊥) (and_then o k)
  then_any P o k h next = Stable-and_then (λ _. Unit {0}) P (λ _. ⊥) o k h (λ a m _. next a m)

  -- What a handler leaves: every jump is caught.
  pub left-SendsFile :
      (a : Active) (o : Outcome (Machine Os Conn) (Unit {0}))
      → Leaves (λ _ m. SendsFile m.client) (λ m. SendsFile m.client) o
      → Leaves (λ a' _. SendsFile a'.conn) (λ _. ⊥) (left platform a o)
  unfolding left
  left-SendsFile a (returns _ m) h = h
  left-SendsFile a (jumps m) h = h
  left-SendsFile a (exits f m) h = tt
  left-SendsFile a (asserts f m) h = tt
  left-SendsFile a (overruns m) h = tt
  left-SendsFile a (spins m) h = tt

  pub drop_conn-Stable :
      (a : Active) (m : Shared Os) → Stable (λ _. Unit {0}) (drop_conn platform a m)
  unfolding drop_conn
  drop_conn-Stable a m = elim (Option-cases m.g_memory_arena) [
    | inl unset ↦ rw unset tt
    | inr (arena, set) ↦ rw set tt
  ]

  pub Settled-SendsFile :
      (c : Conn) (m : State platform)
      → c.state ≡ waiting
      → Settled platform c tt m
      → SendsFile m.client
  Settled-SendsFile c m w (inl h) e = cc
  Settled-SendsFile c m w (inr (inl h)) e = h.1
  Settled-SendsFile c m w (inr (inr h)) e = cc

  pub Underway-SendsFile : (m : State platform) → Underway platform tt m → SendsFile m.client
  Underway-SendsFile m (inl h) e = cc
  Underway-SendsFile m (inr h) e = h.1

  pub Failed-SendsFile : (m : State platform) → Failed platform m → SendsFile m.client
  Failed-SendsFile m (inl h) e = cc
  Failed-SendsFile m (inr h) e = cc

  module _ (conns : PgList Os Active (Unit {0})) where
    open conns use {Cells, elements}

    abbrev pub AllKept : Cells → Shared Os → Type 0
    AllKept cells _ = All Kept (elements cells)
