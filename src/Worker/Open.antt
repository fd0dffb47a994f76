-- ===== src/Worker/Open.antt =====
-- Which descriptors the connections of `conn_loop` (src/server.c) hold, and what dropping one closes.
use cn_cw.Common.{
  ℕ, ◌+◌, ◌-◌, ◌≡◌, refl, ◌∙◌, inl, inr, Option, none, some, List, [], ◌∷◌, ◌++◌, arith,
  Option-cases,
}
use cn_cw.Conn.{Conn, HttpHeader}
use cn_cw.Descriptors.{Descriptors, file_one, fds}
use cn_cw.Handler.Descriptors.{Accounted}
use cn_cw.Handler.Lasting.{Lasts}
use cn_cw.Log.{stderr_fileno}
use cn_cw.Machine.{Block, Machine, Shared}
use cn_cw.Memory.{arena_clear, clear_blocks, server_free}
use cn_cw.Memory.Neutral.{Neutral, Stable}
use cn_cw.Outcome.{Outcome, returns, jumps, exits, asserts, overruns, spins, Leaves}
use cn_cw.PgList.{PgList}
use cn_cw.Platform.{Platform}
use cn_cw.Sockets.{Sockets}
use cn_cw.Worker.{Active, left, close_file, drop_conn}

-- How often the connections of a list hold the descriptor `x`.
unfoldable pub held : List Active → ℕ → ℕ
held [] x = 0
held (a ∷ rest) x = fds a.conn x + held rest x

pub held-snoc :
    (bs : List Active) (a : Active) (x : ℕ) → held (bs ++ a ∷ []) x ≡ held bs x + fds a.conn x
unfolding held
held-snoc [] a x = omega arith
held-snoc (b ∷ bs) a x = omega (arith, held-snoc bs a x)

module _ (platform : Platform) {sockets : Sockets platform}
    (descriptors : Descriptors platform sockets) (x : ℕ) where
  open platform use {Os, close}
  open sockets use {accept, select}
  open descriptors use {
    opened, localtime_opened, getpid_opened, calloc_opened, free_opened, write_opened, close_opened,
    select_opened, accept_got, accept_failed,
  }

  -- The descriptor `x` is open `n` times.
  abbrev pub Opened : ℕ → Shared Os → Type 0
  Opened n m = opened m.os x ≡ n

  pub Opened-Neutral : (n : ℕ) → Neutral platform (Opened n)
  Opened-Neutral n = record {
    after_localtime = λ m h. localtime_opened m.os x ∙ h;
    after_getpid = λ m h. getpid_opened m.os x ∙ h;
    after_write = λ bs m h. write_opened stderr_fileno bs m.os x ∙ h;
    after_calloc = λ n m h. calloc_opened n m.os x ∙ h;
    after_arena = λ a m h. h;
  }

  -- A connection comes back from its handler with the descriptors that it holds.
  abbrev pub Holding : ℕ → Active → Shared Os → Type 0
  Holding rest a m = opened m.os x ≡ rest + fds a.conn x

  -- Beside `base`, the connections of the list hold what is open.
  module _ (conns : PgList Os Active (Unit {0})) where
    open conns use {Cells, elements}

    abbrev pub Balanced : ℕ → Cells → Shared Os → Type 0
    Balanced base cells m = opened m.os x ≡ base + held (elements cells) x

  pub left-Holding :
      (headers : PgList Os HttpHeader Conn) (rest : ℕ) (a : Active)
      (o : Outcome (Machine Os Conn) (Unit {0}))
      → Lasts (Accounted platform descriptors headers x rest) o
      → Leaves (Holding rest) (λ _. ⊥) (left platform a o)
  unfolding left
  left-Holding headers rest a (returns _ m) h = h
  left-Holding headers rest a (jumps m) h = h
  left-Holding headers rest a (exits f m) h = tt
  left-Holding headers rest a (asserts f m) h = tt
  left-Holding headers rest a (overruns m) h = tt
  left-Holding headers rest a (spins m) h = tt

  clear_blocks_opened :
      (blocks : List Block) (os : Os) → opened (clear_blocks platform blocks os) x ≡ opened os x
  unfolding clear_blocks
  clear_blocks_opened [] os = refl
  clear_blocks_opened (b ∷ []) os = free_opened _ os x
  clear_blocks_opened (b ∷ c ∷ blocks) os = clear_blocks_opened (c ∷ blocks) _ ∙ free_opened _ os x

  close_file_opened :
      (file_fd : Option ℕ) (os : Os)
      → opened (close_file platform file_fd os) x ≡ opened os x - file_one file_fd x
  unfolding close_file file_one
  close_file_opened none os = omega arith
  close_file_opened (some fd) os = close_opened fd os x

  -- Both of its descriptors are closed, each once.
  pub drop_conn-Opened :
      (rest : ℕ) (a : Active) (m : Shared Os)
      → Holding rest a m
      → Stable (Opened rest) (drop_conn platform a m)
  unfolding drop_conn arena_clear server_free fds
  drop_conn-Opened rest a m h = elim (Option-cases m.g_memory_arena) [
    | inl unset ↦
        let file_closed = close_file_opened a.conn.file_fd m.os in
        let os1 : Os = close_file platform a.conn.file_fd m.os in
        let sock_closed = close_opened a.conn.sock_fd os1 x in
        let os2 : Os = close a.conn.sock_fd os1 in
        let cleared = clear_blocks_opened a.arena.blocks os2 in
        rw unset (
          free_opened a.address (clear_blocks platform a.arena.blocks os2) x
          ∙ cleared
          ∙ omega (arith, file_closed, sock_closed, h))
    | inr (arena, set) ↦ rw set tt
  ]
