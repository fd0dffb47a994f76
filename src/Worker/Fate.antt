-- ===== src/Worker/Fate.antt =====
-- What one turn of `conn_loop` (src/server.c) may make of its connections, and that handlers keep sockets.
use cn_cw.Common.{ℕ, ◌≡◌, refl, ap, ◌∙◌, Bool, true, false, List, [], ◌∷◌, ◌++◌}
use cn_cw.Conn.{
  ConnectionState, waiting, sending, complete, err_recoverable, err_unrecoverable, Conn, HttpHeader,
}
use cn_cw.Handler.{State}
use cn_cw.Handler.Lasting.{Lasting, Lasts}
use cn_cw.Machine.{Shared}
use cn_cw.Memory.Neutral.{Stable}
use cn_cw.Outcome.{Outcome, returns, jumps, exits, asserts, overruns, spins, Leaves, Ensures-Leaves}
use cn_cw.PgList.{PgList, Appends}
use cn_cw.Platform.{Platform}
use cn_cw.Worker.{Active, fd_isset, left}

-- What `select` says of a connection: of the direction in which its state goes.
unfoldable pub ready_for : ConnectionState → ℕ → List ℕ → List ℕ → Bool
unfolding fd_isset
ready_for waiting fd r w = fd_isset fd r
ready_for sending fd r w = fd_isset fd w
ready_for complete fd r w = false
ready_for err_recoverable fd r w = false
ready_for err_unrecoverable fd r w = false

abbrev pub Ready : List ℕ → List ℕ → Active → Bool → Type 0
Ready r w a b = ready_for a.conn.state a.conn.sock_fd r w ≡ b

-- What a turn makes of one connection: one that is not ready stays as it is; one that is ready is kept
-- with its socket, to send, or goes.
pub data Fate (r w : List ℕ) (a : Active) : List Active → Type 0 where
  idles : Ready r w a false → Fate r w a (a ∷ [])
  sends_on :
      (a' : Active)
      → Ready r w a true
      → a'.address ≡ a.address
      → a'.conn.sock_fd ≡ a.conn.sock_fd
      → a'.conn.state ≡ sending
      → Fate r w a (a' ∷ [])
  goes : Ready r w a true → Fate r w a []

pub data Turned (r w : List ℕ) : List Active → List Active → Type 0 where
  no_more : Turned r w [] []
  and_next :
      {a : Active} {todo bs cs : List Active}
      → Fate r w a bs
      → Turned r w todo cs
      → Turned r w (a ∷ todo) (bs ++ cs)

pub append_assoc : (xs ys zs : List Active) → (xs ++ ys) ++ zs ≡ xs ++ (ys ++ zs)
append_assoc [] ys zs = refl
append_assoc (x ∷ xs) ys zs = ap (◌∷◌ x) (append_assoc xs ys zs)

pub append_nil : (xs : List Active) → xs ++ [] ≡ xs
append_nil [] = refl
append_nil (x ∷ xs) = ap (◌∷◌ x) (append_nil xs)

module _ (platform : Platform) (headers : PgList (platform.Os) HttpHeader Conn)
    (appends : Appends headers) where
  open platform use {Os}

  -- No handler changes the socket of its connection.
  pub socket-Lasting : (fd : ℕ) → Lasting platform headers (λ m. m.client.sock_fd ≡ fd)
  socket-Lasting fd = record {
    neutral = record {
      after_localtime = λ m h. h;
      after_getpid = λ m h. h;
      after_write = λ bs m h. h;
      after_calloc = λ n m h. h;
      after_arena = λ a m h. h;
    };
    after_write = λ n bs m h. h;
    after_gmtime = λ m h. h;
    after_read = λ f n m h. h;
    after_get_flags = λ f m h. h;
    after_set_flags = λ f n m h. h;
    after_stat = λ path m h. h;
    after_realpath = λ path m h. h;
    after_free = λ a m h. h;
    after_open = λ path m f os e no_file h. h;
    after_open_failed = λ path m e os failure h. h;
    after_lappend = λ l header m h.
        Ensures-Leaves
          (λ l' m'.
            (headers.elements l' ≡ headers.elements l ++ header ∷ []) × (m'.client ≡ m.client))
          (λ _ m'. m'.client.sock_fd ≡ fd) (λ _. ⊥) (λ _. Unit {0}) (headers.lappend l header m)
          (λ l' m' e. ap (λ c. c.sock_fd) e.1 ∙ h) (appends.elements-lappend l header m);
    after_conn = λ c m s f h. s ∙ h;
  }

  -- The connection behind its handler, whatever that did.
  abbrev pub SameConn : Active → Active → Shared Os → Type 0
  SameConn a a' _ = (a'.address ≡ a.address) × (a'.conn.sock_fd ≡ a.conn.sock_fd)

  pub left-SameConn :
      (a : Active) (o : Outcome (State platform) (Unit {0}))
      → Lasts (λ m. m.client.sock_fd ≡ a.conn.sock_fd) o
      → Leaves (SameConn a) (λ _. ⊥) (left platform a o)
  unfolding left
  left-SameConn a (returns _ m) h = (refl, h)
  left-SameConn a (jumps m) h = (refl, h)
  left-SameConn a (exits f m) h = tt
  left-SameConn a (asserts f m) h = tt
  left-SameConn a (overruns m) h = tt
  left-SameConn a (spins m) h = tt

  pub left_any :
      (a : Active) (o : Outcome (State platform) (Unit {0}))
      → Stable (λ _. Unit {0}) (left platform a o)
  unfolding left
  left_any a (returns _ m) = tt
  left_any a (jumps m) = tt
  left_any a (exits f m) = tt
  left_any a (asserts f m) = tt
  left_any a (overruns m) = tt
  left_any a (spins m) = tt
