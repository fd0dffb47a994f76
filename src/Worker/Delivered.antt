-- ===== src/Worker/Delivered.antt =====
-- A request in a worker: `conn_loop` (src/server.c) runs `process_request` (src/handler.c) on a connection that
-- it has kept, in the connection's arena.
use cn_cw.Common.{
  ℕ, ◌^◌, ◌<◌, ◌≤◌, ◌≡◌, ◌≢◌, refl, sym, subst, ◌∙◌, ◌⊎◌, inl, inr, some, List, [], ◌∷◌, ◌++◌, All,
  Bytes, length,
}
use cn_cw.Conn.{waiting, Conn, HttpHeader, ServerSettings}
use cn_cw.Handler.{State}
use cn_cw.Handler.Delivery.{Handled, Overlong}
use cn_cw.Handler.Delivery.Whole.{process_request-Delivered}
use cn_cw.Handler.Quiet.{Quiet}
use cn_cw.Handler.Response.Built.{Dates}
use cn_cw.Handler.Serve.{process_request}
use cn_cw.Handler.States.{Failed}
use cn_cw.Handler.Streams.{Streams, Progress}
use cn_cw.Http.{HttpReq}
use cn_cw.Log.{stderr_fileno}
use cn_cw.Log.Bounds.{LogsFit}
use cn_cw.Machine.{Machine, Shared}
use cn_cw.Memory.Runs.{Runs}
use cn_cw.Outcome.{Outcome, returns, jumps, exits, asserts, overruns, spins}
use cn_cw.PgList.{PgList, Appends}
use cn_cw.Platform.{Platform, got}
use cn_cw.Sockets.{Sockets}
use cn_cw.Worker.{Active, left, in_arena}
use cn_cw.Worker.Reach.{Reach, Reach-Kept}
use cn_cw.Worker.States.{Kept, IsNew, sending-ne-waiting}

-- One of the elements.
All-among :
    {A : Type 0} (P : A → Type 0) (before after : List A) (a : A)
    → All P (before ++ a ∷ after)
    → P a
All-among P [] after a h = h.0
All-among P (b ∷ before) after a h = All-among P before after a h.1

Kept-waiting : (a : Active) → a.conn.state ≡ waiting → Kept a → IsNew a
Kept-waiting a e (inl h) = h.1
Kept-waiting a e (inr h) = absurd (sending-ne-waiting (sym h.0 ∙ e))

module _ (platform : Platform) where
  open platform use {Os}

  -- What a handler leaves, in its connection and in the machine that it shares.
  abbrev pub Caught : (State platform → Type 0) → Active → Active → Shared Os → Type 0
  Caught P a a' m' =
      (m2 : State platform) × (m2.os ≡ m'.os)
      × (m2.client ≡ a'.conn)
      × (a'.address ≡ a.address)
      × P m2

  left-Caught :
      (P J : State platform → Type 0) (O : Type 0) (a : Active)
      (o : Outcome (Machine Os Conn) (Unit {0}))
      → Runs (λ _. P) J (λ _. O) o
      → Runs (Caught (λ m. P m ⊎ J m) a) (λ _. ⊥) (λ _. O) (left platform a o)
  unfolding left
  left-Caught P J O a (returns _ m) h = (m, refl, refl, refl, inl h)
  left-Caught P J O a (jumps m) h = (m, refl, refl, refl, inr h)
  left-Caught P J O a (exits f m) h = h
  left-Caught P J O a (asserts f m) h = h
  left-Caught P J O a (overruns m) h = h
  left-Caught P J O a (spins m) h = h

  -- In every state that a worker can reach, whichever of its waiting connections comes to its turn, and
  -- whatever the turn has done before: the request runs to an end in the connection's arena, its jump
  -- is caught, and it leaves the connection with the answer that `process_request-Delivered` describes, or
  -- with the error noted. It exits and fails an assertion only in src/memory.c, where memory runs out or the
  -- arena is not sound, and leaves an object only where more than 4000 bytes came that are no
  -- request line. The conditions are those on the calls, the buffer and the fuel; that the connection
  -- is new and has an arena is not among them.
  pub Reach-Delivered :
      (streams : Streams platform) (fit : LogsFit platform) (dates : Dates platform)
      (sockets : Sockets platform) (headers : PgList Os HttpHeader Conn) (appends : Appends headers)
      (conns : PgList Os Active (Unit {0})) (conns_append : Appends conns) (fuel : ℕ)
      (req : HttpReq) (settings : ServerSettings) (sock : ℕ) {start m0 : Shared Os}
      {cells : conns.Cells} (before after : List Active) (a : Active) (m : Shared Os)
      (quiet : Quiet platform streams headers a.conn.sock_fd)
      (s_ne : stderr_fileno ≢ a.conn.sock_fd)
      → Reach platform sockets headers appends conns conns_append fuel req settings sock start cells
          m0
      → conns.elements cells ≡ before ++ a ∷ after
      → a.conn.state ≡ waiting
      → Progress platform
      → ((path : Bytes) (os : Os) (fd : ℕ) (os' : Os)
          → platform.open_file path os ≡ (got fd, os')
          → length (streams.unread os' fd) < fuel)
      → 1 ≤ settings.read_buf_size
      → settings.read_buf_size < 2 ^ 62
      → let w = streams.sent m.os a.conn.sock_fd in
        let m1 : State platform = record {
          os = m.os;
          g_memory_arena = some a.arena;
          client = a.conn;
        } in
        Runs
          (Caught (λ m2. Handled platform streams fit settings w a.conn m2 ⊎ Failed platform m2) a)
          (λ _. ⊥)
          (λ _. Overlong platform streams fit settings w a.conn m1)
          (in_arena platform a (process_request platform headers fuel req settings) m)
  unfolding in_arena
  Reach-Delivered streams fit dates sockets headers appends conns conns_append fuel req settings
        sock before after a m quiet s_ne reached among is_waiting progress enough room small =
      let kept =
        Reach-Kept platform sockets headers appends conns conns_append fuel req settings sock
          reached in
      let new =
        Kept-waiting a is_waiting (All-among Kept before after a (subst (All Kept) among kept)) in
      let m1 : State platform = record {
        os = m.os;
        g_memory_arena = some a.arena;
        client = a.conn;
      } in
      let w = streams.sent m.os a.conn.sock_fd in
      left-Caught (Handled platform streams fit settings w a.conn) (Failed platform)
        (Overlong platform streams fit settings w a.conn m1) a _
        (process_request-Delivered platform streams fit dates headers appends fuel req settings m1
          quiet s_ne progress enough room small new.0 tt)
