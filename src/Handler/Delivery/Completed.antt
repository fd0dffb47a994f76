-- ===== src/Handler/Delivery/Completed.antt =====
-- A request from its first byte until its connection has nothing left to do: `process_request`, and
-- then `process_request_write` whenever the socket takes bytes (src/handler.c).
use cn_cw.Common.{ℕ, ◌<◌, ◌≤◌, ◌^◌, ◌≡◌, ◌≢◌, sym, ap, ◌∙◌, inl, inr, List, arith, Bytes}
use cn_cw.Conn.{waiting, sending, Conn, HttpHeader, ServerSettings}
use cn_cw.Handler.{State}
use cn_cw.Handler.Delivery.{IsFresh, received, Delivered, Handled, Overlong}
use cn_cw.Handler.Delivery.Whole.{process_request-Delivered}
use cn_cw.Handler.Moves.{Readiness}
use cn_cw.Handler.Quiet.{Quiet, HasArena}
use cn_cw.Handler.Response.Built.{Dates}
use cn_cw.Handler.Serve.{process_request}
use cn_cw.Handler.States.{Failed}
use cn_cw.Handler.Streams.{Streams}
use cn_cw.Handler.Visits.{visits}
use cn_cw.Http.{HttpReq}
use cn_cw.Log.{stderr_fileno}
use cn_cw.Log.Bounds.{LogsFit}
use cn_cw.Memory.Runs.{Runs, Runs-mono, Runs-and_then}
use cn_cw.Outcome.{and_then}
use cn_cw.PgList.{PgList, Appends}
use cn_cw.Platform.{Platform}
use cn_cw.Handler.Delivery.Ended.{Patient, stays-Ended, complete-Ended, Delivered-Ended}

waiting-ne-sending : waiting ≢ sending
waiting-ne-sending e = cc

module _ (platform : Platform) (streams : Streams platform) (fit : LogsFit platform)
    (headers : PgList (platform.Os) HttpHeader Conn) (settings : ServerSettings) (w : Bytes)
    (c : Conn) (quiet : Quiet platform streams headers c.sock_fd) (s_ne : stderr_fileno ≢ c.sock_fd)
    (readiness : (f : ℕ) → Readiness platform f c.sock_fd) (fuel : ℕ)
    (turns : List (platform.Os → platform.Os))
    (patient : Patient platform streams fit c.sock_fd readiness fuel turns)
    (is_waiting : c.state ≡ waiting) where
  abbrev HandledIs : State platform → Type 0
  HandledIs = Handled platform streams fit settings w c

  abbrev OverlongIs : State platform → Type 0
  OverlongIs = Overlong platform streams fit settings w c

  abbrev Done : State platform → Type 0
  Done m = HandledIs m × (m.client.state ≢ sending)

  Handled-Done :
      (m : State platform)
      → HandledIs m
      → Runs (λ _. Done) (Failed platform) OverlongIs (visits platform fuel turns m)
  Handled-Done m (inl (came, is_c, same)) =
      stays-Ended platform streams fit headers w c quiet s_ne readiness fuel turns OverlongIs
        HandledIs m (inl (came, is_c, same))
        (λ e. waiting-ne-sending (sym is_waiting ∙ sym (ap (λ k. k.state) is_c) ∙ e))
  Handled-Done m (inr (bs, came, some_came, inr turned)) =
      complete-Ended platform streams fit headers w c quiet s_ne readiness fuel turns OverlongIs
        HandledIs m (inr (bs, came, some_came, inr turned)) (ap (λ k. k.state) turned.4.is_complete)
  Handled-Done m (inr (bs, came, some_came, inl (req, is_line, fits, delivered))) =
      Runs-mono
        (λ _ m'.
          Delivered platform streams fit req.method settings.static_dir req w
            (received c settings.read_buf_size bs) m'
          × (m'.client.state ≢ sending))
        (λ _. Done) (Failed platform) OverlongIs _
        (λ _ m' (h, ne). (inr (bs, came, some_came, inl (req, is_line, fits, h)), ne))
        (Delivered-Ended platform streams fit headers w (received c settings.read_buf_size bs) quiet
          s_ne readiness fuel turns OverlongIs req.method settings.static_dir req m patient
          delivered)

-- A request that comes to a new connection is answered to the end: `process_request` runs, and then
-- `process_request_write` whenever the socket takes bytes, more often than any file is long. Where
-- this returns, the connection has nothing left to send, and what came and what the socket got are as
-- for `process_request`: so for a GET request the part of the head that the socket took is followed
-- by all bytes of the file. Otherwise it leaves by `abort_req` with the connection's error noted, by
-- an exit or a failed assertion in src/memory.c, or in an access outside of an object where
-- more than 4000 bytes came that are no request line. The connection waits, the read buffer has at
-- least a byte and less than 2 ^ 62, the arena is set, standard error is not the socket, between the
-- calls files and socket are left alone, the fuel of a call is more than a file and a byte, and the
-- calls of the system are as documented.
pub process_request-Ended :
    (platform : Platform) (streams : Streams platform) (fit : LogsFit platform)
    (dates : Dates platform) (headers : PgList (platform.Os) HttpHeader Conn)
    (appends : Appends headers) (fuel : ℕ) (old : HttpReq) (settings : ServerSettings)
    (m : State platform) (quiet : Quiet platform streams headers m.client.sock_fd)
    (s_ne : stderr_fileno ≢ m.client.sock_fd)
    (readiness : (f : ℕ) → Readiness platform f m.client.sock_fd)
    (turns : List (platform.Os → platform.Os))
    → Patient platform streams fit m.client.sock_fd readiness fuel turns
    → m.client.state ≡ waiting
    → 1 ≤ settings.read_buf_size
    → settings.read_buf_size < 2 ^ 62
    → IsFresh m.client
    → HasArena m.g_memory_arena
    → Runs
        (λ _ m'.
          Handled platform streams fit settings (streams.sent m.os m.client.sock_fd) m.client m'
          × (m'.client.state ≢ sending))
        (Failed platform)
        (Overlong platform streams fit settings (streams.sent m.os m.client.sock_fd) m.client)
        (and_then
          (process_request platform headers fuel old settings m)
          (λ _. visits platform fuel turns))
process_request-Ended platform streams fit dates headers appends fuel old settings m quiet s_ne
      readiness turns patient is_waiting room small fresh set =
    let w = streams.sent m.os m.client.sock_fd in
    Runs-and_then (λ _. Handled platform streams fit settings w m.client)
      (λ _ m'. Handled platform streams fit settings w m.client m' × (m'.client.state ≢ sending))
      (Failed platform) (Overlong platform streams fit settings w m.client) _ _
      (process_request-Delivered platform streams fit dates headers appends fuel old settings m
        quiet s_ne patient.progress
        (λ path os fd os' e. omega (arith, (patient.many path os fd os' e).1)) room small fresh set)
      (λ _ m' h.
        Handled-Done platform streams fit headers settings w m.client quiet s_ne readiness fuel
          turns patient is_waiting m' h)
