-- ===== src/Worker/Silent.antt =====
-- A client that closes its connection without a request, in `conn_loop` and `process_request` (src/server.c,
-- src/handler.c).
use cn_cw.Common.{ℕ, ◌+◌, ◌-◌, ◌^◌, ◌≡◌, refl, true, none, some, [], List}
use cn_cw.Conn.{waiting, Conn, HttpHeader, ServerSettings}
use cn_cw.Handler.{State}
use cn_cw.Handler.Serve.{request_read, read_req_data, request_data, process_request}
use cn_cw.Http.{HttpReq}
use cn_cw.Machine.{Arena, Shared}
use cn_cw.Memory.{word, server_alloc}
use cn_cw.Outcome.{server_c, returns, asserts}
use cn_cw.PgList.{PgList}
use cn_cw.Platform.{Platform, got}
use cn_cw.Sockets.{Sockets}
use cn_cw.Worker.{Active, new_conn, fd_isset, left, in_arena, settle, settle_conn, serve}

module _ (platform : Platform) (sockets : Sockets platform)
    (headers : PgList (platform.Os) HttpHeader Conn)
    (conns : PgList (platform.Os) Active (Unit {0})) (fuel : ℕ) (req : HttpReq)
    (settings : ServerSettings) where
  open platform use {Os, read}
  open conns use {Cells}

  -- The machine on which the handler of a new connection starts.
  abbrev pub entry : ℕ → Arena → Shared Os → State platform
  entry fd arena m = record { os = m.os; g_memory_arena = some arena; client = new_conn fd }

  -- A new connection whose first read finds no byte, because the client has closed it, ends
  -- the worker in a failed assertion, wherever the buffer for the read can be allocated.
  pub serve-asserts :
      (fd address p : ℕ) (arena : Arena) (r w : List ℕ) (new : Cells) (m : Shared Os)
      (m1 : State platform) (os : Os)
      → fd_isset fd r ≡ true
      → server_alloc platform settings.read_buf_size (entry fd arena m) ≡ returns p m1
      → m1.client ≡ new_conn fd
      → read fd (word (settings.read_buf_size + 2 ^ 64 - 1)) m1.os ≡ (got [], os)
      → (m' : Shared Os) × (serve platform sockets headers conns fuel req settings waiting r w
            (record { address = address; conn = new_conn fd; arena = arena })
            new
            m
          ≡ asserts server_c m')
  unfolding serve in_arena process_request read_req_data request_read request_data left settle_conn
      settle new_conn
  serve-asserts fd address p arena r w new m m1 os ready alloc same empty =
      (record { os = os; g_memory_arena = none; client = tt }, rw (ready, alloc, same, empty) refl)
