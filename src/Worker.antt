-- ===== src/Worker.antt =====
-- src/server.c, `conn_loop`: one turn of a worker over its connections, from `select` to the
-- connections that are served next.
pub mod Delivered
pub mod Descriptors
pub mod Fate
pub mod Kept
pub mod Open
pub mod Order
pub mod Reach
pub mod Served
pub mod Serving
pub mod Settling
pub mod Silent
pub mod States
pub mod Turn
pub mod Watching
use cn_cw.Common.{
  ℕ, zero, suc, ◌+◌, Bool, true, false, Option, none, some, List, [], ◌∷◌, ◌++◌, ltb, ◌==◌, ◌||◌,
  if◌then◌else◌, Bytes, codes,
}
use cn_cw.Conn.{
  ConnectionState, waiting, sending, complete, err_recoverable, err_unrecoverable, Conn,
  ServerSettings, HttpHeader,
}
use cn_cw.Format.{decimal}
use cn_cw.Handler.{process_request_write}
use cn_cw.Handler.Response.{error_response}
use cn_cw.Handler.Serve.{process_request}
use cn_cw.Http.{HttpReq}
use cn_cw.Http.Tables.{internal_server_error}
use cn_cw.Log.{info, error, fatal, log_msg, log_perror}
use cn_cw.Machine.{Arena, empty_arena, Store, Machine, Shared}
use cn_cw.Memory.{arena_clear, server_alloc, server_free}
use cn_cw.Outcome.{
  server_c, Outcome, returns, jumps, exits, asserts, overruns, spins, Cmd, and_then, ◌>>=◌, ◌>>◌,
}
use cn_cw.PgList.{PgList}
use cn_cw.Platform.{Platform, Answer, got, failed, eagain, ewouldblock, eintr}
use cn_cw.Sockets.{Sockets}

-- A `struct active_connection` in memory: where it stands, and its arena beside the rest.
pub record Active : Type 0 where
  pub address : ℕ
  pub conn : Conn
  pub arena : Arena

-- The sets for `select` while they are put together.
pub record Watch : Type 0 where
  pub read_fset : List ℕ
  pub write_fset : List ℕ
  pub max_fd : ℕ

unfoldable pub fd_isset : ℕ → List ℕ → Bool
fd_isset fd [] = false
fd_isset fd (x ∷ fset) = x == fd || fd_isset fd fset

unfoldable pub raise_max : ℕ → Watch → Watch
raise_max fd w = record w { max_fd = if ltb w.max_fd fd then fd else w.max_fd }

-- `sizeof(struct active_connection)`.
abbrev pub conn_size : ℕ
conn_size = 64

-- What `memset` and the assignments of `conn_loop` make of a new connection.
unfoldable pub new_conn : ℕ → Conn
new_conn fd = record {
  state = waiting;
  sock_fd = fd;
  file_fd = none;
  read_buf_size = 0;
  read_buf_len = 0;
  read_buf_cursor = 0;
  read_buf = none;
}

-- The arena that the connection has after its handler: the one that `g_memory_arena` points to.
abbrev pub arena_or : Arena → Option Arena → Arena
arena_or old none = old
arena_or old (some arena) = arena

module _ (platform : Platform) where
  open platform use {Os, close}

  -- A handler runs on the connection's arena; `setjmp` catches its jumps.
  unfoldable pub left : Active → Outcome (Machine Os Conn) (Unit {0}) → Outcome (Shared Os) Active
  left a (returns _ m) =
      returns (record a { conn = m.client; arena = arena_or a.arena m.g_memory_arena })
        (record { os = m.os; g_memory_arena = none; client = tt })
  left a (jumps m) =
      returns (record a { conn = m.client; arena = arena_or a.arena m.g_memory_arena })
        (record { os = m.os; g_memory_arena = none; client = tt })
  left a (exits f m) =
      exits f (record { os = m.os; g_memory_arena = m.g_memory_arena; client = tt })
  left a (asserts f m) =
      asserts f (record { os = m.os; g_memory_arena = m.g_memory_arena; client = tt })
  left a (overruns m) =
      overruns (record { os = m.os; g_memory_arena = m.g_memory_arena; client = tt })
  left a (spins m) = spins (record { os = m.os; g_memory_arena = m.g_memory_arena; client = tt })

  unfoldable pub in_arena : Active → Cmd (Machine Os Conn) (Unit {0}) → Cmd (Shared Os) Active
  unfolding left
  in_arena a handler m =
      left a (handler (record { os = m.os; g_memory_arena = some a.arena; client = a.conn }))

  -- `if (conn->file_fd != -1) close(conn->file_fd);`
  unfoldable pub close_file : Option ℕ → Os → Os
  close_file none os = os
  close_file (some fd) os = close fd os

  -- The label `complete`: the descriptors are closed, and the memory is freed.
  unfoldable pub drop_conn : Active → Cmd (Shared Os) (Unit {0})
  unfolding close_file arena_clear server_free
  drop_conn a m = elim m.g_memory_arena [
    | some _ ↦ asserts server_c m
    | none ↦
        let st : Store Os = record {
          arena = a.arena;
          os = close a.conn.sock_fd (close_file a.conn.file_fd m.os);
        } in
        returns tt (server_free platform a.address (record m { os = (arena_clear platform st).os }))
  ]

module _ (platform : Platform) (sockets : Sockets platform) where
  open platform use {Os}
  open sockets use {select, fd_setsize, accept}

  -- `FD_SET`; a descriptor past the set's size is a write outside of it.
  unfoldable pub fd_set : ℕ → List ℕ → Cmd (Shared Os) (List ℕ)
  fd_set fd fset m = if ltb fd fd_setsize then returns (fd ∷ fset) m else overruns m

  -- The `switch` of the first `foreach`.
  unfoldable pub watch_in : ConnectionState → ℕ → Watch → Cmd (Shared Os) Watch
  unfolding fd_set
  watch_in waiting fd w m =
      and_then (fd_set fd w.read_fset m) (λ fset. returns (record w { read_fset = fset }))
  watch_in sending fd w m =
      and_then (fd_set fd w.write_fset m) (λ fset. returns (record w { write_fset = fset }))
  watch_in complete fd w m = asserts server_c m
  watch_in err_recoverable fd w m = asserts server_c m
  watch_in err_unrecoverable fd w m = asserts server_c m

  unfoldable pub watch_all : List Active → Watch → Cmd (Shared Os) Watch
  unfolding watch_in raise_max
  watch_all [] w m = returns w m
  watch_all (a ∷ rest) w m =
      and_then (watch_in a.conn.state a.conn.sock_fd w m)
        (λ w'. watch_all rest (raise_max a.conn.sock_fd w'))

  module _ (headers : PgList Os HttpHeader Conn) (conns : PgList Os Active (Unit {0})) (fuel : ℕ)
      (req : HttpReq) (settings : ServerSettings) where
    open conns use {Cells, nil, elements, lappend, list_free}

    -- The second `switch`, on the state that the handler has left.
    unfoldable pub settle : ConnectionState → Active → Cells → Cmd (Shared Os) Cells
    unfolding drop_conn in_arena error_response log_msg
    settle waiting a new m = asserts server_c m
    settle sending a new m = elim m.g_memory_arena [
      | some _ ↦ asserts server_c m
      | none ↦ lappend new a m
    ]
    settle complete a new m = and_then (drop_conn platform a m) (λ _. returns new)
    settle err_recoverable a new m =
        and_then
          (in_arena platform a (error_response platform headers fuel internal_server_error) m)
          (λ a' m1. and_then (drop_conn platform a' m1) (λ _. returns new))
    settle err_unrecoverable a new m =
        and_then
          (log_msg platform error (codes "uncrecoverable error occured, aborting connection") m)
          (λ _ m1. and_then (drop_conn platform a m1) (λ _. returns new))

    unfoldable pub settle_conn : Cells → Active → Cmd (Shared Os) Cells
    unfolding settle
    settle_conn new a = settle a.conn.state a new

    -- The first `switch` of the second `foreach`.
    unfoldable pub serve :
        ConnectionState → List ℕ → List ℕ → Active → Cells → Cmd (Shared Os) Cells
    unfolding settle_conn in_arena process_request process_request_write fd_isset
    serve waiting read_fset write_fset a new m =
        if fd_isset a.conn.sock_fd read_fset
        then and_then (in_arena platform a (process_request platform headers fuel req settings) m)
            (settle_conn new)
        else lappend new a m
    serve sending read_fset write_fset a new m =
        if fd_isset a.conn.sock_fd write_fset
        then and_then (in_arena platform a (process_request_write platform fuel) m)
            (settle_conn new)
        else lappend new a m
    serve complete read_fset write_fset a new m = asserts server_c m
    serve err_recoverable read_fset write_fset a new m = asserts server_c m
    serve err_unrecoverable read_fset write_fset a new m = asserts server_c m

    unfoldable pub serve_all : List ℕ → List ℕ → List Active → Cells → Cmd (Shared Os) Cells
    unfolding serve
    serve_all read_fset write_fset [] new m = returns new m
    serve_all read_fset write_fset (a ∷ rest) new m =
        and_then (serve a.conn.state read_fset write_fset a new m)
          (serve_all read_fset write_fset rest)

    unfoldable pub accepted : Answer ℕ × Os → Cmd (Shared Os) Cells
    unfolding server_alloc new_conn log_perror
    accepted (failed eagain, os) m = returns nil (record m { os = os })
    accepted (failed ewouldblock, os) m = returns nil (record m { os = os })
    accepted (failed err, os) m =
        and_then (log_perror platform fatal err (codes "accept failed") (record m { os = os }))
          (λ _ m1. exits server_c m1)
    accepted (got fd, os) m =
        and_then (server_alloc platform conn_size (record m { os = os }))
          (λ p. lappend nil (record { address = p; conn = new_conn fd; arena = empty_arena }))

    unfoldable pub accept_conn : ℕ → List ℕ → Cmd (Shared Os) Cells
    unfolding accepted fd_isset
    accept_conn sock_fd read_fset m =
        if fd_isset sock_fd read_fset then accepted (accept sock_fd m.os) m else returns nil m

    -- From the answer of `select` on.
    unfoldable pub selected : ℕ → Cells → Answer (List ℕ × List ℕ) × Os → Cmd (Shared Os) Cells
    unfolding accept_conn serve_all log_perror
    selected sock_fd active_conns (failed eintr, os) m = returns active_conns (record m { os = os })
    selected sock_fd active_conns (failed err, os) m =
        and_then (log_perror platform fatal err (codes "select failed") (record m { os = os }))
          (λ _ m1. exits server_c m1)
    selected sock_fd active_conns (got (read_fset, write_fset), os) m =
        and_then (accept_conn sock_fd read_fset (record m { os = os })) (λ new m1.
          and_then (serve_all read_fset write_fset (elements active_conns) new m1)
            (λ new' m2. returns new' (list_free active_conns m2)))

    -- `sock_fd` is `master->sock_fd`, and the list is `worker->active_conns`.
    unfoldable pub conn_loop : ℕ → Cells → Cmd (Shared Os) Cells
    unfolding watch_all fd_set selected
    conn_loop sock_fd active_conns m = and_then (fd_set sock_fd [] m) (λ read_fset m1.
        let start : Watch = record { read_fset = read_fset; write_fset = []; max_fd = sock_fd } in
        and_then (watch_all (elements active_conns) start m1) (λ w m2.
          selected sock_fd active_conns (select (w.max_fd + 1) w.read_fset w.write_fset m2.os) m2))

    -- The first turns of `for (;;)`.
    unfoldable pub worker_turns : ℕ → ℕ → Cells → Cmd (Shared Os) Cells
    worker_turns zero sock_fd active_conns m = returns active_conns m
    worker_turns (suc n) sock_fd active_conns m =
        and_then (conn_loop sock_fd active_conns m) (worker_turns n sock_fd)

    -- `run_child`, up to a number of turns of its endless loop.
    unfoldable pub run_child : ℕ → ℕ → Cmd (Shared Os) Cells
    unfolding worker_turns log_msg decimal
    run_child turns sock_fd m =
        and_then
          (log_msg platform info
            (codes "accepting connections on address "
              ++ (settings.host ++ b':' ∷ decimal settings.port))
            (record m { g_memory_arena = none }))
          (λ _. worker_turns turns sock_fd nil)
