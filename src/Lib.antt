-- ===== src/Lib.antt =====
-- cn_cw: a static file server in C with one process per worker, each of which serves its
-- connections from one `select` loop.
--
-- The parts, and the files that model them:
--   * src/http.c and the enums of src/server.h, the request line and the tables: Http.antt
--     (`parse_http_req` and its steps, with pointers as indices into the string), Http/Tables.antt
--     (methods, content types, status codes), Http/Tables/Laws.antt (the tables against tables of
--     their own), Http/Request.antt (a grammar of request lines), with Http/Request/Accepts.antt,
--     and Http/Request/Pieces.antt and Http/Request/Sound.antt, for the two directions,
--     Http/Request/Refuses.antt, Http/Request/Reasons.antt (what is wrong with other texts) and
--     Http/Request/Blames.antt (that the answer says so), and Http/Request/Allocates.antt for what
--     the parser does to memory.
--   * src/memory.c, the arena that each connection allocates from: Machine.antt (blocks, from the
--     current one on), Memory.antt (`arena_alloc`, `arena_clear`, and `server_alloc` with its kin,
--     which use the arena that `g_memory_arena` points to or `calloc`), Memory/Layout.antt (the
--     invariant), Memory/Alloc.antt (allocation keeps it), Memory/Realloc.antt (`arena_realloc`,
--     `server_realloc`, and the copy), Memory/Neutral.antt (what allocation and the log leave
--     alone), Memory/Proper.antt and Memory/Runs.antt (how they end).
--   * The log of src/server.c (`log_msg`, `log_perror`): Log.antt, Log/Bounds.antt for what of the
--     buffer is read, and Log/Sure.antt for the lines that fit it.
--   * src/handler.c, one request from its read to the last byte of the response: Handler/Serve.antt
--     (`read_req_data`, `resolve_path`, `get_file_info`, `serve_get_request`, `serve_head_request`,
--     `process_request`), Handler/Response.antt (`send_response`, `error_response`), Handler.antt
--     (the loop of `process_request_write`). Proofs: Handler/Streams.antt (files, sockets and the
--     buffer), Handler/Flows.antt, Handler/Rounds.antt and Handler/Stream.antt (the bytes of the
--     file through the loop), Handler/Moves.antt and Handler/Visits.antt (many calls of the loop),
--     Handler/Response/Head.antt (the text of a response), Handler/Response/Built.antt,
--     Handler/Response/Date.antt, Handler/Response/Errors.antt and Handler/Response/Found.antt (the
--     headers), Handler/Quiet.antt (what leaves files and sockets alone), Handler/Delivery.antt
--     (what a request is to bring about) with its children Heads, Files, Found, Turned,
--     Errors, Paths, Served, Reading, Requests and Whole (that it does), and Ended and Completed
--     (with the later calls of `process_request_write`),
--     Handler/Paths.antt (the paths), Handler/Asked.antt (what a URI and an error stand for), and for the states of a connection Handler/Keeps.antt,
--     Handler/States.antt, Handler/Answers.antt, Handler/Files.antt, Handler/Parsing.antt and
--     Handler/Verdicts.antt. Handler/Lasting.antt and its children carry a property of the caller's
--     choice through a request, and Handler/Descriptors.antt takes the descriptors for it.
--   * The workers of src/server.c: Worker.antt (`conn_loop` as one turn over the list of
--     connections, and `run_child` for a number of turns), which calls the handlers in the arena of
--     each connection and catches their jumps. Proofs: Worker/Watching.antt (the sets for
--     `select`), Worker/States.antt, Worker/Settling.antt and Worker/Kept.antt (the states of the
--     connections), Worker/Open.antt, Worker/Serving.antt and Worker/Descriptors.antt (what is
--     open), with Worker/Turn.antt for what leaves both alone, Worker/Reach.antt (every state that
--     a worker can reach), Worker/Delivered.antt (a request in a worker), Worker/Fate.antt, Worker/Served.antt and Worker/Order.antt (a specification of the turn by
--     steps, and that it is met), Worker/Silent.antt (a client that sends nothing).
--   * The master of src/server.c and src/main.c: Master.antt (`validate_settings`, `init_socket`,
--     `init_master`, `kill_workers`, `run_master`, `run_server`, `main_settings`), which runs the
--     worker in the child of `fork`. Proofs: Master/Setup.antt and Master/Startup.antt (socket and
--     settings), Master/Ready.antt (`init_master`), Master/Children.antt (processes),
--     Master/Fresh.antt (no process before `fork`), Master/Workers.antt (the loop of `fork`).
--   * Shared by all: Outcome.antt (how C code leaves, with the file that an exit or a failed assertion stands in), Conn.antt (`struct active_connection`,
--     `struct server_settings`), Format.antt (`%d`, `%02d` and the cut of `snprintf`),
--     Platform.antt and Sockets.antt (the calls of the system), Descriptors.antt (which of them
--     open and close), PgList.antt (the list package), Common.antt and its children (tests on
--     numbers, lists and C strings over native numbers), Tests.antt (examples over a platform of
--     lists).
--
-- State is passed explicitly: a `Machine` is the system's own state, the arena that is in use, and
-- the connection that is served; between requests, and in the master, there is no connection
-- (`Shared`). A command returns, or leaves by `abort_req` (`jumps`), by `exit`, by a failed
-- `assert`, or by an access outside of an object (`overruns`), which is where the model of that run
-- ends. System calls are fields of `Platform`, and what the proofs need of them stands in records
-- of their own: `Allocates` (Platform.antt) for `calloc`, `LogsFit` (Log/Bounds.antt) for times,
-- process ids and error texts, `Streams` and `Progress` (Handler/Streams.antt) for `read` and
-- `write`, `Quiet` (Handler/Quiet.antt) for the calls that leave files and sockets alone,
-- `Readiness` (Handler/Moves.antt) for a socket that takes bytes, `Appends` (PgList.antt) for `lappend`, `Descriptors` and `OpensNothing`
-- (Descriptors.antt) for what is open, `Children` (Master/Children.antt) for processes. `size_t` is
-- a number below 2 ^ 64, with `word` at each operation that may wrap around. Strings are lists of
-- bytes, without the NUL except where it is read.
--
-- Fuel: `process_request_write` loops without a bound of its own. Its fuel counts rounds, and more
-- rounds than there are bytes to send, in the file and in the buffer, are enough where `write`
-- takes at least a byte at a time. The endless loops of a worker and of the master run for a number
-- of turns, which the theorems leave open: what is shown holds after each of them.
--
-- Not modelled: the time that `sleep` and `select` take, signals other than the one that ends a
-- worker, the build files, and src/pg_list.c, a copy of the list package of PostgreSQL.
mod Common
pub mod Conn
pub mod Handler
pub mod Http
pub mod Descriptors
pub mod Format
pub mod Log
pub mod Machine
pub mod Master
pub mod Memory
pub mod Outcome
pub mod PgList
pub mod Platform
pub mod Sockets
mod Tests
pub mod Worker
