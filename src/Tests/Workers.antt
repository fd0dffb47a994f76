-- ===== src/Tests/Workers.antt =====
-- One turn of a worker of src/server.c, over a connection that waits and one that sends.
use cn_cw.Common.{
  ◌≢◌, ◌⊎◌, Bytes, ◌<◌, ◌≤◌, ◌≡◌, refl, inl, inr, none, some, List, [], ◌∷◌, ◌++◌, All, arith,
  codes, replicate, ◌==◌, true, if◌then◌else◌, ◌+◌, ◌-◌, ◌^◌,
}
use cn_cw.Conn.{waiting, sending, Conn}
use cn_cw.Descriptors.{one, file_one, fds}
use cn_cw.Handler.Descriptors.{Accounted, process_request-Accounted}
use cn_cw.Handler.Lasting.{Lasts}
use cn_cw.Handler.Serve.{process_request}
use cn_cw.Machine.{empty_arena, Machine, Shared}
use cn_cw.Memory.{
  server_alloc, needs_block, grow, align_up, new_block_size, minimum, get_alignment_offset, carve,
  word,
}
use cn_cw.Outcome.{server_c, Leaves, returns, overruns, asserts}
use cn_cw.Platform.{got}
use cn_cw.Tests.Lists.{lists, lists_append}
use cn_cw.Tests.System.{sockets, descriptors, lists_quiet}
use cn_cw.Tests.Toy.{ToyOs, toy, toy_os, more, toy_streams, toy_fits, toy_progress}
use cn_cw.Tests.Verdicts.{settings, blank, client}
use cn_cw.Worker.{
  selected, Active, Watch, new_conn, fd_isset, watch_all, serve, serve_all, fd_set, selected,
  accept_conn, accepted, conn_loop, in_arena,
}
use cn_cw.Worker.Descriptors.{conn_loop-Balanced}
use cn_cw.Worker.Open.{held, Balanced}
use cn_cw.Worker.Kept.{conn_loop-AllKept}
use cn_cw.Worker.States.{Kept, AllKept, new_conn-IsFresh}
use cn_cw.Worker.Order.{Accepts, selected-Turned}
use cn_cw.Worker.Served.{TurnedBehind}
use cn_cw.Handler.Delivery.{Handled, Overlong}
use cn_cw.Handler.States.{Failed}
use cn_cw.Handler.{State}
use cn_cw.Log.{stderr_fileno}
use cn_cw.Memory.Runs.{Runs}
use cn_cw.Tests.Delivery.{toy-Quiet, toy_dates, small_files}
use cn_cw.Worker.Delivered.{Caught, Reach-Delivered}
use cn_cw.Worker.Reach.{Reach, first, turn, Reach-Kept, Reach-Balanced}
use cn_cw.Worker.Silent.{entry, serve-asserts}
use cn_cw.Worker.Watching.{IsOpen, Grows, Watched, watch_all-Watched, watch_all-overruns}

-- Descriptors 3 (the listening socket), 4, 7 and 8 are open.
abbrev start : Shared ToyOs
start = record {
  os = record toy_os {
    files = λ fd. if fd == 4 then codes "GET /a.html HTTP/1.1\r\n" else codes "hello";
    open_fds = λ x. one 3 x + (one 4 x + (one 7 x + one 8 x));
  };
  g_memory_arena = none;
  client = tt;
}

abbrev waits : Active
waits = record { address = 1024; conn = new_conn 4; arena = empty_arena }

abbrev sends : Active
sends = record {
  address = 2048;
  conn = record {
    state = sending;
    sock_fd = 7;
    file_fd = some 8;
    read_buf_size = 4;
    read_buf_len = 0;
    read_buf_cursor = 0;
    read_buf = some (replicate 4 0);
  };
  arena = empty_arena;
}

abbrev two : List Active
two = waits ∷ sends ∷ []

two-Kept : All Kept two
unfolding new_conn
two-Kept = (inl (refl, (new_conn-IsFresh _, refl)), (inr (refl, (8, refl)), tt))

start-Balanced : Balanced toy descriptors 8 lists 0 two start
unfolding held fds one file_one descriptors new_conn
start-Balanced = refl

conn_loop-Balanced_example :
    Leaves
      (Balanced toy descriptors 8 lists 0)
      (λ _. ⊥)
      (conn_loop toy sockets lists lists 20 blank settings 3 two start)
conn_loop-Balanced_example =
    conn_loop-Balanced toy descriptors 8 lists lists_append lists_quiet lists lists_append
      lists_quiet 20 blank settings 0 3 two start start-Balanced

conn_loop-AllKept_example :
    Leaves
      (AllKept toy lists)
      (λ _. ⊥)
      (conn_loop toy sockets lists lists 20 blank settings 3 two start)
conn_loop-AllKept_example =
    conn_loop-AllKept toy sockets lists lists_append lists lists_append 20 blank settings 3 two
      start two-Kept

abbrev served : Machine ToyOs Conn
served = record client { os = start.os }

served-Accounted : Accounted toy descriptors lists 4 0 served
unfolding fds one file_one descriptors
served-Accounted = refl

process_request-Accounted_example :
    Lasts (Accounted toy descriptors lists 4 0) (process_request toy lists 20 blank settings served)
process_request-Accounted_example =
    process_request-Accounted toy descriptors lists lists_append lists_quiet 4 0 20 blank settings
      served served-Accounted

watch_none : Watch
watch_none = record { read_fset = 3 ∷ []; write_fset = []; max_fd = 3 }

small_sockets : All (λ a. a.conn.sock_fd < sockets.fd_setsize) two
unfolding new_conn
small_sockets = (omega arith, (omega arith, tt))

two-IsOpen : All IsOpen two
unfolding new_conn
two-IsOpen = (inl refl, (inr refl, tt))

watch_all-Watched_example :
    (w : Watch) × (watch_all toy sockets two watch_none start ≡ returns w start)
    × Grows watch_none w
    × All (Watched w) two
watch_all-Watched_example =
    watch_all-Watched toy sockets two watch_none start two-IsOpen small_sockets

-- A connection past the size of the sets.
abbrev late : Active
late = record { address = 4096; conn = new_conn 2000; arena = empty_arena }

late-IsOpen : IsOpen late
unfolding new_conn
late-IsOpen = inl refl

late_large : sockets.fd_setsize ≤ late.conn.sock_fd
unfolding new_conn
late_large = omega arith

watch_all-overruns_example :
    watch_all toy sockets (two ++ late ∷ []) watch_none start ≡ overruns start
watch_all-overruns_example =
    watch_all-overruns toy sockets two [] late watch_none start two-IsOpen small_sockets late-IsOpen
      late_large

-- The first turn: a client connects.
abbrev turned : Shared ToyOs
turned = record start { os = record start.os { brk = 4160; open_fds = more start.os.open_fds 6 } }

first_turn :
    conn_loop toy sockets lists lists 20 blank settings 3 [] start
    ≡ returns (record { address = 4096; conn = new_conn 6; arena = empty_arena } ∷ []) turned
unfolding conn_loop watch_all fd_set selected accept_conn accepted serve_all server_alloc fd_isset
first_turn = refl

abbrev Reached : List Active → Shared ToyOs → Type 0
Reached cells m =
    Reach toy sockets lists lists_append lists lists_append 20 blank settings 3 start cells m

Reach-Kept_example :
    All Kept (record { address = 4096; conn = new_conn 6; arena = empty_arena } ∷ [])
Reach-Kept_example =
    Reach-Kept toy sockets lists lists_append lists lists_append 20 blank settings 3
      (turn first first_turn)

Reach-Balanced_example :
    descriptors.opened turned.os 6
    ≡ descriptors.opened start.os 6
      + held (record { address = 4096; conn = new_conn 6; arena = empty_arena } ∷ []) 6
Reach-Balanced_example =
    Reach-Balanced toy sockets lists lists_append lists lists_append 20 blank settings 3 descriptors
      lists_quiet lists_quiet 6 (turn first first_turn)

-- The connection after the first turn.
abbrev newest : Active
newest = record { address = 4096; conn = new_conn 6; arena = empty_arena }

newest_apart : (stderr_fileno ≢ newest.conn.sock_fd) × (newest.conn.sock_fd ≢ 5)
unfolding new_conn
newest_apart = (omega arith, omega arith)

newest_waiting : newest.conn.state ≡ waiting
unfolding new_conn
newest_waiting = refl

abbrev newest_entry : State toy
newest_entry = record { os = turned.os; g_memory_arena = some empty_arena; client = new_conn 6 }

abbrev newest_sent : Bytes
newest_sent = toy_streams.sent turned.os newest.conn.sock_fd

Reach-Delivered_example :
    Runs
      (Caught toy
        (λ m. Handled toy toy_streams toy_fits settings newest_sent newest.conn m ⊎ Failed toy m)
        newest)
      (λ _. ⊥)
      (λ _. Overlong toy toy_streams toy_fits settings newest_sent newest.conn newest_entry)
      (in_arena toy newest (process_request toy lists 20 blank settings) turned)
Reach-Delivered_example =
    Reach-Delivered toy toy_streams toy_fits toy_dates sockets lists lists_append lists lists_append
      20 blank settings 3 [] [] newest turned (toy-Quiet newest.conn.sock_fd newest_apart.1)
      newest_apart.0 (turn first first_turn) refl newest_waiting toy_progress small_files
      (omega arith) (omega arith)

-- A client connects, the first connection has a request, and the second one cannot send yet.
selected-Turned_example :
    Leaves
      (λ l m.
        (front : List Active) × Accepts toy lists lists_append sockets lists lists_append 20 blank
          settings front
        × TurnedBehind toy lists lists_append sockets lists lists_append 20 blank settings
            (3 ∷ 4 ∷ [])
            []
            two
            front
            l
            m)
      (λ _. ⊥)
      (selected toy sockets lists lists 20 blank settings 3 two
        (got (3 ∷ 4 ∷ [], []), start.os)
        start)
selected-Turned_example =
    selected-Turned toy lists lists_append sockets lists lists_append 20 blank settings 3 two
      (3 ∷ 4 ∷ []) [] start.os start

-- A client that has sent nothing.
abbrev hung_up : Shared ToyOs
hung_up = record { os = toy_os; g_memory_arena = none; client = tt }

ready_socket : fd_isset 4 (4 ∷ []) ≡ true
unfolding fd_isset
ready_socket = refl

-- The connection's machine when the buffer is allocated.
abbrev buffered : Machine ToyOs Conn
buffered = record {
  os = record toy_os { brk = 69664 };
  g_memory_arena = some (record {
    blocks = record { size = 65536; used = 2048; base = 4128 } ∷ [];
    minimum_block_size = 65536;
  });
  client = new_conn 4;
}

buffer_allocated :
    server_alloc toy 2048 (entry toy sockets lists lists 20 blank settings 4 empty_arena hung_up)
    ≡ returns 4128 buffered
unfolding server_alloc needs_block grow align_up new_block_size minimum get_alignment_offset carve
buffer_allocated = refl

serve-asserts_example :
    (m : Shared ToyOs) × (serve toy sockets lists lists 20 blank settings waiting
        (4 ∷ [])
        []
        (record { address = 1024; conn = new_conn 4; arena = empty_arena })
        []
        hung_up
      ≡ asserts server_c m)
serve-asserts_example =
    serve-asserts toy sockets lists lists 20 blank settings 4 1024 4128 empty_arena (4 ∷ []) [] []
      hung_up buffered (toy.read 4 (word (settings.read_buf_size + 2 ^ 64 - 1)) buffered.os).1
      ready_socket buffer_allocated refl refl
