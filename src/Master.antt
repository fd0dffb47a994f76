-- ===== src/Master.antt =====
-- src/server.c: the master process. It checks the settings, opens the listening socket, forks the workers, and
-- kills them when it cannot fork all of them.
pub mod Children
pub mod Fresh
pub mod Ready
pub mod Setup
pub mod Startup
pub mod Workers
use cn_cw.Common.{
  ℕ, zero, suc, ◌+◌, ◌*◌, ◌^◌, Bool, true, false, Option, none, some, List, [], ◌∷◌, ◌++◌, ltb,
  ◌==◌, if◌then◌else◌, Bytes, codes, replicate,
}
use cn_cw.Conn.{Conn, ServerSettings, HttpHeader}
use cn_cw.Format.{decimal}
use cn_cw.Handler.Response.{set_nonblocking}
use cn_cw.Http.{HttpReq}
use cn_cw.Log.{info, trace, fatal, log_msg, log_perror}
use cn_cw.Machine.{Shared}
use cn_cw.Memory.{word}
use cn_cw.Outcome.{returns, overruns, spins, Cmd, and_then}
use cn_cw.PgList.{PgList}
use cn_cw.Platform.{Platform, Answer, got, failed, Errno}
use cn_cw.Sockets.{Sockets, Processes}
use cn_cw.Worker.{Active, run_child}

-- `struct master_state` without the settings; a pid of -1 is `none`, and `pids_address` is where
-- the array of `pids` stands.
pub record MasterState : Type 0 where
  pub sock_fd : ℕ
  pub pid_count : ℕ
  pub pids_address : ℕ
  pub pids : List (Option ℕ)

-- `state->pids[i] = pid`.
unfoldable pub set_pid : ℕ → ℕ → List (Option ℕ) → List (Option ℕ)
set_pid i pid [] = []
set_pid zero pid (p ∷ ps) = some pid ∷ ps
set_pid (suc i) pid (p ∷ ps) = p ∷ set_pid i pid ps

-- The settings of src/main.c; what its initialiser leaves out is zero.
unfoldable pub main_settings : ServerSettings
main_settings = record {
  uri_length_limit = 4096;
  host = codes "127.0.0.1";
  port = 8000;
  process_count = 8;
  listen_backlog = 100;
  read_buf_size = 2 ^ 15;
  req_size_limit = 2 ^ 10;
  static_dir = codes "/Users/holod/study/BMSTU/sem7_cn_cw";
  log_level = trace;
  log_filename = none;
  log_to_stdout = false;
}

module _ (platform : Platform) where
  open platform use {Os, close, free}

  -- A message, and the answer `false`.
  unfoldable pub refuse : Bytes → Cmd (Shared Os) Bool
  unfolding log_msg
  refuse text m = and_then (log_msg platform fatal text m) (λ _. returns false)

  unfoldable pub validate_settings : ServerSettings → Cmd (Shared Os) Bool
  unfolding refuse decimal
  validate_settings settings m =
      if settings.process_count == 0
      then refuse (codes "invalid process count " ++ decimal settings.process_count) m
      else if settings.uri_length_limit == 0
      then refuse (codes "invalid uri length limit (most be nonzero)") m
      else if settings.listen_backlog == 0
      then refuse (codes "listen backlog size too small") m
      else returns true m

  -- A message with `errno`, and the socket is closed.
  unfoldable pub abandon : ℕ → Errno → Bytes → Cmd (Shared Os) (Option ℕ)
  unfolding log_perror
  abandon sock_fd err text m =
      and_then (log_perror platform fatal err text m)
        (λ _ m'. returns none (record m' { os = close sock_fd m'.os }))

  module _ (sockets : Sockets platform) where
    open sockets use {socket, setsockopt, so_reuseaddr, so_reuseport, bind, listen}

    -- A call on the socket, and what follows it.
    unfoldable pub on_socket :
        ℕ → Bytes → Answer (Unit {0}) × Os → Cmd (Shared Os) (Option ℕ) → Cmd (Shared Os) (Option ℕ)
    unfolding abandon
    on_socket sock_fd text (failed err, os) next m = abandon sock_fd err text (record m { os = os })
    on_socket sock_fd text (got _, os) next m = next (record m { os = os })

    -- `listen` and the end of `init_socket`.
    unfoldable pub start_listening : ServerSettings → ℕ → Cmd (Shared Os) (Option ℕ)
    unfolding on_socket
    start_listening settings sock_fd m =
        on_socket sock_fd (codes "listen failed") (listen sock_fd settings.listen_backlog m.os)
          (returns (some sock_fd)) m

    unfoldable pub bind_address : ServerSettings → ℕ → Cmd (Shared Os) (Option ℕ)
    unfolding on_socket start_listening
    bind_address settings sock_fd m =
        on_socket sock_fd (codes "failed to bind socket to address")
          (bind sock_fd settings.host settings.port m.os) (start_listening settings sock_fd) m

    unfoldable pub reuse_port : ServerSettings → ℕ → Cmd (Shared Os) (Option ℕ)
    unfolding on_socket bind_address
    reuse_port settings sock_fd m =
        on_socket sock_fd (codes "setsockopt error") (setsockopt sock_fd so_reuseport m.os)
          (bind_address settings sock_fd) m

    unfoldable pub reuse_address : ServerSettings → ℕ → Cmd (Shared Os) (Option ℕ)
    unfolding on_socket reuse_port
    reuse_address settings sock_fd m =
        on_socket sock_fd (codes "setsockopt error") (setsockopt sock_fd so_reuseaddr m.os)
          (reuse_port settings sock_fd) m

    unfoldable pub socket_made : ServerSettings → Answer ℕ × Os → Cmd (Shared Os) (Option ℕ)
    unfolding on_socket reuse_address set_nonblocking log_perror
    socket_made settings (failed err, os) m =
        and_then
          (log_perror platform fatal err (codes "failed to create socket") (record m { os = os }))
          (λ _. returns none)
    socket_made settings (got sock_fd, os) m =
        on_socket sock_fd (codes "failed to set socket nonblocking")
          (set_nonblocking platform sock_fd os) (reuse_address settings sock_fd)
          (record m { os = os })

    -- The socket, where the function returns true.
    unfoldable pub init_socket : ServerSettings → Cmd (Shared Os) (Option ℕ)
    unfolding socket_made
    init_socket settings m = socket_made settings (socket m.os) m

    module _ (processes : Processes platform) where
      open processes use {malloc, fork, kill, waitpid, sleep}

      -- The end of `init_master`.
      unfoldable pub with_socket :
          ServerSettings → ℕ → Option ℕ → Cmd (Shared Os) (Option MasterState)
      with_socket settings pids_address none m =
          returns none (record m { os = free pids_address m.os })
      with_socket settings pids_address (some sock_fd) m =
          returns
            (some (record {
              sock_fd = sock_fd;
              pid_count = settings.process_count;
              pids_address = pids_address;
              pids = replicate settings.process_count none;
            }))
            m

      -- The array of `pids` has the bytes that the product, which may wrap around, asks for.
      unfoldable pub with_pids :
          ServerSettings → Option ℕ × Os → Cmd (Shared Os) (Option MasterState)
      unfolding init_socket with_socket log_msg
      with_pids settings (none, os) m =
          and_then
            (log_msg platform fatal (codes "failed to allocate memory") (record m { os = os }))
            (λ _. returns none)
      with_pids settings (some p, os) m =
          if ltb (word (settings.process_count * 4)) (settings.process_count * 4)
          then overruns (record m { os = os })
          else and_then (init_socket settings (record m { os = os })) (with_socket settings p)

      unfoldable pub init_master : ServerSettings → Cmd (Shared Os) (Option MasterState)
      unfolding with_pids
      init_master settings m =
          with_pids settings (malloc (word (settings.process_count * 4)) m.os) m

      unfoldable pub kill_workers : List (Option ℕ) → Os → Os
      kill_workers [] os = os
      kill_workers (none ∷ pids) os = kill_workers pids os
      kill_workers (some pid ∷ pids) os = kill_workers pids (waitpid pid (kill pid os))

      -- `for (;;) sleep(100);`, for some rounds.
      unfoldable pub idle : ℕ → Cmd (Shared Os) Bool
      idle zero m = spins m
      idle (suc n) m = idle n (record m { os = sleep 100 m.os })

      module _ (headers : PgList Os HttpHeader Conn) (conns : PgList Os Active (Unit {0}))
          (fuel : ℕ) (req : HttpReq) (turns : ℕ) (settings : ServerSettings) where
        -- The answer of `fork` for the worker `i`; `next` creates the workers behind it. The child
        -- does not come back.
        unfoldable pub forked :
            ℕ
            → MasterState
            → (MasterState → Cmd (Shared Os) Bool)
            → Answer ℕ × Os
            → Cmd (Shared Os) Bool
        unfolding kill_workers run_child log_msg log_perror decimal set_pid
        forked i state next (failed err, os) m =
            and_then (log_perror platform fatal err (codes "fork failed") (record m { os = os }))
              (λ _ m1. returns false (record m1 { os = kill_workers state.pids m1.os }))
        forked i state next (got pid, os) m =
            if pid == 0
            then and_then
                (run_child platform sockets headers conns fuel req settings turns state.sock_fd
                  (record m { os = os }))
                (λ _. spins)
            else and_then
                (log_msg platform info (codes "created worker with pid " ++ decimal pid)
                  (record m { os = os }))
                (λ _. next (record state { pids = set_pid i pid state.pids }))

        -- `todo` workers are still to be created, the first of them at `i`.
        unfoldable pub create_workers : ℕ → ℕ → MasterState → Cmd (Shared Os) Bool
        unfolding forked idle
        create_workers zero i state m = idle turns m
        create_workers (suc todo) i state m =
            forked i state (create_workers todo (i + 1)) (fork m.os) m

        unfoldable pub run_master : MasterState → Cmd (Shared Os) Bool
        unfolding create_workers log_msg decimal
        run_master state m =
            and_then
              (log_msg platform info
                (codes "creating " ++ (decimal settings.process_count ++ codes " workers")) m)
              (λ _. create_workers settings.process_count 0 state)

        unfoldable pub master_ready : Option MasterState → Cmd (Shared Os) Bool
        unfolding run_master log_msg
        master_ready none m = returns false m
        master_ready (some state) m =
            and_then (log_msg platform info (codes "initialized master") m) (λ _. run_master state)

        unfoldable pub validated : Bool → Cmd (Shared Os) Bool
        unfolding init_master master_ready log_msg
        validated false m = returns false m
        validated true m =
            and_then (log_msg platform info (codes "validated settings") m)
              (λ _ m1. and_then (init_master settings m1) master_ready)

        unfoldable pub run_server : Cmd (Shared Os) Bool
        unfolding validate_settings validated log_msg
        run_server m =
            and_then (log_msg platform info (codes "initializing master") m)
              (λ _ m1. and_then (validate_settings settings m1) validated)
