-- ===== src/Worker/Kept.antt =====
-- Which connections `conn_loop` (src/server.c) keeps: waiting ones, and sending ones with a file.
use cn_cw.Common.{
  ℕ, zero, suc, ◌+◌, refl, sym, subst, inl, inr, none, List, [], ◌∷◌, ◌++◌, All, Bool-cases, codes,
}
use cn_cw.Conn.{Conn, HttpHeader, ServerSettings}
use cn_cw.Format.{decimal}
use cn_cw.Http.{HttpReq}
use cn_cw.Log.{info}
use cn_cw.Machine.{Shared}
use cn_cw.Memory.Neutral.{any, log_msg-Stable, server_alloc-Stable}
use cn_cw.Outcome.{Leaves, Leaves-and_then}
use cn_cw.PgList.{PgList, Appends}
use cn_cw.Platform.{
  Platform, Answer, got, failed, eacces, enotdir, enoent, eagain, ewouldblock, eintr, other,
}
use cn_cw.Sockets.{Sockets}
use cn_cw.Worker.{
  Active, Watch, fd_isset, accepted, accept_conn, selected, conn_loop, worker_turns, run_child,
  new_conn, conn_size,
}
use cn_cw.Worker.States.{Kept, then_any, AllKept, new_conn-IsFresh}
use cn_cw.Worker.Settling.{lappend-AllKept, serve_all-AllKept}
use cn_cw.Worker.Turn.{fd_set-Stable, watch_all-Stable, failed_exits}

module _ (platform : Platform) (sockets : Sockets platform)
    (headers : PgList (platform.Os) HttpHeader Conn) (appends : Appends headers)
    (conns : PgList (platform.Os) Active (Unit {0})) (conns_append : Appends conns) (fuel : ℕ)
    (req : HttpReq) (settings : ServerSettings) where
  open platform use {Os}
  open sockets use {accept, select}
  open conns use {Cells, nil, elements, lappend}

  abbrev AllKeptIs : Cells → Shared Os → Type 0
  AllKeptIs = AllKept platform conns

  nil-AllKept : All Kept (elements nil)
  nil-AllKept = subst (All Kept) (sym conns_append.elements-nil) tt

  accepted-AllKept :
      (r : Answer ℕ) (os : Os) (m : Shared Os)
      → Leaves AllKeptIs
          (λ _. ⊥)
          (accepted platform sockets headers conns fuel req settings (r, os) m)
  unfolding accepted new_conn
  accepted-AllKept (got fd) os m =
      then_any platform AllKeptIs _ _
        (server_alloc-Stable platform (λ _. Unit {0}) (any platform) conn_size
          (record m { os = os }) tt)
        (λ p m'.
          lappend-AllKept platform sockets headers appends conns conns_append fuel req settings nil
            _ m' nil-AllKept (inl (refl, (new_conn-IsFresh fd, refl))))
  accepted-AllKept (failed eagain) os m = nil-AllKept
  accepted-AllKept (failed ewouldblock) os m = nil-AllKept
  accepted-AllKept (failed eacces) os m =
      failed_exits platform (λ _. Unit {0}) (any platform) AllKeptIs eacces _ _ tt
  accepted-AllKept (failed enotdir) os m =
      failed_exits platform (λ _. Unit {0}) (any platform) AllKeptIs enotdir _ _ tt
  accepted-AllKept (failed enoent) os m =
      failed_exits platform (λ _. Unit {0}) (any platform) AllKeptIs enoent _ _ tt
  accepted-AllKept (failed eintr) os m =
      failed_exits platform (λ _. Unit {0}) (any platform) AllKeptIs eintr _ _ tt
  accepted-AllKept (failed other) os m =
      failed_exits platform (λ _. Unit {0}) (any platform) AllKeptIs other _ _ tt

  accept_conn-AllKept :
      (sock : ℕ) (r : List ℕ) (m : Shared Os)
      → Leaves AllKeptIs
          (λ _. ⊥)
          (accept_conn platform sockets headers conns fuel req settings sock r m)
  unfolding accept_conn
  accept_conn-AllKept sock r m = elim (Bool-cases (fd_isset sock r)) [
    | inl ready ↦ rw ready (accepted-AllKept (accept sock m.os).0 (accept sock m.os).1 m)
    | inr quiet_now ↦ rw quiet_now nil-AllKept
  ]

  selected-AllKept :
      (sock : ℕ) (cells : Cells) (r : Answer (List ℕ × List ℕ)) (os : Os) (m : Shared Os)
      → All Kept (elements cells)
      → Leaves AllKeptIs
          (λ _. ⊥)
          (selected platform sockets headers conns fuel req settings sock cells (r, os) m)
  unfolding selected
  selected-AllKept sock cells (got (r, w)) os m h =
      Leaves-and_then AllKeptIs (λ _. ⊥) AllKeptIs (λ _. ⊥) _ _
        (accept_conn-AllKept sock r (record m { os = os })) (λ s e. e)
        (λ new m1 h1.
          Leaves-and_then AllKeptIs (λ _. ⊥) AllKeptIs (λ _. ⊥) _ _
            (serve_all-AllKept platform sockets headers appends conns conns_append fuel req settings
              r w (elements cells) new m1 h h1)
            (λ s e. e) (λ new' m2 h2. h2))
  selected-AllKept sock cells (failed eintr) os m h = h
  selected-AllKept sock cells (failed eagain) os m h =
      failed_exits platform (λ _. Unit {0}) (any platform) AllKeptIs eagain _ _ tt
  selected-AllKept sock cells (failed ewouldblock) os m h =
      failed_exits platform (λ _. Unit {0}) (any platform) AllKeptIs ewouldblock _ _ tt
  selected-AllKept sock cells (failed eacces) os m h =
      failed_exits platform (λ _. Unit {0}) (any platform) AllKeptIs eacces _ _ tt
  selected-AllKept sock cells (failed enotdir) os m h =
      failed_exits platform (λ _. Unit {0}) (any platform) AllKeptIs enotdir _ _ tt
  selected-AllKept sock cells (failed enoent) os m h =
      failed_exits platform (λ _. Unit {0}) (any platform) AllKeptIs enoent _ _ tt
  selected-AllKept sock cells (failed other) os m h =
      failed_exits platform (λ _. Unit {0}) (any platform) AllKeptIs other _ _ tt

  -- A worker's turn keeps only connections that send a file, or that wait and from which nothing was
  -- read yet, without a buffer, a file or a block in the arena; each of them is ready for
  -- the `switch` of the next turn, and no abort of a request leaves the turn. `lappend` is as
  -- documented; nothing is said of a run that exits, fails an assertion, overruns a buffer or uses
  -- up its fuel.
  pub conn_loop-AllKept :
      (sock : ℕ) (cells : Cells) (m : Shared Os)
      → All Kept (elements cells)
      → Leaves AllKeptIs
          (λ _. ⊥)
          (conn_loop platform sockets headers conns fuel req settings sock cells m)
  unfolding conn_loop
  conn_loop-AllKept sock cells m h =
      then_any platform AllKeptIs _ _ (fd_set-Stable platform (λ _. Unit {0}) sockets sock [] m tt)
        (λ r m1.
          let start : Watch = record { read_fset = r; write_fset = []; max_fd = sock } in
          Leaves-and_then (λ _ _. Unit {0}) (λ _. ⊥) AllKeptIs (λ _. ⊥) _ _
            (watch_all-Stable platform (λ _. Unit {0}) sockets (elements cells) start m1 tt)
            (λ s e. e)
            (λ w m2 _.
              let answer = select (w.max_fd + 1) w.read_fset w.write_fset m2.os in
              selected-AllKept sock cells answer.0 answer.1 m2 h))

  worker_turns-AllKept :
      (n sock : ℕ) (cells : Cells) (m : Shared Os)
      → All Kept (elements cells)
      → Leaves AllKeptIs
          (λ _. ⊥)
          (worker_turns platform sockets headers conns fuel req settings n sock cells m)
  unfolding worker_turns
  worker_turns-AllKept zero sock cells m h = h
  worker_turns-AllKept (suc n) sock cells m h =
      Leaves-and_then AllKeptIs (λ _. ⊥) AllKeptIs (λ _. ⊥) _ _ (conn_loop-AllKept sock cells m h)
        (λ s e. e) (worker_turns-AllKept n sock)

  pub run_child-AllKept :
      (turns sock : ℕ) (m : Shared Os)
      → Leaves AllKeptIs
          (λ _. ⊥)
          (run_child platform sockets headers conns fuel req settings turns sock m)
  unfolding run_child
  run_child-AllKept turns sock m =
      then_any platform AllKeptIs _ _
        (log_msg-Stable platform (λ _. Unit {0}) (any platform) info
          (codes "accepting connections on address "
            ++ (settings.host ++ b':' ∷ decimal settings.port))
          (record m { g_memory_arena = none }) tt)
        (λ _ m1. worker_turns-AllKept turns sock nil m1 nil-AllKept)
