-- ===== src/Worker/Descriptors.antt =====
-- `conn_loop` (src/server.c) loses no descriptor: what it has open, beside what its caller has, its connections
-- hold.
use cn_cw.Common.{
  ℕ, zero, suc, ◌+◌, ◌≡◌, refl, ap, ◌∙◌, inl, inr, none, List, [], ◌∷◌, ◌++◌, arith, Bool-cases,
  Bytes, codes,
}
use cn_cw.Conn.{Conn, HttpHeader, ServerSettings}
use cn_cw.Descriptors.{Descriptors, OpensNothing, one, file_one, fds}
use cn_cw.Http.{HttpReq}
use cn_cw.Format.{decimal}
use cn_cw.Log.{info, fatal}
use cn_cw.Machine.{Shared, empty_arena}
use cn_cw.Memory.Neutral.{Stable-and_then, log_msg-Stable, server_alloc-Stable}
use cn_cw.Log.{log_perror}
use cn_cw.Outcome.{server_c, returns, exits, and_then, Leaves, Leaves-and_then}
use cn_cw.PgList.{PgList, Appends}
use cn_cw.Platform.{
  Platform, Answer, got, failed, Errno, eacces, enotdir, enoent, eagain, ewouldblock, eintr, other,
}
use cn_cw.Sockets.{Sockets}
use cn_cw.Worker.{
  Active, Watch, fd_isset, serve_all, accepted, accept_conn, selected, conn_loop, worker_turns,
  run_child, new_conn, conn_size,
}
use cn_cw.Worker.Open.{held, Opened, Opened-Neutral, Holding, Balanced}
use cn_cw.Worker.Serving.{lappend-Balanced, serve_all-Balanced}
use cn_cw.Worker.Turn.{fd_set-Stable, watch_all-Stable, failed_exits}

module _ (platform : Platform) {sockets : Sockets platform}
    (descriptors : Descriptors platform sockets) (x : ℕ)
    (headers : PgList (platform.Os) HttpHeader Conn) (appends : Appends headers)
    (quiet : OpensNothing descriptors headers) (conns : PgList (platform.Os) Active (Unit {0}))
    (conns_append : Appends conns) (conns_quiet : OpensNothing descriptors conns) where
  open platform use {Os}
  open sockets use {accept, select}
  open descriptors use {opened, select_opened, accept_got, accept_failed}
  open conns use {Cells, nil, elements, lappend, list_free}

  abbrev OpenedIs : ℕ → Shared Os → Type 0
  OpenedIs = Opened platform descriptors x

  abbrev HoldingIs : ℕ → Active → Shared Os → Type 0
  HoldingIs = Holding platform descriptors x

  abbrev BalancedIs : ℕ → Cells → Shared Os → Type 0
  BalancedIs = Balanced platform descriptors x conns

  module _ (fuel : ℕ) (req : HttpReq) (settings : ServerSettings) where
    gives_up :
        {A : Type 0} (Q : A → Shared Os → Type 0) (n : ℕ) (err : Errno) (text : Bytes)
        (m : Shared Os)
        → OpenedIs n m
        → Leaves Q
            (λ _. ⊥)
            (and_then (log_perror platform fatal err text m) (λ _ m1. exits server_c m1))
    gives_up Q n err text m h =
        failed_exits platform (OpenedIs n) (Opened-Neutral platform descriptors x n) Q err text m h

    nil-Balanced : (base : ℕ) (m : Shared Os) → opened m.os x ≡ base → BalancedIs base nil m
    unfolding held
    nil-Balanced base m h = h ∙ omega (arith, ap (λ es. held es x) conns_append.elements-nil)

    none_accepted :
        (base sock : ℕ) (err : Errno) (os : Os) (m : Shared Os)
        → accept sock m.os ≡ (failed err, os)
        → opened m.os x ≡ base
        → BalancedIs base nil (record m { os = os })
    none_accepted base sock err os m e h =
        nil-Balanced base (record m { os = os }) (accept_failed sock m.os x e ∙ h)

    new_conn_held :
        (base fd : ℕ) → base + one fd x ≡ base + (held (elements nil) x + fds (new_conn fd) x)
    unfolding held fds file_one new_conn
    new_conn_held base fd = omega (arith, ap (λ es. held es x) conns_append.elements-nil)

    accepted-Balanced :
        (base sock : ℕ) (r : Answer ℕ) (os : Os) (m : Shared Os)
        → accept sock m.os ≡ (r, os)
        → opened m.os x ≡ base
        → Leaves
            (BalancedIs base)
            (λ _. ⊥)
            (accepted platform sockets headers conns fuel req settings (r, os) m)
    unfolding accepted
    accepted-Balanced base sock (got fd) os m e h =
        let m1 : Shared Os = record m { os = os } in
        let more : opened os x ≡ base + one fd x =
          accept_got sock m.os x e ∙ ap (λ n. n + one fd x) h in
        Stable-and_then (OpenedIs (base + one fd x)) (BalancedIs base) (λ _. ⊥) _ _
          (server_alloc-Stable platform (OpenedIs (base + one fd x))
            (Opened-Neutral platform descriptors x (base + one fd x)) conn_size m1 more)
          (λ p m2 h2.
            lappend-Balanced platform descriptors x headers appends quiet conns conns_append
              conns_quiet base nil (record { address = p; conn = new_conn fd; arena = empty_arena })
              m2 (h2 ∙ new_conn_held base fd))
    accepted-Balanced base sock (failed eagain) os m e h = none_accepted base sock eagain os m e h
    accepted-Balanced base sock (failed ewouldblock) os m e h =
        none_accepted base sock ewouldblock os m e h
    accepted-Balanced base sock (failed eacces) os m e h =
        gives_up _ base eacces _ _ (accept_failed sock m.os x e ∙ h)
    accepted-Balanced base sock (failed enotdir) os m e h =
        gives_up _ base enotdir _ _ (accept_failed sock m.os x e ∙ h)
    accepted-Balanced base sock (failed enoent) os m e h =
        gives_up _ base enoent _ _ (accept_failed sock m.os x e ∙ h)
    accepted-Balanced base sock (failed eintr) os m e h =
        gives_up _ base eintr _ _ (accept_failed sock m.os x e ∙ h)
    accepted-Balanced base sock (failed other) os m e h =
        gives_up _ base other _ _ (accept_failed sock m.os x e ∙ h)

    accept_conn-Balanced :
        (base sock : ℕ) (r : List ℕ) (m : Shared Os)
        → opened m.os x ≡ base
        → Leaves
            (BalancedIs base)
            (λ _. ⊥)
            (accept_conn platform sockets headers conns fuel req settings sock r m)
    unfolding accept_conn
    accept_conn-Balanced base sock r m h = elim (Bool-cases (fd_isset sock r)) [
      | inl ready ↦
          rw ready (accepted-Balanced base sock (accept sock m.os).0 (accept sock m.os).1 m refl h)
      | inr quiet_now ↦ rw quiet_now (nil-Balanced base m h)
    ]

    -- The turn after `select` has chosen the descriptors that are ready.
    chosen-Balanced :
        (base sock : ℕ) (cells : Cells) (r w : List ℕ) (m : Shared Os)
        → BalancedIs base cells m
        → Leaves
            (BalancedIs base)
            (λ _. ⊥)
            (and_then
              (accept_conn platform sockets headers conns fuel req settings sock r m)
              (λ new m1.
                and_then
                  (serve_all platform sockets headers conns fuel req settings r w
                    (elements cells)
                    new
                    m1)
                  (λ new' m2. returns new' (list_free cells m2))))
    chosen-Balanced base sock cells r w m h =
        Leaves-and_then (BalancedIs (base + held (elements cells) x)) (λ _. ⊥) (BalancedIs base)
          (λ _. ⊥) _ _ (accept_conn-Balanced (base + held (elements cells) x) sock r m h) (λ s e. e)
          (λ new m1 h1.
            Leaves-and_then (BalancedIs base) (λ _. ⊥) (BalancedIs base) (λ _. ⊥) _ _
              (serve_all-Balanced platform descriptors x headers appends quiet conns conns_append
                conns_quiet fuel req settings base r w (elements cells) new m1 h1)
              (λ s e. e) (λ new' m2 h2. conns_quiet.list_free_opened cells m2 x ∙ h2))

    selected-Balanced :
        (base sock : ℕ) (cells : Cells) (r : Answer (List ℕ × List ℕ)) (os : Os) (m : Shared Os)
        → BalancedIs base cells (record m { os = os })
        → Leaves
            (BalancedIs base)
            (λ _. ⊥)
            (selected platform sockets headers conns fuel req settings sock cells (r, os) m)
    unfolding selected
    selected-Balanced base sock cells (got (r, w)) os m h =
        chosen-Balanced base sock cells r w (record m { os = os }) h
    selected-Balanced base sock cells (failed eintr) os m h = h
    selected-Balanced base sock cells (failed eagain) os m h = gives_up _ _ eagain _ _ h
    selected-Balanced base sock cells (failed ewouldblock) os m h = gives_up _ _ ewouldblock _ _ h
    selected-Balanced base sock cells (failed eacces) os m h = gives_up _ _ eacces _ _ h
    selected-Balanced base sock cells (failed enotdir) os m h = gives_up _ _ enotdir _ _ h
    selected-Balanced base sock cells (failed enoent) os m h = gives_up _ _ enoent _ _ h
    selected-Balanced base sock cells (failed other) os m h = gives_up _ _ other _ _ h

    -- A turn of `conn_loop` that returns leaks no descriptor and closes none of the caller's: if what
    -- is open before it is what the caller has and what the connections hold, so it is after it,
    -- for the connections that are kept, whatever requests come and whatever calls fail. The
    -- calls of the system and of the list package are as documented. No jump leaves the turn;
    -- nothing is said of one that exits, fails an assertion, overruns a buffer or uses up its fuel.
    pub conn_loop-Balanced :
        (base sock : ℕ) (cells : Cells) (m : Shared Os)
        → BalancedIs base cells m
        → Leaves
            (BalancedIs base)
            (λ _. ⊥)
            (conn_loop platform sockets headers conns fuel req settings sock cells m)
    unfolding conn_loop
    conn_loop-Balanced base sock cells m h =
        let n = base + held (elements cells) x in
        Stable-and_then (OpenedIs n) (BalancedIs base) (λ _. ⊥) _ _
          (fd_set-Stable platform (OpenedIs n) sockets sock [] m h)
          (λ r m1 h1.
            let start : Watch = record { read_fset = r; write_fset = []; max_fd = sock } in
            Stable-and_then (OpenedIs n) (BalancedIs base) (λ _. ⊥) _ _
              (watch_all-Stable platform (OpenedIs n) sockets (elements cells) start m1 h1)
              (λ w m2 h2.
                let answer = select (w.max_fd + 1) w.read_fset w.write_fset m2.os in
                selected-Balanced base sock cells answer.0 answer.1 m2
                  (select_opened _ _ _ m2.os x ∙ h2)))

    worker_turns-Balanced :
        (n base sock : ℕ) (cells : Cells) (m : Shared Os)
        → BalancedIs base cells m
        → Leaves
            (BalancedIs base)
            (λ _. ⊥)
            (worker_turns platform sockets headers conns fuel req settings n sock cells m)
    unfolding worker_turns
    worker_turns-Balanced zero base sock cells m h = h
    worker_turns-Balanced (suc n) base sock cells m h =
        Leaves-and_then (BalancedIs base) (λ _. ⊥) (BalancedIs base) (λ _. ⊥) _ _
          (conn_loop-Balanced base sock cells m h) (λ s e. e) (worker_turns-Balanced n base sock)

    -- So a worker, however long it runs, has nothing open but what it started with and what its
    -- connections hold.
    pub run_child-Balanced :
        (turns sock : ℕ) (m : Shared Os)
        → Leaves
            (BalancedIs (opened m.os x))
            (λ _. ⊥)
            (run_child platform sockets headers conns fuel req settings turns sock m)
    unfolding run_child
    run_child-Balanced turns sock m =
        Stable-and_then (OpenedIs (opened m.os x)) (BalancedIs (opened m.os x)) (λ _. ⊥) _ _
          (log_msg-Stable platform (OpenedIs (opened m.os x))
            (Opened-Neutral platform descriptors x (opened m.os x)) info
            (codes "accepting connections on address "
              ++ (settings.host ++ b':' ∷ decimal settings.port))
            (record m { g_memory_arena = none }) refl)
          (λ _ m1 h1.
            worker_turns-Balanced turns (opened m.os x) sock nil m1 (nil-Balanced _ m1 h1))
