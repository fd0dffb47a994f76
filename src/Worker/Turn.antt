-- ===== src/Worker/Turn.antt =====
-- Steps of `conn_loop` (src/server.c) that leave a property of the machine alone.
use cn_cw.Common.{ℕ, inl, inr, List, [], ◌∷◌, ltb, Bool-cases, Bytes}
use cn_cw.Conn.{ConnectionState, waiting, sending, complete, err_recoverable, err_unrecoverable}
use cn_cw.Log.{fatal}
use cn_cw.Machine.{Shared}
use cn_cw.Memory.Neutral.{Neutral, Stable, Stable-and_then, log_perror-Stable}
use cn_cw.Log.{log_perror}
use cn_cw.Outcome.{server_c, exits, and_then, Leaves}
use cn_cw.Platform.{Platform, Errno}
use cn_cw.Sockets.{Sockets}
use cn_cw.Worker.{Active, Watch, fd_set, watch_in, watch_all}

module _ (platform : Platform) (I : Shared (platform.Os) → Type 0) where
  open platform use {Os}

  -- The sets for `select` are no part of the machine.
  module _ (sockets : Sockets platform) where
    pub fd_set-Stable :
        (fd : ℕ) (fset : List ℕ) (m : Shared Os)
        → I m
        → Stable I (fd_set platform sockets fd fset m)
    unfolding fd_set
    fd_set-Stable fd fset m h = elim (Bool-cases (ltb fd sockets.fd_setsize)) [
      | inl fits ↦ rw fits h
      | inr large ↦ rw large tt
    ]

    watch_in-Stable :
        (s : ConnectionState) (fd : ℕ) (w : Watch) (m : Shared Os)
        → I m
        → Stable I (watch_in platform sockets s fd w m)
    unfolding watch_in
    watch_in-Stable waiting fd w m h =
        Stable-and_then I (λ _. I) (λ _. ⊥) _ _ (fd_set-Stable fd w.read_fset m h) (λ _ m' h'. h')
    watch_in-Stable sending fd w m h =
        Stable-and_then I (λ _. I) (λ _. ⊥) _ _ (fd_set-Stable fd w.write_fset m h) (λ _ m' h'. h')
    watch_in-Stable complete fd w m h = tt
    watch_in-Stable err_recoverable fd w m h = tt
    watch_in-Stable err_unrecoverable fd w m h = tt

    pub watch_all-Stable :
        (todo : List Active) (w : Watch) (m : Shared Os)
        → I m
        → Stable I (watch_all platform sockets todo w m)
    unfolding watch_all
    watch_all-Stable [] w m h = h
    watch_all-Stable (a ∷ todo) w m h =
        Stable-and_then I (λ _. I) (λ _. ⊥) _ _ (watch_in-Stable a.conn.state a.conn.sock_fd w m h)
          (λ w' m' h'. watch_all-Stable todo _ m' h')

  -- A failed call ends the worker.
  pub failed_exits :
      {A : Type 0} (neutral : Neutral platform I) (Q : A → Shared Os → Type 0) (err : Errno)
      (text : Bytes) (m : Shared Os)
      → I m
      → Leaves Q
          (λ _. ⊥)
          (and_then (log_perror platform fatal err text m) (λ _ m1. exits server_c m1))
  failed_exits neutral Q err text m h =
      Stable-and_then I Q (λ _. ⊥) _ _ (log_perror-Stable platform I neutral fatal err text m h)
        (λ _ m' h'. tt)
