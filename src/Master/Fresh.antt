-- ===== src/Master/Fresh.antt =====
-- `init_master` (src/server.c) creates no process, and its `pids` are all -1.
use cn_cw.Common.{
  ℕ, ◌*◌, ◌≡◌, refl, ◌∙◌, inl, inr, Option, none, some, ltb, Bool-cases, Bytes, codes, replicate,
}
use cn_cw.Conn.{ServerSettings}
use cn_cw.Log.{fatal}
use cn_cw.Machine.{Shared}
use cn_cw.Master.{
  MasterState, abandon, socket_made, init_socket, with_socket, with_pids, init_master,
}
use cn_cw.Master.Children.{Children, Running, Running-Neutral}
use cn_cw.Master.Setup.{Setup, socket_made-keeps}
use cn_cw.Memory.{word}
use cn_cw.Memory.Neutral.{Stable, Stable-and_then, log_msg-Stable, log_perror-Stable}
use cn_cw.Outcome.{Leaves}
use cn_cw.Platform.{Platform, Answer, got, failed, Errno}
use cn_cw.Sockets.{Sockets, Processes}

module _ (platform : Platform) {sockets : Sockets platform} {processes : Processes platform}
    (children : Children platform sockets processes) (y : ℕ) where
  open platform use {Os, get_flags}
  open sockets use {socket, setsockopt, so_reuseaddr, so_reuseport, bind, listen}
  open processes use {malloc, fork}
  open children use {
    running, malloc_running, free_running, close_running, get_flags_running, set_flags_running,
    socket_running, setsockopt_running, bind_running, listen_running, fork_got, fork_failed,
  }

  abbrev RunningIs : ℕ → Shared Os → Type 0
  RunningIs n = Running platform children y n

  module _ (n : ℕ) where
    abbrev I : Shared Os → Type 0
    I = RunningIs n

    abandon-Stable :
        (fd : ℕ) (err : Errno) (text : Bytes) (m : Shared Os)
        → I m
        → Stable I (abandon platform fd err text m)
    unfolding abandon
    abandon-Stable fd err text m h =
        Stable-and_then I (λ _. I) (λ _. ⊥) _ _
          (log_perror-Stable platform I (Running-Neutral platform children y n) fatal err text m h)
          (λ _ m' h'. close_running fd m'.os y ∙ h')

    Running-Setup : (fd : ℕ) → Setup platform sockets (λ os. running os y ≡ n) fd (Stable I)
    Running-Setup fd = record {
      after_get_flags = λ os h. get_flags_running fd os y ∙ h;
      after_set_flags = λ flags os h. set_flags_running fd flags os y ∙ h;
      after_setsockopt = λ option os h. setsockopt_running fd option os y ∙ h;
      after_bind = λ host port os h. bind_running fd host port os y ∙ h;
      after_listen = λ backlog os h. listen_running fd backlog os y ∙ h;
      at_abandon = λ err text m short h. abandon-Stable fd err text m h;
      at_end = λ m h. h;
    }

    socket_made-Stable :
        (settings : ServerSettings) (r : Answer ℕ) (os : Os) (m : Shared Os)
        → running os y ≡ n
        → Stable I (socket_made platform sockets settings (r, os) m)
    unfolding socket_made
    socket_made-Stable settings (failed err) os m h =
        Stable-and_then I (λ _. I) (λ _. ⊥) _ _
          (log_perror-Stable platform I (Running-Neutral platform children y n) fatal err
            (codes "failed to create socket") (record m { os = os }) h)
          (λ _ m' h'. h')
    socket_made-Stable settings (got fd) os m h =
        socket_made-keeps platform sockets (λ os'. running os' y ≡ n) fd (Stable I)
          (Running-Setup fd) settings os m h

    init_socket-Stable :
        (settings : ServerSettings) (m : Shared Os)
        → I m
        → Stable I (init_socket platform sockets settings m)
    unfolding init_socket
    init_socket-Stable settings m h =
        socket_made-Stable settings (socket m.os).0 (socket m.os).1 m (socket_running m.os y ∙ h)

    -- A master that is ready has no worker: its `pids` are all -1.
    abbrev pub Fresh : ServerSettings → Option MasterState → Shared Os → Type 0
    Fresh settings none m = I m
    Fresh settings (some state) m = (state.pids ≡ replicate settings.process_count none) × I m

    with_socket-Fresh :
        (settings : ServerSettings) (p : ℕ) (o : Option ℕ) (m : Shared Os)
        → I m
        → Leaves (Fresh settings) (λ _. ⊥) (with_socket platform sockets processes settings p o m)
    unfolding with_socket
    with_socket-Fresh settings p none m h = free_running p m.os y ∙ h
    with_socket-Fresh settings p (some fd) m h = (refl, h)

    with_pids-Fresh :
        (settings : ServerSettings) (o : Option ℕ) (os : Os) (m : Shared Os)
        → running os y ≡ n
        → Leaves (Fresh settings) (λ _. ⊥) (with_pids platform sockets processes settings (o, os) m)
    unfolding with_pids
    with_pids-Fresh settings none os m h =
        Stable-and_then I (Fresh settings) (λ _. ⊥) _ _
          (log_msg-Stable platform I (Running-Neutral platform children y n) fatal
            (codes "failed to allocate memory") (record m { os = os }) h)
          (λ _ m' h'. h')
    with_pids-Fresh settings (some p) os m h =
        elim (Bool-cases (ltb (word (settings.process_count * 4)) (settings.process_count * 4))) [
          | inl wraps ↦ rw wraps tt
          | inr fits ↦ rw fits (
              Stable-and_then I (Fresh settings) (λ _. ⊥) _ _
                (init_socket-Stable settings (record m { os = os }) h)
                (with_socket-Fresh settings p))
        ]

    pub init_master-Fresh :
        (settings : ServerSettings) (m : Shared Os)
        → I m
        → Leaves (Fresh settings) (λ _. ⊥) (init_master platform sockets processes settings m)
    unfolding init_master
    init_master-Fresh settings m h =
        with_pids-Fresh settings (malloc (word (settings.process_count * 4)) m.os).0
          (malloc (word (settings.process_count * 4)) m.os).1 m
          (malloc_running (word (settings.process_count * 4)) m.os y ∙ h)
