-- ===== src/Master/Startup.antt =====
-- The start of the master (src/server.c): the check of the settings, and the listening socket.
use cn_cw.Common.{
  ℕ, ◌+◌, ◌≤◌, ◌≡◌, ◌≢◌, ◌↔◌, refl, ◌∙◌, inl, inr, Bool, true, false, Option, none, some, ◌++◌,
  arith, ◌==◌, ==→eq, Bool-cases, Bytes, codes, length, length-append, if◌then◌else◌,
}
use cn_cw.Conn.{ServerSettings}
use cn_cw.Descriptors.{Descriptors, one}
use cn_cw.Format.{decimal}
use cn_cw.Log.{fatal}
use cn_cw.Log.Bounds.{LogsFit}
use cn_cw.Log.Sure.{Surely, Surely-and_then, log_msg-Surely, log_perror-Surely}
use cn_cw.Machine.{Shared}
use cn_cw.Master.{refuse, validate_settings, abandon, socket_made, init_socket}
use cn_cw.Master.Setup.{Setup, socket_made-keeps}
use cn_cw.Outcome.{returns}
use cn_cw.Platform.{Platform, Answer, got, failed, Errno}
use cn_cw.Sockets.{Sockets}
use cn_cw.Worker.Open.{Opened, Opened-Neutral}
use cn_cw.Memory.Neutral.{any}

-- The settings with which a server can run.
pub record IsServable (settings : ServerSettings) : Type 0 where
  pub has_workers : settings.process_count ≢ 0
  pub has_uris : settings.uri_length_limit ≢ 0
  pub has_backlog : settings.listen_backlog ≢ 0

module _ (platform : Platform) (fit : LogsFit platform) where
  open platform use {Os, get_flags}

  -- The answer says whether the settings are servable.
  abbrev pub Decides : ServerSettings → Bool → Shared Os → Type 0
  Decides settings b _ = (b ≡ true) ↔ IsServable settings

  refuse-Surely :
      (settings : ServerSettings) (text : Bytes) (m : Shared Os)
      → length text ≤ 4045
      → ¬ (IsServable settings)
      → Surely (Decides settings) (refuse platform text m)
  unfolding refuse
  refuse-Surely settings text m short bad =
      Surely-and_then (λ _ _. Unit {0}) (Decides settings) _ _
        (log_msg-Surely platform fit (λ _. Unit {0}) (any platform) fatal text m short tt)
        (λ _ _ _. (λ e. cc, λ s. absurd (bad s)))

  length-decimal : (n : ℕ) → (n == 0) ≡ true → length (decimal n) ≡ 1
  unfolding decimal
  length-decimal n e = rw (==→eq _ 0 e) refl

  count_short :
      (settings : ServerSettings)
      → (settings.process_count == 0) ≡ true
      → length (codes "invalid process count " ++ decimal settings.process_count) ≤ 4045
  count_short settings e = omega (
    arith,
    length-append (codes "invalid process count ") (decimal settings.process_count),
    length-decimal settings.process_count e,
  )

  nonzero : {n : ℕ} → (n == 0) ≡ false → n ≢ 0
  nonzero {n} nonzero_is = ground (arith, nonzero_is)

  -- The backlog is the last setting that is looked at.
  backlog-Decides :
      (settings : ServerSettings) (m : Shared Os)
      → settings.process_count ≢ 0
      → settings.uri_length_limit ≢ 0
      → Surely (Decides settings) (
          if settings.listen_backlog == 0
          then refuse platform (codes "listen backlog size too small") m
          else returns true m)
  backlog-Decides settings m p u = elim (Bool-cases (settings.listen_backlog == 0)) [
    | inl none_wanted ↦ rw none_wanted (
        refuse-Surely settings (codes "listen backlog size too small") m (omega arith)
          (λ s. s.has_backlog (==→eq _ 0 none_wanted)))
    | inr wanted ↦
        rw wanted
          ((λ _. record { has_workers = p; has_uris = u; has_backlog = nonzero wanted }), λ _. refl)
  ]

  uris-Decides :
      (settings : ServerSettings) (m : Shared Os)
      → settings.process_count ≢ 0
      → Surely (Decides settings) (
          if settings.uri_length_limit == 0
          then refuse platform (codes "invalid uri length limit (most be nonzero)") m
          else if settings.listen_backlog == 0
          then refuse platform (codes "listen backlog size too small") m
          else returns true m)
  uris-Decides settings m p = elim (Bool-cases (settings.uri_length_limit == 0)) [
    | inl none_wanted ↦ rw none_wanted (
        refuse-Surely settings (codes "invalid uri length limit (most be nonzero)") m (omega arith)
          (λ s. s.has_uris (==→eq _ 0 none_wanted)))
    | inr wanted ↦ rw wanted (backlog-Decides settings m p (nonzero wanted))
  ]

  -- `validate_settings` always returns, true for the servable settings and false, after a line in
  -- the log, for all others; times, process ids and error texts are as documented.
  pub validate_settings-Decides :
      (settings : ServerSettings) (m : Shared Os)
      → Surely (Decides settings) (validate_settings platform settings m)
  unfolding validate_settings
  validate_settings-Decides settings m = elim (Bool-cases (settings.process_count == 0)) [
    | inl none_wanted ↦ rw none_wanted (
        refuse-Surely settings (codes "invalid process count " ++ decimal settings.process_count) m
          (count_short settings none_wanted) (λ s. s.has_workers (==→eq _ 0 none_wanted)))
    | inr wanted ↦ rw wanted (uris-Decides settings m (nonzero wanted))
  ]

module _ (platform : Platform) (fit : LogsFit platform) {sockets : Sockets platform}
    (descriptors : Descriptors platform sockets) (x : ℕ) where
  open platform use {Os, get_flags, close}
  open sockets use {socket, setsockopt, so_reuseaddr, so_reuseport, bind, listen}
  open descriptors use {
    opened, close_opened, socket_got, socket_failed, setsockopt_opened, bind_opened, listen_opened,
    get_flags_opened, set_flags_opened,
  }

  abbrev OpenedIs : ℕ → Shared Os → Type 0
  OpenedIs n = Opened platform descriptors x n

  -- A socket that is returned is the only new descriptor, and without one there is none.
  abbrev pub Socketed : ℕ → Option ℕ → Shared Os → Type 0
  Socketed n none m = opened m.os x ≡ n
  Socketed n (some fd) m = opened m.os x ≡ n + one fd x

  abandon-Socketed :
      (n fd : ℕ) (err : Errno) (text : Bytes) (m : Shared Os)
      → length text ≤ 1024
      → opened m.os x ≡ n + one fd x
      → Surely (Socketed n) (abandon platform fd err text m)
  unfolding abandon
  abandon-Socketed n fd err text m short h =
      Surely-and_then (λ _. OpenedIs (n + one fd x)) (Socketed n) _ _
        (log_perror-Surely platform fit (OpenedIs (n + one fd x))
          (Opened-Neutral platform descriptors x (n + one fd x)) fatal err text m short h)
        (λ _ m' h'. close_opened fd m'.os x ∙ omega (arith, h'))

  Socketed-Setup :
      (n fd : ℕ)
      → Setup platform sockets (λ os. opened os x ≡ n + one fd x) fd (Surely (Socketed n))
  Socketed-Setup n fd = record {
    after_get_flags = λ os h. get_flags_opened fd os x ∙ h;
    after_set_flags = λ flags os h. set_flags_opened fd flags os x ∙ h;
    after_setsockopt = λ option os h. setsockopt_opened fd option os x ∙ h;
    after_bind = λ host port os h. bind_opened fd host port os x ∙ h;
    after_listen = λ backlog os h. listen_opened fd backlog os x ∙ h;
    at_abandon = abandon-Socketed n fd;
    at_end = λ m h. h;
  }

  socket_made-Socketed :
      (settings : ServerSettings) (r : Answer ℕ) (os : Os) (m : Shared Os)
      → socket m.os ≡ (r, os)
      → Surely (Socketed (opened m.os x)) (socket_made platform sockets settings (r, os) m)
  unfolding socket_made
  socket_made-Socketed settings (failed err) os m e =
      Surely-and_then (λ _. OpenedIs (opened m.os x)) (Socketed (opened m.os x)) _ _
        (log_perror-Surely platform fit (OpenedIs (opened m.os x))
          (Opened-Neutral platform descriptors x (opened m.os x)) fatal err
          (codes "failed to create socket") (record m { os = os }) (omega arith)
          (socket_failed m.os x e))
        (λ _ m' h'. h')
  socket_made-Socketed settings (got fd) os m e =
      socket_made-keeps platform sockets (λ os'. opened os' x ≡ opened m.os x + one fd x) fd
        (Surely (Socketed (opened m.os x))) (Socketed-Setup (opened m.os x) fd) settings os m
        (socket_got m.os x e)

  -- `init_socket` always returns. With a socket, this is the only new descriptor; without one, each
  -- descriptor is open as often as before, whichever of its calls failed. The calls of the system
  -- are as documented.
  pub init_socket-Socketed :
      (settings : ServerSettings) (m : Shared Os)
      → Surely (Socketed (opened m.os x)) (init_socket platform sockets settings m)
  unfolding init_socket
  init_socket-Socketed settings m =
      socket_made-Socketed settings (socket m.os).0 (socket m.os).1 m refl
