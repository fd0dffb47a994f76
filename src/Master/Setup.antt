-- ===== src/Master/Setup.antt =====
-- `init_socket` (src/server.c) from the new socket on: what each call on the socket keeps reaches its end.
use cn_cw.Common.{ℕ, ◌≤◌, arith, Option, some, Bytes, codes, length}
use cn_cw.Conn.{ServerSettings}
use cn_cw.Handler.Response.{flags_set, set_nonblocking}
use cn_cw.Machine.{Shared}
use cn_cw.Master.{
  abandon, on_socket, start_listening, bind_address, reuse_port, reuse_address, socket_made,
}
use cn_cw.Outcome.{Outcome, returns, Cmd}
use cn_cw.Platform.{Platform, Answer, got, failed, Errno}
use cn_cw.Sockets.{Sockets}

-- `I` is kept by the calls on the socket `fd`, and `Q` follows from it at both ends.
pub record Setup (p : Platform) (s : Sockets p) (I : p.Os → Type 0) (fd : ℕ)
    (Q : Outcome (Shared (p.Os)) (Option ℕ) → Type 0) : Type 0 where
  pub after_get_flags : (os : p.Os) → I os → I (p.get_flags fd os).1
  pub after_set_flags : (n : ℕ) (os : p.Os) → I os → I (p.set_flags fd n os).1
  pub after_setsockopt : (option : ℕ) (os : p.Os) → I os → I (s.setsockopt fd option os).1
  pub after_bind : (host : Bytes) (port : ℕ) (os : p.Os) → I os → I (s.bind fd host port os).1
  pub after_listen : (n : ℕ) (os : p.Os) → I os → I (s.listen fd n os).1
  pub at_abandon :
      (err : Errno) (text : Bytes) (m : Shared (p.Os))
      → length text ≤ 1024
      → I m.os
      → Q (abandon p fd err text m)
  pub at_end : (m : Shared (p.Os)) → I m.os → Q (returns (some fd) m)

module _ (platform : Platform) (sockets : Sockets platform) (I : platform.Os → Type 0) (fd : ℕ)
    (Q : Outcome (Shared (platform.Os)) (Option ℕ) → Type 0) (setup : Setup platform sockets I fd Q)
    (settings : ServerSettings) where
  open platform use {Os, get_flags}
  open sockets use {setsockopt, so_reuseaddr, so_reuseport, bind, listen}
  open setup use {
    after_get_flags, after_set_flags, after_setsockopt, after_bind, after_listen, at_abandon,
    at_end,
  }

  on_socket-keeps :
      (text : Bytes) (r : Answer (Unit {0}) × Os) (next : Cmd (Shared Os) (Option ℕ))
      (m : Shared Os)
      → length text ≤ 1024
      → I r.1
      → ((m' : Shared Os) → I m'.os → Q (next m'))
      → Q (on_socket platform sockets fd text r next m)
  unfolding on_socket
  on_socket-keeps text (failed err, os) next m short h ok =
      at_abandon err text (record m { os = os }) short h
  on_socket-keeps text (got _, os) next m short h ok = ok (record m { os = os }) h

  start_listening-keeps :
      (m : Shared Os) → I m.os → Q (start_listening platform sockets settings fd m)
  unfolding start_listening
  start_listening-keeps m h =
      on_socket-keeps (codes "listen failed") (listen fd settings.listen_backlog m.os)
        (returns (some fd)) m (omega arith) (after_listen settings.listen_backlog m.os h) at_end

  bind_address-keeps : (m : Shared Os) → I m.os → Q (bind_address platform sockets settings fd m)
  unfolding bind_address
  bind_address-keeps m h =
      on_socket-keeps (codes "failed to bind socket to address")
        (bind fd settings.host settings.port m.os) (start_listening platform sockets settings fd) m
        (omega arith) (after_bind settings.host settings.port m.os h) start_listening-keeps

  reuse_port-keeps : (m : Shared Os) → I m.os → Q (reuse_port platform sockets settings fd m)
  unfolding reuse_port
  reuse_port-keeps m h =
      on_socket-keeps (codes "setsockopt error") (setsockopt fd so_reuseport m.os)
        (bind_address platform sockets settings fd) m (omega arith)
        (after_setsockopt so_reuseport m.os h) bind_address-keeps

  reuse_address-keeps : (m : Shared Os) → I m.os → Q (reuse_address platform sockets settings fd m)
  unfolding reuse_address
  reuse_address-keeps m h =
      on_socket-keeps (codes "setsockopt error") (setsockopt fd so_reuseaddr m.os)
        (reuse_port platform sockets settings fd) m (omega arith)
        (after_setsockopt so_reuseaddr m.os h) reuse_port-keeps

  flags_set-keeps : (r : Answer ℕ × Os) → I r.1 → I (flags_set platform fd r).1
  unfolding flags_set
  flags_set-keeps (failed err, os) h = h
  flags_set-keeps (got flags, os) h = after_set_flags _ os h

  set_nonblocking-keeps : (os : Os) → I os → I (set_nonblocking platform fd os).1
  unfolding set_nonblocking
  set_nonblocking-keeps os h = flags_set-keeps (get_flags fd os) (after_get_flags os h)

  -- A socket has been made.
  pub socket_made-keeps :
      (os : Os) (m : Shared Os) → I os → Q (socket_made platform sockets settings (got fd, os) m)
  unfolding socket_made
  socket_made-keeps os m h =
      on_socket-keeps (codes "failed to set socket nonblocking") (set_nonblocking platform fd os)
        (reuse_address platform sockets settings fd) (record m { os = os }) (omega arith)
        (set_nonblocking-keeps os h) reuse_address-keeps
