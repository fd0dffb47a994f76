-- ===== src/Descriptors.antt =====
-- Which descriptors a process has open, as the calls of the system document it: for each descriptor
-- how often it is open.
use cn_cw.Common.{ℕ, ◌+◌, ◌-◌, ◌≡◌, List, Option, none, some, Bytes, ◌==◌, if◌then◌else◌}
use cn_cw.Conn.{Conn}
use cn_cw.Machine.{Machine}
use cn_cw.Memory.Neutral.{Stable}
use cn_cw.PgList.{PgList}
use cn_cw.Platform.{Platform, got, failed, Errno}
use cn_cw.Sockets.{Sockets}

-- 1 for the descriptor itself, and 0 for any other.
unfoldable pub one : ℕ → ℕ → ℕ
one fd x = if fd == x then 1 else 0

unfoldable pub file_one : Option ℕ → ℕ → ℕ
unfolding one
file_one none x = 0
file_one (some fd) x = one fd x

-- How often a connection holds the descriptor `x`.
unfoldable pub fds : Conn → ℕ → ℕ
unfolding one file_one
fds c x = one c.sock_fd x + file_one c.file_fd x

-- Only `open`, `accept` and `socket` add a descriptor, and only `close` removes one.
pub record Descriptors (p : Platform) (s : Sockets p) : Type 0 where
  pub opened : p.Os → ℕ → ℕ
  pub localtime_opened : (os : p.Os) (x : ℕ) → opened (p.localtime os).1 x ≡ opened os x
  pub gmtime_opened : (os : p.Os) (x : ℕ) → opened (p.gmtime os).1 x ≡ opened os x
  pub getpid_opened : (os : p.Os) (x : ℕ) → opened (p.getpid os).1 x ≡ opened os x
  pub calloc_opened : (n : ℕ) (os : p.Os) (x : ℕ) → opened (p.calloc n os).1 x ≡ opened os x
  pub free_opened : (a : ℕ) (os : p.Os) (x : ℕ) → opened (p.free a os) x ≡ opened os x
  pub read_opened : (fd n : ℕ) (os : p.Os) (x : ℕ) → opened (p.read fd n os).1 x ≡ opened os x
  pub write_opened :
      (fd : ℕ) (bs : Bytes) (os : p.Os) (x : ℕ) → opened (p.write fd bs os).1 x ≡ opened os x
  pub get_flags_opened : (fd : ℕ) (os : p.Os) (x : ℕ) → opened (p.get_flags fd os).1 x ≡ opened os x
  pub set_flags_opened :
      (fd n : ℕ) (os : p.Os) (x : ℕ) → opened (p.set_flags fd n os).1 x ≡ opened os x
  pub stat_opened : (path : Bytes) (os : p.Os) (x : ℕ) → opened (p.stat path os).1 x ≡ opened os x
  pub realpath_opened :
      (path : Bytes) (os : p.Os) (x : ℕ) → opened (p.realpath path os).1 x ≡ opened os x
  pub open_got :
      (path : Bytes) (os : p.Os) {fd : ℕ} {os' : p.Os} (x : ℕ)
      → p.open_file path os ≡ (got fd, os')
      → opened os' x ≡ opened os x + one fd x
  pub open_failed :
      (path : Bytes) (os : p.Os) {e : Errno} {os' : p.Os} (x : ℕ)
      → p.open_file path os ≡ (failed e, os')
      → opened os' x ≡ opened os x
  pub close_opened :
      (fd : ℕ) (os : p.Os) (x : ℕ) → opened (p.close fd os) x ≡ opened os x - one fd x
  pub select_opened :
      (n : ℕ) (r w : List ℕ) (os : p.Os) (x : ℕ) → opened (s.select n r w os).1 x ≡ opened os x
  pub accept_got :
      (sock : ℕ) (os : p.Os) {fd : ℕ} {os' : p.Os} (x : ℕ)
      → s.accept sock os ≡ (got fd, os')
      → opened os' x ≡ opened os x + one fd x
  pub accept_failed :
      (sock : ℕ) (os : p.Os) {e : Errno} {os' : p.Os} (x : ℕ)
      → s.accept sock os ≡ (failed e, os')
      → opened os' x ≡ opened os x
  pub socket_got :
      (os : p.Os) {fd : ℕ} {os' : p.Os} (x : ℕ)
      → s.socket os ≡ (got fd, os')
      → opened os' x ≡ opened os x + one fd x
  pub socket_failed :
      (os : p.Os) {e : Errno} {os' : p.Os} (x : ℕ)
      → s.socket os ≡ (failed e, os')
      → opened os' x ≡ opened os x
  pub setsockopt_opened :
      (fd o : ℕ) (os : p.Os) (x : ℕ) → opened (s.setsockopt fd o os).1 x ≡ opened os x
  pub bind_opened :
      (fd : ℕ) (host : Bytes) (port : ℕ) (os : p.Os) (x : ℕ)
      → opened (s.bind fd host port os).1 x ≡ opened os x
  pub listen_opened : (fd n : ℕ) (os : p.Os) (x : ℕ) → opened (s.listen fd n os).1 x ≡ opened os x

-- The list package opens and closes nothing.
pub record OpensNothing {p : Platform} {s : Sockets p} (d : Descriptors p s) {A C : Type 0}
    (l : PgList (p.Os) A C) : Type 0 where
  pub lappend_opened :
      (c : l.Cells) (a : A) (m : Machine p.Os C) (x : ℕ)
      → Stable (λ m'. d.opened m'.os x ≡ d.opened m.os x) (l.lappend c a m)
  pub list_free_opened :
      (c : l.Cells) (m : Machine p.Os C) (x : ℕ) → d.opened (l.list_free c m).os x ≡ d.opened m.os x
