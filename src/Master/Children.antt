-- ===== src/Master/Children.antt =====
-- Which children of the master are still there, as the calls of the system document it: for each
-- process id how many children have it.
use cn_cw.Common.{
  ℕ, zero, suc, ◌+◌, ◌-◌, ◌≡◌, ◌∙◌, refl, ap, false, Option, none, some, List, [], ◌∷◌, ◌++◌, arith,
  ◌==◌, Bytes, length, replicate,
}
use cn_cw.Descriptors.{file_one, one}
use cn_cw.Log.{stderr_fileno}
use cn_cw.Machine.{Shared}
use cn_cw.Master.{set_pid, kill_workers}
use cn_cw.Memory.Neutral.{Neutral}
use cn_cw.Platform.{Platform, got, failed, Errno}
use cn_cw.Sockets.{Sockets, Processes}

-- Only a `fork` that succeeds in the parent adds a child, and only a `waitpid` for a child that is
-- killed removes one; nothing is asked of what the child sees.
pub record Children (p : Platform) (s : Sockets p) (q : Processes p) : Type 0 where
  pub running : p.Os → ℕ → ℕ
  pub localtime_running : (os : p.Os) (y : ℕ) → running (p.localtime os).1 y ≡ running os y
  pub getpid_running : (os : p.Os) (y : ℕ) → running (p.getpid os).1 y ≡ running os y
  pub write_running :
      (fd : ℕ) (bs : Bytes) (os : p.Os) (y : ℕ) → running (p.write fd bs os).1 y ≡ running os y
  pub calloc_running : (n : ℕ) (os : p.Os) (y : ℕ) → running (p.calloc n os).1 y ≡ running os y
  pub malloc_running : (n : ℕ) (os : p.Os) (y : ℕ) → running (q.malloc n os).1 y ≡ running os y
  pub free_running : (a : ℕ) (os : p.Os) (y : ℕ) → running (p.free a os) y ≡ running os y
  pub close_running : (fd : ℕ) (os : p.Os) (y : ℕ) → running (p.close fd os) y ≡ running os y
  pub get_flags_running :
      (fd : ℕ) (os : p.Os) (y : ℕ) → running (p.get_flags fd os).1 y ≡ running os y
  pub set_flags_running :
      (fd n : ℕ) (os : p.Os) (y : ℕ) → running (p.set_flags fd n os).1 y ≡ running os y
  pub socket_running : (os : p.Os) (y : ℕ) → running (s.socket os).1 y ≡ running os y
  pub setsockopt_running :
      (fd o : ℕ) (os : p.Os) (y : ℕ) → running (s.setsockopt fd o os).1 y ≡ running os y
  pub bind_running :
      (fd : ℕ) (host : Bytes) (port : ℕ) (os : p.Os) (y : ℕ)
      → running (s.bind fd host port os).1 y ≡ running os y
  pub listen_running :
      (fd n : ℕ) (os : p.Os) (y : ℕ) → running (s.listen fd n os).1 y ≡ running os y
  pub fork_got :
      (os : p.Os) {pid : ℕ} {os' : p.Os} (y : ℕ)
      → q.fork os ≡ (got pid, os')
      → (pid == 0) ≡ false
      → running os' y ≡ running os y + one pid y
  pub fork_failed :
      (os : p.Os) {e : Errno} {os' : p.Os} (y : ℕ)
      → q.fork os ≡ (failed e, os')
      → running os' y ≡ running os y
  pub reaped :
      (pid : ℕ) (os : p.Os) (y : ℕ)
      → running (q.waitpid pid (q.kill pid os)) y ≡ running os y - one pid y

-- How many entries of `pids` are the process `y`.
unfoldable pub pids_held : List (Option ℕ) → ℕ → ℕ
unfolding file_one
pids_held [] y = 0
pids_held (p ∷ ps) y = file_one p y + pids_held ps y

pub pids_held-replicate : (n y : ℕ) → pids_held (replicate n none) y ≡ 0
unfolding pids_held file_one
pids_held-replicate zero y = refl
pids_held-replicate (suc n) y = omega (arith, pids_held-replicate n y)

-- An entry of -1 that becomes a process id.
pub pids_held-set_pid :
    (front rest : List (Option ℕ)) (pid y : ℕ)
    → pids_held (set_pid (length front) pid (front ++ none ∷ rest)) y
      ≡ pids_held (front ++ none ∷ rest) y + one pid y
unfolding pids_held set_pid file_one
pids_held-set_pid [] rest pid y = omega arith
pids_held-set_pid (p ∷ front) rest pid y = omega (arith, pids_held-set_pid front rest pid y)

pub set_pid-append :
    (front rest : List (Option ℕ)) (pid : ℕ)
    → set_pid (length front) pid (front ++ none ∷ rest) ≡ (front ++ some pid ∷ []) ++ rest
unfolding set_pid
set_pid-append [] rest pid = refl
set_pid-append (p ∷ front) rest pid = ap (◌∷◌ p) (set_pid-append front rest pid)

module _ (platform : Platform) {sockets : Sockets platform} {processes : Processes platform}
    (children : Children platform sockets processes) (y : ℕ) where
  open platform use {Os}
  open processes use {kill, waitpid}
  open children use {
    running, localtime_running, getpid_running, write_running, calloc_running, reaped,
  }

  -- The process `y` is a child `n` times.
  abbrev pub Running : ℕ → Shared Os → Type 0
  Running n m = running m.os y ≡ n

  pub Running-Neutral : (n : ℕ) → Neutral platform (Running n)
  Running-Neutral n = record {
    after_localtime = λ m h. localtime_running m.os y ∙ h;
    after_getpid = λ m h. getpid_running m.os y ∙ h;
    after_write = λ bs m h. write_running stderr_fileno bs m.os y ∙ h;
    after_calloc = λ n m h. calloc_running n m.os y ∙ h;
    after_arena = λ a m h. h;
  }

  -- `kill_workers` leaves, of each process, the children that `pids` does not name.
  pub kill_workers_running :
      (pids : List (Option ℕ)) (os : Os)
      → running (kill_workers platform sockets processes pids os) y
        ≡ running os y - pids_held pids y
  unfolding kill_workers pids_held file_one
  kill_workers_running [] os = omega arith
  kill_workers_running (none ∷ pids) os = omega (arith, kill_workers_running pids os)
  kill_workers_running (some pid ∷ pids) os =
      omega (arith, kill_workers_running pids (waitpid pid (kill pid os)), reaped pid os y)
