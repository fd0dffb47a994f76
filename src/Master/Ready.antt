-- ===== src/Master/Ready.antt =====
-- `init_master` (src/server.c): the master's state, and what is open when there is none.
use cn_cw.Common.{
  ◌*◌, ◌^◌, ◌<◌, subst, ge→ltb, replicate, ℕ, ◌+◌, ◌≡◌, refl, ◌∙◌, Option, none, some, arith, codes,
}
use cn_cw.Conn.{ServerSettings}
use cn_cw.Descriptors.{Descriptors, one}
use cn_cw.Log.{fatal}
use cn_cw.Log.Bounds.{LogsFit}
use cn_cw.Log.Sure.{Surely, Surely-and_then, log_msg-Surely}
use cn_cw.Machine.{Shared}
use cn_cw.Master.{MasterState, with_socket, with_pids, init_master, init_socket}
use cn_cw.Platform.{Platform}
use cn_cw.Sockets.{Sockets}
use cn_cw.Worker.Open.{Opened-Neutral}
use cn_cw.Memory.{word}
use cn_cw.Master.Startup.{Socketed, init_socket-Socketed}
use cn_cw.Sockets.{Processes}

module _ (platform : Platform) (fit : LogsFit platform) {sockets : Sockets platform}
    (descriptors : Descriptors platform sockets) (processes : Processes platform) (x : ℕ)
    (malloc_opened : (n : ℕ) (os : platform.Os)
      → descriptors.opened (processes.malloc n os).1 x ≡ descriptors.opened os x) where
  open platform use {Os}
  open processes use {malloc}
  open descriptors use {opened, free_opened}

  -- A master has the new socket and a worker's place for each process; without one nothing is open.
  abbrev pub Begun : ServerSettings → ℕ → Option MasterState → Shared Os → Type 0
  Begun settings n none m = opened m.os x ≡ n
  Begun settings n (some state) m =
      (opened m.os x ≡ n + one state.sock_fd x)
      × (state.pid_count ≡ settings.process_count)
      × (state.pids ≡ replicate settings.process_count none)

  with_socket-Begun :
      (settings : ServerSettings) (n p : ℕ) (o : Option ℕ) (m : Shared Os)
      → Socketed platform fit descriptors x n o m
      → Surely (Begun settings n) (with_socket platform sockets processes settings p o m)
  unfolding with_socket
  with_socket-Begun settings n p none m h = free_opened p m.os x ∙ h
  with_socket-Begun settings n p (some fd) m h = (h, refl, refl)

  with_pids-Begun :
      (settings : ServerSettings) (n : ℕ) (o : Option ℕ) (os : Os) (m : Shared Os)
      → settings.process_count * 4 < 2 ^ 64
      → opened os x ≡ n
      → Surely (Begun settings n) (with_pids platform sockets processes settings (o, os) m)
  unfolding with_pids
  with_pids-Begun settings n none os m small h =
      Surely-and_then (λ _ m'. opened m'.os x ≡ n) (Begun settings n) _ _
        (log_msg-Surely platform fit (λ m'. opened m'.os x ≡ n)
          (Opened-Neutral platform descriptors x n) fatal (codes "failed to allocate memory")
          (record m { os = os }) (omega arith) h)
        (λ _ m' h'. h')
  with_pids-Begun settings n (some p) os m small h =
      rw
        (ge→ltb (word (settings.process_count * 4)) (settings.process_count * 4)
          (omega (arith, small)))
        (Surely-and_then (Socketed platform fit descriptors x n) (Begun settings n) _ _
          (subst
            (λ k.
              Surely (Socketed platform fit descriptors x k)
                (init_socket platform sockets settings (record m { os = os })))
            h (init_socket-Socketed platform fit descriptors x settings (record m { os = os })))
          (with_socket-Begun settings n p))

  -- `init_master` always returns, where the size of the array of pids does not wrap around. A master has
  -- the only new descriptor, its socket, and as many pids as there are processes, all -1; without a
  -- master no new descriptor is open, whichever call failed.
  pub init_master-Begun :
      (settings : ServerSettings) (m : Shared Os)
      → settings.process_count * 4 < 2 ^ 64
      → Surely (Begun settings (opened m.os x)) (init_master platform sockets processes settings m)
  unfolding init_master
  init_master-Begun settings m small =
      with_pids-Begun settings (opened m.os x) (malloc (word (settings.process_count * 4)) m.os).0
        (malloc (word (settings.process_count * 4)) m.os).1 m small
        (malloc_opened (word (settings.process_count * 4)) m.os)
