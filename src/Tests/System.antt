-- ===== src/Tests/System.antt =====
-- Sockets and processes for the examples: every descriptor is always ready, and `fork` fails from the
-- third time on.
use cn_cw.Common.{ℕ, ◌+◌, ◌≡◌, refl, sym, arith, ltb, ◌==◌, if◌then◌else◌}
use cn_cw.Descriptors.{Descriptors, OpensNothing, one}
use cn_cw.Master.Children.{Children}
use cn_cw.Platform.{Errno, Answer, got, failed, eagain, other}
use cn_cw.Sockets.{Sockets, Processes}
use cn_cw.Tests.Lists.{lists}
use cn_cw.Tests.Toy.{ToyOs, toy, toy_calloc, more, less}

abbrev pub sockets : Sockets toy
sockets = record {
  select = λ n r w os. (got (r, w), os);
  fd_setsize = 1024;
  accept = λ fd os. (got 6, record os { open_fds = more os.open_fds 6 });
  socket = λ os. (got 3, record os { open_fds = more os.open_fds 3 });
  setsockopt = λ fd option os. (got tt, os);
  so_reuseaddr = 2;
  so_reuseport = 15;
  bind = λ fd host port os. (if port == 80 then failed eagain else got tt, os);
  listen = λ fd n os. (got tt, os);
}

abbrev pub processes : Processes toy
processes = record {
  malloc = toy.calloc;
  fork = λ os.
      if ltb os.next_pid 11
      then (
        got os.next_pid,
        record os { next_pid = os.next_pid + 1; children = more os.children os.next_pid },
      )
      else (failed other, os);
  kill = λ pid os. os;
  waitpid = λ pid os. record os { children = less os.children pid };
  sleep = λ n os. os;
}

-- A number that is one more for the value that a call gives.
pub got_one :
    (f : ToyOs → ℕ → ℕ) (k fd x : ℕ) (os os1 os' : ToyOs)
    → f os1 x ≡ f os x + one k x
    → ◌≡◌ {A = Answer ℕ × ToyOs} (got k, os1) (got fd, os')
    → f os' x ≡ f os x + one fd x
got_one f k fd x os os1 os' h e =
    let same_fd : k ≡ fd = cc in let same_os : os1 ≡ os' = cc in rw (sym same_fd, sym same_os) h

pub calloc_opens : (n : ℕ) (os : ToyOs) (x : ℕ) → (toy_calloc n os).1.open_fds x ≡ os.open_fds x
calloc_opens n os x = ground arith

pub calloc_forks : (n : ℕ) (os : ToyOs) (y : ℕ) → (toy_calloc n os).1.children y ≡ os.children y
calloc_forks n os y = ground arith

unfoldable pub descriptors : Descriptors toy sockets
descriptors = record {
  opened = λ os. os.open_fds;
  localtime_opened = λ os x. refl;
  gmtime_opened = λ os x. refl;
  getpid_opened = λ os x. refl;
  calloc_opened = calloc_opens;
  free_opened = λ a os x. refl;
  read_opened = λ fd n os x. refl;
  write_opened = λ fd bs os x. refl;
  get_flags_opened = λ fd os x. refl;
  set_flags_opened = λ fd n os x. refl;
  stat_opened = λ path os x. refl;
  realpath_opened = λ path os x. refl;
  open_got = λ path os x e. got_one (λ o. o.open_fds) 5 _ x os _ _ refl e;
  open_failed = λ path os x e. cc;
  close_opened = λ fd os x. refl;
  select_opened = λ n r w os x. refl;
  accept_got = λ sock os x e. got_one (λ o. o.open_fds) 6 _ x os _ _ refl e;
  accept_failed = λ sock os x e. cc;
  socket_got = λ os x e. got_one (λ o. o.open_fds) 3 _ x os _ _ refl e;
  socket_failed = λ os x e. cc;
  setsockopt_opened = λ fd o os x. refl;
  bind_opened = λ fd host port os x. refl;
  listen_opened = λ fd n os x. refl;
}

pub lists_quiet : {A C : Type 0} → OpensNothing descriptors (lists {A = A} {C = C})
unfolding descriptors
lists_quiet = record { lappend_opened = λ c a m x. refl; list_free_opened = λ c m x. refl }

pub forks :
    (os : ToyOs) {pid : ℕ} {os' : ToyOs} (y : ℕ)
    → processes.fork os ≡ (got pid, os')
    → os'.children y ≡ os.children y + one pid y
forks os y e = ground arith

pub forks_not :
    (os : ToyOs) {err : Errno} {os' : ToyOs} (y : ℕ)
    → processes.fork os ≡ (failed err, os')
    → os'.children y ≡ os.children y
forks_not os y e = ground arith

unfoldable pub children : Children toy sockets processes
children = record {
  running = λ os. os.children;
  localtime_running = λ os y. refl;
  getpid_running = λ os y. refl;
  write_running = λ fd bs os y. refl;
  calloc_running = calloc_forks;
  malloc_running = calloc_forks;
  free_running = λ a os y. refl;
  close_running = λ fd os y. refl;
  get_flags_running = λ fd os y. refl;
  set_flags_running = λ fd n os y. refl;
  socket_running = λ os y. refl;
  setsockopt_running = λ fd o os y. refl;
  bind_running = λ fd host port os y. refl;
  listen_running = λ fd n os y. refl;
  fork_got = λ os y e parent. forks os y e;
  fork_failed = λ os y e. forks_not os y e;
  reaped = λ pid os y. refl;
}
