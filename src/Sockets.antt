-- ===== src/Sockets.antt =====
-- What src/server.c takes from the operating system beside the calls of Platform.antt: sockets, `select`,
-- and processes. A set of descriptors is the list of those that are put into it.
use cn_cw.Common.{ℕ, Option, List, Bytes}
use cn_cw.Platform.{Platform, Answer}

pub record Sockets (p : Platform) : Type 0 where
  -- `select(nfds, &read_fset, &write_fset, NULL, NULL)`, with the sets that it leaves.
  pub select : ℕ → List ℕ → List ℕ → p.Os → Answer (List ℕ × List ℕ) × p.Os
  pub fd_setsize : ℕ
  pub accept : ℕ → p.Os → Answer ℕ × p.Os
  -- `socket(AF_INET, SOCK_STREAM, 0)`.
  pub socket : p.Os → Answer ℕ × p.Os
  -- `setsockopt(fd, SOL_SOCKET, option, &(int){1}, sizeof(int))`.
  pub setsockopt : ℕ → ℕ → p.Os → Answer (Unit {0}) × p.Os
  pub so_reuseaddr : ℕ
  pub so_reuseport : ℕ
  -- `bind` to the address `inet_addr(host)` and the port.
  pub bind : ℕ → Bytes → ℕ → p.Os → Answer (Unit {0}) × p.Os
  pub listen : ℕ → ℕ → p.Os → Answer (Unit {0}) × p.Os

pub record Processes (p : Platform) : Type 0 where
  pub malloc : ℕ → p.Os → Option ℕ × p.Os
  -- 0 in the child, and the child's process id in the parent.
  pub fork : p.Os → Answer ℕ × p.Os
  -- `kill(pid, SIGKILL)` and `waitpid(pid, &stat, 0)`, whose answers are not read.
  pub kill : ℕ → p.Os → p.Os
  pub waitpid : ℕ → p.Os → p.Os
  pub sleep : ℕ → p.Os → p.Os
