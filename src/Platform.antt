-- ===== src/Platform.antt =====
-- What the server takes from the operating system and the C library, as a parameter: a state of
-- its own and one function for each call, with what its documentation promises as laws.
use cn_cw.Common.{ℕ, ◌+◌, ◌%◌, ◌^◌, ◌≤◌, ◌<◌, ◌≡◌, ◌⊎◌, Option, some, Bytes}

-- The values of `errno` that the server tells apart.
pub data Errno : Type 0 where
  eacces enotdir enoent eagain ewouldblock eintr other : Errno

-- The answer of a system call: a value, or -1 with `errno`.
pub data Answer (A : Type 0) : Type 0 where
  got : A → Answer A
  failed : Errno → Answer A

-- `struct tm`.
pub record Tm : Type 0 where
  pub tm_wday : ℕ
  pub tm_mday : ℕ
  pub tm_mon : ℕ
  pub tm_year : ℕ
  pub tm_hour : ℕ
  pub tm_min : ℕ
  pub tm_sec : ℕ

pub record Platform : Type 1 where
  pub Os : Type 0
  pub calloc : ℕ → Os → Option ℕ × Os
  pub free : ℕ → Os → Os
  pub read : ℕ → ℕ → Os → Answer Bytes × Os
  pub write : ℕ → Bytes → Os → Answer ℕ × Os
  pub get_flags : ℕ → Os → Answer ℕ × Os
  pub o_nonblock : ℕ
  pub set_flags : ℕ → ℕ → Os → Answer (Unit {0}) × Os
  pub stat : Bytes → Os → Answer ℕ × Os
  pub realpath : Bytes → Os → Answer (ℕ × Bytes) × Os
  pub open_file : Bytes → Os → Answer ℕ × Os
  pub close : ℕ → Os → Os
  pub gmtime : Os → Tm × Os
  pub localtime : Os → Tm × Os
  pub getpid : Os → ℕ × Os
  pub errno : Os → Errno
  pub strerror : Errno → Bytes

-- Two stretches of memory that share no byte.
abbrev pub Apart : ℕ → ℕ → ℕ → ℕ → Type 0
Apart a m b n = (a + m ≤ b) ⊎ (b + n ≤ a)

-- `calloc` as documented: a block it hands out lies in the address space, is aligned for every
-- type, and shares no byte with a block that is held.
pub record Allocates (p : Platform) : Type 1 where
  pub Held : p.Os → ℕ → ℕ → Type 0
  pub calloc_fresh :
      (n : ℕ) (os : p.Os) {a m q : ℕ} {os' : p.Os}
      → p.calloc n os ≡ (some q, os')
      → Held os a m
      → Apart a m q n
  pub calloc_held :
      (n : ℕ) (os : p.Os) {q : ℕ} {os' : p.Os} → p.calloc n os ≡ (some q, os') → Held os' q n
  pub calloc_keeps :
      (n : ℕ) (os : p.Os) {a m : ℕ} {r : Option ℕ} {os' : p.Os}
      → p.calloc n os ≡ (r, os')
      → Held os a m
      → Held os' a m
  pub calloc_aligned :
      (n : ℕ) (os : p.Os) {q : ℕ} {os' : p.Os} → p.calloc n os ≡ (some q, os') → q % 16 ≡ 0
  pub calloc_in_space :
      (n : ℕ) (os : p.Os) {q : ℕ} {os' : p.Os} → p.calloc n os ≡ (some q, os') → q + n < 2 ^ 64
