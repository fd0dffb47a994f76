-- ===== src/Machine.antt =====
-- The state that the parts of the server share: `struct memory_arena` and its blocks, the global
-- `g_memory_arena`, and the object at hand (src/server.h, src/server.c).
use cn_cw.Common.{ℕ, Option, List, []}

pub record Block : Type 0 where
  pub size : ℕ
  pub used : ℕ
  pub base : ℕ

-- The blocks from `current_block` on along `next`.
pub record Arena : Type 0 where
  pub blocks : List Block
  pub minimum_block_size : ℕ

-- A zeroed `struct memory_arena`.
abbrev pub empty_arena : Arena
empty_arena = record { blocks = []; minimum_block_size = 0 }

-- An arena and the system it takes blocks from.
pub record Store (Os : Type 0) : Type 0 where
  pub arena : Arena
  pub os : Os

-- What the functions of the server share: the system, the arena that `g_memory_arena` points to
-- (`none` for NULL), and the object that the caller works on.
pub record Machine (Os C : Type 0) : Type 0 where
  pub os : Os
  pub g_memory_arena : Option Arena
  pub client : C

-- The same between two requests, with no object at hand.
abbrev pub Shared : Type 0 → Type 0
Shared Os = Machine Os (Unit {0})
