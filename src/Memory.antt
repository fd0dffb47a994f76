-- ===== src/Memory.antt =====
-- src/memory.c: the arena that holds a request's data, and the allocation functions that use it
-- while `g_memory_arena` is set.
pub mod Layout
pub mod Alloc
pub mod Neutral
pub mod Proper
pub mod Realloc
pub mod Runs
use cn_cw.Common.{
  ℕ, ◌+◌, ◌-◌, ◌*◌, ◌/◌, ◌%◌, ◌^◌, Bool, true, Option, none, some, List, [], ◌∷◌, ltb, ◌==◌,
  if◌then◌else◌, Bytes, codes, length,
}
use cn_cw.Format.{snprintf}
use cn_cw.Log.{fatal, log_msg}
use cn_cw.Machine.{Block, Arena, Store, Machine}
use cn_cw.Outcome.{
  memory_c, Outcome, returns, jumps, exits, asserts, overruns, spins, Cmd, and_then, ◌>>=◌, pure,
}
use cn_cw.Platform.{Platform}

-- `size_t`.
abbrev pub word : ℕ → ℕ
word n = n % 2 ^ 64

-- `sizeof(struct memory_arena_block)`.
abbrev pub block_header : ℕ
block_header = 32

-- `(size_init + 15) & ~15`.
unfoldable pub align_up : ℕ → ℕ
align_up n = word (n + 15) / 16 * 16

-- `get_alignment_offset(arena, 16)`; `x & 15` is `x % 16`.
unfoldable pub get_alignment_offset : Block → ℕ
get_alignment_offset b = let low = word (b.base + b.used) % 16 in if low == 0 then 0 else 16 - low

-- `!current_block || current_block->used + size > current_block->size`.
unfoldable pub needs_block : List Block → ℕ → Bool
needs_block [] size = true
needs_block (b ∷ bs) size = ltb b.size (word (b.used + size))

-- The default of a zero `minimum_block_size`.
unfoldable pub minimum : ℕ → ℕ
minimum n = if n == 0 then 2 ^ 16 else n

unfoldable pub new_block_size : ℕ → ℕ → ℕ
new_block_size least size = if ltb size least then least else size

module _ (platform : Platform) where
  open platform use {Os, calloc, free}

  -- The end of `arena_alloc`: `size` bytes of the current block are used up.
  unfoldable pub carve : ℕ → ℕ → List Block → ℕ → Os → Outcome (Store Os) (Option ℕ)
  unfolding get_alignment_offset
  carve size size_init [] least os =
      asserts memory_c
        (record { arena = record { blocks = []; minimum_block_size = least }; os = os })
  carve size size_init (b ∷ bs) least os =
      let st : Store Os = record {
        arena = record { blocks = b ∷ bs; minimum_block_size = least };
        os = os;
      } in
      let offset = word (b.used + get_alignment_offset b) in
      if ltb b.size (word (b.used + size))
      then asserts memory_c st
      else if ltb b.size (word (offset + size))
      then asserts memory_c st
      else if ltb size size_init
      then asserts memory_c st
      else returns (some (word (b.base + offset))) (record st {
        arena = record {
          blocks = record b { used = word (b.used + size) } ∷ bs;
          minimum_block_size = least;
        };
      })

  -- `calloc` of a new block, which becomes the current one.
  unfoldable pub grow : ℕ → Arena → Option ℕ × Os → Outcome (Store Os) (Option ℕ)
  grow size_init arena (none, os) = returns none (record {
    arena = record arena { minimum_block_size = minimum arena.minimum_block_size };
    os = os;
  })
  grow size_init arena (some p, os) =
      let least = minimum arena.minimum_block_size in
      let fresh : Block = record {
        size = new_block_size least size_init;
        used = 0;
        base = word (p + block_header);
      } in
      carve size_init size_init (fresh ∷ arena.blocks) least os

  unfoldable pub arena_alloc : ℕ → Cmd (Store Os) (Option ℕ)
  arena_alloc size_init st =
      let arena = st.arena in
      let size = align_up size_init in
      let block_size = new_block_size (minimum arena.minimum_block_size) size_init in
      if size_init == 0
      then returns none st
      else if needs_block arena.blocks size
      then grow size_init arena (calloc (word (block_size + block_header)) st.os)
      else carve size size_init arena.blocks arena.minimum_block_size st.os

  -- `free_last_block` until `current_block` is NULL; the test for the last block only ends the
  -- loop a round earlier.
  unfoldable pub clear_blocks : List Block → Os → Os
  clear_blocks [] os = os
  clear_blocks (b ∷ []) os = free (b.base - block_header) os
  clear_blocks (b ∷ c ∷ bs) os = clear_blocks (c ∷ bs) (free (b.base - block_header) os)

  unfoldable pub arena_clear : Store Os → Store Os
  unfolding clear_blocks
  arena_clear st = record {
    arena = record { blocks = []; minimum_block_size = st.arena.minimum_block_size };
    os = clear_blocks st.arena.blocks st.os;
  }

module _ (platform : Platform) {C : Type 0} where
  open platform use {Os, calloc, free}

  abbrev pub with_store : Machine Os C → Store Os → Machine Os C
  with_store m st = record m { os = st.os; g_memory_arena = some st.arena }

  -- `arena_alloc` on the arena that `g_memory_arena` points to. It neither jumps nor exits.
  abbrev pub store_outcome :
      {A : Type 0} → Machine Os C → Outcome (Store Os) A → Outcome (Machine Os C) A
  store_outcome m (returns r st) = returns r (with_store m st)
  store_outcome m (jumps st) = jumps (with_store m st)
  store_outcome m (exits f st) = exits f (with_store m st)
  store_outcome m (asserts f st) = asserts f (with_store m st)
  store_outcome m (overruns st) = overruns (with_store m st)
  store_outcome m (spins st) = spins (with_store m st)

  -- The memory that `server_alloc` asks for: of the arena, or of `calloc`.
  unfoldable pub request_memory : Option Arena → ℕ → Cmd (Machine Os C) (Option ℕ)
  unfolding arena_alloc
  request_memory none size m = let (r, os) = calloc size m.os in returns r (record m { os = os })
  request_memory (some arena) size m =
      store_outcome m (arena_alloc platform size (record { arena = arena; os = m.os }))

  -- Out of memory: a line in the log, and `exit`.
  unfoldable pub or_exit : {A : Type 0} → Option A → Cmd (Machine Os C) A
  unfolding log_msg
  or_exit (some p) m = returns p m
  or_exit none m = and_then (log_msg platform fatal (codes "OOM") m) (λ _ m'. exits memory_c m')

  unfoldable pub server_alloc : ℕ → Cmd (Machine Os C) ℕ
  unfolding request_memory or_exit
  server_alloc size m = (request_memory m.g_memory_arena size >>= or_exit) m

  -- `server_strdup`: the copy takes a byte more than the text, for the NUL.
  unfoldable pub server_strdup : Bytes → Cmd (Machine Os C) Bytes
  unfolding server_alloc
  server_strdup src = server_alloc (length src + 1) >>= λ _. pure src

  -- `server_memfmt` of a text that the format makes: a copy of what fits 4096 bytes.
  unfoldable pub server_memfmt : Bytes → Cmd (Machine Os C) Bytes
  unfolding server_strdup
  server_memfmt text = server_strdup (snprintf 4096 text).0

  -- In an arena nothing is freed one by one.
  unfoldable pub server_free : ℕ → Machine Os C → Machine Os C
  server_free p m = elim m.g_memory_arena [ none ↦ record m { os = free p m.os } | some _ ↦ m ]
