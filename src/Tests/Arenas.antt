-- ===== src/Tests/Arenas.antt =====
-- The arena of src/memory.c on a small system.
use cn_cw.Common.{[], arith, codes}
use cn_cw.Machine.{Store, empty_arena}
use cn_cw.Memory.{arena_alloc}
use cn_cw.Memory.Alloc.{IsArena, AfterAlloc, HeldBlocks, arena_alloc_sound}
use cn_cw.Memory.Realloc.{arena_realloc, Moved, arena_realloc-Moved}
use cn_cw.Outcome.{Ensures}
use cn_cw.Tests.Toy.{ToyOs, toy_os, toy, toy_allocates}

abbrev fresh : Store ToyOs
fresh = record { arena = empty_arena; os = toy_os }

fresh-IsArena : IsArena toy toy_allocates fresh []
unfolding HeldBlocks
fresh-IsArena = record {
  layout = record { sound = tt; apart = tt; placed = tt; disjoint = tt };
  held = tt;
  least_aligned = omega arith;
  least_small = omega arith;
}

arena_alloc_sound_example :
    Ensures (AfterAlloc toy toy_allocates 100 []) (λ _. ⊥) (λ _. ⊥) (arena_alloc toy 100 fresh)
arena_alloc_sound_example =
    arena_alloc_sound toy toy_allocates 100 fresh [] fresh-IsArena (omega arith)

arena_realloc-Moved_example :
    Moved toy toy_allocates
      (codes "hello")
      5
      100
      []
      (arena_alloc toy 100 fresh)
      (arena_realloc toy (codes "hello") 5 100 fresh)
arena_realloc-Moved_example =
    arena_realloc-Moved toy toy_allocates (codes "hello") 5 100 fresh [] fresh-IsArena (omega arith)
      (omega arith)
