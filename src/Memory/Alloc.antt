-- ===== src/Memory/Alloc.antt =====
-- `arena_alloc` (src/memory.c) hands out aligned memory that shares no byte with what it handed
-- out before, and none of its assertions fails.
use cn_cw.Common.{
  ℕ, ◌+◌, ◌-◌, ◌%◌, ◌^◌, ◌≤◌, ◌<◌, ◌≡◌, refl, ◌⊎◌, inl, inr, false, Option, none, some, List, [],
  ◌∷◌, All, arith, ◌==◌, Bool-cases, ltb→ge,
}
use cn_cw.Machine.{Block, Store}
use cn_cw.Memory.{
  word, block_header, align_up, get_alignment_offset, needs_block, minimum, new_block_size, carve,
  grow, arena_alloc,
}
use cn_cw.Memory.Layout.{
  Region, up16, IsRoom, IsBlock, BlocksApart, IsLayout, IsOpen, IsLayout-IsOpen, IsOpen-fresh,
  IsLayout-carve,
}
use cn_cw.Outcome.{returns, Ensures}
use cn_cw.Platform.{Platform, Allocates}

get_alignment_offset-up16 : (b : Block) → IsRoom b → b.used + get_alignment_offset b ≡ up16 b.used
unfolding get_alignment_offset
get_alignment_offset-up16 b i = ground (arith, i.aligned, i.space, i.within)

align_up_bounds :
    (n : ℕ) → n < 2 ^ 62 → (n ≤ align_up n) × (align_up n % 16 ≡ 0) × (align_up n < n + 16)
unfolding align_up
align_up_bounds n h = (omega arith, omega arith, omega arith)

-- The sizes are those of real objects: at most PTRDIFF_MAX / 2.
module _ (platform : Platform) (allocates : Allocates platform) where
  open platform use {Os, calloc}
  open allocates use {
    Held, calloc_fresh, calloc_held, calloc_keeps, calloc_aligned, calloc_in_space,
  }

  unfoldable pub HeldBlocks : Os → List Block → Type 0
  HeldBlocks os = All (λ b. Held os (b.base - 32) (b.size + 32))

  -- The state of an arena with the regions that it has handed out.
  pub record IsArena (st : Store Os) (live : List Region) : Type 0 where
    pub layout : IsLayout st.arena.blocks live
    pub held : HeldBlocks st.os st.arena.blocks
    pub least_aligned : st.arena.minimum_block_size % 16 ≡ 0
    pub least_small : st.arena.minimum_block_size < 2 ^ 62

  carve_returns :
      (size n least : ℕ) (b : Block) (bs : List Block) (os : Os)
      → IsRoom b
      → n ≤ size
      → up16 b.used + size ≤ b.size
      → carve platform size n (b ∷ bs) least os
        ≡ returns (some (b.base + up16 b.used)) (record {
          arena = record {
            blocks = record b { used = b.used + size } ∷ bs;
            minimum_block_size = least;
          };
          os = os;
        })
  unfolding carve
  carve_returns size n least b bs os i le fits =
      ground (arith, get_alignment_offset-up16 b i, i.space, i.within)

  -- After an allocation of `n` bytes: the state is sound, with the new region if there is one.
  unfoldable pub AfterAlloc : ℕ → List Region → Option ℕ → Store Os → Type 0
  AfterAlloc n live none st = IsArena st live
  AfterAlloc n live (some p) st = IsArena st ((p, n) ∷ live) × (p % 16 ≡ 0)

  HeldBlocks-keeps :
      (size : ℕ) (os : Os) (r : Option ℕ) (os' : Os) (bs : List Block)
      → calloc size os ≡ (r, os')
      → HeldBlocks os bs
      → HeldBlocks os' bs
  unfolding HeldBlocks
  HeldBlocks-keeps size os r os' [] e h = tt
  HeldBlocks-keeps size os r os' (b ∷ bs) e h =
      (calloc_keeps size os e h.0, HeldBlocks-keeps size os r os' bs e h.1)

  BlocksApart-fresh :
      (total : ℕ) (os : Os) (q : ℕ) (os' : Os) (fresh : Block) (bs : List Block)
      → calloc total os ≡ (some q, os')
      → fresh.base ≡ q + 32
      → fresh.size + 32 ≡ total
      → All IsBlock bs
      → HeldBlocks os bs
      → All (BlocksApart fresh) bs
  unfolding HeldBlocks
  BlocksApart-fresh total os q os' fresh [] e at size sound h = tt
  BlocksApart-fresh total os q os' fresh (b ∷ bs) e at size sound h = (
    omega (arith, calloc_fresh total os e h.0, sound.0.room.header),
    BlocksApart-fresh total os q os' fresh bs e at size sound.1 h.1,
  )

  minimum_bounds : (n : ℕ) → n % 16 ≡ 0 → n < 2 ^ 62 → (minimum n % 16 ≡ 0) × (minimum n < 2 ^ 62)
  unfolding minimum
  minimum_bounds n a s = ground arith

  new_block_size_bounds :
      (least n : ℕ)
      → least % 16 ≡ 0
      → (n ≤ new_block_size least n)
        × ((new_block_size least n % 16 ≡ 0) ⊎ (n ≡ new_block_size least n))
        × (new_block_size least n ≤ least + n)
  unfolding new_block_size
  new_block_size_bounds least n a = (ground arith, ground arith, ground arith)

  carve_sound :
      (size n least : ℕ) (b : Block) (bs : List Block) (os : Os) (live : List Region)
      → IsOpen b bs live
      → HeldBlocks os (b ∷ bs)
      → least % 16 ≡ 0
      → least < 2 ^ 62
      → n ≤ size
      → up16 b.used + size ≤ b.size
      → (size % 16 ≡ 0) ⊎ (b.used ≡ 0)
      → (b.size % 16 ≡ 0) ⊎ (b.used + size ≡ b.size)
      → Ensures (AfterAlloc n live) (λ _. ⊥) (λ _. ⊥) (carve platform size n (b ∷ bs) least os)
  unfolding AfterAlloc HeldBlocks
  carve_sound size n least b bs os live l h al sm le fits whole shape =
      rw (carve_returns size n least b bs os l.room le fits) (
        record {
          layout = IsLayout-carve b bs live size n l le fits whole shape;
          held = h;
          least_aligned = al;
          least_small = sm;
        },
        omega (arith, l.room.aligned),
      )

  -- A new block at `q` serves the request from its start.
  fresh_sound :
      (n q size least : ℕ) (st : Store Os) (live : List Region) (os' : Os)
      → IsArena st live
      → calloc (size + 32) st.os ≡ (some q, os')
      → least % 16 ≡ 0
      → least < 2 ^ 62
      → n ≤ size
      → size < 2 ^ 63
      → (size % 16 ≡ 0) ⊎ (n ≡ size)
      → Ensures
          (AfterAlloc n live)
          (λ _. ⊥)
          (λ _. ⊥)
          (carve platform n n
            ((record { size = size; used = 0; base = q + 32 }) ∷ st.arena.blocks)
            least
            os')
  unfolding HeldBlocks
  fresh_sound n q size least st live os' a e al sm le bound shape =
      let b : Block = record { size = size; used = 0; base = q + 32 } in
      let room : IsRoom b = record {
        aligned = omega (arith, calloc_aligned (size + 32) st.os e);
        header = omega arith;
        space = omega (arith, calloc_in_space (size + 32) st.os e);
        small = bound;
        within = omega arith;
      } in
      let far =
        BlocksApart-fresh (size + 32) st.os q os' b st.arena.blocks e refl refl a.layout.sound
          a.held in
      let back : q + 32 - 32 ≡ q = omega arith in
      carve_sound n n least b st.arena.blocks os' live
        (IsOpen-fresh b st.arena.blocks live room far a.layout)
        (
          rw back (calloc_held (size + 32) st.os e),
          HeldBlocks-keeps (size + 32) st.os (some q) os' st.arena.blocks e a.held,
        )
        al sm (omega arith) (omega arith) (inr refl) (omega arith)

  grow_sound :
      (n : ℕ) (st : Store Os) (live : List Region) (r : Option ℕ) (os' : Os)
      → IsArena st live
      → n < 2 ^ 62
      → calloc (word (new_block_size (minimum st.arena.minimum_block_size) n + block_header)) st.os
        ≡ (r, os')
      → Ensures (AfterAlloc n live) (λ _. ⊥) (λ _. ⊥) (grow platform n st.arena (r, os'))
  unfolding AfterAlloc grow
  grow_sound n st live none os' a small e =
      let m = minimum_bounds st.arena.minimum_block_size a.least_aligned a.least_small in
      record {
        layout = a.layout;
        held = HeldBlocks-keeps _ st.os none os' st.arena.blocks e a.held;
        least_aligned = m.0;
        least_small = m.1;
      }
  grow_sound n st live (some q) os' a small e =
      let least = minimum st.arena.minimum_block_size in
      let m = minimum_bounds st.arena.minimum_block_size a.least_aligned a.least_small in
      let s = new_block_size_bounds least n m.0 in
      let size = new_block_size least n in
      let total : word (size + block_header) ≡ size + 32 = omega (arith, m.1, s.2) in
      let e' : calloc (size + 32) st.os ≡ (some q, os') = rw total at e in
      let at : word (q + block_header) ≡ q + 32 =
        omega (arith, calloc_in_space (size + 32) st.os e') in
      rw at (fresh_sound n q size least st live os' a e' m.0 m.1 s.0 (omega (arith, m.1, s.2)) s.1)

  -- The current block serves a request that fits it.
  current_sound :
      (n : ℕ) (blocks : List Block) (least : ℕ) (os : Os) (live : List Region)
      → IsArena
          (record { arena = record { blocks = blocks; minimum_block_size = least }; os = os })
          live
      → 0 < n
      → n < 2 ^ 62
      → needs_block blocks (align_up n) ≡ false
      → Ensures
          (AfterAlloc n live)
          (λ _. ⊥)
          (λ _. ⊥)
          (carve platform (align_up n) n blocks least os)
  unfolding needs_block
  current_sound n [] least os live a pos small room = cc
  current_sound n (b ∷ bs) least os live a pos small room =
      let i = a.layout.sound.0 in
      let up = align_up_bounds n small in
      let fits : b.used + align_up n ≤ b.size = omega (
        arith,
        ltb→ge b.size (word (b.used + align_up n)) room,
        up.2,
        i.room.within,
        i.room.small,
      ) in
      carve_sound (align_up n) n least b bs os live (IsLayout-IsOpen b bs live a.layout) a.held
        a.least_aligned a.least_small up.0 (omega (arith, up.0, up.1, i.shape)) (inl up.1)
        (omega (arith, up.0, i.shape))

  -- On a sound arena `arena_alloc` fails no assertion and keeps the arena sound: what it returns
  -- is NULL, with the live regions as before, or a multiple of 16 at which `n` bytes lie inside a
  -- block of the arena and apart from every live region. The size, and the least block size, are
  -- below 2 ^ 62, and the least block size is a multiple of 16.
  pub arena_alloc_sound :
      (n : ℕ) (st : Store Os) (live : List Region)
      → IsArena st live
      → n < 2 ^ 62
      → Ensures (AfterAlloc n live) (λ _. ⊥) (λ _. ⊥) (arena_alloc platform n st)
  unfolding arena_alloc AfterAlloc
  arena_alloc_sound n st live a small = elim (Bool-cases (n == 0)) [
    | inl z ↦ rw z a
    | inr pos ↦ rw pos (elim (Bool-cases (needs_block st.arena.blocks (align_up n))) [
      | inl full ↦ rw full (grow_sound n st live _ _ a small refl)
      | inr room ↦
          rw room (current_sound n st.arena.blocks _ st.os live a (ground arith) small room)
    ])
  ]
