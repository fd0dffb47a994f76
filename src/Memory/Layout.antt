-- ===== src/Memory/Layout.antt =====
-- What makes an arena sound: where its blocks lie, and where the memory it handed out lies in them.
use cn_cw.Common.{
  ℕ, ◌+◌, ◌*◌, ◌/◌, ◌%◌, ◌^◌, ◌≤◌, ◌<◌, ◌≡◌, ◌⊎◌, inl, inr, List, [], ◌∷◌, All, arith,
}
use cn_cw.Machine.{Block}
use cn_cw.Platform.{Apart}

-- A stretch of memory that `arena_alloc` returned: its address and the size asked for.
abbrev pub Region : Type 0
Region = ℕ × ℕ

-- The first multiple of 16 from `n` on.
abbrev pub up16 : ℕ → ℕ
up16 n = (n + 15) / 16 * 16

-- A block is aligned, lies in the address space behind its header, has the size of an object,
-- and is not overfull.
pub record IsRoom (b : Block) : Type 0 where
  pub aligned : b.base % 16 ≡ 0
  pub header : 32 ≤ b.base
  pub space : b.base + b.size < 2 ^ 64
  pub small : b.size < 2 ^ 63
  pub within : b.used ≤ b.size

-- Its size is a multiple of 16 as well, or it is full.
pub record IsBlock (b : Block) : Type 0 where
  pub room : IsRoom b
  pub shape : (b.size % 16 ≡ 0) ⊎ (b.used ≡ b.size)

-- The region lies in the used part of the block.
pub record InBlock (r : Region) (b : Block) : Type 0 where
  pub above : b.base ≤ r.0
  pub below : r.0 + r.1 ≤ b.base + b.size
  pub handed : r.0 + r.1 ≤ b.base + up16 b.used

abbrev pub InSome : Region → List Block → Type 0
InSome r [] = ⊥
InSome r (b ∷ bs) = InBlock r b ⊎ InSome r bs

abbrev pub BlocksApart : Block → Block → Type 0
BlocksApart b c = Apart b.base b.size c.base c.size

abbrev pub AllApart : List Block → Type 0
AllApart [] = Unit
AllApart (b ∷ bs) = All (BlocksApart b) bs × AllApart bs

abbrev pub RegionsApart : Region → Region → Type 0
RegionsApart r s = Apart r.0 r.1 s.0 s.1

abbrev Disjoint : List Region → Type 0
Disjoint [] = Unit
Disjoint (r ∷ rs) = All (RegionsApart r) rs × Disjoint rs

-- The blocks are sound and apart, and the live regions lie in them and share no byte.
pub record IsLayout (blocks : List Block) (live : List Region) : Type 0 where
  pub sound : All IsBlock blocks
  pub apart : AllApart blocks
  pub placed : All (λ r. InSome r blocks) live
  pub disjoint : Disjoint live

-- The same while the current block `b` is being filled, when its shape is open.
pub record IsOpen (b : Block) (bs : List Block) (live : List Region) : Type 0 where
  pub room : IsRoom b
  pub sound : All IsBlock bs
  pub apart : AllApart (b ∷ bs)
  pub placed : All (λ r. InSome r (b ∷ bs)) live
  pub disjoint : Disjoint live

pub IsLayout-IsOpen :
    (b : Block) (bs : List Block) (live : List Region) → IsLayout (b ∷ bs) live → IsOpen b bs live
IsLayout-IsOpen b bs live l = record {
  room = l.sound.0.room;
  sound = l.sound.1;
  apart = l.apart;
  placed = l.placed;
  disjoint = l.disjoint;
}

-- A region in one of the blocks that are apart from `b` is apart from one inside `b`.
pub RegionsApart-InSome :
    (b : Block) (r s : Region) (bs : List Block)
    → b.base ≤ r.0
    → r.0 + r.1 ≤ b.base + b.size
    → All (BlocksApart b) bs
    → InSome s bs
    → RegionsApart r s
RegionsApart-InSome b r s [] lo hi far h = absurd h
RegionsApart-InSome b r s (c ∷ bs) lo hi far (inl i) = omega (arith, i.above, i.below, far.0)
RegionsApart-InSome b r s (c ∷ bs) lo hi far (inr h) = RegionsApart-InSome b r s bs lo hi far.1 h

-- A region behind all that a block has handed out is apart from every live one.
pub RegionsApart-placed :
    (b : Block) (bs : List Block) (r : Region) (live : List Region)
    → b.base + up16 b.used ≤ r.0
    → r.0 + r.1 ≤ b.base + b.size
    → All (BlocksApart b) bs
    → All (λ s. InSome s (b ∷ bs)) live
    → All (RegionsApart r) live
RegionsApart-placed b bs r [] lo hi far placed = tt
RegionsApart-placed b bs r (s ∷ live) lo hi far (inl i, placed) =
    (omega (arith, i.handed), RegionsApart-placed b bs r live lo hi far placed)
RegionsApart-placed b bs r (s ∷ live) lo hi far (inr h, placed) = (
  RegionsApart-InSome b r s bs (omega arith) hi far h,
  RegionsApart-placed b bs r live lo hi far placed,
)

-- What was placed stays placed when the current block uses more.
pub placed-used :
    (b : Block) (used : ℕ) (bs : List Block) (live : List Region)
    → b.used ≤ used
    → All (λ s. InSome s (b ∷ bs)) live
    → All (λ s. InSome s (record b { used = used } ∷ bs)) live
placed-used b used bs [] more placed = tt
placed-used b used bs (s ∷ live) more (inl i, placed) = (
  inl (record { above = i.above; below = i.below; handed = omega (arith, i.handed) }),
  placed-used b used bs live more placed,
)
placed-used b used bs (s ∷ live) more (inr h, placed) =
    (inr h, placed-used b used bs live more placed)

pub placed-cons :
    (b : Block) (bs : List Block) (live : List Region)
    → All (λ s. InSome s bs) live
    → All (λ s. InSome s (b ∷ bs)) live
placed-cons b bs [] placed = tt
placed-cons b bs (s ∷ live) placed = (inr placed.0, placed-cons b bs live placed.1)

-- A new block on top of a sound layout.
pub IsOpen-fresh :
    (b : Block) (bs : List Block) (live : List Region)
    → IsRoom b
    → All (BlocksApart b) bs
    → IsLayout bs live
    → IsOpen b bs live
IsOpen-fresh b bs live room far l = record {
  room = room;
  sound = l.sound;
  apart = (far, l.apart);
  placed = placed-cons b bs live l.placed;
  disjoint = l.disjoint;
}

-- The current block hands out `n` bytes at the next multiple of 16 and counts `size` as used.
pub IsLayout-carve :
    (b : Block) (bs : List Block) (live : List Region) (size n : ℕ)
    → IsOpen b bs live
    → n ≤ size
    → up16 b.used + size ≤ b.size
    → (size % 16 ≡ 0) ⊎ (b.used ≡ 0)
    → (b.size % 16 ≡ 0) ⊎ (b.used + size ≡ b.size)
    → IsLayout (record b { used = b.used + size } ∷ bs) ((b.base + up16 b.used, n) ∷ live)
IsLayout-carve b bs live size n l le fits whole shape =
    let i = l.room in
    record {
      sound = (
        record {
          room = record {
            aligned = i.aligned;
            header = i.header;
            space = i.space;
            small = i.small;
            within = omega arith;
          };
          shape = shape;
        },
        l.sound,
      );
      apart = (l.apart.0, l.apart.1);
      placed = (
        inl (record { above = omega arith; below = omega arith; handed = omega arith }),
        placed-used b (b.used + size) bs live (omega arith) l.placed,
      );
      disjoint = (
        RegionsApart-placed b bs (b.base + up16 b.used, n) live (omega arith) (omega arith)
            l.apart.0 l.placed,
        l.disjoint,
      );
    }
