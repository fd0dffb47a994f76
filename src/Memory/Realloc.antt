-- ===== src/Memory/Realloc.antt =====
-- `arena_realloc` and `server_realloc` (src/memory.c). What a pointer points to is passed beside it, as
-- the bytes of the object.
use cn_cw.Common.{
  ◌||◌, ◌⊎◌, ◌≢◌, sym, take_of_length_le, take-take, length-take, ℕ, ◌≤◌, ◌<◌, ◌≡◌, ◌^◌, refl, inl,
  inr, Option, none, some, List, arith, ltb, ◌==◌, if◌then◌else◌, Bool-cases, Bytes, length, take,
  ==→eq, ge→ltb,
}
use cn_cw.Machine.{Store, Machine}
use cn_cw.Memory.{arena_alloc, store_outcome, or_exit}
use cn_cw.Memory.Alloc.{IsArena, AfterAlloc, arena_alloc_sound}
use cn_cw.Memory.Layout.{Region}
use cn_cw.Outcome.{Outcome, returns, jumps, exits, asserts, overruns, spins, Cmd, and_then, Ensures}
use cn_cw.Platform.{Platform, Allocates}

-- `old_size < new_size ? old_size : new_size`.
unfoldable pub lesser : ℕ → ℕ → ℕ
lesser old_size new_size = if ltb old_size new_size then old_size else new_size

module _ (platform : Platform) where
  open platform use {Os}

  -- `memcpy` of `n` bytes into the new memory of `size` bytes; into NULL it is an access outside of an
  -- object, as it is behind the end of the old one or of the new one.
  unfoldable pub copied : Bytes → ℕ → ℕ → Option ℕ → Cmd (Store Os) (Option (ℕ × Bytes))
  copied memory size n none st = if n == 0 then returns none st else overruns st
  copied memory size n (some p) st =
      if ltb (length memory) n || ltb size n
      then overruns st
      else returns (some (p, take n memory)) st

  unfoldable pub arena_realloc : Bytes → ℕ → ℕ → Cmd (Store Os) (Option (ℕ × Bytes))
  unfolding arena_alloc copied lesser
  arena_realloc memory old_size new_size st =
      and_then (arena_alloc platform new_size st)
        (copied memory new_size (lesser old_size new_size))

  -- `realloc(memory, size)` is the C library's: the new address, where the bytes of the old object
  -- stand as far as they fit.
  module _ (realloc : ℕ → ℕ → Os → Option ℕ × Os) {C : Type 0} where
    unfoldable pub resized : Bytes → ℕ → Option ℕ → Cmd (Machine Os C) (ℕ × Bytes)
    unfolding or_exit
    resized memory size r m = and_then (or_exit platform r m) (λ p. returns (p, take size memory))

    unfoldable pub server_realloc : ℕ → Bytes → ℕ → ℕ → Cmd (Machine Os C) (ℕ × Bytes)
    unfolding arena_realloc resized or_exit
    server_realloc address memory old_size size m = elim m.g_memory_arena [
      | some arena ↦
          and_then
            (store_outcome platform m
              (arena_realloc memory old_size size (record { arena = arena; os = m.os })))
            (or_exit platform)
      | none ↦
          let (r, os) = realloc address size m.os in resized memory size r (record m { os = os })
    ]

  module _ (allocates : Allocates platform) where
    -- How `arena_realloc` may end, by how its allocation did: with nothing to copy and no memory,
    -- with the copy in new memory, or, out of memory, at the copy into NULL.
    abbrev pub Moved :
        Bytes
        → ℕ
        → ℕ
        → List Region
        → Outcome (Store Os) (Option ℕ)
        → Outcome (Store Os) (Option (ℕ × Bytes))
        → Type 0
    Moved memory old new live alloc (returns none st) =
        (alloc ≡ returns none st) × ((old ≡ 0) ⊎ (new ≡ 0)) × IsArena platform allocates st live
    Moved memory old new live alloc (returns (some (p, bs)) st) =
        (bs ≡ take new (take old memory)) × AfterAlloc platform allocates new live (some p) st
    Moved memory old new live alloc (overruns st) =
        (alloc ≡ returns none st) × (0 < old) × (0 < new) × IsArena platform allocates st live
    Moved memory old new live alloc (jumps st) = ⊥
    Moved memory old new live alloc (exits f st) = ⊥
    Moved memory old new live alloc (asserts f st) = ⊥
    Moved memory old new live alloc (spins st) = ⊥

    lesser_bounds :
        (a b : ℕ)
        → (lesser a b ≤ a)
          × (lesser a b ≤ b)
          × (lesser a b ≡ 0 → (a ≡ 0) ⊎ (b ≡ 0))
          × (lesser a b ≢ 0 → (0 < a) × (0 < b))
    unfolding lesser
    lesser_bounds a b = elim (Bool-cases (ltb a b)) [
      | inl less ↦
          rw less (omega arith, ground (arith, less), λ z. inl z, λ ne. ground (arith, less))
      | inr ge ↦ rw ge (ground (arith, ge), omega arith, λ z. inr z, λ ne. ground (arith, ge))
    ]

    take-lesser : (a b : ℕ) (bs : Bytes) → take (lesser a b) bs ≡ take b (take a bs)
    unfolding lesser
    take-lesser a b bs = elim (Bool-cases (ltb a b)) [
      | inl less ↦
          let is_less : a < b = ground (arith, less) in
          rw less (sym (take_of_length_le b (take a bs) (omega (arith, is_less, length-take a bs))))
      | inr ge ↦ rw ge (sym (take-take b a bs (ground (arith, ge))))
    ]

    copied-Moved :
        (memory : Bytes) (old new : ℕ) (live : List Region) (r : Option ℕ) (st : Store Os)
        → old ≤ length memory
        → AfterAlloc platform allocates new live r st
        → Moved memory old new live (returns r st) (copied memory new (lesser old new) r st)
    unfolding copied AfterAlloc
    copied-Moved memory old new live none st fits h =
        let (_, _, zero_at, some_at) = lesser_bounds old new in
        elim (Bool-cases (lesser old new == 0)) [
          | inl z ↦ rw z (refl, zero_at (==→eq (lesser old new) 0 z), h)
          | inr pos ↦
              let (old_pos, new_pos) = some_at (λ e. ground (arith, pos, e)) in
              rw pos (refl, old_pos, new_pos, h)
        ]
    copied-Moved memory old new live (some p) st fits h =
        let (le_old, le_new, _, _) = lesser_bounds old new in
        rw
          (
            ge→ltb (length memory) (lesser old new) (omega (arith, le_old, fits)),
            ge→ltb new (lesser old new) le_new,
          )
          (take-lesser old new memory, h)

    and_then-Moved :
        (memory : Bytes) (old new : ℕ) (live : List Region) (o : Outcome (Store Os) (Option ℕ))
        → old ≤ length memory
        → Ensures (AfterAlloc platform allocates new live) (λ _. ⊥) (λ _. ⊥) o
        → Moved memory old new live o (and_then o (copied memory new (lesser old new)))
    and_then-Moved memory old new live (returns r st) fits h =
        copied-Moved memory old new live r st fits h
    and_then-Moved memory old new live (jumps st) fits h = h
    and_then-Moved memory old new live (exits f st) fits h = h
    and_then-Moved memory old new live (asserts f st) fits h = h
    and_then-Moved memory old new live (overruns st) fits h = absurd h
    and_then-Moved memory old new live (spins st) fits h = h

    -- On a sound arena `arena_realloc` of an object with at least `old_size` bytes fails no assertion
    -- and keeps the arena sound. What it returns holds the first bytes of the old object, as many as
    -- both sizes allow, in memory that is aligned and apart from every live region. Where its
    -- allocation returns NULL it returns NULL if one of the sizes is 0, and else it writes to NULL;
    -- no other access leaves an object. The sizes are as for `arena_alloc`.
    pub arena_realloc-Moved :
        (memory : Bytes) (old_size new_size : ℕ) (st : Store Os) (live : List Region)
        → IsArena platform allocates st live
        → new_size < 2 ^ 62
        → old_size ≤ length memory
        → Moved memory old_size new_size live
            (arena_alloc platform new_size st)
            (arena_realloc memory old_size new_size st)
    unfolding arena_realloc
    arena_realloc-Moved memory old_size new_size st live a small enough =
        and_then-Moved memory old_size new_size live (arena_alloc platform new_size st) enough
          (arena_alloc_sound platform allocates new_size st live a small)
