-- ===== src/Memory/Neutral.antt =====
-- Logging (src/server.c) and allocation (src/memory.c) keep every property of the machine that the
-- calls they make to the system keep.
use cn_cw.Common.{
  ℕ, inl, inr, Option, none, some, List, [], ◌∷◌, ltb, ◌==◌, Bool-cases, Bytes, length, ◌+◌, codes,
}
use cn_cw.Log.{LogLevel, fatal, put_line, log_msg, log_perror, stderr_fileno}
use cn_cw.Machine.{Block, Arena, Store, Machine}
use cn_cw.Memory.{
  word, get_alignment_offset, align_up, needs_block, carve, grow, arena_alloc, with_store,
  store_outcome, request_memory, or_exit, server_alloc, server_strdup,
}
use cn_cw.Outcome.{
  Outcome, returns, jumps, exits, asserts, overruns, spins, Cmd, and_then, Leaves, Leaves-and_then,
}
use cn_cw.Platform.{Platform, Errno}

-- A property that the calls of the log and of the allocator keep, and that says nothing of the arena.
pub record Neutral (p : Platform) {C : Type 0} (I : Machine p.Os C → Type 0) : Type 0 where
  pub after_localtime : (m : Machine p.Os C) → I m → I (record m { os = (p.localtime m.os).1 })
  pub after_getpid : (m : Machine p.Os C) → I m → I (record m { os = (p.getpid m.os).1 })
  pub after_write :
      (bs : Bytes) (m : Machine p.Os C)
      → I m
      → I (record m { os = (p.write stderr_fileno bs m.os).1 })
  pub after_calloc : (n : ℕ) (m : Machine p.Os C) → I m → I (record m { os = (p.calloc n m.os).1 })
  pub after_arena :
      (a : Arena) (m : Machine p.Os C) → I m → I (record m { g_memory_arena = some a })

-- Nothing is asked of the machine.
pub any : (p : Platform) {C : Type 0} → Neutral p {C = C} (λ _. Unit {0})
any p = record {
  after_localtime = λ m h. tt;
  after_getpid = λ m h. tt;
  after_write = λ bs m h. tt;
  after_calloc = λ n m h. tt;
  after_arena = λ a m h. tt;
}

-- `I` holds where the outcome returns, and there is no jump.
abbrev pub Stable : {S A : Type 0} → (S → Type 0) → Outcome S A → Type 0
Stable I o = Leaves (λ _. I) (λ _. ⊥) o

pub Stable-and_then :
    {S A B : Type 0} (I : S → Type 0) (Q : B → S → Type 0) (J : S → Type 0) (o : Outcome S A)
    (k : A → Cmd S B)
    → Stable I o
    → ((a : A) (s : S) → I s → Leaves Q J (k a s))
    → Leaves Q J (and_then o k)
Stable-and_then I Q J o k h next =
    Leaves-and_then (λ _. I) (λ _. ⊥) Q J o k h (λ s e. absurd e) next

module _ (platform : Platform) {C : Type 0} (I : Machine (platform.Os) C → Type 0)
    (neutral : Neutral platform I) where
  open platform use {Os, calloc, localtime, getpid}
  open neutral use {after_localtime, after_getpid, after_write, after_calloc, after_arena}

  put_line-Stable : (line : Bytes) (m : Machine Os C) → I m → Stable I (put_line platform line m)
  unfolding put_line
  put_line-Stable line m h = elim (Bool-cases (ltb 4096 (length line))) [
    | inl long ↦ rw long tt
    | inr fits ↦ rw fits (after_write _ m h)
  ]

  pub log_msg-Stable :
      (level : LogLevel) (text : Bytes) (m : Machine Os C)
      → I m
      → Stable I (log_msg platform level text m)
  unfolding log_msg
  log_msg-Stable level text m h =
      put_line-Stable _ (record m { os = (getpid (localtime m.os).1).1 })
        (after_getpid (record m { os = (localtime m.os).1 }) (after_localtime m h))

  pub log_perror-Stable :
      (level : LogLevel) (err : Errno) (text : Bytes) (m : Machine Os C)
      → I m
      → Stable I (log_perror platform level err text m)
  unfolding log_perror
  log_perror-Stable level err text m h =
      put_line-Stable _ (record m { os = (getpid (localtime m.os).1).1 })
        (after_getpid (record m { os = (localtime m.os).1 }) (after_localtime m h))

  -- What `arena_alloc` leaves: the system that it had, or the one that `calloc` gives back.
  HoldsIn : Machine Os C → Store Os → Type 0
  HoldsIn m st = I (with_store platform m st)

  carve-Stable :
      (m : Machine Os C) (size n : ℕ) (bs : List Block) (least : ℕ) (os : Os)
      → ((a : Arena) → I (record m { os = os; g_memory_arena = some a }))
      → Stable (HoldsIn m) (carve platform size n bs least os)
  unfolding carve HoldsIn
  carve-Stable m size n [] least os h = tt
  carve-Stable m size n (b ∷ bs) least os h =
      elim (Bool-cases (ltb b.size (word (b.used + size)))) [
        | inl full ↦ rw full tt
        | inr room ↦
            rw room
              (elim (Bool-cases
                (ltb b.size (word (word (b.used + get_alignment_offset b) + size)))) [
                  | inl late ↦ rw late tt
                  | inr fits ↦ rw fits (elim (Bool-cases (ltb size n)) [
                    | inl small ↦ rw small tt
                    | inr large ↦ rw large (h _)
                  ])
                ])
      ]

  grow-Stable :
      (m : Machine Os C) (n : ℕ) (arena : Arena) (r : Option ℕ × Os)
      → ((a : Arena) → I (record m { os = r.1; g_memory_arena = some a }))
      → Stable (HoldsIn m) (grow platform n arena r)
  unfolding grow
  grow-Stable m n arena (none, os) h = unfold HoldsIn in (h _)
  grow-Stable m n arena (some p, os) h = carve-Stable m _ _ _ _ _ h

  arena_alloc-Stable :
      (m : Machine Os C) (n : ℕ) (arena : Arena)
      → I m
      → Stable (HoldsIn m) (arena_alloc platform n (record { arena = arena; os = m.os }))
  unfolding arena_alloc
  arena_alloc-Stable m n arena h = elim (Bool-cases (n == 0)) [
    | inl nothing ↦ rw nothing (unfold HoldsIn in (after_arena _ m h))
    | inr asked ↦ rw asked (elim (Bool-cases (needs_block arena.blocks (align_up n))) [
      | inl full ↦ rw full (
          grow-Stable m n arena _
            (λ a. after_arena a (record m { os = (calloc _ m.os).1 }) (after_calloc _ m h)))
      | inr fits ↦ rw fits (carve-Stable m _ _ _ _ _ (λ a. after_arena a m h))
    ])
  ]

  store_outcome-Stable :
      (m : Machine Os C) (o : Outcome (Store Os) (Option ℕ))
      → Stable (HoldsIn m) o
      → Stable I (store_outcome platform m o)
  unfolding HoldsIn
  store_outcome-Stable m (returns r st) h = h
  store_outcome-Stable m (jumps st) h = h
  store_outcome-Stable m (exits f st) h = tt
  store_outcome-Stable m (asserts f st) h = tt
  store_outcome-Stable m (overruns st) h = tt
  store_outcome-Stable m (spins st) h = tt

  pub request_memory-Stable :
      (arena : Option Arena) (n : ℕ) (m : Machine Os C)
      → I m
      → Stable I (request_memory platform arena n m)
  unfolding request_memory
  request_memory-Stable none n m h = after_calloc n m h
  request_memory-Stable (some arena) n m h =
      store_outcome-Stable m _ (arena_alloc-Stable m n arena h)

  or_exit-Stable : (r : Option ℕ) (m : Machine Os C) → I m → Stable I (or_exit platform r m)
  unfolding or_exit
  or_exit-Stable (some p) m h = h
  or_exit-Stable none m h =
      Stable-and_then I (λ _. I) (λ _. ⊥) _ _ (log_msg-Stable fatal (codes "OOM") m h)
        (λ _ m' h'. tt)

  pub server_alloc-Stable : (n : ℕ) (m : Machine Os C) → I m → Stable I (server_alloc platform n m)
  unfolding server_alloc
  server_alloc-Stable n m h =
      Stable-and_then I (λ _. I) (λ _. ⊥) _ _ (request_memory-Stable m.g_memory_arena n m h)
        or_exit-Stable

  pub server_strdup-Stable :
      (text : Bytes) (m : Machine Os C) → I m → Stable I (server_strdup platform text m)
  unfolding server_strdup
  server_strdup-Stable text m h =
      Stable-and_then I (λ _. I) (λ _. ⊥) _ _ (server_alloc-Stable (length text + 1) m h)
        (λ _ m' h'. h')
