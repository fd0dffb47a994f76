-- ===== src/Handler/Quiet.antt =====
-- The calls that a request (src/handler.c) makes besides its reads and writes, and what they leave
-- alone: the bytes of files and sockets.
use cn_cw.Common.{ℕ, ◌^◌, ◌<◌, ◌≡◌, ◌≢◌, ◌∙◌, Option, none, some, [], ◌∷◌, ◌++◌, Bytes}
use cn_cw.Conn.{Conn, HttpHeader}
use cn_cw.Handler.{State}
use cn_cw.Handler.Response.Built.{Building}
use cn_cw.Handler.Streams.{Streams}
use cn_cw.Log.{stderr_fileno}
use cn_cw.Machine.{Arena}
use cn_cw.Memory.Neutral.{Stable}
use cn_cw.Outcome.{Leaves-both, Leaves-mono, Ensures-Leaves}
use cn_cw.PgList.{PgList, Appends}
use cn_cw.Platform.{Platform, got}

-- `g_memory_arena` is no null pointer.
abbrev pub HasArena : Option Arena → Type 0
HasArena none = ⊥
HasArena (some _) = Unit

module _ (platform : Platform) (streams : Streams platform) where
  open platform use {
    Os, calloc, free, write, get_flags, set_flags, stat, realpath, open_file, gmtime, localtime,
    getpid,
  }
  open streams use {unread, sent}

  -- No file has lost a byte, and no socket has got one.
  abbrev pub Same : Os → Os → Type 0
  Same os os' = (fd : ℕ) → (unread os' fd ≡ unread os fd) × (sent os' fd ≡ sent os fd)

  -- The calls that touch neither files nor sockets, an `open` that hands out a descriptor other than
  -- the ones in use, standard error and `s`, a size that is an `off_t`, and `lappend`, which works
  -- on memory alone.
  pub record Quiet (headers : PgList Os HttpHeader Conn) (s : ℕ) : Type 0 where
    pub calloc_same : (n : ℕ) (os : Os) → Same os (calloc n os).1
    pub free_same : (p : ℕ) (os : Os) → Same os (free p os)
    pub gmtime_same : (os : Os) → Same os (gmtime os).1
    pub get_flags_same : (fd : ℕ) (os : Os) → Same os (get_flags fd os).1
    pub set_flags_same : (fd n : ℕ) (os : Os) → Same os (set_flags fd n os).1
    pub stat_same : (path : Bytes) (os : Os) → Same os (stat path os).1
    pub realpath_same : (path : Bytes) (os : Os) → Same os (realpath path os).1
    pub open_sent : (path : Bytes) (os : Os) (t : ℕ) → sent (open_file path os).1 t ≡ sent os t
    pub open_fresh :
        (path : Bytes) (os : Os) {fd : ℕ} {os' : Os}
        → open_file path os ≡ (got fd, os')
        → (stderr_fileno ≢ fd) × (s ≢ fd)
    pub stat_size :
        (path : Bytes) (os : Os) {n : ℕ} {os' : Os} → stat path os ≡ (got n, os') → n < 2 ^ 63
    pub lappend_same :
        (l : headers.Cells) (h : HttpHeader) (m : State platform)
        → Stable
            (λ m'. Same m.os m'.os × (HasArena m.g_memory_arena → HasArena m'.g_memory_arena))
            (headers.lappend l h m)

  -- A property of the system that such calls, and the lines of the log, keep.
  pub record Steady (K : Os → Type 0) : Type 0 where
    pub after_same : (os os' : Os) → Same os os' → K os → K os'
    pub after_line : (bs : Bytes) (os : Os) → K os → K (write stderr_fileno bs os).1

  -- Connection `c` is at work in an arena.
  abbrev pub Here : (Os → Type 0) → Conn → State platform → Type 0
  Here K c m = (m.client ≡ c) × K m.os × HasArena m.g_memory_arena

  lappend-Here :
      (headers : PgList Os HttpHeader Conn) (s : ℕ) (K : Os → Type 0) (c : Conn)
      → Appends headers
      → Quiet headers s
      → Steady K
      → (l : headers.Cells) (h : HttpHeader) (m : State platform) → Here K c m
      → Stable (Here K c) (headers.lappend l h m)
  lappend-Here headers s K c appends quiet steady l h m (e, k, a) =
      let same_client : headers.Cells → State platform → Type 0 =
        λ l' m'. (headers.elements l' ≡ headers.elements l ++ h ∷ []) × (m'.client ≡ m.client) in
      let same_os : headers.Cells → State platform → Type 0 =
        λ l' m'. Same m.os m'.os × (HasArena m.g_memory_arena → HasArena m'.g_memory_arena) in
      Leaves-mono (λ l' m'. same_client l' m' × same_os l' m') (λ _. Here K c) (λ s. ⊥ × ⊥) (λ _. ⊥)
        (headers.lappend l h m)
        (Leaves-both same_client same_os (λ _. ⊥) (λ _. ⊥) (headers.lappend l h m)
          (Ensures-Leaves same_client same_client (λ _. ⊥) (λ _. Unit {0}) (headers.lappend l h m)
            (λ l' m' i. i) (appends.elements-lappend l h m))
          (quiet.lappend_same l h m))
        (λ l' m' ((_, client_is), (same, stays)).
          (client_is ∙ e, steady.after_same _ _ same k, stays a))
        (λ s i. i.0)

  pub Here-Building :
      (headers : PgList Os HttpHeader Conn) (s : ℕ) (K : Os → Type 0) (c : Conn)
      → Appends headers
      → Quiet headers s
      → Steady K
      → Building platform headers (Here K c)
  Here-Building headers s K c appends quiet steady = record {
    neutral = record {
      after_localtime =
          λ m (e, k, a). (e, steady.after_same _ _ (λ fd. streams.localtime_same m.os fd) k, a);
      after_getpid =
          λ m (e, k, a). (e, steady.after_same _ _ (λ fd. streams.getpid_same m.os fd) k, a);
      after_write = λ bs m (e, k, a). (e, steady.after_line bs m.os k, a);
      after_calloc = λ n m (e, k, a). (e, steady.after_same _ _ (quiet.calloc_same n m.os) k, a);
      after_arena = λ a m (e, k, _). (e, k, tt);
    };
    after_gmtime = λ m (e, k, a). (e, steady.after_same _ _ (quiet.gmtime_same m.os) k, a);
    after_lappend = lappend-Here headers s K c appends quiet steady;
  }

  -- The socket has got `w`.
  abbrev pub Sent : ℕ → Bytes → Os → Type 0
  Sent s w os = sent os s ≡ w

  pub Sent-Steady : (s : ℕ) (w : Bytes) → stderr_fileno ≢ s → Steady (Sent s w)
  Sent-Steady s w s_ne = record {
    after_same = λ os os' same e. (same s).1 ∙ e;
    after_line = λ bs os e. streams.write_other stderr_fileno bs os s s_ne ∙ e;
  }

  -- The socket has got `w`, and file `f` is to give `u`.
  abbrev pub Opened : ℕ → Bytes → ℕ → Bytes → Os → Type 0
  Opened s w f u os = (sent os s ≡ w) × (unread os f ≡ u)

  pub Opened-Steady :
      (s : ℕ) (w : Bytes) (f : ℕ) (u : Bytes)
      → stderr_fileno ≢ s
      → stderr_fileno ≢ f
      → Steady (Opened s w f u)
  Opened-Steady s w f u s_ne f_ne = record {
    after_same = λ os os' same (e, h). ((same s).1 ∙ e, (same f).0 ∙ h);
    after_line = λ bs os (e, h). (
      streams.write_other stderr_fileno bs os s s_ne ∙ e,
      streams.write_unread stderr_fileno bs os f f_ne ∙ h,
    );
  }
