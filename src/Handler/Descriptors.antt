-- ===== src/Handler/Descriptors.antt =====
-- No descriptor is lost in src/handler.c: the connection holds what `process_request` opens, on every
-- path.
use cn_cw.Common.{ℕ, ◌+◌, ◌≡◌, refl, sym, ap, ◌∙◌, arith, ◌++◌, [], ◌∷◌}
use cn_cw.Conn.{Conn, HttpHeader, ServerSettings}
use cn_cw.Descriptors.{Descriptors, OpensNothing, file_one, fds}
use cn_cw.Handler.{State, process_request_write}
use cn_cw.Handler.Lasting.{Lasting, Lasts, process_request_write-Lasts}
use cn_cw.Handler.Lasting.Answers.{error_response-Lasts}
use cn_cw.Handler.Lasting.Requests.{process_request-Lasts}
use cn_cw.Handler.Response.{error_response}
use cn_cw.Handler.Serve.{process_request}
use cn_cw.Http.{HttpReq}
use cn_cw.Http.Tables.{HttpStatusCode}
use cn_cw.Memory.Neutral.{Stable}
use cn_cw.Log.{stderr_fileno}
use cn_cw.Outcome.{Ensures-Leaves, Leaves-mono, Leaves-both}
use cn_cw.PgList.{PgList, Appends}
use cn_cw.Platform.{Platform}
use cn_cw.Sockets.{Sockets}

module _ (platform : Platform) {sockets : Sockets platform}
    (descriptors : Descriptors platform sockets)
    (headers : PgList (platform.Os) HttpHeader Conn) where
  open descriptors use {
    opened, localtime_opened, getpid_opened, gmtime_opened, calloc_opened, free_opened, read_opened,
    write_opened, get_flags_opened, set_flags_opened, stat_opened, realpath_opened, open_got,
    open_failed,
  }

  fds_same :
      (c d : Conn) (x : ℕ) → c.sock_fd ≡ d.sock_fd → c.file_fd ≡ d.file_fd → fds c x ≡ fds d x
  unfolding fds
  fds_same c d x s f = rw (s, f) refl

  -- Of the descriptor `x` the connection holds its own, and `rest` are held elsewhere.
  abbrev pub Accounted : ℕ → ℕ → State platform → Type 0
  Accounted x rest m = opened m.os x ≡ rest + fds m.client x

  lappend_client :
      (appends : Appends headers) (l : headers.Cells) (h : HttpHeader) (m : State platform)
      → Stable (λ m'. m'.client ≡ m.client) (headers.lappend l h m)
  lappend_client appends l h m =
      Ensures-Leaves
        (λ l' m'. (headers.elements l' ≡ headers.elements l ++ h ∷ []) × (m'.client ≡ m.client))
        (λ _ m'. m'.client ≡ m.client) (λ _. ⊥) (λ _. Unit {0}) (headers.lappend l h m)
        (λ l' m' e. e.1) (appends.elements-lappend l h m)

  -- So does every property of the connection and of how often `x` is open.
  lappend-Accounted :
      (appends : Appends headers) (quiet : OpensNothing descriptors headers) (x rest : ℕ)
      (l : headers.Cells) (header : HttpHeader) (m : State platform)
      → Accounted x rest m
      → Stable (Accounted x rest) (headers.lappend l header m)
  lappend-Accounted appends quiet x rest l header m h =
      Leaves-mono (λ _ m'. (opened m'.os x ≡ opened m.os x) × (m'.client ≡ m.client))
        (λ _ m'. opened m'.os x ≡ rest + fds m'.client x) (λ _. ⊥ × ⊥) (λ _. ⊥)
        (headers.lappend l header m)
        (Leaves-both (λ _ m'. opened m'.os x ≡ opened m.os x) (λ _ m'. m'.client ≡ m.client)
          (λ _. ⊥) (λ _. ⊥) (headers.lappend l header m) (quiet.lappend_opened l header m x)
          (lappend_client appends l header m))
        (λ _ m' e. e.0 ∙ h ∙ ap (λ c. rest + fds c x) (sym e.1)) (λ s e. e.0)

  pub Accounted-Lasting :
      (appends : Appends headers) (quiet : OpensNothing descriptors headers) (x rest : ℕ)
      → Lasting platform headers (Accounted x rest)
  unfolding fds file_one
  Accounted-Lasting appends quiet x rest = record {
    neutral = record {
      after_localtime = λ m h. localtime_opened m.os x ∙ h;
      after_getpid = λ m h. getpid_opened m.os x ∙ h;
      after_write = λ bs m h. write_opened stderr_fileno bs m.os x ∙ h;
      after_calloc = λ n m h. calloc_opened n m.os x ∙ h;
      after_arena = λ a m h. h;
    };
    after_write = λ fd bs m h. write_opened fd bs m.os x ∙ h;
    after_gmtime = λ m h. gmtime_opened m.os x ∙ h;
    after_read = λ fd n m h. read_opened fd n m.os x ∙ h;
    after_get_flags = λ fd m h. get_flags_opened fd m.os x ∙ h;
    after_set_flags = λ fd n m h. set_flags_opened fd n m.os x ∙ h;
    after_stat = λ path m h. stat_opened path m.os x ∙ h;
    after_realpath = λ path m h. realpath_opened path m.os x ∙ h;
    after_free = λ a m h. free_opened a m.os x ∙ h;
    after_open = λ path m fd os e no_file h.
        omega (arith, open_got path m.os x e, h, ap (λ f. file_one f x) no_file);
    after_open_failed = λ path m e os failure h. open_failed path m.os x failure ∙ h;
    after_lappend = λ l header m h. (lappend-Accounted appends quiet x rest l header m h);
    after_conn = λ c m s f h. h ∙ ap (λ k. rest + k) (sym (fds_same c m.client x s f));
  }

  module _ (appends : Appends headers) (quiet : OpensNothing descriptors headers) (x rest : ℕ) where
    -- Whether `process_request` returns or aborts the request, the connection holds each
    -- descriptor that it opened.
    pub process_request-Accounted :
        (fuel : ℕ) (req : HttpReq) (settings : ServerSettings) (m : State platform)
        → Accounted x rest m
        → Lasts (Accounted x rest) (process_request platform headers fuel req settings m)
    process_request-Accounted fuel =
        process_request-Lasts platform headers (Accounted x rest)
          (Accounted-Lasting appends quiet x rest) fuel

    pub process_request_write-Accounted :
        (fuel : ℕ) (m : State platform)
        → Accounted x rest m
        → Lasts (Accounted x rest) (process_request_write platform fuel m)
    process_request_write-Accounted =
        process_request_write-Lasts platform headers (Accounted x rest)
          (Accounted-Lasting appends quiet x rest)

    pub error_response-Accounted :
        (fuel : ℕ) (code : HttpStatusCode) (m : State platform)
        → Accounted x rest m
        → Lasts (Accounted x rest) (error_response platform headers fuel code m)
    error_response-Accounted =
        error_response-Lasts platform headers (Accounted x rest)
          (Accounted-Lasting appends quiet x rest)
