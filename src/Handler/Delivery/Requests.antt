-- ===== src/Handler/Delivery/Requests.antt =====
-- `process_request` (src/handler.c) from the bytes that the socket gives to those that it gets.
use cn_cw.Common.{
  replicate, length-replicate, ℕ, ◌^◌, ◌≤◌, ◌<◌, ◌≡◌, ◌≢◌, refl, sym, subst, inl, inr, [], ◌∷◌,
  ◌++◌, arith, ltb, ltb→ge, Bool-cases, Bytes, codes, length, length-append,
}
use cn_cw.Conn.{Conn, HttpHeader, ServerSettings}
use cn_cw.Handler.{State, pending}
use cn_cw.Handler.Quiet.{Quiet, HasArena}
use cn_cw.Handler.Delivery.{IsFresh, received, Came, Delivered, Handled, Overlong, Gone}
use cn_cw.Handler.Delivery.Errors.{Waits}
use cn_cw.Handler.Delivery.Reading.{length-c_string, Read, read_req_data-Read}
use cn_cw.Handler.Delivery.Found.{Idle}
use cn_cw.Handler.Delivery.Served.{serve_request-Delivered}
use cn_cw.Handler.Response.Built.{Dates}
use cn_cw.Handler.Serve.{
  ReadReqData, read_ok, read_empty, read_too_large, c_string, parsed, request_data, process_request,
}
use cn_cw.Handler.States.{Failed}
use cn_cw.Handler.Streams.{length-overwrite_ge, Streams, Progress}
use cn_cw.Http.{
  HttpReq, ParseResult, parse_ok, invalid_syntax, invalid_version, uri_too_long, invalid_method,
  parse_http_req,
}
use cn_cw.Http.Request.Allocates.{parse_http_req-Proper}
use cn_cw.Http.Request.Blames.{parse_http_req-Says}
use cn_cw.Http.Request.Reasons.{Reason}
use cn_cw.Http.Request.Sound.{parse_http_req-ok}
use cn_cw.Http.Tables
use cn_cw.Http.Tables.{HttpStatusCode, bad_request, method_not_allowed, version_no_supported}
use cn_cw.Log.{stderr_fileno}
use cn_cw.Log.Bounds.{LogsFit}
use cn_cw.Memory.Runs.{Runs, Runs-and_then, Proper-Runs}
use cn_cw.Memory.Proper.{Proper-returned}
use cn_cw.Outcome.{returns}
use cn_cw.PgList.{PgList, Appends}
use cn_cw.Platform.{Platform, got}
use cn_cw.Handler.Delivery.Turned.{
  turn_down-Runs, turn_down_long, text_short, not_line, over_limit, answer-Building,
}

module _ (platform : Platform) (streams : Streams platform) (fit : LogsFit platform)
    (dates : Dates platform) (headers : PgList (platform.Os) HttpHeader Conn)
    (appends : Appends headers) (w : Bytes) (c : Conn)
    (quiet : Quiet platform streams headers c.sock_fd) (s_ne : stderr_fileno ≢ c.sock_fd) (fuel : ℕ)
    (settings : ServerSettings) where
  open platform use {Os, read, open_file}
  open streams use {unread, sent}

  abbrev size : ℕ
  size = settings.read_buf_size

  abbrev HandledIs : State platform → Type 0
  HandledIs = Handled platform streams fit settings w c

  abbrev OverlongIs : State platform → Type 0
  OverlongIs = Overlong platform streams fit settings w c

  module _ (bs : Bytes) (came : Came platform streams size c bs) (some_came : bs ≢ [])
      (short : length bs < size) (small : size < 2 ^ 62) where
    abbrev text : Bytes
    text = c_string (bs ++ 0 ∷ [])

    abbrev AtAnswer : State platform → Type 0
    AtAnswer = Waits platform streams fit dates headers appends w (received c size bs) quiet s_ne

    shorter : length text < size
    shorter =
        text_short platform streams fit dates headers appends w c quiet s_ne fuel settings bs came
          some_came short small

    received-Idle : IsFresh c → Idle (received c size bs)
    unfolding pending
    received-Idle fresh = (
      fresh.no_file,
      record {
        cursor_le = omega (arith, fresh.no_cursor);
        len_le = omega (arith, fresh.no_len);
        size_le = omega (
          arith,
          length-replicate {A = ℕ} size 0,
          length-overwrite_ge (replicate size 0) (bs ++ 0 ∷ []),
        );
        room = omega (arith, short);
      },
      rw (fresh.no_len, fresh.no_cursor) refl,
    )

    pub parsed-Handled :
        (old : HttpReq) (r : ParseResult) (req : HttpReq) (before m : State platform)
        → Progress platform
        → ((path : Bytes) (os : Os) (fd : ℕ) (os' : Os)
            → open_file path os ≡ (got fd, os')
            → length (unread os' fd) < fuel)
        → IsFresh c
        → parse_http_req platform settings.uri_length_limit text old before ≡ returns (r, req) m
        → AtAnswer m
        → Runs
            (λ _. HandledIs)
            (Failed platform)
            OverlongIs
            (parsed platform headers fuel settings text (r, req) m)
    unfolding parsed
    parsed-Handled old parse_ok req before m progress enough fresh e h =
        let (is_request, fits) =
          parse_http_req-ok platform settings.uri_length_limit text old req before m e
            (omega (arith, shorter, small)) in
        Proper-Runs
          (λ _.
            Delivered platform streams fit req.method settings.static_dir req w
              (received c size bs))
          (λ _. HandledIs) (Gone platform streams) (Failed platform) OverlongIs _
          (λ _ m' d. inr (bs, came, some_came, inl (req, is_request, fits, d))) (λ s e. inr e)
          (serve_request-Delivered platform streams fit dates headers appends w (received c size bs)
            quiet s_ne fuel settings req req.method m progress enough (received-Idle fresh) refl h)
    parsed-Handled old invalid_syntax req before m progress enough fresh e h =
        let why : Reason settings.uri_length_limit text bad_request =
          parse_http_req-Says platform settings.uri_length_limit text old req invalid_syntax before
            m e in
        let lacks =
          not_line platform streams fit dates headers appends w c quiet s_ne fuel settings bs came
            some_came short small old invalid_syntax req before m (λ i. cc) (λ i. cc) e in
        elim (Bool-cases (ltb 4000 (length bs))) [
          | inl long ↦
              turn_down_long platform streams fit dates headers appends w c quiet s_ne fuel settings
                bs came some_came short small (codes "invalid request syntax " ++ text) bad_request
                m (ground (arith, long)) why lacks h
          | inr brief ↦
              turn_down-Runs platform streams fit dates headers appends w c quiet s_ne fuel settings
                bs came some_came short small (codes "invalid request syntax " ++ text) bad_request
                m
                (omega (
                  arith,
                  length-c_string bs,
                  ltb→ge 4000 (length bs) brief,
                  length-append (codes "invalid request syntax ") text,
                ))
                (why, inl lacks) h
        ]
    parsed-Handled old invalid_version req before m progress enough fresh e h =
        turn_down-Runs platform streams fit dates headers appends w c quiet s_ne fuel settings bs
          came some_came short small (codes "invalid request version") version_no_supported m
          (omega arith)
          (
            parse_http_req-Says platform settings.uri_length_limit text old req invalid_version
                before m e,
            inl (
                not_line platform streams fit dates headers appends w c quiet s_ne fuel settings bs
                  came some_came short small old invalid_version req before m (λ i. cc) (λ i. cc)
                  e),
          )
          h
    parsed-Handled old uri_too_long req before m progress enough fresh e h =
        turn_down-Runs platform streams fit dates headers appends w c quiet s_ne fuel settings bs
          came some_came short small (codes "uri too long") Tables.uri_too_long m (omega arith)
          (over_limit platform streams fit dates headers appends w c quiet s_ne fuel settings bs
            came some_came short small old req before m e)
          h
    parsed-Handled old invalid_method req before m progress enough fresh e h =
        turn_down-Runs platform streams fit dates headers appends w c quiet s_ne fuel settings bs
          came some_came short small (codes "invalid method") method_not_allowed m (omega arith)
          (
            parse_http_req-Says platform settings.uri_length_limit text old req invalid_method
                before m e,
            inl (
                not_line platform streams fit dates headers appends w c quiet s_ne fuel settings bs
                  came some_came short small old invalid_method req before m (λ i. cc) (λ i. cc) e),
          )
          h

    pub asked-Handled :
        (old : HttpReq) (m : State platform)
        → Progress platform
        → ((path : Bytes) (os : Os) (fd : ℕ) (os' : Os)
            → open_file path os ≡ (got fd, os')
            → length (unread os' fd) < fuel)
        → IsFresh c
        → AtAnswer m
        → Runs
            (λ _. HandledIs)
            (Failed platform)
            OverlongIs
            (request_data platform headers fuel settings old (read_ok text) m)
    unfolding request_data
    asked-Handled old m progress enough fresh h =
        let parse = parse_http_req platform settings.uri_length_limit text old m in
        let read_line : ParseResult × HttpReq → State platform → Type 0 =
          λ a s. AtAnswer s × (parse ≡ returns a s) in
        Runs-and_then read_line (λ _. HandledIs) (Failed platform) OverlongIs _ _
          (Proper-Runs read_line read_line (Failed platform) (Failed platform) OverlongIs _
            (λ a s r. r) (λ s r. r)
            (Proper-returned (λ _. AtAnswer) (Failed platform) parse
              (parse_http_req-Proper platform AtAnswer
                (answer-Building platform streams fit dates headers appends w c quiet s_ne fuel
                  settings bs came some_came short small).neutral
                fit (Failed platform) settings.uri_length_limit text old m h)))
          (λ r m' (h', e). parsed-Handled old r.0 r.1 m m' progress enough fresh e h')

  request_data-Handled :
      (old : HttpReq) (r : ReadReqData) (m : State platform)
      → Progress platform
      → ((path : Bytes) (os : Os) (fd : ℕ) (os' : Os)
          → open_file path os ≡ (got fd, os')
          → length (unread os' fd) < fuel)
      → size < 2 ^ 62
      → IsFresh c
      → Read platform streams fit dates headers appends w c quiet s_ne settings r m
      → Runs
          (λ _. HandledIs)
          (Failed platform)
          OverlongIs
          (request_data platform headers fuel settings old r m)
  request_data-Handled old (read_ok line) m progress enough small fresh
        (bs, came, some_came, short, is_text, h) =
      subst
        (λ t.
          Runs (λ _. HandledIs) (Failed platform) OverlongIs
            (request_data platform headers fuel settings old (read_ok t) m))
        (sym is_text) (asked-Handled bs came some_came short small old m progress enough fresh h)
  request_data-Handled old read_empty m progress enough small fresh (came, (is_c, k, set)) =
      unfold request_data in (inl (came, is_c, k))
  request_data-Handled old read_too_large m progress enough small fresh h = absurd h

  pub process_request-Handled :
      (old : HttpReq) (m : State platform)
      → Progress platform
      → ((path : Bytes) (os : Os) (fd : ℕ) (os' : Os)
          → open_file path os ≡ (got fd, os')
          → length (unread os' fd) < fuel)
      → 1 ≤ settings.read_buf_size
      → settings.read_buf_size < 2 ^ 62
      → IsFresh c
      → m.client ≡ c
      → sent m.os c.sock_fd ≡ w
      → HasArena m.g_memory_arena
      → Runs
          (λ _. HandledIs)
          (Failed platform)
          OverlongIs
          (process_request platform headers fuel old settings m)
  unfolding process_request
  process_request-Handled old m progress enough room small fresh is_c k set =
      let read_it = Read platform streams fit dates headers appends w c quiet s_ne settings in
      Runs-and_then read_it (λ _. HandledIs) (Failed platform) OverlongIs _ _
        (Proper-Runs read_it read_it (Failed platform) (Failed platform) OverlongIs _ (λ a s r. r)
          (λ s r. r)
          (read_req_data-Read platform streams fit dates headers appends w c quiet s_ne settings m
            room small fresh (is_c, k, set)))
        (λ r m' h. request_data-Handled old r m' progress enough small fresh h)
