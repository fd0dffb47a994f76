-- ===== src/Handler/Delivery/Turned.antt =====
-- What `process_request` (src/handler.c) turns down, with a line in the log and a status.
use cn_cw.Common.{ℕ, ◌^◌, ◌≤◌, ◌<◌, ◌≡◌, ◌≢◌, refl, inl, inr, [], ◌∷◌, ◌++◌, arith, Bytes, length}
use cn_cw.Conn.{Conn, HttpHeader, ServerSettings}
use cn_cw.Handler.{State}
use cn_cw.Handler.Quiet.{Quiet}
use cn_cw.Handler.Delivery.{received, Came, TurnsDown, Handled, Overlong, Gone}
use cn_cw.Handler.Delivery.Errors.{Waits, Waits-Building, ErrorSent, error_response-Sent}
use cn_cw.Handler.Delivery.Reading.{length-c_string}
use cn_cw.Handler.Response.{error_response}
use cn_cw.Handler.Response.Built.{Building, Dates}
use cn_cw.Handler.Serve.{c_string}
use cn_cw.Handler.States.{Failed}
use cn_cw.Handler.Streams.{Streams}
use cn_cw.Http.{HttpReq, ParseResult, parse_ok, uri_too_long, parse_http_req}
use cn_cw.Http.Request.{IsRequest}
use cn_cw.Http.Request.Blames.{parse_http_req-Says}
use cn_cw.Http.Request.Reasons.{Reason}
use cn_cw.Http.Request.Refuses.{not_ok}
use cn_cw.Http.Tables
use cn_cw.Http.Tables.{HttpStatusCode, bad_request, method_not_allowed, version_no_supported}
use cn_cw.Log.{warn, log_msg, stderr_fileno}
use cn_cw.Log.Bounds.{LogsFit}
use cn_cw.Memory.Runs.{Runs, Runs-and_then, Proper-Runs, log_msg-Runs}
use cn_cw.Memory.Proper.{log_msg-Proper}
use cn_cw.Outcome.{returns, and_then}
use cn_cw.PgList.{PgList, Appends}
use cn_cw.Platform.{Platform}

module _ (platform : Platform) (streams : Streams platform) (fit : LogsFit platform)
    (dates : Dates platform) (headers : PgList (platform.Os) HttpHeader Conn)
    (appends : Appends headers) (w : Bytes) (c : Conn)
    (quiet : Quiet platform streams headers c.sock_fd) (s_ne : stderr_fileno ≢ c.sock_fd) (fuel : ℕ)
    (settings : ServerSettings) where
  open platform use {Os, read, open_file}
  open streams use {unread, sent}

  abbrev size : ℕ
  size = settings.read_buf_size

  abbrev HandledIs : State platform → Type 0
  HandledIs = Handled platform streams fit settings w c

  abbrev OverlongIs : State platform → Type 0
  OverlongIs = Overlong platform streams fit settings w c

  module _ (bs : Bytes) (came : Came platform streams size c bs) (some_came : bs ≢ [])
      (short : length bs < size) (small : size < 2 ^ 62) where
    abbrev pub text : Bytes
    text = c_string (bs ++ 0 ∷ [])

    abbrev pub AtAnswer : State platform → Type 0
    AtAnswer = Waits platform streams fit dates headers appends w (received c size bs) quiet s_ne

    pub answer-Building : Building platform headers AtAnswer
    answer-Building =
        Waits-Building platform streams fit dates headers appends w (received c size bs) quiet s_ne

    -- An error response, which is the answer.
    refuse-Runs :
        (code : HttpStatusCode) (m : State platform)
        → TurnsDown settings.uri_length_limit text code
        → AtAnswer m
        → Runs
            (λ _. HandledIs)
            (Failed platform)
            OverlongIs
            (error_response platform headers fuel code m)
    refuse-Runs code m why h =
        Proper-Runs
          (λ _.
            ErrorSent platform streams fit dates headers appends w (received c size bs) quiet s_ne
              code)
          (λ _. HandledIs) (Gone platform streams) (Failed platform) OverlongIs _
          (λ _ m2 (date, d, sent_head).
            inr (bs, came, some_came, inr (code, date, why, d, sent_head)))
          (λ s e. inr e)
          (error_response-Sent platform streams fit dates headers appends w (received c size bs)
            quiet s_ne fuel code m h)

    pub turn_down-Runs :
        (line : Bytes) (code : HttpStatusCode) (m : State platform)
        → length line ≤ 4045
        → TurnsDown settings.uri_length_limit text code
        → AtAnswer m
        → Runs
            (λ _. HandledIs)
            (Failed platform)
            OverlongIs
            (and_then
              (log_msg platform warn line m)
              (λ _. error_response platform headers fuel code))
    turn_down-Runs line code m fits why h =
        Runs-and_then (λ _. AtAnswer) (λ _. HandledIs) (Failed platform) OverlongIs _ _
          (Proper-Runs (λ _. AtAnswer) (λ _. AtAnswer) (Failed platform) (Failed platform)
            OverlongIs _ (λ a s i. i) (λ s i. i)
            (log_msg-Proper platform fit (Failed platform) AtAnswer answer-Building.neutral warn
              line m fits h))
          (λ _ m1 h1. refuse-Runs code m1 why h1)

    -- The line may not fit the buffer of the log.
    pub turn_down_long :
        (line : Bytes) (code : HttpStatusCode) (m : State platform)
        → 4000 < length bs
        → Reason settings.uri_length_limit text code
        → ¬ ((req : HttpReq) × IsRequest text req)
        → AtAnswer m
        → Runs
            (λ _. HandledIs)
            (Failed platform)
            OverlongIs
            (and_then
              (log_msg platform warn line m)
              (λ _. error_response platform headers fuel code))
    turn_down_long line code m long why lacks h =
        Runs-and_then (λ _. AtAnswer) (λ _. HandledIs) (Failed platform) OverlongIs _ _
          (log_msg-Runs platform AtAnswer answer-Building.neutral (Failed platform) OverlongIs
            (λ _. (bs, came, long, lacks)) warn line m h)
          (λ _ m1 h1. refuse-Runs code m1 (why, inl lacks) h1)

    pub text_short : length text < size
    text_short = omega (arith, length-c_string bs, short)

    pub not_line :
        (old : HttpReq) (r : ParseResult) (req : HttpReq) (before m : State platform)
        → r ≢ parse_ok
        → r ≢ uri_too_long
        → parse_http_req platform settings.uri_length_limit text old before ≡ returns (r, req) m
        → ¬ ((asked : HttpReq) × IsRequest text asked)
    not_line old r req before m ne short e (asked, is_line) =
        short
          (not_ok platform settings.uri_length_limit text old asked req before m r ne e
            (omega (arith, text_short, small)) is_line).0

    pub over_limit :
        (old req : HttpReq) (before m : State platform)
        → parse_http_req platform settings.uri_length_limit text old before
          ≡ returns (uri_too_long, req) m
        → TurnsDown settings.uri_length_limit text Tables.uri_too_long
    over_limit old req before m e = (
      parse_http_req-Says platform settings.uri_length_limit text old req uri_too_long before m e,
      inr (
        refl,
        λ (asked, is_line, fits).
            let (_, long) =
              not_ok platform settings.uri_length_limit text old asked req before m uri_too_long
                (λ i. cc) e (omega (arith, text_short, small)) is_line in
            omega (arith, fits, long),
      ),
    )
