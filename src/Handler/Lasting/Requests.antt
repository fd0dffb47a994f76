-- ===== src/Handler/Lasting/Requests.antt =====
-- `process_request` of src/handler.c keeps what lasts.
use cn_cw.Common.{ℕ, Bytes, codes}
use cn_cw.Conn.{Conn, HttpHeader, ServerSettings}
use cn_cw.Handler.{State}
use cn_cw.Handler.Lasting.{Lasting, Lasts, Lasts-and_then, then-Lasts}
use cn_cw.Handler.Lasting.Answers.{error_response-Lasts}
use cn_cw.Handler.Response.{error_response}
use cn_cw.Handler.Serve.{
  ReadReqData, read_ok, read_empty, read_too_large, parsed, request_data, process_request,
}
use cn_cw.Http.{
  HttpReq, ParseResult, parse_ok, invalid_syntax, invalid_version, uri_too_long, invalid_method,
}
use cn_cw.Http.Tables
use cn_cw.Http.Tables.{
  HttpMethod, get, head, HttpStatusCode, http_content_type_str, internal_server_error, forbidden,
  bad_request, version_no_supported, method_not_allowed,
}
use cn_cw.Log.{warn, log_msg}
use cn_cw.Memory.Neutral.{Stable, log_msg-Stable}
use cn_cw.Outcome.{Outcome, Cmd, and_then}
use cn_cw.PgList.{PgList}
use cn_cw.Platform.{Platform}
use cn_cw.Handler.Lasting.Files.{serve_request-Lasts}
use cn_cw.Handler.Lasting.Reading.{read_req_data-Lasts}
use cn_cw.Http.Request.Allocates.{parse_http_req-Stable}

module _ (platform : Platform) (headers : PgList (platform.Os) HttpHeader Conn)
    (I : State platform → Type 0) (lasting : Lasting platform headers I) where
  open platform use {Os, read, free, stat, realpath, open_file}
  open headers use {nil}
  open lasting use {
    neutral, after_read, after_stat, after_realpath, after_free, after_open, after_open_failed,
    after_lappend, after_conn,
  }

  then :
      {A B : Type 0} (o : Outcome (State platform) A) (k : A → Cmd (State platform) B)
      → Stable I o
      → ((a : A) (m : State platform) → I m → Lasts I (k a m))
      → Lasts I (and_then o k)
  then = then-Lasts platform headers I lasting

  module _ (fuel : ℕ) where
    -- A line in the log, and an error response.
    refuse-Lasts :
        (text : Bytes) (code : HttpStatusCode) (m : State platform)
        → I m
        → Lasts I (
            and_then
              (log_msg platform warn text m)
              (λ _. error_response platform headers fuel code))
    refuse-Lasts text code m h =
        then _ _ (log_msg-Stable platform I neutral warn text m h)
          (λ _ m1 h1. error_response-Lasts platform headers I lasting fuel code m1 h1)

    parsed-Lasts :
        (settings : ServerSettings) (text : Bytes) (r : ParseResult × HttpReq) (m : State platform)
        → I m
        → Lasts I (parsed platform headers fuel settings text r m)
    unfolding parsed
    parsed-Lasts settings text (parse_ok, req) m h =
        serve_request-Lasts platform headers I lasting fuel req.method req settings m h
    parsed-Lasts settings text (invalid_syntax, req) m h = refuse-Lasts _ bad_request m h
    parsed-Lasts settings text (invalid_version, req) m h = refuse-Lasts _ version_no_supported m h
    parsed-Lasts settings text (uri_too_long, req) m h = refuse-Lasts _ Tables.uri_too_long m h
    parsed-Lasts settings text (invalid_method, req) m h = refuse-Lasts _ method_not_allowed m h

    request_data-Lasts :
        (settings : ServerSettings) (req : HttpReq) (r : ReadReqData) (m : State platform)
        → I m
        → Lasts I (request_data platform headers fuel settings req r m)
    unfolding request_data
    request_data-Lasts settings req read_empty m h = h
    request_data-Lasts settings req read_too_large m h =
        then _ _ (log_msg-Stable platform I neutral warn (codes "request too large") m h)
          (λ _ m1 h1.
            Lasts-and_then I _ _
              (error_response-Lasts platform headers I lasting fuel bad_request m1 h1)
              (λ _ m2 h2. tt))
    request_data-Lasts settings req (read_ok text) m h =
        then _ _ (parse_http_req-Stable platform I neutral settings.uri_length_limit text req m h)
          (parsed-Lasts settings text)

    pub process_request-Lasts :
        (req : HttpReq) (settings : ServerSettings) (m : State platform)
        → I m
        → Lasts I (process_request platform headers fuel req settings m)
    unfolding process_request
    process_request-Lasts req settings m h =
        Lasts-and_then I _ _ (read_req_data-Lasts platform headers I lasting settings m h)
          (request_data-Lasts settings req)
