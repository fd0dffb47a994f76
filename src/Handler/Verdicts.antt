-- ===== src/Handler/Verdicts.antt =====
-- In which state `process_request` of src/handler.c leaves a connection, on every path.
use cn_cw.Common.{ℕ, ◌≡◌, inl, inr, Bytes}
use cn_cw.Conn.{Conn, HttpHeader, ServerSettings}
use cn_cw.Handler.{State}
use cn_cw.Handler.Answers.{Finished, then_next, error_response-Finished}
use cn_cw.Handler.Files.{serve_request-Underway}
use cn_cw.Handler.Keeps.{log_msg-Keeps}
use cn_cw.Handler.Parsing.{parse_http_req-Keeps, Unmoved, Recoverable, read_req_data-Unmoved}
use cn_cw.Handler.Response.{error_response}
use cn_cw.Handler.Serve.{
  ReadReqData, read_ok, read_empty, read_too_large, parsed, request_data, process_request,
}
use cn_cw.Handler.States.{Underway, Broken, Settled, Failed}
use cn_cw.Http.{
  HttpReq, ParseResult, parse_ok, invalid_syntax, invalid_version, uri_too_long, invalid_method,
}
use cn_cw.Http.Tables.{
  HttpMethod, get, head, HttpStatusCode, http_content_type_str, internal_server_error, forbidden,
  bad_request, version_no_supported, method_not_allowed,
}
use cn_cw.Http.Tables
use cn_cw.Log.{warn, log_msg}
use cn_cw.Outcome.{and_then, Leaves, Leaves-and_then, Leaves-mono}
use cn_cw.PgList.{PgList, Appends}
use cn_cw.Platform.{Platform}

module _ (platform : Platform) (headers : PgList (platform.Os) HttpHeader Conn)
    (appends : Appends headers) (fuel : ℕ) where
  open platform use {Os, read, stat, realpath, open_file, free}
  open headers use {nil, lappend}

  -- A line in the log, and an error response.
  refuse-Underway :
      (text : Bytes) (code : HttpStatusCode) (m : State platform)
      → Leaves
          (Underway platform)
          (Broken platform)
          (and_then (log_msg platform warn text m) (λ _. error_response platform headers fuel code))
  refuse-Underway text code m =
      then_next platform (Underway platform) m.client _ _ (log_msg-Keeps platform warn text m)
        (λ _ m'.
          Leaves-mono (Finished platform) (Underway platform) (Broken platform) (Broken platform) _
            (error_response-Finished platform headers fuel appends code m') (λ a s h. inl h)
            (λ s h. h))

  parsed-Underway :
      (settings : ServerSettings) (text : Bytes) (r : ParseResult × HttpReq) (m : State platform)
      → Leaves
          (Underway platform)
          (Broken platform)
          (parsed platform headers fuel settings text r m)
  unfolding parsed
  parsed-Underway settings text (parse_ok, req) m =
      serve_request-Underway platform headers appends fuel req.method req settings m
  parsed-Underway settings text (invalid_syntax, req) m = refuse-Underway _ bad_request m
  parsed-Underway settings text (invalid_version, req) m = refuse-Underway _ version_no_supported m
  parsed-Underway settings text (uri_too_long, req) m = refuse-Underway _ Tables.uri_too_long m
  parsed-Underway settings text (invalid_method, req) m = refuse-Underway _ method_not_allowed m

  request_data-Underway :
      (settings : ServerSettings) (req : HttpReq) (text : Bytes) (m : State platform)
      → Leaves
          (Underway platform)
          (Broken platform)
          (request_data platform headers fuel settings req (read_ok text) m)
  unfolding request_data
  request_data-Underway settings req text m =
      then_next platform (Underway platform) m.client _ _
        (parse_http_req-Keeps platform settings.uri_length_limit text req m)
        (parsed-Underway settings text)

  Underway-Settled :
      {A : Type 0} (c : Conn) (a : A) (m : State platform)
      → Underway platform a m
      → Settled platform c a m
  Underway-Settled c a m (inl h) = inl h
  Underway-Settled c a m (inr h) = inr (inl h)

  too_large-Underway :
      (settings : ServerSettings) (req : HttpReq) (m : State platform)
      → Leaves
          (Underway platform)
          (Broken platform)
          (request_data platform headers fuel settings req read_too_large m)
  unfolding request_data
  too_large-Underway settings req m =
      then_next platform (Underway platform) m.client _ _ (log_msg-Keeps platform _ _ m) (λ _ m1.
        Leaves-and_then (Finished platform) (Broken platform) (Underway platform) (Broken platform)
          _ _ (error_response-Finished platform headers fuel appends bad_request m1) (λ s h. h)
          (λ _ m2 h. tt))

  request_data-Settled :
      (settings : ServerSettings) (req : HttpReq) (c : Conn) (r : ReadReqData) (m : State platform)
      → m.client.state ≡ c.state
      → Leaves
          (Settled platform c)
          (Failed platform)
          (request_data platform headers fuel settings req r m)
  request_data-Settled settings req c read_empty m h = unfold request_data in (inr (inr h))
  request_data-Settled settings req c read_too_large m h =
      Leaves-mono (Underway platform) (Settled platform c) (Broken platform) (Failed platform) _
        (too_large-Underway settings req m) (Underway-Settled c) (λ s e. inr e)
  request_data-Settled settings req c (read_ok text) m h =
      Leaves-mono (Underway platform) (Settled platform c) (Broken platform) (Failed platform) _
        (request_data-Underway settings req text m) (Underway-Settled c) (λ s e. inr e)

  -- Whatever the request, the files and the socket are: where `process_request` returns, the
  -- connection is complete, or sends a file, or has the state it came with, and where it jumps, the state
  -- is that of a recoverable or of an unrecoverable error. `lappend` is as documented, and nothing is
  -- said of a run that exits, fails an assertion, overruns a buffer or uses up its fuel.
  pub process_request-Settled :
      (req : HttpReq) (settings : ServerSettings) (m : State platform)
      → Leaves
          (Settled platform m.client)
          (Failed platform)
          (process_request platform headers fuel req settings m)
  unfolding process_request
  process_request-Settled req settings m =
      Leaves-and_then (Unmoved platform m.client) (Recoverable platform) (Settled platform m.client)
        (Failed platform) _ _ (read_req_data-Unmoved platform settings m) (λ s e. inl e)
        (λ r m' h. request_data-Settled settings req m.client r m' h)
