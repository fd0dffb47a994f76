-- ===== src/Handler/Serve.antt =====
-- The request side of src/handler.c: the read of the request, the path that its URI names, and the
-- answers to GET and HEAD.
use cn_cw.Common.{
  ℕ, ◌+◌, ◌-◌, ◌^◌, Bool, Option, none, some, [], ◌∷◌, ◌++◌, ltb, ◌==◌, ◌||◌, if◌then◌else◌, Bytes,
  bytes_eq, codes, length, take, replicate,
}
use cn_cw.Conn.{err_recoverable, Conn, ServerSettings, HttpHeader}
use cn_cw.Format.{decimal, snprintf}
use cn_cw.Handler.{State, overwrite, give_up}
use cn_cw.Handler.Response.{make_header, make_date_header, send_response, error_response}
use cn_cw.Http.{
  HttpReq, ParseResult, parse_ok, invalid_syntax, invalid_version, uri_too_long, invalid_method,
  parse_http_req,
}
use cn_cw.Http.Tables
use cn_cw.Http.Tables.{
  HttpMethod, get, head, HttpContentType, HttpStatusCode, bad_request, forbidden, not_found,
  method_not_allowed, internal_server_error, version_no_supported, http_content_type_str,
  http_conten_type_from_filename,
}
use cn_cw.Log.{warn, log_msg}
use cn_cw.Machine.{Arena}
use cn_cw.Memory.{word, request_memory, server_alloc, server_memfmt}
use cn_cw.Outcome.{handler_c, returns, asserts, overruns, Cmd, and_then, ◌>>=◌, ◌>>◌, pure}
use cn_cw.PgList.{PgList}
use cn_cw.Platform.{Platform, Answer, got, failed, Errno, eacces, enotdir, enoent}

-- `enum read_req_data_result`, with the text that `req_data` points to.
pub data ReadReqData : Type 0 where
  read_ok : Bytes → ReadReqData
  read_empty read_too_large : ReadReqData

pub record FileInfo : Type 0 where
  pub size : ℕ
  pub ct : HttpContentType

-- The bytes of a C string: those before the NUL.
unfoldable pub c_string : Bytes → Bytes
c_string [] = []
c_string (x ∷ xs) = if x == 0 then [] else x ∷ c_string xs

-- The `switch` on `errno` after `realpath`, `stat` and `open`.
unfoldable pub errno_status : Errno → HttpStatusCode
errno_status eacces = forbidden
errno_status enotdir = not_found
errno_status enoent = not_found
errno_status _ = internal_server_error

unfoldable pub requested_name : Bytes → Bytes
requested_name uri = if bytes_eq uri (codes "/") || bytes_eq uri [] then codes "index.html" else uri

-- `strncmp(full_path, static_dir, strlen(static_dir)) == 0`.
unfoldable pub in_static_dir : Bytes → Bytes → Bool
in_static_dir static_dir full_path = bytes_eq (take (length static_dir) full_path) static_dir

module _ (platform : Platform) where
  open platform use {Os, read, stat, realpath, open_file, free}

  -- What the bytes that came on the socket do; `read_buf[nread] = '\0'`.
  unfoldable pub request_read : ℕ → Answer Bytes × Os → Cmd (State platform) ReadReqData
  unfolding give_up overwrite c_string
  request_read size (failed err, os) m =
      give_up platform err_recoverable err (codes "read socket failed") (record m { os = os })
  request_read size (got [], os) m = returns read_empty (record m { os = os })
  request_read size (got (b ∷ bs), os) m =
      if ltb (length (b ∷ bs)) size
      then returns (read_ok (c_string ((b ∷ bs) ++ 0 ∷ []))) (record m {
        os = os;
        client = record m.client {
          read_buf = some (overwrite (replicate size 0) ((b ∷ bs) ++ 0 ∷ []));
        };
      })
      else overruns m

  unfoldable pub read_req_data : ServerSettings → Cmd (State platform) ReadReqData
  unfolding request_read server_alloc
  read_req_data settings m =
      let size = settings.read_buf_size in
      elim m.client.read_buf [
        | some _ ↦ asserts handler_c m
        | none ↦
            if m.client.read_buf_size == 0
            then and_then (server_alloc platform size m) (λ _ m1.
              let m2 : State platform = record m1 {
                client = record m1.client {
                  read_buf = some (replicate size 0);
                  read_buf_size = size;
                };
              } in
              request_read size (read m2.client.sock_fd (word (size + 2 ^ 64 - 1)) m2.os) m2)
            else asserts handler_c m
      ]

  module _ (headers : PgList Os HttpHeader Conn) (fuel : ℕ) where
    open headers use {nil, lappend}

    -- `none` means that an error response is sent.
    unfoldable pub file_info : Bytes → Answer ℕ × Os → Cmd (State platform) (Option FileInfo)
    unfolding errno_status http_conten_type_from_filename
    file_info path (failed err, os) m =
        and_then (error_response platform headers fuel (errno_status err) (record m { os = os }))
          (λ _ m'. returns none m')
    file_info path (got size, os) m =
        returns (some (record { size = size; ct = http_conten_type_from_filename path }))
          (record m { os = os })

    unfoldable pub get_file_info : Bytes → Cmd (State platform) (Option FileInfo)
    unfolding file_info
    get_file_info path m = file_info path (stat path m.os) m

    -- The copy of the path into the arena; `full_path` is freed either way.
    unfoldable pub copy_path : ℕ → Bytes → Option ℕ → Cmd (State platform) (Option Bytes)
    copy_path p full_path none m =
        and_then
          (error_response platform headers fuel internal_server_error
            (record m { os = free p m.os }))
          (λ _ m'. returns none m')
    copy_path p full_path (some _) m = returns (some full_path) (record m { os = free p m.os })

    unfoldable pub arena_copy : ℕ → Bytes → Option Arena → Cmd (State platform) (Option Bytes)
    unfolding copy_path request_memory
    arena_copy p full_path none m = overruns m
    arena_copy p full_path (some arena) m =
        (request_memory platform (some arena) (length full_path + 1) >>= copy_path p full_path) m

    unfoldable pub resolved :
        ServerSettings → Answer (ℕ × Bytes) × Os → Cmd (State platform) (Option Bytes)
    unfolding arena_copy errno_status in_static_dir
    resolved settings (failed err, os) m =
        and_then (error_response platform headers fuel (errno_status err) (record m { os = os }))
          (λ _ m'. returns none m')
    resolved settings (got (p, full_path), os) m =
        if in_static_dir settings.static_dir full_path
        then arena_copy p full_path m.g_memory_arena (record m { os = os })
        else and_then
            ((log_msg platform warn (codes "attempt to access file outside of static directory")
                >> error_response platform headers fuel forbidden)
              (record m { os = os }))
            (λ _ m'. returns none (record m' { os = free p m'.os }))

    unfoldable pub resolve_path : Bytes → ServerSettings → Cmd (State platform) (Option Bytes)
    unfolding resolved requested_name
    resolve_path uri settings m =
        let path = (snprintf 4096 (settings.static_dir ++ b'/' ∷ requested_name uri)).0 in
        resolved settings (realpath path m.os) m

    -- The response to a request for a file that is there.
    unfoldable pub send_file_response : HttpReq → ℕ → FileInfo → Cmd (State platform) (Unit {0})
    unfolding make_date_header make_header server_memfmt send_response
    send_file_response req body_size info = make_date_header platform >>= λ date.
        lappend nil date >>= λ h1. server_memfmt platform (decimal info.size) >>= λ size.
        make_header platform (codes "Content-Length") size >>= λ content_length.
        lappend h1 content_length >>= λ h2.
        make_header platform (codes "Content-Type") (http_content_type_str info.ct)
        >>= λ content_type. lappend h2 content_type >>= λ h3.
            make_header platform (codes "Connection") (codes "Close") >>= λ connection.
            lappend h3 connection >>= λ h4. send_response platform headers fuel (record {
              req = some req;
              code = HttpStatusCode.ok;
              headers = h4;
              body_size = body_size;
              body = none;
            })

    -- Runs the next step where the one before found something, and ends otherwise.
    abbrev pub if_some :
        {A : Type 0}
        → Option A
        → (A → Cmd (State platform) (Unit {0}))
        → Cmd (State platform) (Unit {0})
    if_some none k m = returns tt m
    if_some (some a) k m = k a m

    unfoldable pub serve_head_request : HttpReq → ServerSettings → Cmd (State platform) (Unit {0})
    unfolding resolve_path get_file_info send_file_response
    serve_head_request req settings = resolve_path req.uri settings >>= λ path.
        if_some path
          (λ full_path. get_file_info full_path >>= λ info. if_some info (send_file_response req 0))

    -- `open`, and the file that the connection sends.
    unfoldable pub file_opened :
        HttpReq → FileInfo → Answer ℕ × Os → Cmd (State platform) (Unit {0})
    unfolding errno_status send_file_response
    file_opened req info (failed err, os) m =
        error_response platform headers fuel (errno_status err) (record m { os = os })
    file_opened req info (got fd, os) m = elim m.client.file_fd [
      | some _ ↦ asserts handler_c m
      | none ↦
          send_file_response req info.size info
            (record m { os = os; client = record m.client { file_fd = some fd } })
    ]

    unfoldable pub serve_get_request : HttpReq → ServerSettings → Cmd (State platform) (Unit {0})
    unfolding resolve_path get_file_info file_opened
    serve_get_request req settings = resolve_path req.uri settings >>= λ path.
        if_some path (λ full_path. get_file_info full_path >>= λ info.
        if_some info (λ found m. file_opened req found (open_file full_path m.os) m))

    unfoldable pub serve_request :
        HttpMethod → HttpReq → ServerSettings → Cmd (State platform) (Unit {0})
    unfolding serve_get_request serve_head_request
    serve_request get req settings = serve_get_request req settings
    serve_request head req settings = serve_head_request req settings

    -- The answer to a request line.
    unfoldable pub parsed :
        ServerSettings → Bytes → ParseResult × HttpReq → Cmd (State platform) (Unit {0})
    unfolding serve_request
    parsed settings text (parse_ok, req) = serve_request req.method req settings
    parsed settings text (invalid_syntax, req) =
        log_msg platform warn (codes "invalid request syntax " ++ text)
        >> error_response platform headers fuel bad_request
    parsed settings text (invalid_version, req) =
        log_msg platform warn (codes "invalid request version")
        >> error_response platform headers fuel version_no_supported
    parsed settings text (uri_too_long, req) =
        log_msg platform warn (codes "uri too long")
        >> error_response platform headers fuel Tables.uri_too_long
    parsed settings text (invalid_method, req) =
        log_msg platform warn (codes "invalid method")
        >> error_response platform headers fuel method_not_allowed

    -- After a request that is too large `req_data` is still a null pointer, which is then read.
    unfoldable pub request_data :
        ServerSettings → HttpReq → ReadReqData → Cmd (State platform) (Unit {0})
    unfolding parsed parse_http_req
    request_data settings req read_empty = pure tt
    request_data settings req read_too_large =
        log_msg platform warn (codes "request too large")
        >> (error_response platform headers fuel bad_request >> λ m. overruns m)
    request_data settings req (read_ok text) =
        parse_http_req platform settings.uri_length_limit text req >>= parsed settings text

    -- `req` is what the uninitialised struct on the stack holds.
    unfoldable pub process_request : HttpReq → ServerSettings → Cmd (State platform) (Unit {0})
    unfolding read_req_data request_data
    process_request req settings = read_req_data settings >>= request_data settings req
