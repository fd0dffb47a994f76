-- ===== src/Http.antt =====
-- src/http.c and the HTTP types of src/server.h: the request line parser, and the tables of content
-- types, status codes and methods.
pub mod Tables
pub mod Request
use cn_cw.Common.{
  ℕ, ◌+◌, ◌-◌, ◌^◌, Option, none, some, ltb, ◌==◌, ◌&&◌, if◌then◌else◌, Bytes, codes, bytes_eq,
  strchr, strspn, take, drop,
}
use cn_cw.Machine.{Machine}
use cn_cw.Memory.{word, server_alloc}
use cn_cw.Outcome.{returns, Cmd, and_then}
use cn_cw.Platform.{Platform}
use Tables.{HttpMethod, get, head}

pub data HttpVersion : Type 0 where
  http_10 http_11 : HttpVersion

pub record HttpReq : Type 0 where
  pub method : HttpMethod
  pub uri : Bytes
  pub version : HttpVersion

pub data ParseResult : Type 0 where
  parse_ok invalid_syntax invalid_version uri_too_long invalid_method : ParseResult

-- `parse_http_method` on the bytes between two pointers.
unfoldable pub parse_http_method : Bytes → Option HttpMethod
parse_http_method s =
    if bytes_eq s (codes "GET")
    then some get
    else if bytes_eq s (codes "HEAD")
    then some head
    else none

-- The version, by the eight bytes that `protocol_len` allows `memcmp` to read.
unfoldable pub parse_version : ℕ → Bytes → Option HttpVersion
parse_version protocol_len protocol =
    if protocol_len == 8 && bytes_eq (take 8 protocol) (codes "HTTP/1.1")
    then some http_11
    else if protocol_len == 8 && bytes_eq (take 8 protocol) (codes "HTTP/1.0")
    then some http_10
    else none

-- The end of `parse_http_req`: the version sets `req->version`.
unfoldable pub finish_version : Option HttpVersion → HttpReq → ParseResult × HttpReq
finish_version none req = (invalid_version, req)
finish_version (some v) req = (parse_ok, record req { version = v })

module _ (platform : Platform) {C : Type 0} where
  open platform use {Os}

  -- From the copy of the URI on. Pointers are indices into `str`; `skip_spaces` is counted from
  -- `method_end` once more.
  unfoldable pub parse_protocol :
      Bytes → ℕ → ℕ → ℕ → ℕ → HttpReq → Cmd (Machine Os C) (ParseResult × HttpReq)
  parse_protocol str line_end method_end uri uri_end req m =
      and_then (server_alloc platform (uri_end - uri + 1) m) (λ _ m'.
        let req' = record req { uri = take (uri_end - uri) (drop uri str) } in
        let skip_spaces = strspn (drop method_end str) b' ' in
        let protocol = uri_end + skip_spaces in
        let protocol_len = word (line_end + 2 ^ 64 - protocol) in
        if skip_spaces == 0
        then returns (invalid_syntax, req') m'
        else returns (finish_version (parse_version protocol_len (drop protocol str)) req') m')

  -- From `uri_end` on; `strpbrk` gives it as a distance from `uri`.
  unfoldable pub parse_uri :
      ℕ → Bytes → ℕ → ℕ → ℕ → Option ℕ → HttpReq → Cmd (Machine Os C) (ParseResult × HttpReq)
  parse_uri limit str line_end method_end uri none req m = returns (invalid_syntax, req) m
  parse_uri limit str line_end method_end uri (some uri_len) req m =
      if ltb line_end (uri + uri_len)
      then returns (invalid_syntax, req) m
      else if ltb limit uri_len
      then returns (uri_too_long, req) m
      else parse_protocol str line_end method_end uri (uri + uri_len) req m

  -- From the method on.
  unfoldable pub parse_target :
      ℕ → Bytes → ℕ → ℕ → Option HttpMethod → HttpReq → Cmd (Machine Os C) (ParseResult × HttpReq)
  parse_target limit str line_end method_end none req m = returns (invalid_method, req) m
  parse_target limit str line_end method_end (some method) req m =
      let skip_spaces = strspn (drop method_end str) b' ' in
      let uri = method_end + skip_spaces in
      if skip_spaces == 0
      then returns (invalid_syntax, record req { method = method }) m
      else parse_uri limit str line_end method_end uri (strchr (drop uri str) b' ')
          (record req { method = method }) m

  unfoldable pub parse_line :
      ℕ → Bytes → Option ℕ → Option ℕ → HttpReq → Cmd (Machine Os C) (ParseResult × HttpReq)
  parse_line limit str none method_end req m = returns (invalid_syntax, req) m
  parse_line limit str (some line_end) none req m = returns (invalid_syntax, req) m
  parse_line limit str (some line_end) (some method_end) req m =
      if ltb line_end method_end
      then returns (invalid_syntax, req) m
      else parse_target limit str line_end method_end (parse_http_method (take method_end str)) req
          m

  -- `limit` is `worker->settings->uri_length_limit`; `req` is what the caller's struct holds.
  unfoldable pub parse_http_req : ℕ → Bytes → HttpReq → Cmd (Machine Os C) (ParseResult × HttpReq)
  parse_http_req limit str req m = parse_line limit str (strchr str b'\r') (strchr str b' ') req m
