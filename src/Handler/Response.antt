-- ===== src/Handler/Response.antt =====
-- The response of src/handler.c: its headers, its text in a buffer of 4096 bytes, and the state
-- of the connection after it is sent.
pub mod Built
pub mod Date
pub mod Errors
pub mod Found
pub mod Head
use Prim.Native.Nat.{bit_or}
use cn_cw.Common.{
  ℕ, ◌+◌, ◌-◌, Bool, true, false, Option, none, some, List, [], ◌∷◌, ◌++◌, ltb, ◌==◌, if◌then◌else◌,
  Bytes, join, codes, length, take, get_elem?,
}
use cn_cw.Conn.{complete, sending, err_unrecoverable, Conn, HttpHeader, HttpResponse}
use cn_cw.Format.{decimal, decimal2, snprintf}
use cn_cw.Handler.{State, give_up, process_request_write}
use cn_cw.Http.{HttpReq}
use cn_cw.Http.Tables.{get, head, HttpStatusCode, http_status_code_int, http_status_code_str}
use cn_cw.Log.{info, log_msg}
use cn_cw.Memory.{server_alloc, server_strdup}
use cn_cw.Outcome.{returns, overruns, Cmd, ◌>>=◌, ◌>>◌, pure}
use cn_cw.PgList.{PgList}
use cn_cw.Platform.{Platform, Answer, got, failed, Tm}

unfoldable pub days : List Bytes
days =
    codes "Sun"
    ∷ codes "Mon"
    ∷ codes "Tue"
    ∷ codes "Wed"
    ∷ codes "Thu"
    ∷ codes "Fri"
    ∷ codes "Sat"
    ∷ []

unfoldable pub months : List Bytes
months =
    codes "Jan"
    ∷ codes "Feb"
    ∷ codes "Mar"
    ∷ codes "Apr"
    ∷ codes "May"
    ∷ codes "Jun"
    ∷ codes "Jul"
    ∷ codes "Aug"
    ∷ codes "Sep"
    ∷ codes "Oct"
    ∷ codes "Nov"
    ∷ codes "Dec"
    ∷ []

-- The text of `http_response_date`, from the names of the day and the month.
unfoldable pub date_text : Bytes → Bytes → Tm → Bytes
date_text day month tm = join (
    day
    ∷ codes ", "
    ∷ decimal tm.tm_mday
    ∷ (b' ' ∷ month)
    ∷ (b' ' ∷ decimal (tm.tm_year + 1900))
    ∷ (b' ' ∷ decimal2 tm.tm_hour)
    ∷ (b':' ∷ decimal2 tm.tm_min)
    ∷ (b':' ∷ decimal2 tm.tm_sec)
    ∷ codes " GMT"
    ∷ [])

-- `none` where `tm` leads out of one of the two arrays.
unfoldable pub http_response_date : Tm → Option Bytes
unfolding days months date_text
http_response_date tm = elim (get_elem? days tm.tm_wday) [
  | none ↦ none
  | some day ↦ elim (get_elem? months tm.tm_mon) [
    | none ↦ none
    | some month ↦ some (date_text day month tm)
  ]
]

-- The bytes that `send_response` has put into `buffer`, and `cursor`, which counts also what did
-- not fit.
pub record Out : Type 0 where
  pub held : Bytes
  pub cursor : ℕ

-- `cursor += snprintf(buffer + cursor, sizeof(buffer) - cursor, …)`; behind the buffer's end the
-- size wraps around, and the write leaves the buffer.
unfoldable pub put : Bytes → Out → Option Out
put text out =
    if ltb 4096 out.cursor
    then none
    else some (record {
      held = out.held ++ take (4095 - out.cursor) text;
      cursor = out.cursor + length text;
    })

unfoldable pub header_text : HttpHeader → Bytes
header_text h = join (h.name ∷ codes ": " ∷ h.value ∷ codes "\r\n" ∷ [])

-- The next write, unless one before left the buffer.
abbrev pub and_put : Option Out → (Out → Option Out) → Option Out
and_put none k = none
and_put (some out) k = k out

unfoldable pub put_headers : List HttpHeader → Out → Option Out
put_headers [] out = some out
put_headers (h ∷ hs) out = and_put (put (header_text h) out) (put_headers hs)

unfoldable pub status_line : HttpStatusCode → Bytes
unfolding http_status_code_int http_status_code_str
status_line code = join (
    codes "HTTP/1.1 "
    ∷ decimal (http_status_code_int code)
    ∷ codes " "
    ∷ http_status_code_str code
    ∷ codes "\r\n"
    ∷ [])

-- Whether there is a request and it is a HEAD request, or none at all.
unfoldable pub headers_only : Option HttpReq → Bool
headers_only none = true
headers_only (some req) = elim req.method [ get ↦ false | head ↦ true ]

-- The text of the response: the empty line comes only with a request that is no HEAD request.
unfoldable pub response_text : Option HttpReq → HttpStatusCode → List HttpHeader → Option Out
response_text req code headers =
    let start : Out = record {
      held = (snprintf 4096 (status_line code)).0;
      cursor = length (status_line code);
    } in
    and_put (put_headers headers start)
      (λ out. if headers_only req then some out else put (codes "\r\n") out)

module _ (platform : Platform) where
  open platform use {Os, write, get_flags, set_flags, o_nonblock, gmtime, errno}

  unfoldable pub make_header : Bytes → Bytes → Cmd (State platform) HttpHeader
  unfolding server_alloc
  make_header name value =
      server_alloc platform 16 >>= λ _. pure (record { name = name; value = value })

  unfoldable pub date_value : Option Bytes → Cmd (State platform) HttpHeader
  unfolding make_header server_strdup
  date_value none m = overruns m
  date_value (some text) m =
      (server_strdup platform (snprintf 4096 text).0 >>= make_header (codes "Date")) m

  unfoldable pub make_date_header : Cmd (State platform) HttpHeader
  unfolding date_value
  make_date_header m =
      let (tm, os) = gmtime m.os in date_value (http_response_date tm) (record m { os = os })

  unfoldable pub flags_set : ℕ → Answer ℕ × Os → Answer (Unit {0}) × Os
  flags_set fd (failed err, os) = (failed err, os)
  flags_set fd (got flags, os) = set_flags fd (bit_or flags o_nonblock) os

  -- `set_nonblocking`, with the `errno` of the call that failed.
  unfoldable pub set_nonblocking : ℕ → Os → Answer (Unit {0}) × Os
  unfolding flags_set
  set_nonblocking fd os = flags_set fd (get_flags fd os)

  -- The write of `resp->body`; after a short write `errno` is what an earlier call left there.
  unfoldable pub body_written : ℕ → Answer ℕ × Os → Cmd (State platform) (Unit {0})
  unfolding give_up
  body_written body_size (failed err, os) m =
      give_up platform err_unrecoverable err (codes "failed to write to socket")
        (record m { os = os })
  body_written body_size (got n, os) m =
      if n == body_size
      then returns tt (record m { os = os; client = record m.client { state = complete } })
      else give_up platform err_unrecoverable (errno os) (codes "failed to write to socket")
          (record m { os = os })

  -- `file_fd` first, then `resp->body`, then nothing.
  unfoldable pub send_body : ℕ → Option ℕ → Option Bytes → ℕ → Cmd (State platform) (Unit {0})
  unfolding body_written process_request_write
  send_body fuel (some file_fd) body body_size m =
      process_request_write platform fuel
        (record m { client = record m.client { state = sending } })
  send_body fuel none none body_size m =
      returns tt (record m { client = record m.client { state = complete } })
  send_body fuel none (some body) body_size m =
      body_written body_size (write m.client.sock_fd (take body_size body) m.os) m

  unfoldable pub nonblocking_set :
      ℕ → Option Bytes → ℕ → Answer (Unit {0}) × Os → Cmd (State platform) (Unit {0})
  unfolding send_body give_up
  nonblocking_set fuel body body_size (failed err, os) m =
      give_up platform err_unrecoverable err (codes "failed to change socket to nonblocking mode")
        (record m { os = os })
  nonblocking_set fuel body body_size (got _, os) m =
      send_body fuel m.client.file_fd body body_size (record m { os = os })

  -- What follows the write of the head.
  unfoldable pub head_written :
      ℕ → Option HttpReq → Option Bytes → ℕ → Answer ℕ × Os → Cmd (State platform) (Unit {0})
  unfolding nonblocking_set give_up set_nonblocking headers_only
  head_written fuel req body body_size (failed err, os) m =
      give_up platform err_unrecoverable err (codes "failed to write to socket")
        (record m { os = os })
  head_written fuel req body body_size (got _, os) m =
      if headers_only req
      then returns tt (record m { os = os; client = record m.client { state = complete } })
      else nonblocking_set fuel body body_size (set_nonblocking m.client.sock_fd os) m

  -- `write(conn->sock_fd, buffer, cursor)`, where `none` stands for a buffer that overran before.
  unfoldable pub send_head :
      ℕ → Option HttpReq → Option Bytes → ℕ → Option Out → Cmd (State platform) (Unit {0})
  unfolding head_written
  send_head fuel req body body_size none m = overruns m
  send_head fuel req body body_size (some out) m =
      if ltb 4096 out.cursor
      then overruns m
      else head_written fuel req body body_size
          (write m.client.sock_fd (take out.cursor (out.held ++ 0 ∷ [])) m.os) m

  module _ (headers : PgList Os HttpHeader Conn) (fuel : ℕ) where
    open headers use {Cells, nil, elements, lappend}

    unfoldable pub send_response : HttpResponse Cells → Cmd (State platform) (Unit {0})
    unfolding send_head response_text
    send_response resp m =
        send_head fuel resp.req resp.body resp.body_size
          (response_text resp.req resp.code (elements resp.headers)) m

    unfoldable pub error_response : HttpStatusCode → Cmd (State platform) (Unit {0})
    unfolding send_response make_date_header make_header log_msg
    error_response code =
        log_msg platform info (codes "error response " ++ decimal (http_status_code_int code))
        >> (make_date_header >>= λ date. lappend nil date >>= λ hs.
            make_header (codes "Content-Length") (codes "0") >>= λ empty.
            lappend hs empty >>= λ hs'.
            send_response
              (record { req = none; code = code; headers = hs'; body_size = 0; body = none }))
