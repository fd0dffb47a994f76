-- ===== src/Handler/Response/Errors.antt =====
-- `error_response` (src/handler.c) from its first call to its last: its head always fits the buffer.
use cn_cw.Common.{
  ℕ, ◌+◌, ◌≤◌, ◌<◌, ◌≡◌, refl, ap, ◌∙◌, none, List, [], ◌∷◌, ◌++◌, arith, ge→ltb, Bytes, codes,
  length, length-append, length-join,
}
use cn_cw.Conn.{complete, err_unrecoverable, Conn, HttpHeader}
use cn_cw.Format.{decimal}
use cn_cw.Handler.{State, give_up}
use cn_cw.Handler.Response.{
  header_text, status_line, headers_only, head_written, send_head, send_response, error_response,
}
use cn_cw.Handler.Response.Built.{
  Building, Dates, IsDate, IsDate-short, Dated, make_date_header-Built, lappend-Built,
  with_header-Built,
}
use cn_cw.Handler.Response.Head.{head_text, headers_text, response_text-holds}
use cn_cw.Http.Tables.{
  HttpStatusCode, ok, bad_request, forbidden, not_found, method_not_allowed, uri_too_long,
  internal_server_error, version_no_supported, http_status_code_int, http_status_code_str,
}
use cn_cw.Log.{info, error}
use cn_cw.Log.Bounds.{LogsFit, length-decimal}
use cn_cw.Memory.Neutral.{any}
use cn_cw.Memory.Proper.{Proper, Proper-and_then, log_msg-Proper, log_perror-Proper}
use cn_cw.Outcome.{Ensures-Leaves}
use cn_cw.PgList.{PgList, Appends}
use cn_cw.Platform.{Platform, Answer, got, failed, Errno}

code_small : (code : HttpStatusCode) → http_status_code_int code < 1000
unfolding http_status_code_int
code_small ok = omega arith
code_small bad_request = omega arith
code_small forbidden = omega arith
code_small not_found = omega arith
code_small method_not_allowed = omega arith
code_small uri_too_long = omega arith
code_small internal_server_error = omega arith
code_small version_no_supported = omega arith

reason_short : (code : HttpStatusCode) → length (http_status_code_str code) ≤ 40
unfolding http_status_code_str
reason_short ok = omega arith
reason_short bad_request = omega arith
reason_short forbidden = omega arith
reason_short not_found = omega arith
reason_short method_not_allowed = omega arith
reason_short uri_too_long = omega arith
reason_short internal_server_error = omega arith
reason_short version_no_supported = omega arith

length-code : (code : HttpStatusCode) → length (decimal (http_status_code_int code)) ≤ 3
length-code code = length-decimal 2 (http_status_code_int code) (code_small code)

pub length-status_line : (code : HttpStatusCode) → length (status_line code) ≤ 60
unfolding status_line
length-status_line code =
    let parts : List Bytes =
      codes "HTTP/1.1 "
      ∷ decimal (http_status_code_int code)
      ∷ codes " "
      ∷ http_status_code_str code
      ∷ codes "\r\n"
      ∷ [] in
    omega (arith, length-join parts, length-code code, reason_short code)

pub length-header_text :
    (h : HttpHeader) → length (header_text h) ≡ length h.name + length h.value + 4
unfolding header_text
length-header_text h = omega (arith, length-join)

-- The headers of an error response.
abbrev pub error_headers : Bytes → List HttpHeader
error_headers date =
    record { name = codes "Date"; value = date }
    ∷ record { name = codes "Content-Length"; value = codes "0" }
    ∷ []

pub length-head_text :
    (code : HttpStatusCode) (date : Bytes)
    → length date ≤ 60
    → length (head_text none code (error_headers date)) ≤ 4095
unfolding head_text headers_text headers_only
length-head_text code date short =
    let dated : HttpHeader = record { name = codes "Date"; value = date } in
    let empty : HttpHeader = record { name = codes "Content-Length"; value = codes "0" } in
    omega (
      arith,
      short,
      length-status_line code,
      length-header_text dated,
      length-header_text empty,
      length-append (status_line code) ((header_text dated ++ (header_text empty ++ [])) ++ []),
      length-append (header_text dated ++ (header_text empty ++ [])) [],
      length-append (header_text dated) (header_text empty ++ []),
      length-append (header_text empty) [],
    )

-- A failed call leaves a broken connection.
pub give_up-Proper :
    (platform : Platform) {A : Type 0} (fit : LogsFit platform) (P : A → State platform → Type 0)
    (err : Errno) (text : Bytes) (m : State platform)
    → length text ≤ 1024
    → Proper P
        (λ m'. m'.client.state ≡ err_unrecoverable)
        (give_up platform err_unrecoverable err text m)
unfolding give_up
give_up-Proper platform fit P err text m short =
    let gone : State platform → Type 0 = λ m'. m'.client.state ≡ err_unrecoverable in
    Proper-and_then (λ _ _. Unit {0}) P gone _ _
      (log_perror-Proper platform fit gone (λ _. Unit {0}) (any platform) error err text m short tt)
      (λ a s h. refl)

module _ (platform : Platform) (fit : LogsFit platform) (dates : Dates platform)
    (headers : PgList (platform.Os) HttpHeader Conn) (appends : Appends headers) where
  open platform use {Os, write}
  open headers use {Cells, nil, elements, lappend}

  length-announced :
      (code : HttpStatusCode)
      → length (codes "error response " ++ decimal (http_status_code_int code)) ≤ 4045
  length-announced code = omega (
    arith,
    length-code code,
    length-append (codes "error response ") (decimal (http_status_code_int code)),
  )

  module _ (J : State platform → Type 0) (I : State platform → Type 0)
      (building : Building platform headers I) where
    open building use {neutral}

    -- `error_response` up to its `send_response`, whose headers are the two of an error.
    pub error_response-Built :
        (Q : Unit {0} → State platform → Type 0) (fuel : ℕ) (code : HttpStatusCode)
        (m : State platform)
        → I m
        → ((date : Bytes) (hs : Cells) (m' : State platform)
            → IsDate platform date
            → elements hs ≡ error_headers date
            → I m'
            → Proper Q J (
                send_response platform headers fuel
                  (record { req = none; code = code; headers = hs; body_size = 0; body = none })
                  m'))
        → Proper Q J (error_response platform headers fuel code m)
    unfolding error_response
    error_response-Built Q fuel code m i next =
        Proper-and_then (λ _. I) Q J _ _
          (log_msg-Proper platform fit J I neutral info
            (codes "error response " ++ decimal (http_status_code_int code)) m
            (length-announced code) i)
          (λ _ m1 i1.
            Proper-and_then (Dated platform fit dates headers appends J I building) Q J _ _
              (make_date_header-Built platform fit dates headers appends J I building m1 i1)
              (λ dated m2 (date, is_date, d, i2).
                Proper-and_then (λ l m'. (elements l ≡ elements nil ++ dated ∷ []) × I m') Q J _ _
                  (lappend-Built platform fit dates headers appends J I building nil dated m2 i2)
                  (λ l m3 (e, i3).
                    with_header-Built platform fit dates headers appends J I building Q
                      (codes "Content-Length") (codes "0") l m3 _ i3
                      (λ hs m4 e4 i4.
                        next date hs m4 d
                          (e4
                            ∙ ap
                                (λ k.
                                  k
                                  ++ record { name = codes "Content-Length"; value = codes "0" }
                                    ∷ [])
                                (e ∙ ap (λ k. k ++ dated ∷ []) appends.elements-nil)
                            ∙ rw is_date refl)
                          i4))))

  abbrev Gone : State platform → Type 0
  Gone m = m.client.state ≡ err_unrecoverable

  abbrev Done : Unit {0} → State platform → Type 0
  Done _ m = m.client.state ≡ complete

  nothing_asked : Building platform headers (λ _. Unit {0})
  nothing_asked = record {
    neutral = any platform;
    after_gmtime = λ m h. tt;
    after_lappend = λ l h m _.
        Ensures-Leaves (λ l' m'. (elements l' ≡ elements l ++ h ∷ []) × (m'.client ≡ m.client))
          (λ _ _. Unit {0}) (λ _. ⊥) (λ _. Unit {0}) (lappend l h m) (λ l' m' e. tt)
          (appends.elements-lappend l h m);
  }

  head_written-Proper :
      (fuel : ℕ) (r : Answer ℕ) (os : Os) (m : State platform)
      → Proper Done Gone (head_written platform fuel none none 0 (r, os) m)
  unfolding head_written
  head_written-Proper fuel (failed err) os m =
      give_up-Proper platform fit Done err (codes "failed to write to socket")
        (record m { os = os }) (omega arith)
  head_written-Proper fuel (got n) os m = refl

  send_response-Proper :
      (fuel : ℕ) (code : HttpStatusCode) (date : Bytes) (hs : Cells) (m : State platform)
      → elements hs ≡ error_headers date
      → length date ≤ 60
      → Proper Done Gone (
          send_response platform headers fuel
            (record { req = none; code = code; headers = hs; body_size = 0; body = none })
            m)
  unfolding send_response send_head
  send_response-Proper fuel code date hs m e short =
      let fits = length-head_text code date short in
      rw
        (
          e,
          response_text-holds none code (error_headers date) fits,
          ge→ltb 4096 (length (head_text none code (error_headers date))) (omega (arith, fits)),
        )
        (head_written-Proper fuel _ _ m)

  -- An error response is proper: it never writes behind its buffer and never loops. Where it returns
  -- the connection is complete, and where it jumps it is broken; the other ends are an exit and a
  -- failed assertion in src/memory.c, which has those of the arena. The times of the system are in the documented
  -- ranges, and `lappend` is as documented.
  pub error_response-Proper :
      (fuel : ℕ) (code : HttpStatusCode) (m : State platform)
      → Proper Done Gone (error_response platform headers fuel code m)
  error_response-Proper fuel code m =
      error_response-Built Gone (λ _. Unit {0}) nothing_asked Done fuel code m tt
        (λ date hs m' d e _.
          send_response-Proper fuel code date hs m' e (IsDate-short platform dates date d))
