-- ===== src/Handler/Response/Found.antt =====
-- The head of the response to a file that is there, as `serve_get_request` and `serve_head_request`
-- (src/handler.c) build it: its four headers, which always fit the buffer.
use cn_cw.Common.{
  ℕ, ◌+◌, ◌^◌, ◌≤◌, ◌<◌, ◌≡◌, refl, ap, ◌∙◌, inl, inr, Option, none, some, List, [], ◌∷◌, ◌++◌,
  arith, if◌then◌else◌, Bool-cases, Bytes, codes, length, length-append,
}
use cn_cw.Conn.{Conn, HttpHeader}
use cn_cw.Format.{decimal}
use cn_cw.Handler.{State}
use cn_cw.Handler.Response.{header_text, make_header, status_line, headers_only, send_response}
use cn_cw.Handler.Response.Built.{
  Building, Dates, IsDate, Dated, make_date_header-Built, lappend-Built, with_header-Built,
  server_memfmt-Built,
}
use cn_cw.Handler.Response.Errors.{length-status_line, length-header_text}
use cn_cw.Handler.Response.Head.{head_text, headers_text}
use cn_cw.Handler.Serve.{FileInfo, send_file_response}
use cn_cw.Http.{HttpReq}
use cn_cw.Http.Tables.{
  HttpContentType, bin, bmp, css, csv, gif, html, jpeg, js, json, mp3, mp4, otf, png, pdf, svg, ttf,
  txt, HttpStatusCode, http_content_type_str,
}
use cn_cw.Log.Bounds.{LogsFit, length-decimal}
use cn_cw.Memory.Proper.{Proper, Proper-and_then}
use cn_cw.Outcome.{Cmd, and_then}
use cn_cw.PgList.{PgList, Appends}
use cn_cw.Platform.{Platform}

type_short : (ct : HttpContentType) → length (http_content_type_str ct) ≤ 40
unfolding http_content_type_str
type_short bin = omega arith
type_short bmp = omega arith
type_short css = omega arith
type_short csv = omega arith
type_short gif = omega arith
type_short html = omega arith
type_short jpeg = omega arith
type_short js = omega arith
type_short json = omega arith
type_short mp3 = omega arith
type_short mp4 = omega arith
type_short otf = omega arith
type_short png = omega arith
type_short pdf = omega arith
type_short svg = omega arith
type_short ttf = omega arith
type_short txt = omega arith

-- The headers of the response to a file that is there.
abbrev pub file_headers : Bytes → FileInfo → List HttpHeader
file_headers date info =
    record { name = codes "Date"; value = date }
    ∷ record { name = codes "Content-Length"; value = decimal info.size }
    ∷ record { name = codes "Content-Type"; value = http_content_type_str info.ct }
    ∷ record { name = codes "Connection"; value = codes "Close" }
    ∷ []

end_short : (req : Option HttpReq) → length (if headers_only req then [] else codes "\r\n") ≤ 2
end_short req = elim (Bool-cases (headers_only req)) [
  | inl e ↦ rw e (omega arith)
  | inr e ↦ rw e (omega arith)
]

length-head_text_le :
    (req : Option HttpReq) (code : HttpStatusCode) (hs : List HttpHeader)
    → length (head_text req code hs) ≤ 62 + length (headers_text hs)
unfolding head_text
length-head_text_le req code hs =
    let end : Bytes = if headers_only req then [] else codes "\r\n" in
    omega (
      arith,
      length-status_line code,
      end_short req,
      length-append (status_line code) (headers_text hs ++ end),
      length-append (headers_text hs) end,
    )

length-headers_text :
    (h : HttpHeader) (hs : List HttpHeader)
    → length (headers_text (h ∷ hs)) ≡ length h.name + length h.value + 4 + length (headers_text hs)
unfolding headers_text
length-headers_text h hs =
    omega (arith, length-header_text h, length-append (header_text h) (headers_text hs))

size_short : (n : ℕ) → n < 2 ^ 63 → length (decimal n) ≤ 20
size_short n h = length-decimal 19 n (omega arith)

pub length-found_head :
    (req : Option HttpReq) (code : HttpStatusCode) (date : Bytes) (info : FileInfo)
    → length date ≤ 60
    → info.size < 2 ^ 63
    → length (head_text req code (file_headers date info)) ≤ 4095
unfolding headers_text
length-found_head req code date info short small =
    let connection : HttpHeader = record { name = codes "Connection"; value = codes "Close" } in
    let ct : HttpHeader = record {
      name = codes "Content-Type";
      value = http_content_type_str info.ct;
    } in
    let size : HttpHeader = record { name = codes "Content-Length"; value = decimal info.size } in
    let dated : HttpHeader = record { name = codes "Date"; value = date } in
    omega (
      arith,
      short,
      size_short info.size small,
      type_short info.ct,
      length-head_text_le req code (file_headers date info),
      length-headers_text dated (size ∷ ct ∷ connection ∷ []),
      length-headers_text size (ct ∷ connection ∷ []),
      length-headers_text ct (connection ∷ []),
      length-headers_text connection [],
    )

module _ (platform : Platform) (fit : LogsFit platform) (dates : Dates platform)
    (headers : PgList (platform.Os) HttpHeader Conn) (appends : Appends headers)
    (J : State platform → Type 0) (I : State platform → Type 0)
    (building : Building platform headers I) where
  open headers use {Cells, nil, elements}

  -- A header put behind those that stand in `hs` already.
  next_header :
      {B : Type 0} (Q : B → State platform → Type 0) (name value : Bytes) (l : Cells)
      (hs : List HttpHeader) (m : State platform) (k : Cells → Cmd (State platform) B)
      → elements l ≡ hs
      → I m
      → ((l' : Cells) (m' : State platform)
          → elements l' ≡ hs ++ record { name = name; value = value } ∷ []
          → I m'
          → Proper Q J (k l' m'))
      → Proper Q J (
          and_then
            (make_header platform name value m)
            (λ h m1. and_then (headers.lappend l h m1) k))
  next_header Q name value l hs m k e i next =
      with_header-Built platform fit dates headers appends J I building Q name value l m k i
        (λ l' m' e' i'.
          next l' m' (e' ∙ ap (λ x. x ++ record { name = name; value = value } ∷ []) e) i')

  -- `send_file_response` up to its `send_response`.
  pub send_file_response-Built :
      (Q : Unit {0} → State platform → Type 0) (fuel : ℕ) (req : HttpReq) (body_size : ℕ)
      (info : FileInfo) (m : State platform)
      → info.size < 2 ^ 63
      → I m
      → ((date : Bytes) (hs : Cells) (m' : State platform)
          → IsDate platform date
          → elements hs ≡ file_headers date info
          → I m'
          → Proper Q J (
              send_response platform headers fuel
                (record {
                  req = some req;
                  code = HttpStatusCode.ok;
                  headers = hs;
                  body_size = body_size;
                  body = none;
                })
                m'))
      → Proper Q J (send_file_response platform headers fuel req body_size info m)
  unfolding send_file_response
  send_file_response-Built Q fuel req body_size info m small i next =
      Proper-and_then (Dated platform fit dates headers appends J I building) Q J _ _
        (make_date_header-Built platform fit dates headers appends J I building m i)
        (λ dated m1 (date, is_date, d, i1).
          Proper-and_then (λ l m'. (elements l ≡ elements nil ++ dated ∷ []) × I m') Q J _ _
            (lappend-Built platform fit dates headers appends J I building nil dated m1 i1)
            (λ l m2 (e, i2).
              Proper-and_then (λ r m'. (r ≡ decimal info.size) × I m') Q J _ _
                (server_memfmt-Built platform fit dates headers appends J I building
                  (decimal info.size) m2 (omega (arith, size_short info.size small)) i2)
                (λ size m3 (is_size, i3).
                  next_header Q (codes "Content-Length") size l
                    (record { name = codes "Date"; value = date } ∷ []) m3 _
                    (e ∙ ap (λ k. k ++ dated ∷ []) appends.elements-nil ∙ ap (λ h. h ∷ []) is_date)
                    i3
                    (λ l2 m4 e2 i4.
                      next_header Q (codes "Content-Type") (http_content_type_str info.ct) l2 _ m4 _
                        e2 i4
                        (λ l3 m5 e3 i5.
                          next_header Q (codes "Connection") (codes "Close") l3 _ m5 _ e3 i5
                            (λ l4 m6 e4 i6. next date l4 m6 d (e4 ∙ rw is_size refl) i6))))))
