-- ===== src/Handler/Response/Head.antt =====
-- The head of a response as `send_response` (src/handler.c) builds it in its buffer.
use cn_cw.Common.{
  ◌-◌, ◌≤◌, ◌≡◌, refl, ap, ◌∙◌, inl, inr, Option, some, List, [], ◌∷◌, ◌++◌, append-nil,
  append_assoc, arith, if◌then◌else◌, Bool-cases, ge→ltb, Bytes, codes, length, length-append,
  take_of_length_le,
}
use cn_cw.Conn.{HttpHeader}
use cn_cw.Handler.Response.{
  Out, put, put_headers, header_text, status_line, headers_only, response_text,
}
use cn_cw.Http.{HttpReq}
use cn_cw.Http.Tables.{HttpStatusCode}

-- The texts of the headers, one behind the other.
unfoldable pub headers_text : List HttpHeader → Bytes
headers_text [] = []
headers_text (h ∷ hs) = header_text h ++ headers_text hs

-- The head of a response: the status line, the headers, and the empty line where there is one.
unfoldable pub head_text : Option HttpReq → HttpStatusCode → List HttpHeader → Bytes
unfolding headers_text
head_text req code headers =
    status_line code ++ (headers_text headers ++ (if headers_only req then [] else codes "\r\n"))

-- The buffer after a text that fits it with its NUL.
abbrev pub holds : Bytes → Out
holds s = record { held = s; cursor = length s }

put-holds : (s t : Bytes) → length (s ++ t) ≤ 4095 → put t (holds s) ≡ some (holds (s ++ t))
unfolding put
put-holds s t h =
    let len = length-append s t in
    rw
      (
        ge→ltb 4096 (length s) (omega arith),
        take_of_length_le (4095 - length s) t (omega arith),
        len,
      )
      refl

put_headers-holds :
    (hs : List HttpHeader) (s : Bytes)
    → length (s ++ headers_text hs) ≤ 4095
    → put_headers hs (holds s) ≡ some (holds (s ++ headers_text hs))
unfolding put_headers headers_text
put_headers-holds [] s h = rw append-nil refl
put_headers-holds (hd ∷ hs) s h =
    let assoc = append_assoc s (header_text hd) (headers_text hs) in
    let fits : length (s ++ header_text hd) ≤ 4095 = omega (
      arith,
      length-append s (header_text hd ++ headers_text hs),
      length-append (header_text hd) (headers_text hs),
      length-append s (header_text hd),
    ) in
    rw (put-holds s (header_text hd) fits) (
      put_headers-holds hs (s ++ header_text hd) (omega (arith, ap length assoc))
      ∙ ap (λ t. some (holds t)) assoc)

end_put :
    (req : Option HttpReq) (s : Bytes)
    → length (s ++ (if headers_only req then [] else codes "\r\n")) ≤ 4095
    → (if headers_only req then some (holds s) else put (codes "\r\n") (holds s))
      ≡ some (holds (s ++ (if headers_only req then [] else codes "\r\n")))
end_put req s h = elim (Bool-cases (headers_only req)) [
  | inl e ↦ rw (e, append-nil) refl
  | inr e ↦ rw e (put-holds s (codes "\r\n") (rw e at h))
]

pub response_text-holds :
    (req : Option HttpReq) (code : HttpStatusCode) (headers : List HttpHeader)
    → length (head_text req code headers) ≤ 4095
    → response_text req code headers ≡ some (holds (head_text req code headers))
unfolding response_text head_text
response_text-holds req code headers h =
    let line = status_line code in
    let end : Bytes = if headers_only req then [] else codes "\r\n" in
    let whole = append_assoc line (headers_text headers) end in
    let fits : length (line ++ headers_text headers) ≤ 4095 =
      omega (arith, ap length whole, length-append (line ++ headers_text headers) end) in
    let line_fits : length line ≤ 4095 = omega (arith, length-append line (headers_text headers)) in
    rw (take_of_length_le 4095 line line_fits, put_headers-holds headers line fits, ← whole)
      (end_put req (line ++ headers_text headers) (omega (arith, ap length whole)))
