-- ===== src/Http/Request/Refuses.antt =====
-- What `parse_http_req` (src/http.c) does not answer OK to.
use cn_cw.Common.{
  ◌+◌, ◌^◌, ◌<◌, ◌≡◌, ◌≢◌, sym, ◌∙◌, inl, inr, arith, ltb, Bool-cases, Bytes, length, ℕ,
}
use cn_cw.Http.{HttpReq, ParseResult, parse_ok, uri_too_long, parse_http_req}
use cn_cw.Http.Request.{IsRequest}
use cn_cw.Http.Request.Accepts.{answer, parse_http_req-IsRequest}
use cn_cw.Machine.{Machine}
use cn_cw.Memory.{server_alloc}
use cn_cw.Outcome.{returns, and_then-returns}
use cn_cw.Platform.{Platform}

module _ (platform : Platform) {C : Type 0} where
  open platform use {Os}

  -- A request line that the parser does not answer OK to has a URI that is too long.
  pub not_ok :
      (limit : ℕ) (str : Bytes) (old req filled : HttpReq) (m m' : Machine Os C) (r : ParseResult)
      → r ≢ parse_ok
      → parse_http_req platform limit str old m ≡ returns (r, filled) m'
      → length str < 2 ^ 63
      → IsRequest str req
      → (r ≡ uri_too_long) × (limit < length req.uri)
  unfolding answer
  not_ok limit str old req filled m m' r ne e small i =
      let is_answer : answer platform limit old req m ≡ returns (r, filled) m' =
        sym (parse_http_req-IsRequest platform limit str old req m i small) ∙ e in
      elim (Bool-cases (ltb limit (length req.uri))) [
        | inl long ↦
            let same = rw long at is_answer in
            let too_long : uri_too_long ≡ r = cc in (sym too_long, ground (arith, long))
        | inr short ↦
            let (a, s, _, same) =
              and_then-returns (server_alloc platform (length req.uri + 1) m)
                (λ _ m''. returns (parse_ok, req) m'') (rw short at is_answer) in
            let ok : parse_ok ≡ r = cc in absurd (ne (sym ok))
      ]
