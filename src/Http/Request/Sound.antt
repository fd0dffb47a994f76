-- ===== src/Http/Request/Sound.antt =====
-- What `parse_http_req` (src/http.c) answers OK to is a request line of the grammar.
use cn_cw.Common.{
  ℕ, suc, ◌+◌, ◌-◌, ◌^◌, ◌<◌, ◌≤◌, ◌≡◌, refl, sym, ap, subst, ◌∙◌, inl, inr, Option, none, some,
  arith, ◌==◌, Bytes, codes, bytes_eq→eq, length, drop, take, strchr, strspn, Bool-cases,
  Option-cases,
}
use cn_cw.Http.{
  HttpReq, HttpVersion, http_10, http_11, parse_ok, parse_http_method, parse_version,
  finish_version, parse_protocol, parse_uri, parse_target, parse_line, parse_http_req,
}
use cn_cw.Http.Request.{version_str, IsRequest}
use cn_cw.Http.Request.Pieces.{IsRequest-Pieces, drop-Pieces, pieces, strchr-lt, take-Pieces}
use cn_cw.Http.Tables.{HttpMethod, get, head, http_method_str}
use cn_cw.Machine.{Machine}
use cn_cw.Memory.{word, server_alloc}
use cn_cw.Outcome.{returns, and_then-returns}
use cn_cw.Platform.{Platform}

pub parse_http_method-some :
    (s : Bytes) {method : HttpMethod}
    → parse_http_method s ≡ some method
    → s ≡ http_method_str method
unfolding parse_http_method http_method_str
parse_http_method-some s {method = get} h = bytes_eq→eq s (codes "GET") (ground arith)
parse_http_method-some s {method = head} h = bytes_eq→eq s (codes "HEAD") (ground arith)

parse_version-some :
    (len : ℕ) (protocol : Bytes) {version : HttpVersion}
    → parse_version len protocol ≡ some version
    → (len ≡ 8) × (take 8 protocol ≡ version_str version)
unfolding parse_version version_str
parse_version-some len protocol {version = http_10} h =
    (ground arith, bytes_eq→eq (take 8 protocol) (codes "HTTP/1.0") (ground arith))
parse_version-some len protocol {version = http_11} h =
    (ground arith, bytes_eq→eq (take 8 protocol) (codes "HTTP/1.1") (ground arith))

finish_version-ok :
    (v : Option HttpVersion) (old req : HttpReq)
    → finish_version v old ≡ (parse_ok, req)
    → (version : HttpVersion) × (v ≡ some version) × (req ≡ record old { version = version })
unfolding finish_version
finish_version-ok none old req h = cc (ap (λ p. p.0) h)
finish_version-ok (some v) old req h = (v, refl, sym (ap (λ p. p.1) h))

pub returns-injective : {S A : Type 0} {a b : A} {s t : S} → returns a s ≡ returns b t → a ≡ b
returns-injective h = cc

module _ (platform : Platform) {C : Type 0} where
  open platform use {Os}

  parse_protocol-ok :
      (str : Bytes) (line_end method_end uri uri_end : ℕ) (old req : HttpReq) (m m' : Machine Os C)
      → parse_protocol platform str line_end method_end uri uri_end old m
        ≡ returns (parse_ok, req) m'
      → let protocol = uri_end + strspn (drop method_end str) b' ' in
        (version : HttpVersion) × (word (line_end + 2 ^ 64 - protocol) ≡ 8)
        × (take 8 (drop protocol str) ≡ version_str version)
        × (req ≡ record old { uri = take (uri_end - uri) (drop uri str); version = version })
  unfolding parse_protocol
  parse_protocol-ok str line_end method_end uri uri_end old req m m' h =
      let (a, s, e, k) = and_then-returns (server_alloc platform (uri_end - uri + 1) m) _ h in
      let skip = strspn (drop method_end str) b' ' in
      let u = take (uri_end - uri) (drop uri str) in
      let protocol = uri_end + skip in
      let parsed = parse_version (word (line_end + 2 ^ 64 - protocol)) (drop protocol str) in
      elim (Bool-cases (skip == 0)) [
        | inl z ↦ cc (rw z at k)
        | inr more ↦
            let k' : returns (finish_version parsed (record old { uri = u })) s
                ≡ returns (parse_ok, req) m' =
              rw more at k in
            let (v, pv, er) =
              finish_version-ok parsed (record old { uri = u }) req (returns-injective k') in
            let (len, eight) = parse_version-some _ (drop protocol str) pv in (v, len, eight, er)
      ]

  -- What the tests up to the version establish.
  parse_http_req-stages :
      (limit : ℕ) (str : Bytes) (old req : HttpReq) (m m' : Machine Os C)
      → parse_http_req platform limit str old m ≡ returns (parse_ok, req) m'
      → (line_end method_end uri_len : ℕ) × (method : HttpMethod) × (strchr str b'\r'
          ≡ some line_end)
        × (strchr str b' ' ≡ some method_end)
        × (parse_http_method (take method_end str) ≡ some method)
        × (strchr (drop (method_end + strspn (drop method_end str) b' ') str) b' ' ≡ some uri_len)
        × (method_end + strspn (drop method_end str) b' ' + uri_len ≤ line_end)
        × (uri_len ≤ limit)
        × (parse_protocol platform str line_end method_end
              (method_end + strspn (drop method_end str) b' ')
              (method_end + strspn (drop method_end str) b' ' + uri_len)
              (record old { method = method })
              m
            ≡ returns (parse_ok, req) m')
  unfolding parse_http_req parse_line parse_target parse_uri
  parse_http_req-stages limit str old req m m' h = elim (Option-cases (strchr str b'\r')) [
    | inl e ↦ cc (rw e at h)
    | inr (le, e1) ↦ elim (Option-cases (strchr str b' ')) [
      | inl e ↦ cc (rw (e1, e) at h)
      | inr (me, e2) ↦ elim (Option-cases (parse_http_method (take me str))) [
        | inl e ↦ ground (arith, e1, e2, e)
        | inr (method, e3) ↦
            elim (Option-cases (strchr (drop (me + strspn (drop me str) b' ') str) b' ')) [
              | inl e ↦ ground (arith, e1, e2, e3, e)
              | inr (ul, e4) ↦
                  (le, me, ul, method, e1, e2, e3, e4, ground arith, ground arith, ground arith)
            ]
      ]
    ]
  ]

  -- An answer OK of `parse_http_req` comes from a request line: the string is the line of the
  -- request that it fills in, and the URI is no longer than the limit. The string is shorter than
  -- 2 ^ 63 bytes.
  pub parse_http_req-ok :
      (limit : ℕ) (str : Bytes) (old req : HttpReq) (m m' : Machine Os C)
      → parse_http_req platform limit str old m ≡ returns (parse_ok, req) m'
      → length str < 2 ^ 63
      → IsRequest str req × (length req.uri ≤ limit)
  parse_http_req-ok limit str old req m m' h small =
      let (le, me, ul, method, e1, e2, e3, e4, inside, fits, rest_ok) =
        parse_http_req-stages limit str old req m m' h in
      let (p, part, at) = pieces str le me ul e1 e2 e4 inside in
      let skip = strspn (drop me str) b' ' in
      let old' = record old { method = method } in
      let (version, len, eight, filled) =
        parse_protocol-ok str le me (me + skip) (me + skip + ul) old' req m m' rest_ok in
      let (n, en, line) = p.returns_behind in
      let protocol : drop (me + skip + ul + skip) str ≡ drop p.pad p.behind =
        subst (λ k. drop (me + skip + ul + k) str ≡ drop p.pad p.behind) (sym p.skip_is)
          (subst (λ k. drop (k + skip + ul + suc p.pad) str ≡ drop p.pad p.behind) at
            (drop-Pieces p p.pad)) in
      let copied : take (me + skip + ul - (me + skip)) (drop (me + skip) str) ≡ p.uri_part =
        subst (λ k. take k (drop (me + skip) str) ≡ p.uri_part) (omega arith)
          (subst (λ k. take ul (drop (k + skip) str) ≡ p.uri_part) at (take-Pieces p)) in
      let uri_is : req.uri ≡ p.uri_part = ap (λ r. r.uri) filled ∙ copied in
      let method_is : http_method_str req.method ≡ p.method_part =
        ap (λ r. http_method_str r.method) filled ∙ sym (parse_http_method-some _ e3) ∙ sym part in
      (
        IsRequest-Pieces p req n method_is uri_is en
            (omega (arith, strchr-lt str b'\r' e1, p.skip_is))
            (sym (ap (take 8) protocol) ∙ eight ∙ sym (ap (λ r. version_str r.version) filled)),
        omega (arith, ap length uri_is, p.uri_len_is),
      )
