-- ===== src/Http/Request/Accepts.antt =====
-- `parse_http_req` (src/http.c) reads back every request line of the grammar.
use cn_cw.Common.{
  ℕ, suc, ◌+◌, ◌-◌, ◌^◌, ◌<◌, ◌≡◌, refl, ap, ◌∙◌, false, some, [], ◌∷◌, ◌++◌, arith, ltb, ◌==◌,
  if◌then◌else◌, Bytes, has, length, drop, take, replicate, strchr, strspn, strchr_found,
  has-replicate, strspn-replicate, drop-append, drop-append_add, take-append, length-replicate,
  length-append, ge→ltb,
}
use cn_cw.Http.{
  HttpReq, ParseResult, parse_ok, uri_too_long, parse_http_method, parse_version, finish_version,
  parse_protocol, parse_uri, parse_target, parse_line, parse_http_req,
}
use cn_cw.Http.Request.{
  request_line, version_str, IsRequest, strchr_skip, has-http_method_str, has-version_str,
  length-version_str, parse_http_method-http_method_str, parse_version-version_str, strspn-uri,
}
use cn_cw.Http.Tables.{http_method_str}
use cn_cw.Machine.{Machine}
use cn_cw.Memory.{word, server_alloc}
use cn_cw.Outcome.{Outcome, returns, and_then}
use cn_cw.Platform.{Platform}

-- Where the parser's pointers stand in a request line.
module _ (req : HttpReq) (pad : ℕ) (gap rest : Bytes) where
  abbrev before_uri : ℕ
  before_uri = length (http_method_str req.method) + suc pad

  length-request_line :
      length (request_line req pad gap rest)
      ≡ before_uri + length req.uri + suc (length gap) + 9 + length rest
  length-request_line =
      let tail = length-append (version_str req.version) (b'\r' ∷ rest) in
      let tail2 = length-append gap (version_str req.version ++ b'\r' ∷ rest) in
      let tail3 =
        length-append req.uri (b' ' ∷ (gap ++ (version_str req.version ++ b'\r' ∷ rest))) in
      let tail4 =
        length-append (replicate (suc pad) b' ')
          (req.uri ++ (b' ' ∷ (gap ++ (version_str req.version ++ b'\r' ∷ rest)))) in
      omega (
        arith,
        tail,
        tail2,
        tail3,
        tail4,
        length-append (http_method_str req.method) (
            replicate (suc pad) b' '
            ++ (req.uri ++ (b' ' ∷ (gap ++ (version_str req.version ++ b'\r' ∷ rest))))),
        length-version_str req.version,
        length-replicate {A = ℕ} (suc pad) b' ',
      )

  line_end-request_line :
      length gap ≡ pad
      → has b'\r' gap ≡ false
      → has b'\r' req.uri ≡ false
      → strchr (request_line req pad gap rest) b'\r'
        ≡ some (before_uri + length req.uri + suc pad + 8)
  line_end-request_line gl gr ur =
      let v = version_str req.version in
      let spaces = replicate (suc pad) b' ' in
      let found =
        strchr_skip b'\r' (http_method_str req.method) _ _ (has-http_method_str req.method).1 (
          strchr_skip b'\r' spaces _ _ (has-replicate b'\r' b' ' (suc pad) refl) (
            strchr_skip b'\r' req.uri _ _ ur (
              strchr_skip b'\r' (b' ' ∷ gap) _ _ gr
                (strchr_found b'\r' v rest (has-version_str req.version))))) in
      found
      ∙ ap some (
          omega
            (arith, length-version_str req.version, length-replicate {A = ℕ} (suc pad) b' ', gl))

  method_end-request_line :
      strchr (request_line req pad gap rest) b' ' ≡ some (length (http_method_str req.method))
  method_end-request_line =
      strchr_found b' ' (http_method_str req.method) _ (has-http_method_str req.method).0

  drop-method :
      (ys : Bytes)
      → drop (length (http_method_str req.method)) (http_method_str req.method ++ ys) ≡ ys
  drop-method ys = drop-append (http_method_str req.method) ys

  uri-request_line :
      drop before_uri (request_line req pad gap rest)
      ≡ req.uri ++ (b' ' ∷ (gap ++ (version_str req.version ++ b'\r' ∷ rest)))
  uri-request_line =
      drop-append_add (http_method_str req.method) _ before_uri (suc pad) refl
      ∙ drop-append_add (replicate (suc pad) b' ') _ (suc pad) 0
          (omega (arith, length-replicate {A = ℕ} (suc pad) b' '))

  protocol-request_line :
      length gap ≡ pad
      → drop (before_uri + length req.uri + suc pad) (request_line req pad gap rest)
        ≡ version_str req.version ++ b'\r' ∷ rest
  protocol-request_line gl =
      drop-append_add (http_method_str req.method) _ _ (suc pad + (length req.uri + suc pad))
        (omega arith)
      ∙ drop-append_add (replicate (suc pad) b' ') _ _ (length req.uri + suc pad)
          (omega (arith, length-replicate {A = ℕ} (suc pad) b' '))
      ∙ drop-append_add req.uri _ _ (suc pad) refl
      ∙ drop-append_add (b' ' ∷ gap) _ (suc pad) 0 (omega arith)

  strspn-request_line :
      has b' ' req.uri ≡ false
      → (req.uri ≡ [] → ⊥)
      → strspn (drop (length (http_method_str req.method)) (request_line req pad gap rest)) b' '
        ≡ suc pad
  strspn-request_line us ne =
      ap (λ s. strspn s b' ') (drop-method _)
      ∙ strspn-replicate b' ' (suc pad) _ (strspn-uri req.uri _ ne us)

  uri_end-request_line :
      has b' ' req.uri ≡ false
      → strchr (drop before_uri (request_line req pad gap rest)) b' ' ≡ some (length req.uri)
  uri_end-request_line us =
      ap (λ s. strchr s b' ') uri-request_line ∙ strchr_found b' ' req.uri _ us

module _ (platform : Platform) {C : Type 0} where
  open platform use {Os}

  -- The outcome that a request line calls for: its URI is too long, or it is copied and the
  -- request is the answer.
  unfoldable pub answer :
      ℕ → HttpReq → HttpReq → Machine Os C → Outcome (Machine Os C) (ParseResult × HttpReq)
  answer limit old req m =
      if ltb limit (length req.uri)
      then returns (uri_too_long, record old { method = req.method }) m
      else and_then (server_alloc platform (length req.uri + 1) m)
          (λ _ m'. returns (parse_ok, req) m')

  -- `parse_protocol` where the pointers are known and the version has eight bytes.
  parse_protocol_lem :
      (str : Bytes) (method_end uri uri_len skip : ℕ) (u protocol : Bytes) (req : HttpReq)
      (m : Machine Os C)
      → strspn (drop method_end str) b' ' ≡ suc skip
      → take uri_len (drop uri str) ≡ u
      → drop (uri + uri_len + suc skip) str ≡ protocol
      → uri + uri_len + suc skip < 2 ^ 63
      → parse_protocol platform str
          (uri + uri_len + suc skip + 8)
          method_end
          uri
          (uri + uri_len)
          req
          m
        ≡ and_then (server_alloc platform (uri_len + 1) m) (λ _ m'.
          returns (finish_version (parse_version 8 protocol) (record req { uri = u })) m')
  unfolding parse_protocol
  parse_protocol_lem str method_end uri uri_len skip u protocol req m es et ed small =
      let len : uri + uri_len - uri ≡ uri_len = omega arith in
      let eight : word (uri + uri_len + suc skip + 8 + 2 ^ 64 - (uri + uri_len + suc skip)) ≡ 8 =
        omega arith in
      let more : (suc skip == 0) ≡ false = ground arith in rw (es, len, et, ed, eight, more) refl

  -- `parse_uri` at a request line: only the limit on the URI is left to test.
  parse_uri-request_line :
      (limit : ℕ) (old req : HttpReq) (pad : ℕ) (gap rest : Bytes) (m : Machine Os C)
      → length gap ≡ pad
      → has b' ' req.uri ≡ false
      → (req.uri ≡ [] → ⊥)
      → before_uri req pad gap rest + length req.uri + suc pad < 2 ^ 63
      → parse_uri platform limit
          (request_line req pad gap rest)
          (before_uri req pad gap rest + length req.uri + suc pad + 8)
          (length (http_method_str req.method))
          (before_uri req pad gap rest)
          (some (length req.uri))
          (record old { method = req.method })
          m
        ≡ answer limit old req m
  unfolding parse_uri answer
  parse_uri-request_line limit old req pad gap rest m gl us ne small =
      let start = before_uri req pad gap rest in
      let inside : ltb (start + length req.uri + suc pad + 8) (start + length req.uri) ≡ false =
        ge→ltb _ _ (omega arith) in
      let copied =
        ap (take (length req.uri)) (uri-request_line req pad gap rest) ∙ take-append req.uri _ in
      let parsed =
        parse_protocol_lem (request_line req pad gap rest) (length (http_method_str req.method))
          start (length req.uri) pad req.uri (version_str req.version ++ b'\r' ∷ rest)
          (record old { method = req.method }) m (strspn-request_line req pad gap rest us ne) copied
          (protocol-request_line req pad gap rest gl) small in
      rw (inside, parsed, parse_version-version_str req.version (b'\r' ∷ rest))
        (unfold finish_version in refl)

  accepts_request_line :
      (limit : ℕ) (old req : HttpReq) (pad : ℕ) (gap rest : Bytes) (m : Machine Os C)
      → length gap ≡ pad
      → has b'\r' gap ≡ false
      → has b' ' req.uri ≡ false
      → has b'\r' req.uri ≡ false
      → (req.uri ≡ [] → ⊥)
      → before_uri req pad gap rest + length req.uri + suc pad < 2 ^ 63
      → parse_http_req platform limit (request_line req pad gap rest) old m ≡ answer limit old req m
  unfolding parse_http_req parse_line parse_target
  accepts_request_line limit old req pad gap rest m gl gr us ur ne small =
      let str = request_line req pad gap rest in
      let method_end = length (http_method_str req.method) in
      let start = before_uri req pad gap rest in
      let inside : ltb (start + length req.uri + suc pad + 8) method_end ≡ false =
        ge→ltb _ _ (omega arith) in
      let method : parse_http_method (take method_end str) ≡ some req.method =
        ap parse_http_method (take-append (http_method_str req.method) _)
        ∙ parse_http_method-http_method_str req.method in
      let more : (suc pad == 0) ≡ false = ground arith in
      rw
        (
          line_end-request_line req pad gap rest gl gr ur,
          method_end-request_line req pad gap rest,
          inside,
          method,
          strspn-request_line req pad gap rest us ne,
          more,
          uri_end-request_line req pad gap rest us,
        )
        (parse_uri-request_line limit old req pad gap rest m gl us ne small)

  -- On the request line of `req`, whatever the padding and whatever follows the line,
  -- `parse_http_req` answers URI_TOO_LONG without allocating when the URI is longer than the
  -- limit, and otherwise allocates the URI's length and one byte, and answers OK with `req`.
  -- The string is shorter than 2 ^ 63 bytes.
  pub parse_http_req-IsRequest :
      (limit : ℕ) (str : Bytes) (old req : HttpReq) (m : Machine Os C)
      → IsRequest str req
      → length str < 2 ^ 63
      → parse_http_req platform limit str old m ≡ answer limit old req m
  parse_http_req-IsRequest limit str old req m i small =
      let shape = i.splits in
      let short : before_uri req i.pad i.gap i.rest + length req.uri + suc i.pad < 2 ^ 63 =
        omega (arith, ap length shape, length-request_line req i.pad i.gap i.rest, i.gap_length) in
      rw shape (
        accepts_request_line limit old req i.pad i.gap i.rest m i.gap_length i.gap_lacks
          i.uri_lacks_space i.uri_lacks_return i.uri_ne_nil short)
