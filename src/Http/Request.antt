-- ===== src/Http/Request.antt =====
-- The request line that `parse_http_req` (src/http.c) is meant to read, as a grammar of its own.
pub mod Accepts
pub mod Allocates
pub mod Blames
pub mod Pieces
pub mod Reasons
pub mod Refuses
pub mod Sound
use cn_cw.Common.{
  ℕ, suc, ◌+◌, ◌≡◌, refl, ◌≢◌, false, some, [], ◌∷◌, ◌++◌, arith, Bytes, codes, has, length,
  replicate, strchr, strspn, strchr-append,
}
use cn_cw.Http.{HttpReq, HttpVersion, http_10, http_11, parse_http_method, parse_version}
use cn_cw.Http.Tables.{HttpMethod, get, head, http_method_str}

unfoldable pub version_str : HttpVersion → Bytes
version_str http_10 = codes "HTTP/1.0"
version_str http_11 = codes "HTTP/1.1"

-- A method, spaces, the URI, a space and `gap`, the version, a carriage return and the rest.
abbrev pub request_line : HttpReq → ℕ → Bytes → Bytes → Bytes
request_line req pad gap rest =
    http_method_str req.method
    ++ (replicate (suc pad) b' '
        ++ (req.uri ++ (b' ' ∷ (gap ++ (version_str req.version ++ b'\r' ∷ rest)))))

-- `str` is the request line of `req`. There are as many bytes between the URI and the version as
-- spaces in front of the URI, and of these the parser looks only at the first.
pub record IsRequest (str : Bytes) (req : HttpReq) : Type 0 where
  pub pad : ℕ
  pub gap : Bytes
  pub rest : Bytes
  pub splits : str ≡ request_line req pad gap rest
  pub gap_length : length gap ≡ pad
  pub gap_lacks : has b'\r' gap ≡ false
  pub uri_lacks_space : has b' ' req.uri ≡ false
  pub uri_lacks_return : has b'\r' req.uri ≡ false
  pub uri_ne_nil : req.uri ≢ []

pub strchr_skip :
    (c : ℕ) (xs ys : Bytes) (n : ℕ)
    → has c xs ≡ false
    → strchr ys c ≡ some n
    → strchr (xs ++ ys) c ≡ some (length xs + n)
strchr_skip c xs ys n h e = rw (strchr-append c xs ys h, e) refl

pub has-http_method_str :
    (m : HttpMethod)
    → (has b' ' (http_method_str m) ≡ false) × (has b'\r' (http_method_str m) ≡ false)
unfolding http_method_str
has-http_method_str get = (refl, refl)
has-http_method_str head = (refl, refl)

pub has-version_str : (v : HttpVersion) → has b'\r' (version_str v) ≡ false
unfolding version_str
has-version_str http_10 = refl
has-version_str http_11 = refl

pub length-version_str : (v : HttpVersion) → length (version_str v) ≡ 8
unfolding version_str
length-version_str http_10 = refl
length-version_str http_11 = refl

pub parse_http_method-http_method_str :
    (m : HttpMethod) → parse_http_method (http_method_str m) ≡ some m
unfolding parse_http_method http_method_str
parse_http_method-http_method_str get = refl
parse_http_method-http_method_str head = refl

pub parse_version-version_str :
    (v : HttpVersion) (rest : Bytes) → parse_version 8 (version_str v ++ rest) ≡ some v
unfolding parse_version version_str
parse_version-version_str http_10 rest = refl
parse_version-version_str http_11 rest = refl

-- A URI that is not empty and has no space stops a run of spaces.
pub strspn-uri : (u ys : Bytes) → u ≢ [] → has b' ' u ≡ false → strspn (u ++ ys) b' ' ≡ 0
unfolding strspn
strspn-uri [] ys ne h = absurd (ne refl)
strspn-uri (x ∷ xs) ys ne h = ground arith
