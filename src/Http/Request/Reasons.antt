-- ===== src/Http/Request/Reasons.antt =====
-- Why `parse_http_req` (src/http.c) turns a text down, as a grammar of the texts that it reads in
-- part, and the status that is to say so.
use cn_cw.Common.{
  ℕ, suc, ◌+◌, ◌≤◌, ◌<◌, ◌≡◌, ◌≢◌, refl, ap, ◌∙◌, true, false, some, [], ◌∷◌, ◌++◌, arith, Bytes,
  has, length, replicate, strchr, strspn, drop, strchr_found, has-replicate, ◌==◌, inl, inr,
  strspn-replicate, drop-append, drop-append_add, length-replicate, Bool-cases, Option-cases,
}
use cn_cw.Http.Request.{strchr_skip, has-http_method_str, strspn-uri}
use cn_cw.Http.Tables
use cn_cw.Http.Tables.{
  HttpMethod, http_method_str, HttpStatusCode, bad_request, method_not_allowed,
  version_no_supported,
}

-- The text starts with a word that a space ends, in front of the end of the line.
pub record HasWord (text word : Bytes) : Type 0 where
  pub rest : Bytes
  pub splits : text ≡ word ++ b' ' ∷ rest
  pub lacks_space : has b' ' word ≡ false
  pub lacks_return : has b'\r' word ≡ false
  pub returns_after : has b'\r' rest ≡ true

-- The text starts with a method of the server and, behind spaces, a URI that a space ends, in
-- front of the end of the line.
pub record HasTarget (text uri : Bytes) : Type 0 where
  pub method : HttpMethod
  pub pad : ℕ
  pub rest : Bytes
  pub splits : text ≡ http_method_str method ++ (replicate (suc pad) b' ' ++ (uri ++ b' ' ∷ rest))
  pub lacks_space : has b' ' uri ≡ false
  pub lacks_return : has b'\r' uri ≡ false
  pub ne_nil : uri ≢ []
  pub returns_after : has b'\r' rest ≡ true

-- What is wrong with a text that is turned down, by the status that says so.
pub data Reason (limit : ℕ) (text : Bytes) : HttpStatusCode → Type 0 where
  no_word : ¬ ((word : Bytes) × HasWord text word) → Reason limit text bad_request
  no_target :
      (method : HttpMethod)
      → HasWord text (http_method_str method)
      → ¬ ((uri : Bytes) × HasTarget text uri)
      → Reason limit text bad_request
  no_method :
      (word : Bytes)
      → HasWord text word
      → ((method : HttpMethod) → word ≢ http_method_str method)
      → Reason limit text method_not_allowed
  long_uri :
      (uri : Bytes)
      → HasTarget text uri
      → limit < length uri
      → Reason limit text Tables.uri_too_long
  no_version :
      (uri : Bytes)
      → HasTarget text uri
      → length uri ≤ limit
      → Reason limit text version_no_supported

has-strchr : (c : ℕ) (xs : Bytes) → has c xs ≡ true → (n : ℕ) × (strchr xs c ≡ some n)
unfolding strchr
has-strchr c [] h = cc
has-strchr c (x ∷ xs) h = elim (Bool-cases (x == c)) [
  | inl e ↦ (0, rw e refl)
  | inr e ↦ let (n, k) = has-strchr c xs (rw e at h) in (suc n, rw (e, k) refl)
]

pub strchr-has : (c : ℕ) (xs : Bytes) {n : ℕ} → strchr xs c ≡ some n → has c xs ≡ true
unfolding strchr
strchr-has c [] h = cc
strchr-has c (x ∷ xs) h = elim (Bool-cases (x == c)) [
  | inl e ↦ rw e refl
  | inr e ↦ elim (Option-cases (strchr xs c)) [
    | inl k ↦ cc (rw (e, k) at h)
    | inr (n, k) ↦ rw e (strchr-has c xs k)
  ]
]

-- The first space is behind the word, and the end of the line is behind both.
pub HasWord-found :
    {text word : Bytes}
    → HasWord text word
    → (strchr text b' ' ≡ some (length word))
      × ((n : ℕ) × (strchr text b'\r' ≡ some n) × (length word ≤ n))
HasWord-found {text} {word} h =
    let (n, e) = has-strchr b'\r' h.rest h.returns_after in
    (
      ap (λ t. strchr t b' ') h.splits ∙ strchr_found b' ' word h.rest h.lacks_space,
      (
        length word + (1 + n),
        ap (λ t. strchr t b'\r') h.splits
            ∙ strchr_skip b'\r' word (b' ' ∷ h.rest) (1 + n) h.lacks_return
                (strchr_skip b'\r' (b' ' ∷ []) h.rest n refl e),
        omega arith,
      ),
    )

-- Where the parser's pointers stand around a URI.
pub HasTarget-found :
    {text uri : Bytes} (h : HasTarget text uri)
    → let word = length (http_method_str h.method) in
      (strchr text b' ' ≡ some word)
      × (strspn (drop word text) b' ' ≡ suc h.pad)
      × (strchr (drop (word + suc h.pad) text) b' ' ≡ some (length uri))
      × ((n : ℕ) × (strchr text b'\r' ≡ some n) × (word + suc h.pad + length uri ≤ n))
HasTarget-found {text} {uri} h =
    let m = http_method_str h.method in
    let spaces = replicate (suc h.pad) b' ' in
    let (n, e) = has-strchr b'\r' h.rest h.returns_after in
    (
      ap (λ t. strchr t b' ') h.splits ∙ strchr_found b' ' m _ (has-http_method_str h.method).0,
      ap (λ t. strspn (drop (length m) t) b' ') h.splits
          ∙ ap (λ s. strspn s b' ') (drop-append m _)
          ∙ strspn-replicate b' ' (suc h.pad) _ (strspn-uri uri _ h.ne_nil h.lacks_space),
      ap (λ t. strchr (drop (length m + suc h.pad) t) b' ') h.splits
          ∙ ap (λ s. strchr s b' ')
              (drop-append_add m _ (length m + suc h.pad) (suc h.pad) refl
                ∙ drop-append_add spaces _ (suc h.pad) 0
                    (omega (arith, length-replicate {A = ℕ} (suc h.pad) b' ')))
          ∙ strchr_found b' ' uri _ h.lacks_space,
      (
        length m + (length spaces + (length uri + (1 + n))),
        ap (λ t. strchr t b'\r') h.splits
            ∙ strchr_skip b'\r' m _ _ (has-http_method_str h.method).1 (
                strchr_skip b'\r' spaces _ _ (has-replicate b'\r' b' ' (suc h.pad) refl) (
                  strchr_skip b'\r' uri _ _ h.lacks_return
                    (strchr_skip b'\r' (b' ' ∷ []) h.rest n refl e))),
        omega (arith, length-replicate {A = ℕ} (suc h.pad) b' '),
      ),
    )
