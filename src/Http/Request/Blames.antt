-- ===== src/Http/Request/Blames.antt =====
-- What `parse_http_req` (src/http.c) answers to a text that it turns down is what is wrong with it.
use cn_cw.Common.{
  ℕ, suc, ◌+◌, ◌-◌, ◌^◌, ◌≤◌, ◌≡◌, ◌≢◌, sym, ap, subst, ◌∙◌, inl, inr, Option, none, some, ◌∷◌,
  ◌++◌, arith, ltb, ◌==◌, ltb→ge, ==→eq, Bytes, length, drop, take, replicate, strchr, strspn,
  strchr-FirstAt, strchr-append_ge, take-append, Bool-cases, Option-cases,
}
use cn_cw.Http.{
  HttpReq, ParseResult, parse_ok, invalid_syntax, invalid_version, uri_too_long, invalid_method,
  parse_http_method, parse_version, finish_version, parse_protocol, parse_uri, parse_target,
  parse_line, parse_http_req,
}
use cn_cw.Http.Request.{parse_http_method-http_method_str}
use cn_cw.Http.Request.Pieces.{pieces, uri-ne-nil}
use cn_cw.Http.Request.Reasons.{
  HasWord, HasTarget, Reason, no_word, no_target, no_method, long_uri, no_version, strchr-has,
  HasWord-found, HasTarget-found,
}
use cn_cw.Http.Request.Sound.{parse_http_method-some, returns-injective}
use cn_cw.Http.Tables
use cn_cw.Http.Tables.{
  HttpMethod, http_method_str, bad_request, method_not_allowed, version_no_supported,
}
use cn_cw.Machine.{Machine}
use cn_cw.Memory.{word, server_alloc}
use cn_cw.Outcome.{Outcome, returns, and_then-returns}
use cn_cw.Platform.{Platform}

-- What the answer says of the text.
abbrev pub Says : ℕ → Bytes → ParseResult → Type 0
Says limit text parse_ok = Unit
Says limit text invalid_syntax = Reason limit text bad_request
Says limit text invalid_version = Reason limit text version_no_supported
Says limit text uri_too_long = Reason limit text Tables.uri_too_long
Says limit text invalid_method = Reason limit text method_not_allowed

said :
    {S : Type 0} (limit : ℕ) (text : Bytes) {r r' : ParseResult} {q q' : HttpReq} {s s' : S}
    → ◌≡◌ {A = Outcome S (ParseResult × HttpReq)} (returns (r, q) s) (returns (r', q') s')
    → Says limit text r
    → Says limit text r'
said limit text e h = subst (Says limit text) (ap (λ p. p.0) (returns-injective e)) h

-- The word in front of the first space, where that is in front of the first return.
word_at :
    (str : Bytes) {line_end method_end : ℕ}
    → strchr str b'\r' ≡ some line_end
    → strchr str b' ' ≡ some method_end
    → method_end ≤ line_end
    → HasWord str (take method_end str)
word_at str {line_end} {method_end} e1 e2 le =
    let f = strchr-FirstAt str b' ' e2 in
    let (lacks, at) =
      strchr-append_ge b'\r' f.before (b' ' ∷ f.after)
        (subst (λ t. strchr t b'\r' ≡ some line_end) f.splits e1) (omega (arith, f.index, le)) in
    let is_word : f.before ≡ take method_end str = sym (
      subst (λ k. take k str ≡ f.before) f.index
        (ap (take (length f.before)) f.splits ∙ take-append f.before _)) in
    subst (HasWord str) is_word (record {
      rest = f.after;
      splits = f.splits;
      lacks_space = f.lacks;
      lacks_return = lacks;
      returns_after = strchr-has b'\r' (b' ' ∷ f.after) at;
    })

-- The pieces that the parser has found.
target_at :
    (str : Bytes) {line_end method_end uri_len : ℕ} (method : HttpMethod)
    → strchr str b'\r' ≡ some line_end
    → strchr str b' ' ≡ some method_end
    → take method_end str ≡ http_method_str method
    → strchr (drop (method_end + strspn (drop method_end str) b' ') str) b' ' ≡ some uri_len
    → method_end + strspn (drop method_end str) b' ' + uri_len ≤ line_end
    → (uri : Bytes) × HasTarget str uri × (length uri ≡ uri_len)
target_at str {line_end} {method_end} {uri_len} method e1 e2 is_method e4 le =
    let (p, part, _) = pieces str line_end method_end uri_len e1 e2 e4 le in
    let (n, en, _) = p.returns_behind in
    (
      p.uri_part,
      record {
        method = method;
        pad = p.pad;
        rest = p.behind;
        splits =
            p.splits
            ∙ ap (λ t. t ++ (replicate (suc p.pad) b' ' ++ (p.uri_part ++ b' ' ∷ p.behind)))
                (part ∙ is_method);
        lacks_space = p.uri_lacks_space;
        lacks_return = p.uri_lacks_return;
        ne_nil = uri-ne-nil p.uri_part p.behind p.uri_starts;
        returns_after = strchr-has b'\r' p.behind en;
      },
      p.uri_len_is,
    )

-- A word that is the name of no method.
not_method :
    (text : Bytes)
    → parse_http_method text ≡ none
    → (method : HttpMethod) → text ≢ http_method_str method
not_method text e method is =
    let found : parse_http_method text ≡ some method =
      ap parse_http_method is ∙ parse_http_method-http_method_str method in
    cc

no_pointer : {A : Type 0} {r : Option A} {a : A} → r ≡ none → r ≢ some a
no_pointer e f = cc

same_pointer : {r : Option ℕ} {a b : ℕ} → r ≡ some a → r ≡ some b → a ≡ b
same_pointer e f = cc

-- With a method, and without a URI where the parser looks for it.
no_target_at :
    (limit : ℕ) (str : Bytes) {line_end method_end : ℕ} (method : HttpMethod)
    → strchr str b'\r' ≡ some line_end
    → strchr str b' ' ≡ some method_end
    → method_end ≤ line_end
    → take method_end str ≡ http_method_str method
    → ((uri_len : ℕ)
        → strchr (drop (method_end + strspn (drop method_end str) b' ') str) b' ' ≡ some uri_len
        → method_end + strspn (drop method_end str) b' ' + uri_len ≤ line_end
        → strspn (drop method_end str) b' ' ≢ 0
        → ⊥)
    → Reason limit str bad_request
no_target_at limit str {line_end} {method_end} method e1 e2 le is_method lacks =
    no_target method (subst (HasWord str) is_method (word_at str e1 e2 le)) (λ (uri, t).
      let (s, skip, ends, (n, r, inside)) = HasTarget-found t in
      let me_is = same_pointer s e2 in
      let le_is = same_pointer r e1 in
      let skip' : strspn (drop method_end str) b' ' ≡ suc t.pad =
        subst (λ k. strspn (drop k str) b' ' ≡ suc t.pad) me_is skip in
      lacks (length uri)
        (ap (λ k. strchr (drop (method_end + k) str) b' ') skip'
          ∙ subst (λ k. strchr (drop (k + suc t.pad) str) b' ' ≡ some (length uri)) me_is ends)
        (omega (arith, inside, me_is, le_is, skip')) (λ z. omega (arith, skip', z)))

module _ (platform : Platform) {C : Type 0} where
  open platform use {Os}

  -- The end of the parser, behind a URI that is within the limit.
  parse_protocol-Says :
      (limit : ℕ) (str uri : Bytes) (line_end method_end at uri_end : ℕ) (old req : HttpReq)
      (r : ParseResult) (m m' : Machine Os C)
      → HasTarget str uri
      → length uri ≤ limit
      → strspn (drop method_end str) b' ' ≢ 0
      → parse_protocol platform str line_end method_end at uri_end old m ≡ returns (r, req) m'
      → Says limit str r
  unfolding parse_protocol finish_version
  parse_protocol-Says limit str uri line_end method_end at uri_end old req r m m' t fits some_skip
        h =
      let (a, s, e, k) = and_then-returns (server_alloc platform (uri_end - at + 1) m) _ h in
      let skip = strspn (drop method_end str) b' ' in
      let protocol = uri_end + skip in
      elim (Bool-cases (skip == 0)) [
        | inl z ↦ absurd (some_skip (==→eq skip 0 z))
        | inr more ↦
            elim (Option-cases
              (parse_version (word (line_end + 2 ^ 64 - protocol)) (drop protocol str))) [
                | inl none_such ↦ said limit str (rw (more, none_such) at k) (no_version uri t fits)
                | inr (v, found) ↦ said limit str (rw (more, found) at k) tt
              ]
      ]

  -- From the method on.
  parse_target-Says :
      (limit : ℕ) (str : Bytes) (line_end method_end : ℕ) (old req : HttpReq) (r : ParseResult)
      (m m' : Machine Os C)
      → strchr str b'\r' ≡ some line_end
      → strchr str b' ' ≡ some method_end
      → method_end ≤ line_end
      → parse_target platform limit str line_end method_end
          (parse_http_method (take method_end str))
          old
          m
        ≡ returns (r, req) m'
      → Says limit str r
  unfolding parse_target parse_uri
  parse_target-Says limit str le me old req r m m' e1 e2 in_line h =
      let skip = strspn (drop me str) b' ' in
      elim (Option-cases (parse_http_method (take me str))) [
        | inl e ↦
            said limit str (rw e at h)
              (no_method (take me str) (word_at str e1 e2 in_line) (not_method (take me str) e))
        | inr (method, e3) ↦
            let named = parse_http_method-some (take me str) e3 in
            elim (Bool-cases (skip == 0)) [
              | inl z ↦ said limit str (rw (e3, z) at h) (
                  no_target_at limit str method e1 e2 in_line named
                    (λ n e i some_skip. some_skip (==→eq skip 0 z)))
              | inr more ↦ elim (Option-cases (strchr (drop (me + skip) str) b' ')) [
                | inl e ↦ said limit str (rw (e3, more, e) at h) (
                    no_target_at limit str method e1 e2 in_line named (λ n e' i k. no_pointer e e'))
                | inr (ul, e4) ↦ elim (Bool-cases (ltb le (me + skip + ul))) [
                  | inl behind ↦ said limit str (rw (e3, more, e4, behind) at h) (
                      no_target_at limit str method e1 e2 in_line named
                        (λ n e' i k. ground (arith, behind, i, same_pointer e4 e')))
                  | inr inside ↦
                      let (uri, t, is_len) =
                        target_at str method e1 e2 named e4 (ltb→ge le (me + skip + ul) inside) in
                      elim (Bool-cases (ltb limit ul)) [
                        | inl long ↦
                            said limit str (rw (e3, more, e4, inside, long) at h)
                              (long_uri uri t (ground (arith, long, is_len)))
                        | inr fits ↦
                            parse_protocol-Says limit str uri le me (me + skip) (me + skip + ul)
                              (record old { method = method }) req r m m' t
                              (omega (arith, ltb→ge limit ul fits, is_len))
                              (λ z. ground (arith, more, z)) (rw (e3, more, e4, inside, fits) at h)
                      ]
                ]
              ]
            ]
      ]

  -- A status other than OK that `parse_http_req` answers is for what is wrong with the text.
  pub parse_http_req-Says :
      (limit : ℕ) (str : Bytes) (old req : HttpReq) (r : ParseResult) (m m' : Machine Os C)
      → parse_http_req platform limit str old m ≡ returns (r, req) m'
      → Says limit str r
  unfolding parse_http_req parse_line
  parse_http_req-Says limit str old req r m m' h = elim (Option-cases (strchr str b'\r')) [
    | inl e ↦ said limit str (rw e at h) (no_word (λ (w, k). no_pointer e (HasWord-found k).1.1))
    | inr (le, e1) ↦ elim (Option-cases (strchr str b' ')) [
      | inl e ↦
          said limit str (rw (e1, e) at h) (no_word (λ (w, k). no_pointer e (HasWord-found k).0))
      | inr (me, e2) ↦ elim (Bool-cases (ltb le me)) [
        | inl behind ↦ said limit str (rw (e1, e2, behind) at h) (
            no_word (λ (w, k).
              let (s, (n, r, inside)) = HasWord-found k in
              ground (arith, behind, inside, same_pointer s e2, same_pointer r e1)))
        | inr inside ↦
            parse_target-Says limit str le me old req r m m' e1 e2 (ltb→ge le me inside)
              (rw (e1, e2, inside) at h)
      ]
    ]
  ]
