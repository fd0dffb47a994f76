-- ===== src/Http/Request/Allocates.antt =====
-- All that `parse_http_req` (src/http.c) does to the machine: one allocation at most.
use cn_cw.Common.{
  ℕ, ◌+◌, ◌≡◌, refl, ◌⊎◌, inl, inr, Option, none, some, ltb, ◌==◌, Bool-cases, Bytes, strspn, drop,
}
use cn_cw.Http.{HttpReq, parse_protocol, parse_uri, parse_target, parse_line, parse_http_req}
use cn_cw.Http.Tables.{HttpMethod}
use cn_cw.Log.Bounds.{LogsFit}
use cn_cw.Machine.{Machine}
use cn_cw.Memory.{server_alloc}
use cn_cw.Memory.Neutral.{Neutral, Stable, Stable-and_then, server_alloc-Stable}
use cn_cw.Memory.Proper.{Proper, Proper-and_then, server_alloc-Proper}
use cn_cw.Outcome.{Outcome, returns, and_then}
use cn_cw.Platform.{Platform}

module _ (platform : Platform) {C : Type 0} where
  open platform use {Os}

  -- The outcome is a value, given at once or behind an allocation.
  abbrev OnlyAllocates : {A : Type 0} → Machine Os C → Outcome (Machine Os C) A → Type 0
  OnlyAllocates {A} m o =
      ((r : A) × (o ≡ returns r m))
      ⊎ ((r : A) × (n : ℕ) × (o ≡ and_then (server_alloc platform n m) (λ _ m'. returns r m')))

  parse_protocol-OnlyAllocates :
      (str : Bytes) (line_end method_end uri uri_end : ℕ) (req : HttpReq) (m : Machine Os C)
      → OnlyAllocates m (parse_protocol platform str line_end method_end uri uri_end req m)
  unfolding parse_protocol
  parse_protocol-OnlyAllocates str line_end method_end uri uri_end req m =
      elim (Bool-cases (strspn (drop method_end str) b' ' == 0)) [
        | inl no_spaces ↦ rw no_spaces (inr (_, _, refl))
        | inr spaces ↦ rw spaces (inr (_, _, refl))
      ]

  parse_uri-OnlyAllocates :
      (limit : ℕ) (str : Bytes) (line_end method_end uri : ℕ) (found : Option ℕ) (req : HttpReq)
      (m : Machine Os C)
      → OnlyAllocates m (parse_uri platform limit str line_end method_end uri found req m)
  unfolding parse_uri
  parse_uri-OnlyAllocates limit str line_end method_end uri none req m = inl (_, refl)
  parse_uri-OnlyAllocates limit str line_end method_end uri (some n) req m =
      elim (Bool-cases (ltb line_end (uri + n))) [
        | inl late ↦ rw late (inl (_, refl))
        | inr early ↦ rw early (elim (Bool-cases (ltb limit n)) [
          | inl long ↦ rw long (inl (_, refl))
          | inr short ↦
              rw short (parse_protocol-OnlyAllocates str line_end method_end uri (uri + n) req m)
        ])
      ]

  parse_target-OnlyAllocates :
      (limit : ℕ) (str : Bytes) (line_end method_end : ℕ) (method : Option HttpMethod)
      (req : HttpReq) (m : Machine Os C)
      → OnlyAllocates m (parse_target platform limit str line_end method_end method req m)
  unfolding parse_target
  parse_target-OnlyAllocates limit str line_end method_end none req m = inl (_, refl)
  parse_target-OnlyAllocates limit str line_end method_end (some method) req m =
      elim (Bool-cases (strspn (drop method_end str) b' ' == 0)) [
        | inl no_spaces ↦ rw no_spaces (inl (_, refl))
        | inr spaces ↦ rw spaces (
            parse_uri-OnlyAllocates limit str line_end method_end _ _
              (record req { method = method }) m)
      ]

  parse_line-OnlyAllocates :
      (limit : ℕ) (str : Bytes) (line_end method_end : Option ℕ) (req : HttpReq) (m : Machine Os C)
      → OnlyAllocates m (parse_line platform limit str line_end method_end req m)
  unfolding parse_line
  parse_line-OnlyAllocates limit str none method_end req m = inl (_, refl)
  parse_line-OnlyAllocates limit str (some line_end) none req m = inl (_, refl)
  parse_line-OnlyAllocates limit str (some line_end) (some method_end) req m =
      elim (Bool-cases (ltb line_end method_end)) [
        | inl late ↦ rw late (inl (_, refl))
        | inr early ↦ rw early (parse_target-OnlyAllocates limit str line_end method_end _ req m)
      ]

  parse_http_req-OnlyAllocates :
      (limit : ℕ) (str : Bytes) (req : HttpReq) (m : Machine Os C)
      → OnlyAllocates m (parse_http_req platform limit str req m)
  unfolding parse_http_req
  parse_http_req-OnlyAllocates limit str req m = parse_line-OnlyAllocates limit str _ _ req m

  module _ (I : Machine Os C → Type 0) (neutral : Neutral platform I) where
    pub parse_http_req-Stable :
        (limit : ℕ) (str : Bytes) (req : HttpReq) (m : Machine Os C)
        → I m
        → Stable I (parse_http_req platform limit str req m)
    parse_http_req-Stable limit str req m h = elim (parse_http_req-OnlyAllocates limit str req m) [
      | inl (r, e) ↦ rw e h
      | inr (r, n, e) ↦ rw e (
          Stable-and_then I (λ _. I) (λ _. ⊥) _ _ (server_alloc-Stable platform I neutral n m h)
            (λ _ m' h'. h'))
    ]

    pub parse_http_req-Proper :
        (fit : LogsFit platform) (J : Machine Os C → Type 0) (limit : ℕ) (str : Bytes)
        (req : HttpReq) (m : Machine Os C)
        → I m
        → Proper (λ _. I) J (parse_http_req platform limit str req m)
    parse_http_req-Proper fit J limit str req m h =
        elim (parse_http_req-OnlyAllocates limit str req m) [
          | inl (r, e) ↦ rw e h
          | inr (r, n, e) ↦ rw e (
              Proper-and_then (λ _. I) (λ _. I) J _ _
                (server_alloc-Proper platform fit J I neutral n m h) (λ _ m' h'. h'))
        ]
