-- ===== src/Http/Tables/Laws.antt =====
-- The tables of src/http.c against descriptions of their own.
use cn_cw.Common.{
  ℕ, ◌≡◌, ◌≢◌, ◌↔◌, refl, ap, ◌∙◌, inl, inr, Bool, true, false, ◌||◌, some, List, [], ◌∷◌, ◌++◌,
  All, arith, Bool-cases, Bytes, codes, bytes_eq, bytes_eq→eq, has, has-append,
}
use cn_cw.Http.Tables.{
  HttpContentType, bin, bmp, css, csv, gif, html, jpeg, js, json, mp3, mp4, otf, png, pdf, svg, ttf,
  txt, HttpStatusCode, ok, bad_request, forbidden, not_found, method_not_allowed, uri_too_long,
  internal_server_error, version_no_supported, content_type_of, http_conten_type_from_ext,
  http_conten_type_from_filename, after_last, http_status_code_int,
}

-- The extensions of each type, as a table the other way round; `bin` takes all the others.
unfoldable pub extensions : HttpContentType → List Bytes
extensions bin = []
extensions bmp = codes "bmp" ∷ []
extensions css = codes "css" ∷ []
extensions csv = codes "csv" ∷ []
extensions gif = codes "gif" ∷ []
extensions html = codes "html" ∷ codes "htm" ∷ []
extensions jpeg = codes "jpeg" ∷ codes "jpg" ∷ []
extensions js = codes "js" ∷ codes "mjs" ∷ []
extensions json = codes "json" ∷ []
extensions mp3 = codes "mp3" ∷ []
extensions mp4 = codes "mp4" ∷ []
extensions otf = codes "otf" ∷ []
extensions png = codes "png" ∷ []
extensions pdf = codes "pdf" ∷ []
extensions svg = codes "svg" ∷ []
extensions ttf = codes "ttf" ∷ []
extensions txt = codes "txt" ∷ []

abbrev pub is_one_of : Bytes → List Bytes → Bool
is_one_of s [] = false
is_one_of s (t ∷ ts) = bytes_eq s t || is_one_of s ts

-- What follows the last `c`, when nothing behind it holds another.
after_last_found :
    (c : ℕ) (stem ext : Bytes) → has c ext ≡ false → after_last (stem ++ c ∷ ext) c ≡ some ext
unfolding after_last
after_last_found c [] ext h = ground arith
after_last_found c (x ∷ stem) ext h =
    ground (arith, after_last_found c stem ext h, has-append c stem (c ∷ ext))

listed :
    (ext : Bytes) (ct : HttpContentType)
    → ct ≢ bin
    → content_type_of ext ≡ ct
    → is_one_of ext (extensions ct) ≡ true
unfolding content_type_of extensions
listed ext bin ne h = absurd (ne refl)
listed ext _ ne h = ground arith

known : (ct : HttpContentType) → All (λ t. content_type_of t ≡ ct) (extensions ct)
unfolding content_type_of extensions
known bin = tt
known html = (refl, (refl, tt))
known jpeg = (refl, (refl, tt))
known js = (refl, (refl, tt))
known bmp = (refl, tt)
known css = (refl, tt)
known csv = (refl, tt)
known gif = (refl, tt)
known json = (refl, tt)
known mp3 = (refl, tt)
known mp4 = (refl, tt)
known otf = (refl, tt)
known png = (refl, tt)
known pdf = (refl, tt)
known svg = (refl, tt)
known ttf = (refl, tt)
known txt = (refl, tt)

known_listed :
    (ext : Bytes) (ts : List Bytes) (ct : HttpContentType)
    → All (λ t. content_type_of t ≡ ct) ts
    → is_one_of ext ts ≡ true
    → content_type_of ext ≡ ct
known_listed ext [] ct k h = cc
known_listed ext (t ∷ ts) ct k h = elim (Bool-cases (bytes_eq ext t)) [
  | inl eq ↦ ap content_type_of (bytes_eq→eq ext t eq) ∙ k.0
  | inr ne ↦ known_listed ext ts ct k.1 (rw ne at h)
]

-- A file whose name ends in a period and `ext`, where `ext` holds no period, has the content type
-- `ct`, other than the default, exactly when `ext` is one of the extensions of `ct`.
pub http_conten_type_from_filename-extensions :
    (stem ext : Bytes) (ct : HttpContentType)
    → has b'.' ext ≡ false
    → ct ≢ bin
    → (http_conten_type_from_filename (stem ++ b'.' ∷ ext) ≡ ct)
      ↔ (is_one_of ext (extensions ct) ≡ true)
unfolding http_conten_type_from_filename http_conten_type_from_ext
http_conten_type_from_filename-extensions stem ext ct h ne =
    rw (after_last_found b'.' stem ext h)
      (listed ext ct ne, known_listed ext (extensions ct) ct (known ct))

-- The numbers that the comments of src/server.h give to the status codes.
pub documented_code : HttpStatusCode → ℕ
documented_code ok = 200
documented_code bad_request = 400
documented_code forbidden = 403
documented_code not_found = 404
documented_code method_not_allowed = 405
documented_code uri_too_long = 414
documented_code internal_server_error = 500
documented_code version_no_supported = 505

-- The number sent for a status is the documented one, exactly for the statuses other than
-- URI_TOO_LONG.
pub http_status_code_int-documented_code :
    (code : HttpStatusCode)
    → (http_status_code_int code ≡ documented_code code) ↔ (code ≢ uri_too_long)
unfolding http_status_code_int documented_code
http_status_code_int-documented_code uri_too_long =
    (λ e. absurd (omega arith), λ ne. absurd (ne refl))
http_status_code_int-documented_code ok = (λ _ e. cc, λ _. refl)
http_status_code_int-documented_code bad_request = (λ _ e. cc, λ _. refl)
http_status_code_int-documented_code forbidden = (λ _ e. cc, λ _. refl)
http_status_code_int-documented_code not_found = (λ _ e. cc, λ _. refl)
http_status_code_int-documented_code method_not_allowed = (λ _ e. cc, λ _. refl)
http_status_code_int-documented_code internal_server_error = (λ _ e. cc, λ _. refl)
http_status_code_int-documented_code version_no_supported = (λ _ e. cc, λ _. refl)
