-- ===== src/Tests/Tables.antt =====
-- File names, status codes and the head of a response at concrete inputs.
use cn_cw.Common.{◌≡◌, ◌≢◌, ◌↔◌, refl, List, [], ◌∷◌, ◌++◌, true, codes}
use cn_cw.Conn.{HttpHeader}
use cn_cw.Http.Tables.{
  html, not_found, uri_too_long, http_conten_type_from_filename, http_status_code_int,
}
use cn_cw.Http.Tables.Laws.{
  extensions, is_one_of, documented_code, http_conten_type_from_filename-extensions,
  http_status_code_int-documented_code,
}

http_conten_type_from_filename-extensions_example :
    (http_conten_type_from_filename (codes "a.b/index" ++ b'.' ∷ codes "htm") ≡ html)
    ↔ (is_one_of (codes "htm") (extensions html) ≡ true)
http_conten_type_from_filename-extensions_example =
    http_conten_type_from_filename-extensions (codes "a.b/index") (codes "htm") html refl (λ e. cc)

http_status_code_int-documented_code_example :
    (http_status_code_int not_found ≡ documented_code not_found) ↔ (not_found ≢ uri_too_long)
http_status_code_int-documented_code_example = http_status_code_int-documented_code not_found

abbrev two_headers : List HttpHeader
two_headers =
    record { name = codes "Content-Length"; value = codes "0" }
    ∷ record { name = codes "Connection"; value = codes "Close" }
    ∷ []
