-- ===== src/Http/Tables.antt =====
-- The tables of src/http.c, and the enumerations of src/server.h that they are over.
pub mod Laws
use cn_cw.Common.{
  ℕ, ◌||◌, Option, none, some, [], ◌∷◌, ◌==◌, if◌then◌else◌, Bytes, codes, bytes_eq, has,
}

pub data HttpMethod : Type 0 where
  get head : HttpMethod

pub data HttpContentType : Type 0 where
  bin bmp css csv gif html jpeg js json mp3 mp4 otf png pdf svg ttf txt : HttpContentType

pub data HttpStatusCode : Type 0 where
  ok bad_request forbidden not_found method_not_allowed uri_too_long : HttpStatusCode
  internal_server_error version_no_supported : HttpStatusCode

unfoldable pub http_content_type_str : HttpContentType → Bytes
http_content_type_str bin = codes "application/octet-stream"
http_content_type_str bmp = codes "image/bmp"
http_content_type_str css = codes "text/css"
http_content_type_str csv = codes "text/csv"
http_content_type_str gif = codes "image/gif"
http_content_type_str html = codes "text/html"
http_content_type_str jpeg = codes "image/jpeg"
http_content_type_str js = codes "text/javascript"
http_content_type_str json = codes "application/json"
http_content_type_str mp3 = codes "audio/mpeg"
http_content_type_str mp4 = codes "video/mp4"
http_content_type_str otf = codes "font/otf"
http_content_type_str png = codes "image/png"
http_content_type_str pdf = codes "application/pdf"
http_content_type_str svg = codes "image/svg+xml"
http_content_type_str ttf = codes "font/ttf"
http_content_type_str txt = codes "text/plain"

-- The chain of `strcmp` from `gif` on, and the one before it.
unfoldable pub content_type_of : Bytes → HttpContentType
content_type_of ext =
    if bytes_eq ext (codes "bin")
    then bin
    else if bytes_eq ext (codes "bmp")
    then bmp
    else if bytes_eq ext (codes "css")
    then css
    else if bytes_eq ext (codes "csv")
    then csv
    else if bytes_eq ext (codes "gif")
    then gif
    else if bytes_eq ext (codes "html") || bytes_eq ext (codes "htm")
    then html
    else if bytes_eq ext (codes "jpeg") || bytes_eq ext (codes "jpg")
    then jpeg
    else if bytes_eq ext (codes "js") || bytes_eq ext (codes "mjs")
    then js
    else if bytes_eq ext (codes "json")
    then json
    else if bytes_eq ext (codes "mp3")
    then mp3
    else if bytes_eq ext (codes "mp4")
    then mp4
    else if bytes_eq ext (codes "otf")
    then otf
    else if bytes_eq ext (codes "png")
    then png
    else if bytes_eq ext (codes "pdf")
    then pdf
    else if bytes_eq ext (codes "svg")
    then svg
    else if bytes_eq ext (codes "ttf")
    then ttf
    else if bytes_eq ext (codes "txt")
    then txt
    else bin

-- A null pointer is `none`.
unfoldable pub http_conten_type_from_ext : Option Bytes → HttpContentType
unfolding content_type_of
http_conten_type_from_ext none = bin
http_conten_type_from_ext (some ext) = content_type_of ext

-- `strrchr`, moved on by one byte: what stands behind the last `c`.
unfoldable pub after_last : Bytes → ℕ → Option Bytes
after_last [] c = none
after_last (x ∷ xs) c = if has c xs then after_last xs c else if x == c then some xs else none

unfoldable pub http_conten_type_from_filename : Bytes → HttpContentType
unfolding http_conten_type_from_ext after_last
http_conten_type_from_filename name = http_conten_type_from_ext (after_last name b'.')

unfoldable pub http_status_code_str : HttpStatusCode → Bytes
http_status_code_str ok = codes "OK"
http_status_code_str bad_request = codes "Bad Request"
http_status_code_str forbidden = codes "Forbidden"
http_status_code_str not_found = codes "Not Found"
http_status_code_str method_not_allowed = codes "Method Not Allowed"
http_status_code_str uri_too_long = codes "URI Too Long"
http_status_code_str internal_server_error = codes "Internal Server Error"
http_status_code_str version_no_supported = codes "Version Not Supported"

unfoldable pub http_method_str : HttpMethod → Bytes
http_method_str get = codes "GET"
http_method_str head = codes "HEAD"

unfoldable pub http_status_code_int : HttpStatusCode → ℕ
http_status_code_int ok = 200
http_status_code_int bad_request = 400
http_status_code_int forbidden = 403
http_status_code_int not_found = 404
http_status_code_int method_not_allowed = 405
http_status_code_int uri_too_long = 514
http_status_code_int internal_server_error = 500
http_status_code_int version_no_supported = 505
