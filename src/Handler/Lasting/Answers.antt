-- ===== src/Handler/Lasting/Answers.antt =====
-- The responses of src/handler.c keep what lasts.
use cn_cw.Common.{ℕ, refl, inl, inr, Option, none, some, ltb, ◌==◌, Bool-cases, Bytes, codes, ◌++◌}
use cn_cw.Conn.{err_unrecoverable, Conn, HttpHeader, HttpResponse}
use cn_cw.Format.{decimal}
use cn_cw.Handler.{State}
use cn_cw.Handler.Lasting.{
  Lasting, Lasts, then-Lasts, give_up-Lasts, process_request_write-Lasts, make_header-Stable,
  make_date_header-Stable,
}
use cn_cw.Handler.Response.{
  Out, body_written, send_body, flags_set, set_nonblocking, nonblocking_set, head_written,
  send_head, send_response, error_response, response_text, headers_only,
}
use cn_cw.Http.{HttpReq}
use cn_cw.Http.Tables.{HttpStatusCode, http_status_code_int}
use cn_cw.Log.{info}
use cn_cw.Memory.Neutral.{log_msg-Stable}
use cn_cw.PgList.{PgList}
use cn_cw.Platform.{Platform, Answer, got, failed}

module _ (platform : Platform) (headers : PgList (platform.Os) HttpHeader Conn)
    (I : State platform → Type 0) (lasting : Lasting platform headers I) where
  open platform use {Os, get_flags}
  open headers use {nil}
  open lasting use {neutral, after_get_flags, after_set_flags, after_lappend, after_conn}

  body_written-Lasts :
      (body_size : ℕ) (r : Answer ℕ × Os) (m : State platform)
      → I (record m { os = r.1 })
      → Lasts I (body_written platform body_size r m)
  unfolding body_written
  body_written-Lasts body_size (failed err, os) m h =
      give_up-Lasts platform headers I lasting _ err_unrecoverable err _ _ h
  body_written-Lasts body_size (got n, os) m h = elim (Bool-cases (n == body_size)) [
    | inl all ↦ rw all (after_conn _ (record m { os = os }) refl refl h)
    | inr short ↦ rw short (give_up-Lasts platform headers I lasting _ err_unrecoverable _ _ _ h)
  ]

  send_body-Lasts :
      (fuel : ℕ) (file_fd : Option ℕ) (body : Option Bytes) (body_size : ℕ) (m : State platform)
      → I m
      → Lasts I (send_body platform fuel file_fd body body_size m)
  unfolding send_body
  send_body-Lasts fuel (some fd) body body_size m h =
      process_request_write-Lasts platform headers I lasting fuel _ (after_conn _ m refl refl h)
  send_body-Lasts fuel none none body_size m h = after_conn _ m refl refl h
  send_body-Lasts fuel none (some body) body_size m h =
      body_written-Lasts body_size _ m (lasting.after_write _ _ m h)

  nonblocking_set-Lasts :
      (fuel : ℕ) (body : Option Bytes) (body_size : ℕ) (r : Answer (Unit {0}) × Os)
      (m : State platform)
      → I (record m { os = r.1 })
      → Lasts I (nonblocking_set platform fuel body body_size r m)
  unfolding nonblocking_set
  nonblocking_set-Lasts fuel body body_size (failed err, os) m h =
      give_up-Lasts platform headers I lasting _ err_unrecoverable err _ _ h
  nonblocking_set-Lasts fuel body body_size (got _, os) m h =
      send_body-Lasts fuel m.client.file_fd body body_size (record m { os = os }) h

  flags_set-keeps :
      (fd : ℕ) (r : Answer ℕ × Os) (m : State platform)
      → I (record m { os = r.1 })
      → I (record m { os = (flags_set platform fd r).1 })
  unfolding flags_set
  flags_set-keeps fd (failed err, os) m h = h
  flags_set-keeps fd (got flags, os) m h = after_set_flags fd _ (record m { os = os }) h

  set_nonblocking-keeps :
      (fd : ℕ) (m : State platform)
      → I m
      → I (record m { os = (set_nonblocking platform fd m.os).1 })
  unfolding set_nonblocking
  set_nonblocking-keeps fd m h = flags_set-keeps fd (get_flags fd m.os) m (after_get_flags fd m h)

  head_written-Lasts :
      (fuel : ℕ) (req : Option HttpReq) (body : Option Bytes) (body_size : ℕ) (r : Answer ℕ × Os)
      (m : State platform)
      → I (record m { os = r.1 })
      → Lasts I (head_written platform fuel req body body_size r m)
  unfolding head_written
  head_written-Lasts fuel req body body_size (failed err, os) m h =
      give_up-Lasts platform headers I lasting _ err_unrecoverable err _ _ h
  head_written-Lasts fuel req body body_size (got n, os) m h =
      elim (Bool-cases (headers_only req)) [
        | inl no_body ↦ rw no_body (after_conn _ (record m { os = os }) refl refl h)
        | inr has_body ↦ rw has_body (
            nonblocking_set-Lasts fuel body body_size _ m
              (set_nonblocking-keeps m.client.sock_fd (record m { os = os }) h))
      ]

  send_head-Lasts :
      (fuel : ℕ) (req : Option HttpReq) (body : Option Bytes) (body_size : ℕ) (out : Option Out)
      (m : State platform)
      → I m
      → Lasts I (send_head platform fuel req body body_size out m)
  unfolding send_head
  send_head-Lasts fuel req body body_size none m h = tt
  send_head-Lasts fuel req body body_size (some out) m h = elim (Bool-cases (ltb 4096 out.cursor)) [
    | inl long ↦ rw long tt
    | inr fits ↦
        rw fits (head_written-Lasts fuel req body body_size _ m (lasting.after_write _ _ m h))
  ]

  pub send_response-Lasts :
      (fuel : ℕ) (resp : HttpResponse headers.Cells) (m : State platform)
      → I m
      → Lasts I (send_response platform headers fuel resp m)
  unfolding send_response
  send_response-Lasts fuel resp m h =
      send_head-Lasts fuel resp.req resp.body resp.body_size
        (response_text resp.req resp.code (headers.elements resp.headers)) m h

  pub error_response-Lasts :
      (fuel : ℕ) (code : HttpStatusCode) (m : State platform)
      → I m
      → Lasts I (error_response platform headers fuel code m)
  unfolding error_response
  error_response-Lasts fuel code m h =
      then-Lasts platform headers I lasting _ _
        (log_msg-Stable platform I neutral info
          (codes "error response " ++ decimal (http_status_code_int code)) m h)
        (λ _ m1 h1.
          then-Lasts platform headers I lasting _ _
            (make_date_header-Stable platform headers I lasting m1 h1)
            (λ date m2 h2.
              then-Lasts platform headers I lasting _ _ (after_lappend nil date m2 h2) (λ hs m3 h3.
                then-Lasts platform headers I lasting _ _
                  (make_header-Stable platform headers I lasting (codes "Content-Length")
                    (codes "0") m3 h3)
                  (λ zero_length m4 h4.
                    then-Lasts platform headers I lasting _ _ (after_lappend hs zero_length m4 h4)
                      (λ hs' m5 h5.
                        send_response-Lasts fuel
                          (record {
                            req = none;
                            code = code;
                            headers = hs';
                            body_size = 0;
                            body = none;
                          })
                          m5 h5)))))
