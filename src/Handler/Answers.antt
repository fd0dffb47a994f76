-- ===== src/Handler/Answers.antt =====
-- In which state the answers of src/handler.c leave a connection, on every path.
use cn_cw.Common.{
  ℕ, ◌≡◌, refl, sym, subst, inl, inr, Option, none, some, [], ◌∷◌, ◌++◌, ltb, ◌==◌, Bool-cases,
  Bytes,
}
use cn_cw.Conn.{complete, err_unrecoverable, Conn, HttpHeader, HttpResponse}
use cn_cw.Handler.{State}
use cn_cw.Handler.Keeps.{Keeps, Never, log_msg-Keeps, make_header-Keeps, make_date_header-Keeps}
use cn_cw.Handler.Response.{
  Out, body_written, send_body, nonblocking_set, head_written, send_head, send_response,
  error_response, response_text, headers_only,
}
use cn_cw.Handler.States.{Underway, Broken, give_up-Jumps, process_request_write-Underway}
use cn_cw.Http.{HttpReq}
use cn_cw.Http.Tables.{HttpStatusCode}
use cn_cw.Outcome.{Outcome, Cmd, and_then, Leaves, Leaves-and_then, Leaves-mono, Ensures-Leaves}
use cn_cw.PgList.{PgList, Appends}
use cn_cw.Platform.{Platform, Answer, got, failed}

module _ (platform : Platform) where
  open platform use {Os, write, errno}

  -- All of the response is sent.
  abbrev pub Finished : {A : Type 0} → A → State platform → Type 0
  Finished _ m = m.client.state ≡ complete

  body_written-Finished :
      (body_size : ℕ) (r : Answer ℕ × Os) (m : State platform)
      → Leaves Finished (Broken platform) (body_written platform body_size r m)
  unfolding body_written
  body_written-Finished body_size (failed err, os) m =
      give_up-Jumps platform err_unrecoverable err _ _ Finished
  body_written-Finished body_size (got n, os) m = elim (Bool-cases (n == body_size)) [
    | inl all ↦ rw all refl
    | inr short ↦ rw short (give_up-Jumps platform err_unrecoverable _ _ _ Finished)
  ]

  send_body-Underway :
      (fuel : ℕ) (file_fd : Option ℕ) (body : Option Bytes) (body_size : ℕ) (m : State platform)
      → m.client.file_fd ≡ file_fd
      → Leaves
          (Underway platform)
          (Broken platform)
          (send_body platform fuel file_fd body body_size m)
  unfolding send_body
  send_body-Underway fuel (some fd) body body_size m e =
      process_request_write-Underway platform fuel _ (inr (refl, (fd, e)))
  send_body-Underway fuel none none body_size m e = inl refl
  send_body-Underway fuel none (some body) body_size m e =
      Leaves-mono Finished (Underway platform) (Broken platform) (Broken platform) _
        (body_written-Finished body_size _ m) (λ a s h. inl h) (λ s h. h)

  nonblocking_set-Underway :
      (fuel : ℕ) (body : Option Bytes) (body_size : ℕ) (r : Answer (Unit {0}) × Os)
      (m : State platform)
      → Leaves
          (Underway platform)
          (Broken platform)
          (nonblocking_set platform fuel body body_size r m)
  unfolding nonblocking_set
  nonblocking_set-Underway fuel body body_size (failed err, os) m =
      give_up-Jumps platform err_unrecoverable err _ _ (Underway platform)
  nonblocking_set-Underway fuel body body_size (got _, os) m =
      send_body-Underway fuel m.client.file_fd body body_size (record m { os = os }) refl

  head_written-Underway :
      (fuel : ℕ) (req : Option HttpReq) (body : Option Bytes) (body_size : ℕ) (r : Answer ℕ × Os)
      (m : State platform)
      → Leaves
          (Underway platform)
          (Broken platform)
          (head_written platform fuel req body body_size r m)
  unfolding head_written
  head_written-Underway fuel req body body_size (failed err, os) m =
      give_up-Jumps platform err_unrecoverable err _ _ (Underway platform)
  head_written-Underway fuel req body body_size (got n, os) m =
      elim (Bool-cases (headers_only req)) [
        | inl no_body ↦ rw no_body (inl refl)
        | inr has_body ↦ rw has_body (nonblocking_set-Underway fuel body body_size _ m)
      ]

  head_written-Finished :
      (fuel : ℕ) (body : Option Bytes) (body_size : ℕ) (r : Answer ℕ × Os) (m : State platform)
      → Leaves Finished (Broken platform) (head_written platform fuel none body body_size r m)
  unfolding head_written headers_only
  head_written-Finished fuel body body_size (failed err, os) m =
      give_up-Jumps platform err_unrecoverable err _ _ Finished
  head_written-Finished fuel body body_size (got n, os) m = refl

  send_head-Underway :
      (fuel : ℕ) (req : Option HttpReq) (body : Option Bytes) (body_size : ℕ) (out : Option Out)
      (m : State platform)
      → Leaves
          (Underway platform)
          (Broken platform)
          (send_head platform fuel req body body_size out m)
  unfolding send_head
  send_head-Underway fuel req body body_size none m = tt
  send_head-Underway fuel req body body_size (some out) m =
      elim (Bool-cases (ltb 4096 out.cursor)) [
        | inl long ↦ rw long tt
        | inr fits ↦ rw fits (head_written-Underway fuel req body body_size _ m)
      ]

  send_head-Finished :
      (fuel : ℕ) (body : Option Bytes) (body_size : ℕ) (out : Option Out) (m : State platform)
      → Leaves Finished (Broken platform) (send_head platform fuel none body body_size out m)
  unfolding send_head
  send_head-Finished fuel body body_size none m = tt
  send_head-Finished fuel body body_size (some out) m = elim (Bool-cases (ltb 4096 out.cursor)) [
    | inl long ↦ rw long tt
    | inr fits ↦ rw fits (head_written-Finished fuel body body_size _ m)
  ]

  -- A command that never jumps, and then another.
  pub then_next :
      {A B : Type 0} (P : B → State platform → Type 0) (c : Conn) (o : Outcome (State platform) A)
      (k : A → Cmd (State platform) B)
      → Leaves (Keeps platform c) (Never platform) o
      → ((a : A) (m' : State platform) → Leaves P (Broken platform) (k a m'))
      → Leaves P (Broken platform) (and_then o k)
  then_next P c o k h next =
      Leaves-and_then (Keeps platform c) (Never platform) P (Broken platform) o k h
        (λ s e. absurd e) (λ a m' e. next a m')

  module _ (headers : PgList Os HttpHeader Conn) (fuel : ℕ) where
    open headers use {nil, lappend}

    pub send_response-Underway :
        (resp : HttpResponse headers.Cells) (m : State platform)
        → Leaves (Underway platform) (Broken platform) (send_response platform headers fuel resp m)
    unfolding send_response
    send_response-Underway resp m =
        send_head-Underway fuel resp.req resp.body resp.body_size
          (response_text resp.req resp.code (headers.elements resp.headers)) m

    pub lappend-Keeps :
        (appends : Appends headers) (l : headers.Cells) (h : HttpHeader) (m : State platform)
        → Leaves (Keeps platform m.client) (Never platform) (lappend l h m)
    lappend-Keeps appends l h m =
        Ensures-Leaves
          (λ l' m'. (headers.elements l' ≡ headers.elements l ++ h ∷ []) × (m'.client ≡ m.client))
          (Keeps platform m.client) (Never platform) (λ _. Unit {0}) (lappend l h m)
          (λ l' m' e. e.1) (appends.elements-lappend l h m)

    send_response-Finished :
        (resp : HttpResponse headers.Cells) (m : State platform)
        → resp.req ≡ none
        → Leaves Finished (Broken platform) (send_response platform headers fuel resp m)
    unfolding send_response
    send_response-Finished resp m no_req =
        subst
          (λ r. Leaves Finished (Broken platform) (
            send_head platform fuel r resp.body resp.body_size
              (response_text r resp.code (headers.elements resp.headers)) m))
          (sym no_req)
          (send_head-Finished fuel resp.body resp.body_size
            (response_text none resp.code (headers.elements resp.headers)) m)

    -- An error response that returns leaves the connection complete, and one that jumps leaves it
    -- with an unrecoverable error. `lappend` is as documented, and nothing is said of a run that
    -- exits, fails an assertion or overruns a buffer.
    pub error_response-Finished :
        (appends : Appends headers) (code : HttpStatusCode) (m : State platform)
        → Leaves Finished (Broken platform) (error_response platform headers fuel code m)
    unfolding error_response
    error_response-Finished appends code m =
        then_next Finished m.client _ _ (log_msg-Keeps platform _ _ m) (λ _ m1.
          then_next Finished m1.client _ _ (make_date_header-Keeps platform m1) (λ date m2.
            then_next Finished m2.client _ _ (lappend-Keeps appends nil date m2) (λ hs m3.
              then_next Finished m3.client _ _ (make_header-Keeps platform _ _ m3) (λ h m4.
                then_next Finished m4.client _ _ (lappend-Keeps appends hs h m4) (λ hs' m5.
                  send_response-Finished
                    (record { req = none; code = code; headers = hs'; body_size = 0; body = none })
                    m5 refl)))))
