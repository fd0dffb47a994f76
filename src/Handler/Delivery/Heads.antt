-- ===== src/Handler/Delivery/Heads.antt =====
-- `send_response` (src/handler.c) with a head that fits the buffer and no file: what the socket gets.
use cn_cw.Common.{
  ℕ, ◌≤◌, ◌≡◌, ◌≢◌, refl, sym, ap, subst, ◌∙◌, true, Option, List, [], ◌∷◌, ◌++◌, arith, ge→ltb,
  Bytes, codes, length, take, take-append,
}
use cn_cw.Conn.{complete, Conn, HttpHeader}
use cn_cw.Handler.{State}
use cn_cw.Handler.Quiet.{Quiet, Here, Sent}
use cn_cw.Handler.Delivery.{HeadSent, Gone}
use cn_cw.Handler.Response.{response_text, headers_only, head_written, send_head, send_response}
use cn_cw.Handler.Response.Errors.{give_up-Proper}
use cn_cw.Handler.Response.Head.{head_text, response_text-holds}
use cn_cw.Handler.Streams.{Streams}
use cn_cw.Http.{HttpReq}
use cn_cw.Http.Tables.{HttpStatusCode}
use cn_cw.Log.{stderr_fileno}
use cn_cw.Log.Bounds.{LogsFit}
use cn_cw.Memory.Proper.{Proper}
use cn_cw.PgList.{PgList}
use cn_cw.Platform.{Platform, Answer, got, failed}

-- The whole head goes to `write`, and nothing else.
module _ (platform : Platform) (fuel : ℕ) (Q : Unit {0} → State platform → Type 0)
    (J : State platform → Type 0) where
  open platform use {Os, write}

  pub send_head-Proper :
      (req : Option HttpReq) (body : Option Bytes) (size : ℕ) (code : HttpStatusCode)
      (hs : List HttpHeader) (m : State platform)
      → length (head_text req code hs) ≤ 4095
      → Proper Q J (
          head_written platform fuel req body size
            (write m.client.sock_fd (head_text req code hs) m.os)
            m)
      → Proper Q J (send_head platform fuel req body size (response_text req code hs) m)
  unfolding send_head
  send_head-Proper req body size code hs m short h =
      let text = head_text req code hs in
      rw
        (
          response_text-holds req code hs short,
          ge→ltb 4096 (length text) (omega (arith, short)),
          take-append text (0 ∷ []),
        )
        h

module _ (platform : Platform) (streams : Streams platform) (fit : LogsFit platform)
    (headers : PgList (platform.Os) HttpHeader Conn) (w : Bytes) (c : Conn)
    (quiet : Quiet platform streams headers c.sock_fd) (s_ne : stderr_fileno ≢ c.sock_fd) where
  open platform use {Os, write}
  open streams use {sent, unread}

  completes :
      (k : Conn)
      → k ≡ c
      → ◌≡◌ {A = Conn} (record k { state = complete }) (record c { state = complete })
  completes k e = rw e refl

  -- A head alone.
  head_alone :
      (fuel : ℕ) (req : Option HttpReq) (body : Option Bytes) (size : ℕ) (text : Bytes)
      (r : Answer ℕ) (os : Os) (m : State platform)
      → headers_only req ≡ true
      → Here platform streams (Sent platform streams c.sock_fd w) c m
      → write c.sock_fd text m.os ≡ (r, os)
      → Proper
          (λ _. HeadSent platform streams w c text)
          (Gone platform streams)
          (head_written platform fuel req body size (r, os) m)
  unfolding head_written
  head_alone fuel req body size text (failed err) os m alone h e =
      give_up-Proper platform fit (λ _. HeadSent platform streams w c text) err
        (codes "failed to write to socket") (record m { os = os }) (omega arith)
  head_alone fuel req body size text (got n) os m alone (is_c, is_w, a) e =
      let (more, n_le) = streams.write_got c.sock_fd text m.os e in
      rw alone (record {
        count = n;
        took = (n_le, (m.os, is_w, ap (λ r. r.0) e));
        got_head = more ∙ ap (λ v. v ++ take n text) is_w;
        is_complete = completes m.client is_c;
      })

  pub send_response-HeadSent :
      (fuel : ℕ) (req : Option HttpReq) (body : Option Bytes) (size : ℕ) (code : HttpStatusCode)
      (hs : List HttpHeader) (l : headers.Cells) (m : State platform)
      → headers.elements l ≡ hs
      → headers_only req ≡ true
      → length (head_text req code hs) ≤ 4095
      → Here platform streams (Sent platform streams c.sock_fd w) c m
      → Proper
          (λ _. HeadSent platform streams w c (head_text req code hs))
          (Gone platform streams)
          (send_response platform headers fuel
            (record { req = req; code = code; headers = l; body_size = size; body = body })
            m)
  unfolding send_response
  send_response-HeadSent fuel req body size code hs l m e alone short h =
      let text = head_text req code hs in
      rw e (
        send_head-Proper platform fuel (λ _. HeadSent platform streams w c text)
          (Gone platform streams) req body size code hs m short
          (subst
            (λ k.
              Proper (λ _. HeadSent platform streams w c text) (Gone platform streams)
                (head_written platform fuel req body size (write k text m.os) m))
            (sym (ap (λ k. k.sock_fd) h.0))
            (head_alone fuel req body size text _ _ m alone h refl)))
