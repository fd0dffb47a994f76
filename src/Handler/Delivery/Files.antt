-- ===== src/Handler/Delivery/Files.antt =====
-- `send_response` (src/handler.c) with a head that fits the buffer and a file behind it.
use cn_cw.Common.{
  ℕ, ◌≤◌, ◌<◌, ◌≡◌, ◌≢◌, refl, sym, ap, subst, ◌∙◌, false, Option, some, List, [], ◌++◌,
  append_assoc, arith, Bytes, codes, length, take,
}
use cn_cw.Conn.{sending, Conn, HttpHeader}
use cn_cw.Handler.{State, pending, process_request_write}
use cn_cw.Handler.Quiet.{Same, Quiet, Here, Opened}
use cn_cw.Handler.Delivery.{Took, Gone}
use cn_cw.Handler.Flows.{Flows, Stopped, Broken, to_send}
use cn_cw.Handler.Response.{
  headers_only, flags_set, set_nonblocking, send_body, nonblocking_set, head_written, send_response,
}
use cn_cw.Handler.Response.Errors.{give_up-Proper}
use cn_cw.Handler.Response.Head.{head_text}
use cn_cw.Handler.Stream.{process_request_write-StoppedBy, StoppedBy}
use cn_cw.Handler.Streams.{Streams, Progress, IsBuffered}
use cn_cw.Http.{HttpReq}
use cn_cw.Http.Tables.{HttpStatusCode}
use cn_cw.Log.{stderr_fileno}
use cn_cw.Log.Bounds.{LogsFit}
use cn_cw.Memory.Proper.{Proper, Ensures-Proper_jumps}
use cn_cw.PgList.{PgList}
use cn_cw.Platform.{Platform, Answer, got, failed}
use cn_cw.Handler.Delivery.Heads.{send_head-Proper}

module _ (platform : Platform) (streams : Streams platform) (fit : LogsFit platform)
    (headers : PgList (platform.Os) HttpHeader Conn) (w : Bytes) (c : Conn)
    (quiet : Quiet platform streams headers c.sock_fd) (s_ne : stderr_fileno ≢ c.sock_fd) where
  open platform use {Os, write}
  open streams use {sent, unread}

  -- A head, and the file that connection `c` has opened.
  module _ (f : ℕ) (u : Bytes) (f_ne : stderr_fileno ≢ f) (apart : c.sock_fd ≢ f) where
    abbrev pub FileSent : Bytes → State platform → Type 0
    FileSent text m =
        (n : ℕ) × Took platform streams c.sock_fd w text n
        × Stopped platform streams fit f c.sock_fd (w ++ (take n text ++ u)) sending m
        × (to_send platform streams fit f m ≤ length u)

    flags_set-Same :
        (fd : ℕ) (r : Answer ℕ × Os) → Same platform streams r.1 (flags_set platform fd r).1
    unfolding flags_set
    flags_set-Same fd (failed err, os) = λ x. (refl, refl)
    flags_set-Same fd (got flags, os) = quiet.set_flags_same fd _ os

    set_nonblocking-Same :
        (fd : ℕ) (os : Os) → Same platform streams os (set_nonblocking platform fd os).1
    unfolding set_nonblocking
    set_nonblocking-Same fd os = λ x. (
      (flags_set-Same fd (platform.get_flags fd os) x).0 ∙ (quiet.get_flags_same fd os x).0,
      (flags_set-Same fd (platform.get_flags fd os) x).1 ∙ (quiet.get_flags_same fd os x).1,
    )

    -- The connection is about to send the file.
    abbrev pub Ready : Type 0
    Ready = (c.file_fd ≡ some f) × IsBuffered c × (pending c ≡ [])

    starts-Flows :
        (v : Bytes) (os : Os) (m : State platform)
        → Ready
        → Opened platform streams c.sock_fd (w ++ v) f u os
        → Flows platform streams fit f c.sock_fd
            (w ++ (v ++ u))
            (record m { os = os; client = record c { state = sending } })
    unfolding pending
    starts-Flows v os m (has_file, b, empty) (is_w, is_u) = record {
      file_is = has_file;
      sock_is = refl;
      buffered = record {
        cursor_le = b.cursor_le;
        len_le = b.len_le;
        size_le = b.size_le;
        room = b.room;
      };
      conserved = rw (is_w, empty, is_u) (append_assoc w v u);
    }

    starts_less :
        (os : Os) (m : State platform)
        → Ready
        → unread os f ≡ u
        → to_send platform streams fit f
            (record m { os = os; client = record c { state = sending } })
          ≡ length u
    unfolding to_send pending
    starts_less os m (has_file, b, empty) is_u = omega (arith, ap length empty, ap length is_u)

    sends_file :
        (fuel : ℕ) (text : Bytes) (n : ℕ) (body : Option Bytes) (size : ℕ) (os : Os)
        (m : State platform)
        → Progress platform
        → length u < fuel
        → Took platform streams c.sock_fd w text n
        → Ready
        → Opened platform streams c.sock_fd (w ++ take n text) f u os
        → Proper
            (λ _. FileSent text)
            (Gone platform streams)
            (send_body platform fuel c.file_fd body size (record m { os = os; client = c }))
    unfolding send_body Broken
    sends_file fuel text n body size os m progress enough took ready is_open =
        let total = w ++ (take n text ++ u) in
        let started : State platform = record m {
          os = os;
          client = record c { state = sending };
        } in
        let less = starts_less os m ready is_open.1 in
        subst
          (λ k.
            Proper (λ _. FileSent text) (Gone platform streams)
              (send_body platform fuel k body size (record m { os = os; client = c })))
          (sym ready.0)
          (Ensures-Proper_jumps
            (λ _.
              StoppedBy platform streams fit f c.sock_fd total f_ne s_ne
                (to_send platform streams fit f started) sending)
            (λ _. FileSent text) (Broken platform streams fit f c.sock_fd total)
            (Gone platform streams) (process_request_write platform fuel started)
            (λ _ m' h. (n, took, h.0, omega (arith, h.1, less))) (λ m' h. h.1)
            (process_request_write-StoppedBy platform streams fit f c.sock_fd total f_ne s_ne fuel
              started progress apart (starts-Flows (take n text) os m ready is_open)
              (omega (arith, enough, less))))

    sends :
        (fuel : ℕ) (text : Bytes) (n : ℕ) (body : Option Bytes) (size : ℕ)
        (r : Answer (Unit {0}) × Os) (m : State platform)
        → Progress platform
        → length u < fuel
        → Took platform streams c.sock_fd w text n
        → Ready
        → m.client ≡ c
        → Opened platform streams c.sock_fd (w ++ take n text) f u r.1
        → Proper
            (λ _. FileSent text)
            (Gone platform streams)
            (nonblocking_set platform fuel body size r m)
    unfolding nonblocking_set
    sends fuel text n body size (failed err, os) m progress enough took ready is_c is_open =
        give_up-Proper platform fit (λ _. FileSent text) err
          (codes "failed to change socket to nonblocking mode") (record m { os = os }) (omega arith)
    sends fuel text n body size (got _, os) m progress enough took ready is_c is_open =
        subst
          (λ k.
            Proper (λ _. FileSent text) (Gone platform streams)
              (send_body platform fuel k.file_fd body size (record m { os = os; client = k })))
          (sym is_c) (sends_file fuel text n body size os m progress enough took ready is_open)

    head_and_file :
        (fuel : ℕ) (req : Option HttpReq) (body : Option Bytes) (size : ℕ) (text : Bytes)
        (r : Answer ℕ) (os : Os) (m : State platform)
        → Progress platform
        → length u < fuel
        → Ready
        → headers_only req ≡ false
        → Here platform streams (Opened platform streams c.sock_fd w f u) c m
        → write c.sock_fd text m.os ≡ (r, os)
        → Proper
            (λ _. FileSent text)
            (Gone platform streams)
            (head_written platform fuel req body size (r, os) m)
    unfolding head_written
    head_and_file fuel req body size text (failed err) os m progress enough ready more h e =
        give_up-Proper platform fit (λ _. FileSent text) err (codes "failed to write to socket")
          (record m { os = os }) (omega arith)
    head_and_file fuel req body size text (got n) os m progress enough ready more
          (is_c, (is_w, is_u), a) e =
        let (taken, n_le) = streams.write_got c.sock_fd text m.os e in
        let unread_same : unread os f ≡ unread m.os f =
          ap (λ r. unread r.1 f) (sym e) ∙ streams.write_unread c.sock_fd text m.os f apart in
        let same = set_nonblocking-Same m.client.sock_fd os in
        rw more (
          sends fuel text n body size (set_nonblocking platform m.client.sock_fd os) m progress
            enough (n_le, (m.os, is_w, ap (λ r. r.0) e)) ready is_c
            (
              (same c.sock_fd).1 ∙ taken ∙ ap (λ v. v ++ take n text) is_w,
              (same f).0 ∙ unread_same ∙ is_u,
            ))

    pub send_response-FileSent :
        (fuel : ℕ) (req : Option HttpReq) (body : Option Bytes) (size : ℕ) (code : HttpStatusCode)
        (hs : List HttpHeader) (l : headers.Cells) (m : State platform)
        → Progress platform
        → length u < fuel
        → Ready
        → headers.elements l ≡ hs
        → headers_only req ≡ false
        → length (head_text req code hs) ≤ 4095
        → Here platform streams (Opened platform streams c.sock_fd w f u) c m
        → Proper
            (λ _. FileSent (head_text req code hs))
            (Gone platform streams)
            (send_response platform headers fuel
              (record { req = req; code = code; headers = l; body_size = size; body = body })
              m)
    unfolding send_response
    send_response-FileSent fuel req body size code hs l m progress enough ready e more short h =
        let text = head_text req code hs in
        rw e (
          send_head-Proper platform fuel (λ _. FileSent text) (Gone platform streams) req body size
            code hs m short
            (subst
              (λ k.
                Proper (λ _. FileSent text) (Gone platform streams)
                  (head_written platform fuel req body size (write k text m.os) m))
              (sym (ap (λ k. k.sock_fd) h.0))
              (head_and_file fuel req body size text _ _ m progress enough ready more h refl)))
