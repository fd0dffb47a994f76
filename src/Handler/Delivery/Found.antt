-- ===== src/Handler/Delivery/Found.antt =====
-- The answer to a request for a file that is there (src/handler.c): its head, or its head and its bytes.
use cn_cw.Common.{
  ℕ, ◌^◌, ◌<◌, ◌≡◌, ◌≢◌, refl, sym, ap, ◌∙◌, inl, inr, none, some, [], Bytes, length,
}
use cn_cw.Conn.{Conn, HttpHeader, ServerSettings}
use cn_cw.Handler.{State, pending}
use cn_cw.Handler.Quiet.{Quiet, Here, Here-Building, Opened, Opened-Steady}
use cn_cw.Handler.Delivery.{
  Located, no_file, HeadSent, Refused, Described, Answered, Delivered, Gone,
}
use cn_cw.Handler.Delivery.Errors.{Waits, Waits-Building}
use cn_cw.Handler.Delivery.Heads.{send_response-HeadSent}
use cn_cw.Handler.Delivery.Files.{send_response-FileSent, FileSent}
use cn_cw.Handler.Delivery.Paths.{InfoFound, error_response-Refused}
use cn_cw.Handler.Response.{headers_only}
use cn_cw.Handler.Response.Built.{Dates, IsDate-short}
use cn_cw.Handler.Response.Found.{file_headers, length-found_head, send_file_response-Built}
use cn_cw.Handler.Response.Head.{head_text}
use cn_cw.Handler.Asked.{errno_status-StatusOf}
use cn_cw.Handler.Serve.{FileInfo, errno_status, send_file_response, file_opened}
use cn_cw.Handler.Streams.{Streams, Progress, IsBuffered}
use cn_cw.Http.{HttpReq}
use cn_cw.Http.Tables.{get, head, HttpStatusCode}
use cn_cw.Log.{stderr_fileno}
use cn_cw.Log.Bounds.{LogsFit}
use cn_cw.Memory.Proper.{Proper, Proper-mono}
use cn_cw.PgList.{PgList, Appends}
use cn_cw.Platform.{Platform, Answer, got, failed}

-- The connection has no file, and its buffer is empty.
abbrev pub Idle : Conn → Type 0
Idle c = (c.file_fd ≡ none) × IsBuffered c × (pending c ≡ [])

module _ (platform : Platform) (streams : Streams platform) (fit : LogsFit platform)
    (dates : Dates platform) (headers : PgList (platform.Os) HttpHeader Conn)
    (appends : Appends headers) (w : Bytes) (c : Conn)
    (quiet : Quiet platform streams headers c.sock_fd) (s_ne : stderr_fileno ≢ c.sock_fd) (fuel : ℕ)
    (settings : ServerSettings) (req : HttpReq) where
  open platform use {Os, open_file}
  open streams use {unread, sent}

  abbrev WaitsIs : State platform → Type 0
  WaitsIs = Waits platform streams fit dates headers appends w c quiet s_ne

  abbrev RefusesIs : State platform → Type 0
  RefusesIs = Refused platform streams settings.static_dir req.uri w c

  abbrev Found : Bytes → FileInfo → State platform → Type 0
  Found = InfoFound platform streams fit dates headers appends w c quiet s_ne fuel settings req.uri

  pub send_file_response-Described :
      (full_path : Bytes) (info : FileInfo) (m : State platform)
      → req.method ≡ head
      → Found full_path info m
      → Proper
          (λ _. Described platform streams settings.static_dir req w c)
          (Gone platform streams)
          (send_file_response platform headers fuel req 0 info m)
  unfolding headers_only
  send_file_response-Described full_path info m is_head (located, small, h) =
      send_file_response-Built platform fit dates headers appends (Gone platform streams) WaitsIs
        (Waits-Building platform streams fit dates headers appends w c quiet s_ne)
        (λ _. Described platform streams settings.static_dir req w c) fuel req 0 info m small h
        (λ date hs m' d e h'.
          Proper-mono
            (λ _.
              HeadSent platform streams w c
                (head_text (some req) HttpStatusCode.ok (file_headers date info)))
            (λ _. Described platform streams settings.static_dir req w c) (Gone platform streams) _
            (send_response-HeadSent platform streams fit headers w c quiet s_ne fuel (some req) none
              0 HttpStatusCode.ok (file_headers date info) hs m' e (rw is_head refl)
              (length-found_head (some req) HttpStatusCode.ok date info
                (IsDate-short platform dates date d) small)
              h')
            (λ _ m2 sent_head. (full_path, info, date, located, d, sent_head)))

  abbrev AnswersIs : State platform → Type 0
  AnswersIs = Answered platform streams fit settings.static_dir req w c

  opened_client :
      (fd : ℕ) (k : Conn)
      → k ≡ c
      → ◌≡◌ {A = Conn} (record k { file_fd = some fd }) (record c { file_fd = some fd })
  opened_client fd k e = rw e refl

  send_file_response-Answered :
      (full_path : Bytes) (info : FileInfo) (fd : ℕ) (os os' : Os) (m : State platform)
      → Progress platform
      → length (unread os' fd) < fuel
      → Idle c
      → req.method ≡ get
      → open_file full_path os ≡ (got fd, os')
      → Located platform streams settings.static_dir req.uri full_path info
      → info.size < 2 ^ 63
      → Here platform streams
          (Opened platform streams c.sock_fd w fd (unread os' fd))
          (record c { file_fd = some fd })
          m
      → Proper
          (λ _. AnswersIs)
          (Gone platform streams)
          (send_file_response platform headers fuel req info.size info m)
  unfolding headers_only pending
  send_file_response-Answered full_path info fd os os' m progress enough (no_fd, b, empty) is_get e
        located small h =
      let (f_ne, apart) = quiet.open_fresh full_path os e in
      let u = unread os' fd in
      let c' : Conn = record c { file_fd = some fd } in
      let b' : IsBuffered c' = record {
        cursor_le = b.cursor_le;
        len_le = b.len_le;
        size_le = b.size_le;
        room = b.room;
      } in
      let K = Opened platform streams c.sock_fd w fd u in
      send_file_response-Built platform fit dates headers appends (Gone platform streams)
        (Here platform streams K c')
        (Here-Building platform streams headers c.sock_fd K c' appends quiet
          (Opened-Steady platform streams c.sock_fd w fd u s_ne f_ne))
        (λ _. AnswersIs) fuel req info.size info m small h
        (λ date hs m' d e' h'.
          Proper-mono
            (λ _.
              FileSent platform streams fit headers w c' quiet s_ne fd u f_ne apart
                (head_text (some req) HttpStatusCode.ok (file_headers date info)))
            (λ _. AnswersIs) (Gone platform streams) _
            (send_response-FileSent platform streams fit headers w c' quiet s_ne fd u f_ne apart
              fuel (some req) none info.size HttpStatusCode.ok (file_headers date info) hs m'
              progress enough (refl, b', empty) e' (rw is_get refl)
              (length-found_head (some req) HttpStatusCode.ok date info
                (IsDate-short platform dates date d) small)
              h')
            (λ _ m2 (n, took, stopped, left_le). record {
              full_path = full_path;
              info = info;
              date = date;
              file = fd;
              at_open = os;
              opened = os';
              count = n;
              located = located;
              is_date = d;
              opens = e;
              took = took;
              left_le = left_le;
              stopped = stopped;
            }))

  abbrev GetsIs : State platform → Type 0
  GetsIs = Delivered platform streams fit get settings.static_dir req w c

  pub file_opened-Answered :
      (full_path : Bytes) (info : FileInfo) (r : Answer ℕ) (os : Os) (m : State platform)
      → Progress platform
      → ((fd : ℕ) → r ≡ got fd → length (unread os fd) < fuel)
      → Idle c
      → req.method ≡ get
      → open_file full_path m.os ≡ (r, os)
      → Found full_path info m
      → Proper
          (λ _. GetsIs)
          (Gone platform streams)
          (file_opened platform headers fuel req info (r, os) m)
  unfolding file_opened Delivered
  file_opened-Answered full_path info (failed err) os m progress enough idle is_get e
        (located, small, (is_c, k, set)) =
      let k' : sent os c.sock_fd ≡ w =
        ap (λ r. sent r.1 c.sock_fd) (sym e) ∙ quiet.open_sent full_path m.os c.sock_fd ∙ k in
      Proper-mono (λ _. RefusesIs) (λ _. GetsIs) (Gone platform streams) _
        (error_response-Refused platform streams fit dates headers appends w c quiet s_ne fuel
          settings req.uri (errno_status err) (record m { os = os })
          (no_file m.os err (errno_status err) (errno_status-StatusOf err) located
            (ap (λ r. r.0) e))
          (is_c, k', set))
        (λ _ m2 h. inl h)
  file_opened-Answered full_path info (got fd) os m progress enough idle is_get e
        (located, small, (is_c, k, set)) =
      let k' : sent os c.sock_fd ≡ w =
        ap (λ r. sent r.1 c.sock_fd) (sym e) ∙ quiet.open_sent full_path m.os c.sock_fd ∙ k in
      rw (ap (λ k. k.file_fd) is_c ∙ idle.0) (
        Proper-mono (λ _. AnswersIs) (λ _. GetsIs) (Gone platform streams) _
          (send_file_response-Answered full_path info fd m.os os
            (record m { os = os; client = record m.client { file_fd = some fd } }) progress
            (enough fd refl) idle is_get e located small
            (opened_client fd m.client is_c, (k', refl), set))
          (λ _ m2 h. inr h))
