-- ===== src/Handler/Delivery/Ended.antt =====
-- What a request has brought about stays so, and an answer with a file comes to its end, while
-- `process_request_write` is called (src/handler.c).
use cn_cw.Common.{
  ℕ, suc, ◌<◌, ◌≡◌, ◌≢◌, ap, inl, inr, some, List, All, arith, Bytes, length, ◌++◌, take,
}
use cn_cw.Conn.{sending, complete, Conn, HttpHeader}
use cn_cw.Handler.{State}
use cn_cw.Handler.Delivery.{Answered, Delivered, Gone}
use cn_cw.Handler.Flows.{Flows, Stopped, Broken}
use cn_cw.Handler.Moves.{Readiness, Opens}
use cn_cw.Handler.Quiet.{Quiet}
use cn_cw.Handler.States.{Failed}
use cn_cw.Handler.Streams.{Streams, Progress}
use cn_cw.Handler.Visits.{visits, visits_stays, visits-Complete}
use cn_cw.Http.{HttpReq}
use cn_cw.Http.Tables.{HttpMethod, get, head}
use cn_cw.Log.{stderr_fileno}
use cn_cw.Log.Bounds.{LogsFit}
use cn_cw.Memory.Proper.{Ensures-Proper_jumps}
use cn_cw.Handler.Response.Found.{file_headers}
use cn_cw.Handler.Response.Head.{head_text}
use cn_cw.Handler.Stream.{nothing_left}
use cn_cw.Http.Tables.{HttpStatusCode}
use cn_cw.Memory.Runs.{Runs, Runs-mono, Proper-Runs}
use cn_cw.PgList.{PgList}
use cn_cw.Platform.{Platform, got}

module _ (platform : Platform) (streams : Streams platform) (fit : LogsFit platform) (s : ℕ)
    (readiness : (f : ℕ) → Readiness platform f s) (fuel : ℕ)
    (turns : List (platform.Os → platform.Os)) where
  -- Each turn leaves every file and the socket alone, and the socket takes bytes after it; the
  -- turns, and the fuel of each call, are enough for every file.
  pub record Patient : Type 0 where
    pub progress : Progress platform
    pub opens : (f : ℕ) → All (Opens platform streams fit f s (readiness f)) turns
    pub many :
        (path : Bytes) (os : platform.Os) (fd : ℕ) (os' : platform.Os)
        → platform.open_file path os ≡ (got fd, os')
        → (length (streams.unread os' fd) < length turns)
          × (suc (length (streams.unread os' fd)) < fuel)

module _ (platform : Platform) (streams : Streams platform) (fit : LogsFit platform)
    (headers : PgList (platform.Os) HttpHeader Conn) (w : Bytes) (c : Conn)
    (quiet : Quiet platform streams headers c.sock_fd) (s_ne : stderr_fileno ≢ c.sock_fd)
    (readiness : (f : ℕ) → Readiness platform f c.sock_fd) (fuel : ℕ)
    (turns : List (platform.Os → platform.Os)) (O : State platform → Type 0) where
  open platform use {Os}
  open streams use {unread, sent}

  abbrev PatientIs : Type 0
  PatientIs = Patient platform streams fit c.sock_fd readiness fuel turns

  -- `P` still holds, and there is nothing left to send.
  abbrev pub Ended : (State platform → Type 0) → State platform → Type 0
  Ended P m = P m × (m.client.state ≢ sending)

  pub stays-Ended :
      (P : State platform → Type 0) (m : State platform)
      → P m
      → m.client.state ≢ sending
      → Runs (λ _. Ended P) (Failed platform) O (visits platform fuel turns m)
  stays-Ended P m h ne = rw (visits_stays platform fuel turns m ne) (h, ne)

  pub complete-Ended :
      (P : State platform → Type 0) (m : State platform)
      → P m
      → m.client.state ≡ complete
      → Runs (λ _. Ended P) (Failed platform) O (visits platform fuel turns m)
  complete-Ended P m h e = stays-Ended P m h (λ is_sending. cc)

  -- An answer with a file comes to its end.
  Answered-Ended :
      (static_dir : Bytes) (req : HttpReq) (m : State platform)
      → PatientIs
      → Answered platform streams fit static_dir req w c m
      → Runs
          (λ _. Ended (Answered platform streams fit static_dir req w c))
          (Failed platform)
          O
          (visits platform fuel turns m)
  unfolding Stopped Broken
  Answered-Ended static_dir req m patient a = elim a.stopped.1 [
    | inl all ↦ complete-Ended (Answered platform streams fit static_dir req w c) m a all.0
    | inr (is_sending, _) ↦
        let total =
          w
          ++ (take a.count (head_text (some req) HttpStatusCode.ok (file_headers a.date a.info))
              ++ unread a.opened a.file) in
        let (f_ne, apart) = quiet.open_fresh a.full_path a.at_open a.opens in
        let (many, enough) = patient.many a.full_path a.at_open a.file a.opened a.opens in
        let sent_all : State platform → Type 0 = λ m'.
          Flows platform streams fit a.file c.sock_fd total m'
          × (m'.client.state ≡ complete)
          × (sent m'.os c.sock_fd ≡ total) in
        let left_none = nothing_left platform streams fit a.file c.sock_fd total f_ne s_ne in
        Proper-Runs (λ _. sent_all) (λ _. Ended (Answered platform streams fit static_dir req w c))
          (Gone platform streams) (Failed platform) O (visits platform fuel turns m)
          (λ _ m' (flows, is_complete, all). (
            record {
              full_path = a.full_path;
              info = a.info;
              date = a.date;
              file = a.file;
              at_open = a.at_open;
              opened = a.opened;
              count = a.count;
              located = a.located;
              is_date = a.is_date;
              opens = a.opens;
              took = a.took;
              left_le = omega (arith, left_none m' flows all);
              stopped = (flows, inl (is_complete, all));
            },
            λ e. cc,
          ))
          (λ m' e. inr e)
          (Ensures-Proper_jumps (λ _. sent_all) (λ _. sent_all)
            (Broken platform streams fit a.file c.sock_fd total) (Gone platform streams)
            (visits platform fuel turns m) (λ _ m' h. h) (λ m' h. h.1)
            (visits-Complete platform streams fit a.file c.sock_fd (readiness a.file) total f_ne
              s_ne fuel turns m patient.progress apart a.stopped.0 is_sending (patient.opens a.file)
              (omega (arith, a.left_le, many)) (omega (arith, a.left_le, enough))))
  ]

  pub Delivered-Ended :
      (method : HttpMethod) (static_dir : Bytes) (req : HttpReq) (m : State platform)
      → PatientIs
      → Delivered platform streams fit method static_dir req w c m
      → Runs
          (λ _. Ended (Delivered platform streams fit method static_dir req w c))
          (Failed platform)
          O
          (visits platform fuel turns m)
  unfolding Delivered
  Delivered-Ended get static_dir req m patient (inl refused) =
      complete-Ended (Delivered platform streams fit get static_dir req w c) m (inl refused)
        (ap (λ k. k.state) refused.4.is_complete)
  Delivered-Ended get static_dir req m patient (inr answered) =
      Runs-mono (λ _. Ended (Answered platform streams fit static_dir req w c))
        (λ _. Ended (Delivered platform streams fit get static_dir req w c)) (Failed platform) O _
        (λ _ m' (h, ne). (inr h, ne)) (Answered-Ended static_dir req m patient answered)
  Delivered-Ended head static_dir req m patient (inl refused) =
      complete-Ended (Delivered platform streams fit head static_dir req w c) m (inl refused)
        (ap (λ k. k.state) refused.4.is_complete)
  Delivered-Ended head static_dir req m patient (inr described) =
      complete-Ended (Delivered platform streams fit head static_dir req w c) m (inr described)
        (ap (λ k. k.state) described.5.is_complete)
