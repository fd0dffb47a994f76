-- ===== src/Handler/Delivery/Errors.antt =====
-- `error_response` (src/handler.c) on a connection at work: what the socket gets of its head.
use cn_cw.Common.{ℕ, refl, ◌≢◌, none, Bytes}
use cn_cw.Conn.{Conn, HttpHeader}
use cn_cw.Handler.{State}
use cn_cw.Handler.Quiet.{Quiet, Here, Here-Building, Sent, Sent-Steady}
use cn_cw.Handler.Delivery.{HeadSent, Gone}
use cn_cw.Handler.Delivery.Heads.{send_response-HeadSent}
use cn_cw.Handler.Response.{headers_only, error_response}
use cn_cw.Handler.Response.Built.{Building, Dates, IsDate, IsDate-short}
use cn_cw.Handler.Response.Errors.{error_response-Built, error_headers, length-head_text}
use cn_cw.Handler.Response.Head.{head_text}
use cn_cw.Handler.Streams.{Streams}
use cn_cw.Http.Tables.{HttpStatusCode}
use cn_cw.Log.{stderr_fileno}
use cn_cw.Log.Bounds.{LogsFit}
use cn_cw.Memory.Proper.{Proper, Proper-mono}
use cn_cw.PgList.{PgList, Appends}
use cn_cw.Platform.{Platform}

module _ (platform : Platform) (streams : Streams platform) (fit : LogsFit platform)
    (dates : Dates platform) (headers : PgList (platform.Os) HttpHeader Conn)
    (appends : Appends headers) (w : Bytes) (c : Conn)
    (quiet : Quiet platform streams headers c.sock_fd) (s_ne : stderr_fileno ≢ c.sock_fd) where
  -- Connection `c` waits for its answer, and the socket has got `w`.
  abbrev pub Waits : State platform → Type 0
  Waits = Here platform streams (Sent platform streams c.sock_fd w) c

  pub Waits-Building : Building platform headers Waits
  Waits-Building =
      Here-Building platform streams headers c.sock_fd (Sent platform streams c.sock_fd w) c appends
        quiet (Sent-Steady platform streams c.sock_fd w s_ne)

  abbrev pub ErrorSent : HttpStatusCode → State platform → Type 0
  ErrorSent code m =
      (date : Bytes) × IsDate platform date
      × HeadSent platform streams w c (head_text none code (error_headers date)) m

  pub error_response-Sent :
      (fuel : ℕ) (code : HttpStatusCode) (m : State platform)
      → Waits m
      → Proper
          (λ _. ErrorSent code)
          (Gone platform streams)
          (error_response platform headers fuel code m)
  unfolding headers_only
  error_response-Sent fuel code m h =
      error_response-Built platform fit dates headers appends (Gone platform streams) Waits
        Waits-Building (λ _. ErrorSent code) fuel code m h
        (λ date hs m' d e h'.
          Proper-mono
            (λ _. HeadSent platform streams w c (head_text none code (error_headers date)))
            (λ _. ErrorSent code) (Gone platform streams) _
            (send_response-HeadSent platform streams fit headers w c quiet s_ne fuel none none 0
              code (error_headers date) hs m' e refl
              (length-head_text code date (IsDate-short platform dates date d)) h')
            (λ _ m2 sent. (date, d, sent)))
