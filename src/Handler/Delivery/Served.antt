-- ===== src/Handler/Delivery/Served.antt =====
-- `serve_request` (src/handler.c) from the name in the request to the last byte on the socket.
use cn_cw.Common.{ℕ, ◌<◌, ◌≡◌, ◌≢◌, refl, ap, inl, inr, Option, none, some, Bytes, length}
use cn_cw.Conn.{Conn, HttpHeader, ServerSettings}
use cn_cw.Handler.{State}
use cn_cw.Handler.Quiet.{Quiet}
use cn_cw.Handler.Delivery.{Refused, Described, Delivered, Gone}
use cn_cw.Handler.Delivery.Errors.{Waits}
use cn_cw.Handler.Delivery.Paths.{
  OrRefused, PathFound, InfoFound, resolve_path-Found, get_file_info-Found,
}
use cn_cw.Handler.Response.Built.{Dates}
use cn_cw.Handler.Serve.{FileInfo, if_some, serve_head_request, serve_get_request, serve_request}
use cn_cw.Handler.Streams.{Streams, Progress}
use cn_cw.Http.{HttpReq}
use cn_cw.Http.Tables.{HttpMethod, get, head}
use cn_cw.Log.{stderr_fileno}
use cn_cw.Log.Bounds.{LogsFit}
use cn_cw.Memory.Proper.{Proper, Proper-and_then, Proper-mono}
use cn_cw.Outcome.{Outcome, Cmd, and_then}
use cn_cw.PgList.{PgList, Appends}
use cn_cw.Platform.{Platform, got}
use cn_cw.Handler.Delivery.Found.{Idle, send_file_response-Described, file_opened-Answered}

module _ (platform : Platform) (streams : Streams platform) (fit : LogsFit platform)
    (dates : Dates platform) (headers : PgList (platform.Os) HttpHeader Conn)
    (appends : Appends headers) (w : Bytes) (c : Conn)
    (quiet : Quiet platform streams headers c.sock_fd) (s_ne : stderr_fileno ≢ c.sock_fd) (fuel : ℕ)
    (settings : ServerSettings) (req : HttpReq) where
  open platform use {Os, open_file}
  open streams use {unread, sent}

  abbrev WaitsIs : State platform → Type 0
  WaitsIs = Waits platform streams fit dates headers appends w c quiet s_ne

  abbrev RefusesIs : State platform → Type 0
  RefusesIs = Refused platform streams settings.static_dir req.uri w c

  abbrev Handed : {A : Type 0} → (A → State platform → Type 0) → Option A → State platform → Type 0
  Handed = OrRefused platform streams fit dates headers appends w c quiet s_ne fuel settings req.uri

  some_next :
      {A : Type 0} (P : A → State platform → Type 0) (Q : State platform → Type 0) (r : Option A)
      (k : A → Cmd (State platform) (Unit {0})) (m : State platform)
      → ((m : State platform) → RefusesIs m → Q m)
      → Handed P r m
      → ((a : A) (m : State platform) → P a m → Proper (λ _. Q) (Gone platform streams) (k a m))
      → Proper (λ _. Q) (Gone platform streams) (if_some platform headers fuel r k m)
  some_next P Q none k m refuses h next = refuses m h
  some_next P Q (some a) k m refuses h next = next a m h

  -- The next step, where the one before has handed something on.
  then_some :
      {A : Type 0} (P : A → State platform → Type 0) (Q : State platform → Type 0)
      (o : Outcome (State platform) (Option A)) (k : A → Cmd (State platform) (Unit {0}))
      → ((m : State platform) → RefusesIs m → Q m)
      → Proper (Handed P) (Gone platform streams) o
      → ((a : A) (m : State platform) → P a m → Proper (λ _. Q) (Gone platform streams) (k a m))
      → Proper
          (λ _. Q)
          (Gone platform streams)
          (and_then o (λ r. if_some platform headers fuel r k))
  then_some P Q o k refuses h next =
      Proper-and_then (Handed P) (λ _. Q) (Gone platform streams) o _ h
        (λ r m h'. some_next P Q r k m refuses h' next)

  abbrev Found : Bytes → FileInfo → State platform → Type 0
  Found = InfoFound platform streams fit dates headers appends w c quiet s_ne fuel settings req.uri

  abbrev GetsIs : State platform → Type 0
  GetsIs = Delivered platform streams fit get settings.static_dir req w c

  serve_get_request-Answered :
      (m : State platform)
      → Progress platform
      → ((path : Bytes) (os : Os) (fd : ℕ) (os' : Os)
          → open_file path os ≡ (got fd, os')
          → length (unread os' fd) < fuel)
      → Idle c
      → req.method ≡ get
      → WaitsIs m
      → Proper
          (λ _. GetsIs)
          (Gone platform streams)
          (serve_get_request platform headers fuel req settings m)
  unfolding serve_get_request Delivered
  serve_get_request-Answered m progress enough idle is_get h =
      then_some
        (PathFound platform streams fit dates headers appends w c quiet s_ne fuel settings req.uri)
        GetsIs _ _ (λ m2 r. inl r)
        (resolve_path-Found platform streams fit dates headers appends w c quiet s_ne fuel settings
          req.uri m h)
        (λ full_path m1 h1.
          then_some (Found full_path) GetsIs _ _ (λ m2 r. inl r)
            (get_file_info-Found platform streams fit dates headers appends w c quiet s_ne fuel
              settings req.uri full_path m1 h1)
            (λ info m2 h2.
              file_opened-Answered platform streams fit dates headers appends w c quiet s_ne fuel
                settings req full_path info _ _ m2 progress
                (λ fd e.
                  enough full_path m2.os fd _ (ap (λ r. (r, (open_file full_path m2.os).1)) e))
                idle is_get refl h2))

  serve_head_request-Described :
      (m : State platform)
      → req.method ≡ head
      → WaitsIs m
      → Proper
          (λ _. Delivered platform streams fit head settings.static_dir req w c)
          (Gone platform streams)
          (serve_head_request platform headers fuel req settings m)
  unfolding serve_head_request Delivered
  serve_head_request-Described m is_head h =
      let Q : State platform → Type 0 =
        Delivered platform streams fit head settings.static_dir req w c in
      then_some
        (PathFound platform streams fit dates headers appends w c quiet s_ne fuel settings req.uri)
        Q _ _ (λ m2 r. inl r)
        (resolve_path-Found platform streams fit dates headers appends w c quiet s_ne fuel settings
          req.uri m h)
        (λ full_path m1 h1.
          then_some (Found full_path) Q _ _ (λ m2 r. inl r)
            (get_file_info-Found platform streams fit dates headers appends w c quiet s_ne fuel
              settings req.uri full_path m1 h1)
            (λ info m2 h2.
              Proper-mono (λ _. Described platform streams settings.static_dir req w c) (λ _. Q)
                (Gone platform streams) _
                (send_file_response-Described platform streams fit dates headers appends w c quiet
                  s_ne fuel settings req full_path info m2 is_head h2)
                (λ _ m3 h3. inr h3)))

  pub serve_request-Delivered :
      (method : HttpMethod) (m : State platform)
      → Progress platform
      → ((path : Bytes) (os : Os) (fd : ℕ) (os' : Os)
          → open_file path os ≡ (got fd, os')
          → length (unread os' fd) < fuel)
      → Idle c
      → req.method ≡ method
      → WaitsIs m
      → Proper
          (λ _. Delivered platform streams fit method settings.static_dir req w c)
          (Gone platform streams)
          (serve_request platform headers fuel method req settings m)
  unfolding serve_request
  serve_request-Delivered get m progress enough idle is_method h =
      serve_get_request-Answered m progress enough idle is_method h
  serve_request-Delivered head m progress enough idle is_method h =
      serve_head_request-Described m is_method h
