-- ===== src/Handler/Lasting/Files.antt =====
-- The answers to GET and HEAD (src/handler.c) keep what lasts.
use cn_cw.Common.{
  ℕ, ◌+◌, ◌≡◌, refl, inl, inr, Option, none, some, ◌∷◌, Bool-cases, Option-cases, Bytes, codes,
  length, ◌++◌,
}
use cn_cw.Conn.{Conn, HttpHeader, ServerSettings}
use cn_cw.Format.{snprintf}
use cn_cw.Handler.{State}
use cn_cw.Handler.Lasting.{
  Lasting, Lasts, Lasts-and_then, then-Lasts, make_header-Stable, make_date_header-Stable,
}
use cn_cw.Handler.Lasting.Answers.{send_response-Lasts, error_response-Lasts}
use cn_cw.Handler.Response.{error_response}
use cn_cw.Handler.Serve.{
  FileInfo, errno_status, in_static_dir, requested_name, file_info, get_file_info, copy_path,
  arena_copy, resolved, resolve_path, send_file_response, if_some, serve_head_request, file_opened,
  serve_get_request, serve_request,
}
use cn_cw.Http.{HttpReq}
use cn_cw.Http.Tables.{HttpMethod, get, head, HttpStatusCode, forbidden}
use cn_cw.Log.{warn}
use cn_cw.Machine.{Arena}
use cn_cw.Memory.{server_memfmt}
use cn_cw.Memory.Neutral.{Stable, log_msg-Stable, request_memory-Stable, server_strdup-Stable}
use cn_cw.Outcome.{Outcome, Cmd, and_then, returns}
use cn_cw.PgList.{PgList}
use cn_cw.Platform.{Platform, Answer, got, failed}

module _ (platform : Platform) (headers : PgList (platform.Os) HttpHeader Conn)
    (I : State platform → Type 0) (lasting : Lasting platform headers I) where
  open platform use {Os, read, free, stat, realpath, open_file}
  open headers use {nil}
  open lasting use {
    neutral, after_read, after_stat, after_realpath, after_free, after_open, after_open_failed,
    after_lappend, after_conn,
  }

  then :
      {A B : Type 0} (o : Outcome (State platform) A) (k : A → Cmd (State platform) B)
      → Stable I o
      → ((a : A) (m : State platform) → I m → Lasts I (k a m))
      → Lasts I (and_then o k)
  then = then-Lasts platform headers I lasting

  module _ (fuel : ℕ) where
    refused-Lasts :
        (A : Type 0) (code : HttpStatusCode) (m : State platform)
        (k : State platform → State platform)
        → I m
        → ((m' : State platform) → I m' → I (k m'))
        → Lasts {A = Option A} I
            (and_then (error_response platform headers fuel code m) (λ _ m'. returns none (k m')))
    refused-Lasts A code m k h keeps =
        Lasts-and_then I _ _ (error_response-Lasts platform headers I lasting fuel code m h)
          (λ _ m' h'. keeps m' h')

    file_info-Lasts :
        (path : Bytes) (r : Answer ℕ × Os) (m : State platform)
        → I (record m { os = r.1 })
        → Lasts I (file_info platform headers fuel path r m)
    unfolding file_info
    file_info-Lasts path (failed err, os) m h = refused-Lasts _ _ _ (λ m'. m') h (λ m' h'. h')
    file_info-Lasts path (got size, os) m h = h

    get_file_info-Lasts :
        (path : Bytes) (m : State platform)
        → I m
        → Lasts I (get_file_info platform headers fuel path m)
    unfolding get_file_info
    get_file_info-Lasts path m h = file_info-Lasts path _ m (after_stat path m h)

    copy_path-Lasts :
        (p : ℕ) (full_path : Bytes) (r : Option ℕ) (m : State platform)
        → I m
        → Lasts I (copy_path platform headers fuel p full_path r m)
    unfolding copy_path
    copy_path-Lasts p full_path none m h =
        refused-Lasts _ _ _ (λ m'. m') (after_free p m h) (λ m' h'. h')
    copy_path-Lasts p full_path (some _) m h = after_free p m h

    arena_copy-Lasts :
        (p : ℕ) (full_path : Bytes) (arena : Option Arena) (m : State platform)
        → I m
        → Lasts I (arena_copy platform headers fuel p full_path arena m)
    unfolding arena_copy
    arena_copy-Lasts p full_path none m h = tt
    arena_copy-Lasts p full_path (some arena) m h =
        then _ _ (request_memory-Stable platform I neutral (some arena) (length full_path + 1) m h)
          (copy_path-Lasts p full_path)

    resolved-Lasts :
        (settings : ServerSettings) (r : Answer (ℕ × Bytes) × Os) (m : State platform)
        → I (record m { os = r.1 })
        → Lasts I (resolved platform headers fuel settings r m)
    unfolding resolved
    resolved-Lasts settings (failed err, os) m h = refused-Lasts _ _ _ (λ m'. m') h (λ m' h'. h')
    resolved-Lasts settings (got (p, full_path), os) m h =
        elim (Bool-cases (in_static_dir settings.static_dir full_path)) [
          | inl inside ↦ rw inside (arena_copy-Lasts p full_path m.g_memory_arena _ h)
          | inr outside ↦ rw outside (
              Lasts-and_then I _ _
                (then _ _
                  (log_msg-Stable platform I neutral warn
                    (codes "attempt to access file outside of static directory")
                    (record m { os = os }) h)
                  (λ _ m1 h1. error_response-Lasts platform headers I lasting fuel forbidden m1 h1))
                (λ _ m2 h2. after_free p m2 h2))
        ]

    resolve_path-Lasts :
        (uri : Bytes) (settings : ServerSettings) (m : State platform)
        → I m
        → Lasts I (resolve_path platform headers fuel uri settings m)
    unfolding resolve_path
    resolve_path-Lasts uri settings m h =
        let path = (snprintf 4096 (settings.static_dir ++ b'/' ∷ requested_name uri)).0 in
        resolved-Lasts settings (realpath path m.os) m (after_realpath path m h)

    send_file_response-Lasts :
        (req : HttpReq) (body_size : ℕ) (info : FileInfo) (m : State platform)
        → I m
        → Lasts I (send_file_response platform headers fuel req body_size info m)
    unfolding send_file_response server_memfmt
    send_file_response-Lasts req body_size info m h =
        let make = make_header-Stable platform headers I lasting in
        then _ _ (make_date_header-Stable platform headers I lasting m h) (λ date m1 h1.
          then _ _ (after_lappend nil date m1 h1) (λ l1 m2 h2.
            then _ _ (server_strdup-Stable platform I neutral _ m2 h2) (λ size m3 h3.
              then _ _ (make _ _ m3 h3) (λ content_length m4 h4.
                then _ _ (after_lappend l1 content_length m4 h4) (λ l2 m5 h5.
                  then _ _ (make _ _ m5 h5) (λ content_type m6 h6.
                    then _ _ (after_lappend l2 content_type m6 h6) (λ l3 m7 h7.
                      then _ _ (make _ _ m7 h7) (λ connection m8 h8.
                        then _ _ (after_lappend l3 connection m8 h8) (λ l4 m9 h9.
                          send_response-Lasts platform headers I lasting fuel
                            (record {
                              req = some req;
                              code = HttpStatusCode.ok;
                              headers = l4;
                              body_size = body_size;
                              body = none;
                            })
                            m9 h9)))))))))

    if_some-Lasts :
        {A : Type 0} (k : A → Cmd (State platform) (Unit {0}))
        → ((a : A) (m : State platform) → I m → Lasts I (k a m))
        → (r : Option A) (m : State platform) → I m
        → Lasts I (if_some platform headers fuel r k m)
    if_some-Lasts k next none m h = h
    if_some-Lasts k next (some a) m h = next a m h

    serve_head_request-Lasts :
        (req : HttpReq) (settings : ServerSettings) (m : State platform)
        → I m
        → Lasts I (serve_head_request platform headers fuel req settings m)
    unfolding serve_head_request
    serve_head_request-Lasts req settings m h =
        Lasts-and_then I _ _ (resolve_path-Lasts req.uri settings m h) (
          if_some-Lasts _ (λ path m1 h1.
            Lasts-and_then I _ _ (get_file_info-Lasts path m1 h1)
              (if_some-Lasts _ (send_file_response-Lasts req 0))))

    -- The descriptor that `open` returned is the connection's from here on.
    opened-Lasts :
        (req : HttpReq) (info : FileInfo) (path : Bytes) (r : Answer ℕ) (os : Os)
        (m : State platform)
        → open_file path m.os ≡ (r, os)
        → I m
        → Lasts I (file_opened platform headers fuel req info (r, os) m)
    unfolding file_opened
    opened-Lasts req info path (failed err) os m e h =
        error_response-Lasts platform headers I lasting fuel (errno_status err)
          (record m { os = os }) (after_open_failed path m err os e h)
    opened-Lasts req info path (got fd) os m e h = elim (Option-cases m.client.file_fd) [
      | inl no_file ↦
          let h' = after_open path m fd os e no_file h in
          rw no_file (
            send_file_response-Lasts req info.size info
              (record m { os = os; client = record m.client { file_fd = some fd } }) h')
      | inr (n, eq) ↦ rw eq tt
    ]

    serve_get_request-Lasts :
        (req : HttpReq) (settings : ServerSettings) (m : State platform)
        → I m
        → Lasts I (serve_get_request platform headers fuel req settings m)
    unfolding serve_get_request
    serve_get_request-Lasts req settings m h =
        Lasts-and_then I _ _ (resolve_path-Lasts req.uri settings m h) (
          if_some-Lasts _ (λ path m1 h1. Lasts-and_then I _ _ (get_file_info-Lasts path m1 h1) (
            if_some-Lasts _ (λ info m2 h2.
              opened-Lasts req info path (open_file path m2.os).0 (open_file path m2.os).1 m2 refl
                h2))))

    pub serve_request-Lasts :
        (method : HttpMethod) (req : HttpReq) (settings : ServerSettings) (m : State platform)
        → I m
        → Lasts I (serve_request platform headers fuel method req settings m)
    unfolding serve_request
    serve_request-Lasts get req settings m h = serve_get_request-Lasts req settings m h
    serve_request-Lasts head req settings m h = serve_head_request-Lasts req settings m h
