-- ===== src/Handler/Files.antt =====
-- In which state the answers to GET and HEAD of src/handler.c leave a connection, on every path.
use cn_cw.Common.{ℕ, ◌≡◌, inl, inr, Option, none, some, Bool-cases, Option-cases, Bytes}
use cn_cw.Conn.{complete, Conn, HttpHeader, ServerSettings}
use cn_cw.Handler.{State}
use cn_cw.Handler.Answers.{
  Finished, then_next, lappend-Keeps, send_response-Underway, error_response-Finished,
}
use cn_cw.Handler.Keeps.{
  Keeps, Never, log_msg-Keeps, request_memory-Keeps, make_header-Keeps, make_date_header-Keeps,
  server_strdup-Keeps,
}
use cn_cw.Handler.Response.{error_response}
use cn_cw.Handler.Serve.{
  FileInfo, errno_status, in_static_dir, file_info, get_file_info, copy_path, arena_copy, resolved,
  resolve_path, send_file_response, if_some, serve_head_request, file_opened, serve_get_request,
  serve_request,
}
use cn_cw.Handler.States.{Underway, Broken}
use cn_cw.Http.{HttpReq}
use cn_cw.Http.Tables.{HttpMethod, get, head, HttpStatusCode, internal_server_error, forbidden}
use cn_cw.Machine.{Arena}
use cn_cw.Memory.{server_memfmt}
use cn_cw.Outcome.{Outcome, returns, Cmd, and_then, Leaves, Leaves-and_then, Leaves-mono}
use cn_cw.PgList.{PgList, Appends}
use cn_cw.Platform.{Platform, Answer, got, failed}

module _ (platform : Platform) (headers : PgList (platform.Os) HttpHeader Conn)
    (appends : Appends headers) (fuel : ℕ) where
  open platform use {Os, read, stat, realpath, open_file, free}
  open headers use {nil, lappend}

  -- What was looked for is found, or the response that says so is sent.
  abbrev Found : {A : Type 0} → Option A → State platform → Type 0
  Found none m = m.client.state ≡ complete
  Found (some a) m = Unit

  -- After an error response nothing was found.
  refused-Found :
      (A : Type 0) (code : HttpStatusCode) (m : State platform)
      (k : State platform → State platform)
      → ((m' : State platform) → m'.client.state ≡ complete → (k m').client.state ≡ complete)
      → Leaves
          (Found {A = A})
          (Broken platform)
          (and_then (error_response platform headers fuel code m) (λ _ m'. returns none (k m')))
  refused-Found A code m k keeps =
      Leaves-and_then (Finished platform) (Broken platform) Found (Broken platform) _ _
        (error_response-Finished platform headers fuel appends code m) (λ s h. h)
        (λ _ m' h. keeps m' h)

  file_info-Found :
      (path : Bytes) (r : Answer ℕ × Os) (m : State platform)
      → Leaves Found (Broken platform) (file_info platform headers fuel path r m)
  unfolding file_info
  file_info-Found path (failed err, os) m =
      refused-Found _ (errno_status err) (record m { os = os }) (λ m'. m') (λ m' h. h)
  file_info-Found path (got size, os) m = tt

  get_file_info-Found :
      (path : Bytes) (m : State platform)
      → Leaves Found (Broken platform) (get_file_info platform headers fuel path m)
  unfolding get_file_info
  get_file_info-Found path m = file_info-Found path (stat path m.os) m

  copy_path-Found :
      (p : ℕ) (full_path : Bytes) (r : Option ℕ) (m : State platform)
      → Leaves Found (Broken platform) (copy_path platform headers fuel p full_path r m)
  unfolding copy_path
  copy_path-Found p full_path none m =
      refused-Found _ internal_server_error (record m { os = free p m.os }) (λ m'. m') (λ m' h. h)
  copy_path-Found p full_path (some _) m = tt

  arena_copy-Found :
      (p : ℕ) (full_path : Bytes) (arena : Option Arena) (m : State platform)
      → Leaves Found (Broken platform) (arena_copy platform headers fuel p full_path arena m)
  unfolding arena_copy
  arena_copy-Found p full_path none m = tt
  arena_copy-Found p full_path (some arena) m =
      then_next platform Found m.client _ _ (request_memory-Keeps platform (some arena) _ m)
        (λ r m'. copy_path-Found p full_path r m')

  resolved-Found :
      (settings : ServerSettings) (r : Answer (ℕ × Bytes) × Os) (m : State platform)
      → Leaves Found (Broken platform) (resolved platform headers fuel settings r m)
  unfolding resolved
  resolved-Found settings (failed err, os) m =
      refused-Found _ (errno_status err) (record m { os = os }) (λ m'. m') (λ m' h. h)
  resolved-Found settings (got (p, full_path), os) m =
      elim (Bool-cases (in_static_dir settings.static_dir full_path)) [
        | inl inside ↦ rw inside (arena_copy-Found p full_path m.g_memory_arena _)
        | inr outside ↦ rw outside (
            Leaves-and_then (Finished platform) (Broken platform) Found (Broken platform) _ _
              (then_next platform (Finished platform) m.client _ _ (log_msg-Keeps platform _ _ _)
                (λ _ m'. error_response-Finished platform headers fuel appends forbidden m'))
              (λ s h. h) (λ _ m' h. h))
      ]

  resolve_path-Found :
      (uri : Bytes) (settings : ServerSettings) (m : State platform)
      → Leaves Found (Broken platform) (resolve_path platform headers fuel uri settings m)
  unfolding resolve_path
  resolve_path-Found uri settings m = resolved-Found settings (realpath _ m.os) m

  underway :
      {A B : Type 0} (c : Conn) (o : Outcome (State platform) A) (k : A → Cmd (State platform) B)
      → Leaves (Keeps platform c) (Never platform) o
      → ((a : A) (m' : State platform) → Leaves (Underway platform) (Broken platform) (k a m'))
      → Leaves (Underway platform) (Broken platform) (and_then o k)
  underway = then_next platform (Underway platform)

  send_file_response-Underway :
      (req : HttpReq) (body_size : ℕ) (info : FileInfo) (m : State platform)
      → Leaves
          (Underway platform)
          (Broken platform)
          (send_file_response platform headers fuel req body_size info m)
  unfolding send_file_response server_memfmt
  send_file_response-Underway req body_size info m =
      underway m.client _ _ (make_date_header-Keeps platform m) (λ date m1.
        underway m1.client _ _ (lappend-Keeps platform headers fuel appends nil date m1) (λ h1 m2.
          underway m2.client _ _ (server_strdup-Keeps platform _ m2) (λ size m3.
            underway m3.client _ _ (make_header-Keeps platform _ _ m3) (λ length_header m4.
              underway m4.client _ _
                (lappend-Keeps platform headers fuel appends h1 length_header m4)
                (λ h2 m5.
                  underway m5.client _ _ (make_header-Keeps platform _ _ m5) (λ type_header m6.
                    underway m6.client _ _
                      (lappend-Keeps platform headers fuel appends h2 type_header m6)
                      (λ h3 m7.
                        underway m7.client _ _ (make_header-Keeps platform _ _ m7) (λ connection m8.
                          underway m8.client _ _
                            (lappend-Keeps platform headers fuel appends h3 connection m8)
                            (λ h4 m9.
                              send_response-Underway platform headers fuel
                                (record {
                                  req = some req;
                                  code = HttpStatusCode.ok;
                                  headers = h4;
                                  body_size = body_size;
                                  body = none;
                                })
                                m9)))))))))

  if_some-Underway :
      {A : Type 0} (k : A → Cmd (State platform) (Unit {0}))
      → ((a : A) (m : State platform) → Leaves (Underway platform) (Broken platform) (k a m))
      → (r : Option A) (m : State platform) → Found r m
      → Leaves (Underway platform) (Broken platform) (if_some platform headers fuel r k m)
  if_some-Underway k next none m h = inl h
  if_some-Underway k next (some a) m h = next a m

  -- A step that runs only where the one before found something.
  then_some :
      {A : Type 0} (o : Outcome (State platform) (Option A))
      (k : A → Cmd (State platform) (Unit {0}))
      → Leaves Found (Broken platform) o
      → ((a : A) (m : State platform) → Leaves (Underway platform) (Broken platform) (k a m))
      → Leaves
          (Underway platform)
          (Broken platform)
          (and_then o (λ r. if_some platform headers fuel r k))
  then_some o k h next =
      Leaves-and_then Found (Broken platform) (Underway platform) (Broken platform) o _ h (λ s e. e)
        (if_some-Underway k next)

  serve_head_request-Underway :
      (req : HttpReq) (settings : ServerSettings) (m : State platform)
      → Leaves
          (Underway platform)
          (Broken platform)
          (serve_head_request platform headers fuel req settings m)
  unfolding serve_head_request
  serve_head_request-Underway req settings m =
      then_some _ _ (resolve_path-Found req.uri settings m) (λ path m1.
        then_some _ _ (get_file_info-Found path m1)
          (λ info m2. send_file_response-Underway req 0 info m2))

  file_opened-Underway :
      (req : HttpReq) (info : FileInfo) (r : Answer ℕ × Os) (m : State platform)
      → Leaves
          (Underway platform)
          (Broken platform)
          (file_opened platform headers fuel req info r m)
  unfolding file_opened
  file_opened-Underway req info (failed err, os) m =
      Leaves-mono (Finished platform) (Underway platform) (Broken platform) (Broken platform) _
        (error_response-Finished platform headers fuel appends (errno_status err)
          (record m { os = os }))
        (λ a s h. inl h) (λ s h. h)
  file_opened-Underway req info (got fd, os) m = elim (Option-cases m.client.file_fd) [
    | inl no_file ↦ rw no_file (
        send_file_response-Underway req info.size info
          (record m { os = os; client = record m.client { file_fd = some fd } }))
    | inr (n, eq) ↦ rw eq tt
  ]

  serve_get_request-Underway :
      (req : HttpReq) (settings : ServerSettings) (m : State platform)
      → Leaves
          (Underway platform)
          (Broken platform)
          (serve_get_request platform headers fuel req settings m)
  unfolding serve_get_request
  serve_get_request-Underway req settings m =
      then_some _ _ (resolve_path-Found req.uri settings m) (λ path m1.
        then_some _ _ (get_file_info-Found path m1)
          (λ info m2. file_opened-Underway req info (open_file path m2.os) m2))

  pub serve_request-Underway :
      (method : HttpMethod) (req : HttpReq) (settings : ServerSettings) (m : State platform)
      → Leaves
          (Underway platform)
          (Broken platform)
          (serve_request platform headers fuel method req settings m)
  unfolding serve_request
  serve_request-Underway get req settings m = serve_get_request-Underway req settings m
  serve_request-Underway head req settings m = serve_head_request-Underway req settings m
