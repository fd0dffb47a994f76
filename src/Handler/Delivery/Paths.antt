-- ===== src/Handler/Delivery/Paths.antt =====
-- The file that a request names (`resolve_path` and `get_file_info`, src/handler.c), or the answer
-- that refuses it.
use cn_cw.Common.{
  ℕ, ◌+◌, ◌^◌, ◌<◌, ◌≡◌, ◌≢◌, refl, ap, subst, ◌∙◌, inl, inr, Option, none, some, ◌∷◌, ◌++◌, arith,
  Bool-cases, Bytes, codes, length, take,
}
use cn_cw.Conn.{Conn, HttpHeader, ServerSettings}
use cn_cw.Handler.{State}
use cn_cw.Handler.Quiet.{Same, Quiet, HasArena}
use cn_cw.Handler.Delivery.{
  Resolves, Located, Refusal, unresolved, outside, no_memory, no_info, Refused, Gone,
}
use cn_cw.Handler.Delivery.Errors.{Waits, Waits-Building, ErrorSent, error_response-Sent}
use cn_cw.Handler.Response.{error_response}
use cn_cw.Handler.Response.Built.{Building, Dates}
use cn_cw.Handler.Asked.{errno_status-StatusOf, requested_name-Names, not_Begins}
use cn_cw.Handler.Paths.{in_static_dir-Prefix}
use cn_cw.Handler.Serve.{
  FileInfo, errno_status, requested_name, in_static_dir, file_info, get_file_info, copy_path,
  arena_copy, resolved, resolve_path,
}
use cn_cw.Handler.Streams.{Streams}
use cn_cw.Http.Tables.{HttpStatusCode, forbidden, internal_server_error}
use cn_cw.Log.{warn, stderr_fileno}
use cn_cw.Log.Bounds.{LogsFit}
use cn_cw.Machine.{Arena}
use cn_cw.Memory.{request_memory}
use cn_cw.Memory.Proper.{
  Proper, Proper-and_then, Proper-mono, Proper-returned, log_msg-Proper, request_memory-Proper,
}
use cn_cw.Outcome.{returns, and_then}
use cn_cw.PgList.{PgList, Appends}
use cn_cw.Platform.{Platform, Answer, got, failed}

module _ (platform : Platform) (streams : Streams platform) (fit : LogsFit platform)
    (dates : Dates platform) (headers : PgList (platform.Os) HttpHeader Conn)
    (appends : Appends headers) (w : Bytes) (c : Conn)
    (quiet : Quiet platform streams headers c.sock_fd) (s_ne : stderr_fileno ≢ c.sock_fd) (fuel : ℕ)
    (settings : ServerSettings) (uri : Bytes) where
  open platform use {Os, stat, realpath, free}

  abbrev WaitsIs : State platform → Type 0
  WaitsIs = Waits platform streams fit dates headers appends w c quiet s_ne

  building : Building platform headers WaitsIs
  building = Waits-Building platform streams fit dates headers appends w c quiet s_ne

  abbrev pub Refuses : State platform → Type 0
  Refuses = Refused platform streams settings.static_dir uri w c

  pub Waits-os :
      (m : State platform) (os : Os)
      → Same platform streams m.os os
      → WaitsIs m
      → WaitsIs (record m { os = os })
  Waits-os m os same (e, k, a) = (e, (same c.sock_fd).1 ∙ k, a)

  pub error_response-Refused :
      (code : HttpStatusCode) (m : State platform)
      → Refusal platform streams settings.static_dir uri code
      → WaitsIs m
      → Proper (λ _. Refuses) (Gone platform streams) (error_response platform headers fuel code m)
  error_response-Refused code m why h =
      Proper-mono (λ _. ErrorSent platform streams fit dates headers appends w c quiet s_ne code)
        (λ _. Refuses) (Gone platform streams) _
        (error_response-Sent platform streams fit dates headers appends w c quiet s_ne fuel code m
          h)
        (λ _ m2 (date, d, sent). (code, date, why, d, sent))

  -- What a step hands on, unless the request is refused.
  abbrev pub OrRefused :
      {A : Type 0} → (A → State platform → Type 0) → Option A → State platform → Type 0
  OrRefused P none m = Refuses m
  OrRefused P (some a) m = P a m

  -- A refusal, and what is done behind it.
  refused :
      {A : Type 0} (P : A → State platform → Type 0) (code : HttpStatusCode) (m : State platform)
      (k : State platform → State platform)
      → Refusal platform streams settings.static_dir uri code
      → WaitsIs m
      → ((m' : State platform) → Refuses m' → Refuses (k m'))
      → Proper
          (OrRefused P)
          (Gone platform streams)
          (and_then (error_response platform headers fuel code m) (λ _ m'. returns none (k m')))
  refused P code m k why h keeps =
      Proper-and_then (λ _. Refuses) (OrRefused P) (Gone platform streams) _ _
        (error_response-Refused code m why h) (λ _ m' r. keeps m' r)

  abbrev pub PathFound : Bytes → State platform → Type 0
  PathFound full_path m = Resolves platform streams settings.static_dir uri full_path × WaitsIs m

  copy_path-Found :
      (p : ℕ) (full_path : Bytes) (r : Option ℕ) (arena : Arena) (before m : State platform)
      → request_memory platform (some arena) (length full_path + 1) before ≡ returns r m
      → PathFound full_path m
      → Proper
          (OrRefused PathFound)
          (Gone platform streams)
          (copy_path platform headers fuel p full_path r m)
  unfolding copy_path
  copy_path-Found p full_path none arena before m e (found, h) =
      refused PathFound internal_server_error (record m { os = free p m.os }) (λ m'. m')
        (no_memory arena before m found e) (Waits-os m _ (quiet.free_same p m.os) h) (λ m' r. r)
  copy_path-Found p full_path (some _) arena before m e (found, h) =
      (found, Waits-os m _ (quiet.free_same p m.os) h)

  arena_copy-Found :
      (p : ℕ) (full_path : Bytes) (arena : Option Arena) (m : State platform)
      → HasArena arena
      → PathFound full_path m
      → Proper
          (OrRefused PathFound)
          (Gone platform streams)
          (arena_copy platform headers fuel p full_path arena m)
  unfolding arena_copy
  arena_copy-Found p full_path none m set h = absurd set
  arena_copy-Found p full_path (some arena) m set (found, h) =
      let asking = request_memory platform (some arena) (length full_path + 1) m in
      Proper-and_then (λ r m'. WaitsIs m' × (asking ≡ returns r m')) (OrRefused PathFound)
        (Gone platform streams) asking _
        (Proper-returned (λ _. WaitsIs) (Gone platform streams) asking
          (request_memory-Proper platform fit (Gone platform streams) WaitsIs building.neutral
            (some arena) (length full_path + 1) m h))
        (λ r m' (h', e). copy_path-Found p full_path r arena m m' e (found, h'))

  freed-Refuses : (p : ℕ) (m : State platform) → Refuses m → Refuses (record m { os = free p m.os })
  freed-Refuses p m (code, date, why, d, sent) = (
    code,
    date,
    why,
    d,
    record {
      count = sent.count;
      took = sent.took;
      got_head = (quiet.free_same p m.os c.sock_fd).1 ∙ sent.got_head;
      is_complete = sent.is_complete;
    },
  )

  abbrev asked : Bytes
  asked = take 4095 (settings.static_dir ++ b'/' ∷ requested_name uri)

  resolved-Found :
      (r : Answer (ℕ × Bytes)) (os : Os) (m : State platform)
      → realpath asked m.os ≡ (r, os)
      → WaitsIs m
      → Proper
          (OrRefused PathFound)
          (Gone platform streams)
          (resolved platform headers fuel settings (r, os) m)
  unfolding resolved
  resolved-Found (failed err) os m e h =
      let same : Same platform streams m.os os =
        subst (λ r. Same platform streams m.os r.1) e (quiet.realpath_same asked m.os) in
      refused PathFound (errno_status err) (record m { os = os }) (λ m'. m')
        (unresolved (requested_name uri) m.os err (errno_status err) (requested_name-Names uri)
          (errno_status-StatusOf err) (ap (λ r. r.0) e))
        (Waits-os m os same h) (λ m' r. r)
  resolved-Found (got (p, full_path)) os m e h =
      let same : Same platform streams m.os os =
        subst (λ r. Same platform streams m.os r.1) e (quiet.realpath_same asked m.os) in
      let h' = Waits-os m os same h in
      let real = ap (λ r. r.0) e in
      elim (Bool-cases (in_static_dir settings.static_dir full_path)) [
        | inl inside ↦ rw inside (
            arena_copy-Found p full_path m.g_memory_arena (record m { os = os }) h.2
              (
                record {
                  name = requested_name uri;
                  names = requested_name-Names uri;
                  at_path = m.os;
                  address = p;
                  real = real;
                  inside = (in_static_dir-Prefix settings.static_dir full_path).0 inside;
                },
                h',
              ))
        | inr out ↦ rw out (
            Proper-and_then (λ _. Refuses) (OrRefused PathFound) (Gone platform streams) _ _
              (Proper-and_then (λ _. WaitsIs) (λ _. Refuses) (Gone platform streams) _ _
                (log_msg-Proper platform fit (Gone platform streams) WaitsIs building.neutral warn
                  (codes "attempt to access file outside of static directory")
                  (record m { os = os }) (omega arith) h')
                (λ _ m1 h1.
                  error_response-Refused forbidden m1
                    (outside (requested_name uri) m.os p full_path (requested_name-Names uri) real
                      (not_Begins settings.static_dir full_path out))
                    h1))
              (λ _ m2 r. freed-Refuses p m2 r))
      ]

  pub resolve_path-Found :
      (m : State platform)
      → WaitsIs m
      → Proper
          (OrRefused PathFound)
          (Gone platform streams)
          (resolve_path platform headers fuel uri settings m)
  unfolding resolve_path
  resolve_path-Found m h = resolved-Found _ _ m refl h

  abbrev pub InfoFound : Bytes → FileInfo → State platform → Type 0
  InfoFound full_path info m =
      Located platform streams settings.static_dir uri full_path info
      × (info.size < 2 ^ 63)
      × WaitsIs m

  file_info-Found :
      (full_path : Bytes) (r : Answer ℕ) (os : Os) (m : State platform)
      → stat full_path m.os ≡ (r, os)
      → PathFound full_path m
      → Proper
          (OrRefused (InfoFound full_path))
          (Gone platform streams)
          (file_info platform headers fuel full_path (r, os) m)
  unfolding file_info
  file_info-Found full_path (failed err) os m e (found, h) =
      let same : Same platform streams m.os os =
        subst (λ r. Same platform streams m.os r.1) e (quiet.stat_same full_path m.os) in
      refused (InfoFound full_path) (errno_status err) (record m { os = os }) (λ m'. m')
        (no_info m.os err (errno_status err) (errno_status-StatusOf err) found (ap (λ r. r.0) e))
        (Waits-os m os same h) (λ m' r. r)
  file_info-Found full_path (got size) os m e (found, h) =
      let same : Same platform streams m.os os =
        subst (λ r. Same platform streams m.os r.1) e (quiet.stat_same full_path m.os) in
      (
        record { path = found; at_info = m.os; has_size = ap (λ r. r.0) e; has_type = refl },
        quiet.stat_size full_path m.os e,
        Waits-os m os same h,
      )

  pub get_file_info-Found :
      (full_path : Bytes) (m : State platform)
      → PathFound full_path m
      → Proper
          (OrRefused (InfoFound full_path))
          (Gone platform streams)
          (get_file_info platform headers fuel full_path m)
  unfolding get_file_info
  get_file_info-Found full_path m h = file_info-Found full_path _ _ m refl h
