-- ===== src/Handler/Lasting.antt =====
-- Properties that last through src/handler.c: the rules for a connection and the system under which
-- its send loop and its responses keep a property, on every path.
pub mod Answers
pub mod Files
pub mod Reading
pub mod Requests
use cn_cw.Common.{
  length, ℕ, zero, suc, ◌≡◌, refl, inl, inr, Bool, true, false, Option, none, some, List, [], ◌∷◌,
  ltb, ◌==◌, ◌||◌, Bool-cases, Bytes, codes, take,
}
use cn_cw.Conn.{
  ConnectionState, complete, sending, err_unrecoverable, Conn, HttpHeader, HttpResponse,
}
use cn_cw.Handler.{
  State, bytes_at, overwrite, pending, give_up, refilled, refill, drained, drain, after_drain,
  after_refill, write_loop, write_file, process_request_write,
}
use cn_cw.Handler.Response.{
  Out, make_header, date_value, make_date_header, http_response_date, headers_only, body_written,
  send_body, flags_set, set_nonblocking, nonblocking_set, head_written, send_head, send_response,
  error_response, response_text,
}
use cn_cw.Http.{HttpReq}
use cn_cw.Http.Tables.{HttpStatusCode, http_status_code_int}
use cn_cw.Log.{error, info, log_msg}
use cn_cw.Machine.{Machine}
use cn_cw.Memory.Neutral.{
  Neutral, Stable, Stable-and_then, log_msg-Stable, log_perror-Stable, server_alloc-Stable,
  server_strdup-Stable,
}
use cn_cw.Outcome.{Outcome, Cmd, and_then, Leaves, Leaves-and_then}
use cn_cw.PgList.{PgList}
use cn_cw.Platform.{
  Platform, Answer, got, failed, Errno, eacces, enotdir, enoent, eagain, ewouldblock, eintr, other,
}

-- `I` is kept by each call that the handler makes to the system and the list package, and by each
-- change of the connection that leaves its descriptors alone; opening the file may rely on there
-- being none yet.
pub record Lasting (p : Platform) (headers : PgList (p.Os) HttpHeader Conn) (I : State p → Type 0)
    : Type 0 where
  pub neutral : Neutral p I
  pub after_write :
      (fd : ℕ) (bs : Bytes) (m : State p) → I m → I (record m { os = (p.write fd bs m.os).1 })
  pub after_gmtime : (m : State p) → I m → I (record m { os = (p.gmtime m.os).1 })
  pub after_read : (fd n : ℕ) (m : State p) → I m → I (record m { os = (p.read fd n m.os).1 })
  pub after_get_flags : (fd : ℕ) (m : State p) → I m → I (record m { os = (p.get_flags fd m.os).1 })
  pub after_set_flags :
      (fd n : ℕ) (m : State p) → I m → I (record m { os = (p.set_flags fd n m.os).1 })
  pub after_stat : (path : Bytes) (m : State p) → I m → I (record m { os = (p.stat path m.os).1 })
  pub after_realpath :
      (path : Bytes) (m : State p) → I m → I (record m { os = (p.realpath path m.os).1 })
  pub after_free : (a : ℕ) (m : State p) → I m → I (record m { os = p.free a m.os })
  pub after_open :
      (path : Bytes) (m : State p) (fd : ℕ) (os : p.Os)
      → p.open_file path m.os ≡ (got fd, os)
      → m.client.file_fd ≡ none
      → I m
      → I (record m { os = os; client = record m.client { file_fd = some fd } })
  pub after_open_failed :
      (path : Bytes) (m : State p) (e : Errno) (os : p.Os)
      → p.open_file path m.os ≡ (failed e, os)
      → I m
      → I (record m { os = os })
  pub after_lappend :
      (l : headers.Cells) (h : HttpHeader) (m : State p) → I m → Stable I (headers.lappend l h m)
  pub after_conn :
      (c : Conn) (m : State p)
      → c.sock_fd ≡ m.client.sock_fd
      → c.file_fd ≡ m.client.file_fd
      → I m
      → I (record m { client = c })

-- `I` holds where the outcome returns and where it jumps.
abbrev pub Lasts : {S A : Type 0} → (S → Type 0) → Outcome S A → Type 0
Lasts I o = Leaves (λ _. I) I o

pub Lasts-and_then :
    {S A B : Type 0} (I : S → Type 0) (o : Outcome S A) (k : A → Cmd S B)
    → Lasts I o
    → ((a : A) (s : S) → I s → Lasts I (k a s))
    → Lasts I (and_then o k)
Lasts-and_then I o k h next = Leaves-and_then (λ _. I) I (λ _. I) I o k h (λ s e. e) next

module _ (platform : Platform) (headers : PgList (platform.Os) HttpHeader Conn)
    (I : State platform → Type 0) (lasting : Lasting platform headers I) where
  open platform use {Os, read, write, gmtime, errno, get_flags, o_nonblock}
  open headers use {nil, lappend}
  open lasting use {
    neutral, after_gmtime, after_read, after_get_flags, after_set_flags, after_lappend, after_conn,
  }

  -- A step that never jumps, and what follows.
  pub then-Lasts :
      {A B : Type 0} (o : Outcome (State platform) A) (k : A → Cmd (State platform) B)
      → Stable I o
      → ((a : A) (m : State platform) → I m → Lasts I (k a m))
      → Lasts I (and_then o k)
  then-Lasts o k h next = Stable-and_then I (λ _. I) I o k h next

  pub give_up-Lasts :
      (A : Type 0) (s : ConnectionState) (err : Errno) (text : Bytes) (m : State platform)
      → I m
      → Lasts I (give_up platform {A = A} s err text m)
  unfolding give_up
  give_up-Lasts A s err text m h =
      then-Lasts _ _ (log_perror-Stable platform I neutral error err text m h)
        (λ _ m' h'. after_conn (record m'.client { state = s }) m' refl refl h')

  refilled-Lasts :
      (r : Answer Bytes × Os) (m : State platform)
      → I (record m { os = r.1 })
      → Lasts I (refilled platform r m)
  unfolding refilled
  refilled-Lasts (got [], os) m h =
      after_conn (record m.client { state = complete }) (record m { os = os }) refl refl h
  refilled-Lasts (got (b ∷ bs), os) m h =
      elim (Bool-cases (ltb (length (bytes_at m.client.read_buf)) (length (b ∷ bs)))) [
        | inl e ↦ rw e tt
        | inr e ↦ rw e (after_conn _ (record m { os = os }) refl refl h)
      ]
  refilled-Lasts (failed err, os) m h = give_up-Lasts _ _ err _ _ h

  refill-Lasts : (fd : ℕ) (m : State platform) → I m → Lasts I (refill platform fd m)
  unfolding refill
  refill-Lasts fd m h =
      elim (Bool-cases
        (m.client.read_buf_len == 0 || m.client.read_buf_cursor == m.client.read_buf_len)) [
          | inl written ↦ rw written (refilled-Lasts _ m (after_read fd _ m h))
          | inr left ↦ rw left h
        ]

  drained-Lasts :
      (r : Answer ℕ × Os) (m : State platform)
      → I (record m { os = r.1 })
      → Lasts I (drained platform r m)
  unfolding drained
  drained-Lasts (got n, os) m h = after_conn _ (record m { os = os }) refl refl h
  drained-Lasts (failed eagain, os) m h = h
  drained-Lasts (failed ewouldblock, os) m h = h
  drained-Lasts (failed eacces, os) m h = give_up-Lasts _ _ eacces _ _ h
  drained-Lasts (failed enotdir, os) m h = give_up-Lasts _ _ enotdir _ _ h
  drained-Lasts (failed enoent, os) m h = give_up-Lasts _ _ enoent _ _ h
  drained-Lasts (failed eintr, os) m h = give_up-Lasts _ _ eintr _ _ h
  drained-Lasts (failed other, os) m h = give_up-Lasts _ _ other _ _ h

  drain-Lasts : (m : State platform) → I m → Lasts I (drain platform m)
  unfolding drain
  drain-Lasts m h = elim (Bool-cases (ltb m.client.read_buf_cursor m.client.read_buf_len)) [
    | inl left ↦ rw left (drained-Lasts _ m (lasting.after_write _ _ m h))
    | inr none_left ↦ rw none_left tt
  ]

  after_drain-Lasts :
      (again : Cmd (State platform) (Unit {0}))
      → ((m : State platform) → I m → Lasts I (again m))
      → (stop : Bool) (m : State platform) → I m
      → Lasts I (after_drain platform again stop m)
  unfolding after_drain
  after_drain-Lasts again next true m h = h
  after_drain-Lasts again next false m h = next m h

  after_refill-Lasts :
      (again : Cmd (State platform) (Unit {0}))
      → ((m : State platform) → I m → Lasts I (again m))
      → (stop : Bool) (m : State platform) → I m
      → Lasts I (after_refill platform again stop m)
  unfolding after_refill
  after_refill-Lasts again next true m h = h
  after_refill-Lasts again next false m h =
      Lasts-and_then I _ _ (drain-Lasts m h) (after_drain-Lasts again next)

  write_loop-Lasts :
      (fuel fd : ℕ) (m : State platform) → I m → Lasts I (write_loop platform fuel fd m)
  unfolding write_loop
  write_loop-Lasts zero fd m h = tt
  write_loop-Lasts (suc fuel) fd m h =
      Lasts-and_then I _ _ (refill-Lasts fd m h) (after_refill-Lasts _ (write_loop-Lasts fuel fd))

  write_file-Lasts :
      (fuel : ℕ) (fd : Option ℕ) (m : State platform)
      → I m
      → Lasts I (write_file platform fuel fd m)
  unfolding write_file
  write_file-Lasts fuel none m h = tt
  write_file-Lasts fuel (some fd) m h = write_loop-Lasts fuel fd m h

  pub process_request_write-Lasts :
      (fuel : ℕ) (m : State platform) → I m → Lasts I (process_request_write platform fuel m)
  unfolding process_request_write
  process_request_write-Lasts fuel m h = write_file-Lasts fuel _ m h

  pub make_header-Stable :
      (name value : Bytes) (m : State platform) → I m → Stable I (make_header platform name value m)
  unfolding make_header
  make_header-Stable name value m h =
      Stable-and_then I (λ _. I) (λ _. ⊥) _ _ (server_alloc-Stable platform I neutral _ m h)
        (λ _ m' h'. h')

  date_value-Stable :
      (text : Option Bytes) (m : State platform) → I m → Stable I (date_value platform text m)
  unfolding date_value
  date_value-Stable none m h = tt
  date_value-Stable (some text) m h =
      Stable-and_then I (λ _. I) (λ _. ⊥) _ _ (server_strdup-Stable platform I neutral _ m h)
        (make_header-Stable _)

  pub make_date_header-Stable : (m : State platform) → I m → Stable I (make_date_header platform m)
  unfolding make_date_header
  make_date_header-Stable m h =
      date_value-Stable (http_response_date (gmtime m.os).0) (record m { os = (gmtime m.os).1 })
        (after_gmtime m h)
