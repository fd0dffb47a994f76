-- ===== src/Handler/Lasting/Reading.antt =====
-- The read of a request (src/handler.c) keeps what lasts.
use cn_cw.Common.{
  ℕ, ◌+◌, ◌-◌, ◌^◌, refl, inl, inr, none, some, [], ◌∷◌, ltb, ◌==◌, Bool-cases, Option-cases, Bytes,
  length, replicate,
}
use cn_cw.Conn.{err_recoverable, Conn, HttpHeader, ServerSettings}
use cn_cw.Handler.{State}
use cn_cw.Handler.Lasting.{Lasting, Lasts, then-Lasts, give_up-Lasts}
use cn_cw.Handler.Serve.{request_read, read_req_data}
use cn_cw.Memory.{word, server_alloc}
use cn_cw.Memory.Neutral.{Stable, server_alloc-Stable}
use cn_cw.Outcome.{Outcome, Cmd, and_then}
use cn_cw.PgList.{PgList}
use cn_cw.Platform.{Platform, Answer, got, failed}

module _ (platform : Platform) (headers : PgList (platform.Os) HttpHeader Conn)
    (I : State platform → Type 0) (lasting : Lasting platform headers I) where
  open platform use {Os, read, free, stat, realpath, open_file}
  open headers use {nil}
  open lasting use {
    neutral, after_read, after_stat, after_realpath, after_free, after_open, after_open_failed,
    after_lappend, after_conn,
  }

  then :
      {A B : Type 0} (o : Outcome (State platform) A) (k : A → Cmd (State platform) B)
      → Stable I o
      → ((a : A) (m : State platform) → I m → Lasts I (k a m))
      → Lasts I (and_then o k)
  then = then-Lasts platform headers I lasting

  request_read-Lasts :
      (size : ℕ) (r : Answer Bytes × Os) (m : State platform)
      → I (record m { os = r.1 })
      → Lasts I (request_read platform size r m)
  unfolding request_read
  request_read-Lasts size (failed err, os) m h =
      give_up-Lasts platform headers I lasting _ err_recoverable err _ _ h
  request_read-Lasts size (got [], os) m h = h
  request_read-Lasts size (got (b ∷ bs), os) m h = elim (Bool-cases (ltb (length (b ∷ bs)) size)) [
    | inl fits ↦ rw fits (after_conn _ (record m { os = os }) refl refl h)
    | inr long ↦ rw long tt
  ]

  buffer_read-Lasts :
      (size : ℕ) (m : State platform)
      → I m
      → Lasts I (
          and_then (server_alloc platform size m) (λ _ m1.
            let m2 : State platform = record m1 {
              client = record m1.client {
                read_buf = some (replicate size 0);
                read_buf_size = size;
              };
            } in
            request_read platform size
              (read m2.client.sock_fd (word (size + 2 ^ 64 - 1)) m2.os)
              m2))
  buffer_read-Lasts size m h =
      then _ _ (server_alloc-Stable platform I neutral size m h) (λ _ m1 h1.
        let m2 : State platform = record m1 {
          client = record m1.client { read_buf = some (replicate size 0); read_buf_size = size };
        } in
        request_read-Lasts size (read m2.client.sock_fd (word (size + 2 ^ 64 - 1)) m2.os) m2
          (after_read _ _ m2 (after_conn _ m1 refl refl h1)))

  pub read_req_data-Lasts :
      (settings : ServerSettings) (m : State platform)
      → I m
      → Lasts I (read_req_data platform settings m)
  unfolding read_req_data
  read_req_data-Lasts settings m h = elim (Option-cases m.client.read_buf) [
    | inl fresh ↦ rw fresh (elim (Bool-cases (m.client.read_buf_size == 0)) [
      | inl unset ↦ rw unset (
          buffer_read-Lasts settings.read_buf_size
            (record m { client = record m.client { read_buf = none } })
            (after_conn _ m refl refl h))
      | inr set ↦ rw set tt
    ])
    | inr (b, used) ↦ rw used tt
  ]
