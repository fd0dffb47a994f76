-- ===== src/Handler/Parsing.antt =====
-- What comes before the answers of src/handler.c: the read of the request and its parse, and the
-- state in which each leaves the connection.
use cn_cw.Common.{
  ℕ, ◌+◌, ◌-◌, ◌^◌, ◌≡◌, refl, ap, ◌∙◌, inl, inr, none, some, [], ◌∷◌, ltb, ◌==◌, Bool-cases,
  Option-cases, Bytes, length, replicate,
}
use cn_cw.Conn.{err_recoverable, Conn, ServerSettings}
use cn_cw.Handler.{State}
use cn_cw.Handler.Keeps.{Keeps, Never, same_client, server_alloc-Keeps}
use cn_cw.Handler.Serve.{request_read, read_req_data}
use cn_cw.Handler.States.{give_up-Jumps}
use cn_cw.Http.{HttpReq, parse_http_req}
use cn_cw.Http.Request.Allocates.{parse_http_req-Stable}
use cn_cw.Memory.{server_alloc, word}
use cn_cw.Outcome.{Leaves, Leaves-and_then, Leaves-mono, and_then}
use cn_cw.Platform.{Platform, Answer, got, failed}

module _ (platform : Platform) where
  open platform use {Os, read}

  pub parse_http_req-Keeps :
      (limit : ℕ) (str : Bytes) (req : HttpReq) (m : State platform)
      → Leaves (Keeps platform m.client) (Never platform) (parse_http_req platform limit str req m)
  parse_http_req-Keeps limit str req m =
      parse_http_req-Stable platform (λ s. s.client ≡ m.client) (same_client platform m.client)
        limit str req m refl

  -- The read of a request leaves the state of the connection, or jumps.
  abbrev pub Unmoved : {A : Type 0} → Conn → A → State platform → Type 0
  Unmoved c _ m = m.client.state ≡ c.state

  abbrev pub Recoverable : State platform → Type 0
  Recoverable m = m.client.state ≡ err_recoverable

  request_read-Unmoved :
      (size : ℕ) (r : Answer Bytes × Os) (m : State platform)
      → Leaves (Unmoved m.client) Recoverable (request_read platform size r m)
  unfolding request_read
  request_read-Unmoved size (failed err, os) m =
      give_up-Jumps platform err_recoverable err _ _ (Unmoved m.client)
  request_read-Unmoved size (got [], os) m = refl
  request_read-Unmoved size (got (b ∷ bs), os) m = elim (Bool-cases (ltb (length (b ∷ bs)) size)) [
    | inl fits ↦ rw fits refl
    | inr long ↦ rw long tt
  ]

  -- The read into a buffer that is allocated just before.
  buffer_read-Unmoved :
      (size : ℕ) (m : State platform)
      → Leaves (Unmoved m.client) Recoverable (
          and_then (server_alloc platform size m) (λ _ m1.
            let m2 : State platform = record m1 {
              client = record m1.client {
                read_buf = some (replicate size 0);
                read_buf_size = size;
              };
            } in
            request_read platform size
              (read m2.client.sock_fd (word (size + 2 ^ 64 - 1)) m2.os)
              m2))
  buffer_read-Unmoved size m =
      Leaves-and_then (Keeps platform m.client) (Never platform) (Unmoved m.client) Recoverable _ _
        (server_alloc-Keeps platform size m) (λ s h. absurd h)
        (λ _ m1 kept.
          let m2 : State platform = record m1 {
            client = record m1.client { read_buf = some (replicate size 0); read_buf_size = size };
          } in
          Leaves-mono (Unmoved m2.client) (Unmoved m.client) Recoverable Recoverable _
            (request_read-Unmoved size (read m2.client.sock_fd (word (size + 2 ^ 64 - 1)) m2.os) m2)
            (λ a s h. h ∙ ap (λ c. c.state) kept) (λ s h. h))

  pub read_req_data-Unmoved :
      (settings : ServerSettings) (m : State platform)
      → Leaves (Unmoved m.client) Recoverable (read_req_data platform settings m)
  unfolding read_req_data
  read_req_data-Unmoved settings m = elim (Option-cases m.client.read_buf) [
    | inl fresh ↦ rw fresh (elim (Bool-cases (m.client.read_buf_size == 0)) [
      | inl unset ↦ rw unset (
          buffer_read-Unmoved settings.read_buf_size
            (record m { client = record m.client { read_buf = none } }))
      | inr set ↦ rw set tt
    ])
    | inr (b, used) ↦ rw used tt
  ]
