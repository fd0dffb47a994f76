-- ===== src/Handler/Delivery/Reading.antt =====
-- The read of a request and its parse (src/handler.c, src/http.c), up to the answer: what came, and
-- whether it is a request line.
use cn_cw.Common.{
  ℕ, ◌+◌, ◌-◌, ◌^◌, ◌≤◌, ◌<◌, ◌≡◌, ◌≢◌, refl, sym, ap, subst, ◌∙◌, inl, none, some, [], ◌∷◌, ◌++◌,
  arith, lt→ltb, Bytes, codes, length, replicate,
}
use cn_cw.Conn.{err_recoverable, Conn, HttpHeader, ServerSettings}
use cn_cw.Handler.{State, overwrite, give_up}
use cn_cw.Handler.Quiet.{Quiet, HasArena, Here, Here-Building, Sent, Sent-Steady}
use cn_cw.Handler.Delivery.{IsFresh, received, buffered, Came}
use cn_cw.Handler.Response.Built.{Dates}
use cn_cw.Handler.Serve.{
  ReadReqData, read_ok, read_empty, read_too_large, c_string, request_read, read_req_data,
}
use cn_cw.Handler.States.{Failed}
use cn_cw.Handler.Streams.{Streams}
use cn_cw.Log.{error, stderr_fileno}
use cn_cw.Log.Bounds.{LogsFit}
use cn_cw.Memory.{word, server_alloc}
use cn_cw.Memory.Neutral.{any}
use cn_cw.Memory.Proper.{Proper, Proper-and_then, log_perror-Proper, server_alloc-Proper}
use cn_cw.Outcome.{and_then}
use cn_cw.PgList.{PgList, Appends}
use cn_cw.Platform.{Platform, Answer, got, failed, Errno}

pub length-c_string : (s : Bytes) → length (c_string (s ++ 0 ∷ [])) ≤ length s
unfolding c_string
length-c_string [] = omega arith
length-c_string (x ∷ xs) = ground (arith, length-c_string xs)

buffer_length : (size : ℕ) → 1 ≤ size → size < 2 ^ 62 → word (size + 2 ^ 64 - 1) ≡ size - 1
buffer_length size h k = omega arith

module _ (platform : Platform) (streams : Streams platform) (fit : LogsFit platform)
    (dates : Dates platform) (headers : PgList (platform.Os) HttpHeader Conn)
    (appends : Appends headers) (w : Bytes) (c : Conn)
    (quiet : Quiet platform streams headers c.sock_fd) (s_ne : stderr_fileno ≢ c.sock_fd)
    (settings : ServerSettings) where
  open platform use {Os, read}
  open streams use {unread, sent}

  abbrev pub At : Conn → State platform → Type 0
  At k = Here platform streams (Sent platform streams c.sock_fd w) k

  abbrev pub Read : ReadReqData → State platform → Type 0
  Read (read_ok text) m =
      (bs : Bytes) × Came platform streams settings.read_buf_size c bs
      × (bs ≢ [])
      × (length bs < settings.read_buf_size)
      × (text ≡ c_string (bs ++ 0 ∷ []))
      × At (received c settings.read_buf_size bs) m
  Read read_empty m =
      Came platform streams settings.read_buf_size c [] × At (buffered c settings.read_buf_size) m
  Read read_too_large m = ⊥

  give_up-Failed :
      (err : Errno) (m : State platform)
      → Proper Read
          (Failed platform)
          (give_up platform err_recoverable err (codes "read socket failed") m)
  unfolding give_up
  give_up-Failed err m =
      Proper-and_then (λ _ _. Unit {0}) Read (Failed platform) _ _
        (log_perror-Proper platform fit (Failed platform) (λ _. Unit {0}) (any platform) error err
          (codes "read socket failed") m (omega arith) tt)
        (λ a s h. inl refl)

  filled_client :
      (bs : Bytes) (size : ℕ) (k : Conn)
      → k ≡ buffered c size
      → ◌≡◌ {A = Conn}
          (record k { read_buf = some (overwrite (replicate size 0) (bs ++ 0 ∷ [])) })
          (received c size bs)
  filled_client bs size k e = rw e refl

  request_read-Read :
      (r : Answer Bytes) (os : Os) (m : State platform)
      → 1 ≤ settings.read_buf_size
      → At (buffered c settings.read_buf_size) m
      → read c.sock_fd (settings.read_buf_size - 1) m.os ≡ (r, os)
      → Proper Read (Failed platform) (request_read platform settings.read_buf_size (r, os) m)
  unfolding request_read
  request_read-Read (failed err) os m room h e = give_up-Failed err (record m { os = os })
  request_read-Read (got []) os m room (is_c, k, set) e = (
    (m.os, ap (λ r. r.0) e),
    (
      is_c,
      ap (λ r. sent r.1 c.sock_fd) (sym e) ∙ streams.read_sent c.sock_fd _ m.os c.sock_fd ∙ k,
      set,
    ),
  )
  request_read-Read (got (b ∷ bs)) os m room (is_c, k, set) e =
      let size = settings.read_buf_size in
      let short : length (b ∷ bs) < size =
        omega (arith, (streams.read_got c.sock_fd (size - 1) m.os e).1) in
      rw (lt→ltb (length (b ∷ bs)) size short) (
        b ∷ bs,
        (m.os, ap (λ r. r.0) e),
        (λ h. cc),
        short,
        refl,
        (
          filled_client (b ∷ bs) size m.client is_c,
          ap (λ r. sent r.1 c.sock_fd) (sym e) ∙ streams.read_sent c.sock_fd _ m.os c.sock_fd ∙ k,
          set,
        ),
      )

  buffered_client :
      (size : ℕ) (j k : Conn) → j ≡ k → ◌≡◌ {A = Conn} (buffered j size) (buffered k size)
  buffered_client size j k e = rw e refl

  -- The read into a buffer that is allocated just before.
  buffer_read-Read :
      (m : State platform)
      → 1 ≤ settings.read_buf_size
      → settings.read_buf_size < 2 ^ 62
      → ◌≡◌ {A = Conn}
          (buffered m.client settings.read_buf_size)
          (buffered c settings.read_buf_size)
      → sent m.os c.sock_fd ≡ w
      → HasArena m.g_memory_arena
      → Proper Read (Failed platform) (
          and_then (server_alloc platform settings.read_buf_size m) (λ _ m1.
            let m2 : State platform = record m1 {
              client = record m1.client {
                read_buf = some (replicate settings.read_buf_size 0);
                read_buf_size = settings.read_buf_size;
              };
            } in
            request_read platform settings.read_buf_size
              (read m2.client.sock_fd (word (settings.read_buf_size + 2 ^ 64 - 1)) m2.os)
              m2))
  buffer_read-Read m room small is_c k set =
      let size = settings.read_buf_size in
      let building =
        Here-Building platform streams headers c.sock_fd (Sent platform streams c.sock_fd w)
          m.client appends quiet (Sent-Steady platform streams c.sock_fd w s_ne) in
      Proper-and_then (λ _. At m.client) Read (Failed platform) _ _
        (server_alloc-Proper platform fit (Failed platform) (At m.client) building.neutral size m
          (refl, k, set))
        (λ _ m1 (kept, k1, set1).
          let m2 : State platform = record m1 { client = buffered m1.client size } in
          let same = buffered_client size m1.client m.client kept ∙ is_c in
          let go = request_read-Read _ _ m2 room (same, k1, set1) refl in
          subst
            (λ n.
              Proper Read (Failed platform)
                (request_read platform size (read m1.client.sock_fd n m1.os) m2))
            (sym (buffer_length size room small))
            (subst
              (λ s.
                Proper Read (Failed platform)
                  (request_read platform size (read s (size - 1) m1.os) m2))
              (sym (ap (λ k. k.sock_fd) same)) go))

  pub read_req_data-Read :
      (m : State platform)
      → 1 ≤ settings.read_buf_size
      → settings.read_buf_size < 2 ^ 62
      → IsFresh c
      → At c m
      → Proper Read (Failed platform) (read_req_data platform settings m)
  unfolding read_req_data
  read_req_data-Read m room small fresh (is_c, k, set) =
      rw
        (
          ap (λ k. k.read_buf) is_c ∙ fresh.no_buffer,
          ap (λ k. k.read_buf_size) is_c ∙ fresh.no_size,
        )
        (buffer_read-Read
          (record m { client = record m.client { read_buf = none; read_buf_size = 0 } }) room small
          (buffered_client settings.read_buf_size m.client c is_c) k set)
