-- ===== src/Handler/Flows.antt =====
-- The bytes of a file on their way through `process_request_write` (src/handler.c): sent, pending and unread.
use cn_cw.Common.{ℕ, ◌+◌, ◌<◌, ◌≤◌, ◌≡◌, ◌≢◌, refl, ◌∙◌, ◌⊎◌, some, ◌++◌, Bytes, length}
use cn_cw.Conn.{complete, err_unrecoverable, ConnectionState}
use cn_cw.Handler.{State, pending, give_up}
use cn_cw.Log.{LogLevel, error, stderr_fileno}
use cn_cw.Log.Bounds.{LogsFit, after_perror, log_perror_returns}
use cn_cw.Outcome.{Ensures}
use cn_cw.Platform.{Platform, failed, Errno, eagain, ewouldblock}
use cn_cw.Handler.Streams.{Streams, IsBuffered}

module _ (platform : Platform) (streams : Streams platform) (fit : LogsFit platform) where
  open platform use {Os, read, write, localtime, getpid}
  open streams use {
    unread, sent, read_got, read_end, read_failed, read_sent, write_got, write_failed, write_other,
    write_unread, localtime_same, getpid_same,
  }

  -- The connection sends file `f` to socket `s`, and what the socket has, what is pending and what
  -- the file still holds make up `total`.
  pub record Flows (f s : ℕ) (total : Bytes) (m : State platform) : Type 0 where
    pub file_is : m.client.file_fd ≡ some f
    pub sock_is : m.client.sock_fd ≡ s
    pub buffered : IsBuffered m.client
    pub conserved : sent m.os s ++ (pending m.client ++ unread m.os f) ≡ total

  -- How many bytes the socket still has to take.
  unfoldable pub to_send : ℕ → State platform → ℕ
  to_send f m = length (pending m.client) + length (unread m.os f)

  -- The socket's last answer was that it takes no bytes now, though there are some for it.
  pub record Blocked (s : ℕ) (m : State platform) : Type 0 where
    pub before : Os
    pub err : Errno
    pub refused : write s (pending m.client) before ≡ (failed err, m.os)
    pub would_block : (err ≡ eagain) ⊎ (err ≡ ewouldblock)
    pub bytes_left : m.client.read_buf_cursor < m.client.read_buf_len

  -- The loop's end: all sent and the connection complete, or the socket is full and the rest stays.
  unfoldable pub Stopped : ℕ → ℕ → Bytes → ConnectionState → State platform → Type 0
  Stopped f s total state m =
      Flows f s total m
      × (((m.client.state ≡ complete) × (sent m.os s ≡ total))
          ⊎ ((m.client.state ≡ state) × Blocked s m))

  -- A failed call: nothing is lost, and the connection cannot be used any more.
  unfoldable pub Broken : ℕ → ℕ → Bytes → State platform → Type 0
  Broken f s total m = Flows f s total m × (m.client.state ≡ err_unrecoverable)

  after_perror_same :
      (level : LogLevel) (err : Errno) (text : Bytes) (os : Os) (fd : ℕ)
      → stderr_fileno ≢ fd
      → (unread (after_perror platform level err text os) fd ≡ unread os fd)
        × (sent (after_perror platform level err text os) fd ≡ sent os fd)
  unfolding after_perror
  after_perror_same level err text os fd ne = (
    write_unread stderr_fileno _ _ fd ne
        ∙ (getpid_same (localtime os).1 fd).0
        ∙ (localtime_same os fd).0,
    write_other stderr_fileno _ _ fd ne
        ∙ (getpid_same (localtime os).1 fd).1
        ∙ (localtime_same os fd).1,
  )

  pub Flows-os :
      {f s : ℕ} {total : Bytes} {m : State platform} (os : Os)
      → Flows f s total m
      → unread os f ≡ unread m.os f
      → sent os s ≡ sent m.os s
      → Flows f s total (record m { os = os })
  Flows-os os w u e = record {
    file_is = w.file_is;
    sock_is = w.sock_is;
    buffered = w.buffered;
    conserved = rw (u, e) w.conserved;
  }

  pub Flows-state :
      {f s : ℕ} {total : Bytes} {m : State platform} (state : ConnectionState)
      → Flows f s total m
      → Flows f s total (record m { client = record m.client { state = state } })
  unfolding pending
  Flows-state state w = record {
    file_is = w.file_is;
    sock_is = w.sock_is;
    buffered = record {
      cursor_le = w.buffered.cursor_le;
      len_le = w.buffered.len_le;
      size_le = w.buffered.size_le;
      room = w.buffered.room;
    };
    conserved = w.conserved;
  }

  module _ (f s : ℕ) (total : Bytes) (f_ne : stderr_fileno ≢ f) (s_ne : stderr_fileno ≢ s) where
    pub give_up-Broken :
        {A : Type 0} (P : A → State platform → Type 0) (err : Errno) (text : Bytes)
        (m : State platform)
        → length text ≤ 1024
        → Flows f s total m
        → Ensures P (Broken f s total) (λ _. ⊥) (give_up platform err_unrecoverable err text m)
    unfolding give_up Broken
    give_up-Broken P err text m short w =
        let same = after_perror_same error err text m.os in
        let w' =
          Flows-os (after_perror platform error err text m.os) w (same f f_ne).0 (same s s_ne).1 in
        rw (log_perror_returns platform fit error err text m short)
          (Flows-state err_unrecoverable w', refl)
