-- ===== src/Handler/Streams.antt =====
-- Files and sockets as `process_request_write` (src/handler.c) uses them, and its buffer between.
use cn_cw.Common.{
  ℕ, suc, ◌+◌, ◌-◌, ◌<◌, ◌≤◌, ◌≡◌, ◌≢◌, refl, ap, ◌∙◌, some, [], ◌∷◌, ◌++◌, arith, Bytes, length,
  take, drop, length-append, length-take, length-drop, take-append, drop-add, take-drop,
}
use cn_cw.Conn.{Conn}
use cn_cw.Handler.{bytes_at, overwrite, pending}
use cn_cw.Platform.{Platform, got, failed, Errno}

-- What is left of an open file, and what a socket has taken, with the documented effect of `read`
-- and `write` on them; the calls of the log touch neither.
pub record Streams (p : Platform) : Type 0 where
  pub unread : p.Os → ℕ → Bytes
  pub sent : p.Os → ℕ → Bytes
  pub read_got :
      (fd n : ℕ) (os : p.Os) {bs : Bytes} {os' : p.Os}
      → p.read fd n os ≡ (got bs, os')
      → (unread os fd ≡ bs ++ unread os' fd) × (length bs ≤ n)
  pub read_end :
      (fd n : ℕ) (os : p.Os) {os' : p.Os}
      → p.read fd n os ≡ (got [], os')
      → 0 < n
      → unread os fd ≡ []
  pub read_failed :
      (fd n : ℕ) (os : p.Os) {e : Errno} {os' : p.Os}
      → p.read fd n os ≡ (failed e, os')
      → unread os' fd ≡ unread os fd
  pub read_sent : (fd n : ℕ) (os : p.Os) (s : ℕ) → sent (p.read fd n os).1 s ≡ sent os s
  pub write_got :
      (s : ℕ) (bs : Bytes) (os : p.Os) {n : ℕ} {os' : p.Os}
      → p.write s bs os ≡ (got n, os')
      → (sent os' s ≡ sent os s ++ take n bs) × (n ≤ length bs)
  pub write_failed :
      (s : ℕ) (bs : Bytes) (os : p.Os) {e : Errno} {os' : p.Os}
      → p.write s bs os ≡ (failed e, os')
      → sent os' s ≡ sent os s
  pub write_other :
      (s : ℕ) (bs : Bytes) (os : p.Os) (t : ℕ) → s ≢ t → sent (p.write s bs os).1 t ≡ sent os t
  pub write_unread :
      (s : ℕ) (bs : Bytes) (os : p.Os) (f : ℕ) → s ≢ f → unread (p.write s bs os).1 f ≡ unread os f
  pub localtime_same :
      (os : p.Os) (fd : ℕ)
      → (unread (p.localtime os).1 fd ≡ unread os fd) × (sent (p.localtime os).1 fd ≡ sent os fd)
  pub getpid_same :
      (os : p.Os) (fd : ℕ)
      → (unread (p.getpid os).1 fd ≡ unread os fd) × (sent (p.getpid os).1 fd ≡ sent os fd)

-- A write of some bytes that does not fail takes at least one.
unfoldable pub Progress : Platform → Type 0
Progress p =
    (s : ℕ) (bs : Bytes) (os : p.Os) (n : ℕ) (os' : p.Os)
    → p.write s bs os ≡ (got n, os')
    → 0 < length bs
    → 0 < n

-- The buffer holds what the counters say, and has its size, which is not 0.
pub record IsBuffered (c : Conn) : Type 0 where
  pub cursor_le : c.read_buf_cursor ≤ c.read_buf_len
  pub len_le : c.read_buf_len ≤ length (bytes_at c.read_buf)
  pub size_le : c.read_buf_size ≤ length (bytes_at c.read_buf)
  pub room : 0 < c.read_buf_size

pub length-pending :
    {c : Conn} → IsBuffered c → length (pending c) ≡ c.read_buf_len - c.read_buf_cursor
unfolding pending
length-pending {c} b = omega (
  arith,
  length-take (c.read_buf_len - c.read_buf_cursor) (drop c.read_buf_cursor (bytes_at c.read_buf)),
  length-drop c.read_buf_cursor (bytes_at c.read_buf),
  b.cursor_le,
  b.len_le,
)

pub pending-overwrite :
    (c : Conn) (b : ℕ) (bs : Bytes)
    → pending (record c {
      read_buf = some (overwrite (bytes_at c.read_buf) (b ∷ bs));
      read_buf_len = length (b ∷ bs);
      read_buf_cursor = 0;
    })
      ≡ b ∷ bs
unfolding pending overwrite
pending-overwrite c b bs =
    let all : suc (length bs) - 0 ≡ suc (length bs) = omega arith in
    ap (λ k. take k ((b ∷ bs) ++ drop (length (b ∷ bs)) (bytes_at c.read_buf))) all
    ∙ take-append (b ∷ bs) (drop (length (b ∷ bs)) (bytes_at c.read_buf))

pub length-overwrite : (buf bs : Bytes) → length bs ≤ length (overwrite buf bs)
unfolding overwrite
length-overwrite buf bs = omega (arith, length-append bs (drop (length bs) buf))

pub length-overwrite_ge : (buf bs : Bytes) → length buf ≤ length (overwrite buf bs)
unfolding overwrite
length-overwrite_ge buf bs =
    omega (arith, length-append bs (drop (length bs) buf), length-drop (length bs) buf)

pub nil_of_length : (s : Bytes) → length s ≡ 0 → s ≡ []
nil_of_length [] h = refl
nil_of_length (x ∷ xs) h = absurd (omega arith)

pub pending-advance :
    (c : Conn) (n : ℕ)
    → n ≤ c.read_buf_len - c.read_buf_cursor
    → pending (record c { read_buf_cursor = c.read_buf_cursor + n }) ≡ drop n (pending c)
unfolding pending
pending-advance c n h =
    ap (λ k. take k (drop (c.read_buf_cursor + n) (bytes_at c.read_buf))) (omega arith)
    ∙ ap (take (c.read_buf_len - c.read_buf_cursor - n))
        (drop-add c.read_buf_cursor n (bytes_at c.read_buf))
    ∙ take-drop (c.read_buf_len - c.read_buf_cursor) n
        (drop c.read_buf_cursor (bytes_at c.read_buf)) h
