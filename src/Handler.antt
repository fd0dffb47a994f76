-- ===== src/Handler.antt =====
-- src/handler.c: one request from the read of its line to the last byte of the response.
pub mod Answers
pub mod Asked
pub mod Delivery
pub mod Descriptors
pub mod Files
pub mod Keeps
pub mod Lasting
pub mod Parsing
pub mod Paths
pub mod Quiet
pub mod Response
pub mod Flows
pub mod Moves
pub mod Rounds
pub mod Serve
pub mod States
pub mod Stream
pub mod Streams
pub mod Verdicts
pub mod Visits
use cn_cw.Common.{
  ℕ, zero, suc, ◌+◌, ◌-◌, Bool, true, false, Option, none, some, [], ◌∷◌, ◌++◌, ltb, ◌==◌, ◌||◌,
  if◌then◌else◌, Bytes, length, take, drop, codes,
}
use cn_cw.Conn.{ConnectionState, complete, err_unrecoverable, Conn}
use cn_cw.Log.{error, log_perror}
use cn_cw.Machine.{Machine}
use cn_cw.Outcome.{handler_c, returns, jumps, asserts, overruns, spins, Cmd, and_then}
use cn_cw.Platform.{Platform, Answer, got, failed, Errno, eagain, ewouldblock}

-- What is in a buffer after `data` is read to its start.
unfoldable pub overwrite : Bytes → Bytes → Bytes
overwrite buf bytes = bytes ++ drop (length bytes) buf

-- The bytes of a null pointer: none.
abbrev pub bytes_at : Option Bytes → Bytes
bytes_at none = []
bytes_at (some s) = s

-- The bytes of the buffer between the cursor and the length.
unfoldable pub pending : Conn → Bytes
pending c = take (c.read_buf_len - c.read_buf_cursor) (drop c.read_buf_cursor (bytes_at c.read_buf))

module _ (platform : Platform) where
  open platform use {Os, read, write}

  abbrev pub State : Type 0
  State = Machine Os Conn

  -- `log_perror`, a new state of the connection, and `abort_req`.
  unfoldable pub give_up : {A : Type 0} → ConnectionState → Errno → Bytes → Cmd State A
  give_up s err text m =
      and_then (log_perror platform error err text m)
        (λ _ m'. jumps (record m' { client = record m'.client { state = s } }))

  -- What the file's next bytes do to the connection: `true` ends the loop. Bytes that the buffer
  -- cannot hold are stored behind it.
  unfoldable pub refilled : Answer Bytes × Os → Cmd State Bool
  unfolding give_up
  refilled (got [], os) m =
      returns true (record m { os = os; client = record m.client { state = complete } })
  refilled (got (b ∷ bs), os) m =
      if ltb (length (bytes_at m.client.read_buf)) (length (b ∷ bs))
      then overruns (record m { os = os })
      else returns false (record m {
        os = os;
        client = record m.client {
          read_buf = some (overwrite (bytes_at m.client.read_buf) (b ∷ bs));
          read_buf_len = length (b ∷ bs);
          read_buf_cursor = 0;
        };
      })
  refilled (failed err, os) m =
      give_up err_unrecoverable err (codes "failed to read from file") (record m { os = os })

  -- The first half of a round: read from the file when all of the buffer is written.
  unfoldable pub refill : ℕ → Cmd State Bool
  unfolding refilled
  refill file_fd m =
      let c = m.client in
      if c.read_buf_len == 0 || c.read_buf_cursor == c.read_buf_len
      then refilled (read file_fd c.read_buf_size m.os) m
      else returns false m

  -- What the socket's answer does: `true` ends the loop.
  unfoldable pub drained : Answer ℕ × Os → Cmd State Bool
  unfolding give_up
  drained (got n, os) m = returns false (record m {
    os = os;
    client = record m.client { read_buf_cursor = m.client.read_buf_cursor + n };
  })
  drained (failed eagain, os) m = returns true (record m { os = os })
  drained (failed ewouldblock, os) m = returns true (record m { os = os })
  drained (failed err, os) m =
      give_up err_unrecoverable err (codes "failed to write to socket") (record m { os = os })

  -- The second half of a round: write what is left of the buffer.
  unfoldable pub drain : Cmd State Bool
  unfolding drained pending
  drain m =
      if ltb m.client.read_buf_cursor m.client.read_buf_len
      then drained (write m.client.sock_fd (pending m.client) m.os) m
      else asserts handler_c m

  -- The rest of a round; `again` is the next one.
  unfoldable pub after_drain : Cmd State (Unit {0}) → Bool → Cmd State (Unit {0})
  after_drain again true m = returns tt m
  after_drain again false m = again m

  unfoldable pub after_refill : Cmd State (Unit {0}) → Bool → Cmd State (Unit {0})
  after_refill again true m = returns tt m
  after_refill again false m = and_then (drain m) (after_drain again)

  -- The `for (;;)` of `process_request_write`, on fuel.
  unfoldable pub write_loop : ℕ → ℕ → Cmd State (Unit {0})
  write_loop zero file_fd m = spins m
  write_loop (suc fuel) file_fd m =
      and_then (refill file_fd m) (after_refill (write_loop fuel file_fd))

  unfoldable pub write_file : ℕ → Option ℕ → Cmd State (Unit {0})
  write_file fuel none m = asserts handler_c m
  write_file fuel (some file_fd) m = write_loop fuel file_fd m

  unfoldable pub process_request_write : ℕ → Cmd State (Unit {0})
  process_request_write fuel m = write_file fuel m.client.file_fd m
