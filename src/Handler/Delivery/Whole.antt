-- ===== src/Handler/Delivery/Whole.antt =====
-- `process_request` (src/handler.c) from the first byte of a request to the last of the answer.
use cn_cw.Common.{ℕ, ◌<◌, ◌≤◌, ◌^◌, ◌≡◌, ◌≢◌, refl, Bytes, length}
use cn_cw.Conn.{Conn, HttpHeader, ServerSettings}
use cn_cw.Handler.{State}
use cn_cw.Handler.Quiet.{Quiet, HasArena}
use cn_cw.Handler.Delivery.{IsFresh, Handled, Overlong}
use cn_cw.Handler.Delivery.Requests.{process_request-Handled}
use cn_cw.Handler.Response.Built.{Dates}
use cn_cw.Handler.Serve.{process_request}
use cn_cw.Handler.States.{Failed}
use cn_cw.Handler.Streams.{Streams, Progress}
use cn_cw.Http.{HttpReq}
use cn_cw.Log.{stderr_fileno}
use cn_cw.Log.Bounds.{LogsFit}
use cn_cw.Memory.Runs.{Runs}
use cn_cw.PgList.{PgList, Appends}
use cn_cw.Platform.{Platform, got}

-- Whatever comes on the socket of a connection that is new, `process_request` ends: by a return, by
-- `abort_req` with the connection's error noted, by an exit or a failed assertion in
-- src/memory.c, or, only where more than 4000 bytes came and they are no request line,
-- in an access outside of an object.
-- Where it returns, one of three things has happened.
-- The client sent nothing, and only the buffer is new. Or what came is the line of a request
-- whose URI is within the limit, and it is answered: with the head for a file that `realpath` finds
-- inside the static directory and `stat` describes, with its size and type, and for GET with the
-- bytes of the file behind the head, all of them or up to where the socket is full; or with the
-- status for a path outside, for an allocation of the arena that failed, or for the call that failed. Or it
-- is turned down, and then what came is no request line or its URI is over the limit, and the
-- status says what is wrong: no word or no URI, a word that is no method, a URI over the
-- limit, or else the version. Of a head the socket has a prefix, as long as its `write` said. The
-- read buffer has at least a byte and less than 2 ^ 62, the fuel is more than the size of any file,
-- the arena is set, standard error is not the socket, and the calls are as documented.
pub process_request-Delivered :
    (platform : Platform) (streams : Streams platform) (fit : LogsFit platform)
    (dates : Dates platform) (headers : PgList (platform.Os) HttpHeader Conn)
    (appends : Appends headers) (fuel : ℕ) (old : HttpReq) (settings : ServerSettings)
    (m : State platform) (quiet : Quiet platform streams headers m.client.sock_fd)
    (s_ne : stderr_fileno ≢ m.client.sock_fd)
    → Progress platform
    → ((path : Bytes) (os : platform.Os) (fd : ℕ) (os' : platform.Os)
        → platform.open_file path os ≡ (got fd, os')
        → length (streams.unread os' fd) < fuel)
    → 1 ≤ settings.read_buf_size
    → settings.read_buf_size < 2 ^ 62
    → IsFresh m.client
    → HasArena m.g_memory_arena
    → Runs
        (λ _. Handled platform streams fit settings (streams.sent m.os m.client.sock_fd) m.client)
        (Failed platform)
        (Overlong platform streams fit settings (streams.sent m.os m.client.sock_fd) m.client)
        (process_request platform headers fuel old settings m)
process_request-Delivered platform streams fit dates headers appends fuel old settings m quiet s_ne
      progress enough room small fresh set =
    process_request-Handled platform streams fit dates headers appends
      (streams.sent m.os m.client.sock_fd) m.client quiet s_ne fuel settings old m progress enough
      room small fresh refl refl set
