-- ===== src/Conn.antt =====
-- `struct active_connection`, `struct server_settings` and the response structs of src/server.h.
use cn_cw.Common.{ℕ, Bool, Option, Bytes}
use cn_cw.Http.{HttpReq}
use cn_cw.Http.Tables.{HttpStatusCode}
use cn_cw.Log.{LogLevel}

pub data ConnectionState : Type 0 where
  waiting sending complete err_recoverable err_unrecoverable : ConnectionState

-- A file descriptor of -1 and a null buffer are `none`; a buffer is its bytes. The arena of the
-- connection stands in the machine, where `g_memory_arena` points to it.
pub record Conn : Type 0 where
  pub state : ConnectionState
  pub sock_fd : ℕ
  pub file_fd : Option ℕ
  pub read_buf_size : ℕ
  pub read_buf_len : ℕ
  pub read_buf_cursor : ℕ
  pub read_buf : Option Bytes

-- No caller gives a negative `listen_backlog`, and nothing reads the last two.
pub record ServerSettings : Type 0 where
  pub uri_length_limit : ℕ
  pub host : Bytes
  pub port : ℕ
  pub process_count : ℕ
  pub listen_backlog : ℕ
  pub read_buf_size : ℕ
  pub req_size_limit : ℕ
  pub static_dir : Bytes
  pub log_level : LogLevel
  pub log_filename : Option Bytes
  pub log_to_stdout : Bool

pub record HttpHeader : Type 0 where
  pub name : Bytes
  pub value : Bytes

-- `Cells` is the type of the header list.
pub record HttpResponse (Cells : Type 0) : Type 0 where
  pub req : Option HttpReq
  pub code : HttpStatusCode
  pub headers : Cells
  pub body_size : ℕ
  pub body : Option Bytes
