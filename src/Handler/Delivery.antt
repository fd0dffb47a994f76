-- ===== src/Handler/Delivery.antt =====
-- What a request is to bring about on its socket (src/handler.c), in terms of what came, of what the
-- system says of the file, and of what the socket has got.
pub mod Completed
pub mod Ended
pub mod Errors
pub mod Files
pub mod Found
pub mod Heads
pub mod Paths
pub mod Reading
pub mod Requests
pub mod Served
pub mod Turned
pub mod Whole
use cn_cw.Common.{
  ℕ, ◌+◌, ◌^◌, ◌≤◌, ◌<◌, ◌≡◌, ◌≢◌, refl, ◌∙◌, Bool, true, false, Option, none, some, List, [], ◌∷◌,
  ◌⊎◌, inl, inr, ◌++◌, Bytes, length, take,
}
use cn_cw.Conn.{complete, sending, err_unrecoverable, Conn, HttpHeader}
use cn_cw.Handler.{State}
use cn_cw.Handler.Flows.{Stopped, to_send}
use cn_cw.Handler.Response.Built.{Building, IsDate}
use cn_cw.Handler.Response.{http_response_date}
use cn_cw.Handler.Response.Errors.{error_headers}
use cn_cw.Handler.Response.Found.{file_headers}
use cn_cw.Handler.Response.Head.{head_text}
use cn_cw.Handler.Asked.{StatusOf, Names, Begins}
use cn_cw.Handler.Serve.{FileInfo}
use cn_cw.Handler.Streams.{Streams}
use cn_cw.Http.{HttpReq}
use cn_cw.Http.Tables
use cn_cw.Http.Tables.{
  HttpMethod, get, head, HttpStatusCode, forbidden, internal_server_error,
  http_conten_type_from_filename,
}
use cn_cw.Log.{stderr_fileno}
use cn_cw.Log.Bounds.{LogsFit}
use cn_cw.Machine.{Arena}
use cn_cw.Memory.{request_memory}
use cn_cw.Memory.Neutral.{Stable}
use cn_cw.Outcome.{returns, Leaves-both, Leaves-mono, Ensures-Leaves}
use cn_cw.PgList.{PgList, Appends}
use cn_cw.Platform.{Platform, got, failed, Errno}
use cn_cw.Common.{◌-◌, replicate}
use cn_cw.Conn.{ServerSettings}
use cn_cw.Handler.{overwrite}
use cn_cw.Handler.Serve.{c_string}
use cn_cw.Http.Request.{IsRequest}
use cn_cw.Http.Request.Reasons.{Reason}

-- No request was read yet: no buffer, and no file.
pub record IsFresh (c : Conn) : Type 0 where
  pub no_buffer : c.read_buf ≡ none
  pub no_size : c.read_buf_size ≡ 0
  pub no_len : c.read_buf_len ≡ 0
  pub no_cursor : c.read_buf_cursor ≡ 0
  pub no_file : c.file_fd ≡ none

-- The connection after the read of `bs` into a buffer of `size` bytes.
abbrev pub received : Conn → ℕ → Bytes → Conn
received c size bs = record c {
  read_buf = some (overwrite (replicate size 0) (bs ++ 0 ∷ []));
  read_buf_size = size;
}

-- The connection with its buffer.
abbrev pub buffered : Conn → ℕ → Conn
buffered c size = record c { read_buf = some (replicate size 0); read_buf_size = size }

-- The status says what is wrong with the text, and the text is no request line, or its URI is over
-- the limit and the status says so.
abbrev pub TurnsDown : ℕ → Bytes → HttpStatusCode → Type 0
TurnsDown limit text code =
    Reason limit text code
    × ((¬ ((req : HttpReq) × IsRequest text req))
        ⊎ ((code ≡ Tables.uri_too_long)
            × (¬ ((req : HttpReq) × IsRequest text req × (length req.uri ≤ limit)))))

module _ (platform : Platform) (streams : Streams platform) where
  open platform use {
    read, Os, calloc, free, write, get_flags, set_flags, stat, realpath, open_file, gmtime,
    localtime, getpid,
  }
  open streams use {unread, sent}

  -- The path that `realpath` makes of the name that is asked for, in the static directory.
  pub record Resolves (static_dir uri full_path : Bytes) : Type 0 where
    pub name : Bytes
    pub names : Names uri name
    pub at_path : Os
    pub address : ℕ
    pub real :
        (realpath (take 4095 (static_dir ++ b'/' ∷ name)) at_path).0 ≡ got (address, full_path)
    pub inside : Begins static_dir full_path

  -- What `stat` says of the file.
  pub record Located (static_dir uri full_path : Bytes) (info : FileInfo) : Type 0 where
    pub path : Resolves static_dir uri full_path
    pub at_info : Os
    pub has_size : (stat full_path at_info).0 ≡ got info.size
    pub has_type : info.ct ≡ http_conten_type_from_filename full_path

  -- Why a request is refused, and the status that says so.
  pub data Refusal (static_dir uri : Bytes) : HttpStatusCode → Type 0 where
    unresolved :
        (name : Bytes) (os : Os) (err : Errno) (code : HttpStatusCode)
        → Names uri name
        → StatusOf err code
        → (realpath (take 4095 (static_dir ++ b'/' ∷ name)) os).0 ≡ failed err
        → Refusal static_dir uri code
    outside :
        (name : Bytes) (os : Os) (address : ℕ) (full_path : Bytes)
        → Names uri name
        → (realpath (take 4095 (static_dir ++ b'/' ∷ name)) os).0 ≡ got (address, full_path)
        → ¬ (Begins static_dir full_path)
        → Refusal static_dir uri forbidden
    no_memory :
        {full_path : Bytes} (arena : Arena) (m m' : State platform)
        → Resolves static_dir uri full_path
        → request_memory platform (some arena) (length full_path + 1) m ≡ returns none m'
        → Refusal static_dir uri internal_server_error
    no_info :
        {full_path : Bytes} (os : Os) (err : Errno) (code : HttpStatusCode)
        → StatusOf err code
        → Resolves static_dir uri full_path
        → (stat full_path os).0 ≡ failed err
        → Refusal static_dir uri code
    no_file :
        {full_path : Bytes} {info : FileInfo} (os : Os) (err : Errno) (code : HttpStatusCode)
        → StatusOf err code
        → Located static_dir uri full_path info
        → (open_file full_path os).0 ≡ failed err
        → Refusal static_dir uri code

  -- A `write` of the text to the socket that had got `w` took `n` bytes.
  abbrev pub Took : ℕ → Bytes → Bytes → ℕ → Type 0
  Took s w text n =
      (n ≤ length text) × ((os : Os) × (sent os s ≡ w) × ((write s text os).0 ≡ got n))

  -- The socket of `c` has got `w` and then the head of a response, as far as one `write` took it;
  -- the connection is complete, and else as it was.
  pub record HeadSent (w : Bytes) (c : Conn) (text : Bytes) (m : State platform) : Type 0 where
    pub count : ℕ
    pub took : Took c.sock_fd w text count
    pub got_head : sent m.os c.sock_fd ≡ w ++ take count text
    pub is_complete : m.client ≡ record c { state = complete }

  -- The answer with a status and no file.
  abbrev pub Refused : Bytes → Bytes → Bytes → Conn → State platform → Type 0
  Refused static_dir uri w c m =
      (code : HttpStatusCode) × (date : Bytes) × Refusal static_dir uri code
      × IsDate platform date
      × HeadSent w c (head_text none code (error_headers date)) m

  -- The answer to HEAD.
  abbrev pub Described : Bytes → HttpReq → Bytes → Conn → State platform → Type 0
  Described static_dir req w c m =
      (full_path : Bytes) × (info : FileInfo) × (date : Bytes) × Located static_dir req.uri
        full_path info
      × IsDate platform date
      × HeadSent w c (head_text (some req) HttpStatusCode.ok (file_headers date info)) m

  -- The answer to GET: the head, and behind it the file, of which all is sent or the socket is full.
  pub record Answered (fit : LogsFit platform) (static_dir : Bytes) (req : HttpReq) (w : Bytes)
      (c : Conn) (m : State platform) : Type 0 where
    pub full_path : Bytes
    pub info : FileInfo
    pub date : Bytes
    pub file : ℕ
    pub at_open : Os
    pub opened : Os
    pub count : ℕ
    pub located : Located static_dir req.uri full_path info
    pub is_date : IsDate platform date
    pub opens : open_file full_path at_open ≡ (got file, opened)
    pub took :
        Took c.sock_fd w (head_text (some req) HttpStatusCode.ok (file_headers date info)) count
    pub left_le : to_send platform streams fit file m ≤ length (unread opened file)
    pub stopped :
        Stopped platform streams fit file c.sock_fd
          (w
            ++ (take count (head_text (some req) HttpStatusCode.ok (file_headers date info))
                ++ unread opened file))
          sending
          m

  -- What the server does for a request whose line it has read.
  unfoldable pub Delivered :
      LogsFit platform → HttpMethod → Bytes → HttpReq → Bytes → Conn → State platform → Type 0
  Delivered fit get static_dir req w c m =
      Refused static_dir req.uri w c m ⊎ Answered fit static_dir req w c m
  Delivered fit head static_dir req w c m =
      Refused static_dir req.uri w c m ⊎ Described static_dir req w c m

  -- A call failed, and the connection cannot be used any more.
  abbrev pub Gone : State platform → Type 0
  Gone m = m.client.state ≡ err_unrecoverable

  -- `bs` is what the socket of `c` gave, for a buffer of `size` bytes.
  abbrev pub Came : ℕ → Conn → Bytes → Type 0
  Came size c bs = (os : Os) × ((read c.sock_fd (size - 1) os).0 ≡ got bs)

  module _ (fit : LogsFit platform) (settings : ServerSettings) (w : Bytes) (c : Conn) where
    -- Nothing came.
    abbrev Nothing : State platform → Type 0
    Nothing m =
        Came settings.read_buf_size c []
        × (m.client ≡ buffered c settings.read_buf_size)
        × (sent m.os c.sock_fd ≡ w)

    -- What came is the line of a request, which is answered.
    abbrev Asked : Bytes → State platform → Type 0
    Asked bs m =
        (req : HttpReq) × IsRequest (c_string (bs ++ 0 ∷ [])) req
        × (length req.uri ≤ settings.uri_length_limit)
        × Delivered fit req.method settings.static_dir req w (received c settings.read_buf_size bs)
            m

    -- What came is turned down.
    abbrev TurnedDown : Bytes → State platform → Type 0
    TurnedDown bs m =
        (code : HttpStatusCode) × (date : Bytes) × TurnsDown settings.uri_length_limit
          (c_string (bs ++ 0 ∷ [])) code
        × IsDate platform date
        × HeadSent w (received c settings.read_buf_size bs)
            (head_text none code (error_headers date)) m

    -- What `process_request` leaves.
    abbrev pub Handled : State platform → Type 0
    Handled m =
        Nothing m
        ⊎ ((bs : Bytes) × Came settings.read_buf_size c bs
            × (bs ≢ [])
            × (Asked bs m ⊎ TurnedDown bs m))

    -- More than 4000 bytes came, and no request line.
    abbrev pub Overlong : State platform → Type 0
    Overlong m =
        (bs : Bytes) × Came settings.read_buf_size c bs
        × (4000 < length bs)
        × (¬ ((req : HttpReq) × IsRequest (c_string (bs ++ 0 ∷ [])) req))
