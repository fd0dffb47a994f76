-- ===== src/Log.antt =====
-- The log of src/server.c: one line to standard error for each call.
pub mod Bounds
pub mod Sure
use cn_cw.Common.{ℕ, ◌+◌, [], ◌∷◌, ◌++◌, join, ltb, if◌then◌else◌, Bytes, codes, take}
use cn_cw.Format.{decimal, decimal2, snprintf}
use cn_cw.Machine.{Machine}
use cn_cw.Outcome.{returns, overruns, Cmd}
use cn_cw.Platform.{Platform, Errno, Tm}

pub data LogLevel : Type 0 where
  trace info warn error fatal : LogLevel

unfoldable pub log_level_str : LogLevel → Bytes
log_level_str trace = codes "trace"
log_level_str info = codes "info"
log_level_str warn = codes "warn"
log_level_str error = codes "error"
log_level_str fatal = codes "fatal"

-- "%d %d.%d.%d %02d:%02d:%02d [%s]: " with the month as it is given.
unfoldable pub log_prefix : ℕ → ℕ → Tm → LogLevel → Bytes
unfolding decimal decimal2 log_level_str
log_prefix pid month tm level = join (
    decimal pid
    ∷ (b' ' ∷ decimal tm.tm_mday)
    ∷ (b'.' ∷ decimal month)
    ∷ (b'.' ∷ decimal (tm.tm_year + 1900))
    ∷ (b' ' ∷ decimal2 tm.tm_hour)
    ∷ (b':' ∷ decimal2 tm.tm_min)
    ∷ (b':' ∷ decimal2 tm.tm_sec)
    ∷ codes " ["
    ∷ log_level_str level
    ∷ codes "]: "
    ∷ [])

-- The text of a line of `log_msg`; `msg` has 4096 bytes.
unfoldable pub log_line : ℕ → Tm → LogLevel → Bytes → Bytes
unfolding log_prefix
log_line pid tm level text =
    let msg = (snprintf 4096 text).0 in
    join (log_prefix pid (tm.tm_mon + 1) tm level ∷ msg ∷ codes "\n" ∷ [])

-- The text of a line of `log_perror`, with the message of `errno` behind it.
unfoldable pub perror_line : ℕ → Tm → LogLevel → Bytes → Bytes → Bytes
unfolding log_prefix
perror_line pid tm level err_str text =
    let msg = (snprintf 4096 text).0 in
    join (log_prefix pid tm.tm_mon tm level ∷ msg ∷ codes ": " ∷ err_str ∷ codes "\n" ∷ [])

-- `STDERR_FILENO`.
abbrev pub stderr_fileno : ℕ
stderr_fileno = 2

module _ (platform : Platform) {C : Type 0} where
  open platform use {Os, write, localtime, getpid, strerror}

  -- `write(STDERR_FILENO, buffer, len)`: `len` bytes of a buffer of 4096 that holds the line, cut
  -- to fit, and a NUL.
  unfoldable pub put_line : Bytes → Cmd (Machine Os C) (Unit {0})
  put_line line m =
      let (held, len) = snprintf 4096 line in
      if ltb 4096 len
      then overruns m
      else returns tt (record m { os = (write stderr_fileno (take len (held ++ 0 ∷ [])) m.os).1 })

  unfoldable pub log_msg : LogLevel → Bytes → Cmd (Machine Os C) (Unit {0})
  log_msg level text m =
      let (tm, os) = localtime m.os in
      let (pid, os') = getpid os in put_line (log_line pid tm level text) (record m { os = os' })

  unfoldable pub log_perror : LogLevel → Errno → Bytes → Cmd (Machine Os C) (Unit {0})
  log_perror level err text m =
      let (tm, os) = localtime m.os in
      let (pid, os') = getpid os in
      put_line (perror_line pid tm level (snprintf 4096 (strerror err)).0 text)
        (record m { os = os' })
