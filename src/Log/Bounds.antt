-- ===== src/Log/Bounds.antt =====
-- How long the lines of the log (src/server.c) are, and when one fits its buffer.
use native.Mathlib.Nat.{pow-suc}
use cn_cw.Common.{
  ℕ, zero, suc, ◌+◌, ◌/◌, ◌%◌, ◌^◌, ◌<◌, ◌≤◌, ◌≡◌, refl, [], ◌∷◌, ◌++◌, arith, Bytes, length,
  length-append, length-join, length-take, take, ge→ltb, lt→ltb,
}
use cn_cw.Format.{digits, decimal, decimal2, snprintf}
use cn_cw.Log.{
  LogLevel, trace, info, warn, error, fatal, log_level_str, log_prefix, log_line, perror_line,
  put_line, log_msg, log_perror, stderr_fileno,
}
use cn_cw.Machine.{Machine}
use cn_cw.Outcome.{returns, overruns}
use cn_cw.Platform.{Platform, Errno, Tm}

length-digits : (fuel k n : ℕ) → n < 10 ^ suc k → length (digits fuel n) ≤ suc k
unfolding digits
length-digits zero k n h = omega arith
length-digits (suc fuel) zero n h = ground arith
length-digits (suc fuel) (suc k) n h =
    let smaller : n / 10 < 10 ^ suc k = omega (arith, pow-suc 10 (suc k)) in
    ground (
      arith,
      length-digits fuel k (n / 10) smaller,
      length-append (digits fuel (n / 10)) ((48 + n % 10) ∷ []),
    )

pub length-decimal : (k n : ℕ) → n < 10 ^ suc k → length (decimal n) ≤ suc k
unfolding decimal
length-decimal k n h = length-digits (suc n) k n h

-- The ranges that the documentation gives for a time, and that hold for a process id.
pub record InRange (tm : Tm) : Type 0 where
  pub mday : tm.tm_mday < 100
  pub mon : tm.tm_mon < 12
  pub year : tm.tm_year < 8000
  pub hour : tm.tm_hour < 100
  pub min : tm.tm_min < 100
  pub sec : tm.tm_sec < 100

pub length-decimal2 : (n : ℕ) → n < 100 → length (decimal2 n) ≤ 3
unfolding decimal2
length-decimal2 n h = ground (arith, length-decimal 1 n)

length-log_level_str : (level : LogLevel) → length (log_level_str level) ≤ 5
unfolding log_level_str
length-log_level_str trace = omega arith
length-log_level_str info = omega arith
length-log_level_str warn = omega arith
length-log_level_str error = omega arith
length-log_level_str fatal = omega arith

length-log_prefix :
    (pid month : ℕ) (tm : Tm) (level : LogLevel)
    → pid < 10 ^ 10
    → month < 100
    → InRange tm
    → length (log_prefix pid month tm level) ≤ 50
unfolding log_prefix
length-log_prefix pid month tm level hp hm r =
    let p = length-decimal 9 pid hp in
    let d = length-decimal 1 tm.tm_mday r.mday in
    let mo = length-decimal 1 month hm in
    let y = length-decimal 3 (tm.tm_year + 1900) (omega (arith, r.year)) in
    let h = length-decimal2 tm.tm_hour r.hour in
    let mi = length-decimal2 tm.tm_min r.min in
    let s = length-decimal2 tm.tm_sec r.sec in
    let l = length-log_level_str level in omega (arith, p, d, mo, y, h, mi, s, l, length-join)

log_line_fits :
    (tm : Tm) (pid : ℕ) (level : LogLevel) (text : Bytes)
    → pid < 10 ^ 10
    → InRange tm
    → length text ≤ 4045
    → length (log_line pid tm level text) ≤ 4096
unfolding log_line
log_line_fits tm pid level text hp r ht =
    let p = length-log_prefix pid (tm.tm_mon + 1) tm level hp (omega (arith, r.mon)) r in
    omega (arith, p, length-take 4095 text, length-join)

log_prefix_long :
    (pid month : ℕ) (tm : Tm) (level : LogLevel) → 11 ≤ length (log_prefix pid month tm level)
unfolding log_prefix
log_prefix_long pid month tm level = omega (arith, length-join)

log_line_long :
    (pid : ℕ) (tm : Tm) (level : LogLevel) (text : Bytes)
    → 4085 ≤ length text
    → 4096 < length (log_line pid tm level text)
unfolding log_line
log_line_long pid tm level text h =
    omega (arith, log_prefix_long pid (tm.tm_mon + 1) tm level, length-take 4095 text, length-join)

module _ (platform : Platform) where
  open platform use {Os, write, localtime, getpid, strerror}

  -- The times are in range, process ids have at most ten digits, and the messages of `errno` are
  -- shorter than 1024 bytes.
  pub record LogsFit : Type 0 where
    pub times : (os : Os) → InRange (localtime os).0
    pub pids : (os : Os) → (getpid os).0 < 10 ^ 10
    pub messages : (err : Errno) → length (strerror err) < 1024

  put_line_returns :
      {C : Type 0} (line : Bytes) (m : Machine Os C)
      → length line ≤ 4096
      → put_line platform line m
        ≡ returns tt (record m {
          os = (write stderr_fileno (take (length line) (take 4095 line ++ 0 ∷ [])) m.os).1;
        })
  unfolding put_line
  put_line_returns line m h = rw (ge→ltb 4096 (length line) h) refl

  -- What `log_perror` leaves of the system's state.
  unfoldable pub after_perror : LogLevel → Errno → Bytes → Os → Os
  after_perror level err text os =
      let (tm, os1) = localtime os in
      let (pid, os2) = getpid os1 in
      let line = perror_line pid tm level (snprintf 4096 (strerror err)).0 text in
      (write stderr_fileno (take (length line) (take 4095 line ++ 0 ∷ [])) os2).1

  module _ (fit : LogsFit) where
    perror_line_fits :
        (tm : Tm) (pid : ℕ) (level : LogLevel) (err : Errno) (text : Bytes)
        → pid < 10 ^ 10
        → InRange tm
        → length text ≤ 1024
        → length (perror_line pid tm level (snprintf 4096 (strerror err)).0 text) ≤ 4096
    unfolding perror_line
    perror_line_fits tm pid level err text hp r ht =
        let p = length-log_prefix pid tm.tm_mon tm level hp (omega (arith, r.mon)) r in
        let t = length-take 4095 text in
        let e = length-take 4095 (strerror err) in
        omega (arith, p, t, e, fit.messages err, length-join)

    pub log_perror_returns :
        {C : Type 0} (level : LogLevel) (err : Errno) (text : Bytes) (m : Machine Os C)
        → length text ≤ 1024
        → log_perror platform level err text m
          ≡ returns tt (record m { os = after_perror level err text m.os })
    unfolding log_perror after_perror
    log_perror_returns level err text m h =
        let (tm, os1) = localtime m.os in
        let (pid, os2) = getpid os1 in
        put_line_returns (perror_line pid tm level (snprintf 4096 (strerror err)).0 text)
          (record m { os = os2 })
          (perror_line_fits tm pid level err text (fit.pids os1) (fit.times m.os) h)

    pub log_msg_returns :
        {C : Type 0} (level : LogLevel) (text : Bytes) (m : Machine Os C)
        → length text ≤ 4045
        → let (tm, os1) = localtime m.os in
          let (pid, os2) = getpid os1 in
          let line = log_line pid tm level text in
          log_msg platform level text m
          ≡ returns tt (record m {
            os = (write stderr_fileno (take (length line) (take 4095 line ++ 0 ∷ [])) os2).1;
          })
    unfolding log_msg
    log_msg_returns level text m h =
        let (tm, os1) = localtime m.os in
        let (pid, os2) = getpid os1 in
        put_line_returns (log_line pid tm level text) (record m { os = os2 })
          (log_line_fits tm pid level text (fit.pids os1) (fit.times m.os) h)

  -- `log_msg` reads behind the end of its buffer of 4096 bytes whenever its message has 4085 bytes
  -- or more: `snprintf` returns the length of the whole line, and `write` is given that length.
  pub log_msg_overruns :
      {C : Type 0} (level : LogLevel) (text : Bytes) (m : Machine Os C)
      → 4085 ≤ length text
      → log_msg platform level text m ≡ overruns (record m { os = (getpid (localtime m.os).1).1 })
  unfolding log_msg put_line
  log_msg_overruns level text m h =
      let (tm, os1) = localtime m.os in
      let (pid, os2) = getpid os1 in
      rw (lt→ltb 4096 (length (log_line pid tm level text)) (log_line_long pid tm level text h))
        refl
