-- ===== src/Handler/Keeps.antt =====
-- What src/handler.c calls to log, to allocate and to make headers does not touch the connection.
use cn_cw.Common.{ℕ, ◌≡◌, refl, subst, Option, none, some, Bytes}
use cn_cw.Conn.{Conn}
use cn_cw.Handler.{State}
use cn_cw.Handler.Response.{make_header, date_value, make_date_header, http_response_date}
use cn_cw.Log.{LogLevel, log_msg, log_perror}
use cn_cw.Machine.{Arena}
use cn_cw.Memory.{request_memory, server_alloc, server_strdup}
use cn_cw.Memory.Neutral.{
  Neutral, log_msg-Stable, log_perror-Stable, request_memory-Stable, server_alloc-Stable,
  server_strdup-Stable,
}
use cn_cw.Outcome.{Outcome, Cmd, and_then, Leaves, Leaves-and_then}
use cn_cw.Platform.{Platform, Errno}

module _ (platform : Platform) where
  open platform use {Os, calloc, read, write, gmtime}

  -- The connection is as it was.
  abbrev pub Keeps : {A : Type 0} → Conn → A → State platform → Type 0
  Keeps c _ m = m.client ≡ c

  abbrev pub Never : {S : Type 0} → S → Type 0
  Never _ = ⊥

  pub same_client : (c : Conn) → Neutral platform (λ m. m.client ≡ c)
  same_client c = record {
    after_localtime = λ m h. h;
    after_getpid = λ m h. h;
    after_write = λ bs m h. h;
    after_calloc = λ n m h. h;
    after_arena = λ a m h. h;
  }

  pub log_msg-Keeps :
      (level : LogLevel) (text : Bytes) (m : State platform)
      → Leaves (Keeps m.client) Never (log_msg platform level text m)
  log_msg-Keeps level text m =
      log_msg-Stable platform (λ m'. m'.client ≡ m.client) (same_client m.client) level text m refl

  pub log_perror-Keeps :
      (level : LogLevel) (err : Errno) (text : Bytes) (m : State platform)
      → Leaves (Keeps m.client) Never (log_perror platform level err text m)
  log_perror-Keeps level err text m =
      log_perror-Stable platform (λ m'. m'.client ≡ m.client) (same_client m.client) level err text
        m refl

  pub request_memory-Keeps :
      (arena : Option Arena) (n : ℕ) (m : State platform)
      → Leaves (Keeps m.client) Never (request_memory platform arena n m)
  request_memory-Keeps arena n m =
      request_memory-Stable platform (λ m'. m'.client ≡ m.client) (same_client m.client) arena n m
        refl

  -- A command that keeps the connection, and then another.
  pub then-Keeps :
      {A B : Type 0} (m : State platform) (o : Outcome (State platform) A)
      (k : A → Cmd (State platform) B)
      → Leaves (Keeps m.client) Never o
      → ((a : A) (m' : State platform) → Leaves (Keeps m'.client) Never (k a m'))
      → Leaves (Keeps m.client) Never (and_then o k)
  then-Keeps m o k h next =
      Leaves-and_then (Keeps m.client) Never (Keeps m.client) Never o k h (λ s e. e)
        (λ a m' e. subst (λ c. Leaves (Keeps c) Never (k a m')) e (next a m'))

  pub server_alloc-Keeps :
      (n : ℕ) (m : State platform) → Leaves (Keeps m.client) Never (server_alloc platform n m)
  server_alloc-Keeps n m =
      server_alloc-Stable platform (λ m'. m'.client ≡ m.client) (same_client m.client) n m refl

  pub server_strdup-Keeps :
      (s : Bytes) (m : State platform) → Leaves (Keeps m.client) Never (server_strdup platform s m)
  server_strdup-Keeps s m =
      server_strdup-Stable platform (λ m'. m'.client ≡ m.client) (same_client m.client) s m refl

  pub make_header-Keeps :
      (name value : Bytes) (m : State platform)
      → Leaves (Keeps m.client) Never (make_header platform name value m)
  unfolding make_header
  make_header-Keeps name value m = then-Keeps m _ _ (server_alloc-Keeps _ m) (λ a m'. refl)

  date_value-Keeps :
      (text : Option Bytes) (m : State platform)
      → Leaves (Keeps m.client) Never (date_value platform text m)
  unfolding date_value
  date_value-Keeps none m = tt
  date_value-Keeps (some text) m =
      then-Keeps m _ _ (server_strdup-Keeps _ m) (λ a m'. make_header-Keeps _ a m')

  pub make_date_header-Keeps :
      (m : State platform) → Leaves (Keeps m.client) Never (make_date_header platform m)
  unfolding make_date_header
  make_date_header-Keeps m =
      date_value-Keeps (http_response_date (gmtime m.os).0) (record m { os = (gmtime m.os).1 })
