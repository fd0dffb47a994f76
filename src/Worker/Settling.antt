-- ===== src/Worker/Settling.antt =====
-- The states of the connections through the second loop of `conn_loop` (src/server.c).
use cn_cw.Common.{
  ℕ, ◌≡◌, refl, sym, subst, ◌∙◌, inl, inr, none, some, List, [], ◌∷◌, ◌++◌, All, Bool-cases,
  Option-cases, codes,
}
use cn_cw.Conn.{
  ConnectionState, waiting, sending, complete, err_recoverable, err_unrecoverable, Conn, HttpHeader,
  ServerSettings,
}
use cn_cw.Handler.{State, process_request_write}
use cn_cw.Handler.Answers.{Finished, error_response-Finished}
use cn_cw.Handler.Serve.{process_request}
use cn_cw.Handler.States.{Underway, Broken, Settled, Failed, process_request_write-Underway}
use cn_cw.Handler.Verdicts.{process_request-Settled}
use cn_cw.Http.{HttpReq}
use cn_cw.Http.Tables.{internal_server_error}
use cn_cw.Log.{error}
use cn_cw.Machine.{Machine, Shared}
use cn_cw.Memory.Neutral.{any, log_msg-Stable}
use cn_cw.Outcome.{Outcome, returns, and_then, Leaves, Leaves-and_then, Leaves-mono, Ensures-Leaves}
use cn_cw.PgList.{PgList, Appends}
use cn_cw.Platform.{Platform}
use cn_cw.Sockets.{Sockets}
use cn_cw.Worker.{
  Active, fd_isset, left, in_arena, drop_conn, settle, settle_conn, serve, serve_all,
}
use cn_cw.Worker.States.{
  Kept, SendsFile, All-snoc, sending-ne-waiting, then_any, left-SendsFile, drop_conn-Stable,
  Settled-SendsFile, Underway-SendsFile, Failed-SendsFile, AllKept,
}

module _ (platform : Platform) (sockets : Sockets platform)
    (headers : PgList (platform.Os) HttpHeader Conn) (appends : Appends headers)
    (conns : PgList (platform.Os) Active (Unit {0})) (conns_append : Appends conns) (fuel : ℕ)
    (req : HttpReq) (settings : ServerSettings) where
  open platform use {Os}
  open sockets use {accept, select}
  open conns use {Cells, nil, elements, lappend}

  abbrev AllKeptIs : Cells → Shared Os → Type 0
  AllKeptIs = AllKept platform conns

  pub lappend-AllKept :
      (new : Cells) (a : Active) (m : Shared Os)
      → All Kept (elements new)
      → Kept a
      → Leaves AllKeptIs (λ _. ⊥) (lappend new a m)
  lappend-AllKept new a m h k =
      Ensures-Leaves (λ l m'. (elements l ≡ elements new ++ a ∷ []) × (m'.client ≡ m.client))
        AllKeptIs (λ _. ⊥) (λ _. Unit {0}) (lappend new a m)
        (λ l m' e. subst (All Kept) (sym e.0) (All-snoc Kept (elements new) a h k))
        (conns_append.elements-lappend new a m)

  dropped-AllKept :
      (new : Cells) (a : Active) (m : Shared Os)
      → All Kept (elements new)
      → Leaves AllKeptIs (λ _. ⊥) (and_then (drop_conn platform a m) (λ _. returns new))
  dropped-AllKept new a m h =
      then_any platform AllKeptIs _ _ (drop_conn-Stable platform a m) (λ _ m'. h)

  settle-AllKept :
      (s : ConnectionState) (a : Active) (new : Cells) (m : Shared Os)
      → a.conn.state ≡ s
      → SendsFile a.conn
      → All Kept (elements new)
      → Leaves AllKeptIs
          (λ _. ⊥)
          (settle platform sockets headers conns fuel req settings s a new m)
  unfolding settle in_arena
  settle-AllKept waiting a new m e f h = tt
  settle-AllKept sending a new m e f h = elim (Option-cases m.g_memory_arena) [
    | inl unset ↦
        rw unset (lappend-AllKept new a (record m { g_memory_arena = none }) h (inr (e, f e)))
    | inr (arena, set) ↦ rw set tt
  ]
  settle-AllKept complete a new m e f h = dropped-AllKept new a m h
  settle-AllKept err_recoverable a new m e f h =
      let m1 : State platform = record {
        os = m.os;
        g_memory_arena = some a.arena;
        client = a.conn;
      } in
      Leaves-and_then (λ a' _. SendsFile a'.conn) (λ _. ⊥) AllKeptIs (λ _. ⊥) _ _
        (left-SendsFile platform a _ (
          Leaves-mono (Finished platform) (λ _ m'. SendsFile m'.client) (Broken platform)
            (λ m'. SendsFile m'.client) _
            (error_response-Finished platform headers fuel appends internal_server_error m1)
            (λ _ m' done e'. cc) (λ m' broken e'. cc)))
        (λ s e'. e') (λ a' m' _. dropped-AllKept new a' m' h)
  settle-AllKept err_unrecoverable a new m e f h =
      then_any platform AllKeptIs _ _
        (log_msg-Stable platform (λ _. Unit {0}) (any platform) error
          (codes "uncrecoverable error occured, aborting connection") m tt)
        (λ _ m'. dropped-AllKept new a m' h)

  -- A handler has run, and its connection is settled.
  settled-AllKept :
      (a : Active) (new : Cells) (o : Outcome (Machine Os Conn) (Unit {0}))
      → Leaves (λ _ m. SendsFile m.client) (λ m. SendsFile m.client) o
      → All Kept (elements new)
      → Leaves AllKeptIs
          (λ _. ⊥)
          (and_then
            (left platform a o)
            (settle_conn platform sockets headers conns fuel req settings new))
  unfolding settle_conn
  settled-AllKept a new o f h =
      Leaves-and_then (λ a' _. SendsFile a'.conn) (λ _. ⊥) AllKeptIs (λ _. ⊥) _ _
        (left-SendsFile platform a o f) (λ s e. e)
        (λ a' m' f'. settle-AllKept a'.conn.state a' new m' refl f' h)

  serve-AllKept :
      (s : ConnectionState) (r w : List ℕ) (a : Active) (new : Cells) (m : Shared Os)
      → a.conn.state ≡ s
      → Kept a
      → All Kept (elements new)
      → Leaves AllKeptIs
          (λ _. ⊥)
          (serve platform sockets headers conns fuel req settings s r w a new m)
  unfolding serve in_arena
  serve-AllKept waiting r w a new m e k h = elim (Bool-cases (fd_isset a.conn.sock_fd r)) [
    | inl ready ↦
        let m1 : State platform = record {
          os = m.os;
          g_memory_arena = some a.arena;
          client = a.conn;
        } in
        rw ready (
          settled-AllKept a new (process_request platform headers fuel req settings m1)
            (Leaves-mono (Settled platform a.conn) (λ _ m'. SendsFile m'.client) (Failed platform)
              (λ m'. SendsFile m'.client) _
              (process_request-Settled platform headers appends fuel req settings m1)
              (λ _ m' s. Settled-SendsFile platform a.conn m' e s)
              (λ m' s. Failed-SendsFile platform m' s))
            h)
    | inr quiet_now ↦ rw quiet_now (lappend-AllKept new a m h k)
  ]
  serve-AllKept sending r w a new m e (inl k) h = absurd (sending-ne-waiting (sym e ∙ k.0))
  serve-AllKept sending r w a new m e (inr k) h = elim (Bool-cases (fd_isset a.conn.sock_fd w)) [
    | inl ready ↦
        let m1 : State platform = record {
          os = m.os;
          g_memory_arena = some a.arena;
          client = a.conn;
        } in
        rw ready (
          settled-AllKept a new (process_request_write platform fuel m1)
            (Leaves-mono (Underway platform) (λ _ m'. SendsFile m'.client) (Broken platform)
              (λ m'. SendsFile m'.client) _
              (process_request_write-Underway platform fuel m1 (inr k))
              (λ _ m' u. Underway-SendsFile platform m' u)
              (λ m' s. Failed-SendsFile platform m' (inr s)))
            h)
    | inr quiet_now ↦ rw quiet_now (lappend-AllKept new a m h (inr k))
  ]
  serve-AllKept complete r w a new m e k h = tt
  serve-AllKept err_recoverable r w a new m e k h = tt
  serve-AllKept err_unrecoverable r w a new m e k h = tt

  pub serve_all-AllKept :
      (r w : List ℕ) (todo : List Active) (new : Cells) (m : Shared Os)
      → All Kept todo
      → All Kept (elements new)
      → Leaves AllKeptIs
          (λ _. ⊥)
          (serve_all platform sockets headers conns fuel req settings r w todo new m)
  unfolding serve_all
  serve_all-AllKept r w [] new m k h = h
  serve_all-AllKept r w (a ∷ todo) new m k h =
      Leaves-and_then AllKeptIs (λ _. ⊥) AllKeptIs (λ _. ⊥) _ _
        (serve-AllKept a.conn.state r w a new m refl k.0 h) (λ s e. e)
        (λ new' m' h'. serve_all-AllKept r w todo new' m' k.1 h')
