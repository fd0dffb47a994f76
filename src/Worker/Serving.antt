-- ===== src/Worker/Serving.antt =====
-- The descriptors through the second loop of `conn_loop` (src/server.c).
use cn_cw.Common.{
  ℕ, ◌+◌, ◌≡◌, sym, ap, ◌∙◌, inl, inr, none, some, List, [], ◌∷◌, ◌++◌, arith, Bool-cases,
  Option-cases, codes,
}
use cn_cw.Conn.{
  ConnectionState, waiting, sending, complete, err_recoverable, err_unrecoverable, Conn, HttpHeader,
  ServerSettings,
}
use cn_cw.Descriptors.{Descriptors, OpensNothing, fds}
use cn_cw.Handler.Descriptors.{
  Accounted, process_request-Accounted, process_request_write-Accounted, error_response-Accounted,
}
use cn_cw.Handler.Lasting.{Lasts}
use cn_cw.Http.{HttpReq}
use cn_cw.Http.Tables.{internal_server_error}
use cn_cw.Log.{error}
use cn_cw.Machine.{Machine, Shared}
use cn_cw.Memory.Neutral.{Stable-and_then, log_msg-Stable}
use cn_cw.Outcome.{
  Outcome, returns, Cmd, and_then, Leaves, Leaves-and_then, Leaves-mono, Leaves-both,
  Ensures-Leaves,
}
use cn_cw.PgList.{PgList, Appends}
use cn_cw.Platform.{Platform}
use cn_cw.Sockets.{Sockets}
use cn_cw.Worker.{
  Active, fd_isset, left, in_arena, drop_conn, settle, settle_conn, serve, serve_all,
}
use cn_cw.Worker.Open.{
  held, held-snoc, Opened, Opened-Neutral, Holding, Balanced, left-Holding, drop_conn-Opened,
}

module _ (platform : Platform) {sockets : Sockets platform}
    (descriptors : Descriptors platform sockets) (x : ℕ)
    (headers : PgList (platform.Os) HttpHeader Conn) (appends : Appends headers)
    (quiet : OpensNothing descriptors headers) (conns : PgList (platform.Os) Active (Unit {0}))
    (conns_append : Appends conns) (conns_quiet : OpensNothing descriptors conns) where
  open platform use {Os}
  open sockets use {accept, select}
  open descriptors use {opened, select_opened, accept_got, accept_failed}
  open conns use {Cells, nil, elements, lappend, list_free}

  abbrev OpenedIs : ℕ → Shared Os → Type 0
  OpenedIs = Opened platform descriptors x

  abbrev HoldingIs : ℕ → Active → Shared Os → Type 0
  HoldingIs = Holding platform descriptors x

  abbrev BalancedIs : ℕ → Cells → Shared Os → Type 0
  BalancedIs = Balanced platform descriptors x conns

  pub lappend-Balanced :
      (base : ℕ) (new : Cells) (a : Active) (m : Shared Os)
      → opened m.os x ≡ base + (held (elements new) x + fds a.conn x)
      → Leaves (BalancedIs base) (λ _. ⊥) (lappend new a m)
  lappend-Balanced base new a m h =
      Leaves-mono (λ l m'. (elements l ≡ elements new ++ a ∷ []) × (opened m'.os x ≡ opened m.os x))
        (BalancedIs base) (λ _. ⊥ × ⊥) (λ _. ⊥) (lappend new a m)
        (Leaves-both (λ l m'. elements l ≡ elements new ++ a ∷ [])
          (λ _ m'. opened m'.os x ≡ opened m.os x) (λ _. ⊥) (λ _. ⊥) (lappend new a m)
          (Ensures-Leaves (λ l m'. (elements l ≡ elements new ++ a ∷ []) × (m'.client ≡ m.client))
            (λ l m'. elements l ≡ elements new ++ a ∷ []) (λ _. ⊥) (λ _. Unit {0}) (lappend new a m)
            (λ l m' e. e.0) (conns_append.elements-lappend new a m))
          (conns_quiet.lappend_opened new a m x))
        (λ l m' e.
          e.1
          ∙ h
          ∙ ap (λ k. base + k) (sym (ap (λ es. held es x) e.0 ∙ held-snoc (elements new) a x)))
        (λ s e. e.0)

  -- The connection is dropped, and the list stays.
  dropped-Balanced :
      (base : ℕ) (new : Cells) (a : Active) (m : Shared Os)
      → HoldingIs (base + held (elements new) x) a m
      → Leaves (BalancedIs base) (λ _. ⊥) (and_then (drop_conn platform a m) (λ _. returns new))
  dropped-Balanced base new a m h =
      Stable-and_then (OpenedIs (base + held (elements new) x)) (BalancedIs base) (λ _. ⊥) _ _
        (drop_conn-Opened platform descriptors x (base + held (elements new) x) a m h)
        (λ _ m' h'. h')

  -- A handler has run on the connection, and another step follows.
  handled :
      {B : Type 0} (rest : ℕ) (Q : B → Shared Os → Type 0) (a : Active)
      (o : Outcome (Machine Os Conn) (Unit {0})) (k : Active → Cmd (Shared Os) B)
      → Lasts (Accounted platform descriptors headers x rest) o
      → ((a' : Active) (m' : Shared Os) → HoldingIs rest a' m' → Leaves Q (λ _. ⊥) (k a' m'))
      → Leaves Q (λ _. ⊥) (and_then (left platform a o) k)
  handled rest Q a o k h next =
      Leaves-and_then (HoldingIs rest) (λ _. ⊥) Q (λ _. ⊥) _ k
        (left-Holding platform descriptors x headers rest a o h) (λ s e. e) next

  module _ (fuel : ℕ) (req : HttpReq) (settings : ServerSettings) where
    settle-Balanced :
        (base : ℕ) (s : ConnectionState) (a : Active) (new : Cells) (m : Shared Os)
        → HoldingIs (base + held (elements new) x) a m
        → Leaves
            (BalancedIs base)
            (λ _. ⊥)
            (settle platform sockets headers conns fuel req settings s a new m)
    unfolding settle in_arena
    settle-Balanced base waiting a new m h = tt
    settle-Balanced base sending a new m h = elim (Option-cases m.g_memory_arena) [
      | inl unset ↦
          rw unset
            (lappend-Balanced base new a (record m { g_memory_arena = none }) (omega (arith, h)))
      | inr (arena, set) ↦ rw set tt
    ]
    settle-Balanced base complete a new m h = dropped-Balanced base new a m h
    settle-Balanced base err_recoverable a new m h =
        handled (base + held (elements new) x) (BalancedIs base) a _ _
          (error_response-Accounted platform descriptors headers appends quiet x
            (base + held (elements new) x) fuel internal_server_error
            (record { os = m.os; g_memory_arena = some a.arena; client = a.conn }) h)
          (dropped-Balanced base new)
    settle-Balanced base err_unrecoverable a new m h =
        let n = base + held (elements new) x + fds a.conn x in
        Stable-and_then (OpenedIs n) (BalancedIs base) (λ _. ⊥) _ _
          (log_msg-Stable platform (OpenedIs n) (Opened-Neutral platform descriptors x n) error
            (codes "uncrecoverable error occured, aborting connection") m h)
          (λ _ m' h'. dropped-Balanced base new a m' h')

    serve-Balanced :
        (base : ℕ) (s : ConnectionState) (r w : List ℕ) (a : Active) (new : Cells) (m : Shared Os)
        → HoldingIs (base + held (elements new) x) a m
        → Leaves
            (BalancedIs base)
            (λ _. ⊥)
            (serve platform sockets headers conns fuel req settings s r w a new m)
    unfolding serve in_arena settle_conn
    serve-Balanced base waiting r w a new m h = elim (Bool-cases (fd_isset a.conn.sock_fd r)) [
      | inl ready ↦ rw ready (
          handled (base + held (elements new) x) (BalancedIs base) a _ _
            (process_request-Accounted platform descriptors headers appends quiet x
              (base + held (elements new) x) fuel req settings
              (record { os = m.os; g_memory_arena = some a.arena; client = a.conn }) h)
            (λ a' m' h'. settle-Balanced base a'.conn.state a' new m' h'))
      | inr quiet_now ↦ rw quiet_now (lappend-Balanced base new a m (omega (arith, h)))
    ]
    serve-Balanced base sending r w a new m h = elim (Bool-cases (fd_isset a.conn.sock_fd w)) [
      | inl ready ↦ rw ready (
          handled (base + held (elements new) x) (BalancedIs base) a _ _
            (process_request_write-Accounted platform descriptors headers appends quiet x
              (base + held (elements new) x) fuel
              (record { os = m.os; g_memory_arena = some a.arena; client = a.conn }) h)
            (λ a' m' h'. settle-Balanced base a'.conn.state a' new m' h'))
      | inr quiet_now ↦ rw quiet_now (lappend-Balanced base new a m (omega (arith, h)))
    ]
    serve-Balanced base complete r w a new m h = tt
    serve-Balanced base err_recoverable r w a new m h = tt
    serve-Balanced base err_unrecoverable r w a new m h = tt

    pub serve_all-Balanced :
        (base : ℕ) (r w : List ℕ) (todo : List Active) (new : Cells) (m : Shared Os)
        → BalancedIs (base + held todo x) new m
        → Leaves
            (BalancedIs base)
            (λ _. ⊥)
            (serve_all platform sockets headers conns fuel req settings r w todo new m)
    unfolding serve_all held
    serve_all-Balanced base r w [] new m h = omega (arith, h)
    serve_all-Balanced base r w (a ∷ todo) new m h =
        Leaves-and_then (BalancedIs (base + held todo x)) (λ _. ⊥) (BalancedIs base) (λ _. ⊥) _ _
          (serve-Balanced (base + held todo x) a.conn.state r w a new m (omega (arith, h)))
          (λ s e. e) (λ new' m' h'. serve_all-Balanced base r w todo new' m' h')
