-- ===== src/Worker/Served.antt =====
-- The second loop of `conn_loop` (src/server.c) against the specification of a turn in Worker/Fate.antt.
use cn_cw.Common.{
  ℕ, ◌≡◌, refl, sym, ap, ◌∙◌, ◌⊎◌, inl, inr, Bool, true, false, none, some, List, [], ◌∷◌, ◌++◌,
  Bool-cases, Option-cases, codes,
}
use cn_cw.Conn.{
  ConnectionState, waiting, sending, complete, err_recoverable, err_unrecoverable, Conn, HttpHeader,
  ServerSettings,
}
use cn_cw.Handler.{State}
use cn_cw.Handler.Lasting.{Lasts, process_request_write-Lasts}
use cn_cw.Handler.Lasting.Requests.{process_request-Lasts}
use cn_cw.Http.{HttpReq}
use cn_cw.Log.{error}
use cn_cw.Machine.{Shared}
use cn_cw.Memory.Neutral.{any, log_msg-Stable}
use cn_cw.Outcome.{Outcome, returns, and_then, Leaves, Leaves-and_then, Leaves-mono, Ensures-Leaves}
use cn_cw.PgList.{PgList, Appends}
use cn_cw.Platform.{Platform}
use cn_cw.Sockets.{Sockets}
use cn_cw.Worker.{
  Active, fd_isset, left, in_arena, drop_conn, settle, settle_conn, serve, serve_all,
}
use cn_cw.Worker.States.{then_any, drop_conn-Stable}
use cn_cw.Worker.Fate.{
  ready_for, Ready, Fate, idles, sends_on, goes, Turned, no_more, and_next, append_assoc,
  append_nil, socket-Lasting, SameConn, left-SameConn, left_any,
}

module _ (platform : Platform) (headers : PgList (platform.Os) HttpHeader Conn)
    (appends : Appends headers) (sockets : Sockets platform)
    (conns : PgList (platform.Os) Active (Unit {0})) (conns_append : Appends conns) (fuel : ℕ)
    (req : HttpReq) (settings : ServerSettings) where
  open platform use {Os}
  open sockets use {accept}
  open conns use {Cells, nil, elements, lappend}

  -- The list `bs` has been put behind `new`.
  abbrev pub Behind : Cells → List Active → Cells → Type 0
  Behind new bs l = elements l ≡ elements new ++ bs

  pub lappend-Behind :
      (new : Cells) (a : Active) (m : Shared Os)
      → Leaves (λ l _. Behind new (a ∷ []) l) (λ _. ⊥) (lappend new a m)
  lappend-Behind new a m =
      Ensures-Leaves (λ l m'. (elements l ≡ elements new ++ a ∷ []) × (m'.client ≡ m.client))
        (λ l _. Behind new (a ∷ []) l) (λ _. ⊥) (λ _. Unit {0}) (lappend new a m) (λ l m' e. e.0)
        (conns_append.elements-lappend new a m)

  -- A connection is put behind the list, to send, or goes.
  abbrev Settles : Active → Cells → Cells → Shared Os → Type 0
  Settles a new l _ = Behind new [] l ⊎ (Behind new (a ∷ []) l × (a.conn.state ≡ sending))

  dropped-Settles :
      (a b : Active) (new : Cells) (m : Shared Os)
      → Leaves (Settles a new) (λ _. ⊥) (and_then (drop_conn platform b m) (λ _. returns new))
  dropped-Settles a b new m =
      then_any platform (Settles a new) _ _ (drop_conn-Stable platform b m)
        (λ _ m'. inl (sym (append_nil (elements new))))

  settle-Settles :
      (s : ConnectionState) (a : Active) (new : Cells) (m : Shared Os)
      → a.conn.state ≡ s
      → Leaves
          (Settles a new)
          (λ _. ⊥)
          (settle platform sockets headers conns fuel req settings s a new m)
  unfolding settle in_arena
  settle-Settles waiting a new m e = tt
  settle-Settles sending a new m e = elim (Option-cases m.g_memory_arena) [
    | inl unset ↦ rw unset (
        Leaves-mono (λ l _. Behind new (a ∷ []) l) (Settles a new) (λ _. ⊥) (λ _. ⊥) _
          (lappend-Behind new a (record m { g_memory_arena = none })) (λ l m' h. inr (h, e))
          (λ s h. h))
    | inr (arena, set) ↦ rw set tt
  ]
  settle-Settles complete a new m e = dropped-Settles a a new m
  settle-Settles err_recoverable a new m e =
      then_any platform (Settles a new) _ _ (left_any platform headers appends a _)
        (λ a' m'. dropped-Settles a a' new m')
  settle-Settles err_unrecoverable a new m e =
      then_any platform (Settles a new) _ _
        (log_msg-Stable platform (λ _. Unit {0}) (any platform) error
          (codes "uncrecoverable error occured, aborting connection") m tt)
        (λ _ m'. dropped-Settles a a new m')

  -- What the turn of one connection puts behind the list.
  abbrev Fated : List ℕ → List ℕ → Active → Cells → Cells → Shared Os → Type 0
  Fated r w a new l _ = (bs : List Active) × Behind new bs l × Fate r w a bs

  idle-Fated :
      (r w : List ℕ) (a : Active) (new : Cells) (m : Shared Os)
      → Ready r w a false
      → Leaves (Fated r w a new) (λ _. ⊥) (lappend new a m)
  idle-Fated r w a new m idle =
      Leaves-mono (λ l _. Behind new (a ∷ []) l) (Fated r w a new) (λ _. ⊥) (λ _. ⊥) _
        (lappend-Behind new a m) (λ l m' h. (a ∷ [], h, idles idle)) (λ s h. h)

  Settles-Fated :
      (r w : List ℕ) (a a' : Active) (new l : Cells) (m : Shared Os)
      → Ready r w a true
      → SameConn platform headers appends a a' m
      → Settles a' new l m
      → Fated r w a new l m
  Settles-Fated r w a a' new l m now same (inl h) = ([], h, goes now)
  Settles-Fated r w a a' new l m now same (inr h) =
      (a' ∷ [], h.0, sends_on a' now same.0 same.1 h.1)

  handled-Fated :
      (r w : List ℕ) (a : Active) (new : Cells) (o : Outcome (State platform) (Unit {0}))
      → Ready r w a true
      → Lasts (λ m. m.client.sock_fd ≡ a.conn.sock_fd) o
      → Leaves
          (Fated r w a new)
          (λ _. ⊥)
          (and_then
            (left platform a o)
            (settle_conn platform sockets headers conns fuel req settings new))
  unfolding settle_conn
  handled-Fated r w a new o now h =
      Leaves-and_then (SameConn platform headers appends a) (λ _. ⊥) (Fated r w a new) (λ _. ⊥) _ _
        (left-SameConn platform headers appends a o h) (λ s e. e)
        (λ a' m' same.
          Leaves-mono (Settles a' new) (Fated r w a new) (λ _. ⊥) (λ _. ⊥) _
            (settle-Settles a'.conn.state a' new m' refl)
            (λ l m2 done. Settles-Fated r w a a' new l m2 now same done) (λ s e. e))

  from_state-Ready :
      (s : ConnectionState) (r w : List ℕ) (a : Active)
      → {b : Bool} → a.conn.state ≡ s
      → ready_for s a.conn.sock_fd r w ≡ b
      → Ready r w a b
  from_state-Ready s r w a e h = ap (λ t. ready_for t a.conn.sock_fd r w) e ∙ h

  serve-Fated :
      (s : ConnectionState) (r w : List ℕ) (a : Active) (new : Cells) (m : Shared Os)
      → a.conn.state ≡ s
      → Leaves
          (Fated r w a new)
          (λ _. ⊥)
          (serve platform sockets headers conns fuel req settings s r w a new m)
  unfolding serve in_arena ready_for
  serve-Fated waiting r w a new m e = elim (Bool-cases (fd_isset a.conn.sock_fd r)) [
    | inl now ↦ rw now (
        handled-Fated r w a new _ (from_state-Ready waiting r w a e now) (
          process_request-Lasts platform headers (λ m'. m'.client.sock_fd ≡ a.conn.sock_fd)
            (socket-Lasting platform headers appends a.conn.sock_fd) fuel req settings
            (record { os = m.os; g_memory_arena = some a.arena; client = a.conn }) refl))
    | inr later ↦ rw later (idle-Fated r w a new m (from_state-Ready waiting r w a e later))
  ]
  serve-Fated sending r w a new m e = elim (Bool-cases (fd_isset a.conn.sock_fd w)) [
    | inl now ↦ rw now (
        handled-Fated r w a new _ (from_state-Ready sending r w a e now) (
          process_request_write-Lasts platform headers (λ m'. m'.client.sock_fd ≡ a.conn.sock_fd)
            (socket-Lasting platform headers appends a.conn.sock_fd) fuel
            (record { os = m.os; g_memory_arena = some a.arena; client = a.conn }) refl))
    | inr later ↦ rw later (idle-Fated r w a new m (from_state-Ready sending r w a e later))
  ]
  serve-Fated complete r w a new m e = tt
  serve-Fated err_recoverable r w a new m e = tt
  serve-Fated err_unrecoverable r w a new m e = tt

  -- What the turns of several connections put behind the list.
  abbrev pub TurnedBehind : List ℕ → List ℕ → List Active → List Active → Cells → Shared Os → Type 0
  TurnedBehind r w todo front l _ =
      (bs : List Active) × (elements l ≡ front ++ bs) × Turned r w todo bs

  pub serve_all-Turned :
      (r w : List ℕ) (todo : List Active) (new : Cells) (m : Shared Os)
      → Leaves
          (TurnedBehind r w todo (elements new))
          (λ _. ⊥)
          (serve_all platform sockets headers conns fuel req settings r w todo new m)
  unfolding serve_all
  serve_all-Turned r w [] new m = ([], sym (append_nil (elements new)), no_more)
  serve_all-Turned r w (a ∷ todo) new m =
      Leaves-and_then (Fated r w a new) (λ _. ⊥) (TurnedBehind r w (a ∷ todo) (elements new))
        (λ _. ⊥) _ _ (serve-Fated a.conn.state r w a new m refl) (λ s e. e)
        (λ l m1 (bs, behind, fate).
          Leaves-mono (TurnedBehind r w todo (elements l))
            (TurnedBehind r w (a ∷ todo) (elements new)) (λ _. ⊥) (λ _. ⊥) _
            (serve_all-Turned r w todo l m1)
            (λ l' m2 (cs, behind', turned). (
              bs ++ cs,
              behind' ∙ ap (λ k. k ++ cs) behind ∙ append_assoc (elements new) bs cs,
              and_next fate turned,
            ))
            (λ s e. e))
