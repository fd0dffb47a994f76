-- ===== src/Worker/Order.antt =====
-- One turn of `conn_loop` (src/server.c) against its specification: each connection has its turn once, in the
-- order of the list, and only those that are ready are touched.
use cn_cw.Common.{ℕ, ◌≡◌, ap, ◌∙◌, ◌⊎◌, inl, inr, List, [], ◌∷◌, ◌++◌, Bool-cases}
use cn_cw.Conn.{Conn, HttpHeader, ServerSettings}
use cn_cw.Http.{HttpReq}
use cn_cw.Machine.{Shared, empty_arena}
use cn_cw.Memory.Neutral.{any, server_alloc-Stable}
use cn_cw.Outcome.{Leaves, Leaves-and_then, Leaves-mono}
use cn_cw.PgList.{PgList, Appends}
use cn_cw.Platform.{
  Platform, Answer, got, failed, eacces, enotdir, enoent, eagain, ewouldblock, eintr, other,
}
use cn_cw.Sockets.{Sockets}
use cn_cw.Worker.{Active, fd_isset, accepted, accept_conn, selected, new_conn, conn_size}
use cn_cw.Worker.States.{then_any}
use cn_cw.Worker.Turn.{failed_exits}
use cn_cw.Worker.Served.{Behind, lappend-Behind, TurnedBehind, serve_all-Turned}

module _ (platform : Platform) (headers : PgList (platform.Os) HttpHeader Conn)
    (appends : Appends headers) (sockets : Sockets platform)
    (conns : PgList (platform.Os) Active (Unit {0})) (conns_append : Appends conns) (fuel : ℕ)
    (req : HttpReq) (settings : ServerSettings) where
  open platform use {Os}
  open sockets use {accept}
  open conns use {Cells, nil, elements, lappend}

  -- At most one connection is accepted, and it waits.
  abbrev pub Accepts : List Active → Type 0
  Accepts front =
      (front ≡ [])
      ⊎ ((p : ℕ) × (fd : ℕ) × (front
            ≡ record { address = p; conn = new_conn fd; arena = empty_arena } ∷ []))

  abbrev AcceptsIs : Cells → Shared Os → Type 0
  AcceptsIs l _ = Accepts (elements l)

  accepted-Accepts :
      (r : Answer ℕ) (os : Os) (m : Shared Os)
      → Leaves AcceptsIs
          (λ _. ⊥)
          (accepted platform sockets headers conns fuel req settings (r, os) m)
  unfolding accepted
  accepted-Accepts (got fd) os m =
      then_any platform AcceptsIs _ _
        (server_alloc-Stable platform (λ _. Unit {0}) (any platform) conn_size
          (record m { os = os }) tt)
        (λ p m1.
          let a : Active = record { address = p; conn = new_conn fd; arena = empty_arena } in
          Leaves-mono
            (λ l _.
              Behind platform headers appends sockets conns conns_append fuel req settings nil
                (a ∷ []) l)
            AcceptsIs (λ _. ⊥) (λ _. ⊥) _
            (lappend-Behind platform headers appends sockets conns conns_append fuel req settings
              nil a m1)
            (λ l m2 h. inr (p, fd, h ∙ ap (λ k. k ++ a ∷ []) conns_append.elements-nil)) (λ s e. e))
  accepted-Accepts (failed eagain) os m = inl conns_append.elements-nil
  accepted-Accepts (failed ewouldblock) os m = inl conns_append.elements-nil
  accepted-Accepts (failed eacces) os m =
      failed_exits platform (λ _. Unit {0}) (any platform) AcceptsIs eacces _ _ tt
  accepted-Accepts (failed enotdir) os m =
      failed_exits platform (λ _. Unit {0}) (any platform) AcceptsIs enotdir _ _ tt
  accepted-Accepts (failed enoent) os m =
      failed_exits platform (λ _. Unit {0}) (any platform) AcceptsIs enoent _ _ tt
  accepted-Accepts (failed eintr) os m =
      failed_exits platform (λ _. Unit {0}) (any platform) AcceptsIs eintr _ _ tt
  accepted-Accepts (failed other) os m =
      failed_exits platform (λ _. Unit {0}) (any platform) AcceptsIs other _ _ tt

  accept_conn-Accepts :
      (sock : ℕ) (r : List ℕ) (m : Shared Os)
      → Leaves AcceptsIs
          (λ _. ⊥)
          (accept_conn platform sockets headers conns fuel req settings sock r m)
  unfolding accept_conn
  accept_conn-Accepts sock r m = elim (Bool-cases (fd_isset sock r)) [
    | inl now ↦ rw now (accepted-Accepts (accept sock m.os).0 (accept sock m.os).1 m)
    | inr later ↦ rw later (inl conns_append.elements-nil)
  ]

  -- When `select` has answered with the sets `r` and `w`, the turn gives each connection its turn once,
  -- in the order of the list and behind the one that it accepts, if it does: a connection whose
  -- socket is not in the set for its state stays as it is, and one that is ready is kept with its
  -- socket, to send, or goes. `lappend` is as documented; no jump leaves the turn, and nothing is said of one
  -- that exits, fails an assertion, overruns a buffer or uses up its fuel.
  pub selected-Turned :
      (sock : ℕ) (cells : Cells) (r w : List ℕ) (os : Os) (m : Shared Os)
      → Leaves
          (λ l m'.
            (front : List Active) × Accepts front
            × TurnedBehind platform headers appends sockets conns conns_append fuel req settings r w
                (elements cells)
                front
                l
                m')
          (λ _. ⊥)
          (selected platform sockets headers conns fuel req settings sock cells (got (r, w), os) m)
  unfolding selected
  selected-Turned sock cells r w os m =
      let Result : Cells → Shared Os → Type 0 = λ l m'.
        (front : List Active) × Accepts front
        × TurnedBehind platform headers appends sockets conns conns_append fuel req settings r w
            (elements cells) front l m' in
      Leaves-and_then AcceptsIs (λ _. ⊥) Result (λ _. ⊥) _ _
        (accept_conn-Accepts sock r (record m { os = os })) (λ s e. e)
        (λ new m1 h.
          Leaves-and_then
            (TurnedBehind platform headers appends sockets conns conns_append fuel req settings r w
              (elements cells) (elements new))
            (λ _. ⊥) Result (λ _. ⊥) _ _
            (serve_all-Turned platform headers appends sockets conns conns_append fuel req settings
              r w (elements cells) new m1)
            (λ s e. e) (λ l m2 turned. (elements new, h, turned)))
