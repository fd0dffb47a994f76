-- ===== src/Worker/Reach.antt =====
-- The states that a worker of src/server.c can reach: it starts with no connection, and each turn of
-- `conn_loop` that returns leads to the next.
use cn_cw.Common.{ℕ, ◌+◌, ◌≡◌, ap, subst, sym, arith, All}
use cn_cw.Conn.{Conn, HttpHeader, ServerSettings}
use cn_cw.Descriptors.{Descriptors, OpensNothing}
use cn_cw.Http.{HttpReq}
use cn_cw.Machine.{Shared}
use cn_cw.Outcome.{returns, Leaves}
use cn_cw.PgList.{PgList, Appends}
use cn_cw.Platform.{Platform}
use cn_cw.Sockets.{Sockets}
use cn_cw.Worker.{Active, conn_loop}
use cn_cw.Worker.Descriptors.{conn_loop-Balanced}
use cn_cw.Worker.Open.{Balanced, held}
use cn_cw.Worker.Kept.{conn_loop-AllKept}
use cn_cw.Worker.States.{Kept}

module _ (platform : Platform) (sockets : Sockets platform)
    (headers : PgList (platform.Os) HttpHeader Conn) (appends : Appends headers)
    (conns : PgList (platform.Os) Active (Unit {0})) (conns_append : Appends conns) (fuel : ℕ)
    (req : HttpReq) (settings : ServerSettings) (sock : ℕ) where
  open platform use {Os}
  open conns use {Cells, nil, elements}

  pub data Reach (start : Shared Os) : Cells → Shared Os → Type 0 where
    first : Reach start nil start
    turn :
        {cells cells' : Cells} {m m' : Shared Os}
        → Reach start cells m
        → conn_loop platform sockets headers conns fuel req settings sock cells m
          ≡ returns cells' m'
        → Reach start cells' m'

  -- Every connection of a reachable worker sends a file that it has, or waits and nothing was read
  -- from it yet.
  pub Reach-Kept :
      {start m : Shared Os} {cells : Cells} → Reach start cells m → All Kept (elements cells)
  Reach-Kept first = subst (All Kept) (sym conns_append.elements-nil) tt
  Reach-Kept (turn {cells} {cells'} {m} {m'} r e) =
      subst (Leaves (λ c _. All Kept (elements c)) (λ _. ⊥)) e (
        conn_loop-AllKept platform sockets headers appends conns conns_append fuel req settings sock
          cells m (Reach-Kept r))

  -- A reachable worker has open what it started with and what its connections hold, and no more.
  pub Reach-Balanced :
      (descriptors : Descriptors platform sockets) (quiet : OpensNothing descriptors headers)
      (conns_quiet : OpensNothing descriptors conns) {start m : Shared Os} {cells : Cells} (x : ℕ)
      → Reach start cells m
      → descriptors.opened m.os x ≡ descriptors.opened start.os x + held (elements cells) x
  unfolding held
  Reach-Balanced descriptors quiet conns_quiet x first =
      omega (arith, ap (λ l. held l x) conns_append.elements-nil)
  Reach-Balanced descriptors quiet conns_quiet {start} x (turn {cells} {cells'} {m} {m'} r e) =
      subst
        (Leaves (Balanced platform descriptors x conns (descriptors.opened start.os x)) (λ _. ⊥)) e
        (conn_loop-Balanced platform descriptors x headers appends quiet conns conns_append
          conns_quiet fuel req settings (descriptors.opened start.os x) sock cells m
          (Reach-Balanced descriptors quiet conns_quiet x r))
