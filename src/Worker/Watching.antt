-- ===== src/Worker/Watching.antt =====
-- What `conn_loop` (src/server.c) asks `select` to watch.
use cn_cw.Common.{
  ℕ, ◌⊎◌, ◌≤◌, ◌<◌, ◌≡◌, refl, inl, inr, true, List, [], ◌∷◌, ◌++◌, All, arith, ◌==◌, ==_self,
  lt→ltb, ge→ltb, Bool-cases,
}
use cn_cw.Conn.{ConnectionState, waiting, sending, complete, err_recoverable, err_unrecoverable}
use cn_cw.Machine.{Shared}
use cn_cw.Outcome.{returns, overruns}
use cn_cw.Platform.{Platform}
use cn_cw.Sockets.{Sockets}
use cn_cw.Worker.{Active, Watch, fd_isset, raise_max, fd_set, watch_in, watch_all}

-- A connection that waits or sends, as those between two turns do (Worker/Kept.antt).
abbrev pub IsOpen : Active → Type 0
IsOpen a = (a.conn.state ≡ waiting) ⊎ (a.conn.state ≡ sending)

-- A socket is in the set for its state, and not above the maximum.
abbrev pub Watches : Watch → ConnectionState → ℕ → Type 0
Watches w s fd =
    (s ≡ waiting → fd_isset fd w.read_fset ≡ true)
    × (s ≡ sending → fd_isset fd w.write_fset ≡ true)
    × (fd ≤ w.max_fd)

abbrev pub Watched : Watch → Active → Type 0
Watched w a = Watches w a.conn.state a.conn.sock_fd

-- One set of descriptors is in another one.
abbrev pub Grows : Watch → Watch → Type 0
Grows v w =
    ((fd : ℕ) → fd_isset fd v.read_fset ≡ true → fd_isset fd w.read_fset ≡ true)
    × ((fd : ℕ) → fd_isset fd v.write_fset ≡ true → fd_isset fd w.write_fset ≡ true)
    × (v.max_fd ≤ w.max_fd)

Grows-Watched : (v w : Watch) (a : Active) → Grows v w → Watched v a → Watched w a
Grows-Watched v w a g h =
    (λ e. g.0 a.conn.sock_fd (h.0 e), λ e. g.1 a.conn.sock_fd (h.1 e), omega (arith, g.2, h.2))

Grows-trans : (u v w : Watch) → Grows u v → Grows v w → Grows u w
Grows-trans u v w g h =
    (λ fd e. h.0 fd (g.0 fd e), λ fd e. h.1 fd (g.1 fd e), omega (arith, g.2, h.2))

fd_isset-cons : (fd : ℕ) (fset : List ℕ) → fd_isset fd (fd ∷ fset) ≡ true
unfolding fd_isset
fd_isset-cons fd fset = rw (==_self fd) refl

fd_isset-weaken :
    (x fd : ℕ) (fset : List ℕ) → fd_isset fd fset ≡ true → fd_isset fd (x ∷ fset) ≡ true
unfolding fd_isset
fd_isset-weaken x fd fset h = elim (Bool-cases (x == fd)) [ inl e ↦ rw e refl | inr e ↦ rw e h ]

raise_max_bounds :
    (fd : ℕ) (w : Watch) → (fd ≤ (raise_max fd w).max_fd) × (w.max_fd ≤ (raise_max fd w).max_fd)
unfolding raise_max
raise_max_bounds fd w = ground arith

module _ (platform : Platform) (sockets : Sockets platform) where
  open platform use {Os}
  open sockets use {fd_setsize}

  -- One connection that waits or sends, and whose socket fits the sets.
  watch-Watches :
      (s : ConnectionState) (fd : ℕ) (w : Watch) (m : Shared Os)
      → (s ≡ waiting) ⊎ (s ≡ sending)
      → fd < fd_setsize
      → (w' : Watch) × (watch_in platform sockets s fd w m ≡ returns w' m)
        × Grows w (raise_max fd w')
        × Watches (raise_max fd w') s fd
  unfolding watch_in fd_set raise_max
  watch-Watches waiting fd w m k small = (
    record w { read_fset = fd ∷ w.read_fset },
    rw (lt→ltb fd fd_setsize small) refl,
    (λ x e. fd_isset-weaken fd x w.read_fset e, λ x e. e, (raise_max_bounds fd w).1),
    (λ _. fd_isset-cons fd w.read_fset, λ e. cc, (raise_max_bounds fd w).0),
  )
  watch-Watches sending fd w m k small = (
    record w { write_fset = fd ∷ w.write_fset },
    rw (lt→ltb fd fd_setsize small) refl,
    (λ x e. e, λ x e. fd_isset-weaken fd x w.write_fset e, (raise_max_bounds fd w).1),
    (λ e. cc, λ _. fd_isset-cons fd w.write_fset, (raise_max_bounds fd w).0),
  )
  watch-Watches complete fd w m (inl e) small = cc
  watch-Watches complete fd w m (inr e) small = cc
  watch-Watches err_recoverable fd w m (inl e) small = cc
  watch-Watches err_recoverable fd w m (inr e) small = cc
  watch-Watches err_unrecoverable fd w m (inl e) small = cc
  watch-Watches err_unrecoverable fd w m (inr e) small = cc

  watch-overruns :
      (s : ConnectionState) (fd : ℕ) (w : Watch) (m : Shared Os)
      → (s ≡ waiting) ⊎ (s ≡ sending)
      → fd_setsize ≤ fd
      → watch_in platform sockets s fd w m ≡ overruns m
  unfolding watch_in fd_set
  watch-overruns waiting fd w m k large = rw (ge→ltb fd fd_setsize large) refl
  watch-overruns sending fd w m k large = rw (ge→ltb fd fd_setsize large) refl
  watch-overruns complete fd w m (inl e) large = cc
  watch-overruns complete fd w m (inr e) large = cc
  watch-overruns err_recoverable fd w m (inl e) large = cc
  watch-overruns err_recoverable fd w m (inr e) large = cc
  watch-overruns err_unrecoverable fd w m (inl e) large = cc
  watch-overruns err_unrecoverable fd w m (inr e) large = cc

  -- Over connections that wait or send, all of whose sockets fit the sets, the first loop of `conn_loop`
  -- fails no assertion and overruns no set; what was in the sets stays there, each waiting
  -- connection is watched for reading and each sending one for writing, and no socket is above the
  -- maximum that `select` gets.
  pub watch_all-Watched :
      (todo : List Active) (w : Watch) (m : Shared Os)
      → All IsOpen todo
      → All (λ a. a.conn.sock_fd < fd_setsize) todo
      → (w' : Watch) × (watch_all platform sockets todo w m ≡ returns w' m)
        × Grows w w'
        × All (Watched w') todo
  unfolding watch_all
  watch_all-Watched [] w m k small = (w, refl, (λ x e. e, λ x e. e, omega arith), tt)
  watch_all-Watched (a ∷ todo) w m k small =
      let (w1, e1, g1, h1) = watch-Watches a.conn.state a.conn.sock_fd w m k.0 small.0 in
      let (w2, e2, g2, h2) = watch_all-Watched todo (raise_max a.conn.sock_fd w1) m k.1 small.1 in
      (
        w2,
        rw e1 e2,
        Grows-trans w (raise_max a.conn.sock_fd w1) w2 g1 g2,
        (Grows-Watched (raise_max a.conn.sock_fd w1) w2 a g2 h1, h2),
      )

  -- Over connections that wait or send, the first socket that does not fit the sets makes the first
  -- loop of `conn_loop` write outside of its set.
  pub watch_all-overruns :
      (before after : List Active) (a : Active) (w : Watch) (m : Shared Os)
      → All IsOpen before
      → All (λ b. b.conn.sock_fd < fd_setsize) before
      → IsOpen a
      → fd_setsize ≤ a.conn.sock_fd
      → watch_all platform sockets (before ++ a ∷ after) w m ≡ overruns m
  unfolding watch_all
  watch_all-overruns [] after a w m k small ka large =
      rw (watch-overruns a.conn.state a.conn.sock_fd w m ka large) refl
  watch_all-overruns (b ∷ before) after a w m k small ka large =
      let (w1, e1, _, _) = watch-Watches b.conn.state b.conn.sock_fd w m k.0 small.0 in
      rw e1 (watch_all-overruns before after a (raise_max b.conn.sock_fd w1) m k.1 small.1 ka large)
