-- ===== src/Handler/Rounds.antt =====
-- What each half of a round of `process_request_write` (src/handler.c) does to the bytes of the file.
use cn_cw.Common.{
  ge→ltb, ℕ, ◌+◌, ◌-◌, ◌<◌, ◌≤◌, ◌≡◌, ◌≢◌, refl, sym, ap, subst, ◌∙◌, inl, inr, Bool, true, false,
  [], ◌∷◌, ◌++◌, arith, ◌==◌, ◌||◌, Bytes, codes, length, take, drop, length-append,
  take-append-drop, append-nil, append_assoc, lt→ltb, Bool-cases,
}
use cn_cw.Conn.{complete}
use cn_cw.Handler.{State, bytes_at, pending, refilled, refill, drained, drain}
use cn_cw.Log.{stderr_fileno}
use cn_cw.Log.Bounds.{LogsFit}
use cn_cw.Outcome.{Ensures}
use cn_cw.Platform.{
  Platform, Answer, got, failed, Errno, eacces, enotdir, enoent, eagain, ewouldblock, eintr, other,
}
use cn_cw.Handler.Streams.{
  Streams, Progress, length-pending, pending-overwrite, length-overwrite, length-overwrite_ge,
  nil_of_length, pending-advance,
}
use cn_cw.Handler.Flows.{Flows, to_send, Blocked, Broken, Flows-os, Flows-state, give_up-Broken}

module _ (platform : Platform) (streams : Streams platform) (fit : LogsFit platform) (f s : ℕ)
    (total : Bytes) (f_ne : stderr_fileno ≢ f) (s_ne : stderr_fileno ≢ s) where
  open platform use {Os, read, write}
  open streams use {
    unread, sent, read_got, read_end, read_failed, read_sent, write_got, write_failed, write_unread,
  }

  abbrev FlowsIs : State platform → Type 0
  FlowsIs = Flows platform streams fit f s total

  abbrev BrokenIs : State platform → Type 0
  BrokenIs = Broken platform streams fit f s total

  -- A round's read: at the end of the file all is sent; else there are bytes to write.
  unfoldable pub Refilled : State platform → Bool → State platform → Type 0
  Refilled m true m1 = FlowsIs m1 × (m1.client.state ≡ complete) × (sent m1.os s ≡ total)
  Refilled m false m1 =
      FlowsIs m1
      × (m1.client.read_buf_cursor < m1.client.read_buf_len)
      × (m1.client.state ≡ m.client.state)
      × (to_send platform streams fit f m1 ≡ to_send platform streams fit f m)

  refilled-Flows :
      (m : State platform) (r : Answer Bytes) (os : Os)
      → FlowsIs m
      → pending m.client ≡ []
      → read f m.client.read_buf_size m.os ≡ (r, os)
      → Ensures (Refilled m) (BrokenIs) (λ _. ⊥) (refilled platform (r, os) m)
  unfolding refilled Refilled to_send
  refilled-Flows m (got []) os w empty e =
      let ended = read_end f _ m.os e w.buffered.room in
      let same : unread os f ≡ unread m.os f = sym (read_got f _ m.os e).0 in
      let sent_same : sent os s ≡ sent m.os s =
        ap (λ r. sent r.1 s) (sym e) ∙ read_sent f _ m.os s in
      (
        Flows-state platform streams fit complete
            (Flows-os platform streams fit os w same sent_same),
        refl,
        sent_same ∙ (rw (empty, ended, append-nil) at w.conserved),
      )
  refilled-Flows m (got (b ∷ bs)) os w empty e =
      let (came, some_le) = read_got f _ m.os e in
      let sent_same : sent os s ≡ sent m.os s =
        ap (λ r. sent r.1 s) (sym e) ∙ read_sent f _ m.os s in
      let new = pending-overwrite m.client b bs in
      let fits : length (b ∷ bs) ≤ length (bytes_at m.client.read_buf) =
        omega (arith, some_le, w.buffered.size_le) in
      rw (ge→ltb (length (bytes_at m.client.read_buf)) (length (b ∷ bs)) fits) (
        record {
          file_is = w.file_is;
          sock_is = w.sock_is;
          buffered = record {
            cursor_le = omega arith;
            len_le = length-overwrite (bytes_at m.client.read_buf) (b ∷ bs);
            size_le = omega (
              arith,
              w.buffered.size_le,
              length-overwrite_ge (bytes_at m.client.read_buf) (b ∷ bs),
            );
            room = w.buffered.room;
          };
          conserved = rw (new, sent_same) (rw (empty, came) at w.conserved);
        },
        omega arith,
        refl,
        omega
            (arith, ap length new, ap length empty, ap length came, length-append bs (unread os f)),
      )
  refilled-Flows m (failed err) os w empty e =
      give_up-Broken platform streams fit f s total f_ne s_ne (Refilled m) err
        (codes "failed to read from file") (record m { os = os }) (omega arith)
        (Flows-os platform streams fit os w (read_failed f _ m.os e)
          (ap (λ r. sent r.1 s) (sym e) ∙ read_sent f _ m.os s))

  pub refill-Flows :
      (m : State platform)
      → FlowsIs m
      → Ensures (Refilled m) (BrokenIs) (λ _. ⊥) (refill platform f m)
  unfolding refill Refilled
  refill-Flows m w =
      let c = m.client in
      elim (Bool-cases (c.read_buf_len == 0 || c.read_buf_cursor == c.read_buf_len)) [
        | inl used ↦
            let empty =
              nil_of_length (pending c)
                (ground (arith, length-pending w.buffered, w.buffered.cursor_le)) in
            rw used (refilled-Flows m _ _ w empty refl)
        | inr left ↦ rw left (w, ground (arith, w.buffered.cursor_le), refl, refl)
      ]

  -- A round's write.
  unfoldable pub Drained : State platform → Bool → State platform → Type 0
  Drained m true m1 =
      FlowsIs m1
      × (m1.client.state ≡ m.client.state)
      × Blocked platform streams fit s m1
      × (to_send platform streams fit f m1 ≡ to_send platform streams fit f m)
  Drained m false m1 =
      FlowsIs m1
      × (m1.client.state ≡ m.client.state)
      × (to_send platform streams fit f m1 < to_send platform streams fit f m)

  write_kept :
      (m : State platform) (err : Errno) (os : Os)
      → s ≢ f
      → FlowsIs m
      → write s (pending m.client) m.os ≡ (failed err, os)
      → FlowsIs (record m { os = os })
  write_kept m err os apart w e =
      Flows-os platform streams fit os w
        (ap (λ r. unread r.1 f) (sym e) ∙ write_unread s _ m.os f apart) (write_failed s _ m.os e)

  kept_to_send :
      (m : State platform) (err : Errno) (os : Os)
      → s ≢ f
      → write s (pending m.client) m.os ≡ (failed err, os)
      → to_send platform streams fit f (record m { os = os }) ≡ to_send platform streams fit f m
  unfolding to_send
  kept_to_send m err os apart e =
      omega
        (arith, ap (λ r. length (unread r.1 f)) (sym e) ∙ ap length (write_unread s _ m.os f apart))

  write_moved :
      (m : State platform) (n : ℕ) (os : Os)
      → s ≢ f
      → FlowsIs m
      → write s (pending m.client) m.os ≡ (got n, os)
      → FlowsIs (record m {
        os = os;
        client = record m.client { read_buf_cursor = m.client.read_buf_cursor + n };
      })
  write_moved m n os apart w e =
      let c = m.client in
      let p = pending c in
      let (more_sent, n_le) = write_got s p m.os e in
      let fits : n ≤ c.read_buf_len - c.read_buf_cursor =
        omega (arith, length-pending w.buffered) in
      let unread_same : unread os f ≡ unread m.os f =
        ap (λ r. unread r.1 f) (sym e) ∙ write_unread s p m.os f apart in
      let joined =
        append_assoc (sent m.os s) (take n p) (drop n p ++ unread m.os f)
        ∙ ap (◌++◌ (sent m.os s)) (
            sym (append_assoc (take n p) (drop n p) (unread m.os f))
            ∙ ap (λ t. t ++ unread m.os f) (take-append-drop n p)) in
      record {
        file_is = w.file_is;
        sock_is = w.sock_is;
        buffered = record {
          cursor_le = omega (arith, w.buffered.cursor_le);
          len_le = w.buffered.len_le;
          size_le = w.buffered.size_le;
          room = w.buffered.room;
        };
        conserved = rw (pending-advance c n fits, more_sent, unread_same) (joined ∙ w.conserved);
      }

  drained-Flows :
      (m : State platform) (r : Answer ℕ) (os : Os)
      → Progress platform
      → s ≢ f
      → FlowsIs m
      → m.client.read_buf_cursor < m.client.read_buf_len
      → write s (pending m.client) m.os ≡ (r, os)
      → Ensures (Drained m) (BrokenIs) (λ _. ⊥) (drained platform (r, os) m)
  unfolding drained Drained to_send Progress
  drained-Flows m (got n) os progress apart w more e =
      let len = length-pending w.buffered in
      let w' = write_moved m n os apart w e in
      let took = progress s (pending m.client) m.os n os e (omega (arith, len)) in
      let unread_same : unread os f ≡ unread m.os f =
        ap (λ r. unread r.1 f) (sym e) ∙ write_unread s (pending m.client) m.os f apart in
      (w', refl, omega (arith, took, len, length-pending w'.buffered, ap length unread_same))
  drained-Flows m (failed eagain) os progress apart w more e = (
    write_kept m eagain os apart w e,
    refl,
    record { before = m.os; err = eagain; refused = e; would_block = inl refl; bytes_left = more },
    kept_to_send m eagain os apart e,
  )
  drained-Flows m (failed ewouldblock) os progress apart w more e = (
    write_kept m ewouldblock os apart w e,
    refl,
    record {
      before = m.os;
      err = ewouldblock;
      refused = e;
      would_block = inr refl;
      bytes_left = more;
    },
    kept_to_send m ewouldblock os apart e,
  )
  drained-Flows m (failed eacces) os progress apart w more e =
      give_up-Broken platform streams fit f s total f_ne s_ne (Drained m) eacces
        (codes "failed to write to socket") (record m { os = os }) (omega arith)
        (write_kept m eacces os apart w e)
  drained-Flows m (failed enotdir) os progress apart w more e =
      give_up-Broken platform streams fit f s total f_ne s_ne (Drained m) enotdir
        (codes "failed to write to socket") (record m { os = os }) (omega arith)
        (write_kept m enotdir os apart w e)
  drained-Flows m (failed enoent) os progress apart w more e =
      give_up-Broken platform streams fit f s total f_ne s_ne (Drained m) enoent
        (codes "failed to write to socket") (record m { os = os }) (omega arith)
        (write_kept m enoent os apart w e)
  drained-Flows m (failed eintr) os progress apart w more e =
      give_up-Broken platform streams fit f s total f_ne s_ne (Drained m) eintr
        (codes "failed to write to socket") (record m { os = os }) (omega arith)
        (write_kept m eintr os apart w e)
  drained-Flows m (failed other) os progress apart w more e =
      give_up-Broken platform streams fit f s total f_ne s_ne (Drained m) other
        (codes "failed to write to socket") (record m { os = os }) (omega arith)
        (write_kept m other os apart w e)

  pub drain-Flows :
      (m : State platform)
      → Progress platform
      → s ≢ f
      → FlowsIs m
      → m.client.read_buf_cursor < m.client.read_buf_len
      → Ensures (Drained m) (BrokenIs) (λ _. ⊥) (drain platform m)
  unfolding drain
  drain-Flows m progress apart w more =
      let go =
        drained-Flows m (write s (pending m.client) m.os).0 (write s (pending m.client) m.os).1
          progress apart w more refl in
      rw (lt→ltb m.client.read_buf_cursor m.client.read_buf_len more) (
        subst
          (λ k.
            Ensures (Drained m) (BrokenIs) (λ _. ⊥)
              (drained platform (write k (pending m.client) m.os) m))
          (sym w.sock_is) go)
