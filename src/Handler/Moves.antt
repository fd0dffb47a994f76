-- ===== src/Handler/Moves.antt =====
-- One call of `process_request_write` (src/handler.c) on a socket that takes bytes: it sends all, or some.
use cn_cw.Common.{
  length, ltb, ℕ, zero, suc, ◌<◌, ◌≡◌, ◌≢◌, refl, sym, subst, ◌∙◌, ◌⊎◌, inl, inr, Bool, true, false,
  [], ◌∷◌, arith, lt→ltb, ◌==◌, ◌||◌, Bool-cases, Bytes,
}
use cn_cw.Conn.{sending, complete, err_unrecoverable}
use cn_cw.Handler.{
  bytes_at, State, pending, refilled, refill, drained, drain, after_drain, after_refill, write_loop,
  write_file, process_request_write,
}
use cn_cw.Handler.Flows.{Flows, to_send, Stopped, Broken}
use cn_cw.Handler.Rounds.{Refilled, Drained, refill-Flows, drain-Flows}
use cn_cw.Handler.States.{give_up-Jumps}
use cn_cw.Handler.States.{Broken as Unusable}
use cn_cw.Handler.Stream.{write_loop-Flows, StoppedBy}
use cn_cw.Handler.Streams.{Streams, Progress}
use cn_cw.Log.{stderr_fileno}
use cn_cw.Log.Bounds.{LogsFit}
use cn_cw.Outcome.{Ensures, Ensures-and_then, Ensures-mono, Ensures-both, Leaves}
use cn_cw.Platform.{
  Platform, Answer, got, failed, Errno, eacces, enotdir, enoent, eagain, ewouldblock, eintr, other,
}

-- What `select` promises of a socket that it reports as writable: a write does not block, also
-- after a read from the file.
pub record Readiness (p : Platform) (f s : ℕ) : Type 1 where
  pub Ready : p.Os → Type 0
  pub read_ready : (n : ℕ) (os : p.Os) → Ready os → Ready (p.read f n os).1
  pub write_ready :
      (bs : Bytes) (os : p.Os) {err : Errno} {os' : p.Os}
      → Ready os
      → p.write s bs os ≡ (failed err, os')
      → (err ≢ eagain) × (err ≢ ewouldblock)

module _ (platform : Platform) (streams : Streams platform) (fit : LogsFit platform) (f s : ℕ)
    (readiness : Readiness platform f s) where
  open platform use {Os, read, write}
  open streams use {unread, sent}
  open readiness use {Ready}

  -- The file and the socket are left alone, and the socket takes bytes.
  abbrev pub Opens : (Os → Os) → Type 0
  Opens turn =
      (os : Os)
      → (unread (turn os) f ≡ unread os f) × (sent (turn os) s ≡ sent os s) × Ready (turn os)

  refilled-Ready :
      (r : Answer Bytes × Os) (m : State platform)
      → Ready r.1
      → Leaves (λ _ m1. Ready m1.os) (Unusable platform) (refilled platform r m)
  unfolding refilled
  refilled-Ready (got [], os) m h = h
  refilled-Ready (got (b ∷ bs), os) m h =
      elim (Bool-cases (ltb (length (bytes_at m.client.read_buf)) (length (b ∷ bs)))) [
        | inl e ↦ rw e tt
        | inr e ↦ rw e (h)
      ]
  refilled-Ready (failed err, os) m h =
      give_up-Jumps platform err_unrecoverable err _ _ (λ _ m1. Ready m1.os)

  refill-Ready :
      (m : State platform)
      → Ready m.os
      → Leaves (λ _ m1. Ready m1.os) (Unusable platform) (refill platform f m)
  unfolding refill
  refill-Ready m h =
      let c = m.client in
      elim (Bool-cases (c.read_buf_len == 0 || c.read_buf_cursor == c.read_buf_len)) [
        | inl used ↦ rw used (refilled-Ready _ m (readiness.read_ready _ m.os h))
        | inr left ↦ rw left h
      ]

  module _ (total : Bytes) (f_ne : stderr_fileno ≢ f) (s_ne : stderr_fileno ≢ s) where
    abbrev FlowsIs : State platform → Type 0
    FlowsIs = Flows platform streams fit f s total

    abbrev BrokenIs : State platform → Type 0
    BrokenIs = Broken platform streams fit f s total

    abbrev left : State platform → ℕ
    left = to_send platform streams fit f

    -- A visit that ends: all is sent, or there is less to send.
    abbrev pub Moved : ℕ → State platform → Type 0
    Moved bound m =
        FlowsIs m
        × (((m.client.state ≡ complete) × (sent m.os s ≡ total))
            ⊎ ((m.client.state ≡ sending) × (left m < bound)))

    drained-Ready :
        (r : Answer ℕ) (os : Os) (m : State platform)
        → Ready m.os
        → write s (pending m.client) m.os ≡ (r, os)
        → Leaves (λ blocked _. blocked ≡ false) (Unusable platform) (drained platform (r, os) m)
    unfolding drained
    drained-Ready (got n) os m h e = refl
    drained-Ready (failed eagain) os m h e =
        absurd ((readiness.write_ready (pending m.client) m.os h e).0 refl)
    drained-Ready (failed ewouldblock) os m h e =
        absurd ((readiness.write_ready (pending m.client) m.os h e).1 refl)
    drained-Ready (failed eacces) os m h e =
        give_up-Jumps platform err_unrecoverable eacces _ _ (λ blocked _. blocked ≡ false)
    drained-Ready (failed enotdir) os m h e =
        give_up-Jumps platform err_unrecoverable enotdir _ _ (λ blocked _. blocked ≡ false)
    drained-Ready (failed enoent) os m h e =
        give_up-Jumps platform err_unrecoverable enoent _ _ (λ blocked _. blocked ≡ false)
    drained-Ready (failed eintr) os m h e =
        give_up-Jumps platform err_unrecoverable eintr _ _ (λ blocked _. blocked ≡ false)
    drained-Ready (failed other) os m h e =
        give_up-Jumps platform err_unrecoverable other _ _ (λ blocked _. blocked ≡ false)

    drain-Ready :
        (m : State platform)
        → Ready m.os
        → m.client.sock_fd ≡ s
        → m.client.read_buf_cursor < m.client.read_buf_len
        → Leaves (λ blocked _. blocked ≡ false) (Unusable platform) (drain platform m)
    unfolding drain
    drain-Ready m h is_s more = rw (lt→ltb m.client.read_buf_cursor m.client.read_buf_len more) (
        subst
          (λ k.
            Leaves (λ blocked _. blocked ≡ false) (Unusable platform)
              (drained platform (write k (pending m.client) m.os) m))
          (sym is_s) (drained-Ready _ _ m h refl))

    -- The rest of the first round, which does not block.
    after_drain-Moved :
        (fuel : ℕ) (m : State platform)
        → Progress platform
        → s ≢ f
        → m.client.state ≡ sending
        → left m < fuel
        → (blocked : Bool) (m2 : State platform)
        → Drained platform streams fit f s total f_ne s_ne m blocked m2
        → blocked ≡ false
        → Ensures
            (λ _. Moved (left m))
            BrokenIs
            (λ _. ⊥)
            (after_drain platform (write_loop platform fuel f) blocked m2)
    unfolding after_drain Drained Stopped
    after_drain-Moved fuel m progress apart is_sending enough true m2 d e = cc
    after_drain-Moved fuel m progress apart is_sending enough false m2 d e =
        Ensures-mono
          (λ _. StoppedBy platform streams fit f s total f_ne s_ne (left m2) m2.client.state)
          (λ _. Moved (left m)) BrokenIs (λ _. ⊥) (write_loop platform fuel f m2)
          (write_loop-Flows platform streams fit f s total f_ne s_ne (left m2) fuel m2 progress
            apart d.0 (omega arith) (omega (arith, d.2, enough)))
          (λ _ m3 (stopped, le). (
            stopped.0,
            elim stopped.1 [
              | inl all ↦ inl all
              | inr (same, _) ↦ inr (same ∙ d.1 ∙ is_sending, omega (arith, le, d.2))
            ],
          ))

    after_refill-Moved :
        (fuel : ℕ) (m : State platform)
        → Progress platform
        → s ≢ f
        → m.client.state ≡ sending
        → left m < fuel
        → (done : Bool) (m1 : State platform)
        → Refilled platform streams fit f s total f_ne s_ne m done m1
        → Ready m1.os
        → Ensures
            (λ _. Moved (left m))
            BrokenIs
            (λ _. ⊥)
            (after_refill platform (write_loop platform fuel f) done m1)
    unfolding after_refill Refilled
    after_refill-Moved fuel m progress apart is_sending enough true m1 r ready =
        (r.0, inl (r.1, r.2))
    after_refill-Moved fuel m progress apart is_sending enough false m1 r ready =
        subst
          (λ n.
            Ensures (λ _. Moved n) BrokenIs (λ _. ⊥)
              (after_refill platform (write_loop platform fuel f) false m1))
          r.3
          (Ensures-and_then
            (λ blocked m2.
              Drained platform streams fit f s total f_ne s_ne m1 blocked m2 × (blocked ≡ false))
            (λ _. Moved (left m1)) BrokenIs (λ _. ⊥) (drain platform m1)
            (after_drain platform (write_loop platform fuel f))
            (Ensures-both (Drained platform streams fit f s total f_ne s_ne m1)
              (λ blocked _. blocked ≡ false) BrokenIs (Unusable platform) (λ _. ⊥)
              (drain platform m1)
              (drain-Flows platform streams fit f s total f_ne s_ne m1 progress apart r.0 r.1)
              (drain-Ready m1 ready r.0.sock_is r.1))
            (λ blocked m2 (d, e).
              after_drain-Moved fuel m1 progress apart (r.2 ∙ is_sending)
                (omega (arith, enough, r.3)) blocked m2 d e))

    pub process_request_write-Moved :
        (fuel : ℕ) (m : State platform)
        → Progress platform
        → s ≢ f
        → FlowsIs m
        → Ready m.os
        → m.client.state ≡ sending
        → suc (left m) < fuel
        → Ensures (λ _. Moved (left m)) BrokenIs (λ _. ⊥) (process_request_write platform fuel m)
    unfolding process_request_write write_file write_loop
    process_request_write-Moved zero m progress apart w ready is_sending enough =
        absurd (omega arith)
    process_request_write-Moved (suc fuel) m progress apart w ready is_sending enough =
        subst
          (λ k.
            Ensures (λ _. Moved (left m)) BrokenIs (λ _. ⊥) (write_file platform (suc fuel) k m))
          (sym w.file_is)
          (Ensures-and_then
            (λ done m1. Refilled platform streams fit f s total f_ne s_ne m done m1 × Ready m1.os)
            (λ _. Moved (left m)) BrokenIs (λ _. ⊥) (refill platform f m)
            (after_refill platform (write_loop platform fuel f))
            (Ensures-both (Refilled platform streams fit f s total f_ne s_ne m)
              (λ _ m1. Ready m1.os) BrokenIs (Unusable platform) (λ _. ⊥) (refill platform f m)
              (refill-Flows platform streams fit f s total f_ne s_ne m w) (refill-Ready m ready))
            (λ done m1 (r, ready1).
              after_refill-Moved fuel m progress apart is_sending (omega (arith, enough)) done m1 r
                ready1))
