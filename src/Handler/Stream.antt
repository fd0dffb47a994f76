-- ===== src/Handler/Stream.antt =====
-- What `process_request_write` (src/handler.c) does to the bytes of the file: the socket gets all
-- of them, in order and once.
use cn_cw.Common.{
  ℕ, zero, suc, ◌<◌, ◌≤◌, ◌≡◌, ◌++◌, ◌≢◌, ap, length, length-append, sym, subst, inl, inr, Bool,
  true, false, arith, Bytes,
}
use cn_cw.Conn.{ConnectionState}
use cn_cw.Handler.{
  State, refill, drain, after_drain, after_refill, write_loop, write_file, process_request_write,
  pending,
}
use cn_cw.Log.{stderr_fileno}
use cn_cw.Log.Bounds.{LogsFit}
use cn_cw.Outcome.{Outcome, Ensures, Ensures-and_then, Ensures-mono}
use cn_cw.Platform.{Platform}
use cn_cw.Handler.Flows.{Flows, Stopped, Broken, to_send}
use cn_cw.Handler.Rounds.{Drained, Refilled, drain-Flows, refill-Flows}
use cn_cw.Handler.Streams.{Streams, Progress}

module _ (platform : Platform) (streams : Streams platform) (fit : LogsFit platform) where
  open streams use {unread, sent}

  module _ (f s : ℕ) (total : Bytes) (f_ne : stderr_fileno ≢ f) (s_ne : stderr_fileno ≢ s) where
    -- The loop stopped with at most `bound` bytes to send.
    abbrev pub StoppedBy : ℕ → ConnectionState → State platform → Type 0
    StoppedBy bound state m =
        Stopped platform streams fit f s total state m × (to_send platform streams fit f m ≤ bound)

    abbrev Ends : ℕ → ConnectionState → Outcome (State platform) (Unit {0}) → Type 0
    Ends bound state =
        Ensures (λ _. StoppedBy bound state) (Broken platform streams fit f s total) (λ _. ⊥)

    pub nothing_left :
        (m : State platform)
        → Flows platform streams fit f s total m
        → sent m.os s ≡ total
        → to_send platform streams fit f m ≡ 0
    unfolding to_send
    nothing_left m w all = omega (
      arith,
      ap length w.conserved,
      ap length all,
      length-append (sent m.os s) (pending m.client ++ unread m.os f),
      length-append (pending m.client) (unread m.os f),
    )

    -- The rest of a round, when the next rounds `again` end well from fewer bytes.
    pub after_drain-Flows :
        (bound : ℕ) (again : State platform → Outcome (State platform) (Unit {0}))
        (m : State platform)
        → to_send platform streams fit f m ≤ bound
        → ((m2 : State platform)
            → Flows platform streams fit f s total m2
            → to_send platform streams fit f m2 < to_send platform streams fit f m
            → Ends bound m2.client.state (again m2))
        → (blocked : Bool) (m2 : State platform)
        → Drained platform streams fit f s total f_ne s_ne m blocked m2
        → Ends bound m.client.state (after_drain platform again blocked m2)
    unfolding after_drain Drained Stopped
    after_drain-Flows bound again m le next true m2 d =
        ((d.0, inr (d.1, d.2)), omega (arith, le, d.3))
    after_drain-Flows bound again m le next false m2 d =
        subst (λ k. Ends bound k (again m2)) d.1 (next m2 d.0 d.2)

    after_refill-Flows :
        (bound : ℕ) (again : State platform → Outcome (State platform) (Unit {0}))
        (m : State platform)
        → Progress platform
        → s ≢ f
        → to_send platform streams fit f m ≤ bound
        → ((m2 : State platform)
            → Flows platform streams fit f s total m2
            → to_send platform streams fit f m2 < to_send platform streams fit f m
            → Ends bound m2.client.state (again m2))
        → (done : Bool) (m1 : State platform)
        → Refilled platform streams fit f s total f_ne s_ne m done m1
        → Ends bound m.client.state (after_refill platform again done m1)
    unfolding after_refill Refilled Stopped
    after_refill-Flows bound again m progress apart le next true m1 r =
        ((r.0, inl (r.1, r.2)), omega (arith, nothing_left m1 r.0 r.2))
    after_refill-Flows bound again m progress apart le next false m1 r =
        subst (λ k. Ends bound k (after_refill platform again false m1)) r.2
          (Ensures-and_then (Drained platform streams fit f s total f_ne s_ne m1)
            (λ _. StoppedBy bound m1.client.state) (Broken platform streams fit f s total) (λ _. ⊥)
            (drain platform m1) (after_drain platform again)
            (drain-Flows platform streams fit f s total f_ne s_ne m1 progress apart r.0 r.1)
            (after_drain-Flows bound again m1 (omega (arith, le, r.3))
              (λ m2 w2 less. next m2 w2 (omega (arith, r.3)))))

    pub write_loop-Flows :
        (bound fuel : ℕ) (m : State platform)
        → Progress platform
        → s ≢ f
        → Flows platform streams fit f s total m
        → to_send platform streams fit f m ≤ bound
        → to_send platform streams fit f m < fuel
        → Ends bound m.client.state (write_loop platform fuel f m)
    unfolding write_loop
    write_loop-Flows bound zero m progress apart w le enough = absurd (omega arith)
    write_loop-Flows bound (suc fuel) m progress apart w le enough =
        Ensures-and_then (Refilled platform streams fit f s total f_ne s_ne m)
          (λ _. StoppedBy bound m.client.state) (Broken platform streams fit f s total) (λ _. ⊥)
          (refill platform f m) (after_refill platform (write_loop platform fuel f))
          (refill-Flows platform streams fit f s total f_ne s_ne m w)
          (after_refill-Flows bound (write_loop platform fuel f) m progress apart le (λ m2 w2 less.
            write_loop-Flows bound fuel m2 progress apart w2 (omega (arith, le)) (omega arith)))

    -- The same, with a bound on what is left.
    pub process_request_write-StoppedBy :
        (fuel : ℕ) (m : State platform)
        → Progress platform
        → s ≢ f
        → Flows platform streams fit f s total m
        → to_send platform streams fit f m < fuel
        → Ends
            (to_send platform streams fit f m)
            m.client.state
            (process_request_write platform fuel m)
    unfolding process_request_write write_file
    process_request_write-StoppedBy fuel m progress apart w enough =
        let bound = to_send platform streams fit f m in
        subst (λ k. Ends bound m.client.state (write_file platform fuel k m)) (sym w.file_is)
          (write_loop-Flows bound fuel m progress apart w (omega arith) enough)

    -- `process_request_write` loses, repeats and reorders no byte of the file, and ends. It sends
    -- file `f` to socket `s`, two descriptors other than standard error, the buffer has as many bytes
    -- as the connection says, and the fuel is more than the number of bytes to send. When it
    -- returns, either the connection is complete and the socket has taken all of `total`, or the
    -- socket has just refused the bytes that are left in the buffer with EAGAIN or EWOULDBLOCK, the
    -- state is as before and what the socket has taken, the buffer and the rest of the file still
    -- make up `total`; when it aborts the request, they do so too and the connection is marked as
    -- broken. No assertion fails, and no access leaves the buffer. `read` and `write` are as
    -- documented, and a write that succeeds takes a byte at least.
    pub process_request_write-Flows :
        (fuel : ℕ) (m : State platform)
        → Progress platform
        → s ≢ f
        → Flows platform streams fit f s total m
        → to_send platform streams fit f m < fuel
        → Ensures
            (λ _. Stopped platform streams fit f s total m.client.state)
            (Broken platform streams fit f s total)
            (λ _. ⊥)
            (process_request_write platform fuel m)
    process_request_write-Flows fuel m progress apart w enough =
        Ensures-mono (λ _. StoppedBy (to_send platform streams fit f m) m.client.state)
          (λ _. Stopped platform streams fit f s total m.client.state)
          (Broken platform streams fit f s total) (λ _. ⊥) (process_request_write platform fuel m)
          (process_request_write-StoppedBy fuel m progress apart w enough) (λ _ m' h. h.0)
