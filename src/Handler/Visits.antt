-- ===== src/Handler/Visits.antt =====
-- A connection that sends a file, over many calls of `process_request_write` (src/handler.c): it is
-- called again whenever the socket takes bytes, until the connection is complete.
use cn_cw.Common.{
  refl, ℕ, suc, ◌<◌, ◌≡◌, ◌≢◌, sym, ap, subst, inl, inr, List, [], ◌∷◌, All, arith, Bytes, length,
}
use cn_cw.Conn.{ConnectionState, waiting, sending, complete, err_recoverable, err_unrecoverable}
use cn_cw.Handler.{State, process_request_write}
use cn_cw.Handler.Flows.{Flows, Flows-os, to_send, Broken}
use cn_cw.Handler.Streams.{Streams, Progress}
use cn_cw.Log.{stderr_fileno}
use cn_cw.Log.Bounds.{LogsFit}
use cn_cw.Outcome.{returns, Cmd, and_then, Ensures, Ensures-and_then}
use cn_cw.Platform.{Platform}
use cn_cw.Handler.Moves.{Readiness, Opens, Moved, process_request_write-Moved}

module _ (platform : Platform) where
  open platform use {Os, read, write}

  if_sending : ConnectionState → Cmd (State platform) (Unit {0}) → Cmd (State platform) (Unit {0})
  if_sending waiting k m = returns tt m
  if_sending sending k m = k m
  if_sending complete k m = returns tt m
  if_sending err_recoverable k m = returns tt m
  if_sending err_unrecoverable k m = returns tt m

  if_sending_stays :
      (s : ConnectionState) (k : Cmd (State platform) (Unit {0})) (m : State platform)
      → s ≢ sending
      → if_sending s k m ≡ returns tt m
  unfolding if_sending
  if_sending_stays waiting k m ne = refl
  if_sending_stays sending k m ne = absurd (ne refl)
  if_sending_stays complete k m ne = refl
  if_sending_stays err_recoverable k m ne = refl
  if_sending_stays err_unrecoverable k m ne = refl

  -- Calls of `process_request_write` for as long as the connection sends; `turns` are what happens
  -- to the system before each call.
  pub visits : ℕ → List (Os → Os) → Cmd (State platform) (Unit {0})
  visits fuel [] m = returns tt m
  visits fuel (turn ∷ turns) m =
      if_sending m.client.state
        (λ m1.
          and_then (process_request_write platform fuel (record m1 { os = turn m1.os }))
            (λ _. visits fuel turns))
        m

  -- A connection that does not send is not called.
  pub visits_stays :
      (fuel : ℕ) (turns : List (Os → Os)) (m : State platform)
      → m.client.state ≢ sending
      → visits fuel turns m ≡ returns tt m
  unfolding visits
  visits_stays fuel [] m ne = refl
  visits_stays fuel (turn ∷ turns) m ne = if_sending_stays m.client.state _ m ne

module _ (platform : Platform) (streams : Streams platform) (fit : LogsFit platform) (f s : ℕ)
    (readiness : Readiness platform f s) where
  open platform use {Os}
  open streams use {unread, sent}

  module _ (total : Bytes) (f_ne : stderr_fileno ≢ f) (s_ne : stderr_fileno ≢ s) where
    abbrev FlowsIs : State platform → Type 0
    FlowsIs = Flows platform streams fit f s total

    abbrev BrokenIs : State platform → Type 0
    BrokenIs = Broken platform streams fit f s total

    abbrev left : State platform → ℕ
    left = to_send platform streams fit f

    abbrev MovedIs : ℕ → State platform → Type 0
    MovedIs = Moved platform streams fit f s readiness total f_ne s_ne

    abbrev OpensIs : (Os → Os) → Type 0
    OpensIs = Opens platform streams fit f s readiness

    abbrev Sent : State platform → Type 0
    Sent m = FlowsIs m × (m.client.state ≡ complete) × (sent m.os s ≡ total)

    -- A call, and the calls after it.
    abbrev again : ℕ → (Os → Os) → List (Os → Os) → Cmd (State platform) (Unit {0})
    again fuel turn turns m =
        and_then (process_request_write platform fuel (record m { os = turn m.os }))
          (λ _. visits platform fuel turns)

    visits_complete :
        (fuel : ℕ) (turns : List (Os → Os)) (m : State platform)
        → Sent m
        → Ensures (λ _. Sent) BrokenIs (λ _. ⊥) (visits platform fuel turns m)
    unfolding visits if_sending
    visits_complete fuel [] m h = h
    visits_complete fuel (turn ∷ turns) m h =
        subst
          (λ k.
            Ensures (λ _. Sent) BrokenIs (λ _. ⊥) (if_sending platform k (again fuel turn turns) m))
          (sym h.1) h

    after_visit :
        (fuel : ℕ) (turns : List (Os → Os)) (bound : ℕ) (m : State platform)
        → ((m : State platform)
            → FlowsIs m
            → m.client.state ≡ sending
            → left m < bound
            → Ensures (λ _. Sent) BrokenIs (λ _. ⊥) (visits platform fuel turns m))
        → MovedIs bound m
        → Ensures (λ _. Sent) BrokenIs (λ _. ⊥) (visits platform fuel turns m)
    after_visit fuel turns bound m next (w, inl all) =
        visits_complete fuel turns m (w, all.0, all.1)
    after_visit fuel turns bound m next (w, inr (is_sending, less)) = next m w is_sending less

    turned :
        (turn : Os → Os) (m : State platform)
        → OpensIs turn
        → FlowsIs m
        → FlowsIs (record m { os = turn m.os }) × (left (record m { os = turn m.os }) ≡ left m)
    unfolding to_send
    turned turn m opens w =
        let (same_file, same_socket, _) = opens m.os in
        (
          Flows-os platform streams fit (turn m.os) w same_file same_socket,
          omega (arith, ap length same_file),
        )

    -- A connection that sends a file completes. It is called again and again, more often than there
    -- are bytes to send, and before each call anything may happen to the system that leaves file and socket
    -- alone and after which the socket takes bytes. Then the connection ends up complete, with
    -- all of `total` on the socket and nothing left of the file, or a call failed and it is marked as
    -- broken. The
    -- fuel of a call is two more than the number of bytes to send, a write that does not fail takes a
    -- byte, and file, socket and standard error are three descriptors.
    pub visits-Complete :
        (fuel : ℕ) (turns : List (Os → Os)) (m : State platform)
        → Progress platform
        → s ≢ f
        → FlowsIs m
        → m.client.state ≡ sending
        → All OpensIs turns
        → left m < length turns
        → suc (left m) < fuel
        → Ensures
            (λ _ m'. FlowsIs m' × (m'.client.state ≡ complete) × (sent m'.os s ≡ total))
            BrokenIs
            (λ _. ⊥)
            (visits platform fuel turns m)
    unfolding visits if_sending
    visits-Complete fuel [] m progress apart w is_sending opens many enough = absurd (omega arith)
    visits-Complete fuel (turn ∷ turns) m progress apart w is_sending opens many enough =
        let (w', same) = turned turn m opens.0 w in
        let m' : State platform = record m { os = turn m.os } in
        subst
          (λ k.
            Ensures (λ _. Sent) BrokenIs (λ _. ⊥) (if_sending platform k (again fuel turn turns) m))
          (sym is_sending)
          (Ensures-and_then (λ _. MovedIs (left m')) (λ _. Sent) BrokenIs (λ _. ⊥)
            (process_request_write platform fuel m') (λ _. visits platform fuel turns)
            (process_request_write-Moved platform streams fit f s readiness total f_ne s_ne fuel m'
              progress apart w' (opens.0 m.os).2 is_sending (omega (arith, enough, same)))
            (λ _ m2 moved.
              after_visit fuel turns (left m') m2
                (λ m3 w3 still less.
                  visits-Complete fuel turns m3 progress apart w3 still opens.1
                    (omega (arith, less, same, many)) (omega (arith, less, same, enough)))
                moved))
