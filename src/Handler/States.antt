-- ===== src/Handler/States.antt =====
-- In which state src/handler.c leaves a connection, on every path.
use cn_cw.Common.{
  length, ℕ, zero, suc, ◌≡◌, refl, ◌⊎◌, inl, inr, Bool, true, false, Option, none, some, [], ◌∷◌,
  ltb, ◌==◌, ◌||◌, Bool-cases, Bytes,
}
use cn_cw.Conn.{ConnectionState, sending, complete, err_recoverable, err_unrecoverable, Conn}
use cn_cw.Handler.{
  bytes_at, State, give_up, refilled, refill, drained, drain, after_drain, after_refill, write_loop,
  write_file, process_request_write,
}
use cn_cw.Handler.Keeps.{Keeps, Never, log_perror-Keeps}
use cn_cw.Outcome.{Cmd, Leaves, Leaves-and_then}
use cn_cw.Platform.{
  Platform, Answer, got, failed, Errno, eacces, enotdir, enoent, eagain, ewouldblock, eintr, other,
}

-- There is a file to send.
abbrev pub HasFile : Conn → Type 0
HasFile c = (fd : ℕ) × (c.file_fd ≡ some fd)

module _ (platform : Platform) where
  open platform use {Os, read, write}

  -- Where `give_up` jumps, the connection's state is the one it sets.
  pub give_up-Jumps :
      {A : Type 0} (s : ConnectionState) (err : Errno) (text : Bytes) (m : State platform)
      (P : A → State platform → Type 0)
      → Leaves P (λ m'. m'.client.state ≡ s) (give_up platform {A = A} s err text m)
  unfolding give_up
  give_up-Jumps s err text m P =
      Leaves-and_then (Keeps platform m.client) (Never platform) P (λ m'. m'.client.state ≡ s) _ _
        (log_perror-Keeps platform _ _ _ m) (λ s h. absurd h) (λ a m' e. refl)

  -- The state is still `sending`, and there is a file to send, or `complete` is now set.
  abbrev pub Underway : {A : Type 0} → A → State platform → Type 0
  Underway _ m = (m.client.state ≡ complete) ⊎ ((m.client.state ≡ sending) × HasFile m.client)

  abbrev pub Broken : State platform → Type 0
  Broken m = m.client.state ≡ err_unrecoverable

  -- Where `process_request` may leave a connection that it was given: `complete`, or `sending`
  -- with a file, when it returns, or as before.
  abbrev pub Settled : {A : Type 0} → Conn → A → State platform → Type 0
  Settled c _ m =
      (m.client.state ≡ complete)
      ⊎ (((m.client.state ≡ sending) × HasFile m.client) ⊎ (m.client.state ≡ c.state))

  abbrev pub Failed : State platform → Type 0
  Failed m = (m.client.state ≡ err_recoverable) ⊎ (m.client.state ≡ err_unrecoverable)

  refilled-Underway :
      (r : Answer Bytes × Os) (m : State platform)
      → Underway tt m
      → Leaves Underway Broken (refilled platform r m)
  unfolding refilled
  refilled-Underway (got [], os) m h = inl refl
  refilled-Underway (got (b ∷ bs), os) m h =
      elim (Bool-cases (ltb (length (bytes_at m.client.read_buf)) (length (b ∷ bs)))) [
        | inl e ↦ rw e tt
        | inr e ↦ rw e (h)
      ]
  refilled-Underway (failed err, os) m h = give_up-Jumps err_unrecoverable err _ _ Underway

  refill-Underway :
      (file_fd : ℕ) (m : State platform)
      → Underway tt m
      → Leaves Underway Broken (refill platform file_fd m)
  unfolding refill
  refill-Underway file_fd m h =
      elim (Bool-cases
        (m.client.read_buf_len == 0 || m.client.read_buf_cursor == m.client.read_buf_len)) [
          | inl written ↦ rw written (refilled-Underway _ m h)
          | inr left ↦ rw left h
        ]

  drained-Underway :
      (r : Answer ℕ × Os) (m : State platform)
      → Underway tt m
      → Leaves Underway Broken (drained platform r m)
  unfolding drained
  drained-Underway (got n, os) m h = h
  drained-Underway (failed eagain, os) m h = h
  drained-Underway (failed ewouldblock, os) m h = h
  drained-Underway (failed eacces, os) m h = give_up-Jumps err_unrecoverable eacces _ _ Underway
  drained-Underway (failed enotdir, os) m h = give_up-Jumps err_unrecoverable enotdir _ _ Underway
  drained-Underway (failed enoent, os) m h = give_up-Jumps err_unrecoverable enoent _ _ Underway
  drained-Underway (failed eintr, os) m h = give_up-Jumps err_unrecoverable eintr _ _ Underway
  drained-Underway (failed other, os) m h = give_up-Jumps err_unrecoverable other _ _ Underway

  drain-Underway : (m : State platform) → Underway tt m → Leaves Underway Broken (drain platform m)
  unfolding drain
  drain-Underway m h = elim (Bool-cases (ltb m.client.read_buf_cursor m.client.read_buf_len)) [
    | inl left ↦ rw left (drained-Underway _ m h)
    | inr none_left ↦ rw none_left tt
  ]

  -- The rest of a round keeps to these states if the next round does.
  after_drain-Underway :
      (again : Cmd (State platform) (Unit {0}))
      → ((m : State platform) → Underway tt m → Leaves Underway Broken (again m))
      → (stop : Bool) (m : State platform) → Underway tt m
      → Leaves Underway Broken (after_drain platform again stop m)
  unfolding after_drain
  after_drain-Underway again next true m h = h
  after_drain-Underway again next false m h = next m h

  after_refill-Underway :
      (again : Cmd (State platform) (Unit {0}))
      → ((m : State platform) → Underway tt m → Leaves Underway Broken (again m))
      → (stop : Bool) (m : State platform) → Underway tt m
      → Leaves Underway Broken (after_refill platform again stop m)
  unfolding after_refill
  after_refill-Underway again next true m h = h
  after_refill-Underway again next false m h =
      Leaves-and_then Underway Broken Underway Broken _ _ (drain-Underway m h) (λ s e. e)
        (λ stop m' u. after_drain-Underway again next stop m' u)

  write_loop-Underway :
      (fuel file_fd : ℕ) (m : State platform)
      → Underway tt m
      → Leaves Underway Broken (write_loop platform fuel file_fd m)
  unfolding write_loop
  write_loop-Underway zero file_fd m h = tt
  write_loop-Underway (suc fuel) file_fd m h =
      Leaves-and_then Underway Broken Underway Broken _ _ (refill-Underway file_fd m h) (λ s e. e)
        (λ stop m' u. after_refill-Underway _ (write_loop-Underway fuel file_fd) stop m' u)

  write_file-Underway :
      (fuel : ℕ) (file_fd : Option ℕ) (m : State platform)
      → Underway tt m
      → Leaves Underway Broken (write_file platform fuel file_fd m)
  unfolding write_file
  write_file-Underway fuel none m h = tt
  write_file-Underway fuel (some fd) m h = write_loop-Underway fuel fd m h

  pub process_request_write-Underway :
      (fuel : ℕ) (m : State platform)
      → Underway tt m
      → Leaves Underway Broken (process_request_write platform fuel m)
  unfolding process_request_write
  process_request_write-Underway fuel m h = write_file-Underway fuel _ m h
