-- ===== src/Master/Workers.antt =====
-- The workers of the master (src/server.c): whichever way `run_server` comes back, no worker is left.
use cn_cw.Common.{
  ℕ, zero, suc, ◌+◌, ◌≡◌, refl, sym, ap, ◌∙◌, subst, inl, inr, Bool, true, false, Option, none,
  some, List, [], ◌∷◌, ◌++◌, arith, ◌==◌, Bool-cases, Bytes, codes, length, length-append,
  replicate, if◌then◌else◌,
}
use cn_cw.Conn.{Conn, ServerSettings, HttpHeader}
use cn_cw.Format.{decimal}
use cn_cw.Http.{HttpReq}
use cn_cw.Log.{info, fatal}
use cn_cw.Machine.{Shared}
use cn_cw.Master.{
  MasterState, set_pid, refuse, validate_settings, idle, forked, create_workers, run_master,
  master_ready, validated, run_server,
}
use cn_cw.Descriptors.{one}
use cn_cw.Master.Fresh.{Fresh, init_master-Fresh}
use cn_cw.Master.Children.{
  Children, pids_held, pids_held-replicate, pids_held-set_pid, set_pid-append, Running,
  Running-Neutral, kill_workers_running,
}
use cn_cw.Memory.Neutral.{Stable, Stable-and_then, log_msg-Stable, log_perror-Stable}
use cn_cw.Outcome.{Outcome, returns, spins, Cmd, and_then, Leaves, Leaves-and_then, Leaves-mono}
use cn_cw.PgList.{PgList, Appends}
use cn_cw.Platform.{Platform, Answer, got, failed}
use cn_cw.Sockets.{Sockets, Processes}
use cn_cw.Worker.{Active}
use cn_cw.Worker.Kept.{run_child-AllKept}
use cn_cw.Worker.States.{AllKept}

module _ (platform : Platform) {sockets : Sockets platform} {processes : Processes platform}
    (children : Children platform sockets processes) (y : ℕ)
    (headers : PgList (platform.Os) HttpHeader Conn) (appends : Appends headers)
    (conns : PgList (platform.Os) Active (Unit {0})) (conns_append : Appends conns) (fuel : ℕ)
    (req : HttpReq) (turns : ℕ) (settings : ServerSettings) where
  open platform use {Os}
  open processes use {fork}
  open children use {running, fork_got, fork_failed}

  abbrev RunningIs : ℕ → Shared Os → Type 0
  RunningIs n = Running platform children y n

  -- The server comes back, as it does only in the parent and after a failure, with no worker left.
  abbrev pub Reaped : ℕ → Bool → Shared Os → Type 0
  Reaped base ok m = (ok ≡ false) × RunningIs base m

  then_spins :
      (base : ℕ) {A : Type 0} (o : Outcome (Shared Os) A)
      → Leaves (λ _ _. Unit {0}) (λ _. ⊥) o
      → Leaves (Reaped base) (λ _. ⊥) (and_then o (λ _. spins))
  then_spins base o h =
      Leaves-and_then (λ _ _. Unit {0}) (λ _. ⊥) (Reaped base) (λ _. ⊥) o _ h (λ s e. e)
        (λ a s _. tt)

  idle-Reaped :
      (n base : ℕ) (m : Shared Os)
      → Leaves (Reaped base) (λ _. ⊥) (idle platform sockets processes n m)
  unfolding idle
  idle-Reaped zero base m = tt
  idle-Reaped (suc n) base m = idle-Reaped n base _

  one_more :
      (front rest : List (Option ℕ)) (pid : ℕ) (pids : List (Option ℕ))
      → pids ≡ front ++ none ∷ rest
      → pids_held (set_pid (length front) pid pids) y ≡ pids_held pids y + one pid y
  one_more front rest pid pids p =
      subst (λ l. pids_held (set_pid (length front) pid l) y ≡ pids_held l y + one pid y) (sym p)
        (pids_held-set_pid front rest pid y)

  -- A step of the loop, where `front` are the pids of the workers so far.
  forked-Reaped :
      (base : ℕ) (front rest : List (Option ℕ)) (state : MasterState)
      (next : MasterState → Cmd (Shared Os) Bool) (r : Answer ℕ) (os : Os) (m : Shared Os)
      → fork m.os ≡ (r, os)
      → state.pids ≡ front ++ none ∷ rest
      → RunningIs (base + pids_held state.pids y) m
      → ((state' : MasterState) (m' : Shared Os) (pid : ℕ)
          → state'.pids ≡ (front ++ some pid ∷ []) ++ rest
          → RunningIs (base + pids_held state'.pids y) m'
          → Leaves (Reaped base) (λ _. ⊥) (next state' m'))
      → Leaves
          (Reaped base)
          (λ _. ⊥)
          (forked platform sockets processes headers conns fuel req turns settings
            (length front)
            state
            next
            (r, os)
            m)
  unfolding forked
  forked-Reaped base front rest state next (failed err) os m e p h ok =
      Stable-and_then (RunningIs (base + pids_held state.pids y)) (Reaped base) (λ _. ⊥) _ _
        (log_perror-Stable platform _
          (Running-Neutral platform children y (base + pids_held state.pids y)) fatal err
          (codes "fork failed") (record m { os = os }) (fork_failed m.os y e ∙ h))
        (λ _ m' h'.
          (refl, omega (arith, h', kill_workers_running platform children y state.pids m'.os)))
  forked-Reaped base front rest state next (got pid) os m e p h ok = elim (Bool-cases (pid == 0)) [
    | inl child ↦ rw child (
        then_spins base _ (
          Leaves-mono (AllKept platform conns) (λ _ _. Unit {0}) (λ _. ⊥) (λ _. ⊥) _
            (run_child-AllKept platform sockets headers appends conns conns_append fuel req settings
              turns state.sock_fd (record m { os = os }))
            (λ a s _. tt) (λ s e. e)))
    | inr parent ↦ rw parent (
        Stable-and_then (RunningIs (base + pids_held state.pids y + one pid y)) (Reaped base)
          (λ _. ⊥) _ _
          (log_msg-Stable platform _
            (Running-Neutral platform children y (base + pids_held state.pids y + one pid y)) info
            (codes "created worker with pid " ++ decimal pid) (record m { os = os })
            (fork_got m.os y e parent ∙ ap (λ n. n + one pid y) h))
          (λ _ m' h'.
            ok _ m' pid (ap (set_pid (length front) pid) p ∙ set_pid-append front rest pid)
              (omega (arith, h', one_more front rest pid state.pids p))))
  ]

  create_workers-Reaped :
      (todo base : ℕ) (front : List (Option ℕ)) (i : ℕ) (state : MasterState) (m : Shared Os)
      → i ≡ length front
      → state.pids ≡ front ++ replicate todo none
      → RunningIs (base + pids_held state.pids y) m
      → Leaves
          (Reaped base)
          (λ _. ⊥)
          (create_workers platform sockets processes headers conns fuel req turns settings todo i
            state m)
  unfolding create_workers
  create_workers-Reaped zero base front i state m e p h = idle-Reaped turns base m
  create_workers-Reaped (suc todo) base front i state m e p h =
      subst
        (λ j.
          Leaves (Reaped base) (λ _. ⊥)
            (forked platform sockets processes headers conns fuel req turns settings j state
              (create_workers platform sockets processes headers conns fuel req turns settings todo
                (i + 1))
              (fork m.os) m))
        (sym e)
        (forked-Reaped base front (replicate todo none) state
          (create_workers platform sockets processes headers conns fuel req turns settings todo
            (i + 1))
          (fork m.os).0 (fork m.os).1 m refl p h
          (λ state' m' pid p' h'.
            create_workers-Reaped todo base (front ++ some pid ∷ []) (i + 1) state' m'
              (omega (arith, e, length-append front (some pid ∷ []))) p' h'))

  run_master-Reaped :
      (base : ℕ) (state : MasterState) (m : Shared Os)
      → state.pids ≡ replicate settings.process_count none
      → RunningIs base m
      → Leaves
          (Reaped base)
          (λ _. ⊥)
          (run_master platform sockets processes headers conns fuel req turns settings state m)
  unfolding run_master
  run_master-Reaped base state m p h =
      Stable-and_then (RunningIs base) (Reaped base) (λ _. ⊥) _ _
        (log_msg-Stable platform _ (Running-Neutral platform children y base) info
          (codes "creating " ++ (decimal settings.process_count ++ codes " workers")) m h)
        (λ _ m' h'. create_workers-Reaped settings.process_count base [] 0 state m' refl p (
          omega
            (arith, h', ap (λ l. pids_held l y) p, pids_held-replicate settings.process_count y)))

  master_ready-Reaped :
      (base : ℕ) (ready : Option MasterState) (m : Shared Os)
      → Fresh platform children y base settings ready m
      → Leaves
          (Reaped base)
          (λ _. ⊥)
          (master_ready platform sockets processes headers conns fuel req turns settings ready m)
  unfolding master_ready
  master_ready-Reaped base none m h = (refl, h)
  master_ready-Reaped base (some state) m h =
      Stable-and_then (RunningIs base) (Reaped base) (λ _. ⊥) _ _
        (log_msg-Stable platform _ (Running-Neutral platform children y base) info
          (codes "initialized master") m h.1)
        (λ _ m' h'. run_master-Reaped base state m' h.0 h')

  validated-Reaped :
      (base : ℕ) (ok : Bool) (m : Shared Os)
      → RunningIs base m
      → Leaves
          (Reaped base)
          (λ _. ⊥)
          (validated platform sockets processes headers conns fuel req turns settings ok m)
  unfolding validated
  validated-Reaped base false m h = (refl, h)
  validated-Reaped base true m h =
      Stable-and_then (RunningIs base) (Reaped base) (λ _. ⊥) _ _
        (log_msg-Stable platform _ (Running-Neutral platform children y base) info
          (codes "validated settings") m h)
        (λ _ m1 h1.
          Leaves-and_then (Fresh platform children y base settings) (λ _. ⊥) (Reaped base) (λ _. ⊥)
            _ _ (init_master-Fresh platform children y base settings m1 h1) (λ s e. e)
            (master_ready-Reaped base))

  refuse-Running :
      (base : ℕ) (text : Bytes) (m : Shared Os)
      → RunningIs base m
      → Stable (RunningIs base) (refuse platform text m)
  unfolding refuse
  refuse-Running base text m h =
      Stable-and_then (RunningIs base) (λ _. RunningIs base) (λ _. ⊥) _ _
        (log_msg-Stable platform _ (Running-Neutral platform children y base) fatal text m h)
        (λ _ m' h'. h')

  -- A setting that must not be zero.
  checked-Running :
      (base n : ℕ) (text : Bytes) (m : Shared Os) (o : Outcome (Shared Os) Bool)
      → RunningIs base m
      → Stable (RunningIs base) o
      → Stable (RunningIs base) (if n == 0 then refuse platform text m else o)
  checked-Running base n text m o h ok = elim (Bool-cases (n == 0)) [
    | inl zero_is ↦ rw zero_is (refuse-Running base text m h)
    | inr set ↦ rw set ok
  ]

  validate_settings-Running :
      (base : ℕ) (m : Shared Os)
      → RunningIs base m
      → Stable (RunningIs base) (validate_settings platform settings m)
  unfolding validate_settings
  validate_settings-Running base m h =
      checked-Running base settings.process_count
        (codes "invalid process count " ++ decimal settings.process_count) m _ h
        (checked-Running base settings.uri_length_limit
          (codes "invalid uri length limit (most be nonzero)") m _ h
          (checked-Running base settings.listen_backlog (codes "listen backlog size too small") m
            (returns true m) h h))

  -- `run_server` comes back only with `false`, and only in the master: the children that the process
  -- then has are those that it had before, since every worker that was created is killed and waited
  -- for. `fork`, `kill`, `waitpid` and the other calls of the system are as documented. Nothing is
  -- said of the runs that do not come back: those that sleep for ever, those of a child, and those
  -- that end in a fault.
  pub run_server-Reaped :
      (m : Shared Os)
      → Leaves
          (Reaped (running m.os y))
          (λ _. ⊥)
          (run_server platform sockets processes headers conns fuel req turns settings m)
  unfolding run_server
  run_server-Reaped m =
      let base = running m.os y in
      Stable-and_then (RunningIs base) (Reaped base) (λ _. ⊥) _ _
        (log_msg-Stable platform _ (Running-Neutral platform children y base) info
          (codes "initializing master") m refl)
        (λ _ m1 h1.
          Stable-and_then (RunningIs base) (Reaped base) (λ _. ⊥) _ _
            (validate_settings-Running base m1 h1) (validated-Reaped base))
