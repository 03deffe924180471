-- ===== src/Agent/Reconcile.antt =====
-- The reconciliation of nodelet/pkg/nodelet/nodelet.go: the handlers of the desired service state,
-- `Reconcile`, the loop of `Run`, and the operations on one phase.
pub mod Safety
pub mod Running
pub mod Progress
pub mod Counter
pub mod Roleless
use nodelet.Shared.{
  ℕ, zero, suc, Bool, true, false, not, ◌&&◌, ◌||◌, Option, none, some, ◌==◌, eqb, if◌then◌else◌, ℤ,
  pos, minus_one, abs, ◌+ℤ◌, divides_ℤ, get_elem?, length,
}
use nodelet.Config.{
  start_op, stop_op, role_none, service_state_true, service_state_false, ok_state, failed_state,
  stopped_state,
}
use nodelet.Extension.{ExtensionData, prefix}
use nodelet.Agent.State.{
  Phase, start, stop, call, Setup, Nodelet, Outcome, done, panic, exit, ◌>>=◌, emit, with_state,
  phase_at,
}
use nodelet.Agent.Persist.{
  try_to_persist_status, persist_status_and_update_config, set_kube_env_symlink,
}
use nodelet.Agent.Chain.{check_status, start_phases, stop_phases}

module _ (s : Setup) where
  open s use {env, config, phases}

  -- The test of `handleServiceStartState` for a service that runs as it should.
  unfoldable pub already_running : ExtensionData → Bool
  already_running d =
      d.kube_running
      && (d.cluster_id == config.cluster_id && d.cluster_role == config.cluster_role
          || d.cluster_role == role_none && d.cluster_id == "")

  -- The branch for a service that runs.
  unfoldable pub confirm_running : Nodelet → Nodelet
  confirm_running = with_state λ d. record d {
    start_attempts = pos 0;
    service_state = service_state_true;
    start_fail_step = minus_one;
    completed_phases = prefix (length d.all_phases);
  }

  -- What follows the call of `Start`. The name of the failed phase is only logged, but reading it
  -- may panic.
  unfoldable pub after_start : ℕ × Bool × Nodelet → Outcome Nodelet
  after_start (step, true, n) = elim (get_elem? phases step) [
    | none ↦ panic
    | some p ↦ done (
        with_state
          (λ d. record d { service_state = service_state_false; start_fail_step = pos step }) n)
  ]
  after_start (step, false, n) = done (
      with_state
        (λ d. record d {
          start_attempts = pos 0;
          service_state = service_state_true;
          last_failed_phase = "";
          start_fail_step = minus_one;
        })
        n)

  -- The stop and start of the other branch, from the index `failed_check`.
  unfoldable pub restart_from : ℤ → Nodelet → Outcome Nodelet
  unfolding after_start
  restart_from failed_check n = do
    (_, n1) ← stop_phases s failed_check false n
    let n2 =
        with_state
          (λ d. record d { cluster_id = config.cluster_id; cluster_role = config.cluster_role }) n1
    result ← start_phases s failed_check n2
    after_start result

  -- The other branch. A retry count of 0 makes the remainder panic.
  unfoldable pub start_service : Nodelet → Outcome Nodelet
  start_service n =
      let failed_check = n.current_state.failed_status_check in
      let attempts = n.current_state.start_attempts +ℤ pos 1 in
      let n1 = with_state (λ d. record d { start_attempts = attempts }) n in
      if eqb (abs config.full_retry_count) 0
      then panic
      else restart_from (if divides_ℤ config.full_retry_count attempts then pos 0 else failed_check)
          n1

  -- `handleServiceStartState`.
  unfoldable pub handle_service_start_state : Nodelet → Outcome Nodelet
  handle_service_start_state n = if config.disable_scripts then done n else do
    let n1 = with_state (λ d. record d { operation = start_op }) n
    n2 ← (if already_running n1.current_state then done (confirm_running n1) else start_service n1)
    done (try_to_persist_status s n2)

  -- `handleServiceStopState`.
  unfoldable pub handle_service_stop_state : Nodelet → Outcome Nodelet
  handle_service_stop_state n =
      let n1 = with_state (λ d. record d { operation = stop_op }) n in
      if config.disable_scripts
      then done n1
      else if not n1.current_state.kube_running
      then done n1
      else do
        (_, n2) ← stop_phases s (pos 0) false n1
        done (with_state (λ d. record d { start_fail_step = minus_one }) n2)

  -- The `switch` of `Reconcile`.
  unfoldable pub handle_service_state : Nodelet → Outcome Nodelet
  handle_service_state n =
      if config.kube_service_state == service_state_true
      then handle_service_start_state n
      else if config.kube_service_state == service_state_false
      then handle_service_stop_state n
      else done n

  -- `Reconcile`: whether it returns an error, and the agent.
  unfoldable pub reconcile : Nodelet → Outcome (Bool × Nodelet)
  reconcile n = do
    n1 ← handle_service_state (check_status s n)
    if config.disable_config_update
        then done (false, try_to_persist_status s n1)
        else persist_status_and_update_config s n1

  -- The loop of `Run` up to `rounds` rounds: it ends by itself when looping is disabled, and the
  -- agent's context may be cancelled after any number of rounds.
  unfoldable pub run_loop : ℕ → Nodelet → Outcome Nodelet
  run_loop zero n = done n
  run_loop (suc rounds) n = elim (reconcile n) [
    | panic ↦ panic
    | exit m ↦ exit m
    | done r ↦ let next = run_loop rounds r.1 in if config.disable_loop then done r.1 else next
  ]

  -- `Run`, cancelled after `rounds` rounds.
  unfoldable pub run : ℕ → Nodelet → Outcome Nodelet
  run rounds n = do
    (_, n1) ← persist_status_and_update_config s n
    let n2 =
        (if config.cluster_id == ""
          then with_state (λ d. record d { node_state = ok_state; start_attempts = pos 0 }) n1
          else n1)
    run_loop rounds (set_kube_env_symlink s n2).1

  -- `StartSinglePhase`: it looks at the status of the phase, not at the error of the call.
  start_single : Option Phase → Nodelet → Outcome (Bool × Nodelet)
  start_single none n = panic
  start_single (some p) n =
      let n1 = emit (call start p) n in done (env.phase_status n1.trace p == failed_state, n1)

  unfoldable pub start_single_phase : ℤ → Nodelet → Outcome (Bool × Nodelet)
  unfolding start_single phase_at
  start_single_phase i n = start_single (phase_at phases i) n

  -- `StopSinglePhase`.
  stop_single : Option Phase → Nodelet → Outcome (Bool × Nodelet)
  stop_single none n = panic
  stop_single (some p) n =
      let n1 = emit (call stop p) n in done (not (env.phase_status n1.trace p == stopped_state), n1)

  unfoldable pub stop_single_phase : ℤ → Nodelet → Outcome (Bool × Nodelet)
  unfolding stop_single phase_at
  stop_single_phase i n = stop_single (phase_at phases i) n

  -- `SkipGenCertsPhase`.
  unfoldable pub skip_gen_certs_phase : Nodelet → Nodelet
  skip_gen_certs_phase =
      with_state λ d. record d { operation = start_op; failed_status_check = minus_one }
