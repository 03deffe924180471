-- ===== src/Agent/Reconcile/Safety.antt =====
-- `Reconcile` of nodelet/pkg/nodelet/nodelet.go: when it does not panic, and what it keeps.
use nodelet.Shared.{
  ℕ, ◌<◌, ◌≡◌, refl, Bool, true, false, arith, length, map, ℤ, pos, negsuc, minus_one, abs, eqb,
  get_elem?-lt, length-map, ◌∙◌, ◌+ℤ◌, if◌then◌else◌, ◌==◌, not,
}
use nodelet.Config.{start_op, stop_op, service_state_true, service_state_false}
use nodelet.Agent.State.{
  SendsHosts, Returns, Returns-bind, Returns-if, Phase, Setup, Nodelet, Outcome, done, panic, exit,
  ◌>>=◌, with_state,
}
use nodelet.Agent.Persist.{try_to_persist_status, persist_status_and_update_config}
use nodelet.Agent.Persist.Frame.{
  persist-SameCore, persist_and_update-SameCore, persist_and_update-ne-panic,
}
use nodelet.Agent.Chain.{check_status, stop_phases}
use nodelet.Agent.Chain.Health.{InRange, IsIndex, check_status-SameService, check_status-InRange}
use nodelet.Agent.Chain.Started.{Started, start_phases-Started}
use nodelet.Agent.Chain.Stopped.{stop_phases-Stopped}
use nodelet.Agent.Reconcile.{
  already_running, confirm_running, after_start, restart_from, start_service,
  handle_service_start_state, handle_service_stop_state, handle_service_state, reconcile,
}

-- The agent's lists of phases are those that it was made with, and the failed start is one of them.
pub record IsWellFormed (s : Setup) (n : Nodelet) : Type 0 where
  pub names : n.current_state.all_phases ≡ map (λ p. p.name) s.phases
  pub failed_start : IsIndex 0 (length s.phases) n.current_state.start_fail_step

-- There is a phase, and the retry count is not 0.
pub record IsUsable (s : Setup) : Type 0 where
  pub some_phase : 0 < length s.phases
  pub retry_count : 0 < abs s.config.full_retry_count

module _ (s : Setup) where
  after_start-Returns :
      (i : ℕ) (n : Nodelet) (r : ℕ × Bool × Nodelet)
      → n.current_state.all_phases ≡ map (λ p. p.name) s.phases
      → Started s i n r
      → Returns (IsWellFormed s) (after_start s r)
  unfolding after_start
  after_start-Returns i n (step, true, m) names h =
      let lt : step < length s.phases =
        omega (arith, h.ends.failed_inside refl, length-map (λ (p : Phase). p.name) s.phases) in
      let (p, at) = get_elem?-lt s.phases step lt in
      rw (at, after_start) (record { names = h.ends.at.array; failed_start = (omega arith, lt) })
  after_start-Returns i n (step, false, m) names h = record {
    names = h.ends.at.array;
    failed_start = tt;
  }

  restart_from-Returns :
      (i : ℕ) (n : Nodelet)
      → i < length s.phases
      → n.current_state.all_phases ≡ map (λ p. p.name) s.phases
      → Returns (IsWellFormed s) (restart_from s (pos i) n)
  unfolding restart_from
  restart_from-Returns i n lt names =
      let (r, stopped, keeps) = stop_phases-Stopped s i false n lt names in
      rw stopped (
        let n2 : Nodelet =
          with_state
            (λ d. record d {
              cluster_id = s.config.cluster_id;
              cluster_role = s.config.cluster_role;
            })
            r.1 in
        let (q, started, result) = start_phases-Started s i n2 lt (keeps.all_phases ∙ names) in
        rw started (after_start-Returns i n2 q (keeps.all_phases ∙ names) result))

  -- The restart from a computed index.
  restart_at-Returns :
      (z : ℤ) (n : Nodelet)
      → InRange 0 (length s.phases) z
      → n.current_state.all_phases ≡ map (λ p. p.name) s.phases
      → Returns (IsWellFormed s) (restart_from s z n)
  restart_at-Returns (pos i) n h names = restart_from-Returns i n h.1 names
  restart_at-Returns (negsuc k) n h names = absurd h

  start_service-Returns :
      (n : Nodelet)
      → IsUsable s
      → n.current_state.all_phases ≡ map (λ p. p.name) s.phases
      → InRange 0 (length s.phases) n.current_state.failed_status_check
      → Returns (IsWellFormed s) (start_service s n)
  unfolding start_service
  start_service-Returns n u names h =
      let nonzero : eqb (abs s.config.full_retry_count) 0 ≡ false = ground (arith, u.retry_count) in
      rw nonzero (chosen _)
    where
      chosen :
          (b : Bool)
          → Returns (IsWellFormed s) (
              restart_from s (if b then pos 0 else n.current_state.failed_status_check) (
                with_state
                  (λ d. record d { start_attempts = n.current_state.start_attempts +ℤ pos 1 })
                  n))
      chosen true = restart_at-Returns (pos 0) _ (omega arith, u.some_phase) names
      chosen false = restart_at-Returns n.current_state.failed_status_check _ h names

  persist-IsWellFormed :
      (n : Nodelet) → IsWellFormed s n → IsWellFormed s (try_to_persist_status s n)
  persist-IsWellFormed n h = record {
    names = (persist-SameCore s n).all_phases ∙ h.names;
    failed_start = rw (persist-SameCore s n).start_fail_step h.failed_start;
  }

  handle_service_start_state-Returns :
      (n : Nodelet)
      → IsUsable s
      → IsWellFormed s n
      → InRange 0 (length s.phases) n.current_state.failed_status_check
      → Returns (IsWellFormed s) (handle_service_start_state s n)
  unfolding handle_service_start_state
  handle_service_start_state-Returns n u h k =
      Returns-if (IsWellFormed s) s.config.disable_scripts _ _ (λ _. h)
        (λ _.
          Returns-bind (IsWellFormed s) (IsWellFormed s) _ _
            (Returns-if (IsWellFormed s) (already_running s n1.current_state)
              (done (confirm_running s n1)) (start_service s n1)
              (λ _. unfold confirm_running in record { names = h.names; failed_start = tt })
              (λ _. start_service-Returns n1 u h.names k))
            (λ m w. persist-IsWellFormed m w))
    where
      n1 : Nodelet
      n1 = with_state (λ d. record d { operation = start_op }) n

  handle_service_stop_state-Returns :
      (n : Nodelet)
      → IsUsable s
      → IsWellFormed s n
      → Returns (IsWellFormed s) (handle_service_stop_state s n)
  unfolding handle_service_stop_state
  handle_service_stop_state-Returns n u h =
      Returns-if (IsWellFormed s) s.config.disable_scripts _ _ (λ _. same)
        (λ _.
          Returns-if (IsWellFormed s) (not n.current_state.kube_running) _ _ (λ _. same)
            (λ _. stopped))
    where
      n1 : Nodelet
      n1 = with_state (λ d. record d { operation = stop_op }) n

      same : IsWellFormed s n1
      same = record { names = h.names; failed_start = h.failed_start }

      stopped : Returns (IsWellFormed s) (
          stop_phases s (pos 0) false n1 >>= λ r.
          done (with_state (λ d. record d { start_fail_step = minus_one }) r.1))
      stopped =
          let (q, e, keeps) = stop_phases-Stopped s 0 false n1 u.some_phase h.names in
          rw e (record { names = keeps.all_phases ∙ h.names; failed_start = tt })

  handle_service_state-Returns :
      (n : Nodelet)
      → IsUsable s
      → IsWellFormed s n
      → InRange 0 (length s.phases) n.current_state.failed_status_check
      → Returns (IsWellFormed s) (handle_service_state s n)
  unfolding handle_service_state
  handle_service_state-Returns n u h k =
      Returns-if (IsWellFormed s) (s.config.kube_service_state == service_state_true) _ _
        (λ _. handle_service_start_state-Returns n u h k)
        (λ _.
          Returns-if (IsWellFormed s) (s.config.kube_service_state == service_state_false) _ _
            (λ _. handle_service_stop_state-Returns n u h) (λ _. h))

  check_status-IsWellFormed : (n : Nodelet) → IsWellFormed s n → IsWellFormed s (check_status s n)
  check_status-IsWellFormed n h = record {
    names = (check_status-SameService s n).all_phases ∙ h.names;
    failed_start = rw (check_status-SameService s n).start_fail_step h.failed_start;
  }

  pub persist_and_update-Returns :
      SendsHosts s.env
      → (n : Nodelet) → IsWellFormed s n
      → Returns (λ r. IsWellFormed s r.1) (persist_status_and_update_config s n)
  persist_and_update-Returns sends n h = by_outcome (persist_status_and_update_config s n) refl
    where
      by_outcome :
          (o : Outcome (Bool × Nodelet))
          → persist_status_and_update_config s n ≡ o
          → Returns (λ r. IsWellFormed s r.1) o
      by_outcome (done (b, m)) e =
          let same = persist_and_update-SameCore s n {b = b} {m = m} e in
          record {
            names = same.all_phases ∙ h.names;
            failed_start = rw same.start_fail_step h.failed_start;
          }
      by_outcome panic e = absurd (persist_and_update-ne-panic s sends n e)
      by_outcome (exit m) e = tt

  -- One round of `Reconcile` on a well-formed agent, with some phase and a retry count that is not
  -- 0, does not panic, where every operation of a phase returns and Sunpike never answers without a
  -- host; the agent that it returns is well-formed: its list of phases is that of its setup, and a
  -- recorded failed start is the index of a phase.
  pub reconcile-IsWellFormed :
      SendsHosts s.env
      → (n : Nodelet) → IsUsable s
      → IsWellFormed s n
      → Returns (λ r. IsWellFormed s r.1) (reconcile s n)
  unfolding reconcile
  reconcile-IsWellFormed sends n u h =
      Returns-bind (IsWellFormed s) (λ r. IsWellFormed s r.1) _ _
        (handle_service_state-Returns (check_status s n) u (check_status-IsWellFormed n h)
          (check_status-InRange s n u.some_phase h.failed_start))
        (λ m w.
          Returns-if (λ r. IsWellFormed s r.1) s.config.disable_config_update _ _
            (λ _. persist-IsWellFormed m w) (λ _. persist_and_update-Returns sends m w))
